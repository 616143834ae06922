-- ===== src/Events/Bits.antt =====
-- Setting and clearing one bit of a word, seen through the test of a bit.
use aaaos_renovation_agent_o.Prelude.{ℕ, ◌≡◌, true, false, arith, has_bit, set_bit, clear_bit}

-- A set bit is there, and the others stay: for the four event bits.
pub has-set_heartbeat :
    (w : ℕ)
    → (has_bit 1 (set_bit 1 w) ≡ true)
      × (has_bit 2 (set_bit 1 w) ≡ has_bit 2 w)
      × (has_bit 4 (set_bit 1 w) ≡ has_bit 4 w)
      × (has_bit 8 (set_bit 1 w) ≡ has_bit 8 w)
unfolding has_bit set_bit
has-set_heartbeat w = ground arith

pub has-set_message :
    (w : ℕ)
    → (has_bit 1 (set_bit 2 w) ≡ has_bit 1 w)
      × (has_bit 2 (set_bit 2 w) ≡ true)
      × (has_bit 4 (set_bit 2 w) ≡ has_bit 4 w)
      × (has_bit 8 (set_bit 2 w) ≡ has_bit 8 w)
unfolding has_bit set_bit
has-set_message w = ground arith

pub has-set_filemod :
    (w : ℕ)
    → (has_bit 1 (set_bit 4 w) ≡ has_bit 1 w)
      × (has_bit 2 (set_bit 4 w) ≡ has_bit 2 w)
      × (has_bit 4 (set_bit 4 w) ≡ true)
      × (has_bit 8 (set_bit 4 w) ≡ has_bit 8 w)
unfolding has_bit set_bit
has-set_filemod w = ground arith

pub has-set_parent_gone :
    (w : ℕ)
    → (has_bit 1 (set_bit 8 w) ≡ has_bit 1 w)
      × (has_bit 2 (set_bit 8 w) ≡ has_bit 2 w)
      × (has_bit 4 (set_bit 8 w) ≡ has_bit 4 w)
      × (has_bit 8 (set_bit 8 w) ≡ true)
unfolding has_bit set_bit
has-set_parent_gone w = ground arith

pub has-clear_heartbeat :
    (w : ℕ)
    → (has_bit 1 (clear_bit 1 w) ≡ false)
      × (has_bit 2 (clear_bit 1 w) ≡ has_bit 2 w)
      × (has_bit 4 (clear_bit 1 w) ≡ has_bit 4 w)
      × (has_bit 8 (clear_bit 1 w) ≡ has_bit 8 w)
unfolding has_bit clear_bit
has-clear_heartbeat w = ground arith

pub has-clear_message :
    (w : ℕ)
    → (has_bit 1 (clear_bit 2 w) ≡ has_bit 1 w)
      × (has_bit 2 (clear_bit 2 w) ≡ false)
      × (has_bit 4 (clear_bit 2 w) ≡ has_bit 4 w)
      × (has_bit 8 (clear_bit 2 w) ≡ has_bit 8 w)
unfolding has_bit clear_bit
has-clear_message w = ground arith

pub has-clear_filemod :
    (w : ℕ)
    → (has_bit 1 (clear_bit 4 w) ≡ has_bit 1 w)
      × (has_bit 2 (clear_bit 4 w) ≡ has_bit 2 w)
      × (has_bit 4 (clear_bit 4 w) ≡ false)
      × (has_bit 8 (clear_bit 4 w) ≡ has_bit 8 w)
unfolding has_bit clear_bit
has-clear_filemod w = ground arith

pub has-clear_parent_gone :
    (w : ℕ)
    → (has_bit 1 (clear_bit 8 w) ≡ has_bit 1 w)
      × (has_bit 2 (clear_bit 8 w) ≡ has_bit 2 w)
      × (has_bit 4 (clear_bit 8 w) ≡ has_bit 4 w)
      × (has_bit 8 (clear_bit 8 w) ≡ false)
unfolding has_bit clear_bit
has-clear_parent_gone w = ground arith
