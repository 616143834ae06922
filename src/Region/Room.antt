-- ===== src/Region/Room.antt =====
-- The eviction loop ends.
use aaaos_renovation_agent_o.Prelude.{
  ℕ, zero, suc, ◌+◌, ◌-◌, ◌≤◌, ◌<◌, ◌≡◌, refl, false, Option, some, arith, Bool-cases, inl, inr,
  ◌==◌,
}
use aaaos_renovation_agent_o.Proc.{Context, context_max_nodes}
use aaaos_renovation_agent_o.Region.{Region, evict_oldest, evict_arrays, is_short, make_room}

-- An eviction takes a node away, or empties a path that has none.
evict_oldest-count :
    (c : Context) (r : Region)
    → ((evict_oldest c r).0.node_count ≤ c.node_count - 1)
      × (c.node_count ≡ 0 → (evict_oldest c r).0.path_len ≡ 0)
unfolding evict_oldest evict_arrays
evict_oldest-count c r = ground arith

is_short-empty :
    (c : Context) (capacity rec_len : ℕ)
    → c.node_count ≡ 0
    → c.path_len ≡ 0
    → rec_len ≤ capacity
    → is_short c capacity rec_len ≡ false
unfolding is_short
is_short-empty c capacity rec_len n l h = ground arith

make_room-free :
    (fuel capacity rec_len : ℕ) (c : Context) (r : Region)
    → is_short c capacity rec_len ≡ false
    → make_room fuel capacity rec_len c r ≡ some (c, r)
unfolding make_room
make_room-free zero capacity rec_len c r h = rw h refl
make_room-free (suc fuel) capacity rec_len c r h = rw h refl

free-room :
    (c : Context) (capacity rec_len : ℕ)
    → is_short c capacity rec_len ≡ false
    → (c.node_count < context_max_nodes) × (c.path_len + rec_len ≤ capacity)
unfolding is_short
free-room c capacity rec_len h = ground arith

-- The result of a loop that ends
abbrev pub Ends : Option (Context × Region) → ℕ → ℕ → Type 0
Ends o capacity rec_len =
    (s : Context × Region) × (o ≡ some s)
    × (s.0.node_count < context_max_nodes)
    × (s.0.path_len + rec_len ≤ capacity)

free-Ends :
    (fuel capacity rec_len : ℕ) (c : Context) (r : Region)
    → is_short c capacity rec_len ≡ false
    → Ends (make_room fuel capacity rec_len c r) capacity rec_len
free-Ends fuel capacity rec_len c r h =
    let (n, l) = free-room c capacity rec_len h in
    ((c, r), make_room-free fuel capacity rec_len c r h, n, l)

-- Fuel for one eviction more than there are nodes is enough for the eviction loop, if the record is
-- not longer than the capacity: it ends, with a free node and room for the record.
pub make_room-enough :
    (fuel capacity rec_len : ℕ) (c : Context) (r : Region)
    → c.node_count < fuel
    → rec_len ≤ capacity
    → Ends (make_room fuel capacity rec_len c r) capacity rec_len
unfolding make_room
make_room-enough zero capacity rec_len c r f h = absurd (omega arith)
make_room-enough (suc fuel) capacity rec_len c r f h =
    elim (Bool-cases (is_short c capacity rec_len)) [
      | inr s ↦ rw s (let (n, l) = free-room c capacity rec_len s in ((c, r), refl, n, l))
      | inl s ↦ rw s (elim (Bool-cases (c.node_count == 0)) [
        | inl z ↦ free-Ends fuel capacity rec_len (evict_oldest c r).0 (evict_oldest c r).1 (
            is_short-empty (evict_oldest c r).0 capacity rec_len
              (let (k, e) = evict_oldest-count c r in ground arith)
              (let (k, e) = evict_oldest-count c r in e (ground arith)) h)
        | inr z ↦
            make_room-enough fuel capacity rec_len (evict_oldest c r).0 (evict_oldest c r).1
              (let (k, e) = evict_oldest-count c r in ground arith) h
      ])
    ]
