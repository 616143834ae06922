-- ===== src/Wheel/Beats.antt =====
-- The second loop of agent_tick of kernel/agent_loop.c along a chain: every process of it gets its
-- heartbeat if that is due, and goes back into the wheel.
use aaaos_renovation_agent_o.Prelude.{
  ℕ, zero, suc, ◌+◌, ◌-◌, ◌≤◌, ◌<◌, ◌≡◌, ◌≢◌, refl, sym, ap, ◌∙◌, true, false, some, List, [], ◌∷◌,
  get_elem?, set, Bool-cases, inl, inr, ◌⊎◌, arith, All, length, ◌==◌, has_bit, set_bit, Bool,
  if◌then◌else◌, u64, ◌&&◌,
}
use aaaos_renovation_agent_o.Proc.{Proc, nproc, runnable, is_sleeping, is_own_chan}
use aaaos_renovation_agent_o.Events.{signal_event}
use aaaos_renovation_agent_o.Events.Bits.{has-set_heartbeat}
use aaaos_renovation_agent_o.Wheel.{
  Wheel, wheel_proc, next_of, next_or_zero, beat, beat_at, beat_found, beat_chain, beats_on, is_due,
  wheel_insert, wheel_link,
}
use aaaos_renovation_agent_o.Wheel.Pointwise.{
  Pointwise, Elsewhere, set-Pointwise, modify-Pointwise, set-Elsewhere, modify-Elsewhere,
}
use aaaos_renovation_agent_o.Wheel.Chain.{
  Chain, Distinct, Like, Like-refl, Pointwise-trans, Off, wheel_proc-at,
}

beat-Like :
    (p : Proc) (now : ℕ) → Like p (beat p now) × ((beat p now).wheel.active ≡ p.wheel.active)
unfolding beat signal_event
beat-Like p now =
    elim (Bool-cases (is_due (record p { wheel = record p.wheel { next = 0 } }) now)) [
      | inr e ↦ rw e (Like-refl p, refl)
      | inl e ↦ rw e (
        (
          refl,
          refl,
          refl,
          refl,
          (λ h. (has-set_heartbeat p.pending_events).0),
          woken (is_sleeping p.state && is_own_chan p.chan),
        ),
        refl,
      )
    ]
  where
    woken :
        (b : Bool)
        → ((if b then runnable else p.state) ≡ p.state)
          ⊎ (((if b then runnable else p.state) ≡ runnable)
              × (has_bit 1 (set_bit 1 p.pending_events) ≡ true))
    woken true = inr (refl, (has-set_heartbeat p.pending_events).0)
    woken false = inl refl

-- A link back into the wheel changes the entry of the process only.
link-Like :
    (ps : List Proc) (w : Wheel) (i : ℕ) (q : Proc)
    → Pointwise Like ps (wheel_link ps w i q).0 × Elsewhere i ps (wheel_link ps w i q).0
unfolding wheel_link
link-Like ps w i q = elim (Bool-cases (beats_on q)) [
  | inr e ↦ rw e ((λ j p g. (p, g, Like-refl p)), λ j p n g. g)
  | inl e ↦
      rw e (modify-Pointwise Like Like-refl _ ps i (λ p. Like-refl p), modify-Elsewhere _ ps i)
]

insert-inactive :
    (ps : List Proc) (w : Wheel) (i : ℕ) (q : Proc)
    → q.wheel.active ≡ false
    → wheel_insert ps w i q ≡ some (wheel_link ps w i q)
unfolding wheel_insert
insert-inactive ps w i q a = simp (a) refl

beat_at-Like :
    (ps : List Proc) (w : Wheel) (i : ℕ) (p : Proc) (now : ℕ)
    → get_elem? ps i ≡ some p
    → p.wheel.active ≡ false
    → (m : List Proc × Wheel) × (beat_at ps w i p now ≡ some m)
      × Pointwise Like ps m.0
      × Elsewhere i ps m.0
unfolding beat_at
beat_at-Like ps w i p now g a =
    let q = beat p now in
    let (l, s) = beat-Like p now in
    let r = set-Pointwise Like Like-refl ps i p q g l in
    let w' : Wheel = record w {
      tick_scanned = u64 (w.tick_scanned + 1);
      tick_wakeups = if is_due p now then u64 (w.tick_wakeups + 1) else w.tick_wakeups;
    } in
    elim (Bool-cases (beats_on q)) [
      | inr e ↦ rw (beat_at, e) ((set ps i q, w'), refl, r, set-Elsewhere ps i q)
      | inl e ↦
          let (t, u) = link-Like (set ps i q) w' i q in
          rw (beat_at, e, insert-inactive (set ps i q) w' i q (s ∙ a))
            (
              wheel_link (set ps i q) w' i q,
              refl,
              Pointwise-trans ps (set ps i q) (wheel_link (set ps i q) w' i q).0 r t,
              λ j x n k. u j x n (set-Elsewhere ps i q j x n k),
            )
    ]

Chain-Elsewhere :
    (ps qs : List Proc) (i c : ℕ) (is : List ℕ)
    → Elsewhere i ps qs
    → All (λ (j : ℕ). j ≢ i) is
    → Chain ps c is
    → Chain qs c is
Chain-Elsewhere ps qs i c [] s n h = h
Chain-Elsewhere ps qs i c (j ∷ is) s n (p, e, l, g, h) =
    (p, e, l, s j p n.0 g, Chain-Elsewhere ps qs i p.wheel.next is s n.1 h)

Off-at :
    (ps : List Proc) (c : ℕ) (is : List ℕ)
    → Chain ps c is
    → Off ps is
    → All (λ (j : ℕ). (p : Proc) × (get_elem? ps j ≡ some p) × (p.wheel.active ≡ false)) is
Off-at ps c [] h o = tt
Off-at ps c (i ∷ is) (p, e, l, g, h) o = ((p, g, o.0 p g), Off-at ps p.wheel.next is h o.1)

Off-Elsewhere :
    (ps qs : List Proc) (i : ℕ) (is : List ℕ)
    → Elsewhere i ps qs
    → All (λ (j : ℕ). j ≢ i) is
    → All (λ (j : ℕ). (p : Proc) × (get_elem? ps j ≡ some p) × (p.wheel.active ≡ false)) is
    → Off qs is
Off-Elsewhere ps qs i [] s n h = tt
Off-Elsewhere ps qs i (j ∷ is) s n ((p, g, a), h) = (
  (λ q k.
      let f = s j p n.0 g in let e : p ≡ q = cc in ap (λ (x : Proc). x.wheel.active) (sym e) ∙ a),
  Off-Elsewhere ps qs i is s n.1 h,
)

beat-step :
    (fuel : ℕ) (ps : List Proc) (w : Wheel) (i now : ℕ) (p : Proc) (m : List Proc × Wheel)
    → i < nproc
    → get_elem? ps i ≡ some p
    → beat_at ps w i p now ≡ some m
    → beat_chain (suc fuel) ps w (suc i) now ≡ beat_chain fuel m.0 m.1 p.wheel.next now
unfolding beat_chain next_of
beat-step fuel ps w i now p m l g b =
    let z : (suc i == 0) ≡ false = ground arith in
    let k : suc i - 1 ≡ i = omega arith in
    let f : beat_found ps w (suc i - 1) (wheel_proc ps (suc i)) now ≡ some m =
      rw (k, wheel_proc-at ps i l ∙ g) b in
    let n : next_of ps (suc i) ≡ p.wheel.next = ap next_or_zero (wheel_proc-at ps i l ∙ g) in
    simp (z, f, n) refl

pub beat-Chain :
    (fuel : ℕ) (ps : List Proc) (w : Wheel) (c now : ℕ) (is : List ℕ)
    → length is ≤ fuel
    → Chain ps c is
    → Off ps is
    → Distinct is
    → (m : List Proc × Wheel) × (beat_chain fuel ps w c now ≡ some m) × Pointwise Like ps m.0
unfolding beat_chain
beat-Chain zero ps w c now [] l h o d = ((ps, w), rw h refl, λ j p g. (p, g, Like-refl p))
beat-Chain (suc fuel) ps w c now [] l h o d = ((ps, w), rw h refl, λ j p g. (p, g, Like-refl p))
beat-Chain zero ps w c now (i ∷ is) l h o d = absurd (omega arith)
beat-Chain (suc fuel) ps w c now (i ∷ is) l (p, e, b, g, h) o d =
    let (m, f, r, s) = beat_at-Like ps w i p now g (o.0 p g) in
    let (m', f', r') =
      beat-Chain fuel m.0 m.1 p.wheel.next now is (omega arith)
        (Chain-Elsewhere ps m.0 i p.wheel.next is s d.0 h)
        (Off-Elsewhere ps m.0 i is s d.0 (Off-at ps p.wheel.next is h o.1)) d.1 in
    (
      m',
      ap (λ x. beat_chain (suc fuel) ps w x now) e ∙ beat-step fuel ps w i now p m b g f ∙ f',
      Pointwise-trans ps m.0 m'.0 r r',
    )
