-- ===== src/Wheel/Chain.antt =====
-- The chain of the bucket of a tick, as the list of the places of its processes.
use aaaos_renovation_agent_o.Prelude.{
  ℕ, zero, suc, ◌-◌, ◌≤◌, ◌<◌, ◌≡◌, ◌≢◌, refl, sym, ap, ◌∙◌, true, false, some, List, [], ◌∷◌,
  get_elem?, inl, inr, ◌⊎◌, arith, All, length, ◌==◌, has_bit, negsuc,
}
use aaaos_renovation_agent_o.Proc.{Proc, nproc, runnable, event_heartbeat}
use aaaos_renovation_agent_o.Wheel.{Wheel, modify, wheel_proc, next_of, one_less, detach}
use aaaos_renovation_agent_o.Wheel.Pointwise.{Pointwise, modify-Pointwise, get_elem?-set_self}

-- From the link `c` on the chain goes through the processes at these places, and ends.
abbrev pub Chain : List Proc → ℕ → List ℕ → Type 0
Chain ps c [] = c ≡ 0
Chain ps c (i ∷ is) =
    (p : Proc) × (c ≡ suc i) × (i < nproc) × (get_elem? ps i ≡ some p) × Chain ps p.wheel.next is

-- No place twice
abbrev pub Distinct : List ℕ → Type 0
Distinct [] = Unit {0}
Distinct (i ∷ is) = All (λ (j : ℕ). j ≢ i) is × Distinct is

-- What the heartbeat part of a tick leaves of a process: only a heartbeat wakes it, and shows.
abbrev pub Like : Proc → Proc → Type 0
Like p q =
    (q.ident ≡ p.ident)
    × (q.loop_state ≡ p.loop_state)
    × (q.chan ≡ p.chan)
    × (q.wait_deadline ≡ p.wait_deadline)
    × (has_bit event_heartbeat p.pending_events ≡ true
        → has_bit event_heartbeat q.pending_events ≡ true)
    × ((q.state ≡ p.state)
        ⊎ ((q.state ≡ runnable) × (has_bit event_heartbeat q.pending_events ≡ true)))

pub Like-refl : (p : Proc) → Like p p
Like-refl p = (refl, refl, refl, refl, (λ h. h), inl refl)

pub Like-trans : (p q r : Proc) → Like p q → Like q r → Like p r
Like-trans p q r a b =
    (b.0 ∙ a.0, b.1 ∙ a.1, b.2 ∙ a.2, b.3 ∙ a.3, (λ h. b.4 (a.4 h)), state a.5 b.5)
  where
    state :
        ((q.state ≡ p.state)
          ⊎ ((q.state ≡ runnable) × (has_bit event_heartbeat q.pending_events ≡ true)))
        → ((r.state ≡ q.state)
            ⊎ ((r.state ≡ runnable) × (has_bit event_heartbeat r.pending_events ≡ true)))
        → (r.state ≡ p.state)
          ⊎ ((r.state ≡ runnable) × (has_bit event_heartbeat r.pending_events ≡ true))
    state s (inr t) = inr t
    state (inl s) (inl t) = inl (t ∙ s)
    state (inr s) (inl t) = inr (t ∙ s.0, b.4 s.1)

pub Pointwise-trans :
    (ps qs rs : List Proc) → Pointwise Like ps qs → Pointwise Like qs rs → Pointwise Like ps rs
Pointwise-trans ps qs rs a b j p h =
    let (q, e, l) = a j p h in let (r, f, m) = b j q e in (r, f, Like-trans p q r l m)

-- The first loop keeps the links, and takes processes out of the wheel only.
abbrev pub Detached : Proc → Proc → Type 0
Detached p q =
    Like p q × (q.wheel.next ≡ p.wheel.next) × (p.wheel.active ≡ false → q.wheel.active ≡ false)

Detached-refl : (p : Proc) → Detached p p
Detached-refl p = (Like-refl p, refl, λ h. h)

Detached-trans : (p q r : Proc) → Detached p q → Detached q r → Detached p r
Detached-trans p q r a b = (Like-trans p q r a.0 b.0, b.1 ∙ a.1, λ h. b.2 (a.2 h))

-- None of the processes at these places is in the wheel.
abbrev pub Off : List Proc → List ℕ → Type 0
Off ps = All λ (i : ℕ). (p : Proc) → get_elem? ps i ≡ some p → p.wheel.active ≡ false

pub wheel_proc-at : (ps : List Proc) (i : ℕ) → i < nproc → wheel_proc ps (suc i) ≡ get_elem? ps i
unfolding wheel_proc
wheel_proc-at ps i l = ground arith

pub Chain-Detached :
    (ps qs : List Proc) (c : ℕ) (is : List ℕ)
    → Pointwise Detached ps qs
    → Chain ps c is
    → Chain qs c is
Chain-Detached ps qs c [] r h = h
Chain-Detached ps qs c (i ∷ is) r (p, e, l, g, h) =
    let (q, f, d) = r i p g in (q, e, l, f, Chain-Detached ps qs q.wheel.next is r (rw d.1 h))

abbrev off : Proc → Proc
off q = record q { wheel = record q.wheel { bucket = negsuc 0; active = false } }

detach-step :
    (fuel : ℕ) (ps : List Proc) (w : Wheel) (i : ℕ) (p : Proc)
    → i < nproc
    → get_elem? ps i ≡ some p
    → detach (suc fuel) ps w (suc i)
      ≡ detach fuel (modify off ps i) (one_less (some p) w) p.wheel.next
unfolding detach next_of
detach-step fuel ps w i p l g =
    let z : (suc i == 0) ≡ false = ground arith in
    let m : suc i - 1 ≡ i = omega arith in rw (z, m, wheel_proc-at ps i l ∙ g) refl

pub detach-Chain :
    (fuel : ℕ) (ps : List Proc) (w : Wheel) (c : ℕ) (is : List ℕ)
    → length is ≤ fuel
    → Chain ps c is
    → (m : List Proc × Wheel) × (detach fuel ps w c ≡ some m)
      × Pointwise Detached ps m.0
      × Off m.0 is
unfolding detach
detach-Chain zero ps w c [] l h = ((ps, w), rw h refl, (λ j p g. (p, g, Detached-refl p)), tt)
detach-Chain (suc fuel) ps w c [] l h = ((ps, w), rw h refl, (λ j p g. (p, g, Detached-refl p)), tt)
detach-Chain zero ps w c (i ∷ is) l h = absurd (omega arith)
detach-Chain (suc fuel) ps w c (i ∷ is) l (p, e, b, g, h) =
    let ps' = modify off ps i in
    let r : Pointwise Detached ps ps' =
      modify-Pointwise Detached Detached-refl off ps i (λ q. (Like-refl q, refl, λ a. refl)) in
    let (p', g', d) = r i p g in
    let (m, f, s, o) =
      detach-Chain fuel ps' (one_less (some p) w) p.wheel.next is (omega arith)
        (Chain-Detached ps ps' p.wheel.next is r h) in
    (
      m,
      ap (detach (suc fuel) ps w) e ∙ detach-step fuel ps w i p b g ∙ f,
      (λ j q k.
          let (q1, k1, d1) = r j q k in
          let (q2, k2, d2) = s j q1 k1 in (q2, k2, Detached-trans q q1 q2 d1 d2)),
      ((λ q k. is_off ps' m.0 i p' q g' (silent ps i p p' g g') s k), o),
    )
  where
    silent :
        (ps : List Proc) (i : ℕ) (p p' : Proc)
        → get_elem? ps i ≡ some p
        → get_elem? (modify off ps i) i ≡ some p'
        → p'.wheel.active ≡ false
    silent ps i p p' g g' =
        let k : get_elem? (modify off ps i) i ≡ some (off p) =
          unfold modify in (rw g (get_elem?-set_self ps i p (off p) g)) in
        let d : off p ≡ p' = cc in ap (λ (x : Proc). x.wheel.active) (sym d)

    is_off :
        (qs rs : List Proc) (i : ℕ) (p q : Proc)
        → get_elem? qs i ≡ some p
        → p.wheel.active ≡ false
        → Pointwise Detached qs rs
        → get_elem? rs i ≡ some q
        → q.wheel.active ≡ false
    is_off qs rs i p q g a s k =
        let (r, f, d) = s i p g in
        let e : r ≡ q = cc in ap (λ (x : Proc). x.wheel.active) (sym e) ∙ d.2 a
