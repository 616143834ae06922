-- ===== src/Wheel/Pointwise.antt =====
-- Process tables that an operation changes place by place.
use aaaos_renovation_agent_o.Prelude.{
  ℕ, zero, suc, ◌≡◌, ◌≢◌, refl, ap, some, List, [], ◌∷◌, get_elem?, set, Option-cases, inl, inr,
}
use aaaos_renovation_agent_o.Proc.{Proc}
use aaaos_renovation_agent_o.Wheel.{modify}

-- The process at each place of the first table is related to the one at that place of the second.
abbrev pub Pointwise : (Proc → Proc → Type 0) → List Proc → List Proc → Type 0
Pointwise R ps qs =
    (j : ℕ) (p : Proc) → get_elem? ps j ≡ some p → (q : Proc) × (get_elem? qs j ≡ some q) × R p q

-- The places but one are as they were.
abbrev pub Elsewhere : ℕ → List Proc → List Proc → Type 0
Elsewhere i ps qs = (j : ℕ) (p : Proc) → j ≢ i → get_elem? ps j ≡ some p → get_elem? qs j ≡ some p

get_elem?-set_ne :
    (ps : List Proc) (i j : ℕ) (q : Proc) → j ≢ i → get_elem? (set ps i q) j ≡ get_elem? ps j
get_elem?-set_ne [] i j q n = refl
get_elem?-set_ne (p ∷ ps) zero zero q n = absurd (n refl)
get_elem?-set_ne (p ∷ ps) zero (suc j) q n = refl
get_elem?-set_ne (p ∷ ps) (suc i) zero q n = refl
get_elem?-set_ne (p ∷ ps) (suc i) (suc j) q n = get_elem?-set_ne ps i j q (λ e. n (ap suc e))

pub get_elem?-set_self :
    (ps : List Proc) (i : ℕ) (p q : Proc)
    → get_elem? ps i ≡ some p
    → get_elem? (set ps i q) i ≡ some q
get_elem?-set_self [] i p q h = absurd (cc)
get_elem?-set_self (r ∷ ps) zero p q h = refl
get_elem?-set_self (r ∷ ps) (suc i) p q h = get_elem?-set_self ps i p q h

pub set-Elsewhere : (ps : List Proc) (i : ℕ) (q : Proc) → Elsewhere i ps (set ps i q)
set-Elsewhere ps i q j p n h = rw (get_elem?-set_ne ps i j q n) h

pub modify-Elsewhere : (f : Proc → Proc) (ps : List Proc) (i : ℕ) → Elsewhere i ps (modify f ps i)
unfolding modify
modify-Elsewhere f ps i j p n h = elim (Option-cases (get_elem? ps i)) [
  | inl e ↦ rw e h
  | inr (r, e) ↦ rw (e, get_elem?-set_ne ps i j (f r) n) h
]

module _ (R : Proc → Proc → Type 0) (same : (p : Proc) → R p p) where
  pub set-Pointwise :
      (ps : List Proc) (i : ℕ) (p q : Proc)
      → get_elem? ps i ≡ some p
      → R p q
      → Pointwise R ps (set ps i q)
  set-Pointwise [] i p q h r j p' h' = absurd (cc)
  set-Pointwise (x ∷ ps) zero p q h r zero p' h' = let d : p ≡ p' = cc in (q, refl, rw⁻¹ d r)
  set-Pointwise (x ∷ ps) zero p q h r (suc j) p' h' = (p', h', same p')
  set-Pointwise (x ∷ ps) (suc i) p q h r zero p' h' = (p', h', same p')
  set-Pointwise (x ∷ ps) (suc i) p q h r (suc j) p' h' = set-Pointwise ps i p q h r j p' h'

  pub modify-Pointwise :
      (f : Proc → Proc) (ps : List Proc) (i : ℕ)
      → ((p : Proc) → R p (f p))
      → Pointwise R ps (modify f ps i)
  unfolding modify
  modify-Pointwise f ps i r = elim (Option-cases (get_elem? ps i)) [
    | inl e ↦ rw e (λ j p h. (p, h, same p))
    | inr (x, e) ↦ rw e (set-Pointwise ps i x (f x) e (r x))
  ]
