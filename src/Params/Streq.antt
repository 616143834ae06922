-- ===== src/Params/Streq.antt =====
-- streq is equality of strings.
use aaaos_renovation_agent_o.Prelude.{
  ℕ, ◌≡◌, refl, sym, ap, ap₂, ◌∙◌, true, false, List, [], ◌∷◌, ◌==◌, arith, Bool-cases, inl, inr,
}
use aaaos_renovation_agent_o.Params.{streq}

pub streq_refl : (a : List ℕ) → streq a a ≡ true
unfolding streq
streq_refl [] = refl
streq_refl (x ∷ xs) = let e : (x == x) ≡ true = ground arith in rw (e, streq_refl xs) refl

pub streq→eq : (a b : List ℕ) → streq a b ≡ true → a ≡ b
unfolding streq
streq→eq [] [] h = refl
streq→eq [] (y ∷ ys) h = absurd (cc)
streq→eq (x ∷ xs) [] h = absurd (cc)
streq→eq (x ∷ xs) (y ∷ ys) h = elim (Bool-cases (x == y)) [
  | inl e ↦
      let h' : streq xs ys ≡ true = rw e at h in
      ap₂ ◌∷◌ {x = x} {y = y} (ground arith) (streq→eq xs ys h')
  | inr e ↦ absurd (let h' : false ≡ true = rw e at h in cc)
]

pub streq-sym : (a b : List ℕ) → streq a b ≡ streq b a
unfolding streq
streq-sym [] [] = refl
streq-sym [] (y ∷ ys) = refl
streq-sym (x ∷ xs) [] = refl
streq-sym (x ∷ xs) (y ∷ ys) = elim (Bool-cases (x == y)) [
  | inl e ↦ let e' : (y == x) ≡ true = ground arith in rw (e, e') (streq-sym xs ys)
  | inr e ↦ let e' : (y == x) ≡ false = ground arith in rw (e, e') refl
]

pub streq-other : (a b c : List ℕ) → streq a b ≡ false → streq a c ≡ true → streq b c ≡ false
streq-other a b c h l = sym (ap (streq b) (streq→eq a c l)) ∙ streq-sym b a ∙ h
