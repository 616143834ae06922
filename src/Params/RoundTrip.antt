-- ===== src/Params/RoundTrip.antt =====
-- Parameters that are written as "key=value;" fields are read back by their keys.
use mathlib.Core.Option
use aaaos_renovation_agent_o.Prelude.{
  ℕ, ◌-◌, ◌≡◌, refl, ap, ◌∙◌, true, false, Option, none, some, List, [], ◌∷◌, ◌++◌, arith, All,
  take, ◌==◌, if◌then◌else◌, Bool-cases, inl, inr,
}
use aaaos_renovation_agent_o.Params.{streq, after_key, field, value_or, param_from, param_value}

-- No byte of the text is `c`.
abbrev pub Lacks : ℕ → List ℕ → Type 0
Lacks c = All (λ x. (x == c) ≡ false)

-- The fields of the pairs, in order
unfoldable pub print : List (List ℕ × List ℕ) → List ℕ
print [] = []
print ((k, v) ∷ ps) = k ++ (b'=' ∷ (v ++ (b';' ∷ print ps)))

-- The value of the first pair with the key
unfoldable pub lookup : List ℕ → List (List ℕ × List ℕ) → Option (List ℕ)
lookup key [] = none
lookup key ((k, v) ∷ ps) = if streq key k then some v else lookup key ps

-- Keys without '=' and ';', and values without ';'
abbrev pub Printable : List (List ℕ × List ℕ) → Type 0
Printable [] = Unit {0}
Printable ((k, v) ∷ ps) = Lacks b'=' k × Lacks b';' k × Lacks b';' v × Printable ps

field-append : (v rest : List ℕ) → Lacks b';' v → field (v ++ (b';' ∷ rest)) ≡ v
unfolding field
field-append [] rest h = refl
field-append (c ∷ v) rest h = rw h.0 (ap (◌∷◌ c) (field-append v rest h.1))

-- A key at the head of a field is met exactly if it is the key of the field.
after_key-append :
    (key k rest : List ℕ)
    → Lacks b'=' key
    → Lacks b'=' k
    → after_key key (k ++ (b'=' ∷ rest)) ≡ (if streq key k then some rest else none)
unfolding after_key streq
after_key-append [] [] rest h l = refl
after_key-append [] (c ∷ k) rest h l = rw l.0 refl
after_key-append (b ∷ key) [] rest h l = ground arith
after_key-append (b ∷ key) (c ∷ k) rest h l = elim (Bool-cases (b == c)) [
  | inl e ↦ rw e (after_key-append key k rest h.1 l.1)
  | inr e ↦ rw e refl
]

-- Inside a field nothing is matched up to its end.
param_from-skip :
    (key w rest : List ℕ) (size : ℕ)
    → Lacks b';' w
    → param_from false key size (w ++ (b';' ∷ rest)) ≡ param_from true key size rest
unfolding param_from
param_from-skip key [] rest size h = refl
param_from-skip key (c ∷ w) rest size h = rw h.0 (param_from-skip key w rest size h.1)

param_from-start :
    (key k rest : List ℕ) (size : ℕ)
    → Lacks b';' k
    → param_from true key size (k ++ (b'=' ∷ rest))
      ≡ value_or size
          (after_key key (k ++ (b'=' ∷ rest)))
          (param_from false key size (k ++ (b'=' ∷ rest)))
unfolding param_from
param_from-start key [] rest size h = refl
param_from-start key (c ∷ k) rest size h = rw h.0 refl

-- A field that does not have the key is passed over.
param_from-field :
    (key k v rest : List ℕ) (size : ℕ)
    → Lacks b';' k
    → Lacks b';' v
    → param_from false key size (k ++ (b'=' ∷ (v ++ (b';' ∷ rest)))) ≡ param_from true key size rest
unfolding param_from
param_from-field key [] v rest size h l = param_from-skip key v rest size l
param_from-field key (c ∷ k) v rest size h l = rw h.0 (param_from-field key k v rest size h.1 l)

-- Of parameters that are printed as fields, param_value gives for every key without '=' the value of
-- the first pair with that key, cut to the buffer, and -1 where there is none.
pub param_value-print :
    (ps : List (List ℕ × List ℕ)) (key : List ℕ) (size : ℕ)
    → Printable ps
    → Lacks b'=' key
    → param_value (print ps) key size ≡ Option.map (take (size - 1)) (lookup key ps)
unfolding param_value print lookup
param_value-print [] key size h l = unfold param_from in refl
param_value-print ((k, v) ∷ ps) key size (a, b, c, h) l =
    param_from-start key k (v ++ (b';' ∷ print ps)) size b
    ∙ rw (after_key-append key k (v ++ (b';' ∷ print ps)) l a) (elim (Bool-cases (streq key k)) [
      | inl e ↦ rw e (ap (λ x. some (take (size - 1) x)) (field-append v (print ps) c))
      | inr e ↦
          rw e (param_from-field key k v (print ps) size b c ∙ param_value-print ps key size h l)
    ])
