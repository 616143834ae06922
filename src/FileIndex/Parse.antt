-- ===== src/FileIndex/Parse.antt =====
-- The fuel of file_query_parse is enough.
use aaaos_renovation_agent_o.Prelude.{
  ℕ, zero, suc, ◌+◌, ◌≤◌, ◌<◌, ◌≡◌, refl, ap, ◌∙◌, Bool, none, some, List, [], ◌∷◌, arith, ◌==◌,
  length, Bool-cases, Option-cases, inl, inr, ◌⊎◌,
}
use aaaos_renovation_agent_o.FileIndex.Query.{
  query_parse, empty_query, Query, Field, skip_semis, skip_semi, read_while, in_key, in_value,
  field_value, read_field, add_field, parse_fields,
}

skip_semis-le : (s : List ℕ) → length (skip_semis s) ≤ length s
unfolding skip_semis
skip_semis-le [] = omega arith
skip_semis-le (c ∷ cs) = elim (Bool-cases (c == b';')) [
  | inl e ↦ rw e (omega (arith, skip_semis-le cs))
  | inr e ↦ rw e (omega arith)
]

skip_semi-le : (s : List ℕ) → length (skip_semi s) ≤ length s
skip_semi-le [] = omega arith
skip_semi-le (c ∷ cs) = elim (Bool-cases (c == b';')) [
  | inl e ↦ rw e (omega arith)
  | inr e ↦ rw e (omega arith)
]

read_while-le : (go : ℕ → Bool) (room : ℕ) (s : List ℕ) → length (read_while go room s).1 ≤ length s
unfolding read_while
read_while-le go zero s = omega arith
read_while-le go (suc room) [] = omega arith
read_while-le go (suc room) (c ∷ cs) = elim (Bool-cases (go c)) [
  | inl e ↦ rw e (omega (arith, read_while-le go room cs))
  | inr e ↦ rw e (omega arith)
]

field_value-lt :
    (key s : List ℕ) (f : Field) → field_value key s ≡ some f → length f.rest < length s
field_value-lt key [] f h = absurd (cc)
field_value-lt key (c ∷ cs) f h = elim (Bool-cases (c == b'=')) [
  | inr e ↦ absurd (let h' : none ≡ some f = rw e at h in cc)
  | inl e ↦
      let v = read_while in_value 15 cs in
      let y : record { key = key; value = v.0; rest = skip_semi v.1 } ≡ f =
        (let h' = rw e at h in cc) in
      omega (arith, ap (λ x. length x.rest) y, skip_semi-le v.1, read_while-le in_value 15 cs)
]

read_field-lt : (s : List ℕ) (f : Field) → read_field s ≡ some f → length f.rest < length s
unfolding read_field
read_field-lt s f h =
    let k = read_while in_key 7 s in
    omega (arith, field_value-lt k.0 k.1 f h, read_while-le in_key 7 s)

List-cases : (s : List ℕ) → (s ≡ []) ⊎ ((c : ℕ) × (cs : List ℕ) × (s ≡ c ∷ cs))
List-cases [] = inl refl
List-cases (c ∷ cs) = inr (c, cs, refl)

-- With fuel for the bytes of the text, more fuel changes nothing: file_query_parse reads the whole text.
parse_fields_enough :
    (fuel : ℕ) (s : List ℕ) (q : Query)
    → length s ≤ fuel
    → parse_fields (suc fuel) s q ≡ parse_fields fuel s q
unfolding parse_fields
parse_fields_enough zero [] q l = unfold skip_semis in refl
parse_fields_enough zero (c ∷ cs) q l = absurd (omega arith)
parse_fields_enough (suc fuel) s q l = elim (List-cases (skip_semis s)) [
  | inl e ↦ rw (parse_fields, e) refl
  | inr (c, cs, e) ↦ elim (Option-cases (read_field (c ∷ cs))) [
    | inl n ↦ rw (parse_fields, e, n) refl
    | inr (f, n) ↦ elim (Option-cases (add_field f.key f.value q)) [
      | inl m ↦ rw (parse_fields, e, n, m) refl
      | inr (q', m) ↦
          rw (parse_fields, e, n, m)
            (parse_fields_enough fuel f.rest q'
              (omega (arith, read_field-lt (c ∷ cs) f n, skip_semis-le s, ap length e)))
    ]
  ]
]

-- The fuel of query_parse, the length of the parameters, is enough: with any more fuel the loop of
-- file_query_parse gives the same.
pub query_parse_enough :
    (params : List ℕ) (k : ℕ)
    → parse_fields (k + length params) params empty_query ≡ query_parse params
unfolding query_parse
query_parse_enough params zero =
    ap (λ n. parse_fields n params empty_query) {y = length params} (omega arith)
query_parse_enough params (suc k) =
    ap (λ n. parse_fields n params empty_query) {y = suc (k + length params)} (omega arith)
    ∙ parse_fields_enough (k + length params) params empty_query (omega arith)
    ∙ query_parse_enough params k
