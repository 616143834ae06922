-- ===== src/Files/Kept.antt =====
-- No operation on the attributes of a file doubles a key.
use aaaos_renovation_agent_o.Prelude.{
  ℕ, suc, ◌≡◌, refl, sym, ap, ◌∙◌, subst, ltb→lt, false, none, some, List, [], ◌∷◌, ◌++◌, arith,
  take, length, length-append, ltb, Bool-cases, Option-cases, inl, inr,
}
use aaaos_renovation_agent_o.Params.{streq}
use aaaos_renovation_agent_o.Files.{
  Attr, make_attr, store_value, set_attr, get_attr, del_attr, attr_max,
}
use aaaos_renovation_agent_o.Files.Attrs.{keys, Fresh, Distinct, WellFormed, store_value-none}

length-keys : (as' : List Attr) → length (keys as') ≡ length as'
length-keys [] = refl
length-keys (a ∷ as') = ap suc (length-keys as')

keys-store_value :
    (key v : List ℕ) (as' bs : List Attr) → store_value key v as' ≡ some bs → keys bs ≡ keys as'
unfolding store_value
keys-store_value key v [] bs h = absurd (cc)
keys-store_value key v (a ∷ as') bs h = elim (Bool-cases (streq a.key key)) [
  | inl e ↦
      let b : bs ≡ record a { value = take 15 v } ∷ as' = (let h' = rw e at h in cc) in rw b refl
  | inr e ↦ elim (Option-cases (store_value key v as')) [
    | inl n ↦ absurd (let h' : none ≡ some bs = rw (e, n) at h in cc)
    | inr (cs, n) ↦
        let b : bs ≡ a ∷ cs = (let h' = rw (e, n) at h in cc) in
        rw b (ap (◌∷◌ a.key) (keys-store_value key v as' cs n))
  ]
]

Fresh-append :
    (x : List ℕ) (a : Attr) (as' : List Attr)
    → Fresh x (keys as')
    → streq x a.key ≡ false
    → Fresh x (keys (as' ++ (a ∷ [])))
Fresh-append x a [] d e = (e, tt)
Fresh-append x a (b ∷ as') d e = (d.0, Fresh-append x a as' d.1 e)

Distinct-append :
    (a : Attr) (as' : List Attr)
    → Distinct (keys as')
    → get_attr a.key as' ≡ none
    → Distinct (keys (as' ++ (a ∷ [])))
unfolding get_attr
Distinct-append a [] d h = (tt, tt)
Distinct-append a (b ∷ as') d h = elim (Bool-cases (streq b.key a.key)) [
  | inl e ↦ absurd (let h' : some b.value ≡ none = rw e at h in cc)
  | inr e ↦ (Fresh-append b.key a as' d.0 e, Distinct-append a as' d.1 (rw e at h))
]

Fresh-del_attr :
    (x key : List ℕ) (as' bs : List Attr)
    → Fresh x (keys as')
    → del_attr key as' ≡ some bs
    → Fresh x (keys bs)
unfolding del_attr
Fresh-del_attr x key [] bs d h = absurd (cc)
Fresh-del_attr x key (a ∷ as') bs d h = elim (Bool-cases (streq a.key key)) [
  | inl e ↦ let b : bs ≡ as' = (let h' = rw e at h in cc) in rw b d.1
  | inr e ↦ elim (Option-cases (del_attr key as')) [
    | inl n ↦ absurd (let h' : none ≡ some bs = rw (e, n) at h in cc)
    | inr (cs, n) ↦
        let b : bs ≡ a ∷ cs = (let h' = rw (e, n) at h in cc) in
        rw b (d.0, Fresh-del_attr x key as' cs d.1 n)
  ]
]

pub del_attr-WellFormed :
    (key : List ℕ) (as' bs : List Attr)
    → Distinct (keys as')
    → del_attr key as' ≡ some bs
    → (suc (length bs) ≡ length as') × Distinct (keys bs)
unfolding del_attr
del_attr-WellFormed key [] bs d h = absurd (cc)
del_attr-WellFormed key (a ∷ as') bs d h = elim (Bool-cases (streq a.key key)) [
  | inl e ↦ let b : bs ≡ as' = (let h' = rw e at h in cc) in rw b (refl, d.1)
  | inr e ↦ elim (Option-cases (del_attr key as')) [
    | inl n ↦ absurd (let h' : none ≡ some bs = rw (e, n) at h in cc)
    | inr (cs, n) ↦
        let b : bs ≡ a ∷ cs = (let h' = rw (e, n) at h in cc) in
        let r : (suc (length cs) ≡ length as') × Distinct (keys cs) =
          del_attr-WellFormed key as' cs d.1 n in
        rw b (ap suc r.0, (Fresh-del_attr a.key key as' cs d.0 n, r.1))
  ]
]

pub set_attr-WellFormed :
    (key v : List ℕ) (as' bs : List Attr)
    → take 7 key ≡ key
    → WellFormed as'
    → set_attr key v as' ≡ some bs
    → WellFormed bs
unfolding set_attr
set_attr-WellFormed key v as' bs f d h = elim (Option-cases (store_value key v as')) [
  | inr (cs, n) ↦
      let h' : some cs ≡ some bs = rw n at h in
      let k : keys as' ≡ keys bs = sym (keys-store_value key v as' bs (n ∙ h')) in
      (omega (arith, d.0, length-keys as', length-keys bs, ap length k), subst Distinct k d.1)
  | inl n ↦ elim (Bool-cases (ltb (length as') attr_max)) [
    | inr l ↦ absurd (let h' = rw (n, l) at h in cc)
    | inl l ↦
        let b : bs ≡ as' ++ (make_attr key v ∷ []) = (let h' = rw (n, l) at h in cc) in
        rw b (
          omega (arith, length-append as' (make_attr key v ∷ []), ltb→lt (length as') attr_max l),
          Distinct-append (make_attr key v) as' d.1
              (ap (λ x. get_attr x as') f ∙ store_value-none key v as' n),
        )
  ]
]
