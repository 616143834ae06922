-- ===== src/Files/Attrs.antt =====
-- The attributes of a file as a map from keys to values.
use aaaos_renovation_agent_o.Prelude.{
  ℕ, ◌≤◌, ◌≡◌, refl, sym, ap, ◌∙◌, Bool, true, false, Option, none, some, List, [], ◌∷◌, ◌++◌, All,
  take, length, if◌then◌else◌, ltb, Bool-cases, Option-cases, inl, inr,
}
use aaaos_renovation_agent_o.Params.{streq}
use aaaos_renovation_agent_o.Params.Streq.{streq→eq, streq-sym, streq-other}
use aaaos_renovation_agent_o.Files.{
  Attr, make_attr, store_value, set_attr, get_attr, del_attr, attr_max,
}

abbrev pub keys : List Attr → List (List ℕ)
keys [] = []
keys (a ∷ as') = a.key ∷ keys as'

abbrev pub Fresh : List ℕ → List (List ℕ) → Type 0
Fresh key = All (λ x. streq key x ≡ false)

-- No string is there twice.
abbrev pub Distinct : List (List ℕ) → Type 0
Distinct [] = Unit {0}
Distinct (x ∷ xs) = Fresh x xs × Distinct xs

-- At most INODE_ATTR_MAX attributes, no two with the same key
abbrev pub WellFormed : List Attr → Type 0
WellFormed as' = (length as' ≤ attr_max) × Distinct (keys as')

-- The value of `k` where `key` has got the value `v`
abbrev pub updated : List ℕ → List ℕ → List ℕ → List Attr → Option (List ℕ)
updated key v k attrs = if streq key k then some v else get_attr k attrs

if-same :
    (b : Bool) (x y z : Option (List ℕ))
    → (if b then x else z) ≡ (if b then x else if b then y else z)
if-same true x y z = refl
if-same false x y z = refl

store_value-get :
    (key v k : List ℕ) (as' bs : List Attr)
    → store_value key v as' ≡ some bs
    → get_attr k bs ≡ updated key (take 15 v) k as'
unfolding store_value get_attr
store_value-get key v k [] bs h = absurd (cc)
store_value-get key v k (a ∷ as') bs h = elim (Bool-cases (streq a.key key)) [
  | inl e ↦
      let q : streq a.key k ≡ streq key k = ap (λ x. streq x k) (streq→eq a.key key e) in
      let b : bs ≡ record a { value = take 15 v } ∷ as' = (let h' = rw e at h in cc) in
      rw (b, q) (if-same (streq key k) (some (take 15 v)) (some a.value) (get_attr k as'))
  | inr e ↦ elim (Option-cases (store_value key v as')) [
    | inl n ↦ absurd (let h' : none ≡ some bs = rw (e, n) at h in cc)
    | inr (cs, n) ↦
        let b : bs ≡ a ∷ cs = (let h' = rw (e, n) at h in cc) in
        rw b (elim (Bool-cases (streq a.key k)) [
          | inl l ↦ rw (l, streq-other a.key key k e l) refl
          | inr l ↦ rw l (store_value-get key v k as' cs n)
        ])
  ]
]

get-append :
    (k : List ℕ) (a : Attr) (as' : List Attr)
    → get_attr a.key as' ≡ none
    → get_attr k (as' ++ (a ∷ [])) ≡ updated a.key a.value k as'
unfolding get_attr
get-append k a [] h = refl
get-append k a (b ∷ as') h = elim (Bool-cases (streq b.key a.key)) [
  | inl e ↦ absurd (let h' : some b.value ≡ none = rw e at h in cc)
  | inr e ↦
      let h' : get_attr a.key as' ≡ none = rw e at h in
      elim (Bool-cases (streq b.key k)) [
        | inl l ↦ rw (l, streq-other b.key a.key k e l) refl
        | inr l ↦ rw l (get-append k a as' h')
      ]
]

-- An attribute that the loop of set_file_attr does not meet is not there.
pub store_value-none :
    (key v : List ℕ) (as' : List Attr) → store_value key v as' ≡ none → get_attr key as' ≡ none
unfolding store_value get_attr
store_value-none key v [] h = refl
store_value-none key v (a ∷ as') h = elim (Bool-cases (streq a.key key)) [
  | inl e ↦ absurd (let h' = rw e at h in cc)
  | inr e ↦ rw e (elim (Option-cases (store_value key v as')) [
    | inl n ↦ store_value-none key v as' n
    | inr (cs, n) ↦ absurd (let h' = rw (e, n) at h in cc)
  ])
]

pub set_attr-get :
    (key v k : List ℕ) (as' bs : List Attr)
    → take 7 key ≡ key
    → set_attr key v as' ≡ some bs
    → get_attr k bs ≡ updated key (take 15 v) k as'
unfolding set_attr
set_attr-get key v k as' bs f h = elim (Option-cases (store_value key v as')) [
  | inr (cs, n) ↦ let h' : some cs ≡ some bs = rw n at h in store_value-get key v k as' bs (n ∙ h')
  | inl n ↦ elim (Bool-cases (ltb (length as') attr_max)) [
    | inr l ↦ absurd (let h' = rw (n, l) at h in cc)
    | inl l ↦
        let b : bs ≡ as' ++ (make_attr key v ∷ []) = (let h' = rw (n, l) at h in cc) in
        rw b (
          get-append k (make_attr key v) as'
            (ap (λ x. get_attr x as') f ∙ store_value-none key v as' n)
          ∙ ap (λ x. updated x (take 15 v) k as') f)
  ]
]

-- A key that one attribute has, none of the others has.
pub absent :
    (k : List ℕ) (a : Attr) (as' : List Attr)
    → streq a.key k ≡ true
    → Fresh a.key (keys as')
    → get_attr k as' ≡ none
unfolding get_attr
absent k a [] e d = refl
absent k a (b ∷ as') e d =
    let n : streq b.key k ≡ false =
      ap (streq b.key) (sym (streq→eq a.key k e)) ∙ streq-sym b.key a.key ∙ d.0 in
    rw n (absent k a as' e d.1)

pub del_attr-get :
    (key k : List ℕ) (as' bs : List Attr)
    → Distinct (keys as')
    → del_attr key as' ≡ some bs
    → get_attr k bs ≡ (if streq key k then none else get_attr k as')
unfolding del_attr get_attr
del_attr-get key k [] bs d h = absurd (cc)
del_attr-get key k (a ∷ as') bs d h = elim (Bool-cases (streq a.key key)) [
  | inl e ↦
      let q : streq a.key k ≡ streq key k = ap (λ x. streq x k) (streq→eq a.key key e) in
      let b : bs ≡ as' = (let h' = rw e at h in cc) in
      rw (b, q)
        (elim (Bool-cases (streq key k)) [
          | inl l ↦ rw l (absent k a as' (q ∙ l) d.0)
          | inr l ↦ rw l refl
        ])
  | inr e ↦ elim (Option-cases (del_attr key as')) [
    | inl n ↦ absurd (let h' : none ≡ some bs = rw (e, n) at h in cc)
    | inr (cs, n) ↦
        let b : bs ≡ a ∷ cs = (let h' = rw (e, n) at h in cc) in
        rw b (elim (Bool-cases (streq a.key k)) [
          | inl l ↦ rw (l, streq-other a.key key k e l) refl
          | inr l ↦ rw l (del_attr-get key k as' cs d.1 n)
        ])
  ]
]
