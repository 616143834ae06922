-- ===== src/Files/Handlers.antt =====
-- The handlers of the attributes of a file, one after the other.
use aaaos_renovation_agent_o.Prelude.{
  ℕ, zero, suc, ◌-◌, ◌<◌, ◌≡◌, ◌≢◌, refl, ap, ◌∙◌, Bool, true, Option, none, some, List, [], ◌∷◌,
  ◌++◌, arith, take, length, if◌then◌else◌, ltb, Bool-cases, Option-cases, ◌⊎◌, inl, inr, ◌==◌,
}
use aaaos_renovation_agent_o.Params.{streq, param_value, param_from, match_at, field}
use aaaos_renovation_agent_o.Params.Streq.{streq_refl}
use aaaos_renovation_agent_o.Text.{codes}
use aaaos_renovation_agent_o.Files.{
  is_regular, Attr, Inode, set_attr, store_value, get_attr, del_attr, attr_max, make_attr,
  write_attrs, summary_refresh, answer, set_on, get_on, del_on, attr_text, set_file_attr,
  get_file_attr, del_file_attr, tool_ok, err_bad_param, tool_resp_set,
}
use aaaos_renovation_agent_o.Files.Attrs.{
  WellFormed, updated, store_value-none, set_attr-get, del_attr-get,
}

take-take : (n : ℕ) (xs : List ℕ) → take n (take n xs) ≡ take n xs
take-take zero xs = refl
take-take (suc n) [] = refl
take-take (suc n) (x ∷ xs) = ap (◌∷◌ x) (take-take n xs)

param_from-take :
    (start : Bool) (key v : List ℕ) (size : ℕ) (ps : List ℕ)
    → param_from start key size ps ≡ some v
    → take (size - 1) v ≡ v
unfolding param_from
param_from-take start key v size [] h = absurd (cc)
param_from-take start key v size (c ∷ cs) h = elim (Option-cases (match_at start key (c ∷ cs))) [
  | inl n ↦ param_from-take (c == b';') key v size cs (rw n at h)
  | inr (w, n) ↦
      let e : v ≡ take (size - 1) (field w) = (let h' = rw n at h in cc) in
      rw e (take-take (size - 1) (field w))
]

pub param_value-take :
    (ps key v : List ℕ) (size : ℕ) → param_value ps key size ≡ some v → take (size - 1) v ≡ v
unfolding param_value
param_value-take ps key v size h = param_from-take true key v size ps h

-- There is place for a value of the key.
abbrev pub Room : List ℕ → List Attr → Type 0
Room key as' = (length as' < attr_max) ⊎ (get_attr key as' ≢ none)

set_attr-some :
    (key v : List ℕ) (as' : List Attr)
    → Room key as'
    → (bs : List Attr) × (set_attr key v as' ≡ some bs)
unfolding set_attr
set_attr-some key v as' r = elim (Option-cases (store_value key v as')) [
  | inr (cs, n) ↦ rw n (cs, refl)
  | inl n ↦ elim r [
    | inl l ↦
        let t : ltb (length as') attr_max ≡ true = ground arith in
        rw (n, t) (as' ++ (make_attr key v ∷ []), refl)
    | inr g ↦ absurd (g (store_value-none key v as' n))
  ]
]

-- What the parameters of a call name: a path, a key, and the inode at the path
abbrev pub Names : (List ℕ → Option Inode) → List ℕ → List ℕ → List ℕ → Inode → Type 0
Names namei params path key ip =
    (param_value params (codes "path") 64 ≡ some path)
    × (param_value params (codes "key") 8 ≡ some key)
    × (namei path ≡ some ip)

pub set_on-eq :
    (key v : List ℕ) (ip : Inode) (bs : List Attr)
    → is_regular ip ≡ true
    → set_attr key v ip.attrs ≡ some bs
    → set_on key v (some ip) ≡ write_attrs (summary_refresh ip) (codes "attr set") bs
unfolding set_on
set_on-eq key v ip bs f e = rw (set_on, f, e) refl

set_file_attr-eq :
    (namei : List ℕ → Option Inode) (params path key v : List ℕ) (ip : Inode)
    → Names namei params path key ip
    → param_value params (codes "value") 16 ≡ some v
    → set_file_attr namei params ≡ set_on key v (some ip)
unfolding set_file_attr
set_file_attr-eq namei params path key v ip n w = rw (set_file_attr, n.0, n.1, w, n.2) refl

get_file_attr-eq :
    (namei : List ℕ → Option Inode) (params path key : List ℕ) (ip : Inode)
    → Names namei params path key ip
    → get_file_attr namei params true ≡ get_on path key (some ip)
unfolding get_file_attr
get_file_attr-eq namei params path key ip n = rw (get_file_attr, n.0, n.1, n.2) refl

del_file_attr-eq :
    (namei : List ℕ → Option Inode) (params path key : List ℕ) (ip : Inode)
    → Names namei params path key ip
    → del_file_attr namei params ≡ del_on key (some ip)
unfolding del_file_attr
del_file_attr-eq namei params path key ip n = rw (del_file_attr, n.0, n.1, n.2) refl

get_on-some :
    (path key v : List ℕ) (ip : Inode)
    → get_attr key ip.attrs ≡ some v
    → get_on path key (some ip) ≡ answer tool_ok (attr_text path key v)
unfolding get_on
get_on-some path key v ip e = rw (get_on, e) refl

get_on-none :
    (path key : List ℕ) (ip : Inode)
    → get_attr key ip.attrs ≡ none
    → get_on path key (some ip) ≡ answer err_bad_param (codes "attr not found")
unfolding get_on
get_on-none path key ip e = rw (get_on, e) refl

pub del_on-eq :
    (key : List ℕ) (ip : Inode) (bs : List Attr)
    → del_attr key ip.attrs ≡ some bs
    → del_on key (some ip) ≡ write_attrs ip (codes "attr deleted") bs
unfolding del_on
del_on-eq key ip bs e = rw (del_on, e) refl

del_attr-some :
    (key : List ℕ) (as' : List Attr)
    → get_attr key as' ≢ none
    → (bs : List Attr) × (del_attr key as' ≡ some bs)
unfolding del_attr get_attr
del_attr-some key [] h = absurd (h refl)
del_attr-some key (a ∷ as') h = elim (Bool-cases (streq a.key key)) [
  | inl e ↦ rw e (as', refl)
  | inr e ↦
      let r : (bs : List Attr) × (del_attr key as' ≡ some bs) =
        del_attr-some key as' (λ n. h (rw e n)) in
      rw (e, r.1) (a ∷ r.0, refl)
]

-- If the parameters name a file with room for the key, set_file_attr stores the value and changes no
-- other attribute, and get_file_attr with the same parameters then answers with the value.
pub set_file_attr-get_file_attr :
    (namei : List ℕ → Option Inode) (params path key v : List ℕ) (ip : Inode)
    → Names namei params path key ip
    → param_value params (codes "value") 16 ≡ some v
    → is_regular ip ≡ true
    → Room key ip.attrs
    → (ip' : Inode) × ((set_file_attr namei params).inode ≡ some ip')
      × ((set_file_attr namei params).changed ≡ true)
      × ((k : List ℕ) → get_attr k ip'.attrs ≡ updated key v k ip.attrs)
      × ((later : List ℕ → Option Inode)
          → later path ≡ some ip'
          → (get_file_attr later params true).response
            ≡ tool_resp_set tool_ok (attr_text path key v))
set_file_attr-get_file_attr namei params path key v ip n w f r =
    let s : (bs : List Attr) × (set_attr key v ip.attrs ≡ some bs) =
      set_attr-some key v ip.attrs r in
    let e = set_file_attr-eq namei params path key v ip n w ∙ set_on-eq key v ip s.0 f s.1 in
    let g : (k : List ℕ) → get_attr k s.0 ≡ updated key v k ip.attrs = λ k.
      set_attr-get key v k ip.attrs s.0 (param_value-take params (codes "key") key 8 n.1) s.1
      ∙ ap (λ x. updated key x k ip.attrs) (param_value-take params (codes "value") v 16 w) in
    (
      record (summary_refresh ip) { attrs = s.0 },
      ap (λ o. o.inode) e,
      ap (λ o. o.changed) e,
      g,
      λ later l.
          ap (λ o. o.response)
            (get_file_attr-eq later params path key (record (summary_refresh ip) { attrs = s.0 })
                (n.0, n.1, l)
              ∙ get_on-some path key v (record (summary_refresh ip) { attrs = s.0 })
                  (g key ∙ (rw (streq_refl key) refl))),
    )

-- If the parameters name an inode that has the attribute, del_file_attr takes it away and changes no
-- other attribute, and get_file_attr with the same parameters then answers "attr not found".
pub del_file_attr-get_file_attr :
    (namei : List ℕ → Option Inode) (params path key : List ℕ) (ip : Inode)
    → Names namei params path key ip
    → WellFormed ip.attrs
    → get_attr key ip.attrs ≢ none
    → (ip' : Inode) × ((del_file_attr namei params).inode ≡ some ip')
      × ((del_file_attr namei params).changed ≡ true)
      × ((k : List ℕ) → get_attr k ip'.attrs ≡ (if streq key k then none else get_attr k ip.attrs))
      × ((later : List ℕ → Option Inode)
          → later path ≡ some ip'
          → (get_file_attr later params true).response
            ≡ tool_resp_set err_bad_param (codes "attr not found"))
del_file_attr-get_file_attr namei params path key ip n d h =
    let s : (bs : List Attr) × (del_attr key ip.attrs ≡ some bs) = del_attr-some key ip.attrs h in
    let e = del_file_attr-eq namei params path key ip n ∙ del_on-eq key ip s.0 s.1 in
    let g : (k : List ℕ) → get_attr k s.0 ≡ (if streq key k then none else get_attr k ip.attrs) =
      λ k. del_attr-get key k ip.attrs s.0 d.1 s.1 in
    (
      record ip { attrs = s.0 },
      ap (λ o. o.inode) e,
      ap (λ o. o.changed) e,
      g,
      λ later l.
          ap (λ o. o.response)
            (get_file_attr-eq later params path key (record ip { attrs = s.0 }) (n.0, n.1, l)
              ∙ get_on-none path key (record ip { attrs = s.0 })
                  (g key ∙ (rw (streq_refl key) refl))),
    )
