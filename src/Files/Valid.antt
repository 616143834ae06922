-- ===== src/Files/Valid.antt =====
-- The handlers of kernel/agent_fs.c that write attributes, and the form of what they write.
use aaaos_renovation_agent_o.Prelude.{
  ℕ, suc, ◌≡◌, sym, ap, ◌∙◌, subst, Option, none, some, List, arith, take, length, Bool-cases,
  Option-cases, ◌⊎◌, inl, inr,
}
use aaaos_renovation_agent_o.Params.{param_value}
use aaaos_renovation_agent_o.Text.{codes}
use aaaos_renovation_agent_o.Files.{
  is_regular, Inode, set_attr, del_attr, summary_refresh, set_on, del_on, set_file_attr,
  del_file_attr,
}
use aaaos_renovation_agent_o.Files.Attrs.{keys, Distinct, WellFormed}
use aaaos_renovation_agent_o.Files.Kept.{set_attr-WellFormed, del_attr-WellFormed}
use aaaos_renovation_agent_o.Files.Handlers.{param_value-take, set_on-eq, del_on-eq}

set_on-WellFormed :
    (key v : List ℕ) (ip ip' : Inode)
    → take 7 key ≡ key
    → WellFormed ip.attrs
    → (set_on key v (some ip)).inode ≡ some ip'
    → WellFormed ip'.attrs
unfolding set_on
set_on-WellFormed key v ip ip' f w h = elim (Bool-cases (is_regular ip)) [
  | inr e ↦ absurd (let h' : none ≡ some ip' = rw (set_on, e) at h in cc)
  | inl e ↦ elim (Option-cases (set_attr key v ip.attrs)) [
    | inl n ↦ absurd (let h' : none ≡ some ip' = rw (set_on, e, n) at h in cc)
    | inr (bs, n) ↦
        let q : record (summary_refresh ip) { attrs = bs } ≡ ip' =
          (let h' = sym (ap (λ o. o.inode) (set_on-eq key v ip bs e n)) ∙ h in cc) in
        subst (λ (i : Inode). WellFormed i.attrs) q (set_attr-WellFormed key v ip.attrs bs f w n)
  ]
]

del_on-WellFormed :
    (key : List ℕ) (ip ip' : Inode)
    → WellFormed ip.attrs
    → (del_on key (some ip)).inode ≡ some ip'
    → WellFormed ip'.attrs
unfolding del_on
del_on-WellFormed key ip ip' w h = elim (Option-cases (del_attr key ip.attrs)) [
  | inl n ↦ absurd (let h' : none ≡ some ip' = rw (del_on, n) at h in cc)
  | inr (bs, n) ↦
      let q : record ip { attrs = bs } ≡ ip' =
        (let h' = sym (ap (λ o. o.inode) (del_on-eq key ip bs n)) ∙ h in cc) in
      let r : (suc (length bs) ≡ length ip.attrs) × Distinct (keys bs) =
        del_attr-WellFormed key ip.attrs bs w.1 n in
      subst (λ (i : Inode). WellFormed i.attrs) q (omega (arith, w.0, r.0), r.1)
]

-- A result of set_file_attr is one of set_on.
set_file_attr-on :
    (namei : List ℕ → Option Inode) (params : List ℕ) (ip' : Inode)
    → (set_file_attr namei params).inode ≡ some ip'
    → (path key v : List ℕ) × (param_value params (codes "key") 8 ≡ some key)
      × ((set_on key v (namei path)).inode ≡ some ip')
unfolding set_file_attr
set_file_attr-on namei params ip' h = elim (Option-cases (param_value params (codes "path") 64)) [
  | inl n ↦ absurd (let h' : none ≡ some ip' = rw (set_file_attr, n) at h in cc)
  | inr (path, n) ↦ elim (Option-cases (param_value params (codes "key") 8)) [
    | inl m ↦ absurd (let h' : none ≡ some ip' = (rw (set_file_attr, n, m) at h) in cc)
    | inr (key, m) ↦ elim (Option-cases (param_value params (codes "value") 16)) [
      | inl w ↦ absurd (let h' : none ≡ some ip' = (rw (set_file_attr, n, m, w) at h) in cc)
      | inr (v, w) ↦ (path, key, v, m, (rw (set_file_attr, n, m, w) at h))
    ]
  ]
]

-- A result of del_file_attr is one of del_on.
del_file_attr-on :
    (namei : List ℕ → Option Inode) (params : List ℕ) (ip' : Inode)
    → (del_file_attr namei params).inode ≡ some ip'
    → (path key : List ℕ) × ((del_on key (namei path)).inode ≡ some ip')
unfolding del_file_attr
del_file_attr-on namei params ip' h = elim (Option-cases (param_value params (codes "path") 64)) [
  | inl n ↦ absurd (let h' : none ≡ some ip' = rw (del_file_attr, n) at h in cc)
  | inr (path, n) ↦ elim (Option-cases (param_value params (codes "key") 8)) [
    | inl m ↦ absurd (let h' : none ≡ some ip' = (rw (del_file_attr, n, m) at h) in cc)
    | inr (key, m) ↦ (path, key, (rw (del_file_attr, n, m) at h))
  ]
]

-- The handlers that write attributes keep every inode well-formed, whatever the parameters are: if
-- no inode in the tree has more than INODE_ATTR_MAX attributes or one key twice, then the inode
-- that set_file_attr or del_file_attr writes has not either.
pub attr_handlers-WellFormed :
    (namei : List ℕ → Option Inode) (params : List ℕ) (ip' : Inode)
    → ((path : List ℕ) (ip : Inode) → namei path ≡ some ip → WellFormed ip.attrs)
    → ((set_file_attr namei params).inode ≡ some ip')
      ⊎ ((del_file_attr namei params).inode ≡ some ip')
    → WellFormed ip'.attrs
unfolding set_on del_on
attr_handlers-WellFormed namei params ip' d (inl h) =
    let (path, key, v, m, s) = set_file_attr-on namei params ip' h in
    elim (Option-cases (namei path)) [
      | inl n ↦ absurd (let h' : none ≡ some ip' = rw (set_on, n) at s in cc)
      | inr (ip, n) ↦
          set_on-WellFormed key v ip ip' (param_value-take params (codes "key") key 8 m)
            (d path ip n) (rw n at s)
    ]
attr_handlers-WellFormed namei params ip' d (inr h) =
    let (path, key, s) = del_file_attr-on namei params ip' h in
    elim (Option-cases (namei path)) [
      | inl n ↦ absurd (let h' : none ≡ some ip' = rw (del_on, n) at s in cc)
      | inr (ip, n) ↦ del_on-WellFormed key ip ip' (d path ip n) (rw n at s)
    ]
