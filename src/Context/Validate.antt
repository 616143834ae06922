-- ===== src/Context/Validate.antt =====
-- agent_context_validate and the file versions.
use aaaos_renovation_agent_o.Prelude.{
  ℕ, ◌^◌, ◌<◌, ◌≡◌, ◌≢◌, refl, sym, ap, ◌∙◌, true, false, ◌&&◌, some, List, arith, ◌==◌,
}
use aaaos_renovation_agent_o.Proc.{Context, Dep}
use aaaos_renovation_agent_o.Versions.{
  Entry, lookup, version_of, version_get, version_bump, version_remove,
}
use aaaos_renovation_agent_o.Versions.Table.{version_get-found, ensure-found, bump-get, bump-other}
use aaaos_renovation_agent_o.Context.{
  dep_valid, dep_stale, dep_deleted, find_dep, wanted_sequence, validate_dep, compare_versions,
  context_validate,
}

-- The state that is reported for a node with a dependency
validate-state :
    (c : Context) (sequence : ℕ) (d : Dep) (es : List Entry)
    → find_dep (wanted_sequence c sequence) c.node_count c.deps ≡ some d
    → d.used ≡ true
    → (context_validate c sequence es).0.state
      ≡ compare_versions d.version (version_get d.dev d.inum es).0
unfolding context_validate validate_dep
validate-state c sequence d es h u = rw (h, validate_dep) (rw u refl)

compare-same : (v w : ℕ) → 0 < w → w ≡ v → compare_versions v w ≡ dep_valid
unfolding compare_versions
compare-same v w p e = ground arith

compare-other : (v w : ℕ) → 0 < w → w ≢ v → compare_versions v w ≡ dep_stale
unfolding compare_versions
compare-other v w p e = ground arith

compare-gone : (v w : ℕ) → w ≡ 0 → compare_versions v w ≡ dep_deleted
unfolding compare_versions
compare-gone v w e = ground arith

live_version : (e : Entry) → e.deleted ≡ false → version_of (some e) ≡ e.version
unfolding version_of
live_version e h = rw h refl

-- A node that depends on the present version of a file is VALID; a change of the file makes it STALE,
-- and a removal DELETED.
pub validate-change :
    (c : Context) (sequence : ℕ) (d : Dep) (es : List Entry) (e : Entry)
    → find_dep (wanted_sequence c sequence) c.node_count c.deps ≡ some d
    → d.used ≡ true
    → lookup d.dev d.inum es ≡ some e
    → e.deleted ≡ false
    → d.version ≡ e.version
    → 0 < e.version
    → e.version < 2 ^ 64
    → ((context_validate c sequence es).0.state ≡ dep_valid)
      × ((context_validate c sequence ((version_bump d.dev d.inum es).1)).0.state ≡ dep_stale)
      × ((context_validate c sequence (version_remove d.dev d.inum es)).0.state ≡ dep_deleted)
validate-change c sequence d es e h u l a v p b =
    let g = version_get-found d.dev d.inum es e l ∙ live_version e a in
    let (same, above, apart, gone) =
      bump-get d.dev d.inum es e (ap (lookup d.dev d.inum) (ensure-found d.dev d.inum es e l) ∙ l)
        b in
    (
      validate-state c sequence d es h u
          ∙ compare-same d.version (version_get d.dev d.inum es).0 (omega arith) (omega arith),
      validate-state c sequence d (version_bump d.dev d.inum es).1 h u
          ∙ compare-other d.version (version_get d.dev d.inum (version_bump d.dev d.inum es).1).0
              (omega arith) (λ k. apart (sym same ∙ k ∙ v)),
      validate-state c sequence d (version_remove d.dev d.inum es) h u
          ∙ compare-gone d.version (version_get d.dev d.inum (version_remove d.dev d.inum es)).0
              gone,
    )

-- What happens to another file that has an entry changes nothing of what is reported for the node.
pub validate-other :
    (c : Context) (sequence : ℕ) (d : Dep) (es : List Entry) (dev inum : ℕ) (e e' : Entry)
    → find_dep (wanted_sequence c sequence) c.node_count c.deps ≡ some d
    → d.used ≡ true
    → lookup d.dev d.inum es ≡ some e
    → lookup dev inum es ≡ some e'
    → (dev == d.dev) && (inum == d.inum) ≡ false
    → ((context_validate c sequence ((version_bump dev inum es).1)).0.state
        ≡ (context_validate c sequence es).0.state)
      × ((context_validate c sequence (version_remove dev inum es)).0.state
          ≡ (context_validate c sequence es).0.state)
validate-other c sequence d es dev inum e e' h u l l' n =
    let (b, r) = bump-other dev inum d.dev d.inum es e' e l' l n in
    let s = validate-state c sequence d es h u in
    (
      validate-state c sequence d (version_bump dev inum es).1 h u
          ∙ ap (compare_versions d.version) b
          ∙ sym s,
      validate-state c sequence d (version_remove dev inum es) h u
          ∙ ap (compare_versions d.version) r
          ∙ sym s,
    )
