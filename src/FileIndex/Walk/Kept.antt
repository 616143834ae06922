-- ===== src/FileIndex/Walk/Kept.antt =====
-- What file_index_build keeps of the table, and queries of the index that it builds.
use mathlib.Core.List.{reverse}
use aaaos_renovation_agent_o.Prelude.{
  ℕ, zero, suc, ◌≡◌, ◌∙◌, Bool, true, false, Option, none, some, List, [], ◌∷◌, arith, All, take,
  length, length-set, length-replicate, set, replicate, Option-cases, inl, inr,
}
use aaaos_renovation_agent_o.Files.{Attr, Inode}
use aaaos_renovation_agent_o.Files.Attrs.{WellFormed}
use aaaos_renovation_agent_o.FileIndex.{
  Meta, meta_max, find_by_inum, find_free, fill_from_inode, or_else, upsert,
}
use aaaos_renovation_agent_o.FileIndex.Query.{Query, index_plan, scan_plan}
use aaaos_renovation_agent_o.FileIndex.Plan.{index_plan-scan_plan}
use aaaos_renovation_agent_o.FileIndex.Walk.{
  Node, Dirents, file, directory, device, missing, last, dirent, skipped, join_path, index_walk,
  walk_dirents, walk_child, unused_meta, walk_root, index_build,
}

abbrev pub Valid : List Meta → Type 0
Valid ms = (length ms ≡ meta_max) × All (λ (m : Meta). WellFormed m.attrs) ms

All-set :
    (ms : List Meta) (i : ℕ) (m : Meta)
    → All (λ (x : Meta). WellFormed x.attrs) ms
    → WellFormed m.attrs
    → All (λ (x : Meta). WellFormed x.attrs) (set ms i m)
All-set [] i m a w = tt
All-set (x ∷ ms) zero m a w = (w, a.1)
All-set (x ∷ ms) (suc i) m a w = (a.0, All-set ms i m a.1 w)

upsert-Valid :
    (ip : Inode) (path : List ℕ) (ms : List Meta)
    → WellFormed ip.attrs
    → Valid ms
    → Valid (upsert ip path ms)
unfolding upsert
upsert-Valid ip path ms w v =
    elim (Option-cases (or_else (find_by_inum ip.inum 0 ms) (find_free 0 ms))) [
      | inl n ↦ rw (upsert, n) v
      | inr (i, n) ↦
          rw (upsert, n)
            (
              length-set ms i (fill_from_inode ip path) ∙ v.0,
              All-set ms i (fill_from_inode ip path) v.1 w,
            )
    ]

abbrev mutual
  -- Each file of the tree has at most INODE_ATTR_MAX attributes and no key twice.
  pub Files : Node → Type 0
  Files (file ip) = WellFormed ip.attrs
  Files (directory es) = DirentFiles es
  Files device = Unit {0}
  Files missing = Unit {0}

  pub DirentFiles : Dirents → Type 0
  DirentFiles last = Unit {0}
  DirentFiles (dirent inum name child es) = Files child × DirentFiles es

walk_child-Valid :
    (b : Bool) (o : Option (List ℕ)) (walk : List ℕ → List Meta) (ms : List Meta)
    → Valid ms
    → ((path : List ℕ) → Valid (walk path))
    → Valid (walk_child b o walk ms)
walk_child-Valid true o walk ms v w = v
walk_child-Valid false none walk ms v w = v
walk_child-Valid false (some path) walk ms v w = w path

mutual
  unfolding index_walk

  index_walk-Valid :
      (t : Node) (path : List ℕ) (ms : List Meta)
      → Files t
      → Valid ms
      → Valid (index_walk t path ms)
  index_walk-Valid (file ip) path ms f v = upsert-Valid ip path ms f v
  index_walk-Valid (directory es) path ms f v = walk_dirents-Valid es path ms f v
  index_walk-Valid device path ms f v = v
  index_walk-Valid missing path ms f v = v

  walk_dirents-Valid :
      (es : Dirents) (path : List ℕ) (ms : List Meta)
      → DirentFiles es
      → Valid ms
      → Valid (walk_dirents es path ms)
  walk_dirents-Valid last path ms f v = v
  walk_dirents-Valid (dirent inum name child es) path ms f v =
      walk_dirents-Valid es path
        (walk_child (skipped inum name) (join_path path (take 14 name) 64)
          (λ at. index_walk child at ms) ms)
        f.1
        (walk_child-Valid (skipped inum name) (join_path path (take 14 name) 64)
          (λ at. index_walk child at ms) ms v (λ at. index_walk-Valid child at ms f.0 v))

unused-WellFormed : (n : ℕ) → All (λ (m : Meta). WellFormed m.attrs) (replicate n unused_meta)
unused-WellFormed zero = tt
unused-WellFormed (suc n) = ((omega arith, tt), unused-WellFormed n)

-- If each file of the tree has at most INODE_ATTR_MAX attributes and no key twice, then over the
-- index that file_index_build makes, the index plan of any query with a condition finds exactly the
-- entries that the scan of the table finds, each once, in the reverse order.
pub index_build-scan_plan :
    (root : Node) (q : Query) (c : Attr) (cs : List Attr)
    → Files root
    → q.conds ≡ c ∷ cs
    → (index_plan (index_build root).metas (index_build root).index q c).hits
      ≡ reverse (scan_plan (index_build root).metas q).hits
unfolding index_build
index_build-scan_plan root q c cs f e =
    let v : Valid (walk_root root) =
      index_walk-Valid root [] (replicate meta_max unused_meta) f
        (length-replicate meta_max unused_meta, unused-WellFormed meta_max) in
    index_plan-scan_plan (walk_root root) q c cs (omega (arith, v.0)) v.1 e
