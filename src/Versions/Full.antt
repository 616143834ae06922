-- ===== src/Versions/Full.antt =====
-- The table of file versions once every entry is used: file_version_find_locked frees none.
use aaaos_renovation_agent_o.Prelude.{
  ℕ, ◌≡◌, refl, ap, true, false, ◌&&◌, none, List, [], ◌∷◌, arith, All, Bool-cases, Option-cases,
  inl, inr, ◌==◌,
}
use aaaos_renovation_agent_o.Versions.{
  Entry, first_entry, is_entry, lookup, place, ensure, modify, bump_entry, remove_entry, version_of,
  version_get, version_bump, version_remove,
}

-- A change of the version of a file, or a question for it
pub data Change : Type 0 where
  gets bumps removes : ℕ → ℕ → Change

unfoldable pub change : Change → List Entry → List Entry
change (gets dev inum) es = (version_get dev inum es).1
change (bumps dev inum) es = (version_bump dev inum es).1
change (removes dev inum) es = version_remove dev inum es

pub changes : List Change → List Entry → List Entry
changes [] es = es
changes (c ∷ cs) es = changes cs (change c es)

-- Every entry is used, by another file.
abbrev pub FullWithout : ℕ → ℕ → List Entry → Type 0
FullWithout dev inum =
    All λ (e : Entry). (e.used ≡ true) × ((e.dev == dev) && (e.inum == inum) ≡ false)

module _ (dev inum : ℕ) where
  lookup-none : (es : List Entry) → FullWithout dev inum es → lookup dev inum es ≡ none
  unfolding lookup is_entry
  lookup-none [] h = refl
  lookup-none (e ∷ es) (h, hs) =
      let n : is_entry dev inum e ≡ false = ground (arith, h.0, h.1) in
      rw (n, lookup) (lookup-none es hs)

  place-full : (new : Entry) (es : List Entry) → FullWithout dev inum es → place new es ≡ es
  unfolding place
  place-full new [] h = refl
  place-full new (e ∷ es) (h, hs) = simp (h.0) (ap (◌∷◌ e) (place-full new es hs))

  ensure-full : (d i : ℕ) (es : List Entry) → FullWithout dev inum es → ensure d i es ≡ es
  unfolding ensure
  ensure-full d i es h = elim (Option-cases (lookup d i es)) [
    | inl n ↦ rw (n, ensure) (place-full (first_entry d i) es h)
    | inr (e, n) ↦ rw (n, ensure) refl
  ]

  modify-bump :
      (d i : ℕ) (es : List Entry)
      → FullWithout dev inum es
      → FullWithout dev inum (modify d i bump_entry es)
  unfolding modify
  modify-bump d i [] h = h
  modify-bump d i (e ∷ es) (h, hs) = elim (Bool-cases (is_entry d i e)) [
    | inl b ↦ rw (b, modify) (h, hs)
    | inr b ↦ rw (b, modify) (h, modify-bump d i es hs)
  ]

  modify-remove :
      (d i : ℕ) (es : List Entry)
      → FullWithout dev inum es
      → FullWithout dev inum (modify d i remove_entry es)
  unfolding modify
  modify-remove d i [] h = h
  modify-remove d i (e ∷ es) (h, hs) = elim (Bool-cases (is_entry d i e)) [
    | inl b ↦ rw (b, modify) (h, hs)
    | inr b ↦ rw (b, modify) (h, modify-remove d i es hs)
  ]

  change-full :
      (c : Change) (es : List Entry) → FullWithout dev inum es → FullWithout dev inum (change c es)
  unfolding change version_get version_bump version_remove
  change-full (gets d i) es h = rw (ensure-full d i es h) h
  change-full (bumps d i) es h = rw (ensure-full d i es h) (modify-bump d i es h)
  change-full (removes d i) es h = rw (ensure-full d i es h) (modify-remove d i es h)

  changes-full :
      (cs : List Change) (es : List Entry)
      → FullWithout dev inum es
      → FullWithout dev inum (changes cs es)
  unfolding changes
  changes-full [] es h = h
  changes-full (c ∷ cs) es h = changes-full cs (change c es) (change-full c es h)

  answers :
      (es : List Entry)
      → FullWithout dev inum es
      → ((version_get dev inum es).0 ≡ 0) × ((version_bump dev inum es).0 ≡ 0)
  unfolding version_get version_bump version_of
  answers es h = rw (ensure-full dev inum es h) (
    rw (lookup-none es h) refl,
    rw (lookup-none (modify dev inum bump_entry es) (modify-bump dev inum es h)) refl,
  )

-- Once every entry of the table is used by other files, a further file has version 0 for ever:
-- after any changes of any files, its removal and its own changes included, get and bump answer 0
-- for it, and every entry is still used by other files.
pub changes-full_version :
    (dev inum : ℕ) (cs : List Change) (es : List Entry)
    → FullWithout dev inum es
    → ((version_get dev inum (changes cs es)).0 ≡ 0)
      × ((version_bump dev inum (changes cs es)).0 ≡ 0)
      × FullWithout dev inum (changes cs es)
changes-full_version dev inum cs es h =
    let k = changes-full dev inum cs es h in
    ((answers dev inum (changes cs es) k).0, (answers dev inum (changes cs es) k).1, k)
