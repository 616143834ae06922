-- ===== src/Versions/Table.antt =====
-- The versions that a sequence of changes of files gives.
use aaaos_renovation_agent_o.Prelude.{
  ℕ, ◌<◌, ◌^◌, ◌≡◌, ◌≢◌, refl, sym, ap, subst, ◌∙◌, true, false, ◌&&◌, Option, none, some, List, [],
  ◌∷◌, arith, Bool-cases, inl, inr, ◌==◌,
}
use aaaos_renovation_agent_o.Versions.{
  Entry, is_entry, lookup, ensure, modify, next_version, bump_entry, remove_entry, version_of,
  version_get, version_bump, version_remove,
}

-- A change of an entry that leaves its key
abbrev SameKey : (Entry → Entry) → Type 0
SameKey f = (dev inum : ℕ) (e : Entry) → is_entry dev inum (f e) ≡ is_entry dev inum e

bump-SameKey : SameKey bump_entry
unfolding is_entry
bump-SameKey dev inum e = refl

remove-SameKey : SameKey remove_entry
unfolding is_entry
remove-SameKey dev inum e = refl

abbrev found_map : (Entry → Entry) → Option Entry → Option Entry
found_map f none = none
found_map f (some e) = some (f e)

lookup-modify :
    (f : Entry → Entry) (dev inum : ℕ) (es : List Entry)
    → SameKey f
    → lookup dev inum (modify dev inum f es) ≡ found_map f (lookup dev inum es)
unfolding lookup modify
lookup-modify f dev inum [] k = refl
lookup-modify f dev inum (e ∷ es) k = elim (Bool-cases (is_entry dev inum e)) [
  | inl b ↦ rw (b, modify, lookup) (rw (k dev inum e ∙ b, lookup) refl)
  | inr b ↦ rw (b, modify, lookup) (rw (b, lookup) (lookup-modify f dev inum es k))
]

-- Two keys name one entry only if they are equal.
same_key :
    (dev inum dev' inum' : ℕ) (e : Entry)
    → is_entry dev inum e ≡ true
    → is_entry dev' inum' e ≡ true
    → (dev == dev') && (inum == inum') ≡ true
unfolding is_entry
same_key dev inum dev' inum' e h k = ground arith

lookup-modify_other :
    (f : Entry → Entry) (dev inum dev' inum' : ℕ) (es : List Entry)
    → SameKey f
    → (dev == dev') && (inum == inum') ≡ false
    → lookup dev' inum' (modify dev inum f es) ≡ lookup dev' inum' es
unfolding lookup modify
lookup-modify_other f dev inum dev' inum' [] k n = refl
lookup-modify_other f dev inum dev' inum' (e ∷ es) k n = elim (Bool-cases (is_entry dev inum e)) [
  | inl b ↦ elim (Bool-cases (is_entry dev' inum' e)) [
    | inl c ↦ absurd (let h : true ≡ false = sym (same_key dev inum dev' inum' e b c) ∙ n in cc)
    | inr c ↦ rw (b, modify) (rw (k dev' inum' e ∙ c, c, lookup) refl)
  ]
  | inr b ↦ elim (Bool-cases (is_entry dev' inum' e)) [
    | inl c ↦ rw (b, modify) (rw (c, lookup) refl)
    | inr c ↦ rw (b, modify) (rw (c, lookup) (lookup-modify_other f dev inum dev' inum' es k n))
  ]
]

-- A used entry that is found stays found, whatever else the table takes in.
pub ensure-found :
    (dev inum : ℕ) (es : List Entry) (e : Entry)
    → lookup dev inum es ≡ some e
    → ensure dev inum es ≡ es
unfolding ensure
ensure-found dev inum es e h = rw (h, ensure) refl

next_version-ne : (v : ℕ) → v < 2 ^ 64 → next_version v ≢ v
unfolding next_version
next_version-ne v h e = ground arith

next_version-pos : (v : ℕ) → 0 < next_version v
unfolding next_version
next_version-pos v = ground arith

-- What the three operations do to the version of the file they name
version-bump :
    (dev inum : ℕ) (es : List Entry) (e : Entry)
    → lookup dev inum (ensure dev inum es) ≡ some e
    → (lookup dev inum ((version_bump dev inum es).1) ≡ some (bump_entry e))
      × ((version_bump dev inum es).0 ≡ next_version e.version)
unfolding version_bump version_of
version-bump dev inum es e h =
    let l : lookup dev inum (modify dev inum bump_entry (ensure dev inum es))
        ≡ some (bump_entry e) =
      lookup-modify bump_entry dev inum (ensure dev inum es) bump-SameKey
      ∙ ap (found_map bump_entry) h in
    (l, rw (l, version_of) refl)

pub version_get-found :
    (dev inum : ℕ) (es : List Entry) (e : Entry)
    → lookup dev inum es ≡ some e
    → (version_get dev inum es).0 ≡ version_of (some e)
unfolding version_get
version_get-found dev inum es e h = rw (ensure-found dev inum es e h, h) refl

-- Of a file that has an entry, or gets one, a change is seen: the version that bump returns is what
-- get answers next, it is not 0, and it is not the version the entry had. Its removal is seen too:
-- get then answers 0, until the next change.
pub bump-get :
    (dev inum : ℕ) (es : List Entry) (e : Entry)
    → lookup dev inum (ensure dev inum es) ≡ some e
    → e.version < 2 ^ 64
    → let v = (version_bump dev inum es).0 in
      ((version_get dev inum ((version_bump dev inum es).1)).0 ≡ v)
      × (0 < v)
      × (v ≢ e.version)
      × ((version_get dev inum (version_remove dev inum es)).0 ≡ 0)
unfolding version_of version_remove
bump-get dev inum es e h b =
    let (l, v) = version-bump dev inum es e h in
    (
      version_get-found dev inum ((version_bump dev inum es).1) (bump_entry e) l ∙ seen ∙ sym v,
      subst (λ n. 0 < n) (sym v) (next_version-pos e.version),
      λ k. next_version-ne e.version b (sym v ∙ k),
      version_get-found dev inum (version_remove dev inum es) (remove_entry e) gone ∙ unseen,
    )
  where
    seen : version_of (some (bump_entry e)) ≡ next_version e.version
    seen = refl

    gone : lookup dev inum (version_remove dev inum es) ≡ some (remove_entry e)
    gone =
        lookup-modify remove_entry dev inum (ensure dev inum es) remove-SameKey
        ∙ ap (found_map remove_entry) h

    unseen : version_of (some (remove_entry e)) ≡ 0
    unseen = refl

-- The version of another file that has an entry stays, through a change and a removal.
pub bump-other :
    (dev inum dev' inum' : ℕ) (es : List Entry) (e e' : Entry)
    → lookup dev inum es ≡ some e
    → lookup dev' inum' es ≡ some e'
    → (dev == dev') && (inum == inum') ≡ false
    → ((version_get dev' inum' ((version_bump dev inum es).1)).0 ≡ (version_get dev' inum' es).0)
      × ((version_get dev' inum' (version_remove dev inum es)).0 ≡ (version_get dev' inum' es).0)
unfolding version_bump version_remove
bump-other dev inum dev' inum' es e e' h h' n =
    rw (ensure-found dev inum es e h)
      (keep bump_entry bump-SameKey, keep remove_entry remove-SameKey)
  where
    keep :
        (f : Entry → Entry)
        → SameKey f
        → (version_get dev' inum' (modify dev inum f es)).0 ≡ (version_get dev' inum' es).0
    keep f k =
        version_get-found dev' inum' (modify dev inum f es) e'
          (lookup-modify_other f dev inum dev' inum' es k n ∙ h')
        ∙ sym (version_get-found dev' inum' es e' h')
