-- ===== src/QueryCache/Store.antt =====
-- What the shared cache returns: what was stored for the query, to who may see it.
use aaaos_renovation_agent_o.Prelude.{
  ℕ, zero, suc, ◌+◌, ◌<◌, ◌≡◌, refl, sym, ap, ◌∙◌, subst, ◌≢◌, Bool, true, false, ◌&&◌, ◌||◌, not,
  none, some, List, [], ◌∷◌, arith, ◌==◌, take, length, set, Bool-cases, Option-cases, inl, inr,
  ◌⊎◌,
}
use aaaos_renovation_agent_o.Proc.{Proc}
use aaaos_renovation_agent_o.Params.{streq}
use aaaos_renovation_agent_o.Params.Streq.{streq_refl, streq→eq}
use aaaos_renovation_agent_o.QueryCache.{
  Entry, Shared, public_share, access_allowed, is_hit, touch, find_hit, cache_lookup, holds_query,
  query_slot, free_slot, store_slot, new_entry, cache_store,
}

-- The first `i` entries do not hold the query.
abbrev Before : List ℕ → ℕ → List Entry → Type 0
Before query zero es = Unit {0}
Before query (suc i) [] = Unit {0}
Before query (suc i) (e ∷ es) = (holds_query query e ≡ false) × Before query i es

query_slot-some :
    (query : List ℕ) (k i : ℕ) (es : List Entry)
    → query_slot query k es ≡ some i
    → (j : ℕ) × (i ≡ k + j) × (j < length es) × Before query j es
unfolding query_slot
query_slot-some query k i [] h = absurd (cc)
query_slot-some query k i (e ∷ es) h = elim (Bool-cases (holds_query query e)) [
  | inl t ↦
      let h' : some k ≡ some i = rw t at h in
      let y : k ≡ i = cc in (0, omega arith, omega arith, tt)
  | inr t ↦
      let r = query_slot-some query (k + 1) i es (rw t at h) in
      (suc r.0, omega (arith, r.1), omega (arith, r.2), (t, r.3))
]

query_slot-none :
    (query : List ℕ) (k j : ℕ) (es : List Entry) → query_slot query k es ≡ none → Before query j es
unfolding query_slot
query_slot-none query k zero es h = tt
query_slot-none query k (suc j) [] h = tt
query_slot-none query k (suc j) (e ∷ es) h = elim (Bool-cases (holds_query query e)) [
  | inl t ↦ absurd (let h' : some k ≡ none = rw t at h in cc)
  | inr t ↦ (t, query_slot-none query (k + 1) j es (rw t at h))
]

free_slot-lt : (k i : ℕ) (es : List Entry) → free_slot k es ≡ some i → i < k + length es
unfolding free_slot
free_slot-lt k i [] h = absurd (cc)
free_slot-lt k i (e ∷ es) h = elim (Bool-cases e.used) [
  | inl t ↦ omega (arith, free_slot-lt (k + 1) i es (rw t at h))
  | inr t ↦ let h' : some k ≡ some i = rw t at h in let y : k ≡ i = cc in omega arith
]

store_slot-Before :
    (query : List ℕ) (es : List Entry)
    → 0 < length es
    → (store_slot query es < length es) × Before query (store_slot query es) es
unfolding store_slot
store_slot-Before query es b = elim (Option-cases (query_slot query 0 es)) [
  | inr (i, n) ↦
      let r = query_slot-some query 0 i es n in
      let y : i ≡ r.0 = omega (arith, r.1) in rw (n, y) (r.2, r.3)
  | inl n ↦ elim (Option-cases (free_slot 0 es)) [
    | inl f ↦ rw (n, f) (b, tt)
    | inr (i, f) ↦ rw (n, f) (omega (arith, free_slot-lt 0 i es f), query_slot-none query 0 i es n)
  ]
]

and-false : (a b c d : Bool) → (a && c) ≡ false → (a && b && c && d) ≡ false
and-false false b c d h = refl
and-false true false c d h = refl
and-false true true c d h = rw h refl

pub and-false' : (a b c d : Bool) → b ≡ false → (a && b && c && d) ≡ false
and-false' false b c d h = refl
and-false' true b c d h = rw h refl

allowed :
    (b : Bool) (g o : ℕ) → (b || not (g == 0) && g == o) ≡ true → (b ≡ true) ⊎ ((g ≢ 0) × (g ≡ o))
allowed true g o h = inl refl
allowed false g o h = inr (λ e. absurd (ground arith), ground arith)

and-true :
    (a b c d : Bool) → (a && b && c && d) ≡ true → (a ≡ true) × (b ≡ true) × (c ≡ true) × (d ≡ true)
and-true true true true d h = (refl, refl, refl, h)
and-true true true false d h = absurd (cc)
and-true true false c d h = absurd (cc)
and-true false b c d h = absurd (cc)

not_held :
    (version : ℕ) (p : Proc) (query : List ℕ) (e : Entry)
    → holds_query query e ≡ false
    → is_hit version p query e ≡ false
unfolding holds_query is_hit
not_held version p query e h =
    and-false e.used (e.version == version) (streq e.query query) (access_allowed p e) h

find_hit-set :
    (version : ℕ) (p : Proc) (query : List ℕ) (es : List Entry) (i : ℕ) (e : Entry)
    → i < length es
    → Before query i es
    → is_hit version p query e ≡ true
    → find_hit version p query (set es i e) ≡ some (touch e)
unfolding find_hit
find_hit-set version p query [] i e l b h = absurd (omega arith)
find_hit-set version p query (d ∷ es) zero e l b h = rw h refl
find_hit-set version p query (d ∷ es) (suc i) e l b h =
    rw (not_held version p query d b.0) (find_hit-set version p query es i e (omega arith) b.1 h)

is_hit-new :
    (version : ℕ) (p reader : Proc) (query result : List ℕ)
    → take 127 query ≡ query
    → access_allowed reader (new_entry version p query result) ≡ true
    → is_hit version reader query (new_entry version p query result) ≡ true
unfolding is_hit
is_hit-new version p reader query result t a =
    let v : (version == version) ≡ true = ground arith in
    let q : streq (take 127 query) query ≡ true = ap (λ x. streq x query) t ∙ streq_refl query in
    rw (a, v, q) refl

-- After a store, a lookup of the same query by a process that may see the entry returns the stored
-- result with its owner and version, whatever else is in the cache.
pub cache_store-cache_lookup :
    (s : Shared) (p reader : Proc) (query result : List ℕ)
    → 0 < length s.entries
    → take 127 query ≡ query
    → access_allowed reader (new_entry s.file_version p query result) ≡ true
    → (cache_lookup (cache_store s p query result) reader query).0
      ≡ some (touch (new_entry s.file_version p query result))
unfolding cache_lookup cache_store
cache_store-cache_lookup s p reader query result b t a =
    let e : Entry = new_entry s.file_version p query result in
    let z = store_slot-Before query s.entries b in
    let h : is_hit s.file_version reader query e ≡ true =
      is_hit-new s.file_version p reader query result t a in
    rw
      (
        cache_lookup,
        find_hit-set s.file_version reader query s.entries (store_slot query s.entries) e z.0 z.1 h,
      )
      refl

hit_sound :
    (version : ℕ) (p : Proc) (query : List ℕ) (d : Entry)
    → is_hit version p query d ≡ true
    → (d.query ≡ query) × (d.version ≡ version) × (access_allowed p (touch d) ≡ true)
unfolding is_hit access_allowed
hit_sound version p query d h =
    let r = and-true d.used (d.version == version) (streq d.query query) (access_allowed p d) h in
    (streq→eq d.query query r.2, ground arith, r.3)

find_hit_sound :
    (version : ℕ) (p : Proc) (query : List ℕ) (es : List Entry) (e : Entry)
    → find_hit version p query es ≡ some e
    → (e.query ≡ query) × (e.version ≡ version) × (access_allowed p e ≡ true)
unfolding find_hit
find_hit_sound version p query [] e h = absurd (cc)
find_hit_sound version p query (d ∷ es) e h = elim (Bool-cases (is_hit version p query d)) [
  | inr n ↦ find_hit_sound version p query es e (rw n at h)
  | inl n ↦
      let y : touch d ≡ e = (let h' = rw n at h in cc) in
      subst (λ (x : Entry). (x.query ≡ query) × (x.version ≡ version) × (access_allowed p x ≡ true))
        y (hit_sound version p query d n)
]

-- A lookup that hits returns an entry of the same query, of the version of the files now, and one
-- that the process may see: its own group's, or a public one.
pub cache_lookup-access :
    (s : Shared) (p : Proc) (query : List ℕ) (e : Entry)
    → (cache_lookup s p query).0 ≡ some e
    → (e.query ≡ query)
      × (e.version ≡ s.file_version)
      × ((public_share query ≡ true)
          ⊎ ((p.ident.agent_group ≢ 0) × (p.ident.agent_group ≡ e.owner_group)))
unfolding cache_lookup access_allowed
cache_lookup-access s p query e h =
    elim (Option-cases (find_hit s.file_version p query s.entries)) [
      | inl n ↦ absurd (let h' : none ≡ some e = rw (cache_lookup, n) at h in cc)
      | inr (d, n) ↦
          let h' : some d ≡ some e = rw (cache_lookup, n) at h in
          let r = find_hit_sound s.file_version p query s.entries e (n ∙ h') in
          (
            r.0,
            r.1,
            allowed (public_share query) p.ident.agent_group e.owner_group (
                ap
                  (λ x.
                    public_share x
                    || not (p.ident.agent_group == 0) && p.ident.agent_group == e.owner_group)
                  (sym r.0)
                ∙ r.2),
          )
    ]
