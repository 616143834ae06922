-- ===== src/QueryCache/Fresh.antt =====
-- What agent_file_version_bump of kernel/agent_fs.c does to the results that the shared cache holds.
use aaaos_renovation_agent_o.Prelude.{
  ℕ, zero, suc, ◌+◌, ◌≤◌, ◌<◌, ◌^◌, ◌≡◌, refl, false, none, List, [], ◌∷◌, arith, All, ◌==◌, u64,
  set, replicate, Bool-cases, Option-cases, inl, inr, ◌⊎◌, length, take,
}
use aaaos_renovation_agent_o.Proc.{Proc}
use aaaos_renovation_agent_o.Params.{streq}
use aaaos_renovation_agent_o.QueryCache.{
  Entry, Shared, access_allowed, is_hit, find_hit, touch_hit, cache_lookup, store_slot, new_entry,
  cache_store, version_bump,
}
use aaaos_renovation_agent_o.QueryCache.Store.{and-false'}

-- The entries are of the version of the files now or of one before.
abbrev Current : Shared → Type 0
Current s = All (λ (e : Entry). e.version ≤ s.file_version) s.entries

-- The cache after boot
abbrev pub boot_cache : Shared
boot_cache = record {
  entries = replicate 8 (record {
    used = false;
    query = [];
    result = [];
    owner_pid = 0;
    owner_group = 0;
    refcnt = 0;
    version = 0;
  });
  file_version = 1;
  hits = 0;
  misses = 0;
}

-- What the operations make of the cache after boot. The version of the files, a uint64 that counts
-- their changes, does not wrap around.
pub data Reachable : Shared → Type 0 where
  boot : Reachable boot_cache
  look :
      (s : Shared) (p : Proc) (query : List ℕ) → Reachable s → Reachable (cache_lookup s p query).1
  store :
      (s : Shared) (p : Proc) (query result : List ℕ)
      → Reachable s
      → Reachable (cache_store s p query result)
  bump : (s : Shared) → s.file_version + 1 < 2 ^ 64 → Reachable s → Reachable (version_bump s)

touch_hit-Current :
    (version v : ℕ) (p : Proc) (query : List ℕ) (es : List Entry)
    → All (λ (e : Entry). e.version ≤ v) es
    → All (λ (e : Entry). e.version ≤ v) (touch_hit version p query es)
unfolding touch_hit
touch_hit-Current version v p query [] h = tt
touch_hit-Current version v p query (e ∷ es) h = elim (Bool-cases (is_hit version p query e)) [
  | inl n ↦ rw n (h.0, h.1)
  | inr n ↦ rw n (h.0, touch_hit-Current version v p query es h.1)
]

look-Current :
    (s : Shared) (p : Proc) (query : List ℕ) → Current s → Current (cache_lookup s p query).1
unfolding cache_lookup
look-Current s p query c = elim (Option-cases (find_hit s.file_version p query s.entries)) [
  | inl n ↦ rw (cache_lookup, n) c
  | inr (e, n) ↦
      rw (cache_lookup, n) (touch_hit-Current s.file_version s.file_version p query s.entries c)
]

set-Current :
    (v : ℕ) (es : List Entry) (i : ℕ) (e : Entry)
    → e.version ≤ v
    → All (λ (x : Entry). x.version ≤ v) es
    → All (λ (x : Entry). x.version ≤ v) (set es i e)
set-Current v [] i e l h = tt
set-Current v (d ∷ es) zero e l h = (l, h.1)
set-Current v (d ∷ es) (suc i) e l h = (h.0, set-Current v es i e l h.1)

later-Current :
    (v w : ℕ) (es : List Entry)
    → v ≤ w
    → All (λ (x : Entry). x.version ≤ v) es
    → All (λ (x : Entry). x.version ≤ w) es
later-Current v w [] l h = tt
later-Current v w (d ∷ es) l h = (omega (arith, h.0), later-Current v w es l h.1)

Reachable-Current : (s : Shared) → Reachable s → Current s
unfolding cache_store
Reachable-Current _ boot = let h : 0 ≤ 1 = omega arith in (h, (h, (h, (h, (h, (h, (h, (h, tt))))))))
Reachable-Current _ (look s p query r) = look-Current s p query (Reachable-Current s r)
Reachable-Current _ (store s p query result r) =
    set-Current s.file_version s.entries (store_slot query s.entries)
      (new_entry s.file_version p query result) (omega arith) (Reachable-Current s r)
Reachable-Current _ (bump s b r) =
    later-Current s.file_version (u64 (s.file_version + 1)) s.entries (omega arith)
      (Reachable-Current s r)

-- What processes do to the cache one after the other: a lookup, a store, or a count of the version
-- of the files
pub data Op : Type 0 where
  looks : Proc → List ℕ → Op
  stores : Proc → List ℕ → List ℕ → Op
  bumps : Op

unfoldable pub apply : Op → Shared → Shared
apply (looks p query) s = (cache_lookup s p query).1
apply (stores p query result) s = cache_store s p query result
apply bumps s = version_bump s

unfoldable pub run : List Op → Shared → Shared
run [] s = s
run (o ∷ os) s = run os (apply o s)

-- No operation stores a result under the query.
abbrev pub Spares : List ℕ → Op → Type 0
Spares q (looks p query) = Unit {0}
Spares q (stores p query result) = streq (take 127 query) q ≡ false
Spares q bumps = Unit {0}

-- Every entry of the query is of an earlier version than the given one.
abbrev Old : ℕ → List ℕ → List Entry → Type 0
Old v q = All λ (e : Entry). (e.version < v) ⊎ (streq e.query q ≡ false)

stale :
    (v : ℕ) (p : Proc) (query : List ℕ) (es : List Entry)
    → Old v query es
    → find_hit v p query es ≡ none
unfolding find_hit is_hit
stale v p query [] h = refl
stale v p query (e ∷ es) (inl l, hs) =
    let n : (e.version == v) ≡ false = ground arith in
    rw (and-false' e.used (e.version == v) (streq e.query query) (access_allowed p e) n)
      (stale v p query es hs)
stale v p query (e ∷ es) (inr n, hs) = ground (arith, stale v p query es hs)

touch_hit-Old :
    (version v : ℕ) (p : Proc) (query q : List ℕ) (es : List Entry)
    → Old v q es
    → Old v q (touch_hit version p query es)
unfolding touch_hit
touch_hit-Old version v p query q [] h = tt
touch_hit-Old version v p query q (e ∷ es) h = elim (Bool-cases (is_hit version p query e)) [
  | inl n ↦ rw n (h.0, h.1)
  | inr n ↦ rw n (h.0, touch_hit-Old version v p query q es h.1)
]

look-Old :
    (s : Shared) (p : Proc) (query q : List ℕ)
    → Old s.file_version q s.entries
    → Old (cache_lookup s p query).1.file_version q (cache_lookup s p query).1.entries
unfolding cache_lookup
look-Old s p query q c = elim (Option-cases (find_hit s.file_version p query s.entries)) [
  | inl n ↦ rw (cache_lookup, n) c
  | inr (e, n) ↦
      rw (cache_lookup, n) (touch_hit-Old s.file_version s.file_version p query q s.entries c)
]

look-version :
    (s : Shared) (p : Proc) (query : List ℕ)
    → (cache_lookup s p query).1.file_version ≡ s.file_version
unfolding cache_lookup
look-version s p query = elim (Option-cases (find_hit s.file_version p query s.entries)) [
  | inl n ↦ rw (cache_lookup, n) refl
  | inr (e, n) ↦ rw (cache_lookup, n) refl
]

set-Old :
    (v : ℕ) (q : List ℕ) (es : List Entry) (i : ℕ) (e : Entry)
    → streq e.query q ≡ false
    → Old v q es
    → Old v q (set es i e)
set-Old v q [] i e l h = tt
set-Old v q (d ∷ es) zero e l h = (inr l, h.1)
set-Old v q (d ∷ es) (suc i) e l h = (h.0, set-Old v q es i e l h.1)

later-Old : (v w : ℕ) (q : List ℕ) (es : List Entry) → v ≤ w → Old v q es → Old w q es
later-Old v w q [] l h = tt
later-Old v w q (d ∷ es) l (inl k, hs) = (inl (omega arith), later-Old v w q es l hs)
later-Old v w q (d ∷ es) l (inr k, hs) = (inr k, later-Old v w q es l hs)

Current-Old :
    (v w : ℕ) (q : List ℕ) (es : List Entry)
    → v < w
    → All (λ (e : Entry). e.version ≤ v) es
    → Old w q es
Current-Old v w q [] l h = tt
Current-Old v w q (d ∷ es) l h = (inl (omega (arith, h.0)), Current-Old v w q es l h.1)

run-Old :
    (os : List Op) (s : Shared) (q : List ℕ)
    → All (Spares q) os
    → s.file_version + length os < 2 ^ 64
    → Old s.file_version q s.entries
    → Old (run os s).file_version q (run os s).entries
unfolding run apply cache_store
run-Old [] s q sp b h = h
run-Old (looks p query ∷ os) s q sp b h =
    run-Old os (cache_lookup s p query).1 q sp.1 (omega (arith, look-version s p query))
      (look-Old s p query q h)
run-Old (stores p query result ∷ os) s q sp b h =
    run-Old os (cache_store s p query result) q sp.1 (omega arith) (
      set-Old s.file_version q s.entries (store_slot query s.entries)
        (new_entry s.file_version p query result) sp.0 h)
run-Old (bumps ∷ os) s q sp b h =
    run-Old os (version_bump s) q sp.1 (omega arith)
      (later-Old s.file_version (u64 (s.file_version + 1)) q s.entries (omega arith) h)

-- A result that the cache holds when agent_file_version_bump runs is never returned again: after the
-- bump, and after any lookups, stores under other queries and further bumps, a lookup of the query
-- misses, for every process, until a result is stored under the query anew. The version, which is a
-- uint64, is taken not to wrap around in these steps. A change of files that does not call
-- agent_file_version_bump takes nothing from the cache, and a result that was computed before a bump
-- and stored after it counts as stored anew.
pub version_bump-cache_lookup :
    (s : Shared) (os : List Op) (p : Proc) (query : List ℕ)
    → Reachable s
    → s.file_version + 1 + length os < 2 ^ 64
    → All (Spares query) os
    → (cache_lookup (run os (version_bump s)) p query).0 ≡ none
unfolding cache_lookup
version_bump-cache_lookup s os p query r b sp =
    let s' = run os (version_bump s) in
    rw
      (
        cache_lookup,
        stale s'.file_version p query s'.entries (
            run-Old os (version_bump s) query sp (omega arith) (
              Current-Old s.file_version (u64 (s.file_version + 1)) query s.entries (omega arith)
                (Reachable-Current s r))),
      )
      refl
