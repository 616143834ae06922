-- ===== src/QueryCache/Repeat.antt =====
-- A query that is asked again is answered from the shared cache.
use aaaos_renovation_agent_o.Prelude.{
  ℕ, ◌≡◌, ◌≢◌, refl, ap, ◌∙◌, Bool, true, false, ◌&&◌, ◌||◌, not, none, some, List, arith, ◌==◌,
  take, length, ◌<◌, Option-cases, inl, inr,
}
use aaaos_renovation_agent_o.Proc.{Proc}
use aaaos_renovation_agent_o.Files.{tool_resp_set, tool_ok}
use aaaos_renovation_agent_o.FileIndex.Query.{Query, query_parse, run_query, count_used}
use aaaos_renovation_agent_o.FileIndex.Walk.{Node}
use aaaos_renovation_agent_o.QueryCache.{
  Entry, Shared, public_share, access_allowed, find_hit, touch, new_entry, cache_lookup,
  cache_store,
}
use aaaos_renovation_agent_o.QueryCache.Store.{cache_store-cache_lookup}
use aaaos_renovation_agent_o.QueryCache.Answer.{
  Files, found_text, result_with_cache, index_ensure, query_miss, query_file,
}

-- The text that a query stores
unfoldable pub stored_text : Node → ℕ → Query → Files → List ℕ
stored_text root ticks q fs =
    let c = index_ensure root fs.index in
    found_text (run_query c.metas c.index q) q.force_scan (count_used c.metas) ticks

miss-shared :
    (s : Shared) (p : Proc) (query : List ℕ)
    → (cache_lookup s p query).0 ≡ none
    → (length (cache_lookup s p query).1.entries ≡ length s.entries)
      × ((cache_lookup s p query).1.file_version ≡ s.file_version)
unfolding cache_lookup
miss-shared s p query h = elim (Option-cases (find_hit s.file_version p query s.entries)) [
  | inl n ↦ rw (cache_lookup, n) (refl, refl)
  | inr (e, n) ↦ absurd (let h' : some e ≡ none = rw (cache_lookup, n) at h in cc)
]

own-group : (b : Bool) (g : ℕ) → g ≢ 0 → (b || not (g == 0) && g == g) ≡ true
own-group true g h = refl
own-group false g h =
    let z : (g == 0) ≡ false = ground arith in
    let y : (g == g) ≡ true = ground arith in rw (z, y) refl

own-access :
    (version : ℕ) (p : Proc) (query result : List ℕ)
    → p.ident.agent_group ≢ 0
    → access_allowed p (new_entry version p query result) ≡ true
unfolding access_allowed
own-access version p query result g =
    own-group (public_share (take 127 query)) p.ident.agent_group g

query_file-miss :
    (root : Node) (ticks : ℕ) (p : Proc) (params : List ℕ) (fs : Files) (q : Query)
    → (cache_lookup fs.shared p params).0 ≡ none
    → query_parse params ≡ some q
    → (query_file root true true ticks p params fs).files.shared
      ≡ cache_store (cache_lookup fs.shared p params).1 p params (stored_text root ticks q fs)
unfolding query_file query_miss stored_text
query_file-miss root ticks p params fs q h e = rw (h, query_miss, e) refl

query_file-hit :
    (root : Node) (ticks : ℕ) (p : Proc) (params : List ℕ) (fs : Files) (e : Entry)
    → (cache_lookup fs.shared p params).0 ≡ some e
    → (query_file root true true ticks p params fs).response
      ≡ tool_resp_set tool_ok (result_with_cache e.result 1 e.owner_pid e.refcnt e.version 0)
unfolding query_file
query_file-hit root ticks p params fs e h = rw h refl

-- A process of a group asks a query that the cache does not have. If it asks again, the answer is the
-- stored text, marked as a hit, whatever the tree of the files and the clock then are.
pub query_file_twice :
    (root later : Node) (ticks ticks' : ℕ) (p : Proc) (params : List ℕ) (fs : Files) (q : Query)
    → p.ident.agent_group ≢ 0
    → 0 < length fs.shared.entries
    → take 127 params ≡ params
    → (cache_lookup fs.shared p params).0 ≡ none
    → query_parse params ≡ some q
    → (query_file later true true ticks' p params
        (query_file root true true ticks p params fs).files).response
      ≡ tool_resp_set tool_ok (
          result_with_cache
            (take 511 (stored_text root ticks q fs))
            1
            p.pid
            2
            fs.shared.file_version
            0)
query_file_twice root later ticks ticks' p params fs q g l t h e =
    let s1 = (cache_lookup fs.shared p params).1 in
    let m = miss-shared fs.shared p params h in
    let text = stored_text root ticks q fs in
    let r : (cache_lookup (cache_store s1 p params text) p params).0
        ≡ some (touch (new_entry s1.file_version p params text)) =
      cache_store-cache_lookup s1 p p params text (omega (arith, m.0)) t
        (own-access s1.file_version p params text g) in
    let f =
      ap (λ s. (cache_lookup s p params).0) (query_file-miss root ticks p params fs q h e) ∙ r in
    query_file-hit later ticks' p params (query_file root true true ticks p params fs).files
      (touch (new_entry s1.file_version p params text)) f
    ∙ ap (λ v. tool_resp_set tool_ok (result_with_cache (take 511 text) 1 p.pid 2 v 0)) m.1
