-- ===== src/QueryCache/Answer.antt =====
-- The text of a query's answer, and agentfs_tool_query_file, of kernel/agent_fs.c.
use aaaos_renovation_agent_o.Prelude.{
  ℕ, ◌+◌, Bool, true, false, Option, none, some, List, [], ◌∷◌, ◌==◌, if◌then◌else◌, take, length,
  ltb,
}
use aaaos_renovation_agent_o.Proc.{Proc, Workflow}
use aaaos_renovation_agent_o.Text.{codes, put_char, put_string, put_number}
use aaaos_renovation_agent_o.Workflow.Counters.{metric_query}
use aaaos_renovation_agent_o.Files.{
  Attr, Response, tool_resp_set, tool_ok, err_bad_param, err_no_space,
}
use aaaos_renovation_agent_o.FileIndex.{Meta}
use aaaos_renovation_agent_o.FileIndex.Query.{Found, query_parse, run_query, count_used}
use aaaos_renovation_agent_o.FileIndex.Walk.{Node, Cache, index_build}
use aaaos_renovation_agent_o.QueryCache.{Entry, Shared, cache_lookup, cache_store}

-- buf_puts and buf_putu into the AGENT_TOOL_RESULT_MAX bytes of a result
abbrev put : List ℕ → List ℕ → List ℕ
put buf s = put_string 512 buf s

abbrev put_labelled : List ℕ → List ℕ → ℕ → List ℕ
put_labelled buf label n = put_number 512 (put buf label) n

unfoldable pub put_attrs : List ℕ → List Attr → List ℕ
put_attrs buf [] = buf
put_attrs buf (a ∷ as') =
    let key = put (put_char 512 buf b',') a.key in
    put_attrs (put (put_char 512 key b'=') a.value) as'

-- append_file_result
unfoldable pub append_file_result : List ℕ → Meta → List ℕ
append_file_result buf m =
    let attrs = put_attrs (put (put buf (codes "{path=")) m.path) m.attrs in
    put_char 512 (put (put attrs (codes ",summary=")) m.summary) b'}'

-- The files that are listed, with a ',' before each but the first
unfoldable pub put_files : List ℕ → ℕ → List Meta → List ℕ
put_files buf count [] = buf
put_files buf count (m ∷ ms) =
    put_files (append_file_result (if ltb 0 count then put_char 512 buf b',' else buf) m)
      (count + 1) ms

-- The base of query_result_with_cache, less a '}' at its end
unfoldable pub drop_brace : List ℕ → List ℕ
drop_brace [] = []
drop_brace (c ∷ []) = if c == b'}' then [] else c ∷ []
drop_brace (c ∷ d ∷ cs) = c ∷ drop_brace (d ∷ cs)

-- query_result_with_cache
unfoldable pub result_with_cache : List ℕ → ℕ → ℕ → ℕ → ℕ → ℕ → List ℕ
result_with_cache base hit owner_pid refcnt version fs_scanned =
    let b = put_labelled (put [] (drop_brace base)) (codes ",cache_hit=") hit in
    let o = put_labelled b (codes ",cache_owner=") owner_pid in
    let r = put_labelled o (codes ",cache_refcnt=") refcnt in
    let v = put_labelled r (codes ",cache_version=") version in
    put_char 512 (put_labelled v (codes ",fs_scanned=") fs_scanned) b'}'

-- AGENT_FILE_RESULT_MAX
abbrev pub file_result_max : ℕ
file_result_max = 3

-- The text of what a plan found; `ticks` is `ticks_end - ticks_begin`.
unfoldable pub found_text : Found → Bool → ℕ → ℕ → List ℕ
found_text f force_scan full_scanned ticks =
    let files = put_files (put [] (codes "{status=ok,files=[")) 0 (take file_result_max f.hits) in
    let count = put_labelled files (codes "],count=") (length f.hits) in
    let index = put_labelled count (codes ",used_index=") (if f.used_index then 1 else 0) in
    let scanned = put_labelled index (codes ",index_scanned=") f.index_scanned in
    let full = put_labelled scanned (codes ",full_scanned=") full_scanned in
    let cost = put_labelled full (codes ",ticks_cost=") ticks in
    let plan =
      put (put cost (codes ",query_plan="))
        (if f.used_index then codes "index" else codes "scan") in
    let reason = if f.used_index then codes "indexed_key" else codes "no_index_key" in
    put_char 512
      (put (put plan (codes ",plan_reason=")) (if force_scan then codes "forced_scan" else reason))
      b'}'

-- What agentfs_tool_query_file reads and writes; the index is none before it is ready.
pub record Files : Type 0 where
  pub index : Option Cache
  pub shared : Shared
  pub workflows : List Workflow

pub record Answer : Type 0 where
  pub response : Response
  pub files : Files

-- file_index_ensure
unfoldable pub index_ensure : Node → Option Cache → Cache
index_ensure root none = index_build root
index_ensure root (some c) = c

-- From a lookup that misses on
unfoldable pub query_miss : Node → ℕ → Proc → List ℕ → Files → Answer
query_miss root ticks p params fs =
    let c = index_ensure root fs.index in
    let ready = record fs { index = some c } in
    elim (query_parse params) [
      | none ↦ record { response = tool_resp_set err_bad_param (codes "bad params"); files = ready }
      | some q ↦
          let f = run_query c.metas c.index q in
          let full = count_used c.metas in
          let text = found_text f q.force_scan full ticks in
          record {
            response =
                tool_resp_set tool_ok
                  (result_with_cache text 0 p.pid 1 fs.shared.file_version full);
            files = record ready {
              shared = cache_store fs.shared p params text;
              workflows =
                  metric_query (some p) f.index_scanned
                    (if f.used_index then f.index_scanned else 0) false fs.workflows;
            };
          }
    ]

abbrev pub query_found : Node → ℕ → Proc → List ℕ → Files → Option Entry → Answer
query_found root ticks p params fs none = query_miss root ticks p params fs
query_found root ticks p params fs (some e) = record {
  response = tool_resp_set tool_ok (result_with_cache e.result 1 e.owner_pid e.refcnt e.version 0);
  files = record fs { workflows = metric_query (some p) 0 0 true fs.workflows };
}

abbrev pub no_memory : Files → Answer
no_memory fs = record { response = tool_resp_set err_no_space (codes "no memory"); files = fs }

-- agentfs_tool_query_file over the tree of the file system. `memory` is whether kalloc gives the two
-- buffers, `lookup_memory` whether it gives the one of shared_query_cache_lookup, and `ticks` is the
-- time that the plan takes. The call is one step: the code releases its locks between the plan and the
-- store, and a count of the version of the files that falls in between is left out.
unfoldable pub query_file : Node → Bool → Bool → ℕ → Proc → List ℕ → Files → Answer
query_file root memory lookup_memory ticks p params fs =
    let r = cache_lookup fs.shared p params in
    if memory
    then if lookup_memory
      then query_found root ticks p params (record fs { shared = r.1 }) r.0
      else no_memory (record fs { workflows = metric_query (some p) 0 0 true fs.workflows })
    else no_memory fs
