-- ===== src/QueryCache.antt =====
-- The shared cache of query results, and agentfs_tool_query_file, of kernel/agent_fs.c: the table
-- shared_query_cache with agent_file_version and the two counters.
pub mod Store
pub mod Fresh
pub mod Answer
pub mod Repeat
use mathlib.Core.Option
use aaaos_renovation_agent_o.Prelude.{
  ℕ, zero, suc, ◌+◌, Bool, true, false, ◌&&◌, ◌||◌, not, Option, none, some, List, [], ◌∷◌, ◌==◌,
  if◌then◌else◌, u64, take, set,
}
use aaaos_renovation_agent_o.Proc.{Proc}
use aaaos_renovation_agent_o.Params.{streq, param_value}
use aaaos_renovation_agent_o.Text.{codes}

-- struct shared_query_cache
pub record Entry : Type 0 where
  pub used : Bool
  pub query : List ℕ
  pub result : List ℕ
  pub owner_pid : ℕ
  pub owner_group : ℕ
  pub refcnt : ℕ
  pub version : ℕ

pub record Shared : Type 0 where
  pub entries : List Entry
  pub file_version : ℕ
  pub hits : ℕ
  pub misses : ℕ

-- The value of a parameter in a buffer of INODE_ATTR_VALUE_MAX bytes is `text`.
unfoldable pub param_is : List ℕ → List ℕ → List ℕ → Bool
param_is params key text = elim (param_value params key 16) [ none ↦ false | some v ↦ streq v text ]

-- query_allows_public_share
unfoldable pub public_share : List ℕ → Bool
public_share params =
    param_is params (codes "public") (codes "true")
    || param_is params (codes "owner") (codes "system")

-- cache_access_allowed
unfoldable pub access_allowed : Proc → Entry → Bool
access_allowed p e =
    public_share e.query || not (p.ident.agent_group == 0) && p.ident.agent_group == e.owner_group

-- What the loop of shared_query_cache_lookup asks of an entry
unfoldable pub is_hit : ℕ → Proc → List ℕ → Entry → Bool
is_hit version p query e =
    e.used && e.version == version && streq e.query query && access_allowed p e

abbrev pub touch : Entry → Entry
touch e = record e { refcnt = e.refcnt + 1 }

-- The entry that the loop hits, with its count of references raised
unfoldable pub find_hit : ℕ → Proc → List ℕ → List Entry → Option Entry
find_hit version p query [] = none
find_hit version p query (e ∷ es) =
    let rest = find_hit version p query es in
    if is_hit version p query e then some (touch e) else rest

-- The table after the loop
unfoldable pub touch_hit : ℕ → Proc → List ℕ → List Entry → List Entry
touch_hit version p query [] = []
touch_hit version p query (e ∷ es) =
    let rest = e ∷ touch_hit version p query es in
    if is_hit version p query e then touch e ∷ es else rest

-- shared_query_cache_lookup, less the text of the response: the entry of a hit, and the cache
unfoldable pub cache_lookup : Shared → Proc → List ℕ → Option Entry × Shared
cache_lookup s p query = elim (find_hit s.file_version p query s.entries) [
  | none ↦ (none, record s { misses = u64 (s.misses + 1) })
  | some e ↦ (
    some e,
    record s { entries = touch_hit s.file_version p query s.entries; hits = u64 (s.hits + 1) },
  )
]

-- `used && streq(query, …)`, as the loop of shared_query_cache_store asks
unfoldable pub holds_query : List ℕ → Entry → Bool
holds_query query e = e.used && streq e.query query

-- The slot of the query, from the index `i` on
unfoldable pub query_slot : List ℕ → ℕ → List Entry → Option ℕ
query_slot query i [] = none
query_slot query i (e ∷ es) =
    let rest = query_slot query (i + 1) es in if holds_query query e then some i else rest

-- The first free slot, from the index `i` on
unfoldable pub free_slot : ℕ → List Entry → Option ℕ
free_slot i [] = none
free_slot i (e ∷ es) = let rest = free_slot (i + 1) es in if e.used then rest else some i

-- The slot of the query, else the first free one, else the first
abbrev pub choose : Option ℕ → Option ℕ → ℕ
choose (some i) free = i
choose none (some i) = i
choose none none = 0

unfoldable pub store_slot : List ℕ → List Entry → ℕ
store_slot query es = choose (query_slot query 0 es) (free_slot 0 es)

-- The entry that is written: the query is cut to AGENT_TOOL_PARAM_MAX, the result to
-- AGENT_TOOL_RESULT_MAX bytes, less the NUL.
abbrev pub new_entry : ℕ → Proc → List ℕ → List ℕ → Entry
new_entry version p query result = record {
  used = true;
  query = take 127 query;
  result = take 511 result;
  owner_pid = p.pid;
  owner_group = p.ident.agent_group;
  refcnt = 1;
  version = version;
}

-- shared_query_cache_store
unfoldable pub cache_store : Shared → Proc → List ℕ → List ℕ → Shared
cache_store s p query result = record s {
  entries = set s.entries (store_slot query s.entries) (new_entry s.file_version p query result);
}

-- agent_file_version_bump
abbrev pub version_bump : Shared → Shared
version_bump s = record s { file_version = u64 (s.file_version + 1) }
