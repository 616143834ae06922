-- ===== src/Context.antt =====
-- The Context path: agent_context_push_node, _query, _validate and _rollback of
-- kernel/agent_context.c.
pub mod Push
pub mod Validate
pub mod Rollback
use aaaos_renovation_agent_o.Prelude.{
  ℕ, zero, suc, ◌+◌, ◌-◌, min, Bool, true, false, not, ◌&&◌, ◌||◌, Option, none, some, List, [],
  ◌∷◌, ◌++◌, ltb, leb, ◌==◌, if◌then◌else◌, u64, get_or, set, take, drop, replicate, length,
}
use aaaos_renovation_agent_o.Proc.{
  Proc, Context, Dep, LoopState, loop_rolled_back, context_max_nodes,
}
use aaaos_renovation_agent_o.Digest.{digest_push}
use aaaos_renovation_agent_o.Region.{
  Region, no_dep, path_capacity, write_begin, sync_header, make_room, no_digests, context_clear,
}
use aaaos_renovation_agent_o.Text.{Node, record_text}
use aaaos_renovation_agent_o.Versions.{Entry, version_get}

-- `base[at ..] = bytes`
unfoldable pub write_at : List ℕ → ℕ → List ℕ → List ℕ
write_at path at bytes = take at path ++ bytes ++ drop (at + length bytes) path

-- `++next_sequence`, which skips 0
unfoldable pub after_sequence : ℕ → ℕ
after_sequence n = if u64 (n + 1) == 0 then 1 else u64 (n + 1)

-- The dependency of the node, out of the pending one
unfoldable pub dep_of : Context → ℕ → Dep
dep_of c sequence =
    if c.pending.used
    then record c.pending { sequence = sequence }
    else record no_dep { sequence = sequence }

-- The counters and arrays after a record is written behind the path
unfoldable pub append_node : Context → ℕ → Dep → Context
append_node c rec_len dep = record c {
  first_sequence = if c.node_count == 0 then dep.sequence else c.first_sequence;
  offsets = set c.offsets c.node_count c.path_len;
  lengths = set c.lengths c.node_count rec_len;
  deps = set c.deps c.node_count dep;
  path_len = c.path_len + rec_len;
  node_count = c.node_count + 1;
}

-- The Context with the node, its digest and its query
unfoldable pub pushed_context : Node → ℕ → Dep → List ℕ → Context → Context
pushed_context node sequence dep text c =
    record (digest_push (append_node c (length text) dep) sequence node.request_id node.request
      node.result node.status) { last_query = node.request_id }

-- The rest of agent_context_push_node after its eviction loop. `c` is the Context after the loop.
unfoldable pub push_record :
    Node → ℕ → Dep → List ℕ → ℕ → Context → Region → Bool × Context × Region
push_record node sequence dep text now c r =
    if not r.mapped
    then (false, c, r)
    else sync_header (pushed_context node sequence dep text c)
        (record r { path = write_at r.path c.path_len text }) now

abbrev pub push_evicted :
    Node → ℕ → Dep → List ℕ → ℕ → Option (Context × Region) → Option (Bool × Context × Region)
push_evicted node sequence dep text now none = none
push_evicted node sequence dep text now (some (c, r)) =
    some (push_record node sequence dep text now c r)

-- The part behind the checks of the region and of the length
unfoldable pub push_checked :
    Node → ℕ → Dep → List ℕ → ℕ → ℕ → Context → Region → Option (Bool × Context × Region)
push_checked node sequence dep text capacity now c r =
    let (w, c', r') = write_begin c r now in
    let c'' : Context = record c' { next_sequence = after_sequence c'.next_sequence } in
    let room = make_room (c.node_count + 1) capacity (length text) c'' r' in
    if w then push_evicted node sequence dep text now room else some (false, c', r')

-- agent_context_push_node: true for 0, false for -1; none would be an eviction loop that goes on.
-- The arguments are the Context, the `resource_quota` and the region.
unfoldable pub push_node : Context → ℕ → Region → Node → ℕ → Option (Bool × Context × Region)
push_node c quota r node now =
    let c' : Context = record c { pending = no_dep } in
    let sequence = c.next_sequence in
    let text = record_text node sequence in
    let capacity = path_capacity c quota in
    if c.region_start == 0
    then some (false, c', r)
    else if ltb capacity (length text)
    then some (false, c', r)
    else push_checked node sequence (dep_of c sequence) text capacity now c' r

-- agent_context_query: the bytes that go to the caller, none for -1. `writes` is whether the
-- caller's buffer takes them.
unfoldable pub context_query : Context → Region → Bool → ℕ → Option (List ℕ) × Context
context_query c r writes len =
    let n = min len c.path_len in
    (
      if ltb 0 n && not (r.mapped && writes) then none else some (take n r.path),
      record c { reuse_hit = 1 },
    )

-- AGENT_CONTEXT_VALID, STALE, NO_DEP, NOT_FOUND and DELETED
pub data DepState : Type 0 where
  dep_valid dep_stale dep_none dep_not_found dep_deleted : DepState

-- struct agent_context_validation
pub record Validation : Type 0 where
  pub sequence : ℕ
  pub dev : ℕ
  pub inum : ℕ
  pub recorded_version : ℕ
  pub current_version : ℕ
  pub state : DepState

-- The loop over the nodes for the one of that sequence; `n` is how many there are.
unfoldable pub find_dep : ℕ → ℕ → List Dep → Option Dep
find_dep sequence zero ds = none
find_dep sequence (suc n) [] = none
find_dep sequence (suc n) (d ∷ ds) = elim (d.sequence == sequence) [
  | true ↦ some d
  | false ↦ find_dep sequence n ds
]

-- The comparison of the recorded version with the current one
unfoldable pub compare_versions : ℕ → ℕ → DepState
compare_versions recorded current =
    if current == 0 then dep_deleted else if current == recorded then dep_valid else dep_stale

-- The result for a dependency, and the version table after the lookup
unfoldable pub validate_dep : ℕ → Option Dep → List Entry → Validation × List Entry
validate_dep sequence none es = (
  record {
    sequence = sequence;
    dev = 0;
    inum = 0;
    recorded_version = 0;
    current_version = 0;
    state = dep_not_found;
  },
  es,
)
validate_dep sequence (some d) es =
    let (v, es') = version_get d.dev d.inum es in
    if d.used
    then (
      record {
        sequence = sequence;
        dev = d.dev;
        inum = d.inum;
        recorded_version = d.version;
        current_version = v;
        state = compare_versions d.version v;
      },
      es',
    )
    else (
      record {
        sequence = sequence;
        dev = 0;
        inum = 0;
        recorded_version = 0;
        current_version = 0;
        state = dep_none;
      },
      es,
    )

-- Sequence 0 stands for the last node.
unfoldable pub wanted_sequence : Context → ℕ → ℕ
wanted_sequence c sequence =
    if sequence == 0 && ltb 0 c.node_count
    then (get_or c.deps (c.node_count - 1) no_dep).sequence
    else sequence

-- agent_context_validate, less the copyout of its result
unfoldable pub context_validate : Context → ℕ → List Entry → Validation × List Entry
context_validate c sequence es =
    let s = wanted_sequence c sequence in validate_dep s (find_dep s c.node_count c.deps) es

-- The Context with the first `keep` nodes
unfoldable pub keep_nodes : Context → ℕ → Context
keep_nodes c keep = record (no_digests c) {
  path_len = get_or c.offsets (keep - 1) 0 + get_or c.lengths (keep - 1) 0;
  node_count = keep;
  next_sequence = u64 (c.first_sequence + keep);
  deps = take keep c.deps ++ replicate (context_max_nodes - keep) no_dep;
  pending = no_dep;
}

-- The roll back to at least one node; the loop state changes only if it goes on.
unfoldable pub rollback_to :
    Context → LoopState → Region → ℕ → ℕ → Bool × Context × LoopState × Region
rollback_to c loop r keep now =
    let (w, c', r') = write_begin c r now in
    let (d, c'', r'') = sync_header (keep_nodes c' keep) r' now in
    if w then (d, c'', loop_rolled_back, r'') else (false, c', loop, r')

-- agent_context_rollback: true for 0, false for -1.
unfoldable pub context_rollback :
    Context → LoopState → Region → ℕ → ℕ → Bool × Context × LoopState × Region
context_rollback c loop r keep now =
    if ltb c.node_count keep
    then (false, c, loop, r)
    else if keep == 0
    then (let (c', r') = context_clear c r now in (true, c', loop, r'))
    else rollback_to c loop r keep now
