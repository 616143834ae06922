-- ===== src/Lifecycle.antt =====
-- The life of an Agent: agent_init_proc, agent_next_identity, agent_after_fork, agent_after_exec,
-- agent_mark_current and agent_get_info of kernel/agent.c.
pub mod Fork
pub mod Mark
pub mod Requests
use Prim.Native.Nat.{bit_or}
use aaaos_renovation_agent_o.Prelude.{
  ℕ, zero, suc, ◌+◌, ◌-◌, ◌*◌, ◌/◌, Bool, true, false, not, ◌&&◌, ◌||◌, Option, none, some, List,
  [], ◌∷◌, ltb, leb, ◌==◌, if◌then◌else◌, ℤ, pos, negsuc, pos_part, ltb_ℤ, leb_ℤ, u64, replicate,
}
use aaaos_renovation_agent_o.Proc.{
  Status, ok, Proc, Dep, Context, Identity, Sched, Events, is_ok, loop_idle, loop_ready, role_unset,
  role_planner, agent_type_normal, agent_type_primary, cap_all, cap_query_process, cap_query_file,
  cap_read_file, cap_send_message, context_region_bytes, context_header_bytes, guard_bytes,
  LoopState, context_max_nodes, digest_max, default_priority, sched_priority_min,
  replenish_interval, Workflow, WheelLink,
}
use aaaos_renovation_agent_o.Mailbox
use aaaos_renovation_agent_o.Digest
use aaaos_renovation_agent_o.Region.{
  Region, zero_header, no_dep, no_deps, no_digests, context_clear,
}
use aaaos_renovation_agent_o.Rights.{default_sched_priority, default_sched_quota, union}
use aaaos_renovation_agent_o.Workflow.{workflow_create, workflow_join, workflow_leave}

-- agent_next_identity: the generation that is handed out, which is the counter after it. It is never
-- 0.
unfoldable pub next_identity : ℕ → ℕ
next_identity n = if u64 (n + 1) == 0 then 1 else u64 (n + 1)

-- A Context with no nodes, in the region that is given
unfoldable pub empty_context : ℕ → ℕ → ℕ → Context
empty_context region_start region_size generation = record {
  region_start = region_start;
  region_size = region_size;
  path_len = 0;
  node_count = 0;
  dropped_nodes = 0;
  offsets = replicate context_max_nodes 0;
  lengths = replicate context_max_nodes 0;
  deps = no_deps;
  pending = no_dep;
  generation = generation;
  first_sequence = 0;
  next_sequence = 1;
  digests = replicate digest_max Digest.blank;
  digest_head = 0;
  digest_count = 0;
  last_query = 0;
  reuse_hit = 0;
}

-- No watch, no event, no heartbeat and no wait
abbrev pub no_events : Events
no_events = record {
  heartbeat_interval = pos 0;
  heartbeat_deadline = 0;
  watch_mask = 0;
  pending_events = 0;
  last_wakeup_reason = 0;
  wakeup_tick = 0;
  watch_dev = 0;
  watch_inum = 0;
  watch_path = [];
  wait_generation = 0;
  wait_timeout_ticks = pos 0;
  wait_deadline = 0;
}

abbrev pub no_link : WheelLink
no_link = record { next = 0; bucket = negsuc 0; active = false }

-- The scheduling fields with nothing spent and nothing to spend
abbrev pub fresh_sched : ℕ → ℕ → ℕ → Sched
fresh_sched agent_priority sched_priority quota = record {
  agent_priority = agent_priority;
  sched_priority = sched_priority;
  sched_quota = quota;
  sched_budget = 0;
  sched_boost = 0;
  sched_vruntime = 0;
  sched_last_run = 0;
  budget_penalty = 0;
  replenish_deadline = 0;
  runnable_since = 0;
}

abbrev pub no_identity : Identity
no_identity = record {
  agent_type = agent_type_normal;
  agent_role = role_unset;
  agent_role_locked = false;
  agent_group = 0;
  agent_capabilities = 0;
  workflow_id = 0;
  workflow_leader_pid = 0;
  workflow_leader_generation = 0;
  agent_parent_pid = 0;
  agent_parent_generation = 0;
  is_workflow_leader = false;
  workflow_member_registered = false;
  identity_generation = 0;
}

-- agent_init_proc
unfoldable pub init_proc : Proc → Proc
init_proc p = record p {
  resource_quota = context_region_bytes - context_header_bytes;
  loop_state = loop_idle;
  ident = no_identity;
  sched = fresh_sched default_priority sched_priority_min 0;
  ev = no_events;
  wheel = no_link;
  mailbox = Mailbox.empty;
  ctx = empty_context 0 0 1;
}

-- What a child takes from its parent. `id` is its identity generation.
unfoldable pub fork_identity : Proc → ℕ → Identity
fork_identity src id = record no_identity {
  agent_type = src.agent_type;
  agent_group = src.agent_group;
  workflow_id = src.workflow_id;
  workflow_leader_pid = src.workflow_leader_pid;
  workflow_leader_generation = src.workflow_leader_generation;
  agent_parent_pid = src.pid;
  agent_parent_generation = src.identity_generation;
  identity_generation = id;
}

-- The child before it joins the workflow
unfoldable pub fork_proc : Proc → Proc → ℕ → Proc
fork_proc dst src id = record dst {
  resource_quota = src.resource_quota;
  loop_state = loop_idle;
  ident = fork_identity src id;
  sched = fresh_sched src.agent_priority src.sched_priority src.sched_quota;
  ev = no_events;
  wheel = no_link;
  mailbox = Mailbox.empty;
  ctx = empty_context src.ctx.region_start src.ctx.region_size (u64 (src.ctx.generation + 1));
}

-- A member that is counted
abbrev pub registered : Proc → Proc
registered p = record p { ident = record p.ident { workflow_member_registered = true } }

-- The child after agent_workflow_join_locked: a member, or killed
unfoldable pub join_or_kill : Proc → Status → Proc
join_or_kill p s = if is_ok s then registered p else record p { killed = true }

-- agent_after_fork. The state is the identity counter and the workflow table.
unfoldable pub after_fork : Proc → Proc → ℕ → List Workflow → Proc × ℕ × List Workflow
after_fork dst src ids ws =
    let id = next_identity ids in
    let p = fork_proc dst src id in
    let (s, ws') = workflow_join p ws in
    if not (p.workflow_id == 0) && not (p.workflow_leader_generation == 0)
    then (join_or_kill p s, id, ws')
    else (p, id, ws)

-- agent_after_exec
unfoldable pub after_exec : Proc → Proc
after_exec p = record p { ctx = empty_context 0 0 0 }

-- PGROUNDUP
unfoldable pub round_up : ℕ → ℕ
round_up sz = (sz + 4095) / 4096 * 4096

-- The region that uvmalloc gives: pages of zeros
abbrev pub new_region : Region
new_region = record {
  mapped = true;
  header = zero_header;
  path = replicate (context_region_bytes - context_header_bytes) 0;
}

-- The region of agent_mark_current: the one there is, or a new one with a guard page behind it. `maps`
-- is whether uvmalloc succeeds; none is the -1 where it does not.
unfoldable pub mark_region : Proc → Region → Bool → Option (Proc × Region)
mark_region p r maps =
    let start = round_up p.sz in
    if not (p.ctx.region_start == 0)
    then some (p, r)
    else if maps
    then some (
      record p {
        sz = start + context_region_bytes + guard_bytes;
        ctx = record p.ctx { region_start = start; region_size = context_region_bytes };
      },
      new_region,
    )
    else none

-- `type <= AGENT_TYPE_NORMAL` stands for the primary type.
unfoldable pub mark_type : ℤ → ℕ
mark_type t = if leb_ℤ t (pos 0) then agent_type_primary else pos_part t

-- The rights of a new Agent
unfoldable pub mark_caps : ℕ → ℕ
mark_caps type =
    if type == agent_type_primary
    then cap_all
    else union (cap_query_process ∷ cap_query_file ∷ cap_read_file ∷ cap_send_message ∷ [])

-- The identity before the workflow is entered
unfoldable pub mark_identity : Proc → ℕ → ℕ → Identity
mark_identity p type id = record p.ident {
  agent_type = type;
  agent_role = if type == agent_type_primary then role_planner else role_unset;
  agent_role_locked = type == agent_type_primary;
  agent_group = if type == agent_type_primary || p.agent_group == 0 then p.pid else p.agent_group;
  agent_capabilities = mark_caps type;
  identity_generation = id;
}

unfoldable pub mark_sched : Proc → ℕ → ℕ → Sched
mark_sched p type now = record p.sched {
  agent_priority = if leb p.agent_priority 0 then default_priority else p.agent_priority;
  sched_priority = default_sched_priority type;
  sched_quota = default_sched_quota type;
  sched_budget = default_sched_quota type;
  sched_boost = 0;
  sched_vruntime = 0;
  sched_last_run = 0;
  budget_penalty = 0;
  replenish_deadline = if ltb 0 (default_sched_quota type) then now + replenish_interval else 0;
}

-- The generation of its identity: the old one, or a new one for a process that has none
abbrev pub identity_of : Proc → ℕ → ℕ
identity_of p ids = if p.identity_generation == 0 then next_identity ids else p.identity_generation

abbrev pub counter_after : Proc → ℕ → ℕ
counter_after p ids = if p.identity_generation == 0 then next_identity ids else ids

-- The assignments up to the workflow
unfoldable pub mark_fields : Proc → ℕ → ℤ → ℕ → ℕ → ℕ → Proc
mark_fields p type interval quota ids now = record p {
  resource_quota = quota;
  loop_state = loop_ready;
  ident = mark_identity p type (identity_of p ids);
  sched = mark_sched p type now;
  ev = record no_events {
    heartbeat_interval = interval;
    heartbeat_deadline = if ltb_ℤ (pos 0) interval then now + pos_part interval else 0;
  };
  mailbox = Mailbox.empty;
}

-- The leader of a workflow of its own
abbrev pub own_workflow : Bool → Proc → Proc
own_workflow leads p = record p {
  ident = record p.ident {
    workflow_id = p.pid;
    workflow_leader_pid = p.pid;
    workflow_leader_generation = p.identity_generation;
    agent_parent_pid = 0;
    agent_parent_generation = 0;
    is_workflow_leader = leads;
  };
}

-- `p->workflow_member_registered`
unfoldable pub is_registered : Proc → Bool
is_registered p = p.workflow_member_registered

-- `if(!registered && create == OK) registered = 1`
unfoldable pub create_own : Proc → List Workflow → Proc × List Workflow
create_own p ws =
    let (s, ws') = workflow_create p ws in
    if is_registered p then (p, ws) else (if is_ok s then registered p else p, ws')

-- A primary Agent leaves the workflow it was a member of, and leads its own.
unfoldable pub enter_as_primary : Proc → List Workflow → Proc × List Workflow
enter_as_primary p ws =
    let (q, ws') = if is_registered p then workflow_leave p ws else (p, ws) in
    create_own (own_workflow true q) ws'

-- The join of another Agent: a refusal is the -1 of agent_mark_current.
unfoldable pub join_given : Proc → List Workflow → Bool × Proc × List Workflow
join_given p ws =
    let (s, ws') = workflow_join p ws in
    if is_registered p
    then (true, p, ws)
    else if is_ok s
    then (true, registered p, ws')
    else (false, p, ws')

-- Another Agent stays in the workflow it was forked into, or has its own.
unfoldable pub enter_as_worker : Proc → List Workflow → Bool × Proc × List Workflow
enter_as_worker p ws =
    let q : Proc = record p { ident = record p.ident { is_workflow_leader = false } } in
    let (o, ws') = create_own (own_workflow false q) ws in
    if q.workflow_id == 0 || q.workflow_leader_generation == 0
    then (true, o, ws')
    else join_given q ws

-- The workflow part of agent_mark_current
unfoldable pub enter_workflow : Proc → List Workflow → Bool × Proc × List Workflow
enter_workflow p ws =
    let (q, ws') = enter_as_primary p ws in
    if p.agent_type == agent_type_primary then (true, q, ws') else enter_as_worker p ws

-- The Context part of agent_mark_current
unfoldable pub mark_context : Proc → Region → ℕ → Proc × Region
mark_context p r now =
    let c : Context = record (no_digests p.ctx) {
      generation = 1;
      first_sequence = 0;
      next_sequence = 1;
      last_query = 0;
      reuse_hit = 0;
    } in
    let (c', r') = context_clear c r now in (record p { ctx = c' }, r')

-- What agent_mark_current does between its two calls of the wheel, on a process whose region is
-- there: whether it goes on, and the process, the identity counter, the workflows and the region.
unfoldable pub mark_proc :
    Proc → Region → ℤ → ℤ → ℕ → ℕ → ℕ → List Workflow → Bool × Proc × ℕ × List Workflow × Region
mark_proc p r type interval quota ids now ws =
    let (goes_on, q, ws') =
      enter_workflow (mark_fields p (mark_type type) interval quota ids now) ws in
    let (q', r') = mark_context q r now in
    if goes_on
    then (true, q', counter_after p ids, ws', r')
    else (false, q, counter_after p ids, ws', r)

-- agent_get_info
pub record Info : Type 0 where
  pub context_start : ℕ
  pub context_size : ℕ
  pub agent_type : ℕ
  pub heartbeat_interval : ℤ
  pub resource_quota : ℕ
  pub loop_state : LoopState
  pub context_path_len : ℕ
  pub context_node_count : ℕ
  pub dropped_nodes : ℕ
  pub agent_priority : ℕ
  pub agent_group : ℕ
  pub sched_priority : ℕ
  pub sched_quota : ℕ
  pub sched_budget : ℕ
  pub agent_capabilities : ℕ
  pub mailbox_count : ℕ
  pub mailbox_dropped : ℕ

unfoldable pub get_info : Proc → Info
get_info p = record {
  context_start = p.ctx.region_start;
  context_size = p.ctx.region_size;
  agent_type = p.agent_type;
  heartbeat_interval = p.heartbeat_interval;
  resource_quota = p.resource_quota;
  loop_state = p.loop_state;
  context_path_len = p.ctx.path_len;
  context_node_count = p.ctx.node_count;
  dropped_nodes = p.ctx.dropped_nodes;
  agent_priority = p.agent_priority;
  agent_group = p.agent_group;
  sched_priority = p.sched_priority;
  sched_quota = p.sched_quota;
  sched_budget = p.sched_budget;
  agent_capabilities = p.agent_capabilities;
  mailbox_count = p.mailbox.count;
  mailbox_dropped = p.mailbox.dropped;
}
