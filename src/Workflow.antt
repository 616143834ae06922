-- ===== src/Workflow.antt =====
-- The workflow table agent_global.workflows: the agent_workflow_ functions and
-- agent_cascade_terminate of kernel/agent.c.
pub mod Counters
pub mod Find
pub mod Inv
pub mod Members
pub mod Cascade
use aaaos_renovation_agent_o.Prelude.{
  ℕ, suc, ◌+◌, ◌-◌, Bool, true, false, not, ◌&&◌, ◌||◌, Option, none, some, List, [], ◌∷◌, ltb, leb,
  ◌==◌, if◌then◌else◌, pos, get_elem?, has_bit, set_bit,
}
use aaaos_renovation_agent_o.Proc.{
  Status, ok, bad_param, not_agent, no_space, busy, permission, service_gone, Proc, Workflow,
  WorkflowState, wf_unused, wf_active, wf_terminating, wf_dead, Metrics, workflow_member_max,
  cap_workflow_ctrl, event_parent_gone, is_agent, is_normal, is_sleeping, is_ok, loop_done,
  runnable,
}

abbrev pub no_metrics : Metrics
no_metrics = record {
  tool_calls = 0;
  syscalls = 0;
  messages_received = 0;
  query_file_calls = 0;
  files_scanned = 0;
  index_scanned = 0;
  files_read = 0;
  bytes_read = 0;
  cache_hits = 0;
  cache_misses = 0;
  duplicate_queries = 0;
  wait_calls = 0;
  wait_ticks = 0;
}

-- A slot after memset
abbrev pub blank : Workflow
blank = record {
  used = false;
  workflow_id = 0;
  leader_pid = 0;
  leader_generation = 0;
  state = wf_unused;
  member_count = 0;
  terminate_tick = 0;
  metrics = no_metrics;
}

abbrev pub is_terminating : WorkflowState → Bool
is_terminating wf_terminating = true
is_terminating _ = false

abbrev pub is_active : WorkflowState → Bool
is_active wf_active = true
is_active _ = false

-- The test of agent_workflow_find_locked
unfoldable pub is_workflow : ℕ → ℕ → Workflow → Bool
is_workflow id gen w = w.used && w.workflow_id == id && w.leader_generation == gen

-- agent_workflow_find_locked
unfoldable pub find : ℕ → ℕ → List Workflow → Option Workflow
find id gen [] = none
find id gen (w ∷ ws) = elim (is_workflow id gen w) [ true ↦ some w | false ↦ find id gen ws ]

-- An assignment through the pointer that agent_workflow_find_locked returns
unfoldable pub update : ℕ → ℕ → (Workflow → Workflow) → List Workflow → List Workflow
update id gen f [] = []
update id gen f (w ∷ ws) = elim (is_workflow id gen w) [
  | true ↦ f w ∷ ws
  | false ↦ w ∷ update id gen f ws
]

-- The loop for a free slot; `none` where every slot is used.
unfoldable pub place : Workflow → List Workflow → Option (List Workflow)
place new [] = none
place new (w ∷ ws) = elim w.used [
  | false ↦ some (new ∷ ws)
  | true ↦ elim (place new ws) [ none ↦ none | some ws' ↦ some (w ∷ ws') ]
]

-- The workflow that agent_workflow_create_locked writes
abbrev pub fresh : Proc → Workflow
fresh p = record {
  used = true;
  workflow_id = p.workflow_id;
  leader_pid = p.workflow_leader_pid;
  leader_generation = p.workflow_leader_generation;
  state = wf_active;
  member_count = 1;
  terminate_tick = 0;
  metrics = no_metrics;
}

abbrev pub placed : List Workflow → Option (List Workflow) → Status × List Workflow
placed ws none = (no_space, ws)
placed ws (some ws') = (ok, ws')

-- One more member, and the leader's pid
abbrev pub enter : ℕ → Workflow → Workflow
enter leader w = record w { leader_pid = leader; member_count = w.member_count + 1 }

-- agent_workflow_create_locked
unfoldable pub workflow_create : Proc → List Workflow → Status × List Workflow
workflow_create p ws = elim (find p.workflow_id p.workflow_leader_generation ws) [
  | some w ↦
      if is_terminating w.state
      then (busy, ws)
      else (ok, update p.workflow_id p.workflow_leader_generation (enter p.workflow_leader_pid) ws)
  | none ↦ placed ws (place (fresh p) ws)
]

-- No workflow: `workflow_id == 0 || leader_generation == 0`
abbrev pub no_workflow : Proc → Bool
no_workflow p = p.workflow_id == 0 || p.workflow_leader_generation == 0

abbrev pub join_found : Workflow → Proc → List Workflow → Status × List Workflow
join_found w p ws =
    if is_terminating w.state
    then (busy, ws)
    else if leb workflow_member_max w.member_count
    then (no_space, ws)
    else (
      ok,
      update p.workflow_id p.workflow_leader_generation
          (λ w. record w { member_count = w.member_count + 1 }) ws,
    )

-- agent_workflow_join_locked
unfoldable pub workflow_join : Proc → List Workflow → Status × List Workflow
workflow_join p ws =
    if no_workflow p then (ok, ws) else elim (find p.workflow_id p.workflow_leader_generation ws) [
      | none ↦ (service_gone, ws)
      | some w ↦ join_found w p ws
    ]

abbrev pub terminate_found : Workflow → ℕ → ℕ → ℕ → List Workflow → Status × List Workflow
terminate_found w id gen now ws =
    if is_terminating w.state
    then (ok, ws)
    else if not (is_active w.state)
    then (service_gone, ws)
    else (ok, update id gen (λ w. record w { state = wf_terminating; terminate_tick = now }) ws)

-- agent_workflow_begin_terminate_locked
unfoldable pub begin_terminate : ℕ → ℕ → ℕ → List Workflow → Status × List Workflow
begin_terminate id gen now ws = elim (find id gen ws) [
  | none ↦ (service_gone, ws)
  | some w ↦ terminate_found w id gen now ws
]

-- One member less; the last one frees the slot.
unfoldable pub drop_member : Workflow → Workflow
drop_member w =
    if leb (w.member_count - 1) 0 then blank else record w { member_count = w.member_count - 1 }

-- agent_workflow_leave
unfoldable pub workflow_leave : Proc → List Workflow → Proc × List Workflow
workflow_leave p ws = if not p.workflow_member_registered || no_workflow p then (p, ws) else (
  record p { ident = record p.ident { workflow_member_registered = false } },
  update p.workflow_id p.workflow_leader_generation drop_member ws,
)

-- What agent_cascade_terminate does to a member
unfoldable pub terminate_member : ℕ → Proc → Proc
terminate_member now p = record p {
  killed = true;
  loop_state = loop_done;
  ev = record p.ev {
    heartbeat_interval = pos 0;
    heartbeat_deadline = 0;
    watch_mask = 0;
    pending_events = set_bit event_parent_gone p.pending_events;
    last_wakeup_reason = event_parent_gone;
    wakeup_tick = now;
    wait_deadline = 0;
    watch_dev = 0;
    watch_inum = 0;
    watch_path = [];
  };
  state = if is_sleeping p.state then runnable else p.state;
}

-- A live Agent of the workflow
unfoldable pub is_member : ℕ → ℕ → Proc → Bool
is_member id gen p = is_agent p && p.workflow_id == id && p.workflow_leader_generation == gen

-- What becomes of the process at an index of the table
unfoldable pub fate : ℕ → ℕ → ℕ → Bool → ℕ → ℕ → Proc → Proc
fate id gen now include_leader leader i p =
    if is_member id gen p && (include_leader || not (i == leader))
    then terminate_member now p
    else p

-- The loop over the process table; `i` is the index of its first process, `leader` that of the leader.
unfoldable pub terminate_members : ℕ → ℕ → ℕ → Bool → ℕ → ℕ → List Proc → List Proc
terminate_members id gen now include_leader leader i [] = []
terminate_members id gen now include_leader leader i (p ∷ ps) =
    fate id gen now include_leader leader i p
    ∷ terminate_members id gen now include_leader leader (i + 1) ps

abbrev pub is_service_gone : Status → Bool
is_service_gone service_gone = true
is_service_gone _ = false

unfoldable pub cascade_from :
    Proc → ℕ → Bool → ℕ → List Proc → List Workflow → Status × List Proc × List Workflow
cascade_from p leader include_leader now procs ws =
    if is_normal p
    then (not_agent, procs, ws)
    else if not p.is_workflow_leader && not (has_bit cap_workflow_ctrl p.agent_capabilities)
    then (permission, procs, ws)
    else if no_workflow p
    then (bad_param, procs, ws)
    else let (r, ws') = begin_terminate p.workflow_id p.workflow_leader_generation now ws in
      if not (is_ok r) && not (is_service_gone r) then (r, procs, ws') else (
        ok,
        terminate_members p.workflow_id p.workflow_leader_generation now include_leader leader 0
            procs,
        ws',
      )

-- agent_cascade_terminate; the leader is an index of the process table, `none` for a null pointer.
unfoldable pub cascade_terminate :
    Option ℕ → Bool → ℕ → List Proc → List Workflow → Status × List Proc × List Workflow
cascade_terminate none include_leader now procs ws = (not_agent, procs, ws)
cascade_terminate (some leader) include_leader now procs ws = elim (get_elem? procs leader) [
  | none ↦ (not_agent, procs, ws)
  | some p ↦ cascade_from p leader include_leader now procs ws
]
