-- ===== src/Workflow/Counters.antt =====
-- The counters of a workflow: kernel/workflow.c.
use mathlib.Core.Option
use aaaos_renovation_agent_o.Prelude.{
  ℕ, ◌+◌, ◌≡◌, refl, Bool, false, Option, none, some, List, arith, u64, if◌then◌else◌, Bool-cases,
  inl, inr, ◌==◌, ◌&&◌, ◌∙◌,
}
use aaaos_renovation_agent_o.Proc.{
  Status, ok, not_agent, service_gone, Proc, Workflow, Metrics, is_normal,
}
use aaaos_renovation_agent_o.Workflow.Find.{find-update_self, find-update_ne, one_key}
use aaaos_renovation_agent_o.Workflow.{find, update, no_workflow, is_workflow}

-- workflow_find_locked; a null process is `none`.
unfoldable pub find_of : Option Proc → List Workflow → Option Workflow
find_of none ws = none
find_of (some p) ws =
    if no_workflow p then none else find p.workflow_id p.workflow_leader_generation ws

abbrev pub with_metrics : (Metrics → Metrics) → Workflow → Workflow
with_metrics f w = record w { metrics = f w.metrics }

-- An update of the counters of the process's workflow, if it has one
unfoldable pub count : Option Proc → (Metrics → Metrics) → List Workflow → List Workflow
count none f ws = ws
count (some p) f ws =
    if no_workflow p
    then ws
    else update p.workflow_id p.workflow_leader_generation (with_metrics f) ws

-- agent_workflow_metric_syscall
unfoldable pub metric_syscall : Option Proc → List Workflow → List Workflow
metric_syscall p = count p λ m. record m { syscalls = u64 (m.syscalls + 1) }

-- agent_workflow_metric_tool_call
unfoldable pub metric_tool_call : Option Proc → Bool → List Workflow → List Workflow
metric_tool_call p query_file = count p λ m. record m {
  tool_calls = u64 (m.tool_calls + 1);
  query_file_calls = if query_file then u64 (m.query_file_calls + 1) else m.query_file_calls;
}

-- agent_workflow_metric_query
unfoldable pub metric_query : Option Proc → ℕ → ℕ → Bool → List Workflow → List Workflow
metric_query p files_scanned index_scanned cache_hit = count p λ m. record m {
  files_scanned = u64 (m.files_scanned + files_scanned);
  index_scanned = u64 (m.index_scanned + index_scanned);
  cache_hits = if cache_hit then u64 (m.cache_hits + 1) else m.cache_hits;
  duplicate_queries = if cache_hit then u64 (m.duplicate_queries + 1) else m.duplicate_queries;
  cache_misses = if cache_hit then m.cache_misses else u64 (m.cache_misses + 1);
}

-- agent_workflow_metric_file_read
unfoldable pub metric_file_read : Option Proc → ℕ → List Workflow → List Workflow
metric_file_read p bytes_read = count p λ m. record m {
  files_read = u64 (m.files_read + 1);
  bytes_read = u64 (m.bytes_read + bytes_read);
}

-- agent_workflow_metric_wait
unfoldable pub metric_wait : Option Proc → ℕ → Bool → List Workflow → List Workflow
metric_wait p wait_ticks message_received = count p λ m. record m {
  wait_calls = u64 (m.wait_calls + 1);
  wait_ticks = u64 (m.wait_ticks + wait_ticks);
  messages_received =
      if message_received then u64 (m.messages_received + 1) else m.messages_received;
}

-- agent_workflow_metrics_get; `wants` is whether the caller passes a buffer.
unfoldable pub metrics_get : Option Proc → Bool → List Workflow → Status × Option Metrics
metrics_get none wants ws = (not_agent, none)
metrics_get (some p) wants ws =
    if wants
    then if is_normal p then (not_agent, none) else elim (find_of (some p) ws) [
      | none ↦ (service_gone, none)
      | some w ↦ (ok, some w.metrics)
    ]
    else (not_agent, none)

unfoldable pub same_key : Proc → Proc → Bool
same_key p q =
    p.workflow_id == q.workflow_id && p.workflow_leader_generation == q.workflow_leader_generation

keeps_key :
    (f : Metrics → Metrics) (id gen : ℕ) (w : Workflow)
    → is_workflow id gen (record w { metrics = f w.metrics }) ≡ is_workflow id gen w
unfolding is_workflow
keeps_key f id gen w = refl

-- What a counting call adds is what every member of the workflow then reads, and the counters of
-- the other workflows do not change.
pub find_of-count :
    (p q : Proc) (f : Metrics → Metrics) (ws : List Workflow)
    → no_workflow p ≡ false
    → find_of (some q) (count (some p) f ws) ≡ (
        if same_key p q
        then Option.map (with_metrics f) (find_of (some q) ws)
        else find_of (some q) ws)
unfolding find_of count same_key
find_of-count p q f ws h = elim (Bool-cases (same_key p q)) [
  | inl k ↦ ground (
    arith,
    find-update_self q.workflow_id q.workflow_leader_generation (with_metrics f) ws
        (λ w t. keeps_key f q.workflow_id q.workflow_leader_generation w ∙ t),
  )
  | inr k ↦ ground (
    arith,
    find-update_ne p.workflow_id p.workflow_leader_generation q.workflow_id
        q.workflow_leader_generation (with_metrics f) ws k
        (λ w t.
          keeps_key f q.workflow_id q.workflow_leader_generation w
          ∙ one_key p.workflow_id p.workflow_leader_generation q.workflow_id
              q.workflow_leader_generation w k t),
  )
]
