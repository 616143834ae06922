-- ===== src/Proc/Records.antt =====
-- The structs of kernel/agent.h and kernel/proc.h. A `uint64` or an `int` that is never negative is
-- a natural number, an `int` flag is a Boolean, a C string is the list of its bytes before the NUL.
use aaaos_renovation_agent_o.Prelude.{ℕ, ℤ, Bool, List}

-- The int results of the kernel functions: AGENT_TOOL_OK and the AGENT_TOOL_ERR codes. `failed` is
-- the bare -1, which is also the code AGENT_TOOL_ERR_TOOL_NOT_FOUND.
pub data Status : Type 0 where
  ok failed bad_param not_agent no_space busy permission service_gone : Status

pub data ProcState : Type 0 where
  unused used sleeping runnable running zombie : ProcState

pub data LoopState : Type 0 where
  loop_idle loop_ready loop_running loop_waiting loop_rolled_back loop_done : LoopState

-- `p->chan`: null, the process itself (`p->chan == p`), or another address.
pub data Chan : Type 0 where
  no_chan own_chan : Chan
  other_chan : ℕ → Chan

pub data MessageType : Type 0 where
  normal system : MessageType

-- struct agent_message
pub record Message : Type 0 where
  pub from_pid : ℕ
  pub type : MessageType
  pub length : ℕ
  pub sequence : ℕ
  pub request_id : ℕ
  pub payload : List ℕ

-- struct agent_mailbox
pub record Mailbox : Type 0 where
  pub queue : List Message
  pub head : ℕ
  pub tail : ℕ
  pub count : ℕ
  pub normal_count : ℕ
  pub system_count : ℕ
  pub dropped : ℕ
  pub system_dropped : ℕ
  pub next_sequence : ℕ

-- struct agent_context_dep
pub record Dep : Type 0 where
  pub used : Bool
  pub sequence : ℕ
  pub dev : ℕ
  pub inum : ℕ
  pub version : ℕ

-- struct agent_context_digest
pub record Digest : Type 0 where
  pub sequence : ℕ
  pub request_id : ℕ
  pub request_hash : ℕ
  pub result_hash : ℕ
  pub previous_hash : ℕ
  pub current_hash : ℕ
  pub status : ℤ

-- The context fields of struct proc. `pending` is the four pending_context_ fields.
pub record Context : Type 0 where
  pub region_start : ℕ
  pub region_size : ℕ
  pub path_len : ℕ
  pub node_count : ℕ
  pub dropped_nodes : ℕ
  pub offsets : List ℕ
  pub lengths : List ℕ
  pub deps : List Dep
  pub pending : Dep
  pub generation : ℕ
  pub first_sequence : ℕ
  pub next_sequence : ℕ
  pub digests : List Digest
  pub digest_head : ℕ
  pub digest_count : ℕ
  pub last_query : ℕ
  pub reuse_hit : ℕ

-- Identity, rights and workflow membership.
pub record Identity : Type 0 where
  pub agent_type : ℕ
  pub agent_role : ℤ
  pub agent_role_locked : Bool
  pub agent_group : ℕ
  pub agent_capabilities : ℕ
  pub workflow_id : ℕ
  pub workflow_leader_pid : ℕ
  pub workflow_leader_generation : ℕ
  pub agent_parent_pid : ℕ
  pub agent_parent_generation : ℕ
  pub is_workflow_leader : Bool
  pub workflow_member_registered : Bool
  pub identity_generation : ℕ

-- Scheduling.
pub record Sched : Type 0 where
  pub agent_priority : ℕ
  pub sched_priority : ℕ
  pub sched_quota : ℕ
  pub sched_budget : ℕ
  pub sched_boost : ℕ
  pub sched_vruntime : ℕ
  pub sched_last_run : ℕ
  pub budget_penalty : ℕ
  pub replenish_deadline : ℕ
  pub runnable_since : ℕ

-- Events, watches, the heartbeat and the wait.
pub record Events : Type 0 where
  pub heartbeat_interval : ℤ
  pub heartbeat_deadline : ℕ
  pub watch_mask : ℕ
  pub pending_events : ℕ
  pub last_wakeup_reason : ℕ
  pub wakeup_tick : ℕ
  pub watch_dev : ℕ
  pub watch_inum : ℕ
  pub watch_path : List ℕ
  pub wait_generation : ℕ
  pub wait_timeout_ticks : ℤ
  pub wait_deadline : ℕ

-- The heartbeat_wheel_ links: an index of the process table plus 1, or 0.
pub record WheelLink : Type 0 where
  pub next : ℕ
  pub bucket : ℤ
  pub active : Bool

-- struct proc
pub record Proc : Type 0 where
  pub state : ProcState
  pub chan : Chan
  pub killed : Bool
  pub pid : ℕ
  pub sz : ℕ
  pub resource_quota : ℕ
  pub loop_state : LoopState
  pub ident : Identity
  pub open ident use *
  pub sched : Sched
  pub open sched use *
  pub ev : Events
  pub open ev use *
  pub wheel : WheelLink
  pub mailbox : Mailbox
  pub ctx : Context

-- struct agent_edit_lease
pub record Lease : Type 0 where
  pub used : Bool
  pub dev : ℕ
  pub inum : ℕ
  pub owner_pid : ℕ
  pub owner_generation : ℕ
  pub lease_id : ℕ
  pub base_version : ℕ
  pub expiry_tick : ℕ

-- struct agent_workflow_metrics
pub record Metrics : Type 0 where
  pub tool_calls : ℕ
  pub syscalls : ℕ
  pub messages_received : ℕ
  pub query_file_calls : ℕ
  pub files_scanned : ℕ
  pub index_scanned : ℕ
  pub files_read : ℕ
  pub bytes_read : ℕ
  pub cache_hits : ℕ
  pub cache_misses : ℕ
  pub duplicate_queries : ℕ
  pub wait_calls : ℕ
  pub wait_ticks : ℕ

-- AGENT_WORKFLOW_UNUSED, ACTIVE, TERMINATING and DEAD
pub data WorkflowState : Type 0 where
  wf_unused wf_active wf_terminating wf_dead : WorkflowState

-- struct agent_workflow
pub record Workflow : Type 0 where
  pub used : Bool
  pub workflow_id : ℕ
  pub leader_pid : ℕ
  pub leader_generation : ℕ
  pub state : WorkflowState
  pub member_count : ℕ
  pub terminate_tick : ℕ
  pub metrics : Metrics
