-- ===== src/Proc/Constants.antt =====
-- The constants of kernel/agent.h and kernel/param.h that the code computes with, and its error
-- codes.
use aaaos_renovation_agent_o.Prelude.{ℕ, ℤ, pos, negsuc, ◌-◌, ◌^◌}

abbrev pub nproc : ℕ
nproc = 64

abbrev pub agent_type_normal : ℕ
agent_type_normal = 0

abbrev pub agent_type_primary : ℕ
agent_type_primary = 1

abbrev pub agent_type_worker : ℕ
agent_type_worker = 2

-- Masks of one event.
abbrev pub event_heartbeat : ℕ
event_heartbeat = 1

abbrev pub event_message : ℕ
event_message = 2

abbrev pub event_filemod : ℕ
event_filemod = 4

abbrev pub event_parent_gone : ℕ
event_parent_gone = 8

abbrev pub mailbox_cap : ℕ
mailbox_cap = 8

abbrev pub mailbox_system_slots : ℕ
mailbox_system_slots = 2

abbrev pub message_max : ℕ
message_max = 128

abbrev pub lease_max : ℕ
lease_max = 8

abbrev pub lease_expiry_ticks : ℕ
lease_expiry_ticks = 200

-- AGENT_CAP_ALL is `(1 << 11) - 1`.
abbrev pub cap_all : ℕ
cap_all = 2 ^ 11 - 1

abbrev pub cap_query_process : ℕ
cap_query_process = 1

abbrev pub cap_query_file : ℕ
cap_query_file = 2

abbrev pub cap_read_file : ℕ
cap_read_file = 4

abbrev pub cap_patch_file : ℕ
cap_patch_file = 8

abbrev pub cap_send_message : ℕ
cap_send_message = 16

abbrev pub cap_watch_file : ℕ
cap_watch_file = 32

abbrev pub cap_register_tool : ℕ
cap_register_tool = 64

abbrev pub cap_sched_config : ℕ
cap_sched_config = 128

abbrev pub cap_lease_acquire : ℕ
cap_lease_acquire = 256

abbrev pub cap_workflow_ctrl : ℕ
cap_workflow_ctrl = 512

abbrev pub cap_audit_read : ℕ
cap_audit_read = 1024

abbrev pub role_unset : ℤ
role_unset = negsuc 0

abbrev pub role_planner : ℤ
role_planner = pos 0

abbrev pub role_tool_service : ℤ
role_tool_service = pos 5

abbrev pub workflow_max : ℕ
workflow_max = 16

abbrev pub workflow_member_max : ℕ
workflow_member_max = 64

abbrev pub context_region_bytes : ℕ
context_region_bytes = 8192

-- sizeof(struct agent_context_header): four uint32, ten uint64, char[32] and char[512].
abbrev pub context_header_bytes : ℕ
context_header_bytes = 640

abbrev pub context_max_nodes : ℕ
context_max_nodes = 16

abbrev pub digest_max : ℕ
digest_max = 16

abbrev pub wheel_buckets : ℕ
wheel_buckets = 64

abbrev pub sched_priority_min : ℕ
sched_priority_min = 1

abbrev pub sched_priority_max : ℕ
sched_priority_max = 8

abbrev pub sched_quota_min : ℕ
sched_quota_min = 1

abbrev pub sched_quota_max : ℕ
sched_quota_max = 8

abbrev pub replenish_interval : ℕ
replenish_interval = 10

abbrev pub default_priority : ℕ
default_priority = 5

abbrev pub guard_bytes : ℕ
guard_bytes = 4096
