-- ===== src/Rights.antt =====
-- Capabilities and roles: agent_role_default_caps, agent_default_sched_priority and _quota,
-- agent_proc_cap_set and agent_proc_role_set of kernel/agent.c.
pub mod Bits
pub mod Monotone
use Prim.Native.Nat.{bit_and, bit_or}
use aaaos_renovation_agent_o.Prelude.{
  ℕ, zero, suc, ◌-◌, ◌^◌, Bool, true, ◌||◌, not, List, [], ◌∷◌, ltb_ℤ, ◌==◌, if◌then◌else◌, ℤ, pos,
  negsuc,
}
use aaaos_renovation_agent_o.Proc.{
  Status, ok, bad_param, not_agent, permission, Proc, is_normal, cap_all, cap_query_process,
  cap_query_file, cap_read_file, cap_patch_file, cap_send_message, cap_watch_file,
  cap_register_tool, cap_sched_config, cap_lease_acquire, cap_workflow_ctrl, cap_audit_read,
  role_planner, role_tool_service, agent_type_primary, agent_type_worker, sched_priority_min,
}

-- `a | b | …`
abbrev pub union : List ℕ → ℕ
union [] = 0
union (c ∷ cs) = bit_or c (union cs)

-- `a & ~b` of 64-bit words
unfoldable pub minus : ℕ → ℕ → ℕ
minus a b = bit_and a (2 ^ 64 - 1 - b)

-- agent_role_default_caps
unfoldable pub role_default_caps : ℤ → ℕ
role_default_caps (pos zero) = union (
    cap_query_process ∷ cap_query_file ∷ cap_send_message ∷ cap_workflow_ctrl ∷ cap_sched_config
    ∷ cap_audit_read ∷ [])
role_default_caps (pos (suc zero)) = union (cap_query_file ∷ cap_read_file ∷ cap_send_message ∷ [])
role_default_caps (pos (suc (suc zero))) =
    union (cap_read_file ∷ cap_patch_file ∷ cap_lease_acquire ∷ cap_send_message ∷ [])
role_default_caps (pos (suc (suc (suc zero)))) =
    union (cap_query_file ∷ cap_read_file ∷ cap_send_message ∷ [])
role_default_caps (pos (suc (suc (suc (suc zero))))) =
    union (cap_read_file ∷ cap_watch_file ∷ cap_send_message ∷ cap_query_file ∷ [])
role_default_caps (pos (suc (suc (suc (suc (suc zero)))))) =
    union (cap_register_tool ∷ cap_send_message ∷ [])
role_default_caps _ = 0

-- agent_default_sched_priority
unfoldable pub default_sched_priority : ℕ → ℕ
default_sched_priority type =
    if type == agent_type_primary
    then 5
    else if type == agent_type_worker
    then 3
    else sched_priority_min

-- agent_default_sched_quota
unfoldable pub default_sched_quota : ℕ → ℕ
default_sched_quota type =
    if type == agent_type_primary then 4 else if type == agent_type_worker then 2 else 0

abbrev pub with_caps : Proc → ℕ → Proc
with_caps p caps = record p { ident = record p.ident { agent_capabilities = caps } }

-- agent_proc_cap_set
unfoldable pub cap_set : Proc → ℕ → Status × Proc
cap_set p caps =
    if is_normal p
    then (not_agent, p)
    else if not (minus caps cap_all == 0)
    then (bad_param, p)
    else if not (minus caps p.agent_capabilities == 0)
    then (permission, p)
    else (ok, with_caps p caps)

-- agent_proc_role_set
unfoldable pub role_set : Proc → ℤ → Status × Proc
role_set p role =
    if is_normal p
    then (not_agent, p)
    else if ltb_ℤ role role_planner || ltb_ℤ role_tool_service role
    then (bad_param, p)
    else if p.agent_role_locked
    then (permission, p)
    else (
      ok,
      record p {
        ident = record p.ident {
          agent_role = role;
          agent_capabilities = role_default_caps role;
          agent_role_locked = true;
        };
      },
    )
