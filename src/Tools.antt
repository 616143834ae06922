-- ===== src/Tools.antt =====
-- The tools of kernel/agent_tool.c: the policies of the builtin tools, the table of dynamic tools, and
-- the queue of their requests. `sleep` and `wakeup` on the queue are not shown: a call that waits is
-- its passes, and whatever the others do comes between two of them.
pub mod Policy
pub mod Registry
pub mod Requests
pub mod Pending
pub mod Exit
pub mod Patch
pub mod Leases
use mathlib.Core.Option
use aaaos_renovation_agent_o.Prelude.{
  ℕ, zero, suc, ◌+◌, ◌-◌, ◌^◌, Bool, true, false, ◌&&◌, ◌||◌, not, Option, none, some, List, [],
  ◌∷◌, ◌==◌, if◌then◌else◌, ltb, leb, take, set, get_or, has_bit, ℤ, pos, negsuc,
}
use aaaos_renovation_agent_o.Proc.{
  Proc, Status, ok, failed, not_agent, permission, bad_param, busy, no_space, is_normal,
  cap_register_tool, cap_query_process, cap_query_file, cap_read_file, cap_patch_file,
  cap_send_message, cap_lease_acquire, cap_audit_read,
}
use aaaos_renovation_agent_o.Params.{streq}
use aaaos_renovation_agent_o.Text.{codes}
use aaaos_renovation_agent_o.Files.{Response, tool_resp_set}

-- struct agent_dynamic_tool
pub record Tool : Type 0 where
  pub used : Bool
  pub name : List ℕ
  pub owner_pid : ℕ
  pub owner_group : ℕ
  pub flags : ℕ
  pub required_cap : ℕ

-- struct agent_dynamic_request_slot, less the span and the deadline, which nothing sets
pub record Request : Type 0 where
  pub used : Bool
  pub delivered : Bool
  pub replied : Bool
  pub id : ℕ
  pub caller_pid : ℕ
  pub caller_group : ℕ
  pub service_pid : ℕ
  pub status : ℤ
  pub tool : List ℕ
  pub params : List ℕ
  pub result : List ℕ

-- dynamic_tools, dynamic_requests and agent_next_request_id
pub record Runtime : Type 0 where
  pub tools : List Tool
  pub requests : List Request
  pub next_request_id : ℕ

-- After memset
abbrev pub no_tool : Tool
no_tool = record {
  used = false;
  name = [];
  owner_pid = 0;
  owner_group = 0;
  flags = 0;
  required_cap = 0;
}

abbrev pub no_request : Request
no_request = record {
  used = false;
  delivered = false;
  replied = false;
  id = 0;
  caller_pid = 0;
  caller_group = 0;
  service_pid = 0;
  status = pos 0;
  tool = [];
  params = [];
  result = [];
}

abbrev pub err_tool_not_found : ℤ
err_tool_not_found = negsuc 0

abbrev pub err_busy : ℤ
err_busy = negsuc 4

abbrev pub err_permission : ℤ
err_permission = negsuc 5

abbrev pub err_service_gone : ℤ
err_service_gone = negsuc 6

-- The names and the rights of builtin_policies
abbrev pub builtin_policies : List (List ℕ × ℕ)
builtin_policies =
    (codes "query_process", cap_query_process)
    ∷ (codes "get_system_status", cap_query_process)
    ∷ (codes "send_message", cap_send_message)
    ∷ (codes "read_context", 0)
    ∷ (codes "read_file", cap_read_file)
    ∷ (codes "patch_file", cap_patch_file)
    ∷ (codes "run_rule_test", cap_query_file)
    ∷ (codes "diff_file", cap_read_file)
    ∷ (codes "set_file_attr", cap_patch_file)
    ∷ (codes "get_file_attr", cap_query_file)
    ∷ (codes "del_file_attr", cap_patch_file)
    ∷ (codes "query_file", cap_query_file)
    ∷ (codes "query_agent", cap_query_process)
    ∷ (codes "get_workflow_metrics", cap_audit_read)
    ∷ (codes "lease_begin", cap_lease_acquire)
    ∷ (codes "lease_commit", cap_lease_acquire)
    ∷ (codes "lease_abort", cap_lease_acquire)
    ∷ []

-- tool_is_builtin
unfoldable pub tool_is_builtin : List ℕ → Bool
tool_is_builtin name =
    streq name (codes "query_process")
    || streq name (codes "get_system_status")
    || streq name (codes "send_message")
    || streq name (codes "read_context")
    || streq name (codes "read_file")
    || streq name (codes "patch_file")
    || streq name (codes "run_rule_test")
    || streq name (codes "diff_file")
    || streq name (codes "set_file_attr")
    || streq name (codes "get_file_attr")
    || streq name (codes "del_file_attr")
    || streq name (codes "query_file")
    || streq name (codes "query_agent")
    || streq name (codes "get_workflow_metrics")
    || streq name (codes "lease_begin")
    || streq name (codes "lease_commit")
    || streq name (codes "lease_abort")

-- agent_same_group_or_public
unfoldable pub same_group_or_public : Proc → ℕ → ℕ → Bool
same_group_or_public p owner_group flags =
    has_bit 1 flags || not (p.ident.agent_group == 0) && p.ident.agent_group == owner_group

-- The right that the policy of a builtin tool asks for
unfoldable pub policy_of : List ℕ → List (List ℕ × ℕ) → Option ℕ
policy_of name [] = none
policy_of name ((n, cap) ∷ ps) = if streq n name then some cap else policy_of name ps

-- `used && streq(name, …)`
unfoldable pub is_named : List ℕ → Tool → Bool
is_named name t = t.used && streq t.name name

-- The loops that look for a dynamic tool
unfoldable pub find_tool : List ℕ → List Tool → Option Tool
find_tool name [] = none
find_tool name (t ∷ ts) = if is_named name t then some t else find_tool name ts

-- A right of one bit, or none
abbrev pub has_cap : Proc → ℕ → Bool
has_cap p cap = cap == 0 || has_bit cap p.ident.agent_capabilities

-- agent_check_tool_permission; a tool that is not there is left to the call.
unfoldable pub check_tool_permission : Proc → List ℕ → List Tool → Bool
check_tool_permission p name tools = elim (policy_of name builtin_policies) [
  | some cap ↦ has_cap p cap
  | none ↦ elim (find_tool name tools) [
    | some t ↦ same_group_or_public p t.owner_group t.flags
    | none ↦ true
  ]
]

unfoldable pub is_used : Tool → Bool
is_used t = t.used

-- The first slot of the table that is not used gets the tool; none if there is none.
unfoldable pub place_tool : Tool → List Tool → Option (List Tool)
place_tool new [] = none
place_tool new (t ∷ ts) =
    let rest = Option.map (◌∷◌ t) (place_tool new ts) in if is_used t then rest else some (new ∷ ts)

abbrev pub new_tool : Proc → List ℕ → ℕ → Tool
new_tool p name flags = record {
  used = true;
  name = take 31 name;
  owner_pid = p.pid;
  owner_group = p.ident.agent_group;
  flags = flags;
  required_cap = 0;
}

-- The name and the flags that a registration may not have
unfoldable pub bad_registration : List ℕ → ℕ → Bool
bad_registration [] flags = true
bad_registration (c ∷ cs) flags = tool_is_builtin (c ∷ cs) || ltb 1 flags

-- agent_tool_register
unfoldable pub tool_register : Proc → List ℕ → ℕ → List Tool → Status × List Tool
tool_register p name flags tools =
    if is_normal p
    then (not_agent, tools)
    else if not (has_bit cap_register_tool p.ident.agent_capabilities)
    then (permission, tools)
    else if bad_registration name flags
    then (bad_param, tools)
    else (elim (find_tool name tools) [
      | some t ↦ (busy, tools)
      | none ↦ elim (place_tool (new_tool p name flags) tools) [
        | none ↦ (no_space, tools)
        | some ts ↦ (ok, ts)
      ]
    ])
