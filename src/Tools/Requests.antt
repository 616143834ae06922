-- ===== src/Tools/Requests.antt =====
-- The queue of requests to dynamic tools, of kernel/agent_tool.c: agent_dynamic_tool_call up to its
-- loop, a pass of the loop, agent_tool_recv, agent_tool_reply, and what agent_proc_exit does to the
-- tools and the requests.
use mathlib.Core.Option
use aaaos_renovation_agent_o.Prelude.{
  ℕ, ◌+◌, ◌-◌, ◌^◌, Bool, true, ◌&&◌, ◌||◌, not, Option, none, some, List, [], ◌∷◌, ◌==◌,
  if◌then◌else◌, leb, take, set, get_or, map, ℤ,
}
use aaaos_renovation_agent_o.Proc.{Proc, Status, ok, failed, not_agent, bad_param, is_normal}
use aaaos_renovation_agent_o.Text.{codes}
use aaaos_renovation_agent_o.Files.{Response, tool_resp_set}
use aaaos_renovation_agent_o.Tools.{
  Tool, Request, Runtime, no_tool, no_request, err_tool_not_found, err_busy, err_permission,
  err_service_gone, find_tool, has_cap, same_group_or_public,
}

-- `agent_next_request_id++`, which skips what is not positive of an int
unfoldable pub next_id : ℕ → ℕ
next_id n = if leb (2 ^ 31 - 1) n then 1 else n + 1

abbrev pub new_request : Proc → Tool → List ℕ → List ℕ → ℕ → Request
new_request p t name params id = record no_request {
  used = true;
  id = id;
  caller_pid = p.pid;
  caller_group = p.ident.agent_group;
  service_pid = t.owner_pid;
  tool = take 31 name;
  params = take 127 params;
}

-- The first slot that is not used, from the index `i` on
unfoldable pub free_slot : ℕ → List Request → Option ℕ
free_slot i [] = none
free_slot i (r ∷ rs) = let rest = free_slot (i + 1) rs in if r.used then rest else some i

-- What a call comes to before its loop: an answer, or a slot with the id of the request
pub data Begun : Type 0 where
  refused : Response → Begun
  queued : ℕ → ℕ → Begun

abbrev pub refuse : ℤ → List ℕ → Runtime → Begun × Runtime
refuse status text rt = (refused (tool_resp_set status text), rt)

unfoldable pub enqueue_request :
    Proc → Tool → List ℕ → List ℕ → Runtime → Option ℕ → Begun × Runtime
enqueue_request p t name params rt none = refuse err_busy (codes "tool request queue full") rt
enqueue_request p t name params rt (some i) = (
  queued i rt.next_request_id,
  record rt {
    requests = set rt.requests i (new_request p t name params rt.next_request_id);
    next_request_id = next_id rt.next_request_id;
  },
)

unfoldable pub call_found : Proc → List ℕ → List ℕ → Runtime → Option Tool → Begun × Runtime
call_found p name params rt none = refuse err_tool_not_found (codes "tool not found") rt
call_found p name params rt (some t) =
    if not (has_cap p t.required_cap)
    then refuse err_permission (codes "permission denied") rt
    else if not (same_group_or_public p t.owner_group t.flags)
    then refuse err_permission (codes "tool permission denied") rt
    else enqueue_request p t name params rt (free_slot 0 rt.requests)

-- agent_dynamic_tool_call up to its loop
unfoldable pub call_begin : Proc → List ℕ → List ℕ → Runtime → Begun × Runtime
call_begin p name params rt = call_found p name params rt (find_tool name rt.tools)

abbrev pub clear_slot : ℕ → Runtime → Runtime
clear_slot i rt = record rt { requests = set rt.requests i no_request }

abbrev pub slot_of : ℕ → Runtime → Request
slot_of i rt = get_or rt.requests i no_request

-- A pass of the loop of agent_dynamic_tool_call: none is another sleep.
unfoldable pub call_pass : Bool → ℕ → ℕ → Runtime → Option Response × Runtime
call_pass killed i id rt =
    let r = slot_of i rt in
    if r.replied
    then (some (tool_resp_set r.status r.result), clear_slot i rt)
    else if killed
    then (some (tool_resp_set err_service_gone (codes "caller killed")), clear_slot i rt)
    else if not (r.id == id) || not r.used
    then (some (tool_resp_set err_service_gone (codes "tool request lost")), rt)
    else (none, rt)

-- `used && !delivered && service_pid == p->pid`
unfoldable pub awaits : ℕ → Request → Bool
awaits pid r = r.used && not r.delivered && r.service_pid == pid

-- The request that the loop of agent_tool_recv takes
unfoldable pub find_awaiting : ℕ → List Request → Option Request
find_awaiting pid [] = none
find_awaiting pid (r ∷ rs) = if awaits pid r then some r else find_awaiting pid rs

unfoldable pub deliver_first : ℕ → List Request → List Request
deliver_first pid [] = []
deliver_first pid (r ∷ rs) =
    let rest = r ∷ deliver_first pid rs in
    if awaits pid r then record r { delivered = true } ∷ rs else rest

-- A pass of agent_tool_recv: an error, a request, or another sleep
pub data Received : Type 0 where
  error : Status → Received
  request : Request → Received
  asleep : Received

unfoldable pub tool_recv : Bool → Proc → Runtime → Received × Runtime
tool_recv killed p rt =
    if is_normal p then (error not_agent, rt) else (elim (find_awaiting p.pid rt.requests) [
      | some r ↦ (request r, record rt { requests = deliver_first p.pid rt.requests })
      | none ↦ if killed then (error failed, rt) else (asleep, rt)
    ])

-- `used && id == request_id && service_pid == p->pid`
unfoldable pub is_asked : ℕ → ℕ → Request → Bool
is_asked pid id r = r.used && r.id == id && r.service_pid == pid

abbrev pub answered : ℤ → List ℕ → Request → Request
answered status result r = record r { status = status; result = take 511 result; replied = true }

-- The loop of agent_tool_reply: none if no slot is asked
unfoldable pub reply_first : ℕ → ℕ → List ℕ → ℤ → List Request → Option (List Request)
reply_first pid id result status [] = none
reply_first pid id result status (r ∷ rs) =
    let rest = Option.map (◌∷◌ r) (reply_first pid id result status rs) in
    if is_asked pid id r then some (answered status result r ∷ rs) else rest

-- agent_tool_reply
unfoldable pub tool_reply : Proc → ℕ → List ℕ → ℤ → Runtime → Status × Runtime
tool_reply p id result status rt =
    if is_normal p
    then (not_agent, rt)
    else (elim (reply_first p.pid id result status rt.requests) [
      | none ↦ (bad_param, rt)
      | some rs ↦ (ok, record rt { requests = rs })
    ])

-- `used && owner_pid == pid`
unfoldable pub owned_by : ℕ → Tool → Bool
owned_by pid t = t.used && t.owner_pid == pid

-- The first loop of agent_proc_exit
unfoldable pub drop_tool : ℕ → Tool → Tool
drop_tool pid t = if owned_by pid t then no_tool else t

-- `used && caller_pid == pid`
unfoldable pub called_by : ℕ → Request → Bool
called_by pid r = r.used && r.caller_pid == pid

-- `used && service_pid == pid && !replied`
unfoldable pub awaited_from : ℕ → Request → Bool
awaited_from pid r = r.used && r.service_pid == pid && not r.replied

-- The body of its second loop
unfoldable pub abandon : ℕ → Request → Request
abandon pid r =
    if called_by pid r
    then no_request
    else if awaited_from pid r
    then answered err_service_gone (codes "tool service exited") r
    else r

-- What agent_proc_exit does to the tools and the requests
unfoldable pub exit_runtime : ℕ → Runtime → Runtime
exit_runtime pid rt = record rt {
  tools = map (drop_tool pid) rt.tools;
  requests = map (abandon pid) rt.requests;
}
