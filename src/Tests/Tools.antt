-- ===== src/Tests/Tools.antt =====
-- A dynamic tool of the worker, and calls of it.
use aaaos_renovation_agent_o.Lease.{lease_commit}
use aaaos_renovation_agent_o.Tools.Leases.{
  commit_params, committed, tool_lease_commit, tool_lease_commit-print,
}
use aaaos_renovation_agent_o.Prelude.{
  ℕ, zero, suc, has_bit, ◌≡◌, ◌≢◌, refl, true, false, some, List, [], ◌∷◌, arith, pos,
}
use aaaos_renovation_agent_o.Proc.{ok}
use aaaos_renovation_agent_o.Tests.{leader, worker, leases, teams}
use aaaos_renovation_agent_o.Wheel.{Wheel}
use aaaos_renovation_agent_o.Tools.Exit.{
  LeasesFree, ToolsFree, RequestsFree, proc_exit, proc_exit-free,
}
use aaaos_renovation_agent_o.Text.{codes}
use aaaos_renovation_agent_o.Params.{
  streq, param_value, param_from, after_key, field, percent_decode, decode, until_nul, str_find,
  find_from, has_prefix,
}
use aaaos_renovation_agent_o.Tools.Patch.{patch_file, replace_first, patch_file-replaces}
use aaaos_renovation_agent_o.Files.{Inode, is_regular, tool_resp_set}
use aaaos_renovation_agent_o.Tools.{
  Tool, Runtime, no_tool, no_request, new_tool, find_tool, is_named, tool_register, tool_is_builtin,
  same_group_or_public, err_service_gone, policy_of, builtin_policies,
}
use aaaos_renovation_agent_o.Tools.Requests.{
  call_begin, call_found, enqueue_request, next_id, call_pass, tool_reply, free_slot, exit_runtime,
  new_request,
}
use aaaos_renovation_agent_o.Tools.Policy.{is_some, policy_of-tool_is_builtin}
use aaaos_renovation_agent_o.Tools.Registry.{ToolsOk, tool_register-ToolsOk, exit_runtime-ToolsOk}
use aaaos_renovation_agent_o.Tools.Pending.{at, Op, recvs}
use aaaos_renovation_agent_o.Tools.Pending.Answer.{
  run_all, Given, call_begin-answered, exit_runtime-answers,
}

abbrev sum : Tool
sum = new_tool worker (codes "sum") 1

abbrev runtime : Runtime
runtime = record {
  tools = sum ∷ no_tool ∷ [];
  requests = no_request ∷ no_request ∷ [];
  next_request_id = 7;
}

abbrev others : List Op
others = recvs false worker ∷ []

given : Given runtime
given zero u = absurd (cc)
given (suc zero) u = absurd (cc)
given (suc (suc j)) u = absurd (cc)

call_begin-answered_example :
    (tool_reply worker 7
      (codes "5")
      (pos 0)
      (run_all others (call_begin leader (codes "sum") (codes "a=2") runtime).1)).0
    ≡ ok
unfolding find_tool is_named streq same_group_or_public free_slot has_bit call_begin call_found
    enqueue_request next_id
call_begin-answered_example =
    (call_begin-answered leader worker (codes "sum") (codes "a=2") (codes "5") (pos 0) false runtime
      sum 0 others given (omega arith) refl refl refl refl (omega arith, tt, tt) refl refl).0

abbrev waiting : Runtime
waiting = record runtime {
  requests = new_request leader sum (codes "sum") (codes "a=2") 7 ∷ no_request ∷ [];
  next_request_id = 8;
}

only_seven : (j : ℕ) → j ≢ 0 → (at waiting.requests j).used ≡ true → (at waiting.requests j).id ≢ 7
only_seven zero n u e = n refl
only_seven (suc zero) n u e = absurd (cc)
only_seven (suc (suc j)) n u e = absurd (cc)

exit_runtime-answers_example :
    (call_pass false 0 7 (exit_runtime 4 waiting)).0
    ≡ some (tool_resp_set err_service_gone (codes "tool service exited"))
exit_runtime-answers_example =
    exit_runtime-answers 0 7 3 4 false waiting [] (refl, omega arith, only_seven) tt
      (λ e. omega (arith, e)) refl

tools-ToolsOk : ToolsOk runtime.tools
unfolding tool_is_builtin streq find_tool is_named
tools-ToolsOk = ((λ u. (refl, refl)), ((λ u. absurd (cc)), tt))

tool_register-ToolsOk_example : ToolsOk (tool_register leader (codes "log") 0 runtime.tools).1
tool_register-ToolsOk_example =
    (tool_register-ToolsOk leader (codes "log") 0 runtime.tools refl tools-ToolsOk).0

exit_runtime-ToolsOk_example : ToolsOk (exit_runtime 4 runtime).tools
exit_runtime-ToolsOk_example = (exit_runtime-ToolsOk 4 runtime tools-ToolsOk).0

policy_of-tool_is_builtin_example :
    is_some (policy_of (codes "read_file") builtin_policies) ≡ tool_is_builtin (codes "read_file")
policy_of-tool_is_builtin_example = policy_of-tool_is_builtin (codes "read_file")

abbrev no_wheel : Wheel
no_wheel = record { heads = []; count = 0; min_deadline = 0; tick_scanned = 0; tick_wakeups = 0 }

proc_exit-free_example :
    let x = proc_exit [] no_wheel 0 worker waiting leases teams in
    LeasesFree 4 x.leases.table × ToolsFree 4 x.runtime.tools × RequestsFree 4 x.runtime.requests
proc_exit-free_example = proc_exit-free [] no_wheel 0 worker waiting leases teams

abbrev draft : Inode
draft = record {
  is_file = true;
  dev = 1;
  inum = 9;
  attrs = [];
  summary = [];
  content = codes "a bug";
}

patch_file-replaces_example :
    (patch_file (λ path. some draft) true 4094 (codes "path=a;op=replace;old=bug;new=fix;")).changed
    ≡ true
unfolding param_value param_from after_key field percent_decode decode until_nul is_regular
    replace_first str_find find_from has_prefix
patch_file-replaces_example =
    (patch_file-replaces (λ path. some draft) 4094 (codes "path=a;op=replace;old=bug;new=fix;")
      (codes "a") (codes "bug") (codes "fix") (codes "a fix") draft refl refl refl refl refl refl
      (omega arith) refl (λ e. absurd (cc)) refl (omega arith) (omega arith)).2

tool_lease_commit-print_example :
    tool_lease_commit worker (commit_params 4 0) 50 leases
    ≡ committed (lease_commit worker 4 0 50 leases)
tool_lease_commit-print_example =
    (tool_lease_commit-print worker 4 0 50 leases (omega arith) (omega arith)).0
