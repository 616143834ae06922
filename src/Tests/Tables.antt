-- ===== src/Tests/Tables.antt =====
-- The lease and the workflow tables of the test system.
use aaaos_renovation_agent_o.Lease
use mathlib.Core.Option
use aaaos_renovation_agent_o.Prelude.{
  ℕ, ◌+◌, ◌<◌, ◌≡◌, ◌≢◌, ◌⊎◌, inl, refl, Bool, true, false, not, some, List, [], ◌∷◌, ℤ, has_bit,
  arith, if◌then◌else◌, leb, get_elem?,
}
use aaaos_renovation_agent_o.Proc.{
  Proc, Lease, Workflow, Metrics, cap_lease_acquire, ok, busy, bad_param, permission,
  wf_terminating,
}
use aaaos_renovation_agent_o.Tests.{plain, leader, worker, file, team, teams, held, leases}
use aaaos_renovation_agent_o.Lease.{
  lease_begin, begin_locked, holds, commit_table, commit_slot, bears, lease_commit, grant,
  is_leased, reap_expired, is_owner,
}
use aaaos_renovation_agent_o.Lease.Inv as LeaseInv
use aaaos_renovation_agent_o.Lease.Inv.{begins, commits}
use aaaos_renovation_agent_o.Lease.Begin.{Has, LeaseOf, begin-grants, step-keeps}
use aaaos_renovation_agent_o.Lease.Commit.{commit_answer}
use aaaos_renovation_agent_o.Region.{Region}
use aaaos_renovation_agent_o.Workflow.{
  workflow_join, cascade_from, cascade_terminate, is_workflow, find, begin_terminate,
}
use aaaos_renovation_agent_o.Workflow.Inv as WorkflowInv
use aaaos_renovation_agent_o.Workflow.Members.{members, is_key, members-join}
use aaaos_renovation_agent_o.Workflow.Cascade.{Belongs, Terminated, cascade-fate}
use aaaos_renovation_agent_o.Workflow.Counters.{
  find_of, count, same_key, with_metrics, find_of-count,
}
use aaaos_renovation_agent_o.Lifecycle.{after_fork, mark_proc}
use aaaos_renovation_agent_o.Lifecycle.Fork.{InOrKilled, fork-InOrKilled, lifecycle-IsValid}

leases-IsValid : LeaseInv.IsValid leases
leases-IsValid = record {
  exclusive = ((refl, tt), (tt, tt));
  given = ((λ u. omega arith), ((λ u. absurd (cc)), tt));
}

step-IsValid_example : LeaseInv.IsValid (LeaseInv.step 50 (begins worker (some file)) leases)
step-IsValid_example =
    LeaseInv.step-IsValid 50 (begins worker (some file)) leases (omega arith) leases-IsValid

step-keeps_example : Has held (LeaseInv.step 50 (commits worker 4 0) leases).table
unfolding is_owner
step-keeps_example =
    step-keeps held 50 (commits worker 4 0) leases refl (omega arith) refl (inl refl)

begin-grants_example :
    let s' = (lease_begin leader (some file) 300 leases).1 in
    ((l : Lease) × Has l s'.table × LeaseOf leader file s'.next_lease_id (300 + 200) l)
    × (is_leased 1 7 300 (reap_expired 300 leases.table) ≡ false)
    × ((q : Proc) (later : ℕ)
        → later < 300 + 200
        → has_bit cap_lease_acquire q.agent_capabilities ≡ true
        → (lease_begin q (some file) later s').0 ≡ busy)
unfolding lease_begin begin_locked is_leased reap_expired holds has_bit Lease.place
begin-grants_example = begin-grants leader file 300 leases refl

commit_answer_example :
    (lease_commit leader 4 9 50 leases).0
    ≡ (if not (is_owner leader held) then permission else if leb 210 50 then bad_param else ok)
commit_answer_example = commit_answer leader held 9 50 leases leases-IsValid refl (inl refl)

teams-IsValid : WorkflowInv.IsValid teams
unfolding is_workflow
teams-IsValid = record {
  unique = (((λ u. refl), tt), (tt, tt));
  populated = ((λ u. (omega arith, inl refl)), ((λ u. absurd (cc)), tt));
}

members-join_example :
    members 3 1 (workflow_join leader teams).1
    ≡ (if is_key leader 3 1 then members 3 1 teams + 1 else members 3 1 teams)
unfolding workflow_join find is_workflow
members-join_example = members-join leader 3 1 teams refl refl

-- The workflow in its termination
abbrev closing : Workflow
closing = record team { state = wf_terminating }

abbrev procs : List Proc
procs = leader ∷ worker ∷ plain ∷ []

cascade-fate_example :
    let procs' = (cascade_terminate (some 0) false 70 procs teams).1 in
    (Belongs leader worker
      → (◌≡◌ {A = Bool} false true) ⊎ (◌≢◌ {A = ℕ} 1 0)
      → (q' : Proc) × (get_elem? procs' 1 ≡ some q') × Terminated 70 q' × (q'.pid ≡ 4))
    × ((¬ (Belongs leader worker)) ⊎ ((◌≡◌ {A = Bool} false false) × (◌≡◌ {A = ℕ} 1 0))
        → get_elem? procs' 1 ≡ some worker)
unfolding cascade_terminate cascade_from begin_terminate find is_workflow has_bit
cascade-fate_example = cascade-fate 0 70 1 false procs teams leader worker refl refl refl

-- One more call
abbrev one_call : Metrics → Metrics
one_call m = record m { syscalls = m.syscalls + 1 }

find_of-count_example : find_of (some leader) (count (some worker) one_call teams) ≡ (
    if same_key worker leader
    then Option.map (with_metrics one_call) (find_of (some leader) teams)
    else find_of (some leader) teams)
find_of-count_example = find_of-count worker leader one_call teams refl

fork-InOrKilled_example : InOrKilled plain leader teams (after_fork plain leader 2 teams)
fork-InOrKilled_example = fork-InOrKilled plain leader 2 teams refl

lifecycle-IsValid_example :
    WorkflowInv.IsValid (after_fork plain leader 2 teams).2
    × ((r : Region) (type interval : ℤ) (quota now : ℕ)
        → WorkflowInv.IsValid (mark_proc plain r type interval quota 2 now teams).3)
lifecycle-IsValid_example = lifecycle-IsValid plain leader 2 teams teams-IsValid
