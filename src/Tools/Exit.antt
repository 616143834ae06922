-- ===== src/Tools/Exit.antt =====
-- agent_proc_exit of kernel/agent_tool.c: the end of a process in the heartbeat wheel, the tools, the
-- leases and the workflow table.
use aaaos_renovation_agent_o.Prelude.{
  ℕ, ◌≡◌, ◌≢◌, refl, Bool, true, false, ◌&&◌, Option, List, [], ◌∷◌, arith, All, ◌==◌, map,
  Bool-cases, inl, inr,
}
use aaaos_renovation_agent_o.Proc.{Proc, Lease, Workflow}
use aaaos_renovation_agent_o.Lease.{Leases, reap_pid}
use aaaos_renovation_agent_o.Wheel.{Wheel, wheel_remove}
use aaaos_renovation_agent_o.Workflow.{workflow_leave}
use aaaos_renovation_agent_o.Tools.{Tool, Request, Runtime}
use aaaos_renovation_agent_o.Tools.Requests.{
  owned_by, drop_tool, called_by, awaited_from, abandon, exit_runtime,
}

-- What agent_proc_exit leaves. `wheel` is the process table and the wheel, none where its chain of the
-- wheel is broken; `process` is the process itself as agent_workflow_leave leaves it.
pub record Exited : Type 0 where
  pub wheel : Option (List Proc × Wheel)
  pub runtime : Runtime
  pub leases : Leases
  pub process : Proc
  pub workflows : List Workflow

-- agent_proc_exit of the process `p` at place `i` of the table
unfoldable pub proc_exit : List Proc → Wheel → ℕ → Proc → Runtime → Leases → List Workflow → Exited
proc_exit procs w i p rt s ws =
    let left = workflow_leave p ws in
    record {
      wheel = wheel_remove procs w i p;
      runtime = exit_runtime p.pid rt;
      leases = record s { table = reap_pid p.pid s.table };
      process = left.0;
      workflows = left.1;
    }

-- It is not used, or another process owns it.
abbrev pub NotOwned : ℕ → Bool → ℕ → Type 0
NotOwned pid used owner = used ≡ true → owner ≢ pid

abbrev pub LeasesFree : ℕ → List Lease → Type 0
LeasesFree pid = All (λ (l : Lease). NotOwned pid l.used l.owner_pid)

abbrev pub ToolsFree : ℕ → List Tool → Type 0
ToolsFree pid = All (λ (t : Tool). NotOwned pid t.used t.owner_pid)

-- No request is the process's, and none waits for its reply.
abbrev pub RequestsFree : ℕ → List Request → Type 0
RequestsFree pid = All (λ (r : Request).
    NotOwned pid r.used r.caller_pid × (r.used ≡ true → r.service_pid ≡ pid → r.replied ≡ true))

not_owned : (pid owner : ℕ) (used : Bool) → (used && owner == pid) ≡ false → NotOwned pid used owner
not_owned pid owner used h = λ u e.
    let y : (owner == pid) ≡ true = ground arith in
    absurd (let h' : true ≡ false = rw (u, y) at h in cc)

leases-free : (pid : ℕ) (ls : List Lease) → LeasesFree pid (reap_pid pid ls)
unfolding reap_pid
leases-free pid [] = tt
leases-free pid (l ∷ ls) = elim (Bool-cases (l.used && l.owner_pid == pid)) [
  | inl e ↦ rw e ((λ u. absurd (cc)), leases-free pid ls)
  | inr e ↦ rw e (not_owned pid l.owner_pid l.used e, leases-free pid ls)
]

tools-free : (pid : ℕ) (ts : List Tool) → ToolsFree pid (map (drop_tool pid) ts)
unfolding drop_tool owned_by
tools-free pid [] = tt
tools-free pid (t ∷ ts) = elim (Bool-cases (owned_by pid t)) [
  | inl e ↦ rw e ((λ u. absurd (cc)), tools-free pid ts)
  | inr e ↦ rw e (not_owned pid t.owner_pid t.used e, tools-free pid ts)
]

awaited-free :
    (pid : ℕ) (r : Request)
    → awaited_from pid r ≡ false
    → r.used ≡ true
    → r.service_pid ≡ pid
    → r.replied ≡ true
unfolding awaited_from
awaited-free pid r h u e = elim (Bool-cases r.replied) [
  | inl f ↦ f
  | inr f ↦
      let y : (r.service_pid == pid) ≡ true = ground arith in
      absurd (let h' : true ≡ false = rw (u, y, f) at h in cc)
]

call_free : (pid : ℕ) (r : Request) → called_by pid r ≡ false → NotOwned pid r.used r.caller_pid
unfolding called_by
call_free pid r h = not_owned pid r.caller_pid r.used h

requests-free : (pid : ℕ) (rs : List Request) → RequestsFree pid (map (abandon pid) rs)
unfolding abandon
requests-free pid [] = tt
requests-free pid (r ∷ rs) = elim (Bool-cases (called_by pid r)) [
  | inl e ↦ rw e (((λ u. absurd (cc)), λ u v. absurd (cc)), requests-free pid rs)
  | inr e ↦ elim (Bool-cases (awaited_from pid r)) [
    | inl f ↦ rw (e, f) ((call_free pid r e, λ u v. refl), requests-free pid rs)
    | inr f ↦ rw (e, f) ((call_free pid r e, λ u v. awaited-free pid r f u v), requests-free pid rs)
  ]
]

-- When a process has exited, no lease and no dynamic tool is its own, no request is its own, and
-- every request that it was to serve has a reply.
pub proc_exit-free :
    (procs : List Proc) (w : Wheel) (i : ℕ) (p : Proc) (rt : Runtime) (s : Leases)
    (ws : List Workflow)
    → let x = proc_exit procs w i p rt s ws in
      LeasesFree p.pid x.leases.table
      × ToolsFree p.pid x.runtime.tools
      × RequestsFree p.pid x.runtime.requests
unfolding proc_exit exit_runtime
proc_exit-free procs w i p rt s ws =
    (leases-free p.pid s.table, tools-free p.pid rt.tools, requests-free p.pid rt.requests)
