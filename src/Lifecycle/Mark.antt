-- ===== src/Lifecycle/Mark.antt =====
-- The whole of agent_mark_current of kernel/agent.c, with the heartbeat wheel.
use aaaos_renovation_agent_o.Prelude.{
  ℕ, ◌≡◌, subst, Bool, true, false, Option, none, some, List, if◌then◌else◌, ℤ, pos, ltb_ℤ, get_or,
  set, Bool-cases, Option-cases, inl, inr,
}
use aaaos_renovation_agent_o.Proc.{Proc, Workflow}
use aaaos_renovation_agent_o.Region.{Region}
use aaaos_renovation_agent_o.Wheel.{Wheel, wheel_remove, wheel_insert}
use aaaos_renovation_agent_o.Workflow.Inv.{IsValid}
use aaaos_renovation_agent_o.Lifecycle.{mark_region, mark_proc}
use aaaos_renovation_agent_o.Lifecycle.Fork.{lifecycle-IsValid}

-- What agent_mark_current reads and writes beside its arguments; `ids` is the counter of identities.
pub record System : Type 0 where
  pub procs : List Proc
  pub wheel : Wheel
  pub ids : ℕ
  pub workflows : List Workflow
  pub region : Region

-- Whether the call gives an Agent, and the system after it
abbrev pub Marked : Type 0
Marked = Bool × System

abbrev with_beat : System → Option (List Proc × Wheel) → Option Marked
with_beat s none = none
with_beat s (some (procs, w)) = some (true, record s { procs = procs; wheel = w })

-- The end of the call: the process is written, and a heartbeat goes into the wheel.
unfoldable pub mark_end : ℕ → System → Bool × Proc × ℕ × List Workflow × Region → Option Marked
mark_end i s (goes_on, p, ids, ws, r) =
    let s' = record s { procs = set s.procs i p; ids = ids; workflows = ws; region = r } in
    if goes_on
    then if ltb_ℤ (pos 0) p.heartbeat_interval
      then with_beat s' (wheel_insert s'.procs s'.wheel i p)
      else some (true, s')
    else some (false, s')

-- From the removal from the wheel on; none for a failed uvmalloc leaves the rest.
unfoldable pub mark_from : ℕ → System → Option (Proc × Region) → ℤ → ℤ → ℕ → ℕ → Option Marked
mark_from i s none type interval quota now = some (false, s)
mark_from i s (some (p, r)) type interval quota now =
    mark_end i s (mark_proc p r type interval quota s.ids now s.workflows)

abbrev mark_removed :
    ℕ → Proc → System → Bool → ℤ → ℤ → ℕ → ℕ → Option (List Proc × Wheel) → Option Marked
mark_removed i p s maps type interval quota now none = none
mark_removed i p s maps type interval quota now (some (procs, w)) =
    mark_from i (record s { procs = procs; wheel = w })
      (mark_region (get_or procs i p) s.region maps) type interval quota now

-- agent_mark_current for the process `p` at place `i` of the table; none where a chain of the wheel is
-- broken.
unfoldable pub mark_current : ℕ → Proc → System → Bool → ℤ → ℤ → ℕ → ℕ → Option Marked
mark_current i p s maps type interval quota now =
    mark_removed i p s maps type interval quota now (wheel_remove s.procs s.wheel i p)

beat-IsValid :
    (s : System) (o : Option (List Proc × Wheel)) (m : Marked)
    → IsValid s.workflows
    → with_beat s o ≡ some m
    → IsValid m.1.workflows
beat-IsValid s none m v h = absurd (cc)
beat-IsValid s (some (procs, w)) m v h =
    let e : (true, record s { procs = procs; wheel = w }) ≡ m = cc in
    subst (λ (x : Marked). IsValid x.1.workflows) e v

end-IsValid :
    (i : ℕ) (s : System) (x : Bool × Proc × ℕ × List Workflow × Region) (m : Marked)
    → IsValid x.3
    → mark_end i s x ≡ some m
    → IsValid m.1.workflows
unfolding mark_end
end-IsValid i s (goes_on, p, ids, ws, r) m v h =
    let s' : System = record s { procs = set s.procs i p; ids = ids; workflows = ws; region = r } in
    elim (Bool-cases goes_on) [
      | inr e ↦
          let y : (false, s') ≡ m = (let h' = rw e at h in cc) in
          subst (λ (x : Marked). IsValid x.1.workflows) y v
      | inl e ↦ elim (Bool-cases (ltb_ℤ (pos 0) p.heartbeat_interval)) [
        | inl f ↦ beat-IsValid s' (wheel_insert s'.procs s'.wheel i p) m v (rw (e, f) at h)
        | inr f ↦
            let y : (true, s') ≡ m = (let h' = rw (e, f) at h in cc) in
            subst (λ (x : Marked). IsValid x.1.workflows) y v
      ]
    ]

from-IsValid :
    (i : ℕ) (s : System) (o : Option (Proc × Region)) (type interval : ℤ) (quota now : ℕ)
    (m : Marked)
    → IsValid s.workflows
    → mark_from i s o type interval quota now ≡ some m
    → IsValid m.1.workflows
unfolding mark_from
from-IsValid i s none type interval quota now m v h =
    let y : (false, s) ≡ m = cc in subst (λ (x : Marked). IsValid x.1.workflows) y v
from-IsValid i s (some (p, r)) type interval quota now m v h =
    end-IsValid i s (mark_proc p r type interval quota s.ids now s.workflows) m
      ((lifecycle-IsValid p p s.ids s.workflows v).1 r type interval quota now) h

-- Whatever agent_mark_current comes to, the workflow table stays well formed.
pub mark_current-IsValid :
    (i : ℕ) (p : Proc) (s : System) (maps : Bool) (type interval : ℤ) (quota now : ℕ) (m : Marked)
    → IsValid s.workflows
    → mark_current i p s maps type interval quota now ≡ some m
    → IsValid m.1.workflows
unfolding mark_current
mark_current-IsValid i p s maps type interval quota now m v h =
    elim (Option-cases (wheel_remove s.procs s.wheel i p)) [
      | inl n ↦ absurd (let h' : none ≡ some m = rw n at h in cc)
      | inr ((procs, w), n) ↦
          from-IsValid i (record s { procs = procs; wheel = w })
            (mark_region (get_or procs i p) s.region maps) type interval quota now m v (rw n at h)
    ]
