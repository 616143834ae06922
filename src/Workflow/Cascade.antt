-- ===== src/Workflow/Cascade.antt =====
-- What agent_cascade_terminate does to the process table and to the workflow.
use aaaos_renovation_agent_o.Prelude.{
  ℕ, zero, suc, ◌+◌, ◌≡◌, ◌≢◌, refl, ap, ◌∙◌, Bool, true, false, some, List, [], ◌∷◌, arith, ◌⊎◌,
  get_elem?, has_bit, if◌then◌else◌, pos, Bool-cases, inl, inr,
}
use aaaos_renovation_agent_o.Proc.{
  Proc, Workflow, ok, loop_done, sleeping, runnable, ProcState, cap_workflow_ctrl,
  event_parent_gone, is_sleeping, is_unused, is_normal,
}
use aaaos_renovation_agent_o.Events.Bits.{has-set_parent_gone}
use aaaos_renovation_agent_o.Workflow.{
  is_member, fate, terminate_member, terminate_members, cascade_from, cascade_terminate,
}

get_elem?-terminate_members :
    (id gen now leader i j : ℕ) (include_leader : Bool) (procs : List Proc) (p : Proc)
    → get_elem? procs j ≡ some p
    → get_elem? (terminate_members id gen now include_leader leader i procs) j
      ≡ some (fate id gen now include_leader leader (i + j) p)
unfolding terminate_members
get_elem?-terminate_members id gen now leader i j include_leader [] p h = absurd (cc)
get_elem?-terminate_members id gen now leader i zero include_leader (q ∷ procs) p h =
    let d : q ≡ p = cc in
    ap (λ n. some (fate id gen now include_leader leader n q)) {y = i + 0} (omega arith)
    ∙ ap (λ k. some (fate id gen now include_leader leader (i + 0) k)) d
get_elem?-terminate_members id gen now leader i (suc j) include_leader (q ∷ procs) p h =
    get_elem?-terminate_members id gen now leader (i + 1) j include_leader procs p h
    ∙ ap (λ n. some (fate id gen now include_leader leader n p)) (omega arith)

cascade-get :
    (leader now j : ℕ) (include_leader : Bool) (procs : List Proc) (ws : List Workflow) (p q : Proc)
    → get_elem? procs leader ≡ some p
    → get_elem? procs j ≡ some q
    → (cascade_terminate (some leader) include_leader now procs ws).0 ≡ ok
    → get_elem? (cascade_terminate (some leader) include_leader now procs ws).1 j
      ≡ some (fate p.workflow_id p.workflow_leader_generation now include_leader leader j q)
unfolding cascade_terminate cascade_from
cascade-get leader now j include_leader procs ws p q hp hq r =
    rw (hp, cascade_terminate)
      (ground (
        arith,
        rw (hp, cascade_terminate) at r,
        get_elem?-terminate_members p.workflow_id p.workflow_leader_generation now leader 0 j
              include_leader procs q hq
            ∙ ap
                (λ n.
                  some
                    (fate p.workflow_id p.workflow_leader_generation now include_leader leader n q))
                {y = j} (omega arith),
      ))

-- What a terminated process is: killed and done, not asleep, with no wake source left, and with the
-- PARENT_GONE event
abbrev pub Terminated : ℕ → Proc → Type 0
Terminated now p =
    (p.killed ≡ true)
    × (p.loop_state ≡ loop_done)
    × (is_sleeping p.state ≡ false)
    × (p.watch_mask ≡ 0)
    × (p.heartbeat_interval ≡ pos 0)
    × (p.wakeup_tick ≡ now)
    × (has_bit event_parent_gone p.pending_events ≡ true)

terminate_member-Terminated : (now : ℕ) (p : Proc) → Terminated now (terminate_member now p)
unfolding terminate_member
terminate_member-Terminated now p =
    (refl, refl, awake p.state, refl, refl, refl, (has-set_parent_gone p.pending_events).3)
  where
    awake : (s : ProcState) → is_sleeping (if is_sleeping s then runnable else s) ≡ false
    awake sleeping = refl
    awake _ = refl

-- The process belongs to the workflow of another: a slot in use, an Agent type, and the other's
-- workflow id and leader generation.
abbrev pub Belongs : Proc → Proc → Type 0
Belongs p q =
    (is_unused q.state ≡ false)
    × (q.agent_type ≢ 0)
    × (q.workflow_id ≡ p.workflow_id)
    × (q.workflow_leader_generation ≡ p.workflow_leader_generation)

is_member-Belongs :
    (p q : Proc) → is_member p.workflow_id p.workflow_leader_generation q ≡ true → Belongs p q
unfolding is_member
is_member-Belongs p q e = (
  ground arith,
  (λ t. let n : is_normal q ≡ true = ground arith in ground arith),
  ground arith,
  ground arith,
)

Belongs-is_member :
    (p q : Proc) → Belongs p q → is_member p.workflow_id p.workflow_leader_generation q ≡ true
unfolding is_member
Belongs-is_member p q b = ground (arith, b.0, b.1, b.2, b.3)

fate-in :
    (p q : Proc) (now leader j : ℕ) (include_leader : Bool)
    → Belongs p q
    → (include_leader ≡ true) ⊎ (j ≢ leader)
    → fate p.workflow_id p.workflow_leader_generation now include_leader leader j q
      ≡ terminate_member now q
unfolding fate
fate-in p q now leader j include_leader b i = ground (arith, Belongs-is_member p q b)

fate-out :
    (p q : Proc) (now leader j : ℕ) (include_leader : Bool)
    → (¬ (Belongs p q)) ⊎ ((include_leader ≡ false) × (j ≡ leader))
    → fate p.workflow_id p.workflow_leader_generation now include_leader leader j q ≡ q
unfolding fate
fate-out p q now leader j include_leader (inr h) = ground (arith, h.0, h.1)
fate-out p q now leader j include_leader (inl h) =
    elim (Bool-cases (is_member p.workflow_id p.workflow_leader_generation q)) [
      | inl e ↦ absurd (h (is_member-Belongs p q e))
      | inr e ↦ rw e refl
    ]

-- A cascade that succeeds terminates exactly the live Agents with the workflow id and the leader
-- generation of the leader, the leader itself only if it is included: these are killed, done, awake
-- and without a wake source, and see PARENT_GONE; every other process stays as it was.
pub cascade-fate :
    (leader now j : ℕ) (include_leader : Bool) (procs : List Proc) (ws : List Workflow) (p q : Proc)
    → get_elem? procs leader ≡ some p
    → get_elem? procs j ≡ some q
    → (cascade_terminate (some leader) include_leader now procs ws).0 ≡ ok
    → let procs' = (cascade_terminate (some leader) include_leader now procs ws).1 in
      (Belongs p q
        → (include_leader ≡ true) ⊎ (j ≢ leader)
        → (q' : Proc) × (get_elem? procs' j ≡ some q') × Terminated now q' × (q'.pid ≡ q.pid))
      × ((¬ (Belongs p q)) ⊎ ((include_leader ≡ false) × (j ≡ leader))
          → get_elem? procs' j ≡ some q)
unfolding terminate_member
cascade-fate leader now j include_leader procs ws p q hp hq r =
    let g = cascade-get leader now j include_leader procs ws p q hp hq r in
    (
      λ b i. (
        terminate_member now q,
        g ∙ ap (λ x. some x) (fate-in p q now leader j include_leader b i),
        terminate_member-Terminated now q,
        refl,
      ),
      λ o. g ∙ ap (λ x. some x) (fate-out p q now leader j include_leader o),
    )

-- A cascade that is refused changes no process; it is refused to a process that is no Agent, and to
-- one that neither leads its workflow nor has the right to control it.
pub cascade-refused :
    (leader now : ℕ) (include_leader : Bool) (procs : List Proc) (ws : List Workflow) (p : Proc)
    → get_elem? procs leader ≡ some p
    → (p.agent_type ≡ 0)
      ⊎ ((p.is_workflow_leader ≡ false) × (has_bit cap_workflow_ctrl p.agent_capabilities ≡ false))
    → ((cascade_terminate (some leader) include_leader now procs ws).0 ≢ ok)
      × ((cascade_terminate (some leader) include_leader now procs ws).1 ≡ procs)
      × ((cascade_terminate (some leader) include_leader now procs ws).2 ≡ ws)
unfolding cascade_terminate cascade_from
cascade-refused leader now include_leader procs ws p hp h =
    rw (hp, cascade_terminate) (ground arith)
