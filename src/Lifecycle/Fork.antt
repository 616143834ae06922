-- ===== src/Lifecycle/Fork.antt =====
-- What fork and agent_create give a process.
use aaaos_renovation_agent_o.Prelude.{
  ℕ, ◌+◌, ◌≡◌, refl, sym, subst, true, false, not, ◌&&◌, ◌||◌, some, List, arith, Bool-cases,
  Option-cases, inl, inr, ◌⊎◌, if◌then◌else◌, ◌==◌, ℤ,
}
use aaaos_renovation_agent_o.Proc.{
  Proc, Status, ok, busy, is_ok, Workflow, wf_terminating, agent_type_primary,
}
use aaaos_renovation_agent_o.Region.{Region}
use aaaos_renovation_agent_o.Workflow.{find, workflow_join, workflow_leave, no_workflow, join_found}
use aaaos_renovation_agent_o.Workflow.Inv.{IsValid, create-IsValid, join-IsValid, leave-IsValid}
use aaaos_renovation_agent_o.Workflow.Members.{members, members-join, is_key, terminating_closed}
use aaaos_renovation_agent_o.Lifecycle.{
  next_identity, fork_proc, fork_identity, join_or_kill, after_fork, create_own, enter_as_primary,
  enter_as_worker, join_given, enter_workflow, own_workflow, is_registered, mark_proc, mark_fields,
  mark_type,
}

-- A join that is refused leaves the table as it was.
join_found-refused :
    (w : Workflow) (p : Proc) (ws : List Workflow)
    → is_ok (join_found w p ws).0 ≡ false
    → (join_found w p ws).1 ≡ ws
join_found-refused w p ws h = ground arith

join-refused :
    (p : Proc) (ws : List Workflow)
    → is_ok (workflow_join p ws).0 ≡ false
    → (workflow_join p ws).1 ≡ ws
unfolding workflow_join
join-refused p ws h = elim (Bool-cases (no_workflow p)) [
  | inl n ↦ rw n refl
  | inr n ↦ elim (Option-cases (find p.workflow_id p.workflow_leader_generation ws)) [
    | inl e ↦ rw (n, e) refl
    | inr (w, e) ↦ rw (n, e) (join_found-refused w p ws (rw (n, e) at h))
  ]
]

is_ok-ok : (s : Status) → is_ok s ≡ true → s ≡ ok
is_ok-ok s h = ground arith

-- The child of a process of a workflow
fork-joins :
    (dst src : Proc) (ids : ℕ) (ws : List Workflow)
    → no_workflow src ≡ false
    → let p = fork_proc dst src (next_identity ids) in
      (after_fork dst src ids ws
        ≡ (join_or_kill p (workflow_join p ws).0, next_identity ids, (workflow_join p ws).1))
unfolding after_fork fork_proc fork_identity
fork-joins dst src ids ws n =
    let h : (not (src.workflow_id == 0) && not (src.workflow_leader_generation == 0)) ≡ true =
      ground arith in
    rw h refl

fork-key :
    (dst src : Proc) (id : ℕ)
    → let p = fork_proc dst src id in
      (p.workflow_id ≡ src.workflow_id)
      × (p.workflow_leader_generation ≡ src.workflow_leader_generation)
      × (p.killed ≡ dst.killed)
      × (p.workflow_member_registered ≡ false)
unfolding fork_proc fork_identity
fork-key dst src id = (refl, refl, refl, refl)

-- A child that is in its workflow is counted there; one that is not is killed.
abbrev pub InOrKilled : Proc → Proc → List Workflow → Proc × ℕ × List Workflow → Type 0
InOrKilled dst src ws (q, id, ws') =
    ((q.workflow_member_registered ≡ true)
      × (q.killed ≡ dst.killed)
      × ((id gen : ℕ)
          → members id gen ws'
            ≡ (if is_key src id gen then members id gen ws + 1 else members id gen ws)))
    ⊎ ((q.workflow_member_registered ≡ false) × (q.killed ≡ true) × (ws' ≡ ws))

joined-InOrKilled :
    (dst src p : Proc) (id : ℕ) (ws : List Workflow)
    → no_workflow p ≡ false
    → p.workflow_id ≡ src.workflow_id
    → p.workflow_leader_generation ≡ src.workflow_leader_generation
    → p.killed ≡ dst.killed
    → p.workflow_member_registered ≡ false
    → InOrKilled dst src ws (join_or_kill p (workflow_join p ws).0, id, (workflow_join p ws).1)
unfolding join_or_kill
joined-InOrKilled dst src p id ws n i g k r = elim (Bool-cases (is_ok (workflow_join p ws).0)) [
  | inl b ↦ inl (
    rw b refl,
    rw b k,
    λ a c. rw (← i, ← g) (members-join p a c ws n (is_ok-ok (workflow_join p ws).0 b)),
  )
  | inr b ↦ inr (rw b r, rw b refl, join-refused p ws b)
]

-- The child of an Agent with a workflow is a counted member of that workflow, which has one member
-- more and no other workflow has, or it is killed and the table stays.
pub fork-InOrKilled :
    (dst src : Proc) (ids : ℕ) (ws : List Workflow)
    → no_workflow src ≡ false
    → InOrKilled dst src ws (after_fork dst src ids ws)
fork-InOrKilled dst src ids ws n =
    let p = fork_proc dst src (next_identity ids) in
    let (i, g, k, r) = fork-key dst src (next_identity ids) in
    subst (InOrKilled dst src ws) (sym (fork-joins dst src ids ws n))
      (joined-InOrKilled dst src p (next_identity ids) ws (rw (i, g) n) i g k r)

-- A fork into a workflow that is being terminated gives a killed child.
pub fork-terminating :
    (dst src : Proc) (ids : ℕ) (ws : List Workflow) (w : Workflow)
    → no_workflow src ≡ false
    → find src.workflow_id src.workflow_leader_generation ws ≡ some w
    → w.state ≡ wf_terminating
    → ((after_fork dst src ids ws).0.killed ≡ true) × ((after_fork dst src ids ws).2 ≡ ws)
unfolding join_or_kill
fork-terminating dst src ids ws w n f t =
    let p = fork_proc dst src (next_identity ids) in
    let (i, g, k, r) = fork-key dst src (next_identity ids) in
    let busy_join : workflow_join p ws ≡ (busy, ws) =
      (terminating_closed p ws w (rw (i, g) n) (rw (i, g) f) t).0 in
    rw (fork-joins dst src ids ws n, busy_join) (refl, refl)

-- The entry into a workflow at agent_create
create_own-IsValid : (p : Proc) (ws : List Workflow) → IsValid ws → IsValid (create_own p ws).1
unfolding create_own
create_own-IsValid p ws v = elim (Bool-cases (is_registered p)) [
  | inl r ↦ rw r v
  | inr r ↦ rw r (create-IsValid p ws v)
]

primary-IsValid : (p : Proc) (ws : List Workflow) → IsValid ws → IsValid (enter_as_primary p ws).1
unfolding enter_as_primary
primary-IsValid p ws v = elim (Bool-cases (is_registered p)) [
  | inl r ↦ rw r (
      create_own-IsValid (own_workflow true (workflow_leave p ws).0) (workflow_leave p ws).1
        (leave-IsValid p ws v))
  | inr r ↦ rw r (create_own-IsValid (own_workflow true p) ws v)
]

join_given-IsValid : (p : Proc) (ws : List Workflow) → IsValid ws → IsValid (join_given p ws).2
unfolding join_given
join_given-IsValid p ws v = elim (Bool-cases (is_registered p)) [
  | inl r ↦ rw r v
  | inr r ↦ elim (Bool-cases (is_ok (workflow_join p ws).0)) [
    | inl o ↦ rw (r, o) (join-IsValid p ws v)
    | inr o ↦ rw (r, o) (join-IsValid p ws v)
  ]
]

worker-IsValid : (p : Proc) (ws : List Workflow) → IsValid ws → IsValid (enter_as_worker p ws).2
unfolding enter_as_worker
worker-IsValid p ws v =
    elim (Bool-cases (p.workflow_id == 0 || p.workflow_leader_generation == 0)) [
      | inl n ↦ rw n (
          create_own-IsValid
            (own_workflow false
              (record p { ident = record p.ident { is_workflow_leader = false } }))
            ws v)
      | inr n ↦ rw n (
          join_given-IsValid (record p { ident = record p.ident { is_workflow_leader = false } }) ws
            v)
    ]

enter-IsValid : (p : Proc) (ws : List Workflow) → IsValid ws → IsValid (enter_workflow p ws).2
unfolding enter_workflow
enter-IsValid p ws v = elim (Bool-cases (p.agent_type == agent_type_primary)) [
  | inl t ↦ rw t (primary-IsValid p ws v)
  | inr t ↦ rw t (worker-IsValid p ws v)
]

fork-IsValid :
    (dst src : Proc) (ids : ℕ) (ws : List Workflow)
    → IsValid ws
    → IsValid (after_fork dst src ids ws).2
unfolding after_fork
fork-IsValid dst src ids ws v =
    let p = fork_proc dst src (next_identity ids) in
    elim (Bool-cases (not (p.workflow_id == 0) && not (p.workflow_leader_generation == 0))) [
      | inl b ↦ rw b (join-IsValid p ws v)
      | inr b ↦ rw b v
    ]

mark-IsValid :
    (p : Proc) (r : Region) (type interval : ℤ) (quota ids now : ℕ) (ws : List Workflow)
    → IsValid ws
    → IsValid (mark_proc p r type interval quota ids now ws).3
unfolding mark_proc
mark-IsValid p r type interval quota ids now ws v =
    let q = mark_fields p (mark_type type) interval quota ids now in
    elim (Bool-cases (enter_workflow q ws).0) [
      | inl b ↦ rw b (enter-IsValid q ws v)
      | inr b ↦ rw b (enter-IsValid q ws v)
    ]

-- Whatever process forks or becomes an Agent, the workflow table stays well formed.
pub lifecycle-IsValid :
    (dst src : Proc) (ids : ℕ) (ws : List Workflow)
    → IsValid ws
    → IsValid (after_fork dst src ids ws).2
      × ((r : Region) (type interval : ℤ) (quota now : ℕ)
          → IsValid (mark_proc dst r type interval quota ids now ws).3)
lifecycle-IsValid dst src ids ws v = (
  fork-IsValid dst src ids ws v,
  λ r type interval quota now. mark-IsValid dst r type interval quota ids now ws v,
)
