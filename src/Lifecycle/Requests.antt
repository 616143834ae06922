-- ===== src/Lifecycle/Requests.antt =====
-- What an Agent can do to its own rights: agent_proc_cap_set, agent_proc_role_set and, through
-- agent_create, agent_mark_current of kernel/agent.c.
use aaaos_renovation_agent_o.Prelude.{
  ℕ, ◌^◌, ◌<◌, ◌≡◌, ◌≢◌, refl, sym, ◌∙◌, subst, true, false, List, [], ◌∷◌, arith, All, ℤ, ◌==◌,
  Bool-cases, inl, inr, not, ◌||◌,
}
use aaaos_renovation_agent_o.Proc.{
  Proc, Workflow, cap_all, role_planner, role_unset, agent_type_primary, is_ok,
}
use aaaos_renovation_agent_o.Region.{Region}
use aaaos_renovation_agent_o.Rights.{cap_set, role_set}
use aaaos_renovation_agent_o.Rights.Monotone.{Within, Within-refl, cap_set_lem, role_set-locked}
use aaaos_renovation_agent_o.Workflow.{workflow_create, workflow_join, workflow_leave, no_workflow}
use aaaos_renovation_agent_o.Lifecycle.{
  mark_proc, mark_fields, mark_identity, mark_caps, mark_type, enter_workflow, enter_as_primary,
  enter_as_worker, join_given, create_own, own_workflow, is_registered, mark_context,
}

-- An Agent, and what its requests read and write besides it
pub record Own : Type 0 where
  pub proc : Proc
  pub region : Region
  pub ids : ℕ
  pub workflows : List Workflow

-- What an Agent asks of its own rights. agent_create is asked by an Agent that has its region, so
-- that no memory is allocated.
pub data Request : Type 0 where
  wants_caps : ℕ → Request
  wants_role : ℤ → Request
  creates : (type interval : ℤ) (quota now : ℕ) → Request

unfoldable pub request : Own → Request → Own
request o (wants_caps caps) = record o { proc = (cap_set o.proc caps).1 }
request o (wants_role role) = record o { proc = (role_set o.proc role).1 }
request o (creates type interval quota now) =
    let x = mark_proc o.proc o.region type interval quota o.ids now o.workflows in
    record { proc = x.1; region = x.4; ids = x.2; workflows = x.3 }

unfoldable pub requests : Own → List Request → Own
requests o [] = o
requests o (r ∷ rs) = requests (request o r) rs

-- The request is one of agent_cap_set, for a 64-bit word, or of agent_role_set.
abbrev pub Keeps : Request → Type 0
Keeps (wants_caps caps) = caps < 2 ^ 64
Keeps (wants_role role) = Unit {0}
Keeps (creates type interval quota now) = ⊥

-- The same role and rights, as fixed or as free
abbrev Alike : Proc → Proc → Type 0
Alike p q =
    (q.agent_capabilities ≡ p.agent_capabilities)
    × (q.agent_role ≡ p.agent_role)
    × (q.agent_role_locked ≡ p.agent_role_locked)

create_own-Alike : (p : Proc) (ws : List Workflow) → Alike p (create_own p ws).0
unfolding create_own
create_own-Alike p ws = elim (Bool-cases (is_registered p)) [
  | inl r ↦ rw r (refl, refl, refl)
  | inr r ↦ elim (Bool-cases (is_ok (workflow_create p ws).0)) [
    | inl k ↦ rw (r, k) (refl, refl, refl)
    | inr k ↦ rw (r, k) (refl, refl, refl)
  ]
]

leave-Alike : (p : Proc) (ws : List Workflow) → Alike p (workflow_leave p ws).0
unfolding workflow_leave
leave-Alike p ws = elim (Bool-cases (not p.workflow_member_registered || no_workflow p)) [
  | inl r ↦ rw r (refl, refl, refl)
  | inr r ↦ rw r (refl, refl, refl)
]

Alike-trans : (p q r : Proc) → Alike p q → Alike q r → Alike p r
Alike-trans p q r a b = (b.0 ∙ a.0, b.1 ∙ a.1, b.2 ∙ a.2)

primary-Alike : (p : Proc) (ws : List Workflow) → Alike p (enter_as_primary p ws).0
unfolding enter_as_primary
primary-Alike p ws = elim (Bool-cases (is_registered p)) [
  | inl r ↦ rw r (
      Alike-trans p (own_workflow true (workflow_leave p ws).0)
        (create_own (own_workflow true (workflow_leave p ws).0) (workflow_leave p ws).1).0
        (leave-Alike p ws)
        (create_own-Alike (own_workflow true (workflow_leave p ws).0) (workflow_leave p ws).1))
  | inr r ↦ rw r (create_own-Alike (own_workflow true p) ws)
]

given-Alike : (p : Proc) (ws : List Workflow) → Alike p (join_given p ws).1
unfolding join_given
given-Alike p ws = elim (Bool-cases (is_registered p)) [
  | inl r ↦ rw r (refl, refl, refl)
  | inr r ↦ elim (Bool-cases (is_ok (workflow_join p ws).0)) [
    | inl k ↦ rw (r, k) (refl, refl, refl)
    | inr k ↦ rw (r, k) (refl, refl, refl)
  ]
]

worker-Alike : (p : Proc) (ws : List Workflow) → Alike p (enter_as_worker p ws).1
unfolding enter_as_worker
worker-Alike p ws =
    let q : Proc = record p { ident = record p.ident { is_workflow_leader = false } } in
    elim (Bool-cases (q.workflow_id == 0 || q.workflow_leader_generation == 0)) [
      | inl r ↦ rw r (create_own-Alike (own_workflow false q) ws)
      | inr r ↦ rw r (given-Alike q ws)
    ]

enter-Alike : (p : Proc) (ws : List Workflow) → Alike p (enter_workflow p ws).1
unfolding enter_workflow
enter-Alike p ws = elim (Bool-cases (p.agent_type == agent_type_primary)) [
  | inl r ↦ rw r (primary-Alike p ws)
  | inr r ↦ rw r (worker-Alike p ws)
]

mark-Alike :
    (p : Proc) (r : Region) (type interval : ℤ) (quota ids now : ℕ) (ws : List Workflow)
    → Alike
        (mark_fields p (mark_type type) interval quota ids now)
        (mark_proc p r type interval quota ids now ws).1
unfolding mark_proc mark_context
mark-Alike p r type interval quota ids now ws =
    let q = mark_fields p (mark_type type) interval quota ids now in
    elim (Bool-cases (enter_workflow q ws).0) [
      | inl e ↦ rw e (enter-Alike q ws)
      | inr e ↦ rw e (enter-Alike q ws)
    ]

-- What a new Agent of a type may do: a primary Agent everything, and its role is fixed; any other
-- Agent only to look and to send, and its role is still free.
abbrev pub Fresh : ℤ → Proc → Type 0
Fresh type q =
    (mark_type type ≡ agent_type_primary
      → (q.agent_capabilities ≡ cap_all)
        × (q.agent_role ≡ role_planner)
        × (q.agent_role_locked ≡ true))
    × (mark_type type ≢ agent_type_primary
        → (q.agent_capabilities ≡ 23) × (q.agent_role ≡ role_unset) × (q.agent_role_locked ≡ false))

fields-Fresh :
    (p : Proc) (type interval : ℤ) (quota ids now : ℕ)
    → Fresh type (mark_fields p (mark_type type) interval quota ids now)
unfolding mark_fields mark_identity mark_caps
fields-Fresh p type interval quota ids now = (
  (λ e. rw e (refl, refl, refl)),
  λ n.
      let f : (mark_type type == agent_type_primary) ≡ false = ground arith in
      rw f (refl, refl, refl),
)

create-Fresh :
    (o : Own) (type interval : ℤ) (quota now : ℕ)
    → Fresh type (request o (creates type interval quota now)).proc
unfolding request
create-Fresh o type interval quota now =
    let f = fields-Fresh o.proc type interval quota o.ids now in
    let a = mark-Alike o.proc o.region type interval quota o.ids now o.workflows in
    (
      (λ e. let g = f.0 e in (a.0 ∙ g.0, a.1 ∙ g.1, a.2 ∙ g.2)),
      λ n. let g = f.1 n in (a.0 ∙ g.0, a.1 ∙ g.1, a.2 ∙ g.2),
    )

kept_requests :
    (rs : List Request) (o : Own)
    → o.proc.agent_role_locked ≡ true
    → o.proc.agent_capabilities < 2 ^ 64
    → All Keeps rs
    → Within (requests o rs).proc.agent_capabilities o.proc.agent_capabilities
      × ((requests o rs).proc.agent_role ≡ o.proc.agent_role)
unfolding requests request
kept_requests [] o l b w = (Within-refl o.proc.agent_capabilities, refl)
kept_requests (wants_caps caps ∷ rs) o l b w =
    let (a, c, r, k) = cap_set_lem o.proc caps b w.0 in
    let (d, e) = kept_requests rs (record o { proc = (cap_set o.proc caps).1 }) (k ∙ l) c w.1 in
    ((λ i h. omega (arith, a i h, d i h)), e ∙ r)
kept_requests (wants_role role ∷ rs) o l b w =
    subst
      (λ (q : Proc).
        Within (requests (record o { proc = q }) rs).proc.agent_capabilities
          o.proc.agent_capabilities
        × ((requests (record o { proc = q }) rs).proc.agent_role ≡ o.proc.agent_role))
      (sym (role_set-locked o.proc role l)) (kept_requests rs o l b w.1)
kept_requests (creates type interval quota now ∷ rs) o l b w = absurd w.0

-- Once its role is fixed, no sequence of calls of agent_cap_set and agent_role_set changes an Agent's
-- role, or gives it a right that it did not have. agent_create is the one way out: after any
-- requests, whatever the role and the rights are and whether they are fixed, it gives the rights and
-- the role of a new Agent, which are all rights and the role PLANNER for a primary one.
pub requests-Within :
    (rs : List Request) (o : Own)
    → (o.proc.agent_role_locked ≡ true
        → o.proc.agent_capabilities < 2 ^ 64
        → All Keeps rs
        → Within (requests o rs).proc.agent_capabilities o.proc.agent_capabilities
          × ((requests o rs).proc.agent_role ≡ o.proc.agent_role))
      × ((type interval : ℤ) (quota now : ℕ)
          → Fresh type (request (requests o rs) (creates type interval quota now)).proc)
requests-Within rs o = (
  (λ l b w. kept_requests rs o l b w),
  λ type interval quota now. create-Fresh (requests o rs) type interval quota now,
)
