-- ===== src/Workflow/Members.antt =====
-- The member count of each workflow, as the calls change it.
use aaaos_renovation_agent_o.Prelude.{
  ℕ, ◌+◌, ◌-◌, ◌≤◌, ◌≡◌, refl, sym, ap, ◌∙◌, Bool, true, false, ◌&&◌, Option, none, some, List, [],
  ◌∷◌, arith, Bool-cases, inl, inr, Option-cases, All, ◌==◌, leb, if◌then◌else◌,
}
use aaaos_renovation_agent_o.Proc.{
  Proc, Workflow, wf_terminating, ok, busy, service_gone, workflow_member_max,
}
use aaaos_renovation_agent_o.Workflow.{
  is_workflow, find, update, place, fresh, placed, enter, join_found, drop_member, workflow_create,
  workflow_join, workflow_leave, is_terminating, no_workflow, blank,
}
use aaaos_renovation_agent_o.Workflow.Find.{
  one_key, find-update_self, find-update_ne, find-hit, find-place_self, find-place_ne,
}
use aaaos_renovation_agent_o.Workflow.Inv.{IsValid, Apart, Unique, Absent-find-none}

-- How many members a workflow has; one that is not in the table has none.
abbrev pub members_of : Option Workflow → ℕ
members_of none = 0
members_of (some w) = w.member_count

unfoldable pub members : ℕ → ℕ → List Workflow → ℕ
members id gen ws = members_of (find id gen ws)

-- The key of a process's workflow
abbrev pub is_key : Proc → ℕ → ℕ → Bool
is_key p id gen = p.workflow_id == id && p.workflow_leader_generation == gen

key_eq :
    (p : Proc) (id gen : ℕ)
    → is_key p id gen ≡ true
    → (id ≡ p.workflow_id) × (gen ≡ p.workflow_leader_generation)
key_eq p id gen h = ground arith

keeps_key :
    (id gen n : ℕ) (w : Workflow)
    → is_workflow id gen (record w { member_count = n }) ≡ is_workflow id gen w
unfolding is_workflow
keeps_key id gen n w = refl

-- One more member under the key, the same number elsewhere
members-enter :
    (p : Proc) (id gen : ℕ) (ws : List Workflow) (w : Workflow) (f : Workflow → Workflow)
    → ((v : Workflow) → (f v).member_count ≡ v.member_count + 1)
    → ((a b : ℕ) (v : Workflow) → is_workflow a b (f v) ≡ is_workflow a b v)
    → find p.workflow_id p.workflow_leader_generation ws ≡ some w
    → members id gen (update p.workflow_id p.workflow_leader_generation f ws)
      ≡ (if is_key p id gen then members id gen ws + 1 else members id gen ws)
unfolding members
members-enter p id gen ws w f c k h = elim (Bool-cases (is_key p id gen)) [
  | inl e ↦
      let (a, b) = key_eq p id gen e in
      rw
        (
          e,
          a,
          b,
          find-update_self p.workflow_id p.workflow_leader_generation f ws
              (λ v t. k p.workflow_id p.workflow_leader_generation v ∙ t),
          h,
        )
        (c w)
  | inr e ↦
      rw
        (
          e,
          find-update_ne p.workflow_id p.workflow_leader_generation id gen f ws e
              (λ v t. k id gen v ∙ one_key p.workflow_id p.workflow_leader_generation id gen v e t),
        )
        refl
]

fresh_key : (p : Proc) (id gen : ℕ) → is_workflow id gen (fresh p) ≡ is_key p id gen
unfolding is_workflow
fresh_key p id gen = refl

self_key : (p : Proc) → is_key p p.workflow_id p.workflow_leader_generation ≡ true
self_key p = ground arith

members-placed :
    (p : Proc) (id gen : ℕ) (ws : List Workflow) (o : Option (List Workflow))
    → find p.workflow_id p.workflow_leader_generation ws ≡ none
    → place (fresh p) ws ≡ o
    → (placed ws o).0 ≡ ok
    → members id gen (placed ws o).1
      ≡ (if is_key p id gen then members id gen ws + 1 else members id gen ws)
unfolding members
members-placed p id gen ws none h e r = absurd (cc)
members-placed p id gen ws (some ms) h e r = elim (Bool-cases (is_key p id gen)) [
  | inl k ↦
      let (a, b) = key_eq p id gen k in
      rw
        (
          k,
          a,
          b,
          h,
          find-place_self p.workflow_id p.workflow_leader_generation (fresh p) ws ms
              (fresh_key p p.workflow_id p.workflow_leader_generation ∙ self_key p) h e,
        )
        refl
  | inr k ↦ rw (k, find-place_ne id gen (fresh p) ws ms (fresh_key p id gen ∙ k) e) refl
]

-- A create that succeeds gives the process's workflow one member more, and no other workflow.
pub members-create :
    (p : Proc) (id gen : ℕ) (ws : List Workflow)
    → (workflow_create p ws).0 ≡ ok
    → members id gen (workflow_create p ws).1
      ≡ (if is_key p id gen then members id gen ws + 1 else members id gen ws)
unfolding workflow_create
members-create p id gen ws r =
    elim (Option-cases (find p.workflow_id p.workflow_leader_generation ws)) [
      | inl h ↦
          let r' = rw (h, workflow_create) at r in
          rw (h, workflow_create) (members-placed p id gen ws (place (fresh p) ws) h refl r')
      | inr (w, h) ↦ elim (Bool-cases (is_terminating w.state)) [
        | inl t ↦ absurd (let r' : busy ≡ ok = rw (h, workflow_create, t) at r in cc)
        | inr t ↦
            rw (h, workflow_create, t)
              (members-enter p id gen ws w (enter p.workflow_leader_pid) (λ v. refl)
                (λ a b v. unfold is_workflow in refl) h)
      ]
    ]

-- A join that succeeds, of a process that has a workflow, gives that workflow one member more, and no
-- other workflow.
pub members-join :
    (p : Proc) (id gen : ℕ) (ws : List Workflow)
    → no_workflow p ≡ false
    → (workflow_join p ws).0 ≡ ok
    → members id gen (workflow_join p ws).1
      ≡ (if is_key p id gen then members id gen ws + 1 else members id gen ws)
unfolding workflow_join
members-join p id gen ws n r =
    elim (Option-cases (find p.workflow_id p.workflow_leader_generation ws)) [
      | inl h ↦ absurd (let r' : service_gone ≡ ok = rw (n, h) at r in cc)
      | inr (w, h) ↦
          let r' : (join_found w p ws).0 ≡ ok = rw (n, h) at r in
          rw (n, h)
            (ground (
              arith,
              r',
              members-enter p id gen ws w (λ w. record w { member_count = w.member_count + 1 })
                  (λ v. refl) (λ a b v. unfold is_workflow in refl) h,
            ))
    ]

blank_key : (id gen : ℕ) → is_workflow id gen blank ≡ false
unfolding is_workflow
blank_key id gen = refl

hit :
    (id gen : ℕ) (w : Workflow)
    → is_workflow id gen w ≡ true
    → (w.used ≡ true) × (w.workflow_id ≡ id) × (w.leader_generation ≡ gen)
unfolding is_workflow
hit id gen w h = ground arith

All-Apart-Absent :
    (w : Workflow) (ws : List Workflow)
    → w.used ≡ true
    → All (Apart w) ws
    → All (λ v. is_workflow w.workflow_id w.leader_generation v ≡ false) ws
All-Apart-Absent w [] u h = tt
All-Apart-Absent w (v ∷ ws) u h = (h.0 u, All-Apart-Absent w ws u h.1)

-- The rest of the table has no slot with the key of the one that was hit.
find_rest :
    (id gen : ℕ) (w : Workflow) (ws : List Workflow)
    → is_workflow id gen w ≡ true
    → All (Apart w) ws
    → find id gen ws ≡ none
find_rest id gen w ws h a =
    let (u, i, g) = hit id gen w h in
    rw (← i, ← g)
      (Absent-find-none w.workflow_id w.leader_generation ws (All-Apart-Absent w ws u a))

drop_last : (w : Workflow) → leb (w.member_count - 1) 0 ≡ true → drop_member w ≡ blank
unfolding drop_member
drop_last w h = rw h

drop_more :
    (w : Workflow)
    → leb (w.member_count - 1) 0 ≡ false
    → drop_member w ≡ record w { member_count = w.member_count - 1 }
unfolding drop_member
drop_more w h = rw h

members-drop :
    (id gen : ℕ) (ws : List Workflow)
    → Unique ws
    → members id gen (update id gen drop_member ws) ≡ members id gen ws - 1
unfolding members find update
members-drop id gen [] v = refl
members-drop id gen (w ∷ ws) v = elim (Bool-cases (is_workflow id gen w)) [
  | inr e ↦ rw (e, update, find, e) (members-drop id gen ws v.1)
  | inl e ↦ elim (Bool-cases (leb (w.member_count - 1) 0)) [
    | inl l ↦
        rw (e, drop_last w l, find, blank_key id gen, find_rest id gen w ws e v.0) (ground arith)
    | inr l ↦
        let d = drop_more w l in
        let k : is_workflow id gen (drop_member w) ≡ true =
          ap (is_workflow id gen) d ∙ keeps_key id gen (w.member_count - 1) w ∙ e in
        rw (e, update)
          (ap members_of (find-hit id gen (drop_member w) ws k)
            ∙ ap (λ v. v.member_count) d
            ∙ ap (λ o. members_of o - 1) (sym (find-hit id gen w ws e)))
  ]
]

-- A registered member that leaves takes one member from its own workflow and none from another; the
-- workflow is out of the table when its last member has left.
pub members-leave :
    (p : Proc) (id gen : ℕ) (ws : List Workflow)
    → IsValid ws
    → p.workflow_member_registered ≡ true
    → no_workflow p ≡ false
    → members id gen (workflow_leave p ws).1
      ≡ (if is_key p id gen then members id gen ws - 1 else members id gen ws)
unfolding workflow_leave
members-leave p id gen ws v r n = elim (Bool-cases (is_key p id gen)) [
  | inl k ↦
      let (a, b) = key_eq p id gen k in
      rw (r, n, k, a, b) (members-drop p.workflow_id p.workflow_leader_generation ws v.unique)
  | inr k ↦
      rw (r, n, k)
        (unfold members in
          ap members_of (
            find-update_ne p.workflow_id p.workflow_leader_generation id gen drop_member ws k
              (λ w t. drop_other p id gen w k t)))
]
  where
    drop_other :
        (p : Proc) (id gen : ℕ) (w : Workflow)
        → is_key p id gen ≡ false
        → is_workflow p.workflow_id p.workflow_leader_generation w ≡ true
        → is_workflow id gen (drop_member w) ≡ false
    drop_other p id gen w k t = elim (Bool-cases (leb (w.member_count - 1) 0)) [
      | inl l ↦ rw (drop_last w l) (blank_key id gen)
      | inr l ↦
          rw (drop_more w l, keeps_key id gen (w.member_count - 1) w)
            (one_key p.workflow_id p.workflow_leader_generation id gen w k t)
    ]

-- A workflow that is terminating takes nobody in: both ways of entering answer BUSY and leave the
-- table as it was.
pub terminating_closed :
    (p : Proc) (ws : List Workflow) (w : Workflow)
    → no_workflow p ≡ false
    → find p.workflow_id p.workflow_leader_generation ws ≡ some w
    → w.state ≡ wf_terminating
    → (workflow_join p ws ≡ (busy, ws)) × (workflow_create p ws ≡ (busy, ws))
unfolding workflow_join workflow_create
terminating_closed p ws w n h t = (rw (n, h, t), rw (h, workflow_create, t))

-- A join is refused at 64 members, so joining never brings a workflow above them.
pub members-join-le :
    (p : Proc) (ws : List Workflow)
    → no_workflow p ≡ false
    → members p.workflow_id p.workflow_leader_generation ws ≤ workflow_member_max
    → members p.workflow_id p.workflow_leader_generation (workflow_join p ws).1
      ≤ workflow_member_max
unfolding workflow_join
members-join-le p ws n h =
    elim (Option-cases (find p.workflow_id p.workflow_leader_generation ws)) [
      | inl e ↦ rw (n, e) h
      | inr (w, e) ↦
          let m : members p.workflow_id p.workflow_leader_generation ws ≡ w.member_count =
            unfold members in ap members_of e in
          rw (n, e)
            (ground (
              arith,
              h,
              m,
              members-enter p p.workflow_id p.workflow_leader_generation ws w
                  (λ w. record w { member_count = w.member_count + 1 }) (λ v. refl)
                  (λ a b v. unfold is_workflow in refl) e,
              self_key p,
            ))
    ]
