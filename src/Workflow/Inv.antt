-- ===== src/Workflow/Inv.antt =====
-- The workflow table between two calls: one slot for a key, and no slot without a member.
use aaaos_renovation_agent_o.Prelude.{
  ℕ, ◌+◌, ◌≤◌, ◌≡◌, refl, true, false, Option, none, some, List, [], ◌∷◌, arith, Bool-cases, inl,
  inr, ◌⊎◌, Option-cases, All,
}
use aaaos_renovation_agent_o.Proc.{Proc, Workflow, wf_active, wf_terminating}
use aaaos_renovation_agent_o.Workflow.{
  is_workflow, find, update, place, fresh, placed, enter, join_found, drop_member, workflow_create,
  workflow_join, begin_terminate, workflow_leave, is_terminating, no_workflow,
}
use aaaos_renovation_agent_o.Workflow.Find.{place-cases}

-- A later slot with the key of a used one
abbrev pub Apart : Workflow → Workflow → Type 0
Apart w v = w.used ≡ true → is_workflow w.workflow_id w.leader_generation v ≡ false

abbrev pub Unique : List Workflow → Type 0
Unique [] = Unit {0}
Unique (w ∷ ws) = All (Apart w) ws × Unique ws

-- A used slot is active or terminating, and has a member.
abbrev pub Populated : Workflow → Type 0
Populated w =
    w.used ≡ true → (1 ≤ w.member_count) × ((w.state ≡ wf_active) ⊎ (w.state ≡ wf_terminating))

pub record IsValid (ws : List Workflow) : Type 0 where
  pub unique : Unique ws
  pub populated : All Populated ws

-- The updates of the code keep the key of a slot, or free it.
record KeepsKey (f : Workflow → Workflow) : Type 0 where
  used_before : (w : Workflow) → (f w).used ≡ true → w.used ≡ true
  same_id : (w : Workflow) → (f w).used ≡ true → (f w).workflow_id ≡ w.workflow_id
  same_gen : (w : Workflow) → (f w).used ≡ true → (f w).leader_generation ≡ w.leader_generation

pub All-update {κ} :
    (P : Workflow → Type κ) (id gen : ℕ) (f : Workflow → Workflow) (ws : List Workflow)
    → ((w : Workflow) → P w → P (f w))
    → All P ws
    → All P (update id gen f ws)
unfolding update
All-update P id gen f [] k h = h
All-update P id gen f (w ∷ ws) k h = elim (Bool-cases (is_workflow id gen w)) [
  | inl e ↦ rw (e, update) (k w h.0, h.1)
  | inr e ↦ rw (e, update) (h.0, All-update P id gen f ws k h.1)
]

module _ (f : Workflow → Workflow) (keep : KeepsKey f) where
  Apart-right : (w v : Workflow) → Apart w v → Apart w (f v)
  unfolding is_workflow
  Apart-right w v h u = elim (Bool-cases (f v).used) [
    | inl b ↦ ground (arith, h u, keep.used_before v b, keep.same_id v b, keep.same_gen v b)
    | inr b ↦ ground arith
  ]

  Apart-left : (w v : Workflow) → Apart w v → Apart (f w) v
  Apart-left w v h u = rw (keep.same_id w u, keep.same_gen w u) (h (keep.used_before w u))

  All-Apart-left : (w : Workflow) (ws : List Workflow) → All (Apart w) ws → All (Apart (f w)) ws
  All-Apart-left w [] h = tt
  All-Apart-left w (v ∷ ws) h = (Apart-left w v h.0, All-Apart-left w ws h.1)

  update-Unique : (id gen : ℕ) (ws : List Workflow) → Unique ws → Unique (update id gen f ws)
  unfolding update
  update-Unique id gen [] h = tt
  update-Unique id gen (w ∷ ws) h = elim (Bool-cases (is_workflow id gen w)) [
    | inl e ↦ rw (e, update) (All-Apart-left w ws h.0, h.1)
    | inr e ↦
        rw (e, update)
          (All-update (Apart w) id gen f ws (Apart-right w) h.0, update-Unique id gen ws h.1)
  ]

  update-IsValid :
      (id gen : ℕ) (ws : List Workflow)
      → ((w : Workflow) → Populated w → Populated (f w))
      → IsValid ws
      → IsValid (update id gen f ws)
  update-IsValid id gen ws p v = record {
    unique = update-Unique id gen ws v.unique;
    populated = All-update Populated id gen f ws p v.populated;
  }

drop-KeepsKey : KeepsKey drop_member
unfolding drop_member
drop-KeepsKey = record {
  used_before = λ w u. ground arith;
  same_id = λ w u. ground arith;
  same_gen = λ w u. ground arith;
}

drop-Populated : (w : Workflow) → Populated w → Populated (drop_member w)
unfolding drop_member
drop-Populated w h u = ground (arith, h)

All-place {κ} :
    (P : Workflow → Type κ) (new : Workflow) (ws ms : List Workflow)
    → All P ws
    → P new
    → place new ws ≡ some ms
    → All P ms
All-place P new [] ms h pn e = absurd (unfold place in cc)
All-place P new (w ∷ ws) ms h pn e = elim (place-cases new w ws ms e) [
  | inl (u, d) ↦ rw d (pn, h.1)
  | inr (rest, u, r, d) ↦ rw d (h.0, All-place P new ws rest h.1 pn r)
]

-- No slot has the key.
abbrev Absent : ℕ → ℕ → List Workflow → Type 0
Absent id gen = All (λ v. is_workflow id gen v ≡ false)

pub find-none-Absent : (id gen : ℕ) (ws : List Workflow) → find id gen ws ≡ none → Absent id gen ws
unfolding find
find-none-Absent id gen [] h = tt
find-none-Absent id gen (w ∷ ws) h = elim (Bool-cases (is_workflow id gen w)) [
  | inl e ↦ absurd (let h' : some w ≡ none = rw (e, find) at h in cc)
  | inr e ↦ (e, find-none-Absent id gen ws (rw (e, find) at h))
]

pub Absent-find-none : (id gen : ℕ) (ws : List Workflow) → Absent id gen ws → find id gen ws ≡ none
unfolding find
Absent-find-none id gen [] h = refl
Absent-find-none id gen (w ∷ ws) h = rw (h.0, find) (Absent-find-none id gen ws h.1)

other_key :
    (new w : Workflow)
    → new.used ≡ true
    → is_workflow new.workflow_id new.leader_generation w ≡ false
    → Apart w new
unfolding is_workflow
other_key new w n h u = ground arith

Absent-Apart :
    (new : Workflow) (ws : List Workflow)
    → Absent new.workflow_id new.leader_generation ws
    → All (Apart new) ws
Absent-Apart new [] h = tt
Absent-Apart new (w ∷ ws) h = (λ u. h.0, Absent-Apart new ws h.1)

place-Unique :
    (new : Workflow) (ws ms : List Workflow)
    → new.used ≡ true
    → Absent new.workflow_id new.leader_generation ws
    → Unique ws
    → place new ws ≡ some ms
    → Unique ms
place-Unique new [] ms n a h e = absurd (unfold place in cc)
place-Unique new (w ∷ ws) ms n a h e = elim (place-cases new w ws ms e) [
  | inl (u, d) ↦ rw d (Absent-Apart new ws a.1, h.1)
  | inr (rest, u, r, d) ↦ rw d (
    All-place (Apart w) new ws rest h.0 (other_key new w n a.0) r,
    place-Unique new ws rest n a.1 h.1 r,
  )
]

placed-IsValid :
    (p : Proc) (ws : List Workflow)
    → IsValid ws
    → find p.workflow_id p.workflow_leader_generation ws ≡ none
    → (o : Option (List Workflow)) → place (fresh p) ws ≡ o
    → IsValid (placed ws o).1
placed-IsValid p ws v f none e = v
placed-IsValid p ws v f (some ms) e = record {
  unique =
      place-Unique (fresh p) ws ms refl
        (find-none-Absent p.workflow_id p.workflow_leader_generation ws f) v.unique e;
  populated = All-place Populated (fresh p) ws ms v.populated (λ u. (omega arith, inl refl)) e;
}

-- Creating a workflow, or entering an existing one, keeps the table valid.
pub create-IsValid : (p : Proc) (ws : List Workflow) → IsValid ws → IsValid (workflow_create p ws).1
unfolding workflow_create
create-IsValid p ws v = elim (Option-cases (find p.workflow_id p.workflow_leader_generation ws)) [
  | inl e ↦ rw (e, workflow_create) (placed-IsValid p ws v e (place (fresh p) ws) refl)
  | inr (w, e) ↦ elim (Bool-cases (is_terminating w.state)) [
    | inl t ↦ rw (e, workflow_create, t) v
    | inr t ↦
        rw (e, workflow_create, t)
          (update-IsValid (enter p.workflow_leader_pid) keep p.workflow_id
            p.workflow_leader_generation ws (λ w h u. (omega arith, (h u).1)) v)
  ]
]
  where
    keep : KeepsKey (enter p.workflow_leader_pid)
    keep = record { used_before = λ w u. u; same_id = λ w u. refl; same_gen = λ w u. refl }

join-KeepsKey : KeepsKey (λ w. record w { member_count = w.member_count + 1 })
join-KeepsKey = record { used_before = λ w u. u; same_id = λ w u. refl; same_gen = λ w u. refl }

join_found-IsValid :
    (w : Workflow) (p : Proc) (ws : List Workflow) → IsValid ws → IsValid (join_found w p ws).1
join_found-IsValid w p ws v = ground (
  arith,
  update-IsValid _ join-KeepsKey p.workflow_id p.workflow_leader_generation ws
      (λ w h u. (omega arith, (h u).1)) v,
)

-- Joining a workflow keeps the table valid.
pub join-IsValid : (p : Proc) (ws : List Workflow) → IsValid ws → IsValid (workflow_join p ws).1
unfolding workflow_join
join-IsValid p ws v = elim (Bool-cases (no_workflow p)) [
  | inl b ↦ rw b v
  | inr b ↦ elim (Option-cases (find p.workflow_id p.workflow_leader_generation ws)) [
    | inl e ↦ rw (b, e) v
    | inr (w, e) ↦ rw (b, e) (join_found-IsValid w p ws v)
  ]
]

-- The start of a termination keeps the table valid.
pub begin_terminate-IsValid :
    (id gen now : ℕ) (ws : List Workflow) → IsValid ws → IsValid (begin_terminate id gen now ws).1
unfolding begin_terminate
begin_terminate-IsValid id gen now ws v = elim (Option-cases (find id gen ws)) [
  | inl e ↦ rw (e, begin_terminate) v
  | inr (w, e) ↦
      rw (e, begin_terminate)
        (ground (
          arith,
          update-IsValid (λ w. record w { state = wf_terminating; terminate_tick = now }) keep id
              gen ws (λ w h u. ((h u).0, inr refl)) v,
        ))
]
  where
    keep : KeepsKey (λ w. record w { state = wf_terminating; terminate_tick = now })
    keep = record { used_before = λ w u. u; same_id = λ w u. refl; same_gen = λ w u. refl }

-- Leaving a workflow keeps the table valid.
pub leave-IsValid : (p : Proc) (ws : List Workflow) → IsValid ws → IsValid (workflow_leave p ws).1
unfolding workflow_leave
leave-IsValid p ws v = ground (
  arith,
  update-IsValid drop_member drop-KeepsKey p.workflow_id p.workflow_leader_generation ws
      drop-Populated v,
)
