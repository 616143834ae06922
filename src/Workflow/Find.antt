-- ===== src/Workflow/Find.antt =====
-- The laws of the search of the workflow table after an update and after a new entry.
use mathlib.Core.Option
use aaaos_renovation_agent_o.Prelude.{
  ℕ, ◌≡◌, refl, true, false, ◌&&◌, none, some, List, [], ◌∷◌, arith, Bool-cases, inl, inr, ◌⊎◌,
  Option-cases, ◌==◌,
}
use aaaos_renovation_agent_o.Proc.{Workflow}
use aaaos_renovation_agent_o.Workflow.{is_workflow, find, update, place}

-- An update that keeps the key is seen by a search for it.
pub find-update_self :
    (id gen : ℕ) (f : Workflow → Workflow) (ws : List Workflow)
    → ((w : Workflow) → is_workflow id gen w ≡ true → is_workflow id gen (f w) ≡ true)
    → find id gen (update id gen f ws) ≡ Option.map f (find id gen ws)
unfolding find update
find-update_self id gen f [] k = refl
find-update_self id gen f (w ∷ ws) k = elim (Bool-cases (is_workflow id gen w)) [
  | inl e ↦ rw (e, find, update, k w e) refl
  | inr e ↦ rw (e, find, update, e) (find-update_self id gen f ws k)
]

-- A workflow has one key.
pub one_key :
    (id gen id' gen' : ℕ) (w : Workflow)
    → ((id == id') && (gen == gen')) ≡ false
    → is_workflow id gen w ≡ true
    → is_workflow id' gen' w ≡ false
unfolding is_workflow
one_key id gen id' gen' w ne h = ground arith

-- An update at one key is not seen by a search for another.
pub find-update_ne :
    (id gen id' gen' : ℕ) (f : Workflow → Workflow) (ws : List Workflow)
    → ((id == id') && (gen == gen')) ≡ false
    → ((w : Workflow) → is_workflow id gen w ≡ true → is_workflow id' gen' (f w) ≡ false)
    → find id' gen' (update id gen f ws) ≡ find id' gen' ws
unfolding find update
find-update_ne id gen id' gen' f [] ne k = refl
find-update_ne id gen id' gen' f (w ∷ ws) ne k = elim (Bool-cases (is_workflow id gen w)) [
  | inl e ↦ rw (e, find, update, k w e, one_key id gen id' gen' w ne e) refl
  | inr e ↦ rw (e, update) (same (find-update_ne id gen id' gen' f ws ne k))
]
  where
    same :
        find id' gen' (update id gen f ws) ≡ find id' gen' ws
        → find id' gen' (w ∷ update id gen f ws) ≡ find id' gen' (w ∷ ws)
    same ih = elim (Bool-cases (is_workflow id' gen' w)) [
      | inl d ↦ rw (d, find) refl
      | inr d ↦ rw (d, find) ih
    ]

-- A found workflow has the key that was searched.
pub find_key :
    (id gen : ℕ) (ws : List Workflow) (w : Workflow)
    → find id gen ws ≡ some w
    → is_workflow id gen w ≡ true
unfolding find
find_key id gen [] w h = absurd (cc)
find_key id gen (v ∷ ws) w h = elim (Bool-cases (is_workflow id gen v)) [
  | inl e ↦ let h' : some v ≡ some w = rw (e, find) at h in let d : v ≡ w = cc in rw (← d) e
  | inr e ↦ find_key id gen ws w (rw (e, find) at h)
]

-- The slot that takes a new entry was free; the others stay.
pub place-cases :
    (new w : Workflow) (ws ms : List Workflow)
    → place new (w ∷ ws) ≡ some ms
    → ((w.used ≡ false) × (ms ≡ new ∷ ws))
      ⊎ ((rest : List Workflow) × (w.used ≡ true) × (place new ws ≡ some rest) × (ms ≡ w ∷ rest))
unfolding place
place-cases new w ws ms e = elim (Bool-cases w.used) [
  | inr u ↦ inl (u, ground (arith, u))
  | inl u ↦ elim (Option-cases (place new ws)) [
    | inl h ↦ absurd (ground (arith, u, h))
    | inr (rest, h) ↦ inr (rest, u, h, ground (arith, u, h))
  ]
]

unused_key : (id gen : ℕ) (w : Workflow) → w.used ≡ false → is_workflow id gen w ≡ false
unfolding is_workflow
unused_key id gen w u = ground arith

-- A new entry is found under its key.
pub find-place_self :
    (id gen : ℕ) (new : Workflow) (ws ms : List Workflow)
    → is_workflow id gen new ≡ true
    → find id gen ws ≡ none
    → place new ws ≡ some ms
    → find id gen ms ≡ some new
unfolding find
find-place_self id gen new [] ms k h e = absurd (unfold place in cc)
find-place_self id gen new (w ∷ ws) ms k h e = elim (place-cases new w ws ms e) [
  | inl (u, d) ↦ rw (d, find, k) refl
  | inr (rest, u, r, d) ↦ elim (Bool-cases (is_workflow id gen w)) [
    | inl f ↦ absurd (let h' : some w ≡ none = rw (f, find) at h in cc)
    | inr f ↦ rw (d, find, f) (find-place_self id gen new ws rest k (rw (f, find) at h) r)
  ]
]

-- A search for another key does not see it.
pub find-place_ne :
    (id gen : ℕ) (new : Workflow) (ws ms : List Workflow)
    → is_workflow id gen new ≡ false
    → place new ws ≡ some ms
    → find id gen ms ≡ find id gen ws
unfolding find
find-place_ne id gen new [] ms k e = absurd (unfold place in cc)
find-place_ne id gen new (w ∷ ws) ms k e = elim (place-cases new w ws ms e) [
  | inl (u, d) ↦ rw (d, find, k, unused_key id gen w u) refl
  | inr (rest, u, r, d) ↦ elim (Bool-cases (is_workflow id gen w)) [
    | inl f ↦ rw (d, find, f) refl
    | inr f ↦ rw (d, find, f) (find-place_ne id gen new ws rest k r)
  ]
]

-- A search stops at the first slot with the key, and passes any other.
pub find-hit :
    (id gen : ℕ) (w : Workflow) (ws : List Workflow)
    → is_workflow id gen w ≡ true
    → find id gen (w ∷ ws) ≡ some w
unfolding find
find-hit id gen w ws h = rw (h, find) refl
