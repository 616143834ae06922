-- ===== src/Sched/Pick.antt =====
-- The choice of scheduler() in kernel/proc.c.
use aaaos_renovation_agent_o.Prelude.{
  ℕ, suc, ◌+◌, ◌≡◌, refl, ap, ◌∙◌, true, false, ◌&&◌, Option, none, some, List, [], ◌∷◌, arith,
  Bool-cases, inl, inr, ◌⊎◌, All, if◌then◌else◌, ℤ, ◌≤ℤ◌, get_elem?, subst,
}
use aaaos_renovation_agent_o.Proc.{Proc, is_runnable}
use aaaos_renovation_agent_o.Sched.{score, pick, beats}

-- The score is at most that of the candidate.
abbrev pub AtMost : ℤ → Option (ℕ × ℤ) → Type 0
AtMost s none = ⊥
AtMost s (some (i, b)) = s ≤ℤ b

-- The candidate after a look at one process
abbrev next : ℕ → ℕ → Option (ℕ × ℤ) → Proc → Option (ℕ × ℤ)
next now i best p =
    if is_runnable p.state && beats (score p now) best then some (i, score p now) else best

next-AtMost :
    (now i : ℕ) (best : Option (ℕ × ℤ)) (p : Proc) (s : ℤ)
    → AtMost s best
    → AtMost s (next now i best p)
next-AtMost now i none p s h = absurd h
next-AtMost now i (some (j, b)) p s h = ground arith

next-seen :
    (now i : ℕ) (best : Option (ℕ × ℤ)) (p : Proc)
    → is_runnable p.state ≡ true
    → AtMost (score p now) (next now i best p)
next-seen now i none p r = rw r (omega arith)
next-seen now i (some (j, b)) p r = rw r (ground arith)

pick-AtMost :
    (now i : ℕ) (best : Option (ℕ × ℤ)) (ps : List Proc) (s : ℤ)
    → AtMost s best
    → AtMost s (pick now i best ps)
unfolding pick
pick-AtMost now i best [] s h = h
pick-AtMost now i best (p ∷ ps) s h =
    pick-AtMost now (i + 1) (next now i best p) ps s (next-AtMost now i best p s h)

pick-max :
    (now i : ℕ) (best : Option (ℕ × ℤ)) (ps : List Proc)
    → All (λ q. is_runnable q.state ≡ true → AtMost (score q now) (pick now i best ps)) ps
unfolding pick
pick-max now i best [] = tt
pick-max now i best (p ∷ ps) = (
  (λ r. pick-AtMost now (i + 1) (next now i best p) ps (score p now) (next-seen now i best p r)),
  pick-max now (i + 1) (next now i best p) ps,
)

-- A runnable process of the table, at that index and with that score
abbrev pub Chosen : ℕ → List Proc → ℕ → ℤ → Type 0
Chosen now ps j s =
    (p : Proc) × (get_elem? ps j ≡ some p) × (is_runnable p.state ≡ true) × (s ≡ score p now)

next-cases :
    (now i : ℕ) (best : Option (ℕ × ℤ)) (p : Proc)
    → (next now i best p ≡ best)
      ⊎ ((is_runnable p.state ≡ true) × (next now i best p ≡ some (i, score p now)))
next-cases now i best p = elim (Bool-cases (is_runnable p.state)) [
  | inr r ↦ inl (rw r refl)
  | inl r ↦ elim (Bool-cases (beats (score p now) best)) [
    | inl b ↦ inr (r, rw (r, b) refl)
    | inr b ↦ inl (rw (r, b) refl)
  ]
]

pick-cases :
    (now i : ℕ) (best : Option (ℕ × ℤ)) (ps : List Proc)
    → (pick now i best ps ≡ best)
      ⊎ ((j : ℕ) × (s : ℤ) × (pick now i best ps ≡ some (i + j, s)) × Chosen now ps j s)
unfolding pick
pick-cases now i best [] = inl refl
pick-cases now i best (p ∷ ps) = elim (pick-cases now (i + 1) (next now i best p) ps) [
  | inr (j, s, e, c) ↦ inr (suc j, s, e ∙ ap (λ n. some (n, s)) (omega arith), c)
  | inl e ↦ elim (next-cases now i best p) [
    | inl d ↦ inl (e ∙ d)
    | inr (r, d) ↦
        let c : Chosen now (p ∷ ps) 0 (score p now) = (p, refl, r, refl) in
        inr (0, score p now, e ∙ d ∙ ap (λ n. some (n, score p now)) (omega arith), c)
  ]
]

-- The scheduler takes a runnable process whose score no runnable process exceeds; it takes none only
-- if no process is runnable, however low the scores are.
pub pick-best :
    (now : ℕ) (procs : List Proc)
    → ((pick now 0 none procs ≡ none) × All (λ q. is_runnable q.state ≡ false) procs)
      ⊎ ((i : ℕ) × (s : ℤ) × (pick now 0 none procs ≡ some (i, s))
          × Chosen now procs i s
          × All (λ q. is_runnable q.state ≡ true → score q now ≤ℤ s) procs)
pick-best now procs = elim (pick-cases now 0 none procs) [
  | inl e ↦ inl (e, idle procs (subst (Bounded procs) e (pick-max now 0 none procs)))
  | inr (j, s, e, c) ↦
      let e' : pick now 0 none procs ≡ some (j, s) = e ∙ ap (λ n. some (n, s)) (omega arith) in
      inr (j, s, e', c, subst (Bounded procs) e' (pick-max now 0 none procs))
]
  where
    Bounded : List Proc → Option (ℕ × ℤ) → Type 0
    Bounded ps o = All (λ q. is_runnable q.state ≡ true → AtMost (score q now) o) ps

    idle : (ps : List Proc) → Bounded ps none → All (λ q. is_runnable q.state ≡ false) ps
    idle [] h = tt
    idle (p ∷ ps) h = (stuck p h.0, idle ps h.1)
      where
        stuck : (p : Proc) → (is_runnable p.state ≡ true → ⊥) → is_runnable p.state ≡ false
        stuck p h = elim (Bool-cases (is_runnable p.state)) [ inl r ↦ absurd (h r) | inr r ↦ r ]
