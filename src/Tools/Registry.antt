-- ===== src/Tools/Registry.antt =====
-- The table of dynamic tools: agent_tool_register, and the exit of an owner.
use aaaos_renovation_agent_o.Prelude.{
  ℕ, ◌≡◌, ◌≢◌, refl, sym, ap, ◌∙◌, Bool, true, false, ◌||◌, Option, none, some, List, [], ◌∷◌,
  if◌then◌else◌, ltb, take, map, has_bit, Bool-cases, Option-cases, inl, inr, ◌⊎◌,
}
use aaaos_renovation_agent_o.Proc.{Proc, ok, is_normal, cap_register_tool}
use aaaos_renovation_agent_o.Params.{streq}
use aaaos_renovation_agent_o.Params.Streq.{streq→eq, streq-sym, streq-other}
use aaaos_renovation_agent_o.Tools.{
  is_used, Runtime, Tool, no_tool, tool_is_builtin, is_named, find_tool, place_tool, new_tool,
  bad_registration, tool_register,
}
use aaaos_renovation_agent_o.Tools.Requests.{owned_by, drop_tool, exit_runtime}

-- A used tool does not bear the name of a builtin one, nor of a later one.
abbrev pub ToolOk : Tool → List Tool → Type 0
ToolOk t ts = t.used ≡ true → (tool_is_builtin t.name ≡ false) × (find_tool t.name ts ≡ none)

abbrev pub ToolsOk : List Tool → Type 0
ToolsOk [] = Unit {0}
ToolsOk (t ∷ ts) = ToolOk t ts × ToolsOk ts

named_unused : (x : List ℕ) (t : Tool) → is_used t ≡ false → is_named x t ≡ false
unfolding is_named is_used
named_unused x t e = rw e refl

named_used : (x : List ℕ) (t : Tool) → t.used ≡ true → is_named x t ≡ streq t.name x
unfolding is_named
named_used x t e = rw e refl

other_name :
    (y x : List ℕ) (t : Tool) → is_named y t ≡ false → is_named x t ≡ true → streq y x ≡ false
unfolding is_named
other_name y x t m l = elim (Bool-cases t.used) [
  | inr e ↦ absurd (let l' : false ≡ true = rw e at l in cc)
  | inl e ↦ streq-other t.name y x (rw e at m) (rw e at l)
]

-- What a placed tool does to the search
find_tool-place_tool :
    (new : Tool) (x : List ℕ) (ts ts' : List Tool)
    → new.used ≡ true
    → find_tool new.name ts ≡ none
    → place_tool new ts ≡ some ts'
    → find_tool x ts' ≡ (if streq new.name x then some new else find_tool x ts)
unfolding find_tool place_tool
find_tool-place_tool new x [] ts' u f h = absurd (cc)
find_tool-place_tool new x (t ∷ ts) ts' u f h = elim (Bool-cases (is_used t)) [
  | inr e ↦
      let b : ts' ≡ new ∷ ts = (let h' = rw e at h in cc) in
      rw (b, named_used x new u, named_unused x t e) refl
  | inl e ↦ elim (Option-cases (place_tool new ts)) [
    | inl n ↦ absurd (let h' : none ≡ some ts' = rw (e, n) at h in cc)
    | inr (us, n) ↦
        let b : ts' ≡ t ∷ us = (let h' = rw (e, n) at h in cc) in
        rw b (elim (Bool-cases (is_named new.name t)) [
          | inl m ↦ absurd (let f' : some t ≡ none = rw m at f in cc)
          | inr m ↦
              let r = find_tool-place_tool new x ts us u (rw m at f) n in
              elim (Bool-cases (is_named x t)) [
                | inr l ↦ rw l r
                | inl l ↦ rw (l, other_name new.name x t m l) refl
              ]
        ])
  ]
]

place_tool-ToolsOk :
    (new : Tool) (ts ts' : List Tool)
    → new.used ≡ true
    → tool_is_builtin new.name ≡ false
    → find_tool new.name ts ≡ none
    → ToolsOk ts
    → place_tool new ts ≡ some ts'
    → ToolsOk ts'
unfolding place_tool find_tool
place_tool-ToolsOk new [] ts' u b f k h = absurd (cc)
place_tool-ToolsOk new (t ∷ ts) ts' u b f k h = elim (Bool-cases (is_used t)) [
  | inr e ↦
      let y : ts' ≡ new ∷ ts = (let h' = rw e at h in cc) in
      let f' : find_tool new.name ts ≡ none = rw (named_unused new.name t e) at f in
      rw y ((λ v. (b, f')), k.1)
  | inl e ↦ elim (Option-cases (place_tool new ts)) [
    | inl n ↦ absurd (let h' : none ≡ some ts' = rw (e, n) at h in cc)
    | inr (us, n) ↦
        let y : ts' ≡ t ∷ us = (let h' = rw (e, n) at h in cc) in
        rw y (elim (Bool-cases (is_named new.name t)) [
          | inl m ↦ absurd (let f' : some t ≡ none = rw m at f in cc)
          | inr m ↦
              let f' : find_tool new.name ts ≡ none = rw m at f in
              (
                λ v. (
                  (k.0 v).0,
                  find_tool-place_tool new t.name ts us u f' n
                      ∙ rw (streq-sym new.name t.name ∙ sym (named_used new.name t v) ∙ m)
                          (k.0 v).1,
                ),
                place_tool-ToolsOk new ts us u b f' k.1 n,
              )
        ])
  ]
]

or-left : (a b : Bool) → (a || b) ≡ false → a ≡ false
or-left true b h = h
or-left false b h = refl

registration_name :
    (name : List ℕ) (flags : ℕ) → bad_registration name flags ≡ false → tool_is_builtin name ≡ false
unfolding bad_registration
registration_name [] flags h = absurd (cc)
registration_name (c ∷ cs) flags h = or-left (tool_is_builtin (c ∷ cs)) (ltb 1 flags) h

-- A registration under a name of at most 31 bytes keeps the names of the tools distinct and apart from
-- the builtin ones. If it succeeds, the name, which no tool had, is found as the caller's tool and all
-- other names as before; else the table stays.
pub tool_register-ToolsOk :
    (p : Proc) (name : List ℕ) (flags : ℕ) (tools : List Tool)
    → take 31 name ≡ name
    → ToolsOk tools
    → let r = tool_register p name flags tools in
      ToolsOk r.1
      × ((r.0 ≡ ok)
            × (find_tool name tools ≡ none)
            × ((x : List ℕ)
                → find_tool x r.1
                  ≡ (if streq name x then some (new_tool p name flags) else find_tool x tools))
          ⊎ (r.0 ≢ ok) × (r.1 ≡ tools))
unfolding tool_register
tool_register-ToolsOk p name flags tools l k = elim (Bool-cases (is_normal p)) [
  | inl a ↦ rw a (k, inr ((λ e. absurd (cc)), refl))
  | inr a ↦ elim (Bool-cases (has_bit cap_register_tool p.ident.agent_capabilities)) [
    | inr c ↦ rw (a, c) (k, inr ((λ e. absurd (cc)), refl))
    | inl c ↦ elim (Bool-cases (bad_registration name flags)) [
      | inl b ↦ rw (a, c, b) (k, inr ((λ e. absurd (cc)), refl))
      | inr b ↦ elim (Option-cases (find_tool name tools)) [
        | inr (t, f) ↦ rw (a, c, b, tool_register, f) (k, inr ((λ e. absurd (cc)), refl))
        | inl f ↦ elim (Option-cases (place_tool (new_tool p name flags) tools)) [
          | inl n ↦ rw (a, c, b, tool_register, f, n) (k, inr ((λ e. absurd (cc)), refl))
          | inr (ts, n) ↦
              let new : Tool = new_tool p name flags in
              let f' : find_tool new.name tools ≡ none = ap (λ x. find_tool x tools) l ∙ f in
              rw (a, c, b, tool_register, f, n)
                (
                  place_tool-ToolsOk new tools ts refl
                      (ap tool_is_builtin l ∙ registration_name name flags b) f' k n,
                  inl (
                    refl,
                    refl,
                    λ x.
                        find_tool-place_tool new x tools ts refl f' n
                        ∙ ap (λ y. if streq y x then some new else find_tool x tools) l,
                  ),
                )
        ]
      ]
    ]
  ]
]

-- What of a found tool stays when the process exits
abbrev pub kept : ℕ → Option Tool → Option Tool
kept pid none = none
kept pid (some t) = if owned_by pid t then none else some t

owned_used : (pid : ℕ) (t : Tool) → owned_by pid t ≡ true → t.used ≡ true
unfolding owned_by
owned_used pid t e = elim (Bool-cases t.used) [
  | inl u ↦ u
  | inr u ↦ absurd (let e' : false ≡ true = rw u at e in cc)
]

no_tool_named : (x : List ℕ) → is_named x no_tool ≡ false
unfolding is_named
no_tool_named x = refl

find_tool-drop_tool :
    (pid : ℕ) (x : List ℕ) (ts : List Tool)
    → ToolsOk ts
    → find_tool x (map (drop_tool pid) ts) ≡ kept pid (find_tool x ts)
unfolding find_tool drop_tool
find_tool-drop_tool pid x [] k = refl
find_tool-drop_tool pid x (t ∷ ts) k =
    let r = find_tool-drop_tool pid x ts k.1 in
    elim (Bool-cases (owned_by pid t)) [
      | inr o ↦ rw o (elim (Bool-cases (is_named x t)) [ inl m ↦ rw (m, o) refl | inr m ↦ rw m r ])
      | inl o ↦
          rw (o, no_tool_named x)
            (r ∙ (elim (Bool-cases (is_named x t)) [
              | inr m ↦ rw m refl
              | inl m ↦
                  let u : t.used ≡ true = owned_used pid t o in
                  let y : t.name ≡ x = streq→eq t.name x (sym (named_used x t u) ∙ m) in
                  let n : find_tool x ts ≡ none = ap (λ z. find_tool z ts) (sym y) ∙ (k.0 u).1 in
                  rw (m, n, o) refl
            ]))
    ]

drop_tool-ToolsOk : (pid : ℕ) (ts : List Tool) → ToolsOk ts → ToolsOk (map (drop_tool pid) ts)
unfolding drop_tool
drop_tool-ToolsOk pid [] k = tt
drop_tool-ToolsOk pid (t ∷ ts) k = elim (Bool-cases (owned_by pid t)) [
  | inl o ↦ rw o ((λ v. absurd (cc)), drop_tool-ToolsOk pid ts k.1)
  | inr o ↦ rw o (
    λ v. ((k.0 v).0, find_tool-drop_tool pid t.name ts k.1 ∙ ap (kept pid) (k.0 v).1),
    drop_tool-ToolsOk pid ts k.1,
  )
]

-- The exit of a process keeps the names of the tools distinct, takes all of its own tools away and
-- leaves every other tool to be found.
pub exit_runtime-ToolsOk :
    (pid : ℕ) (rt : Runtime)
    → ToolsOk rt.tools
    → ToolsOk (exit_runtime pid rt).tools
      × ((x : List ℕ) → find_tool x (exit_runtime pid rt).tools ≡ kept pid (find_tool x rt.tools))
unfolding exit_runtime
exit_runtime-ToolsOk pid rt k =
    (drop_tool-ToolsOk pid rt.tools k, λ x. find_tool-drop_tool pid x rt.tools k)
