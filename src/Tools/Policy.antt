-- ===== src/Tools/Policy.antt =====
-- The two lists of the builtin tools in kernel/agent_tool.c, builtin_policies and tool_is_builtin.
use aaaos_renovation_agent_o.Prelude.{
  ℕ, ◌≡◌, refl, sym, ap, ◌∙◌, Bool, true, false, ◌||◌, Option, none, some, List, [], ◌∷◌,
  if◌then◌else◌,
}
use aaaos_renovation_agent_o.Params.{streq}
use aaaos_renovation_agent_o.Params.Streq.{streq-sym}
use aaaos_renovation_agent_o.Tools.{policy_of, builtin_policies, tool_is_builtin}

abbrev pub is_some : Option ℕ → Bool
is_some none = false
is_some (some n) = true

abbrev any_name : Bool → List ℕ → List (List ℕ × ℕ) → Bool
any_name b name [] = b
any_name b name ((n, cap) ∷ ps) = any_name (b || streq name n) name ps

some_if :
    (a b : Bool) (cap : ℕ) (o : Option ℕ)
    → ((a || b) || is_some o) ≡ (a || is_some (if b then some cap else o))
some_if true b cap o = refl
some_if false true cap o = refl
some_if false false cap o = refl

or-false : (b : Bool) → b ≡ (b || false)
or-false true = refl
or-false false = refl

any_name-policy_of :
    (b : Bool) (name : List ℕ) (ps : List (List ℕ × ℕ))
    → any_name b name ps ≡ (b || is_some (policy_of name ps))
unfolding policy_of
any_name-policy_of b name [] = or-false b
any_name-policy_of b name ((n, cap) ∷ ps) =
    any_name-policy_of (b || streq name n) name ps
    ∙ some_if b (streq name n) cap (policy_of name ps)
    ∙ ap (λ c. b || is_some (if c then some cap else policy_of name ps)) (streq-sym name n)

-- A name has a policy exactly if it is a builtin tool's: the permission check and the registration of
-- tools agree on what is builtin.
pub policy_of-tool_is_builtin :
    (name : List ℕ) → is_some (policy_of name builtin_policies) ≡ tool_is_builtin name
unfolding tool_is_builtin
policy_of-tool_is_builtin name = sym (any_name-policy_of false name builtin_policies)
