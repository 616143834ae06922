-- ===== src/Tests/Agents.antt =====
-- Rights, scheduling, Contexts and file versions of the test system.
use aaaos_renovation_agent_o.Lifecycle.{empty_context}
use aaaos_renovation_agent_o.Digest.{digest_push, digest_verify, verify_all}
use aaaos_renovation_agent_o.Digest.Ring.{RingOk, digest_push-RingOk}
use aaaos_renovation_agent_o.Text.{codes}
use aaaos_renovation_agent_o.Prelude.{
  ℕ, ◌<◌, ◌^◌, ◌≡◌, ◌⊎◌, refl, true, false, none, some, List, [], ◌∷◌, ℤ, ◌≤ℤ◌, pos, arith, All,
  replicate,
}
use aaaos_renovation_agent_o.Proc.{Proc, Context, Dep, is_runnable}
use aaaos_renovation_agent_o.Tests.{plain, leader, worker, teams}
use aaaos_renovation_agent_o.Rights.Monotone.{Within}
use aaaos_renovation_agent_o.Lifecycle.Requests.{
  Own, Request, wants_caps, wants_role, creates, request, requests, Keeps, Fresh, requests-Within,
}
use aaaos_renovation_agent_o.Sched.{pick, score}
use aaaos_renovation_agent_o.Sched.Pick.{Chosen, pick-best}
use aaaos_renovation_agent_o.Sched.Budget.{InRange, sets, step, step-InRange}
use aaaos_renovation_agent_o.Region.{Region, zero_header, path_capacity}
use aaaos_renovation_agent_o.Text.{Node}
use aaaos_renovation_agent_o.Context.{
  push_node, context_validate, find_dep, wanted_sequence, dep_valid, dep_stale, dep_deleted,
}
use aaaos_renovation_agent_o.Context.Push.{Answers, push_node-Answers}
use aaaos_renovation_agent_o.Context.Validate.{validate-change}
use aaaos_renovation_agent_o.Versions.{
  Entry, lookup, is_entry, version_get, version_bump, version_remove,
}
use aaaos_renovation_agent_o.Versions.Full.{
  Change, gets, bumps, removes, changes, FullWithout, changes-full_version,
}

abbrev region : Region
region = record { mapped = true; header = zero_header; path = replicate 200 0 }

abbrev wishes : List Request
wishes = wants_caps 16 ∷ wants_role (pos 2) ∷ wants_caps 2047 ∷ []

abbrev asking : Own
asking = record { proc = leader; region = region; ids = 7; workflows = teams }

requests-Within_example :
    (leader.agent_role_locked ≡ true
      → leader.agent_capabilities < 2 ^ 64
      → All Keeps wishes
      → Within (requests asking wishes).proc.agent_capabilities leader.agent_capabilities
        × ((requests asking wishes).proc.agent_role ≡ leader.agent_role))
    × ((type interval : ℤ) (quota now : ℕ)
        → Fresh type (request (requests asking wishes) (creates type interval quota now)).proc)
requests-Within_example = requests-Within wishes asking

abbrev procs : List Proc
procs = leader ∷ worker ∷ plain ∷ []

pick-best_example :
    ((pick 90 0 none procs ≡ none) × All (λ q. is_runnable q.state ≡ false) procs)
    ⊎ ((i : ℕ) × (s : ℤ) × (pick 90 0 none procs ≡ some (i, s))
        × Chosen 90 procs i s
        × All (λ q. is_runnable q.state ≡ true → score q 90 ≤ℤ s) procs)
pick-best_example = pick-best 90 procs

step-InRange_example : InRange (step 90 (sets (pos 7) (pos 3)) worker)
step-InRange_example = step-InRange 90 (sets (pos 7) (pos 3)) worker (record {
  budget = omega arith;
  quota = omega arith;
  low = omega arith;
  high = omega arith;
  priority = omega arith;
})

abbrev node : Node
node = record {
  timestamp_ms = 9;
  request_id = 12;
  span_id = 1;
  cause_sequence = 0;
  status = pos 0;
  request = 97 ∷ [];
  result = 98 ∷ [];
}

push_node-Answers_example :
    Answers (path_capacity leader.ctx 200) (push_node leader.ctx 200 region node 90)
push_node-Answers_example = push_node-Answers leader.ctx 200 region node 90

-- The version table of two files
abbrev seven : Entry
seven = record { used = true; dev = 1; inum = 7; version = 3; deleted = false }

abbrev eight : Entry
eight = record { used = true; dev = 1; inum = 8; version = 1; deleted = false }

abbrev versions : List Entry
versions = eight ∷ seven ∷ []

-- A node that read the first file at its present version
abbrev read : Dep
read = record { used = true; sequence = 5; dev = 1; inum = 7; version = 3 }

abbrev used_context : Context
used_context = record leader.ctx { node_count = 1; deps = read ∷ [] }

validate-change_example :
    ((context_validate used_context 5 versions).0.state ≡ dep_valid)
    × ((context_validate used_context 5 ((version_bump 1 7 versions).1)).0.state ≡ dep_stale)
    × ((context_validate used_context 5 (version_remove 1 7 versions)).0.state ≡ dep_deleted)
unfolding find_dep wanted_sequence lookup is_entry
validate-change_example =
    validate-change used_context 5 read versions seven refl refl refl refl refl (omega arith)
      (omega arith)

abbrev some_changes : List Change
some_changes = bumps 1 9 ∷ removes 1 7 ∷ removes 1 9 ∷ gets 1 8 ∷ []

changes-full_version_example :
    ((version_get 1 9 (changes some_changes versions)).0 ≡ 0)
    × ((version_bump 1 9 (changes some_changes versions)).0 ≡ 0)
    × FullWithout 1 9 (changes some_changes versions)
changes-full_version_example =
    changes-full_version 1 9 some_changes versions ((refl, refl), ((refl, refl), tt))

-- Two nodes, of 40 and of 50 bytes
abbrev two_nodes : Context
two_nodes = record leader.ctx {
  node_count = 2;
  path_len = 90;
  offsets = 0 ∷ 40 ∷ [];
  lengths = 40 ∷ 50 ∷ [];
}

plain-RingOk : RingOk plain.ctx
unfolding digest_verify verify_all empty_context
plain-RingOk = (refl, omega arith, omega arith, refl)

digest_push-RingOk_example :
    RingOk (digest_push plain.ctx 1 0 (codes "read_file") (codes "ok") (pos 0))
unfolding empty_context
digest_push-RingOk_example =
    digest_push-RingOk plain.ctx 1 0 (codes "read_file") (codes "ok") (pos 0) plain-RingOk
      (λ n. absurd (n refl))
