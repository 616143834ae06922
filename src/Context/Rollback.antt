-- ===== src/Context/Rollback.antt =====
-- agent_context_rollback on its branches.
use aaaos_renovation_agent_o.Prelude.{
  ◌-◌, get_or, ℕ, ◌+◌, ◌%◌, ◌≡◌, Bool, true, false, not, ◌||◌, ◌==◌,
}
use aaaos_renovation_agent_o.Proc.{Context, LoopState, loop_rolled_back}
use aaaos_renovation_agent_o.Digest.{digest_verify}
use aaaos_renovation_agent_o.Region.{Region}

-- The region is there, so the header can be written.
abbrev pub Writable : Context → Region → Type 0
Writable c r = (c.region_start == 0 || not r.mapped) ≡ false

-- What a roll back leaves
abbrev pub RolledBack : Context → Region → ℕ → Bool × Context × LoopState × Region → Type 0
RolledBack c r keep (good, c', loop', r') =
    (good ≡ true)
    × (loop' ≡ loop_rolled_back)
    × (c'.node_count ≡ keep)
    × (r'.header.node_count ≡ keep)
    × (r'.header.path_length ≡ get_or c.offsets (keep - 1) 0 + get_or c.lengths (keep - 1) 0)
    × (r'.header.generation % 2 ≡ 0)
    × (r'.path ≡ r.path)
    × (digest_verify c' ≡ true)
