-- ===== src/Lease.antt =====
-- File edit leases: agent_proc_lease_begin, _commit and _abort, and the two reapers of
-- kernel/agent.c. The table is agent_global.leases. What namei and ilock find for the path is an
-- argument; ticks are 32-bit, so a deadline does not wrap.
pub mod Inv
pub mod Begin
pub mod Commit
use aaaos_renovation_agent_o.Prelude.{
  ℕ, ◌+◌, Bool, true, false, not, ◌&&◌, ◌||◌, Option, none, some, List, [], ◌∷◌, ltb, leb, ◌==◌,
  if◌then◌else◌, u64, has_bit, map,
}
use aaaos_renovation_agent_o.Proc.{
  Status, ok, bad_param, permission, busy, no_space, Proc, Lease, cap_lease_acquire, cap_patch_file,
  lease_expiry_ticks,
}

-- What the path resolves to: the inode's device and number, and `ip->type == T_FILE`.
pub record Inode : Type 0 where
  pub dev : ℕ
  pub inum : ℕ
  pub is_file : Bool

-- A slot after memset
abbrev pub blank : Lease
blank = record {
  used = false;
  dev = 0;
  inum = 0;
  owner_pid = 0;
  owner_generation = 0;
  lease_id = 0;
  base_version = 0;
  expiry_tick = 0;
}

-- agent_global.leases and agent_global.next_lease_id
pub record Leases : Type 0 where
  pub table : List Lease
  pub next_lease_id : ℕ

-- The loop of agent_lease_reap_expired, which agent_proc_lease_begin runs too.
unfoldable pub reap_expired : ℕ → List Lease → List Lease
reap_expired now [] = []
reap_expired now (l ∷ ls) =
    (if l.used && leb l.expiry_tick now then blank else l) ∷ reap_expired now ls

-- agent_lease_reap_pid
unfoldable pub reap_pid : ℕ → List Lease → List Lease
reap_pid pid [] = []
reap_pid pid (l ∷ ls) = (if l.used && l.owner_pid == pid then blank else l) ∷ reap_pid pid ls

-- A live lease of the inode
unfoldable pub holds : ℕ → ℕ → ℕ → Lease → Bool
holds dev inum now l = l.used && l.dev == dev && l.inum == inum && ltb now l.expiry_tick

-- The loop that looks for one
unfoldable pub is_leased : ℕ → ℕ → ℕ → List Lease → Bool
is_leased dev inum now [] = false
is_leased dev inum now (l ∷ ls) = holds dev inum now l || is_leased dev inum now ls

-- The loop for a free slot, and the assignments to it; `none` where every slot is used.
unfoldable pub place : Lease → List Lease → Option (List Lease)
place new [] = none
place new (l ∷ ls) = elim l.used [
  | false ↦ some (new ∷ ls)
  | true ↦ elim (place new ls) [ none ↦ none | some ls' ↦ some (l ∷ ls') ]
]

-- The lease that is written: `base_version` is the constant 0 of the code.
unfoldable pub grant : Proc → Inode → ℕ → ℕ → Lease
grant p ip id now = record {
  used = true;
  dev = ip.dev;
  inum = ip.inum;
  owner_pid = p.pid;
  owner_generation = p.identity_generation;
  lease_id = id;
  base_version = 0;
  expiry_tick = now + lease_expiry_ticks;
}

-- The state after a search for a slot; `++next_lease_id` runs only if there is one.
abbrev pub placed : List Lease → ℕ → Option (List Lease) → Status × Leases
placed reaped id none = (no_space, record { table = reaped; next_lease_id = id })
placed reaped id (some table) = (ok, record { table = table; next_lease_id = u64 (id + 1) })

-- The part under the global lock
unfoldable pub begin_locked : Proc → Inode → ℕ → Leases → Status × Leases
begin_locked p ip now s =
    let reaped = reap_expired now s.table in
    if is_leased ip.dev ip.inum now reaped
    then (busy, record s { table = reaped })
    else placed reaped s.next_lease_id (place (grant p ip (u64 (s.next_lease_id + 1)) now) reaped)

-- agent_proc_lease_begin; on success `*lease_id` is the new `next_lease_id` and `*base_version` 0.
unfoldable pub lease_begin : Proc → Option Inode → ℕ → Leases → Status × Leases
lease_begin p file now s =
    if not (has_bit cap_lease_acquire p.agent_capabilities)
      && not (has_bit cap_patch_file p.agent_capabilities)
    then (permission, s)
    else elim file [
      | none ↦ (bad_param, s)
      | some ip ↦ if ip.is_file then begin_locked p ip now s else (bad_param, s)
    ]

-- `owner_pid` and `owner_generation` are those of `p`.
unfoldable pub is_owner : Proc → Lease → Bool
is_owner p l = l.owner_pid == p.pid && l.owner_generation == p.identity_generation

-- The decision of agent_proc_lease_commit at the slot it found
unfoldable pub commit_slot : Proc → ℕ → Lease → Status × Lease
unfolding is_owner
commit_slot p now l =
    if not (is_owner p l)
    then (permission, l)
    else if leb l.expiry_tick now
    then (bad_param, l)
    else (ok, blank)

-- The slot that a lease id names
unfoldable pub bears : ℕ → Lease → Bool
bears id l = l.used && l.lease_id == id

-- The search of agent_proc_lease_commit for the first used slot with that id, and what is done there.
unfoldable pub commit_table : Proc → ℕ → ℕ → List Lease → Status × List Lease
commit_table p id now [] = (permission, [])
commit_table p id now (l ∷ ls) = elim (bears id l) [
  | true ↦ let (r, l') = commit_slot p now l in (r, l' ∷ ls)
  | false ↦ let (r, ls') = commit_table p id now ls in (r, l ∷ ls')
]

-- agent_proc_lease_commit; the code does not read `expected_version`.
unfoldable pub lease_commit : Proc → ℕ → ℕ → ℕ → Leases → Status × Leases
lease_commit p id expected_version now s =
    let (r, table) = commit_table p id now s.table in (r, record s { table = table })

-- The loop of agent_proc_lease_abort
unfoldable pub abort_table : Proc → ℕ → List Lease → Status × List Lease
abort_table p id [] = (permission, [])
abort_table p id (l ∷ ls) = elim (bears id l && is_owner p l) [
  | true ↦ (ok, blank ∷ ls)
  | false ↦ let (r, ls') = abort_table p id ls in (r, l ∷ ls')
]

-- agent_proc_lease_abort
unfoldable pub lease_abort : Proc → ℕ → Leases → Status × Leases
lease_abort p id s = let (r, table) = abort_table p id s.table in (r, record s { table = table })
