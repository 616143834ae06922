-- ===== src/Lease/Begin.antt =====
-- What a lease is good for: while it lives, nobody else takes the file, and no call of another
-- process frees it.
use aaaos_renovation_agent_o.Prelude.{
  ℕ, ◌+◌, ◌<◌, ◌≡◌, ◌≢◌, refl, true, false, ◌&&◌, Option, none, some, List, [], ◌∷◌, arith, u64,
  Bool-cases, inl, inr, ◌⊎◌, has_bit,
}
use aaaos_renovation_agent_o.Proc.{Proc, Lease, ok, busy, cap_lease_acquire}
use aaaos_renovation_agent_o.Lease.{
  Inode, Leases, reap_expired, reap_pid, holds, is_leased, place, grant, begin_locked, lease_begin,
  commit_slot, commit_table, lease_commit, abort_table, lease_abort, is_owner, bears, placed,
}
use aaaos_renovation_agent_o.Lease.Inv.{
  Call, begins, commits, aborts, exits, ticks, step, place-cases,
}

-- The table has the lease in some slot.
abbrev pub Has : Lease → List Lease → Type 0
Has l [] = ⊥
Has l (m ∷ ms) = (m ≡ l) ⊎ Has l ms

module _ (l : Lease) (live : l.used ≡ true) where
  reap_expired-Has :
      (now : ℕ) (ls : List Lease) → now < l.expiry_tick → Has l ls → Has l (reap_expired now ls)
  unfolding reap_expired
  reap_expired-Has now [] t h = h
  reap_expired-Has now (m ∷ ls) t (inl e) = inl (ground arith)
  reap_expired-Has now (m ∷ ls) t (inr h) = inr (reap_expired-Has now ls t h)

  reap_pid-Has :
      (pid : ℕ) (ls : List Lease) → l.owner_pid ≢ pid → Has l ls → Has l (reap_pid pid ls)
  unfolding reap_pid
  reap_pid-Has pid [] t h = h
  reap_pid-Has pid (m ∷ ls) t (inl e) = inl (ground arith)
  reap_pid-Has pid (m ∷ ls) t (inr h) = inr (reap_pid-Has pid ls t h)

  place-Has : (new : Lease) (ls ms : List Lease) → place new ls ≡ some ms → Has l ls → Has l ms
  place-Has new [] ms e h = absurd h
  place-Has new (m ∷ ls) ms e (inl d) = elim (place-cases new m ls ms e) [
    | inl (u, r) ↦ absurd (ground arith)
    | inr (rest, p, r) ↦ rw r (inl d)
  ]
  place-Has new (m ∷ ls) ms e (inr h) = elim (place-cases new m ls ms e) [
    | inl (u, r) ↦ rw r (inr h)
    | inr (rest, p, r) ↦ rw r (inr (place-Has new ls rest p h))
  ]

  commit_slot-keeps : (p : Proc) (now : ℕ) → is_owner p l ≡ false → (commit_slot p now l).1 ≡ l
  unfolding commit_slot
  commit_slot-keeps p now h = ground arith

  commit_table-Has :
      (p : Proc) (id now : ℕ) (ls : List Lease)
      → is_owner p l ≡ false
      → Has l ls
      → Has l (commit_table p id now ls).1
  unfolding commit_table
  commit_table-Has p id now [] o h = h
  commit_table-Has p id now (m ∷ ls) o (inl e) = elim (Bool-cases (bears id m)) [
    | inl b ↦ rw (b, commit_table) (inl (rw e (commit_slot-keeps p now o)))
    | inr b ↦ rw (b, commit_table) (inl e)
  ]
  commit_table-Has p id now (m ∷ ls) o (inr h) = elim (Bool-cases (bears id m)) [
    | inl b ↦ rw (b, commit_table) (inr h)
    | inr b ↦ rw (b, commit_table) (inr (commit_table-Has p id now ls o h))
  ]

  not_mine :
      (p : Proc) (id : ℕ) (m : Lease)
      → is_owner p l ≡ false
      → m ≡ l
      → (bears id m && is_owner p m) ≡ false
  not_mine p id m o e = rw (e, o) (ground arith)

  abort_table-Has :
      (p : Proc) (id : ℕ) (ls : List Lease)
      → is_owner p l ≡ false
      → Has l ls
      → Has l (abort_table p id ls).1
  unfolding abort_table
  abort_table-Has p id [] o h = h
  abort_table-Has p id (m ∷ ls) o (inl e) = rw (not_mine p id m o e, abort_table) (inl e)
  abort_table-Has p id (m ∷ ls) o (inr h) = ground (arith, abort_table-Has p id ls o h)

  placed-Has :
      (reaped : List Lease) (id : ℕ) (new : Lease) (o : Option (List Lease))
      → place new reaped ≡ o
      → Has l reaped
      → Has l (placed reaped id o).1.table
  placed-Has reaped id new none e h = h
  placed-Has reaped id new (some ms) e h = place-Has new reaped ms e h

  begin-Has :
      (p : Proc) (file : Option Inode) (now : ℕ) (s : Leases)
      → now < l.expiry_tick
      → Has l s.table
      → Has l (lease_begin p file now s).1.table
  unfolding lease_begin begin_locked
  begin-Has p none now s t h = ground arith
  begin-Has p (some ip) now s t h =
      let kept = reap_expired-Has now s.table t h in
      let new = grant p ip (u64 (s.next_lease_id + 1)) now in
      ground (
        arith,
        kept,
        placed-Has (reap_expired now s.table) s.next_lease_id new
            (place new (reap_expired now s.table)) refl kept,
      )

-- The calls that may free the lease: its owner's commit and abort, and the exit of its owner's pid.
abbrev pub Spares : Lease → Call → Type 0
Spares l (begins p file) = Unit {0}
Spares l (commits p id expected_version) = is_owner p l ≡ false
Spares l (aborts p id) = is_owner p l ≡ false
Spares l (exits pid) = l.owner_pid ≢ pid
Spares l ticks = Unit {0}

-- Before it expires, a lease stays in the table through every call that is not its owner's commit or
-- abort, or its owner's exit.
pub step-keeps :
    (l : Lease) (now : ℕ) (c : Call) (s : Leases)
    → l.used ≡ true
    → now < l.expiry_tick
    → Spares l c
    → Has l s.table
    → Has l (step now c s).table
unfolding step lease_commit lease_abort
step-keeps l now (begins p file) s u t o h = begin-Has l u p file now s t h
step-keeps l now (commits p id _) s u t o h = commit_table-Has l u p id now s.table o h
step-keeps l now (aborts p id) s u t o h = abort_table-Has l u p id s.table o h
step-keeps l now (exits pid) s u t o h = reap_pid-Has l u pid s.table o h
step-keeps l now ticks s u t o h = reap_expired-Has l u now s.table t h

leased :
    (l : Lease) (now : ℕ) (ls : List Lease)
    → l.used ≡ true
    → now < l.expiry_tick
    → Has l ls
    → is_leased l.dev l.inum now ls ≡ true
unfolding is_leased holds
leased l now [] u t h = absurd h
leased l now (m ∷ ls) u t (inl e) = ground arith
leased l now (m ∷ ls) u t (inr h) = ground (arith, leased l now ls u t h)

pub begin-busy :
    (l : Lease) (q : Proc) (ip : Inode) (now : ℕ) (s : Leases)
    → l.used ≡ true
    → now < l.expiry_tick
    → Has l s.table
    → l.dev ≡ ip.dev
    → l.inum ≡ ip.inum
    → ip.is_file ≡ true
    → has_bit cap_lease_acquire q.agent_capabilities ≡ true
    → (lease_begin q (some ip) now s).0 ≡ busy
unfolding lease_begin begin_locked
begin-busy l q ip now s u t h d i f c =
    ground
      (arith, leased l now (reap_expired now s.table) u t (reap_expired-Has l u now s.table t h))

Has-placed : (new : Lease) (ls ms : List Lease) → place new ls ≡ some ms → Has new ms
Has-placed new [] ms e = absurd (unfold place in cc)
Has-placed new (l ∷ ls) ms e = elim (place-cases new l ls ms e) [
  | inl (u, r) ↦ rw r (inl refl)
  | inr (rest, p, r) ↦ rw r (inr (Has-placed new ls rest p))
]

placed-ok :
    (reaped : List Lease) (id : ℕ) (new : Lease) (o : Option (List Lease))
    → place new reaped ≡ o
    → (placed reaped id o).0 ≡ ok
    → Has new (placed reaped id o).1.table × ((placed reaped id o).1.next_lease_id ≡ u64 (id + 1))
placed-ok reaped id new none e h = absurd (cc)
placed-ok reaped id new (some ms) e h = (Has-placed new reaped ms e, refl)

granted :
    (p : Proc) (ip : Inode) (now : ℕ) (s : Leases)
    → (lease_begin p (some ip) now s).0 ≡ ok
    → let s' = (lease_begin p (some ip) now s).1 in
      Has (grant p ip s'.next_lease_id now) s'.table
      × (is_leased ip.dev ip.inum now (reap_expired now s.table) ≡ false)
      × (ip.is_file ≡ true)
unfolding lease_begin begin_locked
granted p ip now s h =
    let new = grant p ip (u64 (s.next_lease_id + 1)) now in
    ground (
      arith,
      placed-ok (reap_expired now s.table) s.next_lease_id new
          (place new (reap_expired now s.table)) refl,
    )

-- The lease of a file that a process holds with an id, to an end
abbrev pub LeaseOf : Proc → Inode → ℕ → ℕ → Lease → Type 0
LeaseOf p ip id end l =
    (l.used ≡ true)
    × (l.dev ≡ ip.dev)
    × (l.inum ≡ ip.inum)
    × (l.owner_pid ≡ p.pid)
    × (l.owner_generation ≡ p.identity_generation)
    × (l.lease_id ≡ id)
    × (l.expiry_tick ≡ end)

-- A lease_begin that succeeds puts into the table a lease of the file, owned by the caller's pid and
-- generation, with the id that it returns and 200 ticks to live, and the file had no live lease
-- before. On the table that it leaves, a lease_begin on the file by any process with
-- LEASE_ACQUIRE, the caller included, is BUSY for these 200 ticks.
pub begin-grants :
    (p : Proc) (ip : Inode) (now : ℕ) (s : Leases)
    → (lease_begin p (some ip) now s).0 ≡ ok
    → let s' = (lease_begin p (some ip) now s).1 in
      ((l : Lease) × Has l s'.table × LeaseOf p ip s'.next_lease_id (now + 200) l)
      × (is_leased ip.dev ip.inum now (reap_expired now s.table) ≡ false)
      × ((q : Proc) (later : ℕ)
          → later < now + 200
          → has_bit cap_lease_acquire q.agent_capabilities ≡ true
          → (lease_begin q (some ip) later s').0 ≡ busy)
unfolding grant
begin-grants p ip now s h =
    let s' = (lease_begin p (some ip) now s).1 in
    let (g, n, f) = granted p ip now s h in
    let l = grant p ip s'.next_lease_id now in
    (
      (l, g, (refl, refl, refl, refl, refl, refl, refl)),
      n,
      λ q later t c. begin-busy l q ip later s' refl t g refl refl f c,
    )
