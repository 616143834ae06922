-- ===== src/Lease/Inv.antt =====
-- The lease table between two calls: no inode has two used slots, no id is given twice.
use aaaos_renovation_agent_o.Prelude.{
  ℕ, suc, ◌+◌, ◌^◌, ◌≤◌, ◌<◌, ◌≡◌, refl, Bool, true, false, ◌&&◌, ◌||◌, Option, none, some, List,
  [], ◌∷◌, arith, All, ◌==◌, u64, Bool-cases, inl, inr, Option-cases, ◌⊎◌,
}
use aaaos_renovation_agent_o.Proc.{Proc, Lease}
use aaaos_renovation_agent_o.Lease.{
  Inode, Leases, bears, reap_expired, reap_pid, holds, is_leased, place, grant, begin_locked,
  lease_begin, commit_slot, commit_table, lease_commit, abort_table, lease_abort, placed,
}

-- Two used slots that name one inode, or bear one id.
abbrev pub clash : Lease → Lease → Bool
clash l m = l.used && m.used && (l.dev == m.dev && l.inum == m.inum || l.lease_id == m.lease_id)

-- No slot of the list clashes with a later one.
abbrev pub Exclusive : List Lease → Type 0
Exclusive [] = Unit {0}
Exclusive (l ∷ ls) = All (λ m. clash l m ≡ false) ls × Exclusive ls

-- No id above the last one given.
abbrev pub Given : ℕ → List Lease → Type 0
Given n = All (λ l. l.used ≡ true → l.lease_id ≤ n)

pub record IsValid (s : Leases) : Type 0 where
  pub exclusive : Exclusive s.table
  pub given : Given s.next_lease_id s.table

-- `Shrunk ls ms`: each slot of `ms` is that of `ls`, or unused.
abbrev Shrunk : List Lease → List Lease → Type 0
Shrunk [] [] = Unit {0}
Shrunk [] (m ∷ ms) = ⊥
Shrunk (l ∷ ls) [] = ⊥
Shrunk (l ∷ ls) (m ∷ ms) = ((m ≡ l) ⊎ (m.used ≡ false)) × Shrunk ls ms

clash_shrunk : (l m k : Lease) → clash l m ≡ false → (k ≡ m) ⊎ (k.used ≡ false) → clash l k ≡ false
clash_shrunk l m k h s = ground arith

All-clash-Shrunk :
    (l : Lease) (ls ms : List Lease)
    → All (λ m. clash l m ≡ false) ls
    → Shrunk ls ms
    → All (λ m. clash l m ≡ false) ms
All-clash-Shrunk l [] [] h s = tt
All-clash-Shrunk l [] (m ∷ ms) h s = absurd s
All-clash-Shrunk l (k ∷ ls) [] h s = tt
All-clash-Shrunk l (k ∷ ls) (m ∷ ms) h s =
    (clash_shrunk l k m h.0 s.0, All-clash-Shrunk l ls ms h.1 s.1)

clash-head : (l k m : Lease) → clash l m ≡ false → (k ≡ l) ⊎ (k.used ≡ false) → clash k m ≡ false
clash-head l k m h s = ground arith

All-clash-head :
    (l k : Lease) (ms : List Lease)
    → All (λ m. clash l m ≡ false) ms
    → (k ≡ l) ⊎ (k.used ≡ false)
    → All (λ m. clash k m ≡ false) ms
All-clash-head l k [] h s = tt
All-clash-head l k (m ∷ ms) h s = (clash-head l k m h.0 s, All-clash-head l k ms h.1 s)

Shrunk-Exclusive : (ls ms : List Lease) → Shrunk ls ms → Exclusive ls → Exclusive ms
Shrunk-Exclusive [] [] s h = tt
Shrunk-Exclusive [] (m ∷ ms) s h = absurd s
Shrunk-Exclusive (l ∷ ls) [] s h = tt
Shrunk-Exclusive (l ∷ ls) (m ∷ ms) s h =
    (All-clash-head l m ms (All-clash-Shrunk l ls ms h.0 s.1) s.0, Shrunk-Exclusive ls ms s.1 h.1)

given-head :
    (n : ℕ) (l m : Lease)
    → (l.used ≡ true → l.lease_id ≤ n)
    → (m ≡ l) ⊎ (m.used ≡ false)
    → m.used ≡ true
    → m.lease_id ≤ n
given-head n l m h s u = ground arith

Shrunk-Given : (n : ℕ) (ls ms : List Lease) → Shrunk ls ms → Given n ls → Given n ms
Shrunk-Given n [] [] s h = tt
Shrunk-Given n [] (m ∷ ms) s h = absurd s
Shrunk-Given n (l ∷ ls) [] s h = tt
Shrunk-Given n (l ∷ ls) (m ∷ ms) s h = (given-head n l m h.0 s.0, Shrunk-Given n ls ms s.1 h.1)

Shrunk-refl : (ls : List Lease) → Shrunk ls ls
Shrunk-refl [] = tt
Shrunk-refl (l ∷ ls) = (inl refl, Shrunk-refl ls)

-- Reaping, committing and aborting only free slots.
reap_expired-Shrunk : (now : ℕ) (ls : List Lease) → Shrunk ls (reap_expired now ls)
unfolding reap_expired
reap_expired-Shrunk now [] = tt
reap_expired-Shrunk now (l ∷ ls) = ground (arith, reap_expired-Shrunk now ls)

reap_pid-Shrunk : (pid : ℕ) (ls : List Lease) → Shrunk ls (reap_pid pid ls)
unfolding reap_pid
reap_pid-Shrunk pid [] = tt
reap_pid-Shrunk pid (l ∷ ls) = ground (arith, reap_pid-Shrunk pid ls)

commit_slot-Shrunk :
    (p : Proc) (now : ℕ) (l : Lease)
    → ((commit_slot p now l).1 ≡ l) ⊎ ((commit_slot p now l).1.used ≡ false)
unfolding commit_slot
commit_slot-Shrunk p now l = ground arith

commit_table-Shrunk :
    (p : Proc) (id now : ℕ) (ls : List Lease) → Shrunk ls (commit_table p id now ls).1
unfolding commit_table
commit_table-Shrunk p id now [] = tt
commit_table-Shrunk p id now (l ∷ ls) = elim (Bool-cases (bears id l)) [
  | inl e ↦ rw (e, commit_table) (commit_slot-Shrunk p now l, Shrunk-refl ls)
  | inr e ↦ rw (e, commit_table) (inl refl, commit_table-Shrunk p id now ls)
]

abort_table-Shrunk : (p : Proc) (id : ℕ) (ls : List Lease) → Shrunk ls (abort_table p id ls).1
unfolding abort_table
abort_table-Shrunk p id [] = tt
abort_table-Shrunk p id (l ∷ ls) = ground (arith, abort_table-Shrunk p id ls, Shrunk-refl ls)

pub Shrunk-IsValid :
    (s : Leases) (ms : List Lease)
    → Shrunk s.table ms
    → IsValid s
    → IsValid (record s { table = ms })
Shrunk-IsValid s ms h v = record {
  exclusive = Shrunk-Exclusive s.table ms h v.exclusive;
  given = Shrunk-Given s.next_lease_id s.table ms h v.given;
}

-- After the reaping a used slot is live.
abbrev Live : ℕ → List Lease → Type 0
Live now = All (λ l. l.used ≡ true → now < l.expiry_tick)

reap_expired-Live : (now : ℕ) (ls : List Lease) → Live now (reap_expired now ls)
unfolding reap_expired
reap_expired-Live now [] = tt
reap_expired-Live now (l ∷ ls) = (λ u. ground arith, reap_expired-Live now ls)

-- A new lease clashes with none, if its inode is not leased and its id is above those given.
All-fresh :
    (new : Lease) (now n : ℕ) (ls : List Lease)
    → Live now ls
    → Given n ls
    → n < new.lease_id
    → is_leased new.dev new.inum now ls ≡ false
    → All (λ m. (clash new m ≡ false) × (clash m new ≡ false)) ls
unfolding is_leased holds
All-fresh new now n [] v g h e = tt
All-fresh new now n (l ∷ ls) v g h e = (
  (ground (arith, v.0, g.0), ground (arith, v.0, g.0)),
  All-fresh new now n ls v.1 g.1 h (ground arith),
)

-- The first slot is free and takes the lease, or it is used and stays.
pub place-cases :
    (new l : Lease) (ls ms : List Lease)
    → place new (l ∷ ls) ≡ some ms
    → ((l.used ≡ false) × (ms ≡ new ∷ ls))
      ⊎ ((rest : List Lease) × (place new ls ≡ some rest) × (ms ≡ l ∷ rest))
unfolding place
place-cases new l ls ms e = elim (Bool-cases l.used) [
  | inr u ↦ inl (u, ground (arith, u))
  | inl u ↦ elim (Option-cases (place new ls)) [
    | inl h ↦ absurd (ground (arith, u, h))
    | inr (rest, h) ↦ inr (rest, h, ground (arith, u, h))
  ]
]

-- What holds of every slot and of the lease holds after the lease is written.
pub All-place {κ} :
    (P : Lease → Type κ) (new : Lease) (ls ms : List Lease)
    → All P ls
    → P new
    → place new ls ≡ some ms
    → All P ms
All-place P new [] ms h pn e = absurd (unfold place in cc)
All-place P new (l ∷ ls) ms h pn e = elim (place-cases new l ls ms e) [
  | inl (u, d) ↦ rw d (pn, h.1)
  | inr (rest, r, d) ↦ rw d (h.0, All-place P new ls rest h.1 pn r)
]

-- Writing the new lease into the first free slot keeps the slots exclusive.
place-Exclusive :
    (new : Lease) (ls ms : List Lease)
    → Exclusive ls
    → All (λ m. (clash new m ≡ false) × (clash m new ≡ false)) ls
    → place new ls ≡ some ms
    → Exclusive ms
place-Exclusive new [] ms x f e = absurd (unfold place in cc)
place-Exclusive new (l ∷ ls) ms x f e = elim (place-cases new l ls ms e) [
  | inl (u, d) ↦ rw d (All-first new ls f.1, x.1)
  | inr (rest, r, d) ↦ rw d (
    All-place (λ m. clash l m ≡ false) new ls rest x.0 f.0.1 r,
    place-Exclusive new ls rest x.1 f.1 r,
  )
]
  where
    All-first :
        (new : Lease) (ls : List Lease)
        → All (λ m. (clash new m ≡ false) × (clash m new ≡ false)) ls
        → All (λ m. clash new m ≡ false) ls
    All-first new [] h = tt
    All-first new (l ∷ ls) h = (h.0.0, All-first new ls h.1)

Given-suc : (n : ℕ) (ls : List Lease) → Given n ls → Given (suc n) ls
Given-suc n [] g = tt
Given-suc n (l ∷ ls) g = (λ u. omega (arith, g.0 u), Given-suc n ls g.1)

placed-IsValid :
    (new : Lease) (reaped : List Lease) (n now : ℕ)
    → n + 1 < 2 ^ 64
    → new.lease_id ≡ u64 (n + 1)
    → Live now reaped
    → is_leased new.dev new.inum now reaped ≡ false
    → IsValid (record { table = reaped; next_lease_id = n })
    → (o : Option (List Lease)) → place new reaped ≡ o
    → IsValid (placed reaped n o).1
placed-IsValid new reaped n now b i l f v none e = v
placed-IsValid new reaped n now b i l f v (some ms) e =
    let fresh = All-fresh new now n reaped l v.given (omega arith) f in
    let next : u64 (n + 1) ≡ suc n = omega arith in
    rw next (record {
      exclusive = place-Exclusive new reaped ms v.exclusive fresh e;
      given =
          All-place (λ m. m.used ≡ true → m.lease_id ≤ suc n) new reaped ms
            (Given-suc n reaped v.given) (λ u. omega arith) e;
    })

reaped-IsValid :
    (s : Leases) (now : ℕ) → IsValid s → IsValid (record s { table = reap_expired now s.table })
reaped-IsValid s now v = Shrunk-IsValid s _ (reap_expired-Shrunk now s.table) v

begin_locked-IsValid :
    (p : Proc) (ip : Inode) (now : ℕ) (s : Leases)
    → s.next_lease_id + 1 < 2 ^ 64
    → IsValid s
    → IsValid (begin_locked p ip now s).1
unfolding begin_locked
begin_locked-IsValid p ip now s b v =
    elim (Bool-cases (is_leased ip.dev ip.inum now (reap_expired now s.table))) [
      | inl e ↦ rw e (reaped-IsValid s now v)
      | inr e ↦ rw e (
          placed-IsValid (grant p ip (u64 (s.next_lease_id + 1)) now) (reap_expired now s.table)
            s.next_lease_id now b (unfold grant in refl) (reap_expired-Live now s.table)
            (unfold grant in e) (reaped-IsValid s now v) _ refl)
    ]

-- The calls on the table: by Agents, by the exit of a process, and by the clock.
pub data Call : Type 0 where
  begins : Proc → Option Inode → Call
  commits : Proc → ℕ → ℕ → Call
  aborts : Proc → ℕ → Call
  exits : ℕ → Call
  ticks : Call

unfoldable pub step : ℕ → Call → Leases → Leases
step now (begins p file) s = (lease_begin p file now s).1
step now (commits p id expected_version) s = (lease_commit p id expected_version now s).1
step now (aborts p id) s = (lease_abort p id s).1
step now (exits pid) s = record s { table = reap_pid pid s.table }
step now ticks s = record s { table = reap_expired now s.table }

begin-IsValid :
    (p : Proc) (file : Option Inode) (now : ℕ) (s : Leases)
    → s.next_lease_id + 1 < 2 ^ 64
    → IsValid s
    → IsValid (lease_begin p file now s).1
unfolding lease_begin
begin-IsValid p none now s b v = ground arith
begin-IsValid p (some ip) now s b v = ground (arith, begin_locked-IsValid p ip now s b v)

-- Every call, at any time, keeps the table without two used slots for one inode and without an id
-- given twice, as long as the 64-bit counter of ids is not exhausted.
pub step-IsValid :
    (now : ℕ) (c : Call) (s : Leases)
    → s.next_lease_id + 1 < 2 ^ 64
    → IsValid s
    → IsValid (step now c s)
unfolding step lease_commit lease_abort
step-IsValid now (begins p file) s b v = begin-IsValid p file now s b v
step-IsValid now (commits p id _) s b v =
    Shrunk-IsValid s _ (commit_table-Shrunk p id now s.table) v
step-IsValid now (aborts p id) s b v = Shrunk-IsValid s _ (abort_table-Shrunk p id s.table) v
step-IsValid now (exits pid) s b v = Shrunk-IsValid s _ (reap_pid-Shrunk pid s.table) v
step-IsValid now ticks s b v = reaped-IsValid s now v
