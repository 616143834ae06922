-- ===== src/Lease/Commit.antt =====
-- What agent_proc_lease_commit answers, and that an id is good for one commit.
use aaaos_renovation_agent_o.Prelude.{
  ℕ, ◌≡◌, refl, ap, ◌∙◌, true, false, not, List, [], ◌∷◌, arith, All, leb, if◌then◌else◌,
  Bool-cases, inl, inr,
}
use aaaos_renovation_agent_o.Proc.{Proc, Lease, ok, bad_param, permission}
use aaaos_renovation_agent_o.Lease.{
  Leases, commit_slot, commit_table, lease_commit, is_owner, bears,
}
use aaaos_renovation_agent_o.Lease.Inv.{clash, Exclusive, IsValid}
use aaaos_renovation_agent_o.Lease.Begin.{Has}

same_id : (l m : Lease) → l.used ≡ true → bears l.lease_id m ≡ true → clash m l ≡ false → ⊥
unfolding bears
same_id l m u b c = ground arith

Has-All {κ} : (P : Lease → Type κ) (l : Lease) (ls : List Lease) → All P ls → Has l ls → P l
Has-All P l [] h k = absurd k
Has-All P l (m ∷ ls) h (inl e) = rw (← e) h.0
Has-All P l (m ∷ ls) h (inr k) = Has-All P l ls h.1 k

bears_self : (l : Lease) → l.used ≡ true → bears l.lease_id l ≡ true
unfolding bears
bears_self l u = ground arith

-- The search finds the lease that bears the id.
commit_table-finds :
    (p : Proc) (now : ℕ) (l : Lease) (ls : List Lease)
    → l.used ≡ true
    → Exclusive ls
    → Has l ls
    → (commit_table p l.lease_id now ls).0 ≡ (commit_slot p now l).0
unfolding commit_table
commit_table-finds p now l [] u x h = absurd h
commit_table-finds p now l (m ∷ ls) u x (inl e) =
    let b : bears l.lease_id m ≡ true = rw e (bears_self l u) in
    rw (b, commit_table) (ap (λ k. (commit_slot p now k).0) e)
commit_table-finds p now l (m ∷ ls) u x (inr h) = elim (Bool-cases (bears l.lease_id m)) [
  | inl b ↦ absurd (same_id l m u b (Has-All (λ k. clash m k ≡ false) l ls x.0 h))
  | inr b ↦ rw (b, commit_table) (commit_table-finds p now l ls u x.1 h)
]

-- The answer to a commit of a lease in a valid table, whatever version is expected: PERMISSION to
-- a process that is not the owner, BAD_PARAM to the owner from the expiry on, and success before.
pub commit_answer :
    (p : Proc) (l : Lease) (expected_version now : ℕ) (s : Leases)
    → IsValid s
    → l.used ≡ true
    → Has l s.table
    → (lease_commit p l.lease_id expected_version now s).0
      ≡ (if not (is_owner p l) then permission else if leb l.expiry_tick now then bad_param else ok)
unfolding lease_commit commit_slot
commit_answer p l expected_version now s v u h =
    commit_table-finds p now l s.table u v.exclusive h ∙ ground arith

-- No slot bears the id.
abbrev Unborne : ℕ → List Lease → Type 0
Unborne id = All (λ m. bears id m ≡ false)

commit_table-Unborne :
    (p : Proc) (id now : ℕ) (ls : List Lease)
    → Unborne id ls
    → (commit_table p id now ls).0 ≡ permission
unfolding commit_table
commit_table-Unborne p id now [] h = refl
commit_table-Unborne p id now (m ∷ ls) h =
    rw (h.0, commit_table, commit_table-Unborne p id now ls h.1)

bears-clash : (id : ℕ) (m k : Lease) → bears id m ≡ true → clash m k ≡ false → bears id k ≡ false
unfolding bears
bears-clash id m k b c = ground arith

Unborne-rest :
    (id : ℕ) (m : Lease) (ls : List Lease)
    → bears id m ≡ true
    → All (λ k. clash m k ≡ false) ls
    → Unborne id ls
Unborne-rest id m [] b c = tt
Unborne-rest id m (k ∷ ls) b c = (bears-clash id m k b c.0, Unborne-rest id m ls b c.1)

commit_slot-ok :
    (p : Proc) (id now : ℕ) (m : Lease)
    → (commit_slot p now m).0 ≡ ok
    → bears id (commit_slot p now m).1 ≡ false
unfolding commit_slot bears
commit_slot-ok p id now m h = ground arith

commit_table-frees :
    (p : Proc) (id now : ℕ) (ls : List Lease)
    → Exclusive ls
    → (commit_table p id now ls).0 ≡ ok
    → Unborne id (commit_table p id now ls).1
unfolding commit_table
commit_table-frees p id now [] x h = tt
commit_table-frees p id now (m ∷ ls) x h = elim (Bool-cases (bears id m)) [
  | inl b ↦
      let h' : (commit_slot p now m).0 ≡ ok = rw (b, commit_table) at h in
      rw (b, commit_table) (commit_slot-ok p id now m h', Unborne-rest id m ls b x.0)
  | inr b ↦
      let h' : (commit_table p id now ls).0 ≡ ok = rw (b, commit_table) at h in
      rw (b, commit_table) (b, commit_table-frees p id now ls x.1 h')
]

-- A lease id is good for one commit: after a commit that succeeds, every commit of that id, by any
-- process at any time, is refused with PERMISSION.
pub commit_once :
    (p q : Proc) (id version version' now later : ℕ) (s : Leases)
    → IsValid s
    → (lease_commit p id version now s).0 ≡ ok
    → (lease_commit q id version' later (lease_commit p id version now s).1).0 ≡ permission
unfolding lease_commit
commit_once p q id version version' now later s v h =
    commit_table-Unborne q id later _ (commit_table-frees p id now s.table v.exclusive h)
