-- ===== src/Digest/Ring.antt =====
-- The digest ring of a Context verifies after every push.
use aaaos_renovation_agent_o.Prelude.{
  ℕ, zero, suc, ◌+◌, ◌-◌, ◌%◌, ◌≤◌, ◌<◌, ◌≡◌, ◌≢◌, refl, sym, ap, ap₂, ◌∙◌, true, false, List, [],
  ◌∷◌, ◌++◌, arith, ltb, leb, ◌==◌, if◌then◌else◌, ℤ, u64, length, length-set, get_or, set,
  get_or-set_self, Bool-cases, inl, inr,
}
use aaaos_renovation_agent_o.Proc.{Digest, Context, digest_max}
use aaaos_renovation_agent_o.Digest.{
  blank, last_digest, last_hash, digest_of, digest_push, is_sealed, follows, digest_verify,
}
use aaaos_renovation_agent_o.Digest.Window.{
  window, linked_all, verify_all-linked, window-set, window-snoc, window-mod, last_or, window-last,
  linked_all-snoc, linked_all-tail,
}

-- A ring in which the elements verify
abbrev pub RingOk : Context → Type 0
RingOk c =
    (length c.digests ≡ digest_max)
    × (c.digest_head < digest_max)
    × (c.digest_count ≤ digest_max)
    × (digest_verify c ≡ true)

-- digest_verify, with the place of the first element written without its two cases
verify-window :
    (c : Context)
    → c.digest_head < digest_max
    → c.digest_count ≤ digest_max
    → digest_verify c
      ≡ linked_all (window c.digests (c.digest_head + digest_max - c.digest_count) c.digest_count)
unfolding digest_verify
verify-window c h n =
    let a : ltb digest_max c.digest_count ≡ false = ground arith in
    let b : leb digest_max c.digest_head ≡ false = ground arith in
    rw (a, b)
      (elim (Bool-cases (ltb c.digest_head c.digest_count)) [
        | inl e ↦ rw e (
            verify_all-linked c.digests (c.digest_head + digest_max - c.digest_count)
              c.digest_count)
        | inr e ↦ rw e (
            verify_all-linked c.digests (c.digest_head - c.digest_count) c.digest_count
            ∙ ap linked_all (
                window-mod c.digests (c.digest_head - c.digest_count)
                  (c.digest_head + digest_max - c.digest_count) c.digest_count
                  (let l : c.digest_count ≤ c.digest_head = ground arith in omega arith)))
      ])

snoc-window :
    (ds : List Digest) (at n : ℕ) (d : Digest)
    → linked_all (window ds at n) ≡ true
    → is_sealed d ≡ true
    → (n ≢ 0
        → let e = get_or ds ((at + n - 1) % digest_max) blank in
          follows d e.current_hash e.sequence ≡ true)
    → linked_all (window ds at n ++ (d ∷ [])) ≡ true
snoc-window ds at zero d h s f = rw s refl
snoc-window ds at (suc n) d h s f =
    let y : get_or ds ((at + suc n - 1) % digest_max) blank
        ≡ last_or (get_or ds (at % digest_max) blank) (window ds (at + 1) n) =
      ap (λ i. get_or ds (i % digest_max) blank) {x = at + suc n - 1} {y = at + n} (omega arith)
      ∙ sym (window-last ds at n) in
    linked_all-snoc (get_or ds (at % digest_max) blank) d (window ds (at + 1) n) h s
      (sym (ap (λ e. follows d e.current_hash e.sequence) y) ∙ f (λ e. absurd (omega (arith, e))))

==-refl : (n : ℕ) → (n == n) ≡ true
==-refl n = ground arith

-- A sealed element that follows the last one goes behind a window that does not fill the ring.
append-window :
    (ds : List Digest) (at n k : ℕ) (d : Digest)
    → length ds ≡ digest_max
    → n < digest_max
    → k ≡ (at + n) % digest_max
    → linked_all (window ds at n) ≡ true
    → is_sealed d ≡ true
    → (n ≢ 0
        → let e = get_or ds ((at + n - 1) % digest_max) blank in
          follows d e.current_hash e.sequence ≡ true)
    → linked_all (window (set ds k d) at (suc n)) ≡ true
append-window ds at n k d l m q h s f =
    let g : window (set ds ((at + n) % digest_max) d) at (suc n) ≡ window ds at n ++ (d ∷ []) =
      window-snoc (set ds ((at + n) % digest_max) d) at n
      ∙ ap₂ (λ xs x. xs ++ (x ∷ [])) (window-set ds at n (at + n) d (omega arith) (omega arith))
          (get_or-set_self ds ((at + n) % digest_max) d blank (omega (arith, l))) in
    ap (λ i. linked_all (window (set ds i d) at (suc n))) q
    ∙ ap linked_all g
    ∙ snoc-window ds at n d h s f

digest_sealed :
    (previous sequence request_id : ℕ) (request result : List ℕ) (status : ℤ)
    → is_sealed (digest_of previous sequence request_id request result status) ≡ true
unfolding is_sealed digest_of
digest_sealed previous sequence request_id request result status =
    ==-refl (digest_of previous sequence request_id request result status).current_hash

last_digest-eq :
    (c : Context) (k : ℕ)
    → c.digest_head < digest_max
    → k ≡ (c.digest_head + 15) % digest_max
    → get_or c.digests k blank ≡ last_digest c
unfolding last_digest
last_digest-eq c k h e = elim (Bool-cases (c.digest_head == 0)) [
  | inl z ↦ rw z (ap (λ i. get_or c.digests i blank) {y = digest_max - 1} (ground (arith, e)))
  | inr z ↦ rw z (ap (λ i. get_or c.digests i blank) {y = c.digest_head - 1} (ground (arith, e)))
]

new-follows :
    (c : Context) (sequence request_id : ℕ) (request result : List ℕ) (status : ℤ)
    → c.digest_count ≢ 0
    → sequence ≡ u64 ((last_digest c).sequence + 1)
    → follows
        (digest_of (last_hash c) sequence request_id request result status)
        (last_digest c).current_hash
        (last_digest c).sequence
      ≡ true
unfolding follows digest_of last_hash
new-follows c sequence request_id request result status n e =
    let z : (c.digest_count == 0) ≡ false = ground arith in
    let a : (sequence == u64 ((last_digest c).sequence + 1)) ≡ true =
      ap (λ x. sequence == x) (sym e) ∙ ==-refl sequence in
    rw (z, a, ==-refl (last_digest c).current_hash) refl

-- In a full ring the oldest element is overwritten.
full-window :
    (ds : List Digest) (h k : ℕ) (d : Digest)
    → length ds ≡ digest_max
    → h < digest_max
    → k ≡ 15
    → linked_all (window ds (h + digest_max - suc k) (suc k)) ≡ true
    → is_sealed d ≡ true
    → (let e = get_or ds ((h + 15) % digest_max) blank in
        follows d e.current_hash e.sequence ≡ true)
    → linked_all (window (set ds h d) ((h + 1) % digest_max + digest_max - suc k) (suc k)) ≡ true
full-window ds h k d l b q w s f =
    let a : ℕ = h + digest_max - suc k in
    let w1 : linked_all (window ds (a + 1) k) ≡ true =
      linked_all-tail (get_or ds (a % digest_max) blank) (window ds (a + 1) k) w in
    let g = append-window ds (a + 1) k h d l (omega (arith, q)) (omega (arith, q)) w1 s (λ z.
      ap (λ i. let e = get_or ds (i % digest_max) blank in follows d e.current_hash e.sequence)
        {x = a + 1 + k - 1} {y = h + 15} (omega (arith, q))
      ∙ f) in
    ap linked_all (
      window-mod (set ds h d) ((h + 1) % digest_max + digest_max - suc k) (a + 1) (suc k)
        (omega (arith, q)))
    ∙ g

pushed-window :
    (ds : List Digest) (h n : ℕ) (d : Digest)
    → length ds ≡ digest_max
    → h < digest_max
    → n ≤ digest_max
    → linked_all (window ds (h + digest_max - n) n) ≡ true
    → is_sealed d ≡ true
    → (n ≢ 0
        → let e = get_or ds ((h + 15) % digest_max) blank in
          follows d e.current_hash e.sequence ≡ true)
    → let n' = if ltb n digest_max then n + 1 else n in
      linked_all (window (set ds h d) ((h + 1) % digest_max + digest_max - n') n') ≡ true
pushed-window ds h n d l b m w s f = elim (Bool-cases (ltb n digest_max)) [
  | inl t ↦
      let t' : n < digest_max = ground arith in
      let g = append-window ds (h + digest_max - n) n h d l t' (omega arith) w s (λ z.
        ap (λ i. let e = get_or ds (i % digest_max) blank in follows d e.current_hash e.sequence)
          {x = h + digest_max - n + n - 1} {y = h + 15} (omega arith)
        ∙ f z) in
      rw t (
        ap linked_all (
          window-mod (set ds h d) ((h + 1) % digest_max + digest_max - (n + 1)) (h + digest_max - n)
            (n + 1) (omega arith))
        ∙ ap (λ x. linked_all (window (set ds h d) (h + digest_max - n) x)) {x = n + 1} {y = suc n}
            (omega arith)
        ∙ g)
  | inr t ↦
      let t' : n ≡ suc (n - 1) = ground arith in
      let w' : linked_all (window ds (h + digest_max - suc (n - 1)) (suc (n - 1))) ≡ true =
        ap (λ x. linked_all (window ds (h + digest_max - x) x)) (sym t') ∙ w in
      rw t (
        ap (λ x. linked_all (window (set ds h d) ((h + 1) % digest_max + digest_max - x) x)) t'
        ∙ full-window ds h (n - 1) d l b (ground arith) w' s (f (ground arith)))
]

-- agent_context_digest_push of a node whose sequence follows that of the last one keeps a ring that
-- verifies: agent_context_digest_verify still accepts it, also when the oldest element is overwritten.
pub digest_push-RingOk :
    (c : Context) (sequence request_id : ℕ) (request result : List ℕ) (status : ℤ)
    → RingOk c
    → (c.digest_count ≢ 0 → sequence ≡ u64 ((last_digest c).sequence + 1))
    → RingOk (digest_push c sequence request_id request result status)
unfolding digest_push
digest_push-RingOk c sequence request_id request result status (l, h, n, v) e =
    let d = digest_of (last_hash c) sequence request_id request result status in
    let s = digest_sealed (last_hash c) sequence request_id request result status in
    let f = new-follows c sequence request_id request result status in
    let w = sym (verify-window c h n) ∙ v in
    let c' = digest_push c sequence request_id request result status in
    (
      length-set c.digests c.digest_head d ∙ l,
      omega arith,
      ground arith,
      verify-window c' (omega arith) (ground arith)
          ∙ pushed-window c.digests c.digest_head c.digest_count d l h n w s (λ z.
            let y = last_digest-eq c ((c.digest_head + 15) % digest_max) h refl in
            ap (λ x. follows d x.current_hash x.sequence) y ∙ f z (e z)),
    )
