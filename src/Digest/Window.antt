-- ===== src/Digest/Window.antt =====
-- The elements of the digest ring in their order, from the oldest one to the last.
use aaaos_renovation_agent_o.Prelude.{
  ℕ, zero, suc, ◌+◌, ◌%◌, ◌≤◌, ◌<◌, ◌≡◌, refl, ap, ap₂, ◌∙◌, Bool, true, false, ◌&&◌, List, [], ◌∷◌,
  ◌++◌, arith, get_or, set, get_or-set_ne,
}
use aaaos_renovation_agent_o.Proc.{Digest, digest_max}
use aaaos_renovation_agent_o.Digest.{blank, is_sealed, follows, verify_from, verify_all}

-- The elements of the ring from an index before the modulus on
abbrev pub window : List Digest → ℕ → ℕ → List Digest
window ds at zero = []
window ds at (suc n) = get_or ds (at % digest_max) blank ∷ window ds (at + 1) n

-- Each element follows the one before, and is sealed.
abbrev pub linked : ℕ → ℕ → List Digest → Bool
linked prev sequence [] = true
linked prev sequence (d ∷ ds) =
    follows d prev sequence && is_sealed d && linked d.current_hash d.sequence ds

abbrev pub linked_all : List Digest → Bool
linked_all [] = true
linked_all (d ∷ ds) = is_sealed d && linked d.current_hash d.sequence ds

pub verify_from-linked :
    (ds : List Digest) (at n prev sequence : ℕ)
    → verify_from ds at n prev sequence ≡ linked prev sequence (window ds at n)
unfolding verify_from
verify_from-linked ds at zero prev sequence = refl
verify_from-linked ds at (suc n) prev sequence =
    let d = get_or ds (at % digest_max) blank in
    ap (λ b. follows d prev sequence && is_sealed d && b)
      (verify_from-linked ds (at + 1) n d.current_hash d.sequence)

pub verify_all-linked :
    (ds : List Digest) (at n : ℕ) → verify_all ds at n ≡ linked_all (window ds at n)
unfolding verify_all
verify_all-linked ds at zero = refl
verify_all-linked ds at (suc n) =
    let d = get_or ds (at % digest_max) blank in
    ap (λ b. is_sealed d && b) (verify_from-linked ds (at + 1) n d.current_hash d.sequence)

-- A write to a slot that the window does not cover
pub window-set :
    (ds : List Digest) (at n k : ℕ) (d : Digest)
    → at + n ≤ k
    → k < at + digest_max
    → window (set ds (k % digest_max) d) at n ≡ window ds at n
window-set ds at zero k d l m = refl
window-set ds at (suc n) k d l m =
    ap₂ ◌∷◌
      (get_or-set_ne ds (k % digest_max) (at % digest_max) d blank (λ e. omega (arith, e, l, m)))
      (window-set ds (at + 1) n k d (omega arith) (omega arith))

pub window-snoc :
    (ds : List Digest) (at n : ℕ)
    → window ds at (suc n) ≡ window ds at n ++ (get_or ds ((at + n) % digest_max) blank ∷ [])
window-snoc ds at zero = ap (λ i. get_or ds (i % digest_max) blank ∷ []) {y = at + 0} (omega arith)
window-snoc ds at (suc n) = ap (◌∷◌ (get_or ds (at % digest_max) blank)) (
    window-snoc ds (at + 1) n
    ∙ ap (λ i. window ds (at + 1) n ++ (get_or ds (i % digest_max) blank ∷ [])) {x = at + 1 + n}
        {y = at + suc n} (omega arith))

pub window-mod :
    (ds : List Digest) (a b n : ℕ) → a % digest_max ≡ b % digest_max → window ds a n ≡ window ds b n
window-mod ds a b zero e = refl
window-mod ds a b (suc n) e =
    ap₂ ◌∷◌ (ap (λ i. get_or ds i blank) e) (window-mod ds (a + 1) (b + 1) n (omega (arith, e)))

abbrev pub last_or : Digest → List Digest → Digest
last_or e [] = e
last_or e (d ∷ ds) = last_or d ds

pub window-last :
    (ds : List Digest) (at n : ℕ)
    → last_or (get_or ds (at % digest_max) blank) (window ds (at + 1) n)
      ≡ get_or ds ((at + n) % digest_max) blank
window-last ds at zero = ap (λ i. get_or ds (i % digest_max) blank) {y = at + 0} (omega arith)
window-last ds at (suc n) =
    window-last ds (at + 1) n
    ∙ ap (λ i. get_or ds (i % digest_max) blank) {x = at + 1 + n} {y = at + suc n} (omega arith)

pub and3 : (a b c : Bool) → (a && b && c) ≡ true → (a ≡ true) × (b ≡ true) × (c ≡ true)
and3 true true c h = (refl, refl, h)
and3 true false c h = absurd (cc)
and3 false b c h = absurd (cc)

pub and2 : (a b : Bool) → (a && b) ≡ true → (a ≡ true) × (b ≡ true)
and2 true b h = (refl, h)
and2 false b h = absurd (cc)

pub linked-snoc :
    (e d : Digest) (xs : List Digest)
    → linked e.current_hash e.sequence xs ≡ true
    → is_sealed d ≡ true
    → follows d (last_or e xs).current_hash (last_or e xs).sequence ≡ true
    → linked e.current_hash e.sequence (xs ++ (d ∷ [])) ≡ true
linked-snoc e d [] h k f = rw (f, k) refl
linked-snoc e d (x ∷ xs) h k f =
    let r =
      and3 (follows x e.current_hash e.sequence) (is_sealed x) (linked x.current_hash x.sequence xs)
        h in
    rw (r.0, r.1) (linked-snoc x d xs r.2 k f)

pub linked_all-snoc :
    (x d : Digest) (xs : List Digest)
    → linked_all (x ∷ xs) ≡ true
    → is_sealed d ≡ true
    → follows d (last_or x xs).current_hash (last_or x xs).sequence ≡ true
    → linked_all (x ∷ (xs ++ (d ∷ []))) ≡ true
linked_all-snoc x d xs h k f =
    let r = and2 (is_sealed x) (linked x.current_hash x.sequence xs) h in
    rw r.0 (linked-snoc x d xs r.1 k f)

pub linked_all-tail :
    (x : Digest) (xs : List Digest) → linked_all (x ∷ xs) ≡ true → linked_all xs ≡ true
linked_all-tail x [] h = refl
linked_all-tail x (y ∷ ys) h =
    let r = and2 (is_sealed x) (linked x.current_hash x.sequence (y ∷ ys)) h in
    let q =
      and3 (follows y x.current_hash x.sequence) (is_sealed y) (linked y.current_hash y.sequence ys)
        r.1 in
    rw (q.1, q.2) refl
