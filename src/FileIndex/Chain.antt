-- ===== src/FileIndex/Chain.antt =====
-- The chains of the file index: what file_add_posting_locked keeps of them.
use aaaos_renovation_agent_o.Prelude.{
  ℕ, zero, suc, ◌+◌, ◌≤◌, ◌<◌, ◌≡◌, refl, sym, ap, ◌∙◌, subst, Bool, true, false, Option, none,
  some, List, [], ◌∷◌, ◌++◌, arith, ◌==◌, ltb, length, length-append, length-set, length-replicate,
  get_or, get_elem?, set, replicate, get_or-set_self, get_or-set_ne, Bool-cases, inl, inr,
}
use aaaos_renovation_agent_o.Files.{Attr}
use aaaos_renovation_agent_o.FileIndex.{
  Meta, Posting, Index, file_attr_hash, index_buckets, posting_max, make_posting, add_posting,
  add_postings, add_entry, rebuild_from, rebuild_postings, index_reset,
}
use aaaos_renovation_agent_o.FileIndex.Query.{follow, chain}

-- The postings `qs` are linked from `o`, each link to a slot below the one before, and the first
-- below `b`.
abbrev pub Chain : List Posting → Option ℕ → ℕ → List Posting → Type 0
Chain ps o b [] = o ≡ none
Chain ps o b (q ∷ qs) =
    (i : ℕ) × (o ≡ some i) × (i < b) × (get_elem? ps i ≡ some q) × Chain ps q.next i qs

follow-none : (f : ℕ) (ps : List Posting) → follow f ps none ≡ []
unfolding follow
follow-none zero ps = refl
follow-none (suc f) ps = refl

-- Enough fuel follows a chain to its end.
pub follow-Chain :
    (f : ℕ) (ps : List Posting) (o : Option ℕ) (b : ℕ) (qs : List Posting)
    → Chain ps o b qs
    → b ≤ f
    → follow f ps o ≡ qs
unfolding follow
follow-Chain f ps o b [] h l = rw h (follow-none f ps)
follow-Chain zero ps o b (q ∷ qs) h l = absurd (omega (arith, h.2))
follow-Chain (suc f) ps o b (q ∷ qs) h l =
    rw (h.1, follow, h.3) (ap (◌∷◌ q) (follow-Chain f ps q.next h.0 qs h.4 (omega (arith, h.2))))

get_elem?-append :
    (ps rs : List Posting) (i : ℕ) (q : Posting)
    → get_elem? ps i ≡ some q
    → get_elem? (ps ++ rs) i ≡ some q
get_elem?-append [] rs i q h = absurd (cc)
get_elem?-append (p ∷ ps) rs zero q h = h
get_elem?-append (p ∷ ps) rs (suc i) q h = get_elem?-append ps rs i q h

get_elem?-last : (ps : List Posting) (q : Posting) → get_elem? (ps ++ (q ∷ [])) (length ps) ≡ some q
get_elem?-last [] q = refl
get_elem?-last (p ∷ ps) q = get_elem?-last ps q

Chain-append :
    (ps rs : List Posting) (o : Option ℕ) (b c : ℕ) (qs : List Posting)
    → b ≤ c
    → Chain ps o b qs
    → Chain (ps ++ rs) o c qs
Chain-append ps rs o b c [] l h = h
Chain-append ps rs o b c (q ∷ qs) l h = (
  h.0,
  h.1,
  omega (arith, h.2),
  get_elem?-append ps rs h.0 q h.3,
  Chain-append ps rs q.next h.0 h.0 qs (omega arith) h.4,
)

-- The bucket of a posting
unfoldable pub bucket_of : Posting → ℕ
bucket_of q = file_attr_hash q.key q.value

abbrev pub cons_if : Bool → Posting → List Posting → List Posting
cons_if true q qs = q ∷ qs
cons_if false q qs = qs

-- The postings of a bucket, the last one first, onto a list
abbrev pub bucket : ℕ → List Posting → List Posting → List Posting
bucket h acc [] = acc
bucket h acc (q ∷ qs) = bucket h (cons_if (bucket_of q == h) q acc) qs

bucket-append :
    (h : ℕ) (acc ps : List Posting) (q : Posting)
    → bucket h acc (ps ++ (q ∷ [])) ≡ cons_if (bucket_of q == h) q (bucket h acc ps)
bucket-append h acc [] q = refl
bucket-append h acc (p ∷ ps) q = bucket-append h (cons_if (bucket_of p == h) p acc) ps q

-- Each head begins the chain of its bucket.
abbrev pub Linked : Index → Type 0
Linked ix =
    (length ix.heads ≡ index_buckets)
    × ((h : ℕ)
        → h < index_buckets
        → Chain ix.postings (get_or ix.heads h none) (length ix.postings) (bucket h [] ix.postings))

pub hash-lt : (key value : List ℕ) → file_attr_hash key value < index_buckets
unfolding file_attr_hash
hash-lt key value = omega arith

link-Chain :
    (ix : Index) (e : ℕ) (a : Attr) (h : ℕ)
    → Linked ix
    → h < index_buckets
    → Chain
        (ix.postings ++ (make_posting ix e a ∷ []))
        (get_or (set ix.heads (file_attr_hash a.key a.value) (some (length ix.postings))) h none)
        (length (ix.postings ++ (make_posting ix e a ∷ [])))
        (bucket h [] (ix.postings ++ (make_posting ix e a ∷ [])))
unfolding bucket_of
link-Chain ix e a h l b =
    let q : Posting = make_posting ix e a in
    let g : ℕ = file_attr_hash a.key a.value in
    let n : length (ix.postings ++ (q ∷ [])) ≡ suc (length ix.postings) =
      length-append ix.postings (q ∷ []) ∙ (omega arith) in
    rw (bucket-append h [] ix.postings q) (elim (Bool-cases (g == h)) [
      | inl t ↦
          let y : g ≡ h = ground arith in
          rw (t, sym y)
            (
              length ix.postings,
              get_or-set_self ix.heads g (some (length ix.postings)) none
                  (omega (arith, l.0, hash-lt a.key a.value)),
              omega (arith, n),
              get_elem?-last ix.postings q,
              subst
                  (λ x.
                    Chain (ix.postings ++ (q ∷ [])) (get_or ix.heads x none) (length ix.postings)
                      (bucket h [] ix.postings))
                  (sym y)
                  (Chain-append ix.postings (q ∷ []) (get_or ix.heads h none) (length ix.postings)
                    (length ix.postings) (bucket h [] ix.postings) (omega arith) (l.1 h b)),
            )
      | inr t ↦
          rw (t, get_or-set_ne ix.heads g h (some (length ix.postings)) none (ground arith))
            (Chain-append ix.postings (q ∷ []) (get_or ix.heads h none) (length ix.postings)
              (length (ix.postings ++ (q ∷ []))) (bucket h [] ix.postings) (omega (arith, n))
              (l.1 h b))
    ])

add_posting-Linked : (e : ℕ) (a : Attr) (ix : Index) → Linked ix → Linked (add_posting e a ix)
unfolding add_posting
add_posting-Linked e a ix l = elim (Bool-cases (ltb (length ix.postings) posting_max)) [
  | inl t ↦ rw t (
    length-set ix.heads (file_attr_hash a.key a.value) (some (length ix.postings)) ∙ l.0,
    λ h b. link-Chain ix e a h l b,
  )
  | inr t ↦ rw t l
]

add_postings-Linked :
    (e : ℕ) (as' : List Attr) (ix : Index) → Linked ix → Linked (add_postings e as' ix)
unfolding add_postings
add_postings-Linked e [] ix l = l
add_postings-Linked e (a ∷ as') ix l =
    add_postings-Linked e as' (add_posting e a ix) (add_posting-Linked e a ix l)

pub add_entry-used :
    (i : ℕ) (m : Meta) (ix : Index) → m.used ≡ true → add_entry i m ix ≡ add_postings i m.attrs ix
unfolding add_entry
add_entry-used i m ix u = rw u refl

pub add_entry-unused : (i : ℕ) (m : Meta) (ix : Index) → m.used ≡ false → add_entry i m ix ≡ ix
unfolding add_entry
add_entry-unused i m ix u = rw u refl

rebuild_from-Linked :
    (i : ℕ) (ms : List Meta) (ix : Index) → Linked ix → Linked (rebuild_from i ms ix)
unfolding rebuild_from
rebuild_from-Linked i [] ix l = l
rebuild_from-Linked i (m ∷ ms) ix l = elim (Bool-cases m.used) [
  | inl u ↦
      rebuild_from-Linked (i + 1) ms (add_entry i m ix)
        (rw (add_entry-used i m ix u) (add_postings-Linked i m.attrs ix l))
  | inr u ↦ rebuild_from-Linked (i + 1) ms (add_entry i m ix) (rw (add_entry-unused i m ix u) l)
]

get_or-replicate : (n h : ℕ) → get_or {A = Option ℕ} (replicate n none) h none ≡ none
get_or-replicate zero h = refl
get_or-replicate (suc n) zero = refl
get_or-replicate (suc n) (suc h) = get_or-replicate n h

-- The index after file_rebuild_postings_locked is linked.
pub rebuild_postings-Linked : (metas : List Meta) → Linked (rebuild_postings metas)
unfolding rebuild_postings
rebuild_postings-Linked metas =
    rebuild_from-Linked 0 metas index_reset
      (length-replicate {A = Option ℕ} index_buckets none, λ h b. get_or-replicate index_buckets h)

-- What a query walks over: the postings of the bucket, the last one first
pub chain-bucket :
    (ix : Index) (c : Attr)
    → Linked ix
    → length ix.postings ≤ posting_max
    → chain ix c ≡ bucket (file_attr_hash c.key c.value) [] ix.postings
unfolding chain
chain-bucket ix c l b =
    let h : ℕ = file_attr_hash c.key c.value in
    follow-Chain posting_max ix.postings (get_or ix.heads h none) (length ix.postings)
      (bucket h [] ix.postings) (l.1 h (hash-lt c.key c.value)) b
