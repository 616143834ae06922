-- ===== src/FileIndex/Plan.antt =====
-- The index plan of a query finds what the scan of the table finds.
use mathlib.Core.List.{reverse, reverse_aux}
use aaaos_renovation_agent_o.Prelude.{
  ℕ, suc, ◌+◌, ◌*◌, ◌≤◌, ◌<◌, ◌≡◌, refl, sym, ap, ◌∙◌, Bool, true, false, ◌&&◌, none, some, List,
  [], ◌∷◌, ◌++◌, arith, All, ◌==◌, if◌then◌else◌, ltb, length, length-append, get_elem?, Bool-cases,
  inl, inr,
}
use aaaos_renovation_agent_o.Params.{streq}
use aaaos_renovation_agent_o.Params.Streq.{streq→eq, streq-sym}
use aaaos_renovation_agent_o.Files.{Attr}
use aaaos_renovation_agent_o.Files.Attrs.{keys, Fresh, Distinct, WellFormed}
use aaaos_renovation_agent_o.FileIndex.{
  Meta, Posting, Index, file_attr_hash, posting_max, meta_max, make_posting, add_posting,
  add_postings, add_entry, rebuild_from, rebuild_postings, index_reset,
}
use aaaos_renovation_agent_o.FileIndex.Query.{
  Query, attr_match, all_match, meta_matches, meta_hit, hit_of, posting_hit, push, visit, scan,
  index_plan, scan_plan,
}
use aaaos_renovation_agent_o.FileIndex.Chain.{
  bucket, bucket_of, rebuild_postings-Linked, chain-bucket, add_entry-used, add_entry-unused,
}

length-add_posting :
    (i : ℕ) (a : Attr) (ix : Index)
    → length (add_posting i a ix).postings ≤ suc (length ix.postings)
unfolding add_posting
length-add_posting i a ix = elim (Bool-cases (ltb (length ix.postings) posting_max)) [
  | inl t ↦ rw t (omega (arith, length-append ix.postings (make_posting ix i a ∷ [])))
  | inr t ↦ rw t (omega arith)
]

and-left : (p q : Bool) → (p && q) ≡ true → p ≡ true
and-left true q h = refl
and-left false q h = h

module _ (metas : List Meta) (conds : List Attr) (keyword : List ℕ) (c : Attr) where
  -- The hits of postings, the last one first, onto a list
  abbrev sweep : List Meta → List Posting → List Meta
  sweep acc [] = acc
  sweep acc (q ∷ qs) = sweep (push (posting_hit metas conds keyword c q) acc) qs

  hit-bucket :
      (q : Posting)
      → (bucket_of q == file_attr_hash c.key c.value) ≡ false
      → posting_hit metas conds keyword c q ≡ none
  unfolding posting_hit bucket_of
  hit-bucket q h = elim (Bool-cases (streq q.key c.key)) [
    | inr e ↦ rw e refl
    | inl e ↦ elim (Bool-cases (streq q.value c.value)) [
      | inr f ↦ rw (e, f) refl
      | inl f ↦ absurd (
          let k : q.key ≡ c.key = streq→eq q.key c.key e in
          let v : q.value ≡ c.value = streq→eq q.value c.value f in
          let g : file_attr_hash q.key q.value ≡ file_attr_hash c.key c.value = cc in ground arith)
    ]
  ]

  visit-bucket :
      (acc ps : List Posting)
      → visit metas conds keyword c (bucket (file_attr_hash c.key c.value) acc ps)
        ≡ sweep (visit metas conds keyword c acc) ps
  unfolding visit
  visit-bucket acc [] = refl
  visit-bucket acc (q ∷ qs) = elim (Bool-cases (bucket_of q == file_attr_hash c.key c.value)) [
    | inl e ↦ rw e (visit-bucket (q ∷ acc) qs)
    | inr e ↦ rw (e, hit-bucket q e) (visit-bucket acc qs)
  ]

  sweep-append :
      (acc : List Meta) (ps : List Posting) (q : Posting)
      → sweep acc (ps ++ (q ∷ [])) ≡ push (posting_hit metas conds keyword c q) (sweep acc ps)
  sweep-append acc [] q = refl
  sweep-append acc (p ∷ ps) q = sweep-append (push (posting_hit metas conds keyword c p) acc) ps q

  abbrev is_cond : Attr → Bool
  is_cond a = streq a.key c.key && streq a.value c.value

  sweep-add_posting :
      (acc : List Meta) (i : ℕ) (a : Attr) (m : Meta) (ix : Index)
      → length ix.postings < posting_max
      → get_elem? metas i ≡ some m
      → sweep acc (add_posting i a ix).postings ≡ (
          if is_cond a
          then push (hit_of conds keyword (some m)) (sweep acc ix.postings)
          else sweep acc ix.postings)
  unfolding add_posting posting_hit
  sweep-add_posting acc i a m ix b g =
      let t : ltb (length ix.postings) posting_max ≡ true = ground arith in
      rw (t, sweep-append acc ix.postings (make_posting ix i a), g)
        (elim (Bool-cases (is_cond a)) [ inl e ↦ rw e refl | inr e ↦ rw e refl ])

  match-absent :
      (x : List ℕ) (as' : List Attr)
      → Fresh x (keys as')
      → streq x c.key ≡ true
      → attr_match as' c ≡ false
  unfolding attr_match
  match-absent x [] f e = refl
  match-absent x (a ∷ as') f e =
      let n : streq a.key c.key ≡ false =
        ap (streq a.key) (sym (streq→eq x c.key e)) ∙ streq-sym a.key x ∙ f.0 in
      rw (n, match-absent x as' f.1 e) refl

  -- Of the attributes of an entry at most one is the condition.
  sweep-add_postings :
      (acc : List Meta) (i : ℕ) (as' : List Attr) (m : Meta) (ix : Index)
      → Distinct (keys as')
      → length ix.postings + length as' ≤ posting_max
      → get_elem? metas i ≡ some m
      → sweep acc (add_postings i as' ix).postings ≡ (
          if attr_match as' c
          then push (hit_of conds keyword (some m)) (sweep acc ix.postings)
          else sweep acc ix.postings)
  unfolding add_postings attr_match
  sweep-add_postings acc i [] m ix d b g = refl
  sweep-add_postings acc i (a ∷ as') m ix d b g =
      let s = sweep-add_posting acc i a m ix (omega arith) g in
      let r =
        sweep-add_postings acc i as' m (add_posting i a ix) d.1
          (omega (arith, length-add_posting i a ix)) g in
      elim (Bool-cases (is_cond a)) [
        | inl e ↦
            let k : streq a.key c.key ≡ true =
              and-left (streq a.key c.key) (streq a.value c.value) e in
            let r' = rw (match-absent a.key as' d.0 k) at r in let s' = rw e at s in rw e (r' ∙ s')
        | inr e ↦ let s' = rw e at s in let r' = rw s' at r in rw e r'
      ]

-- A hit has the first condition among its attributes.
hit-match :
    (m : Meta) (c : Attr) (cs : List Attr) (keyword : List ℕ)
    → attr_match m.attrs c ≡ false
    → hit_of (c ∷ cs) keyword (some m) ≡ none
unfolding meta_hit meta_matches all_match
hit-match m c cs [] n = elim (Bool-cases m.used) [ inl u ↦ rw (u, n) refl | inr u ↦ rw u refl ]
hit-match m c cs (k ∷ ks) n = elim (Bool-cases m.used) [
  | inl u ↦ rw (u, n) refl
  | inr u ↦ rw u refl
]

-- The number of the attributes of the entries
abbrev total : List Meta → ℕ
total [] = 0
total (m ∷ ms) = length m.attrs + total ms

length-add_postings :
    (i : ℕ) (as' : List Attr) (ix : Index)
    → length (add_postings i as' ix).postings ≤ length ix.postings + length as'
unfolding add_postings
length-add_postings i [] ix = omega arith
length-add_postings i (a ∷ as') ix =
    omega (arith, length-add_postings i as' (add_posting i a ix), length-add_posting i a ix)

length-add_entry :
    (i : ℕ) (m : Meta) (ix : Index)
    → length (add_entry i m ix).postings ≤ length ix.postings + length m.attrs
length-add_entry i m ix = elim (Bool-cases m.used) [
  | inl u ↦ rw (add_entry-used i m ix u) (length-add_postings i m.attrs ix)
  | inr u ↦ rw (add_entry-unused i m ix u) (omega arith)
]

length-rebuild_from :
    (i : ℕ) (ms : List Meta) (ix : Index)
    → length (rebuild_from i ms ix).postings ≤ length ix.postings + total ms
unfolding rebuild_from
length-rebuild_from i [] ix = omega arith
length-rebuild_from i (m ∷ ms) ix =
    omega (arith, length-rebuild_from (i + 1) ms (add_entry i m ix), length-add_entry i m ix)

hit-unused :
    (m : Meta) (conds : List Attr) (keyword : List ℕ)
    → m.used ≡ false
    → hit_of conds keyword (some m) ≡ none
unfolding meta_hit
hit-unused m conds keyword u = rw u refl

module _ (metas : List Meta) (c : Attr) (cs : List Attr) (keyword : List ℕ) where
  reverse-scan :
      (m : Meta) (ms acc : List Meta)
      → reverse_aux (scan (c ∷ cs) keyword (m ∷ ms)) acc
        ≡ reverse_aux (scan (c ∷ cs) keyword ms) (push (hit_of (c ∷ cs) keyword (some m)) acc)
  unfolding scan
  reverse-scan m ms acc = elim (Bool-cases (meta_hit (c ∷ cs) keyword m)) [
    | inl h ↦ rw h refl
    | inr h ↦ rw h refl
  ]

  sweep-add_entry :
      (acc : List Meta) (i : ℕ) (m : Meta) (ix : Index)
      → Distinct (keys m.attrs)
      → length ix.postings + length m.attrs ≤ posting_max
      → get_elem? metas i ≡ some m
      → sweep metas (c ∷ cs) keyword c acc (add_entry i m ix).postings
        ≡ push (hit_of (c ∷ cs) keyword (some m)) (sweep metas (c ∷ cs) keyword c acc ix.postings)
  sweep-add_entry acc i m ix d b g =
      let s = sweep-add_postings metas (c ∷ cs) keyword c acc i m.attrs m ix d b g in
      elim (Bool-cases m.used) [
        | inr u ↦ rw (add_entry-unused i m ix u, hit-unused m (c ∷ cs) keyword u) refl
        | inl u ↦ rw (add_entry-used i m ix u) (elim (Bool-cases (attr_match m.attrs c)) [
          | inl e ↦ (rw e at s)
          | inr e ↦ rw (hit-match m c cs keyword e) (rw e at s)
        ])
      ]

  sweep-rebuild_from :
      (acc : List Meta) (i : ℕ) (ms : List Meta) (ix : Index)
      → All (λ (m : Meta). WellFormed m.attrs) ms
      → length ix.postings + total ms ≤ posting_max
      → ((j : ℕ) → get_elem? metas (i + j) ≡ get_elem? ms j)
      → sweep metas (c ∷ cs) keyword c acc (rebuild_from i ms ix).postings
        ≡ reverse_aux (scan (c ∷ cs) keyword ms) (sweep metas (c ∷ cs) keyword c acc ix.postings)
  unfolding rebuild_from scan
  sweep-rebuild_from acc i [] ix w b g = refl
  sweep-rebuild_from acc i (m ∷ ms) ix w b g =
      let g' : (j : ℕ) → get_elem? metas ((i + 1) + j) ≡ get_elem? ms j =
        λ j. ap (get_elem? metas) {y = i + suc j} (omega arith) ∙ g (suc j) in
      let z : get_elem? metas i ≡ some m = ap (get_elem? metas) {y = i + 0} (omega arith) ∙ g 0 in
      sweep-rebuild_from acc (i + 1) ms (add_entry i m ix) w.1
        (omega (arith, length-add_entry i m ix)) g'
      ∙ ap (reverse_aux (scan (c ∷ cs) keyword ms))
          (sweep-add_entry acc i m ix w.0.1 (omega arith) z)
      ∙ sym (reverse-scan m ms (sweep metas (c ∷ cs) keyword c acc ix.postings))

total-le : (ms : List Meta) → All (λ (m : Meta). WellFormed m.attrs) ms → total ms ≤ 4 * length ms
total-le [] w = omega arith
total-le (m ∷ ms) w = omega (arith, w.0.0, total-le ms w.1)

-- If the table has at most AGENT_FILE_META_MAX entries, each with at most INODE_ATTR_MAX attributes
-- and no key twice, the index plan over the rebuilt postings finds, for any query with a condition,
-- exactly the entries that the scan of the table finds, each once, in the reverse order.
pub index_plan-scan_plan :
    (metas : List Meta) (q : Query) (c : Attr) (cs : List Attr)
    → length metas ≤ meta_max
    → All (λ (m : Meta). WellFormed m.attrs) metas
    → q.conds ≡ c ∷ cs
    → (index_plan metas (rebuild_postings metas) q c).hits ≡ reverse (scan_plan metas q).hits
unfolding index_plan scan_plan visit rebuild_postings
index_plan-scan_plan metas q c cs b w e =
    let l : length (rebuild_postings metas).postings ≤ posting_max =
      omega (arith, length-rebuild_from 0 metas index_reset, total-le metas w) in
    rw (e, chain-bucket (rebuild_postings metas) c (rebuild_postings-Linked metas) l)
      (visit-bucket metas (c ∷ cs) q.keyword c [] (rebuild_postings metas).postings
        ∙ sweep-rebuild_from metas c cs q.keyword [] 0 metas index_reset w
            (omega (arith, total-le metas w)) (λ j. ap (get_elem? metas) {y = j} (omega arith)))
