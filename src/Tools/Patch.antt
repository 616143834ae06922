-- ===== src/Tools/Patch.antt =====
-- tool_patch_file of kernel/agent_tool.c. `namei` is the lookup of a path, `memory` whether kalloc
-- gives the buffers, and `room` the number of bytes that writei can write.
use aaaos_renovation_agent_o.Prelude.{
  ℕ, zero, suc, ◌+◌, ◌≤◌, ◌<◌, ◌≡◌, ◌≢◌, refl, sym, ap, ap₂, ◌∙◌, subst, Bool, true, false, ◌&&◌,
  not, Option, none, some, List, [], ◌∷◌, ◌++◌, arith, ◌==◌, if◌then◌else◌, ltb, leb, take, drop,
  length, length-take, Bool-cases, Option-cases, inl, inr,
}
use aaaos_renovation_agent_o.Text.{codes}
use aaaos_renovation_agent_o.Params.{
  streq, param_value, percent_decode, str_find, find_from, has_prefix, until_nul,
}
use aaaos_renovation_agent_o.Params.Streq.{streq_refl}
use aaaos_renovation_agent_o.Params.Numbers.{take-all}
use aaaos_renovation_agent_o.Files.{
  Inode, Outcome, answer, bad_params, not_found, is_regular, summary_refresh, tool_resp_set,
  tool_ok, err_bad_param, err_no_space,
}

-- PGSIZE - 1
abbrev pub page_limit : ℕ
page_limit = 4095

-- The content with the first place of the pattern replaced; none where it is not found.
unfoldable pub replace_first : List ℕ → List ℕ → List ℕ → Option (List ℕ)
replace_first content old new = elim (str_find (until_nul content) old) [
  | none ↦ none
  | some off ↦ some (take off content ++ (new ++ drop (off + length old) content))
]

-- From the truncation of the file on; a short write leaves what was written.
unfoldable pub write_patch : ℕ → Inode → List ℕ → Outcome
write_patch room ip out =
    let ip' = record ip { content = take room out } in
    if ltb room (length out)
    then record {
      response = tool_resp_set err_bad_param (codes "write failed");
      inode = some ip';
      changed = false;
    }
    else record {
      response = tool_resp_set tool_ok (codes "{status=ok,op=replace}");
      inode = some (summary_refresh ip');
      changed = true;
    }

-- From the lookup of the path on
unfoldable pub patch_inode : ℕ → List ℕ → List ℕ → Option Inode → Outcome
patch_inode room old new none = not_found
patch_inode room old new (some ip) =
    if not (is_regular ip && ltb (length ip.content) page_limit)
    then answer err_bad_param (codes "file too large or invalid")
    else (elim (replace_first ip.content old new) [
      | none ↦ answer err_bad_param (codes "pattern not found")
      | some out ↦
          if leb page_limit (length out)
          then answer err_no_space (codes "patched file too large")
          else write_patch room ip out
    ])

-- From the check of the operation on
unfoldable pub patch_decoded : Bool → ℕ → List ℕ → List ℕ → List ℕ → Option Inode → Outcome
patch_decoded memory room op old new found =
    if not (streq op (codes "replace"))
    then answer err_bad_param (codes "unsupported patch op")
    else if length old == 0
    then answer err_bad_param (codes "empty old pattern")
    else if memory
    then patch_inode room old new found
    else answer err_no_space (codes "no memory")

-- tool_patch_file
unfoldable pub patch_file : (List ℕ → Option Inode) → Bool → ℕ → List ℕ → Outcome
patch_file namei memory room params = elim (param_value params (codes "path") 64) [
  | none ↦ bad_params
  | some path ↦ elim (param_value params (codes "op") 16) [
    | none ↦ bad_params
    | some op ↦ elim (param_value params (codes "old") 128) [
      | none ↦ bad_params
      | some old ↦ elim (param_value params (codes "new") 128) [
        | none ↦ bad_params
        | some new ↦
            patch_decoded memory room op (percent_decode old 128) (percent_decode new 128)
              (namei path)
      ]
    ]
  ]
]

-- The needle stands at the place `k` of the text and at no place before.
abbrev pub FirstAt : ℕ → List ℕ → List ℕ → Type 0
FirstAt k needle s =
    (has_prefix needle (drop k s) ≡ true) × ((m : ℕ) → m < k → has_prefix needle (drop m s) ≡ false)

earlier :
    (needle : List ℕ) (c : ℕ) (cs : List ℕ) (k : ℕ)
    → has_prefix needle (c ∷ cs) ≡ false
    → ((m : ℕ) → m < k → has_prefix needle (drop m cs) ≡ false)
    → (m : ℕ) → m < suc k
    → has_prefix needle (drop m (c ∷ cs)) ≡ false
earlier needle c cs k e f zero l = e
earlier needle c cs k e f (suc m) l = f m (omega arith)

find_from-first :
    (i j : ℕ) (needle s : List ℕ)
    → find_from i needle s ≡ some j
    → (k : ℕ) × (j ≡ i + k) × FirstAt k needle s
unfolding find_from
find_from-first i j needle [] h = absurd (cc)
find_from-first i j needle (c ∷ cs) h = elim (Bool-cases (has_prefix needle (c ∷ cs))) [
  | inl e ↦
      let h' : some i ≡ some j = rw e at h in
      let y : i ≡ j = cc in (0, omega arith, (e, λ m l. absurd (omega arith)))
  | inr e ↦
      let r = find_from-first (i + 1) j needle cs (rw e at h) in
      (suc r.0, omega (arith, r.1), (r.2.0, earlier needle c cs r.0 e r.2.1))
]

str_find-first :
    (s needle : List ℕ) (k : ℕ) → needle ≢ [] → str_find s needle ≡ some k → FirstAt k needle s
unfolding str_find
str_find-first s [] k n h = absurd (n refl)
str_find-first s (c ∷ cs) k n h =
    let r = find_from-first 0 k (c ∷ cs) s h in
    let y : r.0 ≡ k = omega (arith, r.1) in subst (λ x. FirstAt x (c ∷ cs) s) y r.2

prefix-split :
    (needle s : List ℕ) → has_prefix needle s ≡ true → s ≡ needle ++ drop (length needle) s
unfolding has_prefix
prefix-split [] s h = refl
prefix-split (n ∷ ns) [] h = absurd (cc)
prefix-split (n ∷ ns) (c ∷ cs) h = elim (Bool-cases (n == c)) [
  | inl e ↦ let y : c ≡ n = ground arith in ap₂ ◌∷◌ y (prefix-split ns cs (rw e at h))
  | inr e ↦ absurd (let h' : false ≡ true = rw e at h in cc)
]

take-drop : (k : ℕ) (s : List ℕ) → s ≡ take k s ++ drop k s
take-drop zero s = refl
take-drop (suc k) [] = refl
take-drop (suc k) (c ∷ cs) = ap (◌∷◌ c) (take-drop k cs)

drop-nil : (k : ℕ) → ◌≡◌ {A = List ℕ} (drop k []) []
drop-nil zero = refl
drop-nil (suc k) = refl

drop-drop : (a b : ℕ) (s : List ℕ) → drop b (drop a s) ≡ drop (a + b) s
drop-drop zero b s = ap (λ k. drop k s) {y = 0 + b} (omega arith)
drop-drop (suc a) b [] = drop-nil b ∙ sym (drop-nil (suc a + b))
drop-drop (suc a) b (c ∷ cs) =
    drop-drop a b cs ∙ ap (λ k. drop k (c ∷ cs)) {x = suc (a + b)} {y = suc a + b} (omega arith)

-- The pattern's first place in one text has the new text in the other.
abbrev pub Replaced : List ℕ → List ℕ → List ℕ → List ℕ → Type 0
Replaced content old new out =
    (before after : List ℕ) × (content ≡ before ++ (old ++ after))
    × (out ≡ before ++ (new ++ after))
    × ((m : ℕ) → m < length before → has_prefix old (drop m content) ≡ false)

-- A text without a NUL is patched at the first place of the pattern: it is what stands before, the
-- pattern and a rest, the pattern stands nowhere earlier, and the result has the new text in its place.
replace_first-splits :
    (content old new out : List ℕ)
    → until_nul content ≡ content
    → old ≢ []
    → replace_first content old new ≡ some out
    → Replaced content old new out
unfolding replace_first
replace_first-splits content old new out u n h =
    elim (Option-cases (str_find (until_nul content) old)) [
      | inl e ↦ absurd (let h' : none ≡ some out = rw (replace_first, e) at h in cc)
      | inr (k, e) ↦
          let f : FirstAt k old content =
            subst (FirstAt k old) u (str_find-first (until_nul content) old k n e) in
          let rest = drop (k + length old) content in
          let y : out ≡ take k content ++ (new ++ rest) =
            (let h' = rw (replace_first, e) at h in cc) in
          let d : drop k content ≡ old ++ rest =
            prefix-split old (drop k content) f.0
            ∙ ap (λ t. old ++ t) (drop-drop k (length old) content) in
          (
            take k content,
            rest,
            take-drop k content ∙ ap (λ t. take k content ++ t) d,
            y,
            λ m l. f.1 m (omega (arith, length-take k content)),
          )
    ]

patch_decoded-eq :
    (room : ℕ) (old new out : List ℕ) (ip : Inode)
    → is_regular ip ≡ true
    → length ip.content < page_limit
    → old ≢ []
    → replace_first ip.content old new ≡ some out
    → length out < page_limit
    → length out ≤ room
    → patch_decoded true room (codes "replace") old new (some ip) ≡ record {
      response = tool_resp_set tool_ok (codes "{status=ok,op=replace}");
      inode = some (summary_refresh (record ip { content = take room out }));
      changed = true;
    }
unfolding patch_decoded patch_inode write_patch
patch_decoded-eq room [] new out ip r l n f s b = absurd (n refl)
patch_decoded-eq room (c ∷ cs) new out ip r l n f s b =
    let q : streq (codes "replace") (codes "replace") ≡ true = streq_refl (codes "replace") in
    let z : (suc (length cs) == 0) ≡ false = ground arith in
    let l' : ltb (length ip.content) page_limit ≡ true = ground arith in
    let s' : leb page_limit (length out) ≡ false = ground arith in
    let b' : ltb room (length out) ≡ false = ground arith in
    rw (q, z, patch_inode, r, l', f, s', write_patch, b') refl

-- patch_file with the operation "replace", on a text file of less than a page in which the decoded
-- pattern stands, with memory and room for the result: the file then has its text with the first
-- place of the pattern replaced by the decoded new text, and the change is made known.
pub patch_file-replaces :
    (namei : List ℕ → Option Inode) (room : ℕ) (params path old new out : List ℕ) (ip : Inode)
    → param_value params (codes "path") 64 ≡ some path
    → param_value params (codes "op") 16 ≡ some (codes "replace")
    → param_value params (codes "old") 128 ≡ some old
    → param_value params (codes "new") 128 ≡ some new
    → namei path ≡ some ip
    → is_regular ip ≡ true
    → length ip.content < page_limit
    → until_nul ip.content ≡ ip.content
    → percent_decode old 128 ≢ []
    → replace_first ip.content (percent_decode old 128) (percent_decode new 128) ≡ some out
    → length out < page_limit
    → length out ≤ room
    → (ip' : Inode) × ((patch_file namei true room params).inode ≡ some ip')
      × ((patch_file namei true room params).changed ≡ true)
      × Replaced ip.content (percent_decode old 128) (percent_decode new 128) ip'.content
unfolding patch_file
patch_file-replaces namei room params path old new out ip p o d w i r l u n f s b =
    let e =
      patch_decoded-eq room (percent_decode old 128) (percent_decode new 128) out ip r l n f s b in
    rw (patch_file, p, o, d, w, i)
      (
        summary_refresh (record ip { content = take room out }),
        ap (λ x. x.inode) e,
        ap (λ x. x.changed) e,
        subst (Replaced ip.content (percent_decode old 128) (percent_decode new 128))
            (sym (take-all room out b))
            (replace_first-splits ip.content (percent_decode old 128) (percent_decode new 128) out u
              n f),
      )
