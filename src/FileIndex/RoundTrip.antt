-- ===== src/FileIndex/RoundTrip.antt =====
-- Queries as texts: what file_query_parse makes of the text of a query.
use mathlib.Core.List.{append_assoc, append-nil}
use aaaos_renovation_agent_o.Prelude.{
  ℕ, zero, suc, ◌+◌, ◌-◌, ◌≤◌, ◌≡◌, refl, sym, ap, ◌∙◌, Bool, true, false, some, List, [], ◌∷◌,
  ◌++◌, arith, ◌==◌, length, length-append, take, All, if◌then◌else◌, ltb,
}
use aaaos_renovation_agent_o.Text.{codes}
use aaaos_renovation_agent_o.Params.{streq}
use aaaos_renovation_agent_o.Files.{Attr}
use aaaos_renovation_agent_o.FileIndex.Query.{
  query_parse, empty_query, Query, skip_semis, read_while, in_key, in_value, read_field, add_field,
  parse_fields,
}

-- The text `key=value;`, before more text
unfoldable pub field_text : List ℕ → List ℕ → List ℕ → List ℕ
field_text key value rest = key ++ (b'=' ∷ (value ++ (b';' ∷ rest)))

unfoldable pub conds_text : List Attr → List ℕ → List ℕ
conds_text [] rest = rest
conds_text (a ∷ as') rest = field_text a.key a.value (conds_text as' rest)

abbrev pub mode_text : Bool → List ℕ
mode_text scans = if scans then codes "scan" else codes "index"

-- The text of a query: its conditions, its keyword and its mode
unfoldable pub query_text : Query → List ℕ
query_text q =
    conds_text q.conds (
      field_text (codes "keyword") q.keyword
        (field_text (codes "mode") (mode_text q.force_scan) []))

abbrev Key : List ℕ → Type 0
Key key = All (λ (c : ℕ). in_key c ≡ true) key × (length key ≤ 7)

abbrev pub Value : List ℕ → Type 0
Value value = All (λ (c : ℕ). in_value c ≡ true) value × (length value ≤ 15)

-- A condition that a text can name: the bytes '=' and ';' do not stand in its key nor ';' in its
-- value, both fit the buffers, and its key is not one of the four words that mean something else.
abbrev pub Condition : Attr → Type 0
Condition a =
    Key a.key
    × Value a.value
    × (streq a.key (codes "keyword") ≡ false)
    × (streq a.key (codes "public") ≡ false)
    × (streq a.key (codes "mode") ≡ false)
    × (streq a.key (codes "nonce") ≡ false)

-- The bytes before a stop, where they fit
read_while-stop :
    (go : ℕ → Bool) (room c : ℕ) (s rest : List ℕ)
    → All (λ (x : ℕ). go x ≡ true) s
    → length s ≤ room
    → go c ≡ false
    → read_while go room (s ++ (c ∷ rest)) ≡ (s, c ∷ rest)
unfolding read_while
read_while-stop go zero c [] rest h l n = refl
read_while-stop go (suc room) c [] rest h l n = rw n refl
read_while-stop go zero c (x ∷ s) rest h l n = absurd (omega arith)
read_while-stop go (suc room) c (x ∷ s) rest h l n =
    let e = read_while-stop go room c s rest h.1 (omega arith) n in rw (h.0, e) refl

read_field-text :
    (key value rest : List ℕ)
    → Key key
    → Value value
    → read_field (field_text key value rest)
      ≡ some (record { key = key; value = value; rest = rest })
unfolding read_field field_text
read_field-text key value rest k v =
    let e = read_while-stop in_key 7 b'=' key (value ++ (b';' ∷ rest)) k.0 k.1 refl in
    let f = read_while-stop in_value 15 b';' value rest v.0 v.1 refl in rw e (rw f refl)

-- A field begins with no semicolon.
text-cons :
    (key value rest : List ℕ)
    → Key key
    → (c : ℕ) × (cs : List ℕ) × (field_text key value rest ≡ c ∷ cs) × ((c == b';') ≡ false)
unfolding field_text
text-cons [] value rest k = (b'=', value ++ (b';' ∷ rest), refl, refl)
text-cons (c ∷ key) value rest k =
    (c, key ++ (b'=' ∷ (value ++ (b';' ∷ rest))), refl, ground (arith, k.0.0))

parse-step :
    (fuel : ℕ) (key value rest : List ℕ) (q q' : Query)
    → Key key
    → Value value
    → add_field key value q ≡ some q'
    → parse_fields (suc fuel) (field_text key value rest) q ≡ parse_fields fuel rest q'
unfolding parse_fields skip_semis
parse-step fuel key value rest q q' k v a =
    let (c, cs, e, n) = text-cons key value rest k in
    let r = sym (ap read_field e) ∙ read_field-text key value rest k v in
    rw (e, parse_fields, n, r, a) refl

add_field-cond :
    (a : Attr) (q : Query)
    → Condition a
    → length q.conds ≤ 5
    → add_field a.key a.value q ≡ some (record q { conds = q.conds ++ (a ∷ []) })
unfolding add_field
add_field-cond a q (k, v, w, x, y, z) l =
    let n : ltb (length q.conds) 6 ≡ true = ground arith in rw (w, x, y, z, n) refl

length-more : (xs : List Attr) (a : Attr) → length (xs ++ (a ∷ [])) ≡ suc (length xs)
length-more [] a = refl
length-more (x ∷ xs) a = ap suc (length-more xs a)

parse-conds :
    (as' : List Attr) (fuel : ℕ) (rest : List ℕ) (q : Query)
    → All Condition as'
    → length q.conds + length as' ≤ 6
    → parse_fields (length as' + fuel) (conds_text as' rest) q
      ≡ parse_fields fuel rest (record q { conds = q.conds ++ as' })
unfolding conds_text
parse-conds [] fuel rest q h l =
    ap (λ n. parse_fields n rest q) {y = fuel} (omega arith)
    ∙ ap (λ x. parse_fields fuel rest (record q { conds = x })) (sym (append-nil q.conds))
parse-conds (a ∷ as') fuel rest q h l =
    let q' : Query = record q { conds = q.conds ++ (a ∷ []) } in
    ap (λ n. parse_fields n (conds_text (a ∷ as') rest) q) {y = suc (length as' + fuel)}
      (omega arith)
    ∙ parse-step (length as' + fuel) a.key a.value (conds_text as' rest) q q' h.0.0 h.0.1
        (add_field-cond a q h.0 (omega arith))
    ∙ parse-conds as' fuel rest q' h.1 (omega (arith, length-more q.conds a))
    ∙ ap (λ x. parse_fields fuel rest (record q { conds = x })) (append_assoc q.conds (a ∷ []) as')

take-all : (n : ℕ) (xs : List ℕ) → length xs ≤ n → take n xs ≡ xs
take-all zero [] l = refl
take-all zero (x ∷ xs) l = absurd (omega arith)
take-all (suc n) [] l = refl
take-all (suc n) (x ∷ xs) l = ap (◌∷◌ x) (take-all n xs (omega arith))

add_keyword :
    (value : List ℕ) (q : Query)
    → length value ≤ 15
    → add_field (codes "keyword") value q ≡ some (record q { keyword = value })
unfolding add_field streq
add_keyword value q l = ap (λ x. some (record q { keyword = x })) (take-all 15 value l)

add_mode :
    (scans : Bool) (q : Query)
    → q.force_scan ≡ false
    → add_field (codes "mode") (mode_text scans) q ≡ some (record q { force_scan = scans })
unfolding add_field streq
add_mode true q e = refl
add_mode false q e = ap (λ x. some (record q { force_scan = x })) e

mode-Value : (scans : Bool) → Value (mode_text scans)
mode-Value true = ((refl, (refl, (refl, (refl, tt)))), omega arith)
mode-Value false = ((refl, (refl, (refl, (refl, (refl, tt))))), omega arith)

keyword-Key : Key (codes "keyword")
keyword-Key = ((refl, (refl, (refl, (refl, (refl, (refl, (refl, tt))))))), omega arith)

mode-Key : Key (codes "mode")
mode-Key = ((refl, (refl, (refl, (refl, tt)))), omega arith)

length-field : (key value rest : List ℕ) → length rest + 2 ≤ length (field_text key value rest)
unfolding field_text
length-field key value rest =
    omega (
      arith,
      length-append key (b'=' ∷ (value ++ (b';' ∷ rest))),
      length-append value (b';' ∷ rest),
    )

length-conds :
    (as' : List Attr) (rest : List ℕ) → length as' + length rest ≤ length (conds_text as' rest)
unfolding conds_text
length-conds [] rest = omega arith
length-conds (a ∷ as') rest =
    omega (arith, length-conds as' rest, length-field a.key a.value (conds_text as' rest))

parse-end : (fuel : ℕ) (q : Query) → parse_fields fuel [] q ≡ some q
unfolding parse_fields skip_semis
parse-end zero q = refl
parse-end (suc fuel) q = refl

-- file_query_parse reads the text of a query to its end. If the query has at most six conditions,
-- whose keys and values fit their buffers and hold no stop byte and whose keys are none of the four
-- words that mean something else,
-- and a keyword that fits its buffer and holds no semicolon, it makes that query: every condition in
-- its order, the keyword and the mode.
pub query_parse-query_text :
    (q : Query)
    → All Condition q.conds
    → length q.conds ≤ 6
    → Value q.keyword
    → query_parse (query_text q) ≡ some q
unfolding query_parse query_text
query_parse-query_text q h l v =
    let tail = field_text (codes "mode") (mode_text q.force_scan) [] in
    let text = field_text (codes "keyword") q.keyword tail in
    let m = length (conds_text q.conds text) - length q.conds - 2 in
    ap (λ n. parse_fields n (conds_text q.conds text) empty_query)
      {y = length q.conds + suc (suc m)}
      (omega (
        arith,
        length-conds q.conds text,
        length-field (codes "keyword") q.keyword tail,
        length-field (codes "mode") (mode_text q.force_scan) [],
      ))
    ∙ parse-conds q.conds (suc (suc m)) text empty_query h (omega arith)
    ∙ parse-step (suc m) (codes "keyword") q.keyword tail (record empty_query { conds = q.conds })
        (record empty_query { conds = q.conds; keyword = q.keyword }) keyword-Key v
        (add_keyword q.keyword (record empty_query { conds = q.conds }) v.1)
    ∙ parse-step m (codes "mode") (mode_text q.force_scan) []
        (record empty_query { conds = q.conds; keyword = q.keyword }) q mode-Key
        (mode-Value q.force_scan)
        (add_mode q.force_scan (record empty_query { conds = q.conds; keyword = q.keyword }) refl)
    ∙ parse-end m q
