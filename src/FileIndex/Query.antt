-- ===== src/FileIndex/Query.antt =====
-- Queries of the file index: file_query_parse, file_meta_matches and the plans of
-- agentfs_tool_query_file of kernel/agent_fs.c.
use aaaos_renovation_agent_o.Prelude.{
  ℕ, zero, suc, ◌+◌, Bool, true, false, ◌&&◌, ◌||◌, not, Option, none, some, List, [], ◌∷◌, ◌++◌,
  ◌==◌, if◌then◌else◌, ltb, take, length, get_or, get_elem?,
}
use aaaos_renovation_agent_o.Params.{streq, has_prefix}
use aaaos_renovation_agent_o.Text.{codes}
use aaaos_renovation_agent_o.Files.{Attr}
use aaaos_renovation_agent_o.FileIndex.{Meta, Posting, Index, file_attr_hash, posting_max}

-- struct agent_file_query_cond is an Attr: a key and a value.
pub record Query : Type 0 where
  pub conds : List Attr
  pub keyword : List ℕ
  pub force_scan : Bool

-- AGENT_FILE_QUERY_COND_MAX
abbrev pub query_cond_max : ℕ
query_cond_max = 6

unfoldable pub skip_semis : List ℕ → List ℕ
skip_semis [] = []
skip_semis (c ∷ cs) = if c == b';' then skip_semis cs else c ∷ cs

-- The bytes up to one that ends them or to the end of the buffer, and what is behind them
unfoldable pub read_while : (ℕ → Bool) → ℕ → List ℕ → List ℕ × List ℕ
read_while go zero s = ([], s)
read_while go (suc room) [] = ([], [])
read_while go (suc room) (c ∷ cs) =
    let rest = read_while go room cs in if go c then (c ∷ rest.0, rest.1) else ([], c ∷ cs)

abbrev pub in_key : ℕ → Bool
in_key c = not (c == b'=') && not (c == b';')

abbrev pub in_value : ℕ → Bool
in_value c = not (c == b';')

-- What one field does to the query; none for -1
unfoldable pub add_field : List ℕ → List ℕ → Query → Option Query
add_field key value q =
    if streq key (codes "keyword")
    then some (record q { keyword = take 15 value })
    else if streq key (codes "public")
    then some q
    else if streq key (codes "mode")
    then some (if streq value (codes "scan") then record q { force_scan = true } else q)
    else if streq key (codes "nonce")
    then some q
    else if ltb (length q.conds) query_cond_max
    then some (record q { conds = q.conds ++ (record { key = key; value = value } ∷ []) })
    else none

abbrev pub skip_semi : List ℕ → List ℕ
skip_semi [] = []
skip_semi (c ∷ cs) = if c == b';' then cs else c ∷ cs

-- A field: its key, its value, and what is behind it
pub record Field : Type 0 where
  pub key : List ℕ
  pub value : List ℕ
  pub rest : List ℕ

abbrev pub field_value : List ℕ → List ℕ → Option Field
field_value key [] = none
field_value key (c ∷ cs) =
    let v = read_while in_value 15 cs in
    if c == b'=' then some (record { key = key; value = v.0; rest = skip_semi v.1 }) else none

-- A key, a '=' and a value; none for -1
unfoldable pub read_field : List ℕ → Option Field
read_field s = let k = read_while in_key 7 s in field_value k.0 k.1

-- The loop of file_query_parse. A round takes at least the '=', so the number of the bytes that are
-- left is enough fuel.
unfoldable pub parse_fields : ℕ → List ℕ → Query → Option Query
parse_fields zero s q = some q
parse_fields (suc fuel) s q = elim (skip_semis s) [
  | [] ↦ some q
  | c ∷ cs ↦ elim (read_field (c ∷ cs)) [
    | none ↦ none
    | some f ↦ elim (add_field f.key f.value q) [
      | none ↦ none
      | some q' ↦ parse_fields fuel f.rest q'
    ]
  ]
]

abbrev pub empty_query : Query
empty_query = record { conds = []; keyword = []; force_scan = false }

-- file_query_parse
unfoldable pub query_parse : List ℕ → Option Query
query_parse params = parse_fields (length params) params empty_query

-- file_attr_match
unfoldable pub attr_match : List Attr → Attr → Bool
attr_match [] c = false
attr_match (a ∷ as') c = (streq a.key c.key && streq a.value c.value) || attr_match as' c

unfoldable pub contains_from : List ℕ → List ℕ → Bool
contains_from needle [] = false
contains_from needle (c ∷ cs) = has_prefix needle (c ∷ cs) || contains_from needle cs

-- str_contains
unfoldable pub str_contains : List ℕ → List ℕ → Bool
str_contains s [] = true
str_contains s (n ∷ ns) = contains_from (n ∷ ns) s

unfoldable pub all_match : List Attr → List Attr → Bool
all_match attrs [] = true
all_match attrs (c ∷ cs) = attr_match attrs c && all_match attrs cs

-- file_meta_matches
unfoldable pub meta_matches : Meta → List Attr → List ℕ → Bool
meta_matches m conds [] = all_match m.attrs conds
meta_matches m conds (k ∷ ks) = all_match m.attrs conds && str_contains m.summary (k ∷ ks)

-- `meta->used`, and what the query asks
unfoldable pub meta_hit : List Attr → List ℕ → Meta → Bool
meta_hit conds keyword m = m.used && meta_matches m conds keyword

abbrev pub hit_of : List Attr → List ℕ → Option Meta → Option Meta
hit_of conds keyword none = none
hit_of conds keyword (some m) = if meta_hit conds keyword m then some m else none

-- The body of the index loop, up to the hit
unfoldable pub posting_hit : List Meta → List Attr → List ℕ → Attr → Posting → Option Meta
posting_hit metas conds keyword c q =
    if streq q.key c.key && streq q.value c.value
    then hit_of conds keyword (get_elem? metas q.entry_idx)
    else none

abbrev pub push : Option Meta → List Meta → List Meta
push none ms = ms
push (some m) ms = m ∷ ms

-- The hits of the postings that the loop visits, in its order
unfoldable pub visit : List Meta → List Attr → List ℕ → Attr → List Posting → List Meta
visit metas conds keyword c [] = []
visit metas conds keyword c (q ∷ qs) =
    push (posting_hit metas conds keyword c q) (visit metas conds keyword c qs)

abbrev pub posting_at : List Posting → Option ℕ → Option Posting
posting_at ps none = none
posting_at ps (some i) = get_elem? ps i

-- The chain of a bucket. The fuel is AGENT_FILE_POSTING_MAX: a link goes to an earlier slot.
unfoldable pub follow : ℕ → List Posting → Option ℕ → List Posting
follow zero ps post = []
follow (suc fuel) ps post = elim (posting_at ps post) [
  | none ↦ []
  | some q ↦ q ∷ follow fuel ps q.next
]

-- The hits of the scan of the table, in its order
unfoldable pub scan : List Attr → List ℕ → List Meta → List Meta
scan conds keyword [] = []
scan conds keyword (m ∷ ms) = push (hit_of conds keyword (some m)) (scan conds keyword ms)

unfoldable pub count_used : List Meta → ℕ
count_used [] = 0
count_used (m ∷ ms) = if m.used then 1 + count_used ms else count_used ms

-- What a plan finds: its hits, the entries or postings that it looked at, and which plan it is
pub record Found : Type 0 where
  pub hits : List Meta
  pub index_scanned : ℕ
  pub used_index : Bool

unfoldable pub chain : Index → Attr → List Posting
chain ix c = follow posting_max ix.postings (get_or ix.heads (file_attr_hash c.key c.value) none)

-- The plans of agentfs_tool_query_file: the index for the first condition, unless there is none or a
-- scan is forced
unfoldable pub scan_plan : List Meta → Query → Found
scan_plan metas q = record {
  hits = scan q.conds q.keyword metas;
  index_scanned = count_used metas;
  used_index = false;
}

unfoldable pub index_plan : List Meta → Index → Query → Attr → Found
index_plan metas ix q c = record {
  hits = visit metas q.conds q.keyword c (chain ix c);
  index_scanned = length (chain ix c);
  used_index = true;
}

unfoldable pub run_plan : List Meta → Index → Query → List Attr → Found
run_plan metas ix q [] = scan_plan metas q
run_plan metas ix q (c ∷ cs) = if q.force_scan then scan_plan metas q else index_plan metas ix q c

unfoldable pub run_query : List Meta → Index → Query → Found
run_query metas ix q = run_plan metas ix q q.conds
