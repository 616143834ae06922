-- ===== src/FileIndex.antt =====
-- The file index of kernel/agent_fs.c: the table file_meta with file_cache_upsert_locked, and the
-- postings with file_attr_hash, file_add_posting_locked and file_rebuild_postings_locked. The
-- postings that are used stand at the head of their array, since only a reset frees one, and it
-- frees all: a list holds them. An index of -1 is none.
pub mod Walk
pub mod Query
pub mod Parse
pub mod RoundTrip
pub mod Chain
pub mod Plan
use aaaos_renovation_agent_o.Prelude.{
  ℕ, zero, suc, ◌+◌, ◌*◌, ◌%◌, Bool, true, false, ◌&&◌, Option, none, some, List, [], ◌∷◌, ◌++◌,
  ◌==◌, if◌then◌else◌, ltb, u32, take, length, get_or, set, replicate,
}
use aaaos_renovation_agent_o.Files.{Attr, Inode}

-- struct agent_file_meta; `attr_count` is the length of `attrs`.
pub record Meta : Type 0 where
  pub used : Bool
  pub inum : ℕ
  pub dev : ℕ
  pub path : List ℕ
  pub summary : List ℕ
  pub attrs : List Attr

-- struct agent_file_posting
pub record Posting : Type 0 where
  pub entry_idx : ℕ
  pub next : Option ℕ
  pub key : List ℕ
  pub value : List ℕ

-- file_postings and file_index
pub record Index : Type 0 where
  pub postings : List Posting
  pub heads : List (Option ℕ)

-- AGENT_FILE_META_MAX
abbrev pub meta_max : ℕ
meta_max = 160

-- AGENT_FILE_INDEX_BUCKETS
abbrev pub index_buckets : ℕ
index_buckets = 67

-- AGENT_FILE_POSTING_MAX
abbrev pub posting_max : ℕ
posting_max = 640

-- `hash = ((hash << 5) + hash) + c` on a uint
abbrev pub hash_step : ℕ → ℕ → ℕ
hash_step hash c = u32 (hash * 33 + c)

unfoldable pub hash_text : ℕ → List ℕ → ℕ
hash_text hash [] = hash
hash_text hash (c ∷ cs) = hash_text (hash_step hash c) cs

-- file_attr_hash
unfoldable pub file_attr_hash : List ℕ → List ℕ → ℕ
file_attr_hash key value = hash_text (hash_step (hash_text 5381 key) b'=') value % index_buckets

-- file_index_reset_locked
abbrev pub index_reset : Index
index_reset = record { postings = []; heads = replicate index_buckets none }

-- The posting that goes into the next slot
abbrev pub make_posting : Index → ℕ → Attr → Posting
make_posting ix entry_idx a = record {
  entry_idx = entry_idx;
  next = get_or ix.heads (file_attr_hash a.key a.value) none;
  key = a.key;
  value = a.value;
}

-- file_add_posting_locked: a full array takes no more.
unfoldable pub add_posting : ℕ → Attr → Index → Index
add_posting entry_idx a ix =
    if ltb (length ix.postings) posting_max
    then record {
      postings = ix.postings ++ (make_posting ix entry_idx a ∷ []);
      heads = set ix.heads (file_attr_hash a.key a.value) (some (length ix.postings));
    }
    else ix

-- The inner loop of file_rebuild_postings_locked
unfoldable pub add_postings : ℕ → List Attr → Index → Index
add_postings entry_idx [] ix = ix
add_postings entry_idx (a ∷ as') ix = add_postings entry_idx as' (add_posting entry_idx a ix)

-- The body of the outer loop
unfoldable pub add_entry : ℕ → Meta → Index → Index
add_entry i m ix = if m.used then add_postings i m.attrs ix else ix

-- The outer loop, from the entry `i` on
unfoldable pub rebuild_from : ℕ → List Meta → Index → Index
rebuild_from i [] ix = ix
rebuild_from i (m ∷ ms) ix = rebuild_from (i + 1) ms (add_entry i m ix)

-- file_rebuild_postings_locked
unfoldable pub rebuild_postings : List Meta → Index
rebuild_postings metas = rebuild_from 0 metas index_reset

-- file_cache_find_by_inum_locked, from the entry `i` on
unfoldable pub find_by_inum : ℕ → ℕ → List Meta → Option ℕ
find_by_inum inum i [] = none
find_by_inum inum i (m ∷ ms) =
    let rest = find_by_inum inum (i + 1) ms in if m.used && m.inum == inum then some i else rest

-- The first entry that is not used, from the entry `i` on
unfoldable pub find_free : ℕ → List Meta → Option ℕ
find_free i [] = none
find_free i (m ∷ ms) = let rest = find_free (i + 1) ms in if m.used then rest else some i

-- file_cache_fill_from_inode_locked
abbrev pub fill_from_inode : Inode → List ℕ → Meta
fill_from_inode ip path = record {
  used = true;
  inum = ip.inum;
  dev = ip.dev;
  path = take 63 path;
  summary = ip.summary;
  attrs = ip.attrs;
}

abbrev pub or_else : Option ℕ → Option ℕ → Option ℕ
or_else (some i) other = some i
or_else none other = other

-- file_cache_upsert_locked: a full table stays.
unfoldable pub upsert : Inode → List ℕ → List Meta → List Meta
upsert ip path metas = elim (or_else (find_by_inum ip.inum 0 metas) (find_free 0 metas)) [
  | none ↦ metas
  | some i ↦ set metas i (fill_from_inode ip path)
]
