-- ===== src/Region.antt =====
-- The Context region of a process in user memory and its header: the static functions of
-- kernel/agent_context.c, agent_sync_header, agent_evict_oldest and agent_context_clear. copyin and
-- copyout work on the region as a whole: they succeed where it is mapped.
pub mod Room
use aaaos_renovation_agent_o.Prelude.{
  ℕ, zero, suc, ◌+◌, ◌-◌, ◌%◌, ◌^◌, min, Bool, true, false, not, ◌&&◌, ◌||◌, Option, none, some,
  List, [], ◌∷◌, ◌++◌, ltb, leb, ◌==◌, if◌then◌else◌, u64, get_or, set, take, drop, replicate,
  length, map,
}
use aaaos_renovation_agent_o.Proc.{
  Proc, Context, Dep, context_header_bytes, context_max_nodes, digest_max,
}
use aaaos_renovation_agent_o.Digest

-- struct agent_context_header, less its constant fields (magic, version, sizes, path_offset) and
-- last_tool, which stays empty.
pub record Header : Type 0 where
  pub region_size : ℕ
  pub path_length : ℕ
  pub node_count : ℕ
  pub dropped_nodes : ℕ
  pub generation : ℕ
  pub first_sequence : ℕ
  pub next_sequence : ℕ
  pub last_timestamp : ℕ
  pub last_result : List ℕ

-- The region: its header and the bytes after it
pub record Region : Type 0 where
  pub mapped : Bool
  pub header : Header
  pub path : List ℕ

-- The header of a region of zeros
abbrev pub zero_header : Header
zero_header = record {
  region_size = 0;
  path_length = 0;
  node_count = 0;
  dropped_nodes = 0;
  generation = 0;
  first_sequence = 0;
  next_sequence = 0;
  last_timestamp = 0;
  last_result = [];
}

abbrev pub no_dep : Dep
no_dep = record { used = false; sequence = 0; dev = 0; inum = 0; version = 0 }

-- agent_path_capacity
unfoldable pub path_capacity : Context → ℕ → ℕ
path_capacity c quota =
    let cap = u64 (c.region_size + 2 ^ 64 - context_header_bytes) in
    if quota == 0 || ltb cap quota then cap else quota

-- agent_context_build_header
unfoldable pub build_header : Context → ℕ → List ℕ → Header
build_header c now last = record {
  region_size = c.region_size;
  path_length = c.path_len;
  node_count = c.node_count;
  dropped_nodes = c.dropped_nodes;
  generation = c.generation;
  first_sequence = c.first_sequence;
  next_sequence = c.next_sequence;
  last_timestamp = now;
  last_result = last;
}

-- agent_context_write_header
unfoldable pub write_header : Context → Region → Header → Bool × Region
write_header c r h =
    if c.region_start == 0 || not r.mapped then (false, r) else (true, record r { header = h })

-- The generation of a write that begins is odd, and of one that is done even.
unfoldable pub odd_generation : ℕ → ℕ
odd_generation g = if g % 2 == 0 then u64 (g + 1) else u64 (g + 2)

unfoldable pub even_generation : ℕ → ℕ
even_generation g = if g % 2 == 0 then u64 (g + 2) else u64 (g + 1)

-- agent_context_write_begin
unfoldable pub write_begin : Context → Region → ℕ → Bool × Context × Region
write_begin c r now =
    let c' : Context = record c { generation = odd_generation c.generation } in
    let (w, r') = write_header c' r (build_header c' now []) in (w, c', r')

-- The bytes before a NUL
unfoldable pub c_string : List ℕ → List ℕ
c_string [] = []
c_string (x ∷ xs) = if x == 0 then [] else x ∷ c_string xs

-- agent_context_fill_last: the last 127 bytes of the path at most
unfoldable pub last_result_of : Context → Region → List ℕ
last_result_of c r = let n = min c.path_len 127 in c_string (take n (drop (c.path_len - n) r.path))

-- agent_sync_header
unfoldable pub sync_header : Context → Region → ℕ → Bool × Context × Region
sync_header c r now =
    let c' : Context = record c { generation = even_generation c.generation } in
    let (w, r') = write_header c' r (build_header c' now (last_result_of c' r)) in (w, c', r')

-- `xs[0 .. n-2] = f(xs[1 .. n-1]); xs[n-1] = z`
unfoldable pub shift_down : {A : Type 0} → (A → A) → A → ℕ → List A → List A
shift_down f z zero xs = xs
shift_down f z (suc n) xs = map f (take n (drop 1 xs)) ++ (z ∷ drop (suc n) xs)

-- The deps after memset
abbrev pub no_deps : List Dep
no_deps = replicate context_max_nodes no_dep

-- The length that an eviction removes
unfoldable pub evicted_length : Context → ℕ
evicted_length c = let l = get_or c.lengths 0 0 in if ltb c.path_len l then c.path_len else l

-- The arrays and counters after an eviction
unfoldable pub evict_arrays : Context → Context
evict_arrays c =
    let l = evicted_length c in
    record c {
      path_len = c.path_len - l;
      offsets = shift_down (λ o. u64 (o + 2 ^ 64 - l)) 0 c.node_count c.offsets;
      lengths = shift_down (λ n. n) 0 c.node_count c.lengths;
      deps = shift_down (λ d. d) no_dep c.node_count c.deps;
      node_count = c.node_count - 1;
      dropped_nodes = u64 (c.dropped_nodes + 1);
      first_sequence = u64 (c.first_sequence + 1);
    }

-- The bytes after the move of the rest of the path to its start
unfoldable pub move_path : Context → List ℕ → List ℕ
move_path c path =
    let remain = c.path_len - evicted_length c in
    take remain (drop (evicted_length c) path) ++ drop remain path

-- agent_evict_oldest
unfoldable pub evict_oldest : Context → Region → Context × Region
evict_oldest c r =
    if c.node_count == 0
    then (record c { path_len = 0; deps = no_deps }, r)
    else if not r.mapped && ltb 0 (c.path_len - evicted_length c)
    then (record c { path_len = 0; node_count = 0; deps = no_deps }, r)
    else (evict_arrays c, record r { path = move_path c r.path })

-- The condition of the eviction loop: 16 nodes, or a record that does not fit. The sum is a uint64 in the
-- code: a path lies in user memory, so that its length with that of a record does not reach 2^64.
unfoldable pub is_short : Context → ℕ → ℕ → Bool
is_short c capacity rec_len =
    leb context_max_nodes c.node_count || ltb capacity (c.path_len + rec_len)

-- The eviction loop of agent_context_push_node; none where the fuel runs out.
unfoldable pub make_room : ℕ → ℕ → ℕ → Context → Region → Option (Context × Region)
make_room zero capacity rec_len c r = if is_short c capacity rec_len then none else some (c, r)
make_room (suc fuel) capacity rec_len c r =
    let rest = make_room fuel capacity rec_len (evict_oldest c r).0 (evict_oldest c r).1 in
    if is_short c capacity rec_len then rest else some (c, r)

-- The digests after memset
abbrev pub no_digests : Context → Context
no_digests c = record c {
  digests = replicate digest_max Digest.blank;
  digest_head = 0;
  digest_count = 0;
}

-- The fields that agent_context_clear resets first
unfoldable pub cleared : Context → Context
cleared c = record c {
  path_len = 0;
  node_count = 0;
  dropped_nodes = 0;
  first_sequence = 0;
  next_sequence = 1;
  offsets = replicate context_max_nodes 0;
  lengths = replicate context_max_nodes 0;
  deps = no_deps;
  pending = no_dep;
}

-- The region after zeros are copied over it
abbrev pub zeroed : Region → Region
zeroed r =
    if r.mapped then record r { header = zero_header; path = replicate (length r.path) 0 } else r

-- `if(p->context_region_start != 0) agent_context_write_begin(p)`
unfoldable pub begin_clear : Context → Region → ℕ → Context × Region
begin_clear c r now =
    let (w, c', r') = write_begin c r now in if c.region_start == 0 then (c, r) else (c', r')

-- agent_context_clear
unfoldable pub context_clear : Context → Region → ℕ → Context × Region
context_clear c r now =
    let (c', r') = begin_clear c r now in
    let (w, c'', r'') = sync_header (no_digests (cleared c')) (zeroed r') now in
    if c.region_start == 0 || c.region_size == 0 then (cleared c', r') else (c'', r'')
