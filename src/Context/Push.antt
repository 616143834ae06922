-- ===== src/Context/Push.antt =====
-- What a push leaves: it always answers, it stays within its bounds, and it publishes a stable header.
use aaaos_renovation_agent_o.Prelude.{
  ℕ, ◌+◌, ◌%◌, ◌≤◌, ◌<◌, ◌≡◌, refl, ap, Bool, true, false, not, ◌||◌, Option, some, List, arith,
  Bool-cases, inl, inr, ◌==◌, ltb, length,
}
use aaaos_renovation_agent_o.Proc.{Context, Dep, context_max_nodes}
use aaaos_renovation_agent_o.Digest.{digest_push}
use aaaos_renovation_agent_o.Text.{Node, record_text}
use aaaos_renovation_agent_o.Region.{
  Region, path_capacity, even_generation, build_header, write_header, write_begin, sync_header,
  make_room, no_dep,
}
use aaaos_renovation_agent_o.Region.Room.{Ends, make_room-enough}
use aaaos_renovation_agent_o.Context.{
  append_node, pushed_context, write_at, push_record, push_evicted, push_checked, push_node, dep_of,
  after_sequence,
}

-- The counters are in bounds, and the header in the region is that of a stable snapshot of them.
pub record Published (capacity : ℕ) (c : Context) (r : Region) : Type 0 where
  pub nodes_le : c.node_count ≤ context_max_nodes
  pub path_le : c.path_len ≤ capacity
  pub stable : r.header.generation % 2 ≡ 0
  pub same_generation : r.header.generation ≡ c.generation
  pub same_length : r.header.path_length ≡ c.path_len
  pub same_count : r.header.node_count ≡ c.node_count

pub even_generation-even : (g : ℕ) → even_generation g % 2 ≡ 0
unfolding even_generation
even_generation-even g = ground arith

sync_header-Published :
    (capacity : ℕ) (c : Context) (r : Region) (now : ℕ)
    → c.node_count ≤ context_max_nodes
    → c.path_len ≤ capacity
    → (sync_header c r now).0 ≡ true
    → Published capacity (sync_header c r now).1 (sync_header c r now).2
unfolding sync_header write_header build_header
sync_header-Published capacity c r now n l h =
    elim (Bool-cases (c.region_start == 0 || not r.mapped)) [
      | inl b ↦ absurd (let h' : false ≡ true = rw b at h in cc)
      | inr b ↦ rw b (record {
        nodes_le = n;
        path_le = l;
        stable = even_generation-even c.generation;
        same_generation = refl;
        same_length = refl;
        same_count = refl;
      })
    ]

pushed-counts :
    (node : Node) (sequence : ℕ) (dep : Dep) (text : List ℕ) (c : Context)
    → ((pushed_context node sequence dep text c).node_count ≡ c.node_count + 1)
      × ((pushed_context node sequence dep text c).path_len ≡ c.path_len + length text)
unfolding pushed_context append_node digest_push
pushed-counts node sequence dep text c = (refl, refl)

push_record-Published :
    (node : Node) (sequence : ℕ) (dep : Dep) (text : List ℕ) (capacity now : ℕ) (c : Context)
    (r : Region)
    → c.node_count < context_max_nodes
    → c.path_len + length text ≤ capacity
    → let x = push_record node sequence dep text now c r in x.0 ≡ true → Published capacity x.1 x.2
unfolding push_record
push_record-Published node sequence dep text capacity now c r n l h =
    elim (Bool-cases (not r.mapped)) [
      | inl b ↦ absurd (let h' : false ≡ true = rw b at h in cc)
      | inr b ↦
          let (k, m) = pushed-counts node sequence dep text c in
          rw b (
            sync_header-Published capacity (pushed_context node sequence dep text c)
              (record r { path = write_at r.path c.path_len text }) now (omega arith) (omega arith)
              (rw b at h))
    ]

-- The answer of a push: there is one, and what it published if it is 0
abbrev pub Answers : ℕ → Option (Bool × Context × Region) → Type 0
Answers capacity o =
    (x : Bool × Context × Region) × (o ≡ some x) × (x.0 ≡ true → Published capacity x.1 x.2)

-- An answer of -1 publishes nothing.
fails : (capacity : ℕ) (c : Context) (r : Region) → Answers capacity (some (false, c, r))
fails capacity c r = ((false, c, r), refl, λ h. absurd (cc))

push_evicted-Answers :
    (node : Node) (sequence : ℕ) (dep : Dep) (text : List ℕ) (capacity now : ℕ)
    (o : Option (Context × Region))
    → Ends o capacity (length text)
    → Answers capacity (push_evicted node sequence dep text now o)
push_evicted-Answers node sequence dep text capacity now o (s, e, n, l) = (
  push_record node sequence dep text now s.0 s.1,
  ap (push_evicted node sequence dep text now) e,
  push_record-Published node sequence dep text capacity now s.0 s.1 n l,
)

write_begin-node_count :
    (c : Context) (r : Region) (now : ℕ) → (write_begin c r now).1.node_count ≡ c.node_count
unfolding write_begin
write_begin-node_count c r now = refl

-- The Context at the start of the eviction loop
abbrev begun : Context → Region → ℕ → Context
begun c r now = record ((write_begin c r now).1) {
  next_sequence = after_sequence ((write_begin c r now).1).next_sequence;
}

push_checked-Answers :
    (node : Node) (sequence : ℕ) (dep : Dep) (text : List ℕ) (capacity now : ℕ) (c : Context)
    (r : Region)
    → length text ≤ capacity
    → Answers capacity (push_checked node sequence dep text capacity now c r)
unfolding push_checked
push_checked-Answers node sequence dep text capacity now c r l =
    elim (Bool-cases (write_begin c r now).0) [
      | inr w ↦ rw w (fails capacity (write_begin c r now).1 (write_begin c r now).2)
      | inl w ↦ rw w (
          push_evicted-Answers node sequence dep text capacity now
            (make_room (c.node_count + 1) capacity (length text) (begun c r now)
              (write_begin c r now).2)
            (make_room-enough (c.node_count + 1) capacity (length text) (begun c r now)
              (write_begin c r now).2 (let k = write_begin-node_count c r now in omega arith) l))
    ]

-- agent_context_push_node answers on every Context: its eviction loop ends. Where it answers 0, the
-- Context has at most 16 nodes, its path is within the capacity of the region and the quota, and the
-- header in user memory is even (no update is going on) and agrees with the kernel's counters.
pub push_node-Answers :
    (c : Context) (quota : ℕ) (r : Region) (node : Node) (now : ℕ)
    → Answers (path_capacity c quota) (push_node c quota r node now)
unfolding push_node
push_node-Answers c quota r node now =
    let c' : Context = record c { pending = no_dep } in
    let text = record_text node c.next_sequence in
    elim (Bool-cases (c.region_start == 0)) [
      | inl z ↦ rw z (fails (path_capacity c quota) c' r)
      | inr z ↦ elim (Bool-cases (ltb (path_capacity c quota) (length text))) [
        | inl b ↦ rw (z, b) (fails (path_capacity c quota) c' r)
        | inr b ↦
            rw (z, b)
              (push_checked-Answers node c.next_sequence (dep_of c c.next_sequence) text
                (path_capacity c quota) now c' r (ground arith))
      ]
    ]
