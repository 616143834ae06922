-- ===== src/Digest.antt =====
-- The trusted digest ring of a Context: agent_hash_bytes, agent_context_digest_push and
-- agent_context_digest_verify of kernel/agent.c.
pub mod Window
pub mod Ring
use Prim.Native.Nat.{bit_xor}
use aaaos_renovation_agent_o.Prelude.{
  ℕ, zero, suc, ◌+◌, ◌-◌, ◌*◌, ◌%◌, ◌^◌, Bool, true, false, ◌&&◌, ◌||◌, List, [], ◌∷◌, ltb, leb,
  ◌==◌, if◌then◌else◌, ℤ, pos, negsuc, u64, u32, get_or, set,
}
use aaaos_renovation_agent_o.Proc.{Digest, Context, digest_max}

abbrev pub hash_basis : ℕ
hash_basis = 14695981039346656037

abbrev pub hash_prime : ℕ
hash_prime = 1099511628211

-- `h ^= w; h *= 1099511628211` on a uint64
unfoldable pub mix : ℕ → ℕ → ℕ
mix h w = u64 (bit_xor h w * hash_prime)

-- The loop of agent_hash_bytes over a string
unfoldable pub hash_from : ℕ → List ℕ → ℕ
hash_from h [] = h
hash_from h (c ∷ cs) = hash_from (mix h c) cs

-- agent_hash_bytes
unfoldable pub hash_bytes : List ℕ → ℕ
hash_bytes bytes = hash_from hash_basis bytes

-- `(uint64)(uint32)status`
unfoldable pub u32_of_int : ℤ → ℕ
u32_of_int (pos n) = u32 n
u32_of_int (negsuc n) = 2 ^ 32 - 1 - u32 n

-- The hash of a digest: its other fields, chained to the hash before it
unfoldable pub chain_hash : ℕ → ℕ → ℕ → ℕ → ℕ → ℤ → ℕ
chain_hash sequence request_id request_hash result_hash previous_hash status =
    mix
      (mix (mix (mix (mix (mix hash_basis sequence) request_id) request_hash) result_hash)
        previous_hash)
      (u32_of_int status)

-- A slot after memset
abbrev pub blank : Digest
blank = record {
  sequence = 0;
  request_id = 0;
  request_hash = 0;
  result_hash = 0;
  previous_hash = 0;
  current_hash = 0;
  status = pos 0;
}

-- The slot before the head
unfoldable pub last_digest : Context → Digest
last_digest c =
    get_or c.digests (if c.digest_head == 0 then digest_max - 1 else c.digest_head - 1) blank

-- The hash that a new digest is chained to
unfoldable pub last_hash : Context → ℕ
last_hash c = if c.digest_count == 0 then 0 else (last_digest c).current_hash

-- The digest of a node
unfoldable pub digest_of : ℕ → ℕ → ℕ → List ℕ → List ℕ → ℤ → Digest
digest_of previous sequence request_id request result status = record {
  sequence = sequence;
  request_id = request_id;
  request_hash = hash_bytes request;
  result_hash = hash_bytes result;
  previous_hash = previous;
  current_hash =
      chain_hash sequence request_id (hash_bytes request) (hash_bytes result) previous status;
  status = status;
}

-- agent_context_digest_push
unfoldable pub digest_push : Context → ℕ → ℕ → List ℕ → List ℕ → ℤ → Context
digest_push c sequence request_id request result status = record c {
  digests =
      set c.digests c.digest_head
        (digest_of (last_hash c) sequence request_id request result status);
  digest_head = (c.digest_head + 1) % digest_max;
  digest_count = if ltb c.digest_count digest_max then c.digest_count + 1 else c.digest_count;
}

-- `h == d->current_hash`
unfoldable pub is_sealed : Digest → Bool
is_sealed d =
    chain_hash d.sequence d.request_id d.request_hash d.result_hash d.previous_hash d.status
    == d.current_hash

-- The tests for `i > 0`
unfoldable pub follows : Digest → ℕ → ℕ → Bool
follows d expected_prev previous_sequence =
    d.previous_hash == expected_prev && d.sequence == u64 (previous_sequence + 1)

-- The loop of agent_context_digest_verify from its second element on; `at` is an index before the
-- modulus, `left` the number of elements.
unfoldable pub verify_from : List Digest → ℕ → ℕ → ℕ → ℕ → Bool
verify_from ds at zero expected_prev previous_sequence = true
verify_from ds at (suc left) expected_prev previous_sequence =
    let d = get_or ds (at % digest_max) blank in
    follows d expected_prev previous_sequence
    && is_sealed d
    && verify_from ds (at + 1) left d.current_hash d.sequence

-- The whole loop: the first element has no test of its predecessor.
unfoldable pub verify_all : List Digest → ℕ → ℕ → Bool
verify_all ds at zero = true
verify_all ds at (suc left) =
    let d = get_or ds (at % digest_max) blank in
    is_sealed d && verify_from ds (at + 1) left d.current_hash d.sequence

-- agent_context_digest_verify: true for 0, false for -1.
unfoldable pub digest_verify : Context → Bool
digest_verify c =
    if ltb digest_max c.digest_count || leb digest_max c.digest_head
    then false
    else verify_all c.digests
        (if ltb c.digest_head c.digest_count
          then c.digest_head + digest_max - c.digest_count
          else c.digest_head - c.digest_count)
        c.digest_count
