-- ===== src/Text.antt =====
-- The text of a Context record: buf_putc, buf_puts and buf_putu, and the format that
-- agent_context_push_node of kernel/agent_context.c writes with them. A buffer that is full takes no
-- more bytes, so the text is what the parts give, cut to the buffer's size less the NUL.
use aaaos_renovation_agent_o.Prelude.{
  ℕ, zero, suc, ◌+◌, ◌/◌, ◌%◌, List, [], ◌∷◌, ◌++◌, ◌==◌, if◌then◌else◌, ℤ, u64_of_int, length, ltb,
}
use Prim.Native.Char.{code}
use Prim.Native.String.{String}

-- The bytes of a text in ASCII
abbrev pub codes : String → List ℕ
codes String.[] = []
codes (String.◌∷◌ c s) = code c ∷ codes s

-- A buffer: what is written to it. `left` is its size less that.
unfoldable pub put_char : ℕ → List ℕ → ℕ → List ℕ
put_char size buf c = if ltb (length buf + 1) size then buf ++ (c ∷ []) else buf

-- buf_puts
unfoldable pub put_string : ℕ → List ℕ → List ℕ → List ℕ
put_string size buf [] = buf
put_string size buf (c ∷ cs) = put_string size (put_char size buf c) cs

-- The digits of a number that is not 0, the last one first. The fuel is the 24 bytes of the
-- temporary of the code: a uint64 has at most 20 digits.
unfoldable pub reversed_digits : ℕ → ℕ → List ℕ
reversed_digits zero n = []
reversed_digits (suc k) n =
    let rest = reversed_digits k (n / 10) in if n == 0 then [] else (48 + n % 10) ∷ rest

unfoldable pub reverse_onto : List ℕ → List ℕ → List ℕ
reverse_onto [] ys = ys
reverse_onto (x ∷ xs) ys = reverse_onto xs (x ∷ ys)

-- buf_putu
unfoldable pub put_number : ℕ → List ℕ → ℕ → List ℕ
put_number size buf n =
    if n == 0
    then put_char size buf 48
    else put_string size buf (reverse_onto (reversed_digits 24 n) [])

-- struct agent_context_node, less its sequence, which the kernel sets
pub record Node : Type 0 where
  pub timestamp_ms : ℕ
  pub request_id : ℕ
  pub span_id : ℕ
  pub cause_sequence : ℕ
  pub status : ℤ
  pub request : List ℕ
  pub result : List ℕ

-- sizeof(record): AGENT_CONTEXT_REQ_MAX + AGENT_CONTEXT_RES_MAX + 128
abbrev pub record_bytes : ℕ
record_bytes = 384

-- A label and a number after what is there
abbrev pub put_field : List ℕ → List ℕ → ℕ → List ℕ
put_field buf label n = put_number record_bytes (put_string record_bytes buf label) n

-- The record of a node: "{ts=…,seq=…,req_id=…,span=…,cause=…,status=…,req=…,res=…}\n"
unfoldable pub record_text : Node → ℕ → List ℕ
record_text node sequence =
    let ts = put_field [] (123 ∷ 116 ∷ 115 ∷ 61 ∷ []) node.timestamp_ms in
    let seq = put_field ts (44 ∷ 115 ∷ 101 ∷ 113 ∷ 61 ∷ []) sequence in
    let req_id = put_field seq (44 ∷ 114 ∷ 101 ∷ 113 ∷ 95 ∷ 105 ∷ 100 ∷ 61 ∷ []) node.request_id in
    let span = put_field req_id (44 ∷ 115 ∷ 112 ∷ 97 ∷ 110 ∷ 61 ∷ []) node.span_id in
    let cause = put_field span (44 ∷ 99 ∷ 97 ∷ 117 ∷ 115 ∷ 101 ∷ 61 ∷ []) node.cause_sequence in
    let status =
      put_field cause (44 ∷ 115 ∷ 116 ∷ 97 ∷ 116 ∷ 117 ∷ 115 ∷ 61 ∷ []) (u64_of_int node.status) in
    let req = put_string record_bytes status (44 ∷ 114 ∷ 101 ∷ 113 ∷ 61 ∷ []) in
    let req' = put_string record_bytes req node.request in
    let res = put_string record_bytes req' (44 ∷ 114 ∷ 101 ∷ 115 ∷ 61 ∷ []) in
    let res' = put_string record_bytes res node.result in
    put_string record_bytes res' (125 ∷ 10 ∷ [])
