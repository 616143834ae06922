-- ===== src/Params.antt =====
-- The parameters of a tool call, "key=value;key=value": streq, param_value, parse_uint_param,
-- percent_decode and str_find of kernel/agent_tool.c and kernel/agent_fs.c. A string is the list of
-- its bytes, none of them 0.
pub mod Streq
pub mod RoundTrip
pub mod Numbers
use aaaos_renovation_agent_o.Prelude.{
  ℕ, zero, suc, ◌+◌, ◌-◌, ◌*◌, ◌%◌, ◌≤◌, Bool, true, false, ◌&&◌, ◌||◌, Option, none, some, List,
  [], ◌∷◌, ltb, leb, ◌==◌, if◌then◌else◌, u64, take, ℤ, pos, negsuc,
}

-- streq: `strncmp` over the longer of the two lengths and the NUL
unfoldable pub streq : List ℕ → List ℕ → Bool
streq [] [] = true
streq [] (b ∷ bs) = false
streq (a ∷ as') [] = false
streq (a ∷ as') (b ∷ bs) = a == b && streq as' bs

-- What stands behind `key` and a '=' at the head of the string, if they are there.
unfoldable pub after_key : List ℕ → List ℕ → Option (List ℕ)
after_key [] [] = none
after_key [] (c ∷ cs) = if c == b'=' then some cs else none
after_key (k ∷ ks) [] = none
after_key (k ∷ ks) (c ∷ cs) = if k == c then after_key ks cs else none

-- The bytes before the next ';'
unfoldable pub field : List ℕ → List ℕ
field [] = []
field (c ∷ cs) = if c == b';' then [] else c ∷ field cs

-- The match at a place: only at the start of a field
abbrev pub match_at : Bool → List ℕ → List ℕ → Option (List ℕ)
match_at true key s = after_key key s
match_at false key s = none

-- The value that is found, cut to the buffer, or else the result of the rest of the loop
abbrev pub value_or : ℕ → Option (List ℕ) → Option (List ℕ) → Option (List ℕ)
value_or size (some v) rest = some (take (size - 1) (field v))
value_or size none rest = rest

-- The loop of param_value from a place in the string; `start` is whether a field begins there.
unfoldable pub param_from : Bool → List ℕ → ℕ → List ℕ → Option (List ℕ)
param_from start key size [] = none
param_from start key size (c ∷ cs) =
    value_or size (match_at start key (c ∷ cs)) (param_from (c == b';') key size cs)

-- param_value: the value of the first field with that key, cut to the buffer of `size` bytes; none
-- for -1.
unfoldable pub param_value : List ℕ → List ℕ → ℕ → Option (List ℕ)
param_value params key size = param_from true key size params

abbrev pub is_digit : ℕ → Bool
is_digit c = leb b'0' c && leb c b'9'

-- The loop of parse_uint_param, on a uint64
unfoldable pub parse_digits : ℕ → List ℕ → Option ℕ
parse_digits n [] = some n
parse_digits n (c ∷ cs) =
    let rest = parse_digits (u64 (n * 10 + c - b'0')) cs in if is_digit c then rest else none

abbrev pub parse_text : Option (List ℕ) → Option ℕ
parse_text none = none
parse_text (some []) = none
parse_text (some (c ∷ cs)) = parse_digits 0 (c ∷ cs)

-- parse_uint_param
unfoldable pub parse_uint_param : List ℕ → List ℕ → Option ℕ
parse_uint_param params key = parse_text (param_value params key 32)

-- hexval, none for -1
unfoldable pub hexval : ℕ → Option ℕ
hexval c =
    if is_digit c
    then some (c - b'0')
    else if leb b'a' c && leb c b'f'
    then some (c - b'a' + 10)
    else if leb b'A' c && leb c b'F'
    then some (c - b'A' + 10)
    else none

abbrev pub both : Option ℕ → Option ℕ → Option ℕ
both (some hi) (some lo) = some (hi * 16 + lo)
both _ _ = none

-- `(hi << 4) | lo` for two hexadecimal digits
unfoldable pub hex_pair : ℕ → ℕ → Option ℕ
hex_pair h l = both (hexval h) (hexval l)

abbrev pub plain_byte : ℕ → ℕ
plain_byte c = if c == b'+' then b' ' else c

-- The loop of percent_decode; `left` is the room before the NUL.
unfoldable pub decode : ℕ → List ℕ → List ℕ
decode zero s = []
decode (suc left) [] = []
decode (suc left) (c ∷ []) = plain_byte c ∷ decode left []
decode (suc left) (c ∷ d ∷ []) = plain_byte c ∷ decode left (d ∷ [])
decode (suc left) (c ∷ h ∷ l ∷ cs) =
    let plain = plain_byte c ∷ decode left (h ∷ l ∷ cs) in
    let coded = λ (b : ℕ). b ∷ decode left cs in
    if c == b'%' then (elim (hex_pair h l) [ some b ↦ coded b | none ↦ plain ]) else plain

-- What a reader of a C string sees
unfoldable pub until_nul : List ℕ → List ℕ
until_nul [] = []
until_nul (c ∷ cs) = if c == 0 then [] else c ∷ until_nul cs

-- percent_decode into a buffer of `size` bytes: a decoded NUL ends the string.
unfoldable pub percent_decode : List ℕ → ℕ → List ℕ
percent_decode s size = until_nul (decode (size - 1) s)

unfoldable pub has_prefix : List ℕ → List ℕ → Bool
has_prefix [] s = true
has_prefix (n ∷ ns) [] = false
has_prefix (n ∷ ns) (c ∷ cs) = n == c && has_prefix ns cs

-- The loop of str_find from an index on; none for -1.
unfoldable pub find_from : ℕ → List ℕ → List ℕ → Option ℕ
find_from i needle [] = none
find_from i needle (c ∷ cs) =
    let rest = find_from (i + 1) needle cs in if has_prefix needle (c ∷ cs) then some i else rest

-- str_find
unfoldable pub str_find : List ℕ → List ℕ → Option ℕ
str_find haystack [] = some 0
str_find haystack (n ∷ ns) = find_from 0 (n ∷ ns) haystack
