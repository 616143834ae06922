-- ===== src/Params/Numbers.antt =====
-- A number that buf_putu prints is what parse_uint_param reads.
use mathlib.Core.List.{append_assoc, append-nil}
use aaaos_renovation_agent_o.Prelude.{
  ℕ, zero, suc, ◌+◌, ◌-◌, ◌*◌, ◌/◌, ◌^◌, ◌≤◌, ◌<◌, ◌≡◌, refl, sym, ap, ◌∙◌, true, false, some, List,
  [], ◌∷◌, ◌++◌, arith, All, ◌==◌, ltb, Bool-cases, inl, inr, length, length-append, take,
}
use aaaos_renovation_agent_o.Text.{reversed_digits, reverse_onto, put_char, put_string, put_number}
use aaaos_renovation_agent_o.Params.{parse_digits, parse_text, is_digit, parse_uint_param}
use aaaos_renovation_agent_o.Params.RoundTrip.{Lacks, Printable, print, lookup, param_value-print}

-- The number that digits stand for, the last one first
abbrev value : List ℕ → ℕ
value [] = 0
value (d ∷ ds) = value ds * 10 + (d - b'0')

abbrev Digits : List ℕ → Type 0
Digits = All (λ d. (b'0' ≤ d) × (d ≤ b'9'))

parse-digit :
    (d n : ℕ) (ys : List ℕ)
    → (b'0' ≤ d) × (d ≤ b'9')
    → n * 10 + (d - b'0') < 2 ^ 64
    → parse_digits n (d ∷ ys) ≡ parse_digits (n * 10 + (d - b'0')) ys
unfolding parse_digits
parse-digit d n ys h b =
    let e : is_digit d ≡ true = ground arith in
    rw e (ap (λ m. parse_digits m ys) {y = n * 10 + (d - b'0')} (omega arith))

parse-reversed :
    (ds ys : List ℕ)
    → Digits ds
    → value ds < 2 ^ 64
    → parse_digits 0 (reverse_onto ds ys) ≡ parse_digits (value ds) ys
unfolding reverse_onto
parse-reversed [] ys h b = refl
parse-reversed (d ∷ ds) ys h b =
    parse-reversed ds (d ∷ ys) h.1 (omega arith) ∙ parse-digit d (value ds) ys h.0 b

-- 10 to the power of `k`
abbrev pow10 : ℕ → ℕ
pow10 zero = 1
pow10 (suc k) = 10 * pow10 k

reversed_digits-Digits : (k n : ℕ) → Digits (reversed_digits k n)
unfolding reversed_digits
reversed_digits-Digits zero n = tt
reversed_digits-Digits (suc k) n = elim (Bool-cases (n == 0)) [
  | inl e ↦ rw e tt
  | inr e ↦ rw e (omega arith, reversed_digits-Digits k (n / 10))
]

value-reversed_digits : (k n : ℕ) → n < pow10 k → value (reversed_digits k n) ≡ n
unfolding reversed_digits
value-reversed_digits zero n h = omega arith
value-reversed_digits (suc k) n h = elim (Bool-cases (n == 0)) [
  | inl e ↦ rw e (ground arith)
  | inr e ↦ rw e (omega (arith, value-reversed_digits k (n / 10) (omega arith)))
]

length-reversed_digits : (k n : ℕ) → length (reversed_digits k n) ≤ k
unfolding reversed_digits
length-reversed_digits zero n = omega arith
length-reversed_digits (suc k) n = elim (Bool-cases (n == 0)) [
  | inl e ↦ rw e (omega arith)
  | inr e ↦ rw e (omega (arith, length-reversed_digits k (n / 10)))
]

length-reverse_onto : (xs ys : List ℕ) → length (reverse_onto xs ys) ≡ length xs + length ys
unfolding reverse_onto
length-reverse_onto [] ys = omega arith
length-reverse_onto (x ∷ xs) ys = omega (arith, length-reverse_onto xs (x ∷ ys))

-- A string that fits is written behind the buffer.
pub put_string-fits :
    (size : ℕ) (buf s : List ℕ) → length buf + length s < size → put_string size buf s ≡ buf ++ s
unfolding put_string put_char
put_string-fits size buf [] h = sym (append-nil buf)
put_string-fits size buf (c ∷ s) h =
    let e : ltb (length buf + 1) size ≡ true = ground arith in
    rw e (
      put_string-fits size (buf ++ (c ∷ [])) s (omega (arith, length-append buf (c ∷ [])))
      ∙ append_assoc buf (c ∷ []) s)

-- The text of a number in a buffer of 32 bytes
abbrev pub number_text : ℕ → List ℕ
number_text n = put_number 32 [] n

number_text-digits :
    (n : ℕ) → (n == 0) ≡ false → number_text n ≡ reverse_onto (reversed_digits 24 n) []
unfolding put_number
number_text-digits n h = rw h (
    put_string-fits 32 [] (reverse_onto (reversed_digits 24 n) [])
      (omega (arith, length-reverse_onto (reversed_digits 24 n) [], length-reversed_digits 24 n)))

parse_text-eq : (s : List ℕ) → 0 < length s → parse_text (some s) ≡ parse_digits 0 s
parse_text-eq [] h = absurd (omega arith)
parse_text-eq (c ∷ s) h = refl

number_text-zero : number_text 0 ≡ b'0' ∷ []
unfolding put_number put_char
number_text-zero = refl

reversed_digits-some : (k n : ℕ) → (n == 0) ≡ false → 0 < length (reversed_digits (suc k) n)
unfolding reversed_digits
reversed_digits-some k n e = rw e (omega arith)

number_text-length : (n : ℕ) → (0 < length (number_text n)) × (length (number_text n) ≤ 24)
number_text-length n = elim (Bool-cases (n == 0)) [
  | inl e ↦ let z : n ≡ 0 = ground arith in rw (z, number_text-zero) (omega arith, omega arith)
  | inr e ↦
      rw (number_text-digits n e, length-reverse_onto (reversed_digits 24 n) [])
        (omega (arith, reversed_digits-some 23 n e), omega (arith, length-reversed_digits 24 n))
]

Lacks-reverse_onto :
    (c : ℕ) (xs ys : List ℕ) → Lacks c xs → Lacks c ys → Lacks c (reverse_onto xs ys)
unfolding reverse_onto
Lacks-reverse_onto c [] ys h l = l
Lacks-reverse_onto c (x ∷ xs) ys h l = Lacks-reverse_onto c xs (x ∷ ys) h.1 (h.0, l)

Digits-Lacks : (xs : List ℕ) → Digits xs → Lacks b';' xs
Digits-Lacks [] h = tt
Digits-Lacks (x ∷ xs) h = (ground arith, Digits-Lacks xs h.1)

-- A printed number has no ';'.
pub number_text-Lacks : (n : ℕ) → Lacks b';' (number_text n)
number_text-Lacks n = elim (Bool-cases (n == 0)) [
  | inl e ↦ let z : n ≡ 0 = ground arith in rw (z, number_text-zero) (refl, tt)
  | inr e ↦ rw (number_text-digits n e) (
      Lacks-reverse_onto b';' (reversed_digits 24 n) []
        (Digits-Lacks (reversed_digits 24 n) (reversed_digits-Digits 24 n)) tt)
]

u64-pow10 : (n : ℕ) → n < 2 ^ 64 → n < pow10 24
u64-pow10 n h = omega arith

parse-number_text : (n : ℕ) → n < 2 ^ 64 → parse_text (some (number_text n)) ≡ some n
unfolding parse_digits
parse-number_text n h = elim (Bool-cases (n == 0)) [
  | inl e ↦ let z : n ≡ 0 = ground arith in rw (z, number_text-zero) refl
  | inr e ↦
      parse_text-eq (number_text n) (number_text-length n).0
      ∙ ap (parse_digits 0) (number_text-digits n e)
      ∙ parse-reversed (reversed_digits 24 n) [] (reversed_digits-Digits 24 n)
          (omega (arith, value-reversed_digits 24 n (u64-pow10 n h)))
      ∙ ap some (value-reversed_digits 24 n (u64-pow10 n h))
]

pub take-all : (k : ℕ) (xs : List ℕ) → length xs ≤ k → take k xs ≡ xs
take-all zero [] h = refl
take-all zero (x ∷ xs) h = absurd (omega arith)
take-all (suc k) [] h = refl
take-all (suc k) (x ∷ xs) h = ap (◌∷◌ x) (take-all k xs (omega arith))

-- A uint64 that buf_putu prints, put into a field of the parameters, is read back by
-- parse_uint_param, whatever the other fields are.
pub parse_uint_param-print :
    (ps : List (List ℕ × List ℕ)) (key : List ℕ) (n : ℕ)
    → Printable ps
    → Lacks b'=' key
    → lookup key ps ≡ some (number_text n)
    → n < 2 ^ 64
    → parse_uint_param (print ps) key ≡ some n
unfolding parse_uint_param
parse_uint_param-print ps key n h l f b =
    rw (param_value-print ps key 32 h l, f)
      (ap (λ s. parse_text (some s))
          (take-all 31 (number_text n) (omega (arith, (number_text-length n).1)))
        ∙ parse-number_text n b)
