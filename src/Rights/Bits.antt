-- ===== src/Rights/Bits.antt =====
-- The bits of a word, for the sets of capabilities.
use Prim.Native.Nat.{bit_and, digits, bit_and-bitwise}
use native.Mathlib.Nat.{pow-suc}
use aaaos_renovation_agent_o.Prelude.{
  ℕ, zero, suc, ◌+◌, ◌-◌, ◌*◌, ◌/◌, ◌%◌, ◌^◌, ◌≤◌, ◌<◌, min, ◌≡◌, refl, ◌∙◌, ap, arith,
}

-- Bit `k` of a word
unfoldable pub bit : ℕ → ℕ → ℕ
bit zero w = w % 2
bit (suc k) w = bit k (w / 2)

-- `bit_and` by its digits, with enough rounds
both : ℕ → ℕ → ℕ → ℕ
both n a b = digits (λ c. zero) min n a b

both_rounds : (n m a b : ℕ) → a ≤ n → a ≤ m → both n a b ≡ both m a b
unfolding both
both_rounds zero zero a b p q = refl
both_rounds zero (suc m) zero b p q = refl
both_rounds zero (suc m) (suc a) b p q = absurd (omega arith)
both_rounds (suc n) zero zero b p q = refl
both_rounds (suc n) zero (suc a) b p q = absurd (omega arith)
both_rounds (suc n) (suc m) zero b p q = refl
both_rounds (suc n) (suc m) (suc a) b p q =
    omega (arith, both_rounds n m (suc a / 2) (b / 2) (omega arith) (omega arith))

-- The lowest bit and the rest of a conjunction
and_halves : (a b : ℕ) → bit_and a b ≡ bit_and (a / 2) (b / 2) * 2 + min (a % 2) (b % 2)
unfolding both
and_halves zero b = omega (arith, bit_and-bitwise 0 b, bit_and-bitwise 0 (b / 2))
and_halves (suc a) b = omega (
  arith,
  bit_and-bitwise (suc a) b,
  bit_and-bitwise (suc a / 2) (b / 2),
  both_rounds a (suc a / 2) (suc a / 2) (b / 2) (omega arith) (omega arith),
)

pub bit-and : (k a b : ℕ) → bit k (bit_and a b) ≡ min (bit k a) (bit k b)
unfolding bit
bit-and zero a b = omega (arith, and_halves a b)
bit-and (suc k) a b = ap (bit k) (omega (arith, and_halves a b)) ∙ bit-and k (a / 2) (b / 2)

pub bit-zero : (k : ℕ) → bit k 0 ≡ 0
unfolding bit
bit-zero zero = refl
bit-zero (suc k) = bit-zero k

pub bit-le : (k w : ℕ) → bit k w ≤ 1
unfolding bit
bit-le zero w = omega arith
bit-le (suc k) w = bit-le k (w / 2)

-- The complement within `n` bits
pub bit-not : (n k a : ℕ) → k < n → a < 2 ^ n → bit k (2 ^ n - 1 - a) ≡ 1 - bit k a
unfolding bit
bit-not zero k a h b = absurd (omega arith)
bit-not (suc n) zero a h b = omega (arith, pow-suc 2 n)
bit-not (suc n) (suc k) a h b =
    ap (bit k) {y = 2 ^ n - 1 - a / 2} (omega (arith, pow-suc 2 n))
    ∙ bit-not n k (a / 2) (omega arith) (omega (arith, pow-suc 2 n))

-- A word with no bit set is 0.
pub eq-zero-of-bits : (n w : ℕ) → w < 2 ^ n → ((k : ℕ) → k < n → bit k w ≡ 0) → w ≡ 0
unfolding bit
eq-zero-of-bits zero w b h = omega (arith, b)
eq-zero-of-bits (suc n) w b h =
    let low : w % 2 ≡ 0 = h zero (omega arith) in
    let rest : w / 2 ≡ 0 =
      eq-zero-of-bits n (w / 2) (omega (arith, pow-suc 2 n)) (λ k l. h (suc k) (omega arith)) in
    omega arith

-- A word below `2 ^ n` has no bit from `n` on.
pub bit_above : (n k w : ℕ) → w < 2 ^ n → n ≤ k → bit k w ≡ 0
unfolding bit
bit_above zero k w b l = let e : w ≡ 0 = omega arith in rw e (bit-zero k)
bit_above (suc n) zero w b l = absurd (omega arith)
bit_above (suc n) (suc k) w b l = bit_above n k (w / 2) (omega (arith, pow-suc 2 n)) (omega arith)

zero-and : (b : ℕ) → bit_and 0 b ≡ 0
zero-and b = bit_and-bitwise 0 b

-- A conjunction is at most its left side.
pub and-le : (n a b : ℕ) → a ≤ n → bit_and a b ≤ a
and-le n zero b h = omega (arith, zero-and b)
and-le zero (suc a) b h = absurd (omega arith)
and-le (suc n) (suc a) b h =
    omega (arith, and_halves (suc a) b, and-le n (suc a / 2) (b / 2) (omega arith))
