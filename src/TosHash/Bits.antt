-- ===== src/TosHash/Bits.antt =====
-- Bounds of the bit operations, and words that cancel.
use Prim.Native.Nat.{digits, bit_or, bit_xor, bit_or-bitwise, bit_xor-bitwise, max, differ}
use native.Mathlib.Nat.{two-pow-succ, one-le-pow}
use tos_pool.Prelude.{ℕ, zero, suc, ◌-◌, ◌/◌, ◌%◌, ◌^◌, ◌≤◌, ◌<◌, ◌≡◌, refl, arith}
use tos_pool.TosHash.Words.{word, shift_right, rotate_left, rotate_right, mix}

-- An operation on two digits gives a digit.
abbrev IsDigit : (ℕ → ℕ → ℕ) → Type 0
IsDigit f = (a b : ℕ) → a < 2 → b < 2 → f a b < 2

digits-lt :
    (z : ℕ → ℕ) (f : ℕ → ℕ → ℕ) (n k a b : ℕ)
    → ((b : ℕ) → z b ≤ b)
    → IsDigit f
    → a < 2 ^ k
    → b < 2 ^ k
    → digits z f n a b < 2 ^ k
digits-lt z f zero k a b zb d p q = omega (arith, zb b)
digits-lt z f (suc n) k zero b zb d p q = omega (arith, zb b)
digits-lt z f (suc n) zero (suc a) b zb d p q = absurd (omega arith)
digits-lt z f (suc n) (suc k) (suc a) b zb d p q =
    let double = two-pow-succ k in
    omega (
      arith,
      double,
      digits-lt z f n k (suc a / 2) (b / 2) zb d (omega (arith, double)) (omega (arith, double)),
      d (suc a % 2) (b % 2) (omega arith) (omega arith),
    )

max-IsDigit : IsDigit max
max-IsDigit a b p q = omega arith

differ_digit : (a b : ℕ) → a < 2 → b < 2 → differ a b < 2
differ_digit zero b p q = q
differ_digit (suc a) zero p q = p
differ_digit (suc a) (suc b) p q = differ_digit a b (omega arith) (omega arith)

bit_or-lt : (k a b : ℕ) → a < 2 ^ k → b < 2 ^ k → bit_or a b < 2 ^ k
bit_or-lt k a b p q =
    rw bit_or-bitwise (digits-lt (λ y. y) max a k a b (λ y. omega arith) max-IsDigit p q)

pub bit_xor-lt : (k a b : ℕ) → a < 2 ^ k → b < 2 ^ k → bit_xor a b < 2 ^ k
bit_xor-lt k a b p q =
    rw bit_xor-bitwise (digits-lt (λ y. y) differ a k a b (λ y. omega arith) differ_digit p q)

differ_self : (a : ℕ) → differ a a ≡ 0
differ_self zero = refl
differ_self (suc a) = differ_self a

digits_self : (n a : ℕ) → a ≤ n → digits (λ y. y) differ n a a ≡ 0
digits_self zero a h = omega arith
digits_self (suc n) zero h = refl
digits_self (suc n) (suc a) h =
    omega (arith, differ_self (suc a % 2), digits_self n (suc a / 2) (omega arith))

-- A word cancels itself.
pub bit_xor_self : (a : ℕ) → bit_xor a a ≡ 0
bit_xor_self a = rw bit_xor-bitwise (digits_self a a (omega arith))

shift_right-lt : (x k : ℕ) → x < word → shift_right x k < word
shift_right-lt x k h = omega (arith, one-le-pow k 2 (omega arith))

rotate_left-lt : (x k : ℕ) → x < word → rotate_left x k < word
unfolding rotate_left
rotate_left-lt x k h = bit_or-lt 64 _ _ (omega arith) (shift_right-lt x (64 - k % 64) h)

rotate_right-lt : (x k : ℕ) → x < word → rotate_right x k < word
unfolding rotate_right
rotate_right-lt x k h = bit_or-lt 64 _ _ (shift_right-lt x (k % 64) h) (omega arith)

-- Mixing gives a word, whatever the round.
pub mix-lt : (a b round : ℕ) → a < word → b < word → mix a b round < word
unfolding mix
mix-lt a b round p q =
    bit_xor-lt 64 _ _ (omega arith)
      (rotate_right-lt _ _ (bit_xor-lt 64 _ _ p (rotate_left-lt b _ q)))
