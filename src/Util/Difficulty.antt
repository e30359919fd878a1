-- ===== src/Util/Difficulty.antt =====
-- Difficulties and targets (internal/util/difficulty.go).
-- A target is an integer, as Go's big.Int; `Div` on it is Euclidean, and `Uint64` keeps the low 64
-- bits of the magnitude.
use tos_pool.Prelude.{
  ℕ, zero, suc, ◌-◌, ◌*◌, ◌/◌, ◌%◌, ◌^◌, Bool, false, List, ◌==◌, leb, if◌then◌else◌, length,
}
use tos_pool.Prelude.Int.{ℤ, pos, negsuc, neg, leb_ℤ, int64}
use tos_pool.TosHash.Header.{big_endian}

abbrev pub max_target : ℤ
max_target = pos (2 ^ 256 - 1)

-- The bytes are four zeros and 28 times 0xff.
abbrev pub diff1_target : ℕ
diff1_target = 2 ^ 224 - 1

-- `new(big.Int).Div(Diff1Target, n)`, for a divisor other than 0.
unfoldable pub divide_diff1 : ℤ → ℤ
divide_diff1 (pos n) = pos (diff1_target / n)
divide_diff1 (negsuc k) = neg (pos (diff1_target / suc k))

abbrev pub uint64 : ℤ → ℕ
uint64 (pos n) = n % 2 ^ 64
uint64 (negsuc k) = suc k % 2 ^ 64

unfoldable pub difficulty_to_target : ℕ → ℤ
unfolding divide_diff1
difficulty_to_target difficulty =
    if difficulty == 0 then max_target else divide_diff1 (int64 (pos difficulty))

unfoldable pub target_to_difficulty : ℤ → ℕ
unfolding divide_diff1
target_to_difficulty (pos zero) = 0
target_to_difficulty target = uint64 (divide_diff1 target)

unfoldable pub hash_to_difficulty : List ℕ → ℕ
unfolding divide_diff1
hash_to_difficulty hash =
    if length hash == 32
    then (let hash_int = big_endian hash in
        if hash_int == 0 then 0 else uint64 (divide_diff1 (pos hash_int)))
    else 0

unfoldable pub hash_meets_target : List ℕ → ℤ → Bool
hash_meets_target hash target =
    if length hash == 32 then leb_ℤ (pos (big_endian hash)) target else false

unfoldable pub hash_meets_difficulty : List ℕ → ℕ → Bool
hash_meets_difficulty hash difficulty = hash_meets_target hash (difficulty_to_target difficulty)

-- The magnitude of the target, before its sign.
abbrev pub compact_magnitude : ℕ → ℕ
compact_magnitude compact =
    let exponent = compact / 2 ^ 24 in
    let mantissa = compact % 2 ^ 23 in
    if leb exponent 3
    then mantissa / 2 ^ (8 * (3 - exponent))
    else mantissa * 2 ^ (8 * (exponent - 3))

unfoldable pub compact_to_target : ℕ → ℤ
compact_to_target compact =
    let magnitude = compact_magnitude compact in
    if (compact / 2 ^ 23) % 2 == 0 then pos magnitude else neg (pos magnitude)
