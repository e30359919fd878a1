-- ===== src/Util/Targets.antt =====
-- Targets and difficulties agree (internal/util/difficulty.go).
use native.Mathlib.Nat.{
  div-eq_of_lt-le, mul-div-le, div-add-mod, mod-lt, mod-eq_of_lt, le-div_iff_mul-le, mul-le-mul,
}
use tos_pool.Prelude.{
  ℕ, zero, suc, ◌+◌, ◌/◌, ◌%◌, ◌^◌, ◌≤◌, ◌<◌, ◌≡◌, refl, ap, ◌∙◌, false, List, ◌==◌, leb, arith,
  length, ◌↔◌,
}
use tos_pool.Prelude.Int.{pos, int64-id}
use tos_pool.TosHash.Header.{big_endian}
use tos_pool.Util.Difficulty.{
  diff1_target, divide_diff1, difficulty_to_target, target_to_difficulty, hash_to_difficulty,
  hash_meets_target, hash_meets_difficulty,
}

-- The target of a difficulty that fits into an int64.
target_of : (d : ℕ) → 0 < d → d < 2 ^ 63 → difficulty_to_target d ≡ pos (diff1_target / d)
unfolding difficulty_to_target divide_diff1
target_of d p q =
    let e : (d == 0) ≡ false = ground arith in
    rw (e, int64-id (pos d) (omega arith, omega arith)) refl

difficulty_of : (t : ℕ) → 0 < t → target_to_difficulty (pos t) ≡ diff1_target / t % 2 ^ 64
unfolding target_to_difficulty divide_diff1
difficulty_of zero p = absurd (omega arith)
difficulty_of (suc t) p = refl

le_target : (d : ℕ) → 0 < d → d < 2 ^ 63 → d ≤ diff1_target / d
le_target d p q = (le-div_iff_mul-le p).1 (
    let bound =
      mul-le-mul {n₁ = d} {m₁ = d} {n₂ = 2 ^ 63} {m₂ = 2 ^ 63} (omega arith) (omega arith) in
    omega (arith, bound))

-- `TargetToDifficulty` gives back the difficulty from which `DifficultyToTarget` made a target, for
-- every difficulty from 1 to 2^63 - 1.
pub target_to_difficulty-difficulty_to_target :
    (d : ℕ) → 0 < d → d < 2 ^ 63 → target_to_difficulty (difficulty_to_target d) ≡ d
target_to_difficulty-difficulty_to_target d p q =
    let t = diff1_target / d in
    let le = le_target d p q in
    let back : diff1_target / t ≡ d =
      div-eq_of_lt-le t (mul-div-le diff1_target d)
        (omega (arith, div-add-mod diff1_target d, mod-lt diff1_target p)) in
    ap target_to_difficulty (target_of d p q)
    ∙ difficulty_of t (omega arith)
    ∙ ap (λ (x : ℕ). x % 2 ^ 64) back
    ∙ mod-eq_of_lt (omega arith)

-- Both say that the product is at most `n`.
exchange : (d h n : ℕ) → 0 < d → 0 < h → ((h + 0 ≤ n / d + 0) ↔ (d ≤ n / h))
exchange d h n p q = (
  λ le. (le-div_iff_mul-le q).1 (
      let prod = (le-div_iff_mul-le {k = d} {x = h} {y = n} p).0 (omega arith) in
      omega (arith, prod)),
  λ le.
      let prod = (le-div_iff_mul-le {k = h} {x = d} {y = n} q).0 le in
      let back = (le-div_iff_mul-le {k = d} {x = h} {y = n} p).1 (omega (arith, prod)) in
      omega (arith, back),
)

leb_iff : (a b c d : ℕ) → ((a ≤ b) ↔ (c ≤ d)) → leb a b ≡ leb c d
leb_iff a b c d h = ground (arith, h)

-- A hash of 32 bytes, not all of them 0, whose difficulty fits into 64 bits meets a difficulty from
-- 1 to 2^63 - 1 exactly if its own difficulty is at least that.
pub hash_meets_difficulty-hash_to_difficulty :
    (hash : List ℕ) (d : ℕ)
    → length hash ≡ 32
    → 0 < big_endian hash
    → diff1_target / big_endian hash < 2 ^ 64
    → 0 < d
    → d < 2 ^ 63
    → hash_meets_difficulty hash d ≡ leb d (hash_to_difficulty hash)
unfolding hash_meets_difficulty hash_meets_target hash_to_difficulty divide_diff1
hash_meets_difficulty-hash_to_difficulty hash d len nz fits p q =
    let h = big_endian hash in
    let e : (h == 0) ≡ false = ground arith in
    rw (target_of d p q, len, e, mod-eq_of_lt fits)
      (leb_iff (h + 0) (diff1_target / d + 0) d (diff1_target / h) (exchange d h diff1_target p nz))
