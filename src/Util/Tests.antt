-- ===== src/Util/Tests.antt =====
-- Runs of the helpers, and each theorem at a concrete input.
use tos_pool.Prelude.{
  ℕ, ◌*◌, ◌^◌, ◌≡◌, refl, true, none, some, List, [], ◌∷◌, ◌++◌, length, arith, leb, replicate,
}
use tos_pool.Prelude.Int.{pos}
use tos_pool.TosHash.Header.{big_endian}
use tos_pool.Util.Difficulty.{
  difficulty_to_target, target_to_difficulty, hash_to_difficulty, hash_meets_difficulty,
  compact_to_target,
}
use tos_pool.Util.Targets.{
  target_to_difficulty-difficulty_to_target, hash_meets_difficulty-hash_to_difficulty,
}
use tos_pool.Prelude.Maps.{codes}
use tos_pool.Util.Hex.{
  hex_to_bytes, validate_nonce, decode_string, hex_digit, is_valid_hex, pad_bytes,
  reverse_bytes_copy,
}
use tos_pool.Util.Encoding.{validate_nonce-hex_to_bytes}

abbrev hash : List ℕ
hash = replicate 6 0 ++ replicate 26 1

compact_example : compact_to_target 0x1b04_04cb ≡ pos (0x0404cb * 2 ^ 192)
unfolding compact_to_target
compact_example = refl

target_to_difficulty-difficulty_to_target_example :
    target_to_difficulty (difficulty_to_target 1_000_003) ≡ 1_000_003
target_to_difficulty-difficulty_to_target_example =
    target_to_difficulty-difficulty_to_target 1_000_003 (omega arith) (omega arith)

hash_meets_difficulty-hash_to_difficulty_example :
    hash_meets_difficulty hash 1_000 ≡ leb 1_000 (hash_to_difficulty hash)
unfolding big_endian
hash_meets_difficulty-hash_to_difficulty_example =
    hash_meets_difficulty-hash_to_difficulty hash 1_000 refl (omega arith) (omega arith)
      (omega arith) (omega arith)

reverses : reverse_bytes_copy (1 ∷ 2 ∷ 3 ∷ []) ≡ 3 ∷ 2 ∷ 1 ∷ []
unfolding reverse_bytes_copy
reverses = refl

pads : pad_bytes (7 ∷ []) 3 ≡ 0 ∷ 0 ∷ 7 ∷ []
unfolding pad_bytes
pads = refl

-- The second prefix passes the validation, and does not decode.
doubled :
    (validate_nonce (codes "0x0x00112233445566") ≡ true)
    × (hex_to_bytes (codes "0x0x00112233445566") ≡ none)
unfolding validate_nonce hex_to_bytes is_valid_hex decode_string hex_digit
doubled = (refl, refl)

validate_nonce-hex_to_bytes_example :
    (bs : List ℕ) × ((hex_to_bytes (codes "0x00112233aabbccdd") ≡ some bs) × (length bs ≡ 8))
unfolding validate_nonce is_valid_hex decode_string hex_digit
validate_nonce-hex_to_bytes_example =
    validate_nonce-hex_to_bytes (codes "0x00112233aabbccdd") refl refl
