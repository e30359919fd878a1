-- ===== src/TosHash/Tests.antt =====
-- Runs of the hash stages and of the header code, and each theorem at a concrete input.
use tos_pool.Prelude.{ℕ, zero, suc, ◌+◌, ◌%◌, ◌<◌, ◌≡◌, refl, List, [], ◌∷◌, map, arith, replicate}
use tos_pool.TosHash.Words.{mix, rotate_left, rotate_right}
use tos_pool.TosHash.Mix.{stage2_mix, stage3_strided}
use tos_pool.TosHash.Scratchpad.{AllBytes}
use tos_pool.TosHash.Strided.{AreRounds, stage3_strided-AreRounds}
use tos_pool.TosHash.Passes.{stage2_mix-map}
use tos_pool.TosHash.Header.{
  BlockHeader, ok, err, too_short, parse_block_header, put_big_endian, big_endian, read_hashes,
}
use tos_pool.TosHash.RoundTrip.{serialize, IsWellFormed, parse_block_header-serialize}

-- A stand-in for blake3: 32 times the sum of the bytes, as a byte.
abbrev sum : List ℕ → ℕ
sum [] = 0
sum (x ∷ xs) = x + sum xs

abbrev checksum : List ℕ → List ℕ
checksum x = replicate 32 (sum x % 256)

all_replicate : (n b : ℕ) → b < 256 → AllBytes (replicate n b)
all_replicate zero b h = tt
all_replicate (suc n) b h = (h, all_replicate n b h)

checksum-AllBytes : (x : List ℕ) → AllBytes (checksum x)
checksum-AllBytes x = all_replicate 32 (sum x % 256) (omega arith)

rotations : rotate_right (rotate_left 0x8000_0000_0000_0001 4) 4 ≡ 0x8000_0000_0000_0001
unfolding rotate_left rotate_right
rotations = refl

abbrev header : BlockHeader
header = record {
  version = 1;
  height = 258;
  timestamp = 1_700_000_000;
  nonce = 5;
  extra_nonce = replicate 32 7;
  tips = replicate 32 1 ∷ replicate 32 2 ∷ [];
  txs_hashes = replicate 32 3 ∷ [];
  miner = replicate 32 9;
}

header-IsWellFormed : IsWellFormed header
header-IsWellFormed = record {
  height = omega arith;
  timestamp = omega arith;
  nonce = omega arith;
  extra_nonce = refl;
  tips = (refl, (refl, tt));
  txs_count = omega arith;
  txs_hashes = (refl, tt);
  miner = refl;
}

parses : parse_block_header (serialize header (4 ∷ [])) ≡ ok header
unfolding parse_block_header put_big_endian big_endian read_hashes
parses = refl

short_header : parse_block_header (replicate 91 0) ≡ err too_short
unfolding parse_block_header
short_header = refl

abbrev input : List ℕ
input = replicate 112 1

stage3_strided-AreRounds_example :
    AreRounds 3 8 0 (10 ∷ 20 ∷ 30 ∷ []) (stage3_strided 3 (10 ∷ 20 ∷ 30 ∷ []))
stage3_strided-AreRounds_example = stage3_strided-AreRounds 3 (10 ∷ 20 ∷ 30 ∷ []) refl

stage2_mix-map_example :
    stage2_mix 3 (10 ∷ 20 ∷ 30 ∷ [])
    ≡ map (λ w. mix (mix (mix (mix w 0 0) 0 1) 0 2) 0 3) (10 ∷ 20 ∷ 30 ∷ [])
stage2_mix-map_example = stage2_mix-map (10 ∷ 20 ∷ 30 ∷ [])

parse_block_header-serialize_example : parse_block_header (serialize header (4 ∷ [])) ≡ ok header
parse_block_header-serialize_example =
    parse_block_header-serialize header (4 ∷ []) header-IsWellFormed
