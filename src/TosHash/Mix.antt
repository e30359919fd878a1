-- ===== src/TosHash/Mix.antt =====
-- The four stages of the hash (internal/toshash/toshash.go). `size` is the number of words of the
-- scratchpad, `MemorySize` in the source, so that the stages can be run on a small one. `blake3` is
-- the hash of the package github.com/zeebo/blake3.
use Prim.Native.Nat.{bit_xor}
use tos_pool.Prelude.{
  ℕ, zero, suc, ◌+◌, ◌-◌, ◌*◌, ◌/◌, ◌%◌, Option, none, some, List, [], ◌∷◌, ◌++◌, if◌then◌else◌,
  ltb, ◌==◌, length, get_or, set, take, drop, replicate,
}
use tos_pool.TosHash.Words.{mix}

abbrev pub memory_size : ℕ
memory_size = 8192

abbrev pub mixing_rounds : ℕ
mixing_rounds = 8

abbrev pub memory_passes : ℕ
memory_passes = 4

abbrev pub input_size : ℕ
input_size = 112

abbrev pub nonce_offset : ℕ
nonce_offset = 40

abbrev pub strides : List ℕ
strides = 1 ∷ 64 ∷ 256 ∷ 1024 ∷ []

-- `scratchpad[i]`; every index that the source uses is in range.
abbrev pub at : List ℕ → ℕ → ℕ
at s i = get_or s i 0

-- `binary.LittleEndian.Uint64` on the bytes of a list, and `PutUint64` as `n` bytes.
unfoldable pub little_endian : List ℕ → ℕ
little_endian [] = 0
little_endian (b ∷ bs) = b + 256 * little_endian bs

unfoldable pub put_little_endian : ℕ → ℕ → List ℕ
put_little_endian zero x = []
put_little_endian (suc n) x = x % 256 ∷ put_little_endian n (x / 256)

abbrev pub slice : List ℕ → ℕ → ℕ → List ℕ
slice bytes from n = take n (drop from bytes)

-- The four seed words.
abbrev pub seed_words : List ℕ → List ℕ
seed_words hash =
    little_endian (slice hash 0 8)
    ∷ little_endian (slice hash 8 8)
    ∷ little_endian (slice hash 16 8)
    ∷ little_endian (slice hash 24 8)
    ∷ []

-- The words from index `i` on: `n` of them are left to fill.
unfoldable pub fill : ℕ → ℕ → List ℕ → List ℕ
fill zero i state = []
fill (suc n) i state =
    let idx = i % 4 in
    let w = mix (at state idx) (at state ((idx + 1) % 4)) i in w ∷ fill n (i + 1) (set state idx w)

unfoldable pub stage1_init : ℕ → (List ℕ → List ℕ) → List ℕ → List ℕ
unfolding fill little_endian
stage1_init size blake3 input = fill size 0 (seed_words (blake3 input))

-- One forward pass: `n` indices are left from `i` on, and `carry` is the word written last.
unfoldable pub forward : ℕ → ℕ → ℕ → ℕ → ℕ → List ℕ → List ℕ
forward size pass zero i carry s = s
forward size pass (suc n) i carry s =
    let prev = if ltb 0 i then at s (i - 1) else at s (size - 1) in
    let w = mix (at s i) (bit_xor prev carry) pass in forward size pass n (i + 1) w (set s i w)

-- One backward pass, over the indices below `n` from the top.
unfoldable pub backward : ℕ → ℕ → ℕ → ℕ → List ℕ → List ℕ
backward size pass zero carry s = s
backward size pass (suc i) carry s =
    let next = if ltb i (size - 1) then at s (i + 1) else at s 0 in
    let w = mix (at s i) (bit_xor next carry) pass in backward size pass i w (set s i w)

abbrev pub pass_over : ℕ → ℕ → List ℕ → List ℕ
pass_over size pass s =
    if pass % 2 == 0
    then forward size pass size 0 (at s (size - 1)) s
    else backward size pass size (at s 0) s

-- The passes from number `pass` on, `n` of them.
unfoldable pub passes : ℕ → ℕ → ℕ → List ℕ → List ℕ
passes size zero pass s = s
passes size (suc n) pass s = passes size n (pass + 1) (pass_over size pass s)

unfoldable pub stage2_mix : ℕ → List ℕ → List ℕ
unfolding passes forward backward
stage2_mix size s = passes size memory_passes 0 s

-- One strided round, `n` indices left from `i` on.
unfoldable pub strided : ℕ → ℕ → ℕ → ℕ → ℕ → List ℕ → List ℕ
strided size round stride zero i s = s
strided size round stride (suc n) i s =
    let j = (i + stride) % size in
    let k = (i + stride * 2) % size in
    strided size round stride n (i + 1) (set s i (mix (at s i) (bit_xor (at s j) (at s k)) round))

unfoldable pub rounds : ℕ → ℕ → ℕ → List ℕ → List ℕ
rounds size zero round s = s
rounds size (suc n) round s =
    rounds size n (round + 1) (strided size round (at strides (round % length strides)) size 0 s)

unfoldable pub stage3_strided : ℕ → List ℕ → List ℕ
unfolding rounds strided
stage3_strided size s = rounds size mixing_rounds 0 s

-- `folded[i%4] ^= scratchpad[i]`.
unfoldable pub fold_words : ℕ → List ℕ → List ℕ → List ℕ
fold_words i folded [] = folded
fold_words i folded (w ∷ ws) =
    fold_words (i + 1) (set folded (i % 4) (bit_xor (at folded (i % 4)) w)) ws

abbrev pub encode_words : List ℕ → List ℕ
encode_words [] = []
encode_words (w ∷ ws) = put_little_endian 8 w ++ encode_words ws

unfoldable pub stage4_finalize : (List ℕ → List ℕ) → List ℕ → List ℕ
unfolding fold_words put_little_endian
stage4_finalize blake3 s = blake3 (encode_words (fold_words 0 (replicate 4 0) s))

unfoldable pub tos_hash : (List ℕ → List ℕ) → List ℕ → Option (List ℕ)
tos_hash blake3 input =
    if length input == input_size
    then some (
        stage4_finalize blake3 (
          stage3_strided memory_size
            (stage2_mix memory_size (stage1_init memory_size blake3 input))))
    else none
