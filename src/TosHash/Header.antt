-- ===== src/TosHash/Header.antt =====
-- Block headers, MinerWork and share validation (internal/toshash/toshash.go).
-- The slices that the source takes are in range wherever it takes them; `blake3` is the hash of the
-- package github.com/zeebo/blake3, on the bytes that were written to the hasher, in order.
use tos_pool.Prelude.{
  ℕ, zero, suc, ◌+◌, ◌-◌, ◌*◌, ◌/◌, ◌%◌, ◌^◌, Bool, true, false, none, some, List, [], ◌∷◌, ◌++◌,
  if◌then◌else◌, ltb, leb, ◌==◌, length, get_or, take, drop, replicate,
}
use tos_pool.TosHash.Words.{word}
use tos_pool.TosHash.Mix.{slice, tos_hash, input_size, nonce_offset}

-- `binary.BigEndian.Uint64`, `Uint16` and `PutUint64`, on any number of bytes.
unfoldable pub big_endian : List ℕ → ℕ
big_endian [] = 0
big_endian (b ∷ bs) = b * 256 ^ length bs + big_endian bs

unfoldable pub put_big_endian : ℕ → ℕ → List ℕ
put_big_endian zero x = []
put_big_endian (suc n) x = (x / 256 ^ n) % 256 ∷ put_big_endian n x

-- `copy(dst[i:i+n], src)` with `n` bytes of room.
abbrev pub copy_into : List ℕ → ℕ → ℕ → List ℕ → List ℕ
copy_into dst i n src = take i dst ++ (take n src ++ drop (i + length (take n src)) dst)

pub record BlockHeader : Type 0 where
  pub version : ℕ
  pub height : ℕ
  pub timestamp : ℕ
  pub nonce : ℕ
  pub extra_nonce : List ℕ
  pub tips : List (List ℕ)
  pub txs_hashes : List (List ℕ)
  pub miner : List ℕ

pub data ParseError : Type 0 where
  too_short truncated_tips truncated_txs_count truncated_txs truncated_miner : ParseError

pub data ParseResult {ℓ} (A : Type ℓ) : Type ℓ where
  ok : A → ParseResult A
  err : ParseError → ParseResult A

-- The loop that reads `n` hashes of 32 bytes from position `pos`.
unfoldable pub read_hashes : ℕ → ℕ → List ℕ → List (List ℕ)
read_hashes zero pos bytes = []
read_hashes (suc n) pos bytes = slice bytes pos 32 ∷ read_hashes n (pos + 32) bytes

-- The part of the parse from `txs_count` on, at position `pos`.
abbrev pub parse_txs : List ℕ → ℕ → (List (List ℕ) → List ℕ → BlockHeader) → ParseResult BlockHeader
parse_txs bytes pos make =
    if ltb (length bytes) (pos + 2)
    then err truncated_txs_count
    else let txs_count = big_endian (slice bytes pos 2) in
      let pos' = pos + 2 in
      if ltb (length bytes) (pos' + txs_count * 32)
      then err truncated_txs
      else let pos'' = pos' + txs_count * 32 in
        if ltb (length bytes) (pos'' + 32)
        then err truncated_miner
        else ok (make (read_hashes txs_count pos' bytes) (slice bytes pos'' 32))

-- The fields that stand before `txs_count`, and the two that follow it.
abbrev pub fixed_fields : List ℕ → ℕ → List (List ℕ) → List ℕ → BlockHeader
fixed_fields bytes tips_count txs miner = record {
  version = get_or bytes 0 0;
  height = big_endian (slice bytes 1 8);
  timestamp = big_endian (slice bytes 9 8);
  nonce = big_endian (slice bytes 17 8);
  extra_nonce = slice bytes 25 32;
  tips = read_hashes tips_count 58 bytes;
  txs_hashes = txs;
  miner = miner;
}

unfoldable pub parse_block_header : List ℕ → ParseResult BlockHeader
parse_block_header bytes =
    if ltb (length bytes) 92
    then err too_short
    else let tips_count = get_or bytes 57 0 in
      if ltb (length bytes) (58 + tips_count * 32)
      then err truncated_tips
      else parse_txs bytes (58 + tips_count * 32) (fixed_fields bytes tips_count)

abbrev pub concat : List (List ℕ) → List ℕ
concat [] = []
concat (x ∷ xs) = x ++ concat xs

module _ (blake3 : List ℕ → List ℕ) where
  unfoldable pub compute_tips_hash : BlockHeader → List ℕ
  compute_tips_hash h = blake3 (concat h.tips)

  unfoldable pub compute_txs_hash : BlockHeader → List ℕ
  compute_txs_hash h = blake3 (concat h.txs_hashes)

  -- The 73 bytes of `workData`.
  unfoldable pub work_data : BlockHeader → List ℕ
  unfolding put_big_endian
  work_data h =
      let base = h.version ∷ put_big_endian 8 h.height ++ replicate 64 0 in
      copy_into (copy_into base 9 32 (compute_tips_hash h)) 41 32 (compute_txs_hash h)

  unfoldable pub compute_work_hash : BlockHeader → List ℕ
  compute_work_hash h = blake3 (work_data h)

  unfoldable pub to_miner_work : BlockHeader → List ℕ
  to_miner_work h =
      let w0 = replicate input_size 0 in
      let w1 = copy_into w0 0 32 (compute_work_hash h) in
      let w2 = copy_into w1 32 8 (put_big_endian 8 h.timestamp) in
      let w3 = copy_into w2 40 8 (put_big_endian 8 h.nonce) in
      let w4 = copy_into w3 48 32 h.extra_nonce in copy_into w4 80 32 h.miner

  unfoldable pub block_header_to_miner_work : List ℕ → ParseResult (List ℕ)
  block_header_to_miner_work bytes = elim (parse_block_header bytes) [
    | err e ↦ err e
    | ok h ↦ ok (to_miner_work h)
  ]

unfoldable pub hash_to_difficulty : List ℕ → ℕ
hash_to_difficulty hash =
    if ltb (length hash) 8
    then 0
    else let leading = big_endian (slice hash 0 8) in
      if leading == 0 then word - 1 else (word - 1) / leading

-- The comparison loop of `Verify` over hash and target, byte by byte.
unfoldable pub compare_bytes : List ℕ → List ℕ → Bool
compare_bytes [] target = true
compare_bytes (h ∷ hs) [] = true
compare_bytes (h ∷ hs) (t ∷ ts) =
    let rest = compare_bytes hs ts in if ltb h t then true else (if ltb t h then false else rest)

abbrev pub with_nonce : List ℕ → ℕ → List ℕ
with_nonce header nonce = copy_into header nonce_offset 8 (put_big_endian 8 nonce)

module _ (blake3 : List ℕ → List ℕ) where
  -- The target has 32 bytes, as the source's loop needs.
  unfoldable pub verify : List ℕ → List ℕ → Bool
  verify input target = elim (tos_hash blake3 input) [
    | none ↦ false
    | some hash ↦ compare_bytes hash target
  ]

  unfoldable pub verify_difficulty : List ℕ → ℕ → Bool
  verify_difficulty input difficulty = elim (tos_hash blake3 input) [
    | none ↦ false
    | some hash ↦ leb difficulty (hash_to_difficulty hash)
  ]

  unfoldable pub build_header : List ℕ → ℕ → ℕ → List ℕ
  build_header work_hash timestamp nonce =
      let w1 = copy_into (replicate input_size 0) 0 32 work_hash in
      let w2 = copy_into w1 32 8 (put_big_endian 8 timestamp) in
      copy_into w2 nonce_offset 8 (put_big_endian 8 nonce)

  -- Valid, and a block; the header has at least 48 bytes, as the source's slice needs.
  unfoldable pub validate_share : List ℕ → ℕ → ℕ → ℕ → Bool × Bool
  validate_share header nonce share_difficulty network_difficulty =
      elim (tos_hash blake3 (with_nonce header nonce)) [
        | none ↦ (false, false)
        | some hash ↦
            let actual = hash_to_difficulty hash in
            if ltb actual share_difficulty
            then (false, false)
            else (if leb network_difficulty actual then (true, true) else (true, false))
      ]
