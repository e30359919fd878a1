-- ===== src/TosHash/RoundTrip.antt =====
-- Parsing a serialized block header, and the layout of MinerWork.
use mathlib.Core.Path.{ap₂}
use mathlib.Core.List.{append_assoc}
use native.Mathlib.Nat.{mod-eq_of_lt}
use tos_pool.Prelude.{
  ℕ, ◌+◌, ◌*◌, ◌^◌, ◌≤◌, ◌<◌, ◌≡◌, refl, ap, ◌∙◌, List, [], ◌∷◌, ◌++◌, false, arith, length,
  length-append, length-drop, get_or, drop, ltb,
}
use tos_pool.TosHash.Mix.{slice}
use tos_pool.TosHash.Header.{
  big_endian, put_big_endian, BlockHeader, ok, read_hashes, parse_txs, parse_block_header,
  fixed_fields, concat,
}
use tos_pool.TosHash.Slices.{
  slice-at, drop-next, get_or-at, length-put_big_endian, big_endian-put_big_endian,
}

-- The header in the format that the source documents for the daemon, followed by `rest`.
abbrev pub serialize_txs : BlockHeader → List ℕ → List ℕ
serialize_txs h rest =
    put_big_endian 2 (length h.txs_hashes) ++ (concat h.txs_hashes ++ (h.miner ++ rest))

abbrev pub serialize : BlockHeader → List ℕ → List ℕ
serialize h rest =
    h.version
    ∷ (put_big_endian 8 h.height
        ++ (put_big_endian 8 h.timestamp
            ++ (put_big_endian 8 h.nonce
                ++ (h.extra_nonce ++ (length h.tips ∷ (concat h.tips ++ serialize_txs h rest))))))

abbrev pub AllHashes : List (List ℕ) → Type 0
AllHashes [] = Unit {0}
AllHashes (x ∷ xs) = (length x ≡ 32) × AllHashes xs

-- The fields fit their widths. (The version and the tips count are single bytes.)
pub record IsWellFormed (h : BlockHeader) : Type 0 where
  pub height : h.height < 256 ^ 8
  pub timestamp : h.timestamp < 256 ^ 8
  pub nonce : h.nonce < 256 ^ 8
  pub extra_nonce : length h.extra_nonce ≡ 32
  pub tips : AllHashes h.tips
  pub txs_count : length h.txs_hashes < 256 ^ 2
  pub txs_hashes : AllHashes h.txs_hashes
  pub miner : length h.miner ≡ 32

length-concat : (xs : List (List ℕ)) → AllHashes xs → length (concat xs) ≡ length xs * 32
length-concat [] a = refl
length-concat (x ∷ xs) a = omega (arith, a.0, length-append x (concat xs), length-concat xs a.1)

length-serialize_txs :
    (h : BlockHeader) (rest : List ℕ) → IsWellFormed h → 34 ≤ length (serialize_txs h rest)
length-serialize_txs h rest w = omega (
  arith,
  length-append (put_big_endian 2 (length h.txs_hashes)) (concat h.txs_hashes ++ (h.miner ++ rest)),
  length-put_big_endian 2 (length h.txs_hashes),
  length-append (concat h.txs_hashes) (h.miner ++ rest),
  length-append h.miner rest,
  w.miner,
)

read_hashes-concat :
    (xs : List (List ℕ)) (bytes : List ℕ) (pos : ℕ) (rest : List ℕ)
    → AllHashes xs
    → drop pos bytes ≡ concat xs ++ rest
    → read_hashes (length xs) pos bytes ≡ xs
unfolding read_hashes
read_hashes-concat [] bytes pos rest a e = refl
read_hashes-concat (x ∷ xs) bytes pos rest a e =
    let e' : drop pos bytes ≡ x ++ (concat xs ++ rest) = e ∙ append_assoc x (concat xs) rest in
    let first = slice-at bytes pos 32 x (concat xs ++ rest) e' a.0 in
    let others =
      read_hashes-concat xs bytes (pos + 32) rest a.1
        (drop-next bytes pos 32 x (concat xs ++ rest) e' a.0) in
    cc

read_number :
    (bytes : List ℕ) (pos n x : ℕ) (rest : List ℕ)
    → drop pos bytes ≡ put_big_endian n x ++ rest
    → x < 256 ^ n
    → big_endian (slice bytes pos n) ≡ x
read_number bytes pos n x rest e small =
    ap big_endian (slice-at bytes pos n (put_big_endian n x) rest e (length-put_big_endian n x))
    ∙ big_endian-put_big_endian n x
    ∙ mod-eq_of_lt small

module _ (bytes : List ℕ) (make : List (List ℕ) → List ℕ → BlockHeader) where
  parse_txs-serialized :
      (pos : ℕ) (txs : List (List ℕ)) (miner rest : List ℕ)
      → drop pos bytes ≡ put_big_endian 2 (length txs) ++ (concat txs ++ (miner ++ rest))
      → length txs < 256 ^ 2
      → AllHashes txs
      → length miner ≡ 32
      → parse_txs bytes pos make ≡ ok (make txs miner)
  parse_txs-serialized pos txs miner rest e few a m =
      let count = read_number bytes pos 2 (length txs) (concat txs ++ (miner ++ rest)) e few in
      let e2 =
        drop-next bytes pos 2 (put_big_endian 2 (length txs)) (concat txs ++ (miner ++ rest)) e
          (length-put_big_endian 2 (length txs)) in
      let e3 =
        drop-next bytes (pos + 2) (length txs * 32) (concat txs) (miner ++ rest) e2
          (length-concat txs a) in
      let total : length bytes ≡ pos + 2 + length txs * 32 + (32 + length rest) = omega (
        arith,
        length-drop (pos + 2 + length txs * 32) bytes,
        ap length e3,
        length-append miner rest,
      ) in
      let t1 : ltb (length bytes) (pos + 2) ≡ false = ground arith in
      let t2 : ltb (length bytes) (pos + 2 + length txs * 32) ≡ false = ground arith in
      let t3 : ltb (length bytes) (pos + 2 + length txs * 32 + 32) ≡ false = ground arith in
      simp (count, t1, t2, t3)
        (ap₂ (λ xs ms. ok (make xs ms))
          (read_hashes-concat txs bytes (pos + 2) (miner ++ rest) a e2)
          (slice-at bytes (pos + 2 + length txs * 32) 32 miner rest e3 m))

module _ (bytes : List ℕ) (h : BlockHeader) (rest : List ℕ) (w : IsWellFormed h) where
  parse-at :
      get_or bytes 0 0 ≡ h.version
      → drop 1 bytes
        ≡ put_big_endian 8 h.height
          ++ (put_big_endian 8 h.timestamp
              ++ (put_big_endian 8 h.nonce
                  ++ (h.extra_nonce ++ (length h.tips ∷ (concat h.tips ++ serialize_txs h rest)))))
      → parse_block_header bytes ≡ ok h
  unfolding parse_block_header
  parse-at v d1 =
      let r6 = concat h.tips ++ serialize_txs h rest in
      let r5 = length h.tips ∷ r6 in
      let r4 = h.extra_nonce ++ r5 in
      let r3 = put_big_endian 8 h.nonce ++ r4 in
      let r2 = put_big_endian 8 h.timestamp ++ r3 in
      let eight = length-put_big_endian 8 in
      let d2 = drop-next bytes 1 8 (put_big_endian 8 h.height) r2 d1 (eight h.height) in
      let d3 = drop-next bytes 9 8 (put_big_endian 8 h.timestamp) r3 d2 (eight h.timestamp) in
      let d4 = drop-next bytes 17 8 (put_big_endian 8 h.nonce) r4 d3 (eight h.nonce) in
      let d5 = drop-next bytes 25 32 h.extra_nonce r5 d4 w.extra_nonce in
      let count = get_or-at bytes 57 (length h.tips) r6 d5 in
      let d6 = drop-next bytes 57 1 (length h.tips ∷ []) r6 d5 refl in
      let n = length h.tips in
      let d7 =
        drop-next bytes 58 (n * 32) (concat h.tips) (serialize_txs h rest) d6
          (length-concat h.tips w.tips) in
      let long : 34 + 58 + n * 32 ≤ length bytes =
        omega
          (arith, length-drop (58 + n * 32) bytes, ap length d7, length-serialize_txs h rest w) in
      let t1 : ltb (length bytes) 92 ≡ false = ground arith in
      let t2 : ltb (length bytes) (58 + n * 32) ≡ false = ground arith in
      let fields : fixed_fields bytes n h.txs_hashes h.miner ≡ h = simp (
        v,
        read_number bytes 1 8 h.height r2 d1 w.height,
        read_number bytes 9 8 h.timestamp r3 d2 w.timestamp,
        read_number bytes 17 8 h.nonce r4 d3 w.nonce,
        slice-at bytes 25 32 h.extra_nonce r5 d4 w.extra_nonce,
        read_hashes-concat h.tips bytes 58 (serialize_txs h rest) w.tips d6,
      ) in
      simp (t1, count, t2)
        (parse_txs-serialized bytes (fixed_fields bytes n) (58 + n * 32) h.txs_hashes h.miner rest
            d7 w.txs_count w.txs_hashes w.miner
          ∙ ap ok fields)

-- Parsing the serialized form of a well-formed header gives the header back; bytes that follow it
-- are ignored.
pub parse_block_header-serialize :
    (h : BlockHeader) (rest : List ℕ)
    → IsWellFormed h
    → parse_block_header (serialize h rest) ≡ ok h
parse_block_header-serialize h rest w = parse-at (serialize h rest) h rest w refl refl
