-- ===== src/TosHash/Layout.antt =====
-- The layout of MinerWork and of the header that a share's nonce is put into.
use mathlib.Core.List.{append_assoc, append-nil}
use tos_pool.Prelude.{
  drop-drop, ℕ, ◌+◌, ◌≤◌, ◌≡◌, refl, sym, ap, ◌∙◌, List, [], ◌++◌, arith, length, length-append,
  take, drop, replicate, take-append-drop, length-take, length-drop,
}
use tos_pool.TosHash.Mix.{input_size}
use tos_pool.TosHash.Header.{
  put_big_endian, copy_into, BlockHeader, to_miner_work, compute_work_hash, with_nonce,
}
use tos_pool.TosHash.Slices.{copy_into-after, length-put_big_endian}

-- One more field written after those that stand already.
next_field :
    (done : List ℕ) (i n : ℕ) (room src : List ℕ)
    → length done ≡ i
    → length src ≡ n
    → (copy_into (done ++ room) i n src ≡ (done ++ src) ++ drop n room)
      × (length (done ++ src) ≡ i + n)
next_field done i n room src e f = (
  copy_into-after done room i n src e f ∙ sym (append_assoc done src (drop n room)),
  omega (arith, length-append done src),
)

-- MinerWork is the work hash, the timestamp, the nonce, the extra nonce and the miner, 112 bytes in
-- all, for a header with fields of 32 bytes and a hash of 32 bytes.
to_miner_work-layout :
    (blake3 : List ℕ → List ℕ) (h : BlockHeader)
    → length (compute_work_hash blake3 h) ≡ 32
    → length h.extra_nonce ≡ 32
    → length h.miner ≡ 32
    → (to_miner_work blake3 h ≡ (
        (((compute_work_hash blake3 h ++ put_big_endian 8 h.timestamp) ++ put_big_endian 8 h.nonce)
          ++ h.extra_nonce)
        ++ h.miner))
      × (length (to_miner_work blake3 h) ≡ input_size)
unfolding to_miner_work
to_miner_work-layout blake3 h hash extra miner =
    let w = compute_work_hash blake3 h in
    let t = put_big_endian 8 h.timestamp in
    let n = put_big_endian 8 h.nonce in
    let (e1, l1) = next_field [] 0 32 (replicate 112 0) w refl hash in
    let (e2, l2) =
      next_field w 32 8 (replicate 80 0) t hash (length-put_big_endian 8 h.timestamp) in
    let (e3, l3) =
      next_field (w ++ t) 40 8 (replicate 72 0) n l2 (length-put_big_endian 8 h.nonce) in
    let (e4, l4) = next_field ((w ++ t) ++ n) 48 32 (replicate 64 0) h.extra_nonce l3 extra in
    let (e5, l5) =
      next_field (((w ++ t) ++ n) ++ h.extra_nonce) 80 32 (replicate 32 0) h.miner l4 miner in
    let whole =
      ap
        (λ d.
          copy_into (copy_into (copy_into (copy_into d 32 8 t) 40 8 n) 48 32 h.extra_nonce) 80 32
            h.miner)
        e1
      ∙ ap (λ d. copy_into (copy_into (copy_into d 40 8 n) 48 32 h.extra_nonce) 80 32 h.miner) e2
      ∙ ap (λ d. copy_into (copy_into d 48 32 h.extra_nonce) 80 32 h.miner) e3
      ∙ ap (λ d. copy_into d 80 32 h.miner) e4
      ∙ e5
      ∙ append-nil ((((w ++ t) ++ n) ++ h.extra_nonce) ++ h.miner) in
    (whole, ap length whole ∙ l5)

-- Putting a nonce into a header of at least 48 bytes replaces its bytes 40 to 47 and no other.
with_nonce-layout :
    (header : List ℕ) (nonce : ℕ)
    → 48 ≤ length header
    → (with_nonce header nonce ≡ take 40 header ++ (put_big_endian 8 nonce ++ drop 48 header))
      × (length (with_nonce header nonce) ≡ length header)
with_nonce-layout header nonce long =
    let n = put_big_endian 8 nonce in
    let eight = length-put_big_endian 8 nonce in
    let placed : with_nonce header nonce ≡ take 40 header ++ (n ++ drop 48 header) =
      ap (λ d. copy_into d 40 8 n) (sym (take-append-drop 40 header))
      ∙ copy_into-after (take 40 header) (drop 40 header) 40 8 n
          (omega (arith, length-take 40 header)) eight
      ∙ ap (λ d. take 40 header ++ (n ++ d)) (sym (drop-drop 40 8 header)) in
    (
      placed,
      omega (
        arith,
        ap length placed,
        length-append (take 40 header) (n ++ drop 48 header),
        length-append n (drop 48 header),
        length-take 40 header,
        length-drop 48 header,
        eight,
      ),
    )
