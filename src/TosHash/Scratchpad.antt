-- ===== src/TosHash/Scratchpad.antt =====
-- What the last stage hashes (stage4Finalize and Hash, internal/toshash/toshash.go).
use tos_pool.Prelude.{
  ℕ, zero, suc, ◌+◌, ◌*◌, ◌/◌, ◌%◌, ◌<◌, ◌≡◌, refl, ap, ◌∙◌, none, some, List, [], ◌∷◌, arith,
  if◌then◌else◌, ◌==◌, length, length-set, length-append, replicate,
}
use tos_pool.TosHash.Mix.{
  stage1_init, stage2_mix, stage3_strided, fold_words, encode_words, put_little_endian, memory_size,
  input_size, stage4_finalize, tos_hash,
}

abbrev pub AllBytes : List ℕ → Type 0
AllBytes [] = Unit {0}
AllBytes (b ∷ bs) = (b < 256) × AllBytes bs

length-put_little_endian : (n x : ℕ) → length (put_little_endian n x) ≡ n
unfolding put_little_endian
length-put_little_endian zero x = refl
length-put_little_endian (suc n) x = ap suc (length-put_little_endian n (x / 256))

length-encode_words : (ws : List ℕ) → length (encode_words ws) ≡ 8 * length ws
length-encode_words [] = refl
length-encode_words (w ∷ ws) = omega (
  arith,
  length-append (put_little_endian 8 w) (encode_words ws),
  length-put_little_endian 8 w,
  length-encode_words ws,
)

length-fold_words : (i : ℕ) (folded ws : List ℕ) → length (fold_words i folded ws) ≡ length folded
unfolding fold_words
length-fold_words i folded [] = refl
length-fold_words i folded (w ∷ ws) = length-fold_words (i + 1) _ ws ∙ length-set folded (i % 4) _

-- What the last stage hashes.
abbrev pub folded_bytes : (List ℕ → List ℕ) → List ℕ → List ℕ
folded_bytes blake3 input = encode_words (
    fold_words 0 (replicate 4 0)
      (stage3_strided memory_size (stage2_mix memory_size (stage1_init memory_size blake3 input))))

-- The hash is defined exactly on inputs of 112 bytes, and it is then the `blake3` of 32 bytes,
-- those of the four words into which the last scratchpad folds.
tos_hash_lem :
    (blake3 : List ℕ → List ℕ) (input : List ℕ)
    → (tos_hash blake3 input
        ≡ (if length input == input_size then some (blake3 (folded_bytes blake3 input)) else none))
      × (length (folded_bytes blake3 input) ≡ 32)
unfolding tos_hash stage4_finalize
tos_hash_lem blake3 input =
    let s =
      stage3_strided memory_size (stage2_mix memory_size (stage1_init memory_size blake3 input)) in
    (
      refl,
      length-encode_words (fold_words 0 (replicate 4 0) s)
          ∙ ap (λ (n : ℕ). 8 * n) (length-fold_words 0 (replicate 4 0) s),
    )
