-- ===== src/TosHash/Shares.antt =====
-- Difficulties, targets and the verdict on a share.
use mathlib.Core.Path.{subst}
use native.Mathlib.Nat.{
  pow-suc, mul-le-mul_right, mul-le-mul, le-div_iff_mul-le, le_trans, le_refl, div-mul-le_self,
}
use tos_pool.Prelude.{
  ℕ, suc, ◌+◌, ◌-◌, ◌*◌, ◌/◌, ◌^◌, ◌≤◌, ◌<◌, ◌≡◌, refl, sym, ap, ◌∙◌, List, [], ◌∷◌, Bool, true,
  false, ◌&&◌, arith, length, ltb, leb, if◌then◌else◌,
}
use tos_pool.TosHash.Words.{word}
use tos_pool.TosHash.Mix.{slice}
use tos_pool.TosHash.Scratchpad.{AllBytes}
use tos_pool.TosHash.Header.{
  big_endian, compare_bytes, hash_to_difficulty, verify_difficulty, validate_share, with_nonce,
}

big_endian-lt : (bs : List ℕ) → AllBytes bs → big_endian bs < 256 ^ length bs
unfolding big_endian
big_endian-lt [] a = omega arith
big_endian-lt (b ∷ bs) a = omega (
  arith,
  pow-suc 256 (length bs),
  big_endian-lt bs a.1,
  mul-le-mul_right {m = b} {n = 255} (256 ^ length bs) (omega (arith, a.0)),
)

lexicographic :
    (h t q x y : ℕ)
    → x < q
    → y < q
    → (if ltb h t then true else (if ltb t h then false else leb x y)) ≡ leb (h * q + x) (t * q + y)
lexicographic h t q x y p r = ground (
  arith,
  mul-le-mul_right {m = suc h} {n = t} q,
  mul-le-mul_right {m = suc t} {n = h} q,
  mul-le-mul_right {m = h} {n = t} q,
  mul-le-mul_right {m = t} {n = h} q,
)

quotient-antitone : (n x y : ℕ) → 0 < x → x ≤ y → n / y ≤ n / x
quotient-antitone n x y pos h =
    (le-div_iff_mul-le {k = x} {x = n / y} {y = n} pos).1
      (le_trans (mul-le-mul (le_refl (n / y)) h) (div-mul-le_self n y))

-- The byte loop of `Verify` is the order of big-endian numbers, on strings of the same length.
compare_bytes-leb :
    (hash target : List ℕ)
    → AllBytes hash
    → AllBytes target
    → length hash ≡ length target
    → compare_bytes hash target ≡ leb (big_endian hash) (big_endian target)
unfolding compare_bytes big_endian
compare_bytes-leb [] [] a b e = refl
compare_bytes-leb [] (t ∷ ts) a b e = absurd (omega arith)
compare_bytes-leb (h ∷ hs) [] a b e = absurd (omega arith)
compare_bytes-leb (h ∷ hs) (t ∷ ts) a b e =
    let n : length ts ≡ length hs = omega arith in
    ap (λ (r : Bool). if ltb h t then true else (if ltb t h then false else r))
      (compare_bytes-leb hs ts a.1 b.1 (omega arith))
    ∙ lexicographic h t (256 ^ length hs) (big_endian hs) (big_endian ts) (big_endian-lt hs a.1)
        (subst (λ (k : ℕ). big_endian ts < 256 ^ k) n (big_endian-lt ts b.1))
    ∙ ap (λ (k : ℕ). leb (h * 256 ^ length hs + big_endian hs) (t * 256 ^ k + big_endian ts))
        (sym n)

-- A share is valid as its difficulty is verified for the header with its nonce, and a block if it
-- is valid and the network's difficulty is verified too.
validate_share-verify_difficulty :
    (blake3 : List ℕ → List ℕ) (header : List ℕ) (nonce share network : ℕ)
    → let valid = verify_difficulty blake3 (with_nonce header nonce) share in
      validate_share blake3 header nonce share network
      ≡ (valid, valid && verify_difficulty blake3 (with_nonce header nonce) network)
unfolding validate_share verify_difficulty
validate_share-verify_difficulty blake3 header nonce share network = ground arith

-- A hash whose leading eight bytes are the smaller number has at least the difficulty.
hash_to_difficulty-antitone :
    (hash other : List ℕ)
    → 8 ≤ length hash
    → 8 ≤ length other
    → AllBytes other
    → big_endian (slice hash 0 8) ≤ big_endian (slice other 0 8)
    → hash_to_difficulty other ≤ hash_to_difficulty hash
unfolding hash_to_difficulty
hash_to_difficulty-antitone hash other l l' a h = ground (
  arith,
  quotient-antitone (word - 1) (big_endian (slice hash 0 8)) (big_endian (slice other 0 8)),
)
