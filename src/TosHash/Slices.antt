-- ===== src/TosHash/Slices.antt =====
-- Slices, copies and big-endian numbers.
use native.Mathlib.Nat.{
  one-le-pow, pow-suc, div-add-mod, mod-lt, mod-eq_of_lt, add-mul-mod_self_left, mul-le-mul_right,
}
use tos_pool.Prelude.{
  ℕ, zero, suc, ◌+◌, ◌*◌, ◌/◌, ◌%◌, ◌^◌, ◌<◌, ◌≡◌, refl, sym, ap, ◌∙◌, List, [], ◌∷◌, ◌++◌, arith,
  length, get_or, take, drop, drop-drop,
}
use tos_pool.TosHash.Mix.{slice}
use tos_pool.TosHash.Header.{big_endian, put_big_endian, copy_into}

take-length : (xs ys : List ℕ) → take (length xs) (xs ++ ys) ≡ xs
take-length [] ys = refl
take-length (x ∷ xs) ys = ap (◌∷◌ x) (take-length xs ys)

drop-length : (xs ys : List ℕ) → drop (length xs) (xs ++ ys) ≡ ys
drop-length [] ys = refl
drop-length (x ∷ xs) ys = drop-length xs ys

take-whole : (xs : List ℕ) → take (length xs) xs ≡ xs
take-whole [] = refl
take-whole (x ∷ xs) = ap (◌∷◌ x) (take-whole xs)

module _ (bytes : List ℕ) (pos n : ℕ) (x rest : List ℕ) (here : drop pos bytes ≡ x ++ rest)
    (size : length x ≡ n) where
  -- What a slice reads at a position where `x` begins, and where the rest begins.
  pub slice-at : slice bytes pos n ≡ x
  slice-at = ap (take n) here ∙ ap (λ k. take k (x ++ rest)) (sym size) ∙ take-length x rest

  pub drop-next : drop (pos + n) bytes ≡ rest
  drop-next =
      drop-drop pos n bytes
      ∙ ap (drop n) here
      ∙ ap (λ k. drop k (x ++ rest)) (sym size)
      ∙ drop-length x rest

pub get_or-at :
    (bytes : List ℕ) (pos x : ℕ) (rest : List ℕ)
    → drop pos bytes ≡ x ∷ rest
    → get_or bytes pos 0 ≡ x
get_or-at [] zero x rest e = cc
get_or-at [] (suc pos) x rest e = cc
get_or-at (b ∷ bytes) zero x rest e = cc
get_or-at (b ∷ bytes) (suc pos) x rest e = get_or-at bytes pos x rest e

-- A copy over the bytes that follow `a`.
pub copy_into-after :
    (a r : List ℕ) (i n : ℕ) (src : List ℕ)
    → length a ≡ i
    → length src ≡ n
    → copy_into (a ++ r) i n src ≡ a ++ (src ++ drop n r)
copy_into-after a r i n src ea es =
    let taken : take n src ≡ src = ap (λ k. take k src) (sym es) ∙ take-whole src in
    let left : take i (a ++ r) ≡ a = ap (λ k. take k (a ++ r)) (sym ea) ∙ take-length a r in
    let right : drop (i + length (take n src)) (a ++ r) ≡ drop n r =
      drop-drop i (length (take n src)) (a ++ r)
      ∙ ap (λ k. drop (length (take n src)) (drop k (a ++ r))) (sym ea)
      ∙ ap (drop (length (take n src))) (drop-length a r)
      ∙ ap (λ t. drop (length t) r) taken
      ∙ ap (λ k. drop k r) es in
    cc (ap₂' left (ap₂' taken right))
  where
    ap₂' : {a b c d : List ℕ} → a ≡ b → c ≡ d → a ++ c ≡ b ++ d
    ap₂' p q = cc

pub length-put_big_endian : (n x : ℕ) → length (put_big_endian n x) ≡ n
unfolding put_big_endian
length-put_big_endian zero x = refl
length-put_big_endian (suc n) x = ap suc (length-put_big_endian n x)

digit : (x q : ℕ) → 0 < q → x / q % 256 * q + x % q ≡ x % (q * 256)
digit x q pos =
    let f = x / q % 256 in
    let e = x / q / 256 in
    let split : x ≡ f * q + x % q + q * 256 * e =
      omega (arith, div-add-mod x q, ap (λ (t : ℕ). q * t) (sym (div-add-mod (x / q) 256))) in
    let small : f * q + x % q < q * 256 =
      omega (arith, mul-le-mul_right {m = f} {n = 255} q (omega arith), mod-lt x pos) in
    sym (
      ap (λ (t : ℕ). t % (q * 256)) split
      ∙ add-mul-mod_self_left (f * q + x % q) (q * 256) e
      ∙ mod-eq_of_lt small)

-- The number read is the one written, if it fits.
pub big_endian-put_big_endian : (n x : ℕ) → big_endian (put_big_endian n x) ≡ x % 256 ^ n
unfolding big_endian put_big_endian
big_endian-put_big_endian zero x = omega arith
big_endian-put_big_endian (suc n) x =
    let len = length-put_big_endian n x in
    ap (λ (k : ℕ). x / 256 ^ n % 256 * 256 ^ k + big_endian (put_big_endian n x)) len
    ∙ ap (λ (t : ℕ). x / 256 ^ n % 256 * 256 ^ n + t) (big_endian-put_big_endian n x)
    ∙ digit x (256 ^ n) (one-le-pow n 256 (omega arith))
    ∙ ap (λ (t : ℕ). x % t) (sym (pow-suc 256 n))
