-- ===== src/TosHash/Strided.antt =====
-- What the rounds of stage 3 compute in place (stage3Strided, internal/toshash/toshash.go).
use Prim.Native.Nat.{bit_xor}
use mathlib.Core.Path.{ap₂, subst}
use tos_pool.Prelude.{
  ℕ, zero, suc, ◌+◌, ◌*◌, ◌%◌, ◌≤◌, ◌<◌, ◌≡◌, ◌≢◌, refl, sym, ap, ◌∙◌, List, [], ◌∷◌, arith,
  if◌then◌else◌, ltb, ltb→lt, length, length-set, set, Bool-cases, inl, inr,
}
use tos_pool.TosHash.Words.{mix}
use tos_pool.TosHash.Mix.{at, strides, strided, rounds, mixing_rounds, stage3_strided}

at-set_self : (s : List ℕ) (i v : ℕ) → i < length s → at (set s i v) i ≡ v
at-set_self [] i v h = absurd (omega (arith, h))
at-set_self (w ∷ s) zero v h = refl
at-set_self (w ∷ s) (suc i) v h = at-set_self s i v (omega (arith, h))

at-set_ne : (s : List ℕ) (i j v : ℕ) → i ≢ j → at (set s i v) j ≡ at s j
at-set_ne [] i j v h = refl
at-set_ne (w ∷ s) zero zero v h = absurd (h refl)
at-set_ne (w ∷ s) zero (suc j) v h = refl
at-set_ne (w ∷ s) (suc i) zero v h = refl
at-set_ne (w ∷ s) (suc i) (suc j) v h = at-set_ne s i j v (λ e. h (ap suc e))

module _ (size round stride : ℕ) where
  -- The word at `j` as index `i` finds it: an index below has its new word already.
  abbrev pub seen : ℕ → List ℕ → List ℕ → ℕ → ℕ
  seen i s t j = if ltb j i then at t j else at s j

  -- The word at `i`, from the scratchpad before and after the round.
  abbrev pub strided_word : ℕ → List ℕ → List ℕ → ℕ
  strided_word i s t =
      mix (at s i)
        (bit_xor (seen i s t ((i + stride) % size)) (seen i s t ((i + stride * 2) % size))) round

  abbrev written : ℕ → List ℕ → ℕ
  written i s =
      mix (at s i) (bit_xor (at s ((i + stride) % size)) (at s ((i + stride * 2) % size))) round

  length-strided : (n i : ℕ) (s : List ℕ) → length (strided size round stride n i s) ≡ length s
  unfolding strided
  length-strided zero i s = refl
  length-strided (suc n) i s =
      length-strided n (i + 1) (set s i (written i s)) ∙ length-set s i (written i s)

  -- The indices before `i` are left alone.
  at-strided : (n i j : ℕ) (s : List ℕ) → j < i → at (strided size round stride n i s) j ≡ at s j
  unfolding strided
  at-strided zero i j s h = refl
  at-strided (suc n) i j s h =
      at-strided n (i + 1) j (set s i (written i s)) (omega (arith, h))
      ∙ at-set_ne s i j (written i s) (λ e. omega (arith, h, e))

  seen-first : (n i j : ℕ) (s : List ℕ) → seen i s (strided size round stride n i s) j ≡ at s j
  seen-first n i j s = elim (Bool-cases (ltb j i)) [
    | inl e ↦ simp e (at-strided n i j s (ltb→lt j i e))
    | inr e ↦ simp e
  ]

  seen-later : (i0 i j : ℕ) (s t : List ℕ) (v : ℕ) → i0 < i → seen i (set s i0 v) t j ≡ seen i s t j
  seen-later i0 i j s t v h = elim (Bool-cases (ltb j i)) [
    | inl e ↦ simp e
    | inr e ↦ simp e (at-set_ne s i0 j v (λ p. ground (arith, e, p, h)))
  ]

  strided-first :
      (n i : ℕ) (s : List ℕ)
      → i < length s
      → let t = strided size round stride (suc n) i s in at t i ≡ strided_word i s t
  unfolding strided
  strided-first n i s within =
      at-strided n (i + 1) i (set s i (written i s)) (omega arith)
      ∙ at-set_self s i (written i s) within
      ∙ sym (
          ap₂ (λ b c. mix (at s i) (bit_xor b c) round)
            (seen-first (suc n) i ((i + stride) % size) s)
            (seen-first (suc n) i ((i + stride * 2) % size) s))

  strided_word-set :
      (i0 i : ℕ) (s t : List ℕ) (v : ℕ)
      → i0 < i
      → strided_word i (set s i0 v) t ≡ strided_word i s t
  strided_word-set i0 i s t v h =
      ap
        (λ a.
          mix a
            (bit_xor (seen i (set s i0 v) t ((i + stride) % size))
              (seen i (set s i0 v) t ((i + stride * 2) % size)))
            round)
        (at-set_ne s i0 i v (λ e. omega (arith, h, e)))
      ∙ ap₂ (λ b c. mix (at s i) (bit_xor b c) round)
          (seen-later i0 i ((i + stride) % size) s t v h)
          (seen-later i0 i ((i + stride * 2) % size) s t v h)

  strided-word :
      (n i0 i : ℕ) (s : List ℕ)
      → i0 ≤ i
      → i < i0 + n
      → i < length s
      → let t = strided size round stride n i0 s in at t i ≡ strided_word i s t
  unfolding strided
  strided-word zero i0 i s low high within = absurd (omega (arith, low, high))
  strided-word (suc n) i0 i s low high within =
      let t = strided size round stride (suc n) i0 s in
      let s' = set s i0 (written i0 s) in
      let later = λ (h : i0 < i).
        strided-word n (i0 + 1) i s' (omega (arith, h)) (omega (arith, high))
          (omega (arith, within, length-set s i0 (written i0 s)))
        ∙ strided_word-set i0 i s t (written i0 s) h in
      elim (Bool-cases (ltb i0 i)) [
        | inl e ↦ later (ltb→lt i0 i e)
        | inr e ↦
            let same : i ≡ i0 = ground (arith, e, low) in
            subst
              (λ k.
                at (strided size round stride (suc n) k s) i
                ≡ strided_word i s (strided size round stride (suc n) k s))
              same (strided-first n i s within)
      ]

-- A round of stage 3: every word is the mix of the old word with the two words that are one and two
-- strides further, going round.
abbrev pub IsRound : ℕ → ℕ → List ℕ → List ℕ → Type 0
IsRound size round s t =
    (length t ≡ size)
    × ((i : ℕ)
        → i < size
        → at t i ≡ strided_word size round (at strides (round % length strides)) i s t)

-- Rounds one after the other, from the number `round` on.
abbrev pub AreRounds : ℕ → ℕ → ℕ → List ℕ → List ℕ → Type 0
AreRounds size zero round s t = t ≡ s
AreRounds size (suc n) round s t =
    (u : List ℕ) × (IsRound size round s u × AreRounds size n (round + 1) u t)

rounds-AreRounds :
    (size n round : ℕ) (s : List ℕ)
    → length s ≡ size
    → AreRounds size n round s (rounds size n round s)
unfolding rounds
rounds-AreRounds size zero round s e = refl
rounds-AreRounds size (suc n) round s e =
    let stride = at strides (round % length strides) in
    let u = strided size round stride size 0 s in
    let long : length u ≡ size = length-strided size round stride size 0 s ∙ e in
    (
      u,
      (
        (
          long,
          λ i h.
              strided-word size round stride size 0 i s (omega arith) (omega (arith, h))
                (omega (arith, h, e)),
        ),
        rounds-AreRounds size n (round + 1) u long,
      ),
    )

-- Stage 3 is 8 rounds with the strides in turn, in place: each word becomes the mix of itself with
-- the words one and two strides further, going round, where a word at a lower index is the new one
-- and any other the old one.
pub stage3_strided-AreRounds :
    (size : ℕ) (s : List ℕ) → length s ≡ size → AreRounds size 8 0 s (stage3_strided size s)
unfolding stage3_strided
stage3_strided-AreRounds size s e = rounds-AreRounds size mixing_rounds 0 s e
