-- ===== src/Payouts/Batches.antt =====
-- The batches of a payout and its lock (processPayouts, internal/master/master.go).
use tos_pool.Prelude.{
  ℕ, zero, suc, ◌+◌, ◌-◌, ◌≤◌, ◌<◌, ◌≡◌, refl, sym, ap, ◌∙◌, true, List, [], ◌∷◌, ◌++◌, some, false,
  ltb, leb, if◌then◌else◌, if-elim, ltb→lt, take, drop, length, arith, take-append-drop, drop-drop,
  drop_all, take_all, length-take, length-drop, Bool-cases, inl, inr,
}
use tos_pool.Prelude.Int.{pos, negsuc, ◌+ℤ◌, ltb_ℤ}
use tos_pool.Payouts.Batch.{Miner}
use tos_pool.Payouts.Schedule.{
  done, panicked, stuck, slice, batch_end, with_batch, pay_from, pay_batches,
}

abbrev pub concat : List (List Miner) → List Miner
concat [] = []
concat (b ∷ bs) = b ++ concat bs

abbrev pub pay_all : {S : Type 0} → (S → List Miner → S) → S → List (List Miner) → S
pay_all pay s [] = s
pay_all pay s (b ∷ bs) = pay_all pay (pay s b) bs

-- Every batch has a miner, and at most `max`.
abbrev pub AllSized : ℕ → List (List Miner) → Type 0
AllSized max [] = Unit {0}
AllSized max (b ∷ bs) = ((1 ≤ length b) × (length b ≤ max)) × AllSized max bs

pos_sum : (a b : ℕ) → pos a +ℤ pos b ≡ pos (a + b)
unfolding ◌+ℤ◌
pos_sum a b = ground arith

negsuc_sum : (n : ℕ) → pos 0 +ℤ negsuc n ≡ negsuc n
unfolding ◌+ℤ◌
negsuc_sum n = ground arith

-- Where a batch ends if its size is not negative.
end_of : List Miner → ℕ → ℕ → ℕ
end_of ms max i = if ltb (length ms) (i + max) then length ms else i + max

batch_end-pos :
    (max i : ℕ) (ms : List Miner) → batch_end ms (pos max) (pos i) ≡ pos (end_of ms max i)
unfolding end_of
batch_end-pos max i ms = simp (pos_sum i max) (ground arith)

-- The slice of the source is what `take` gives.
slice-take :
    (max i : ℕ) (ms : List Miner)
    → i < length ms
    → slice ms (pos i) (batch_end ms (pos max) (pos i)) ≡ some (take max (drop i ms))
unfolding end_of
slice-take max i ms h =
    let up : leb i (end_of ms max i) ≡ true = ground (arith, h) in
    let fits : leb (end_of ms max i) (length ms) ≡ true = ground (arith, h) in
    let taken : take (end_of ms max i - i) (drop i ms) ≡ take max (drop i ms) =
      if-elim (λ end. take (end - i) (drop i ms) ≡ take max (drop i ms)) (ltb (length ms) (i + max))
        (λ e.
          take_all (length ms - i) (drop i ms) (omega (arith, length-drop i ms))
          ∙ sym (take_all max (drop i ms) (ground (arith, e, length-drop i ms))))
        (λ e. let k : i + max - i ≡ max = omega arith in ap (λ n. take n (drop i ms)) k) in
    ap (slice ms (pos i)) (batch_end-pos max i ms) ∙ (rw (up, fits) (ap some taken))

module _ {S : Type 0} (pay : S → List Miner → S) (max : ℕ) (ms : List Miner) where
  pay_from-step :
      (fuel i : ℕ) (s : S)
      → i < length ms
      → pay_from pay (pos max) ms (suc fuel) (pos i) s
        ≡ pay_from pay (pos max) ms fuel (pos (i + max)) (pay s (take max (drop i ms)))
  unfolding pay_from
  pay_from-step fuel i s h =
      let test : ltb_ℤ (pos i) (pos (length ms)) ≡ true = ground (arith, h) in
      rw test (
        ap (with_batch (λ b. pay_from pay (pos max) ms fuel (pos i +ℤ pos max) (pay s b)))
          (slice-take max i ms h)
        ∙ ap (λ j. pay_from pay (pos max) ms fuel j (pay s (take max (drop i ms)))) (pos_sum i max))

module _ {S : Type 0} (pay : S → List Miner → S) (max : ℕ) (positive : 1 ≤ max)
    (ms : List Miner) where
  -- What the loop does from index `i` on, in terms of the batches it pays.
  abbrev PaysAll : ℕ → ℕ → S → Type 0
  PaysAll fuel i s =
      (bs : List (List Miner)) × ((pay_from pay (pos max) ms fuel (pos i) s
          ≡ done (pay_all pay s bs))
        × ((concat bs ≡ drop i ms) × AllSized max bs))

  pay_from-PaysAll : (fuel i : ℕ) (s : S) → length ms - i < fuel → PaysAll fuel i s
  unfolding pay_from
  pay_from-PaysAll zero i s h = absurd (omega (arith, h))
  pay_from-PaysAll (suc fuel) i s h = elim (Bool-cases (ltb i (length ms))) [
    | inr e ↦
        let test : ltb_ℤ (pos i) (pos (length ms)) ≡ false = ground (arith, e) in
        ([], (rw test refl, (sym (drop_all i ms (ground (arith, e))), tt)))
    | inl e ↦
        let b = take max (drop i ms) in
        let (bs, (p, (q, sized))) =
          pay_from-PaysAll fuel (i + max) (pay s b)
            (omega (arith, h, positive, ltb→lt i (length ms) e)) in
        (
          b ∷ bs,
          (
            pay_from-step pay max ms fuel i s (ltb→lt i (length ms) e) ∙ p,
            (
              ap (λ x. b ++ x) (q ∙ drop-drop i max ms) ∙ take-append-drop max (drop i ms),
              (
                (
                  ground (arith, e, length-take max (drop i ms), length-drop i ms),
                  ground (arith, length-take max (drop i ms)),
                ),
                sized,
              ),
            ),
          ),
        )
  ]

-- With a batch size of at least 1, the loop of `processPayouts` ends, within one more round than
-- there are miners (the fuel is at least that): it pays batches that have between one miner and the
-- size, and that are, one after the other, the list of the miners.
pub pay_batches-PaysAll :
    {S : Type 0} (pay : S → List Miner → S) (max fuel : ℕ) (ms : List Miner) (s : S)
    → 1 ≤ max
    → length ms < fuel
    → (bs : List (List Miner)) × ((pay_batches pay (pos max) fuel s ms ≡ done (pay_all pay s bs))
        × ((concat bs ≡ ms) × AllSized max bs))
pay_batches-PaysAll pay max fuel [] s h enough = ([], (refl, (refl, tt)))
pay_batches-PaysAll pay max fuel (m ∷ ms) s h enough =
    pay_from-PaysAll pay max h (m ∷ ms) fuel 0 s (omega (arith, enough))

pub pay_from-stuck :
    {S : Type 0} (pay : S → List Miner → S) (m : Miner) (ms : List Miner) (fuel : ℕ) (s : S)
    → pay_from pay (pos 0) (m ∷ ms) fuel (pos 0) s ≡ stuck
unfolding pay_from
pay_from-stuck pay m ms zero s = refl
pay_from-stuck pay m ms (suc fuel) s =
    pay_from-step pay 0 (m ∷ ms) fuel 0 s (omega arith) ∙ pay_from-stuck pay m ms fuel (pay s [])

pub pay_from-panicked :
    {S : Type 0} (pay : S → List Miner → S) (m : Miner) (ms : List Miner) (fuel n : ℕ) (s : S)
    → pay_from pay (negsuc n) (m ∷ ms) (suc fuel) (pos 0) s ≡ panicked
unfolding pay_from
pay_from-panicked pay m ms fuel n s =
    let end : batch_end (m ∷ ms) (negsuc n) (pos 0) ≡ negsuc n =
      simp (negsuc_sum n) (ground arith) in
    let test : ltb_ℤ (pos 0) (pos (length (m ∷ ms))) ≡ true = ground arith in rw (test, end) refl
