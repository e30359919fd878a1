-- ===== src/Payouts/Ledger.antt =====
-- What a batch payout does to the balances (processBatchPayout, internal/master/master.go).
use tos_pool.Prelude.{
  ℕ, ◌≡◌, ◌≢◌, refl, sym, ap, ◌∙◌, Bool, true, false, Option, none, some, List, [], ◌∷◌, map, ◌<◌,
  ◌^◌, inl, inr, Option-cases,
}
use tos_pool.Prelude.Int.{ℤ, pos, neg, ◌+ℤ◌, IsInt64}
use tos_pool.Prelude.Maps.{Bytes, codes, bytes_Eq, lookup}
use tos_pool.Store.Redis.{Redis, IsRedis}
use tos_pool.Store.Data.{Codec, Float64, key_miner}
use tos_pool.Store.Transfers.{transfer-source, transfer-target, transfer-other, cancel, restore}
use tos_pool.Store.Batches.{Distinct, run_each, run_each-present, run_each-absent}
use tos_pool.Payouts.Batch.{
  Miner, PayoutInfo, Wallet, Destination, destination_of, queue, rollback_all, answered, send_batch,
  process_batch_payout,
}
use tos_pool.Payouts.Loops.{
  amounts, moved, moved-Distinct, to_pending, to_balance, queue-store, queue-owed,
  rollback_all-store,
}

module _ {S : Type 0} (r : Redis S) (law : IsRedis r) where
  abbrev pub balance_of : S → Bytes → ℤ
  balance_of s a = r.field s (key_miner a) (codes "balance")

  abbrev pub pending_of : S → Bytes → ℤ
  pending_of s a = r.field s (key_miner a) (codes "pending")

  -- The amount can be moved from the balance to pending without leaving the 64 bits.
  abbrev pub Payable : S → Bytes → ℕ → Type 0
  Payable s a n =
      (n < 2 ^ 63)
      × ((IsInt64 (balance_of s a) × IsInt64 (pending_of s a))
          × (IsInt64 (balance_of s a +ℤ neg (pos n)) × IsInt64 (pending_of s a +ℤ pos n)))

  -- The two loops of a failed batch, over the same list, undo each other.
  undone :
      (s : S) (m : List (Bytes × ℕ)) (a : Bytes)
      → Distinct m
      → ((n : ℕ) → lookup a m ≡ some n → Payable s a n)
      → let s' = run_each r to_balance (run_each r to_pending s m) m in
        (balance_of s' a ≡ balance_of s a) × (pending_of s' a ≡ pending_of s a)
  undone s m a d h =
      let there = λ (t : S) (x y f : Bytes) (k : ℕ) (ne : x ≢ y).
        transfer-other r law t y x (codes "balance") (codes "pending") f k (λ p. ne (sym p)) in
      let back = λ (t : S) (x y f : Bytes) (k : ℕ) (ne : x ≢ y).
        transfer-other r law t y x (codes "pending") (codes "balance") f k (λ p. ne (sym p)) in
      let s1 = run_each r to_pending s m in
      elim (Option-cases (lookup a m)) [
        | inl e ↦ (
          run_each-absent r to_balance back s1 m a (codes "balance") e
              ∙ run_each-absent r to_pending there s m a (codes "balance") e,
          run_each-absent r to_balance back s1 m a (codes "pending") e
              ∙ run_each-absent r to_pending there s m a (codes "pending") e,
        )
        | inr (n, e) ↦
            let (small, ((b, p), (b', p'))) = h n e in
            let out =
              run_each-present r to_pending there s m a (codes "balance") n (neg (pos n))
                (λ t. transfer-source r law t a (codes "balance") (codes "pending") n small refl) d
                e b' in
            let in' =
              run_each-present r to_pending there s m a (codes "pending") n (pos n)
                (λ t. transfer-target r law t a (codes "balance") (codes "pending") n small refl) d
                e p' in
            let home = ap (λ z. z +ℤ pos n) out ∙ cancel (balance_of s a) n in
            let gone = ap (λ z. z +ℤ neg (pos n)) in' ∙ restore (pending_of s a) n in
            (
              run_each-present r to_balance back s1 m a (codes "balance") n (pos n)
                    (λ t.
                      transfer-target r law t a (codes "pending") (codes "balance") n small refl)
                    d e (rw home b)
                  ∙ home,
              run_each-present r to_balance back s1 m a (codes "pending") n (neg (pos n))
                    (λ t.
                      transfer-source r law t a (codes "pending") (codes "balance") n small refl)
                    d e (rw gone p)
                  ∙ gone,
            )
      ]

  -- The wallet does not pay: it gives no transaction, or one that is not confirmed.
  abbrev pub Unpaid : Wallet → Type 0
  Unpaid w = (ds : List Destination) (tx : Bytes) → w.transfer ds ≡ some tx → w.confirmed tx ≡ false

  answered-Unpaid :
      (c : Codec) (w : Wallet) (now : Bytes → ℕ) (s : S) (is : List PayoutInfo) (o : Option Bytes)
      → ((tx : Bytes) → o ≡ some tx → w.confirmed tx ≡ false)
      → answered r c w now (λ a. true) s is o ≡ rollback_all r (λ a. true) s is
  unfolding answered
  answered-Unpaid c w now s is none u = refl
  answered-Unpaid c w now s is (some tx) u = rw (u tx refl) refl

  send_batch-Unpaid :
      (c : Codec) (w : Wallet) (now : Bytes → ℕ) (s : S) (is : List PayoutInfo)
      → Unpaid w
      → send_batch r c w now (λ a. true) s is ≡ rollback_all r (λ a. true) s is
  unfolding send_batch rollback_all
  send_batch-Unpaid c w now s [] u = refl
  send_batch-Unpaid c w now s (i ∷ is) u =
      answered-Unpaid c w now s (i ∷ is) (w.transfer (map destination_of (i ∷ is))) (u _)

  -- If the wallet is online and does not pay, and the rollbacks reach the store, the batch leaves
  -- the balance and the pending amount of every address as they were, whichever of the first moves
  -- failed. The miners have different addresses and amounts that fit.
  pub process_batch_payout-undone :
      {F : Type 0} (fl : Float64 F) (fee : F) (c : Codec) (w : Wallet) (now : Bytes → ℕ)
      (sent : Bytes → Bool) (s : S) (ms : List Miner) (a : Bytes)
      → w.online ≡ some true
      → Unpaid w
      → Distinct (amounts ms)
      → ((n : ℕ) → lookup a (moved sent (amounts ms)) ≡ some n → Payable s a n)
      → let s' = process_batch_payout r fl fee c (some w) now sent (λ b. true) s ms in
        (balance_of s' a ≡ balance_of s a) × (pending_of s' a ≡ pending_of s a)
  unfolding process_batch_payout
  process_batch_payout-undone fl fee c w now sent s ms a on u d h =
      let (s1, is) = queue r fl fee sent s ms in
      let same =
        send_batch-Unpaid c w now s1 is u
        ∙ rollback_all-store r s1 is
        ∙ ap (run_each r to_balance s1) (queue-owed r fl fee sent s ms)
        ∙ ap (λ t. run_each r to_balance t (moved sent (amounts ms)))
            (queue-store r fl fee sent s ms) in
      let (p, q) = undone s (moved sent (amounts ms)) a (moved-Distinct sent (amounts ms) d) h in
      rw on (ap (λ t. balance_of t a) same ∙ p, ap (λ t. pending_of t a) same ∙ q)
