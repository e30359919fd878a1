-- ===== src/Payouts/Double.antt =====
-- What a confirmed batch payout does to the balances (processBatchPayout,
-- internal/master/master.go, and UpdateMinerBalance, internal/storage/redis.go).
use tos_pool.Prelude.{ℕ, ◌≡◌, ◌≢◌, refl, sym, ap, ◌∙◌, true, some, List, [], ◌∷◌, map, ◌<◌, ◌^◌}
use tos_pool.Prelude.Int.{pos, neg, ◌+ℤ◌, IsInt64}
use tos_pool.Prelude.Maps.{Bytes, codes, bytes_Eq, lookup}
use tos_pool.Store.Redis.{Redis, IsRedis, run, changes_field}
use tos_pool.Store.Data.{Codec, Float64, key_miner, minus, signed}
use tos_pool.Store.Fields.{run-KeepsField, other_miner}
use tos_pool.Store.Transfers.{transfer-source, transfer-target, transfer-other}
use tos_pool.Store.Batches.{Distinct, run_each, run_each-present}
use tos_pool.Payouts.Batch.{
  Miner, PayoutInfo, Wallet, Destination, destination_of, queue, finalize, answered, send_batch,
  process_batch_payout,
}
use tos_pool.Payouts.Loops.{
  amounts, moved-all, to_pending, record_payment, queue-store, queue-owed, finalize-store,
}
use tos_pool.Payouts.Ledger.{balance_of, pending_of}

-- The wallet pays: it gives one transaction, which is confirmed.
abbrev pub Pays : Wallet → Bytes → Type 0
Pays w tx = (w.confirmed tx ≡ true) × ((ds : List Destination) → w.transfer ds ≡ some tx)

module _ {S : Type 0} (r : Redis S) where
  answered-Pays :
      (c : Codec) (w : Wallet) (now : Bytes → ℕ) (s : S) (is : List PayoutInfo) (tx : Bytes)
      → w.confirmed tx ≡ true
      → answered r c w now (λ a. true) s is (some tx) ≡ finalize r c tx now (λ a. true) s is
  unfolding answered
  answered-Pays c w now s is tx u = rw u refl

  send_batch-Pays :
      (c : Codec) (w : Wallet) (now : Bytes → ℕ) (s : S) (is : List PayoutInfo) (tx : Bytes)
      → Pays w tx
      → send_batch r c w now (λ a. true) s is ≡ finalize r c tx now (λ a. true) s is
  unfolding send_batch finalize
  send_batch-Pays c w now s [] tx u = refl
  send_batch-Pays c w now s (i ∷ is) tx u =
      ap (answered r c w now (λ a. true) s (i ∷ is)) (u.1 (map destination_of (i ∷ is)))
      ∙ answered-Pays c w now s (i ∷ is) tx u.0

module _ {S : Type 0} (r : Redis S) (law : IsRedis r) (c : Codec) (tx : Bytes)
    (now : Bytes → ℕ) where
  record_local :
      (s : S) (a b f : Bytes) (k : ℕ)
      → a ≢ b
      → r.field (run r s (record_payment r c tx now b k)) (key_miner a) f
        ≡ r.field s (key_miner a) f
  unfolding changes_field
  record_local s a b f k ne =
      run-KeepsField r law s (record_payment r c tx now b k) (key_miner a) f (
        other_miner a b f (codes "balance") (minus k) ne,
        (other_miner a b f (codes "pending") (signed k) ne, (refl, tt)),
      )

  record_source :
      (a : Bytes) (n : ℕ)
      → n < 2 ^ 63
      → (t : S) → IsInt64 (balance_of r law t a +ℤ neg (pos n))
      → balance_of r law (run r t (record_payment r c tx now a n)) a
        ≡ balance_of r law t a +ℤ neg (pos n)
  unfolding run changes_field
  record_source a n small t i =
      law.field_kept (run r t (to_pending a n)) _ (key_miner a) (codes "balance") refl
      ∙ transfer-source r law t a (codes "balance") (codes "pending") n small refl i

  record_target :
      (a : Bytes) (n : ℕ)
      → n < 2 ^ 63
      → (t : S) → IsInt64 (pending_of r law t a +ℤ pos n)
      → pending_of r law (run r t (record_payment r c tx now a n)) a ≡ pending_of r law t a +ℤ pos n
  unfolding run changes_field
  record_target a n small t i =
      law.field_kept (run r t (to_pending a n)) _ (key_miner a) (codes "pending") refl
      ∙ transfer-target r law t a (codes "balance") (codes "pending") n small refl i

  -- Both passes over one list take the amount.
  twice :
      (s : S) (m : List (Bytes × ℕ)) (a : Bytes) (n : ℕ)
      → Distinct m
      → lookup a m ≡ some n
      → n < 2 ^ 63
      → IsInt64 (balance_of r law s a +ℤ neg (pos n))
      → IsInt64 ((balance_of r law s a +ℤ neg (pos n)) +ℤ neg (pos n))
      → IsInt64 (pending_of r law s a +ℤ pos n)
      → IsInt64 ((pending_of r law s a +ℤ pos n) +ℤ pos n)
      → let s' = run_each r (record_payment r c tx now) (run_each r to_pending s m) m in
        (balance_of r law s' a ≡ (balance_of r law s a +ℤ neg (pos n)) +ℤ neg (pos n))
        × (pending_of r law s' a ≡ (pending_of r law s a +ℤ pos n) +ℤ pos n)
  twice s m a n d e small b b' p p' =
      let there = λ (t : S) (x y f : Bytes) (k : ℕ) (ne : x ≢ y).
        transfer-other r law t y x (codes "balance") (codes "pending") f k (λ q. ne (sym q)) in
      let s1 = run_each r to_pending s m in
      let out =
        run_each-present r to_pending there s m a (codes "balance") n (neg (pos n))
          (λ t. transfer-source r law t a (codes "balance") (codes "pending") n small refl) d e b in
      let in' =
        run_each-present r to_pending there s m a (codes "pending") n (pos n)
          (λ t. transfer-target r law t a (codes "balance") (codes "pending") n small refl) d e p in
      let again = run_each-present r (record_payment r c tx now) record_local s1 m a in
      (
        again (codes "balance") n (neg (pos n)) (record_source a n small) d e (rw out b')
            ∙ ap (λ z. z +ℤ neg (pos n)) out,
        again (codes "pending") n (pos n) (record_target a n small) d e (rw in' p')
            ∙ ap (λ z. z +ℤ pos n) in',
      )

-- If the wallet is online and pays, and every pipeline reaches the store, the batch takes the
-- amount of each miner from the balance twice, and adds it to pending twice. The miners have
-- different addresses, and both sums stay within 64 bits.
pub process_batch_payout-doubled :
    {S F : Type 0} (r : Redis S) (law : IsRedis r) (fl : Float64 F) (fee : F) (c : Codec)
    (w : Wallet) (now : Bytes → ℕ) (s : S) (ms : List Miner) (a tx : Bytes) (n : ℕ)
    → w.online ≡ some true
    → Pays w tx
    → Distinct (amounts ms)
    → lookup a (amounts ms) ≡ some n
    → n < 2 ^ 63
    → let paid = balance_of r law s a in
      let waiting = pending_of r law s a in
      IsInt64 (paid +ℤ neg (pos n))
      → IsInt64 ((paid +ℤ neg (pos n)) +ℤ neg (pos n))
      → IsInt64 (waiting +ℤ pos n)
      → IsInt64 ((waiting +ℤ pos n) +ℤ pos n)
      → let s' = process_batch_payout r fl fee c (some w) now (λ b. true) (λ b. true) s ms in
        (balance_of r law s' a ≡ (paid +ℤ neg (pos n)) +ℤ neg (pos n))
        × (pending_of r law s' a ≡ (waiting +ℤ pos n) +ℤ pos n)
unfolding process_batch_payout
process_batch_payout-doubled r law fl fee c w now s ms a tx n on pays d e small b b' p p' =
    let m = amounts ms in
    let whole = moved-all m in
    let (s1, is) = queue r fl fee (λ b. true) s ms in
    let same =
      send_batch-Pays r c w now s1 is tx pays
      ∙ finalize-store r c tx now s1 is
      ∙ ap (run_each r (record_payment r c tx now) s1)
          (queue-owed r fl fee (λ b. true) s ms ∙ whole)
      ∙ ap (λ t. run_each r (record_payment r c tx now) t m)
          (queue-store r fl fee (λ b. true) s ms ∙ ap (run_each r to_pending s) whole) in
    let (u, v) = twice r law c tx now s m a n d e small b b' p p' in
    rw on (ap (λ t. balance_of r law t a) same ∙ u, ap (λ t. pending_of r law t a) same ∙ v)
