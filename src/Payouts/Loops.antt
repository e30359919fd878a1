-- ===== src/Payouts/Loops.antt =====
-- The three loops of a batch payout as transfers over a list of addresses and amounts
-- (internal/master/master.go).
use tos_pool.Prelude.{
  ℕ, ◌≡◌, refl, ap, Bool, true, none, List, [], ◌∷◌, ◌++◌, if◌then◌else◌, if-elim, arith, inl, inr,
  Bool-cases,
}
use tos_pool.Prelude.Maps.{Bytes, codes, bytes_Eq, lookup}
use tos_pool.Store.Redis.{Command, zadd, Redis, run, pipeline}
use tos_pool.Store.Data.{Codec, Float64, Payment, PaymentStatus, key_payments_pending}
use tos_pool.Store.Payments.{transfer, move_to_pending, rollback_payment, update_miner_balance}
use tos_pool.Store.Batches.{Distinct, run_each}
use tos_pool.Payouts.Batch.{Miner, PayoutInfo, queue, rollback_all, finalize}

abbrev pub amounts : List Miner → List (Bytes × ℕ)
amounts [] = []
amounts (m ∷ ms) = (m.address, m.balance) ∷ amounts ms

abbrev pub owed : List PayoutInfo → List (Bytes × ℕ)
owed [] = []
owed (i ∷ is) = (i.address, i.amount) ∷ owed is

abbrev pub to_pending : Bytes → ℕ → List Command
to_pending a n = transfer a (codes "balance") (codes "pending") n

abbrev pub to_balance : Bytes → ℕ → List Command
to_balance a n = transfer a (codes "pending") (codes "balance") n

-- The balances that the store moved.
abbrev pub moved : (Bytes → Bool) → List (Bytes × ℕ) → List (Bytes × ℕ)
moved sent [] = []
moved sent ((a, n) ∷ m) = if sent a then (a, n) ∷ moved sent m else moved sent m

pub moved-all : (m : List (Bytes × ℕ)) → moved (λ a. true) m ≡ m
moved-all [] = refl
moved-all (x ∷ m) = ap (◌∷◌ x) (moved-all m)

absent-moved :
    (sent : Bytes → Bool) (m : List (Bytes × ℕ)) (a : Bytes)
    → lookup a m ≡ none
    → lookup a (moved sent m) ≡ none
absent-moved sent [] a e = refl
absent-moved sent ((b, n) ∷ m) a e = ground (arith, absent-moved sent m a, e)

pub moved-Distinct :
    (sent : Bytes → Bool) (m : List (Bytes × ℕ)) → Distinct m → Distinct (moved sent m)
moved-Distinct sent [] d = tt
moved-Distinct sent ((b, n) ∷ m) d =
    if-elim Distinct (sent b) (λ e. (absent-moved sent m b d.0, moved-Distinct sent m d.1))
      (λ e. moved-Distinct sent m d.1)

module _ {S : Type 0} (r : Redis S) where
  pub queue-store :
      {F : Type 0} (fl : Float64 F) (fee : F) (sent : Bytes → Bool) (s : S) (ms : List Miner)
      → (queue r fl fee sent s ms).0 ≡ run_each r to_pending s (moved sent (amounts ms))
  unfolding queue move_to_pending pipeline run_each
  queue-store fl fee sent s [] = refl
  queue-store fl fee sent s (m ∷ ms) = elim (Bool-cases (sent m.address)) [
    | inl e ↦ rw e (queue-store fl fee sent (run r s (to_pending m.address m.balance)) ms)
    | inr e ↦ rw e (queue-store fl fee sent s ms)
  ]

  pub queue-owed :
      {F : Type 0} (fl : Float64 F) (fee : F) (sent : Bytes → Bool) (s : S) (ms : List Miner)
      → owed (queue r fl fee sent s ms).1 ≡ moved sent (amounts ms)
  unfolding queue move_to_pending pipeline
  queue-owed fl fee sent s [] = refl
  queue-owed fl fee sent s (m ∷ ms) = elim (Bool-cases (sent m.address)) [
    | inl e ↦ rw e (
        ap (◌∷◌ (m.address, m.balance))
          (queue-owed fl fee sent (run r s (to_pending m.address m.balance)) ms))
    | inr e ↦ rw e (queue-owed fl fee sent s ms)
  ]

  pub rollback_all-store :
      (s : S) (is : List PayoutInfo)
      → rollback_all r (λ a. true) s is ≡ run_each r to_balance s (owed is)
  unfolding rollback_all rollback_payment pipeline run_each
  rollback_all-store s [] = refl
  rollback_all-store s (i ∷ is) = rollback_all-store (run r s (to_balance i.address i.amount)) is

  -- The commands of `UpdateMinerBalance`.
  abbrev pub record_payment : Codec → Bytes → (Bytes → ℕ) → Bytes → ℕ → List Command
  record_payment c tx_hash now a n =
      let payment : Payment = record {
        tx_hash = tx_hash;
        address = a;
        amount = n;
        timestamp = now a;
        status = PaymentStatus.pending;
      } in
      to_pending a n ++ (zadd key_payments_pending (now a) (c.marshal_payment payment) ∷ [])

  pub finalize-store :
      (c : Codec) (tx_hash : Bytes) (now : Bytes → ℕ) (s : S) (is : List PayoutInfo)
      → finalize r c tx_hash now (λ a. true) s is
        ≡ run_each r (record_payment c tx_hash now) s (owed is)
  unfolding finalize update_miner_balance pipeline run_each
  finalize-store c tx_hash now s [] = refl
  finalize-store c tx_hash now s (i ∷ is) =
      finalize-store c tx_hash now (run r s (record_payment c tx_hash now i.address i.amount)) is
