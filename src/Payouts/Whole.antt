-- ===== src/Payouts/Whole.antt =====
-- A whole payout, with the batches that it pays (processPayouts and processBatchPayout,
-- internal/master/master.go).
use tos_pool.Prelude.{
  ℕ, ◌≤◌, ◌<◌, ◌≡◌, refl, Bool, true, false, not, Option, none, some, List, [], ◌∷◌, map,
  if◌then◌else◌, if-elim, length,
}
use tos_pool.Prelude.Int.{pos}
use tos_pool.Prelude.Maps.{Bytes, bytes_eq}
use tos_pool.Store.Redis.{
  Command, hincr_by, hset, zadd, zrem, zincr_by, incr_by, lpush, ltrim, expire, del, Redis, run,
  pipeline,
}
use tos_pool.Store.Data.{Codec, Float64}
use tos_pool.Store.Payments.{move_to_pending, rollback_payment, update_miner_balance}
use tos_pool.Upstream.Manager.{UpstreamManager, TosClient, get_client}
use tos_pool.Payouts.Batch.{
  Miner, PayoutInfo, Wallet, destination_of, queue, rollback_all, finalize, answered, send_batch,
  process_batch_payout,
}
use tos_pool.Payouts.Schedule.{
  Strings, key_payout_lock, payout_lock_ttl, lock_payouts, process_payouts,
}
use tos_pool.Payouts.Locking.{OnlyBy, IsStrings, Freed, process_payouts-Freed}

abbrev pub key_of : Command → Bytes
key_of (hincr_by k f n) = k
key_of (hset k f v) = k
key_of (zadd k n m) = k
key_of (zrem k m) = k
key_of (zincr_by k n m) = k
key_of (incr_by k n) = k
key_of (lpush k v) = k
key_of (ltrim k i j) = k
key_of (expire k t) = k
key_of (del k) = k

-- What holds of the store and no command on another key changes, such as who has the lock, holds
-- after a batch.
module _ {S : Type 0} (r : Redis S) (Holds : S → Type 0)
    (keeps : (s : S) (c : Command)
      → bytes_eq (key_of c) key_payout_lock ≡ false
      → Holds s
      → Holds (r.exec s c)) where
  abbrev SameLock : S → S → Type 0
  SameLock s s' = Holds s → Holds s'

  abbrev AllOther : List Command → Type 0
  AllOther [] = Unit {0}
  AllOther (c ∷ cs) = (bytes_eq (key_of c) key_payout_lock ≡ false) × AllOther cs

  run-lock : (s : S) (cs : List Command) → AllOther cs → SameLock s (run r s cs)
  unfolding run
  run-lock s [] h = λ p. p
  run-lock s (c ∷ cs) h = λ p. run-lock (r.exec s c) cs h.1 (keeps s c h.0 p)

  pipeline-lock :
      (sent : Bool) (s : S) (cs : List Command) → AllOther cs → SameLock s (pipeline r sent s cs).0
  unfolding pipeline
  pipeline-lock true s cs h = run-lock s cs h
  pipeline-lock false s cs h = λ p. p

  queue-lock :
      {F : Type 0} (fl : Float64 F) (fee : F) (sent : Bytes → Bool) (s : S) (ms : List Miner)
      → SameLock s (queue r fl fee sent s ms).0
  unfolding queue move_to_pending
  queue-lock fl fee sent s [] = λ p. p
  queue-lock fl fee sent s (m ∷ ms) =
      let (s', moved) = move_to_pending r s m.address m.balance (sent m.address) in
      let rest = queue-lock fl fee sent s' ms in
      let first = pipeline-lock (sent m.address) s _ (refl, (refl, tt)) in
      if-elim (λ (x : S × List PayoutInfo). SameLock s x.0) moved (λ e p. rest (first p))
        (λ e p. rest (first p))

  rollback_all-lock :
      (back : Bytes → Bool) (s : S) (is : List PayoutInfo) → SameLock s (rollback_all r back s is)
  unfolding rollback_all rollback_payment
  rollback_all-lock back s [] = λ p. p
  rollback_all-lock back s (i ∷ is) =
      let first = pipeline-lock (back i.address) s _ (refl, (refl, tt)) in
      let rest =
        rollback_all-lock back (rollback_payment r s i.address i.amount (back i.address)).0 is in
      λ p. rest (first p)

  finalize-lock :
      (c : Codec) (tx : Bytes) (now : Bytes → ℕ) (back : Bytes → Bool) (s : S)
      (is : List PayoutInfo)
      → SameLock s (finalize r c tx now back s is)
  unfolding finalize update_miner_balance
  finalize-lock c tx now back s [] = λ p. p
  finalize-lock c tx now back s (i ∷ is) =
      let first = pipeline-lock (back i.address) s _ (refl, (refl, (refl, tt))) in
      let rest =
        finalize-lock c tx now back
          (update_miner_balance r c s i.address i.amount tx (now i.address) (back i.address)).0
          is in
      λ p. rest (first p)

  answered-lock :
      (c : Codec) (w : Wallet) (now : Bytes → ℕ) (back : Bytes → Bool) (s : S)
      (is : List PayoutInfo) (o : Option Bytes)
      → SameLock s (answered r c w now back s is o)
  unfolding answered
  answered-lock c w now back s is none = rollback_all-lock back s is
  answered-lock c w now back s is (some tx) =
      if-elim (SameLock s) (w.confirmed tx) (λ e. finalize-lock c tx now back s is)
        (λ e. rollback_all-lock back s is)

  send_batch-lock :
      (c : Codec) (w : Wallet) (now : Bytes → ℕ) (back : Bytes → Bool) (s : S)
      (is : List PayoutInfo)
      → SameLock s (send_batch r c w now back s is)
  unfolding send_batch
  send_batch-lock c w now back s [] = λ p. p
  send_batch-lock c w now back s (i ∷ is) =
      answered-lock c w now back s (i ∷ is) (w.transfer (map destination_of (i ∷ is)))

  pub process_batch_payout-lock :
      {F : Type 0} (fl : Float64 F) (fee : F) (c : Codec) (wallet : Option Wallet) (now : Bytes → ℕ)
      (sent back : Bytes → Bool) (s : S) (ms : List Miner)
      → SameLock s (process_batch_payout r fl fee c wallet now sent back s ms)
  unfolding process_batch_payout
  process_batch_payout-lock fl fee c none now sent back s ms = λ p. p
  process_batch_payout-lock fl fee c (some w) now sent back s ms = split w.online
    where
      paid : S
      paid = send_batch r c w now back (queue r fl fee sent s ms).0 (queue r fl fee sent s ms).1

      split :
          (o : Option Bool)
          → SameLock s (elim o [ none ↦ s | some online ↦ if not online then s else paid ])
      split none = λ p. p
      split (some online) =
          if-elim (SameLock s) (not online) (λ e p. p)
            (λ e p.
              send_batch-lock c w now back (queue r fl fee sent s ms).0 (queue r fl fee sent s ms).1
                (queue-lock fl fee sent s ms p))

-- A command on another key does not give a string to another; the string may expire meanwhile.
abbrev pub MayExpire : {S : Type 0} (r : Redis S) (strings : Strings S) → IsStrings strings → Type 0
MayExpire {S = S} r strings law =
    (s : S) (c : Command) (key id : Bytes)
    → bytes_eq (key_of c) key ≡ false
    → OnlyBy id (law.holder s key)
    → OnlyBy id (law.holder (r.exec s c) key)

-- `processPayouts` with the batches of `processBatchPayout`, whatever the wallet answers and
-- whichever commands fail, those of the release included, and also if the lock expires meanwhile:
-- if it gets the lock, from a node with 3 peers or more and with a batch size of at least 1, it
-- ends with a release. If that reports no error, the lock is free then; in any case the lock is
-- free or still this payout's. The fuel exceeds the number of miners. No other payout takes the
-- lock meanwhile, should it expire.
pub process_payouts-free :
    {S F : Type 0} (r : Redis S) (strings : Strings S) (law : IsStrings strings) (fl : Float64 F)
    (fee : F) (c : Codec) (wallet : Option Wallet) (now : Bytes → ℕ) (sent back : Bytes → Bool)
    (s : S) (id : Bytes) (max fuel : ℕ) (list : S → Option (List Miner)) (peers : ℕ)
    (m : UpstreamManager) (node : TosClient)
    → MayExpire r strings law
    → get_client m ≡ some node
    → 3 ≤ peers
    → 1 ≤ max
    → (lock_payouts strings s id payout_lock_ttl).1 ≡ some true
    → let s1 = (lock_payouts strings s id payout_lock_ttl).0 in
      let pay = process_batch_payout r fl fee c wallet now sent back in
      ((ms : List Miner) → list s1 ≡ some ms → length ms < fuel)
      → Freed strings law id (process_payouts strings pay (pos max) fuel id list (some peers) m s).1
process_payouts-free r strings law fl fee c wallet now sent back s id max fuel list peers m node
      keeps client three one h enough =
    process_payouts-Freed strings law (process_batch_payout r fl fee c wallet now sent back) s id
      max fuel list peers m node client three one
      (λ t ms.
        process_batch_payout-lock r (λ x. OnlyBy id (law.holder x key_payout_lock))
          (λ x c' e. keeps x c' key_payout_lock id e) fl fee c wallet now sent back t ms)
      h enough
