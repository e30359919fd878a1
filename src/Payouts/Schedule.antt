-- ===== src/Payouts/Schedule.antt =====
-- `processPayouts` of internal/master/master.go, with the lock of internal/storage/redis.go that
-- guards it.
use tos_pool.Prelude.{
  ℕ, zero, suc, ◌-◌, Bool, true, false, Option, none, some, List, [], ◌∷◌, leb, ◌&&◌, ltb,
  if◌then◌else◌, take, drop, length,
}
use tos_pool.Prelude.Int.{ℤ, pos, negsuc, ◌+ℤ◌, ltb_ℤ}
use tos_pool.Prelude.Maps.{Bytes, codes, bytes_eq}
use tos_pool.Upstream.Manager.{
  UpstreamManager, TosClient, get_client, record_success, record_failure,
}
use tos_pool.Payouts.Batch.{Miner}

-- The string commands of the Redis server: `none` is an error, as redis.Nil is one.
pub record Strings (S : Type 0) : Type 0 where
  pub set_nx : S → Bytes → Bytes → ℕ → S × Option Bool
  pub get : S → Bytes → Option Bytes
  pub del : S → Bytes → S × Bool

abbrev pub key_payout_lock : Bytes
key_payout_lock = codes "tos:payout:lock"

abbrev pub payout_lock_ttl : ℕ
payout_lock_ttl = 600_000_000_000

abbrev pub min_peers_for_payout : ℕ
min_peers_for_payout = 3

module _ {S : Type 0} (r : Strings S) where
  abbrev pub lock_payouts : S → Bytes → ℕ → S × Option Bool
  lock_payouts s lock_id ttl = r.set_nx s key_payout_lock lock_id ttl

  -- The flag is false for an error.
  abbrev pub delete_own : S → Bytes → Option Bytes → S × Bool
  delete_own s lock_id none = (s, false)
  delete_own s lock_id (some current) =
      if bytes_eq current lock_id then r.del s key_payout_lock else (s, true)

  unfoldable pub unlock_payouts : S → Bytes → S × Bool
  unlock_payouts s lock_id = delete_own s lock_id (r.get s key_payout_lock)

-- How the loop over the batches ends: Go stops the program at a slice that is out of range, and
-- `stuck` is a loop that is not done when the fuel is.
pub data Ending (S : Type 0) : Type 0 where
  done : S → Ending S
  panicked : Ending S
  stuck : Ending S

-- `miners[i:end]`, `none` where the bounds are out of range. The end of a batch is at most the
-- length, so that it is also within the capacity.
abbrev pub slice : List Miner → ℤ → ℤ → Option (List Miner)
slice miners (pos i) (pos end) =
    if leb i end && leb end (length miners) then some (take (end - i) (drop i miners)) else none
slice miners (pos i) (negsuc end) = none
slice miners (negsuc i) end = none

abbrev pub batch_end : List Miner → ℤ → ℤ → ℤ
batch_end miners size i =
    let end = i +ℤ size in if ltb_ℤ (pos (length miners)) end then pos (length miners) else end

abbrev pub with_batch : {S : Type 0} → (List Miner → Ending S) → Option (List Miner) → Ending S
with_batch rest none = panicked
with_batch rest (some batch) = rest batch

module _ {S : Type 0} (pay : S → List Miner → S) where
  -- The batches from index `i` on. An index does not overflow: a size beyond the miners ends the
  -- loop at its first round.
  unfoldable pub pay_from : ℤ → List Miner → ℕ → ℤ → S → Ending S
  pay_from size miners zero i s = stuck
  pay_from size miners (suc fuel) i s =
      let rest : List Miner → Ending S =
        λ batch. pay_from size miners fuel (i +ℤ size) (pay s batch) in
      if ltb_ℤ i (pos (length miners))
      then with_batch rest (slice miners i (batch_end miners size i))
      else done s

  -- Without miners the function returns before the loop.
  abbrev pub pay_batches : ℤ → ℕ → S → List Miner → Ending S
  pay_batches size fuel s [] = done s
  pay_batches size fuel s (m ∷ ms) = pay_from size (m ∷ ms) fuel (pos 0) s

module _ {S : Type 0} (r : Strings S) (pay : S → List Miner → S) where
  -- The deferred release of the lock. What a panic leaves behind is not modelled.
  abbrev pub release : Bytes → Ending S → Ending S
  release lock_id (done s) = done (unlock_payouts r s lock_id).0
  release lock_id panicked = panicked
  release lock_id stuck = stuck

  -- `list` is `GetMinersWithBalance` for the threshold, `none` for an error.
  abbrev pub pay_listed : ℤ → ℕ → S → Option (List Miner) → Ending S
  pay_listed size fuel s none = done s
  pay_listed size fuel s (some miners) = pay_batches pay size fuel s miners

  abbrev pub with_lock : ℤ → ℕ → Bytes → (S → Option (List Miner)) → S × Option Bool → Ending S
  with_lock size fuel lock_id list (s, some true) =
      release lock_id (pay_listed size fuel s (list s))
  with_lock size fuel lock_id list (s, some false) = done s
  with_lock size fuel lock_id list (s, none) = done s

  -- `peers` is the peer count of the node, `none` for an error.
  abbrev pub with_peers :
      ℤ
      → ℕ
      → Bytes
      → (S → Option (List Miner))
      → UpstreamManager
      → S
      → Option ℕ
      → UpstreamManager × Ending S
  with_peers size fuel lock_id list m s none = (record_failure m, done s)
  with_peers size fuel lock_id list m s (some peers) =
      let paid = with_lock size fuel lock_id list (lock_payouts r s lock_id payout_lock_ttl) in
      (record_success m, if ltb peers min_peers_for_payout then done s else paid)

  abbrev pub with_client :
      ℤ
      → ℕ
      → Bytes
      → (S → Option (List Miner))
      → Option ℕ
      → UpstreamManager
      → S
      → Option TosClient
      → UpstreamManager × Ending S
  with_client size fuel lock_id list peers m s none = (m, done s)
  with_client size fuel lock_id list peers m s (some node) =
      with_peers size fuel lock_id list m s peers

  unfoldable pub process_payouts :
      ℤ
      → ℕ
      → Bytes
      → (S → Option (List Miner))
      → Option ℕ
      → UpstreamManager
      → S
      → UpstreamManager × Ending S
  process_payouts size fuel lock_id list peers m s =
      with_client size fuel lock_id list peers m s (get_client m)
