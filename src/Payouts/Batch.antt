-- ===== src/Payouts/Batch.antt =====
-- `processBatchPayout` of internal/master/master.go, over the store.
-- The wallet's answers are arguments. The flags `sent` and `back` tell, for an address, whether the
-- pipeline of the store that is about it went well. The log lines slice the first 16 bytes of an
-- address, and would stop the program at a shorter one, which is not modelled.
use tos_pool.Prelude.{
  ℕ, ◌+◌, ◌-◌, ◌%◌, ◌^◌, Bool, not, Option, none, some, List, [], ◌∷◌, map, if◌then◌else◌,
}
use tos_pool.Prelude.Maps.{Bytes}
use tos_pool.Store.Redis.{Redis}
use tos_pool.Store.Data.{Codec, Float64}
use tos_pool.Store.Payments.{move_to_pending, rollback_payment, update_miner_balance}

-- The fields that a payout reads.
pub record Miner : Type 0 where
  pub address : Bytes
  pub balance : ℕ

pub record PayoutInfo : Type 0 where
  pub address : Bytes
  pub amount : ℕ
  pub payout : ℕ

-- Every destination is paid in the native asset, 64 zeros, and has no extra data.
pub record Destination : Type 0 where
  pub destination : Bytes
  pub amount : ℕ

-- `online` and `transfer` are `none` on an error; `transfer` gives the hash of the transaction,
-- and `confirmed` what `waitForTxConfirmation` says of it, false also on an error.
pub record Wallet : Type 0 where
  pub online : Option Bool
  pub transfer : List Destination → Option Bytes
  pub confirmed : Bytes → Bool

module _ {F : Type 0} (fl : Float64 F) where
  -- `uint64(float64(amount) * feePercent)`, taken from the amount as a uint64.
  unfoldable pub payout_of : F → ℕ → ℕ
  payout_of fee_percent amount =
      (amount + 2 ^ 64 - fl.to_uint64 (fl.times (fl.of_uint64 amount) fee_percent)) % 2 ^ 64

abbrev pub destination_of : PayoutInfo → Destination
destination_of i = record { destination = i.address; amount = i.payout }

module _ {S : Type 0} (r : Redis S) where
  -- The loop that moves the balances to pending and collects the payments.
  unfoldable pub queue :
      {F : Type 0} → Float64 F → F → (Bytes → Bool) → S → List Miner → S × List PayoutInfo
  queue fl fee sent s [] = (s, [])
  queue fl fee sent s (m ∷ ms) =
      let (s', moved) = move_to_pending r s m.address m.balance (sent m.address) in
      let rest = queue fl fee sent s' ms in
      let info : PayoutInfo = record {
        address = m.address;
        amount = m.balance;
        payout = payout_of fl fee m.balance;
      } in
      if moved then (rest.0, info ∷ rest.1) else rest

  unfoldable pub rollback_all : (Bytes → Bool) → S → List PayoutInfo → S
  rollback_all back s [] = s
  rollback_all back s (i ∷ is) =
      rollback_all back (rollback_payment r s i.address i.amount (back i.address)).0 is

  -- `now` is the clock at the record of an address.
  unfoldable pub finalize : Codec → Bytes → (Bytes → ℕ) → (Bytes → Bool) → S → List PayoutInfo → S
  finalize c tx_hash now back s [] = s
  finalize c tx_hash now back s (i ∷ is) =
      finalize c tx_hash now back
        (update_miner_balance r c s i.address i.amount tx_hash (now i.address) (back i.address)).0
        is

  -- What follows the wallet's answer to the batch.
  unfoldable pub answered :
      Codec → Wallet → (Bytes → ℕ) → (Bytes → Bool) → S → List PayoutInfo → Option Bytes → S
  answered c wallet now back s is none = rollback_all back s is
  answered c wallet now back s is (some tx_hash) =
      if wallet.confirmed tx_hash then finalize c tx_hash now back s is else rollback_all back s is

  -- What follows the loop that queues the payments.
  unfoldable pub send_batch :
      Codec → Wallet → (Bytes → ℕ) → (Bytes → Bool) → S → List PayoutInfo → S
  send_batch c wallet now back s [] = s
  send_batch c wallet now back s (i ∷ is) =
      answered c wallet now back s (i ∷ is) (wallet.transfer (map destination_of (i ∷ is)))

  -- `none` if no wallet client is configured.
  unfoldable pub process_batch_payout :
      {F : Type 0}
      → Float64 F
      → F
      → Codec
      → Option Wallet
      → (Bytes → ℕ)
      → (Bytes → Bool)
      → (Bytes → Bool)
      → S
      → List Miner
      → S
  process_batch_payout fl fee c none now sent back s miners = s
  process_batch_payout fl fee c (some wallet) now sent back s miners = elim wallet.online [
    | none ↦ s
    | some online ↦
        if not online
        then s
        else let (s', infos) = queue fl fee sent s miners in send_batch c wallet now back s' infos
  ]
