-- ===== src/Store/Payments.antt =====
-- Balances, payments and debts (internal/storage/redis.go).
-- The flags `read` and `sent` are as in Store/Blocks; `now` is `time.Now().Unix()`.
use tos_pool.Prelude.{
  ℕ, Bool, true, false, not, Option, none, some, List, [], ◌∷◌, ◌++◌, if◌then◌else◌,
}
use tos_pool.Prelude.Int.{ℤ, pos, neg, int64, eqb_ℤ}
use tos_pool.Prelude.Maps.{Bytes, codes, bytes_eq}
use tos_pool.Store.Redis.{
  Command, hincr_by, zadd, zrem, incr_by, lpush, ltrim, del, Redis, pipeline,
}
use tos_pool.Store.Data.{
  Payment, PaymentStatus, DebtRecord, Codec, signed, minus, key_stats, key_miner,
  key_payments_pending, key_payments_all, key_payments_addr, key_debt, key_debt_total,
  key_debt_history,
}

-- From one integer field of a miner to another.
abbrev pub transfer : Bytes → Bytes → Bytes → ℕ → List Command
transfer address source target amount =
    hincr_by (key_miner address) source (minus amount)
    ∷ hincr_by (key_miner address) target (signed amount)
    ∷ []

unfoldable pub find_payment : Codec → Bytes → List Bytes → Option (Bytes × Payment)
find_payment c tx_hash [] = none
find_payment c tx_hash (m ∷ ms) =
    let rest = find_payment c tx_hash ms in
    elim (c.unmarshal_payment m) [
      | none ↦ rest
      | some p ↦ if bytes_eq p.tx_hash tx_hash then some (m, p) else rest
    ]

unfoldable pub decode_payments : Codec → List Bytes → List Payment
decode_payments c [] = []
decode_payments c (m ∷ ms) =
    let rest = decode_payments c ms in
    elim (c.unmarshal_payment m) [ none ↦ rest | some p ↦ p ∷ rest ]

module _ {S : Type 0} (r : Redis S) where
  unfoldable pub move_to_pending : S → Bytes → ℕ → Bool → S × Bool
  move_to_pending s address amount sent =
      pipeline r sent s (transfer address (codes "balance") (codes "pending") amount)

  unfoldable pub rollback_payment : S → Bytes → ℕ → Bool → S × Bool
  rollback_payment s address amount sent =
      pipeline r sent s (transfer address (codes "pending") (codes "balance") amount)

  unfoldable pub update_miner_balance : Codec → S → Bytes → ℕ → Bytes → ℕ → Bool → S × Bool
  update_miner_balance c s address amount tx_hash now sent =
      let payment : Payment = record {
        tx_hash = tx_hash;
        address = address;
        amount = amount;
        timestamp = now;
        status = PaymentStatus.pending;
      } in
      pipeline r sent s (
        transfer address (codes "balance") (codes "pending") amount
        ++ (zadd key_payments_pending now (c.marshal_payment payment) ∷ []))

  unfoldable pub confirm_payment : Codec → S → Bytes → ℕ → Bool → Bool → S × Bool
  confirm_payment c s tx_hash now read sent =
      if not read
      then (s, false)
      else elim (find_payment c tx_hash (r.zrange s key_payments_pending)) [
        | none ↦ (s, true)
        | some (m, p) ↦
            let done = c.marshal_payment (record p { status = PaymentStatus.confirmed }) in
            pipeline r sent s (
              zrem key_payments_pending m
                ∷ transfer p.address (codes "pending") (codes "paid") p.amount
              ++ (zadd key_payments_all now done
                  ∷ lpush (key_payments_addr p.address) done
                  ∷ ltrim (key_payments_addr p.address) (pos 0) (pos 99)
                  ∷ hincr_by key_stats (codes "totalPaid") (signed p.amount)
                  ∷ []))
      ]

  unfoldable pub get_pending_payments : Codec → S → Bool → Option (List Payment)
  get_pending_payments c s read =
      if read then some (decode_payments c (r.zrange s key_payments_pending)) else none

  unfoldable pub remove_pending_payment : Codec → S → Bytes → Bool → Bool → S × Bool
  remove_pending_payment c s tx_hash read sent =
      if not read
      then (s, false)
      else elim (find_payment c tx_hash (r.zrange s key_payments_pending)) [
        | none ↦ (s, true)
        | some (m, p) ↦ pipeline r sent s (zrem key_payments_pending m ∷ [])
      ]

  unfoldable pub add_debt : Codec → S → Bytes → ℤ → Bytes → ℕ → Bool → S × Bool
  add_debt c s address amount reason now sent =
      let entry : DebtRecord = record {
        address = address;
        amount = amount;
        reason = reason;
        timestamp = now;
      } in
      pipeline r sent s (
        incr_by (key_debt address) amount
        ∷ incr_by key_debt_total amount
        ∷ lpush (key_debt_history address) (c.marshal_debt entry)
        ∷ ltrim (key_debt_history address) (pos 0) (pos 99)
        ∷ [])

  -- The reply to `GetDebt`; an error is `none`, as it also is where the miner has no debt.
  unfoldable pub settle_debt : Codec → S → Bytes → Option ℤ → ℕ → Bool → S × Bool
  settle_debt c s address none now sent = (s, false)
  settle_debt c s address (some debt) now sent =
      if eqb_ℤ debt (pos 0)
      then (s, true)
      else let entry : DebtRecord = record {
        address = address;
        amount = int64 (neg debt);
        reason = codes "settlement";
        timestamp = now;
      } in
        pipeline r sent s (
          hincr_by (key_miner address) (codes "balance") debt
          ∷ del (key_debt address)
          ∷ incr_by key_debt_total (int64 (neg debt))
          ∷ lpush (key_debt_history address) (c.marshal_debt entry)
          ∷ [])
