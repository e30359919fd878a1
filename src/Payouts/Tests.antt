-- ===== src/Payouts/Tests.antt =====
-- A batch over the store in memory, and each theorem at a concrete input.
use tos_pool.Prelude.{
  ℕ, ◌*◌, ◌≡◌, refl, sym, true, false, none, some, List, [], ◌∷◌, ◌++◌, arith, take, drop,
}
use tos_pool.Prelude.Int.{pos, neg, ◌+ℤ◌}
use tos_pool.Prelude.Maps.{Bytes, codes, bytes_eq, bytes_Eq, lookup}
use tos_pool.Store.Data.{Codec, Float64}
use tos_pool.Store.Memory.{Memory, memory, memory-IsRedis}
use tos_pool.Payouts.Batch.{Miner, Destination, Wallet, payout_of, process_batch_payout}
use tos_pool.Payouts.Ledger.{balance_of, pending_of, Payable, process_batch_payout-undone}
use tos_pool.Payouts.Double.{process_batch_payout-doubled}
use tos_pool.Payouts.Schedule.{done, pay_from, pay_batches}
use tos_pool.Payouts.Batches.{concat, pay_all, AllSized, pay_batches-PaysAll}

abbrev pub whole : Float64 ℕ
whole = record { of_uint64 = λ n. n; times = λ a b. a * b; divide = λ a b. a; to_uint64 = λ n. n }

abbrev pub codec : Codec
codec = record {
  marshal_block = λ b. b.hash;
  unmarshal_block = λ m. none;
  marshal_payment = λ p. p.tx_hash;
  unmarshal_payment = λ m. none;
  marshal_debt = λ d. d.reason;
  parse_uint = λ m. 0;
}

abbrev pub start : Memory
start = record { fields = λ k f. pos 50; numbers = λ k. pos 0; sets = λ k. [] }

abbrev pub miners : List Miner
miners =
    record { address = codes "tos1_first_miner_address"; balance = 50 }
    ∷ record { address = codes "tos1_second_miner_address"; balance = 20 }
    ∷ []

abbrev silent : Wallet
silent = record { online = some true; transfer = λ ds. none; confirmed = λ tx. true }

abbrev pub paying : Wallet
paying = record { online = some true; transfer = λ ds. some (codes "t"); confirmed = λ tx. true }

payout_example : payout_of whole 0 50 ≡ 50
unfolding payout_of
payout_example = refl

no_payment :
    (ds : List Destination) (tx : Bytes)
    → silent.transfer ds ≡ some tx
    → silent.confirmed tx ≡ false
no_payment ds tx e = cc

Payable-x :
    (n : ℕ)
    → lookup (codes "tos1_first_miner_address") ((codes "tos1_first_miner_address", 50) ∷ [])
      ≡ some n
    → Payable memory memory-IsRedis start (codes "tos1_first_miner_address") n
unfolding ◌+ℤ◌
Payable-x n e =
    let same : 50 ≡ n = cc in
    rw (sym same) (
      omega arith,
      (
        ((omega arith, omega arith), (omega arith, omega arith)),
        ((omega arith, omega arith), (omega arith, omega arith)),
      ),
    )

-- The move of `y` fails.
process_batch_payout-undone_example :
    let s' =
      process_batch_payout memory whole 0 codec
        (some silent)
        (λ a. 0)
        (bytes_eq (codes "tos1_first_miner_address"))
        (λ a. true)
        start
        miners in
    (balance_of memory memory-IsRedis s' (codes "tos1_first_miner_address") ≡ pos 50)
    × (pending_of memory memory-IsRedis s' (codes "tos1_first_miner_address") ≡ pos 50)
unfolding ◌+ℤ◌
process_batch_payout-undone_example =
    process_batch_payout-undone memory memory-IsRedis whole 0 codec silent (λ a. 0)
      (bytes_eq (codes "tos1_first_miner_address")) start miners (codes "tos1_first_miner_address")
      refl no_payment (refl, (refl, tt)) Payable-x

process_batch_payout-doubled_example :
    let s' =
      process_batch_payout memory whole 0 codec
        (some paying)
        (λ a. 0)
        (λ a. true)
        (λ a. true)
        start
        miners in
    (balance_of memory memory-IsRedis s' (codes "tos1_second_miner_address")
      ≡ (pos 50 +ℤ neg (pos 20)) +ℤ neg (pos 20))
    × (pending_of memory memory-IsRedis s' (codes "tos1_second_miner_address")
        ≡ (pos 50 +ℤ pos 20) +ℤ pos 20)
unfolding ◌+ℤ◌
process_batch_payout-doubled_example =
    process_batch_payout-doubled memory memory-IsRedis whole 0 codec paying (λ a. 0) start miners
      (codes "tos1_second_miner_address") (codes "t") 20 refl (refl, (λ ds. refl))
      (refl, (refl, tt)) refl (omega arith) (omega arith, omega arith) (omega arith, omega arith)
      (omega arith, omega arith) (omega arith, omega arith)

abbrev pay_batch : List (List Miner) → List Miner → List (List Miner)
pay_batch s b = s ++ (b ∷ [])

abbrev pub three : List Miner
three = record { address = codes "tos1_third_miner_address"; balance = 70 } ∷ miners

two_batches : pay_batches pay_batch (pos 2) 4 [] three ≡ done (take 2 three ∷ drop 2 three ∷ [])
unfolding pay_from ◌+ℤ◌
two_batches = refl

pay_batches-PaysAll_example :
    (bs : List (List Miner)) × ((pay_batches pay_batch (pos 2) 4 [] three
        ≡ done (pay_all pay_batch [] bs))
      × ((concat bs ≡ three) × AllSized 2 bs))
pay_batches-PaysAll_example = pay_batches-PaysAll pay_batch 2 4 three [] (omega arith) (omega arith)
