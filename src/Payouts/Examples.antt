-- ===== src/Payouts/Examples.antt =====
-- The listing of miners and the wait for a transaction, on concrete input.
use tos_pool.Prelude.{
  map, if◌then◌else◌, ℕ, zero, suc, ◌+◌, ◌*◌, ◌≡◌, ◌≢◌, refl, true, Option, none, some, List, [],
  ◌∷◌, arith, take, length,
}
use tos_pool.Prelude.Maps.{Bytes, codes, bytes_eq, bytes_Eq, lookup, member}
use tos_pool.Store.Data.{Codec}
use tos_pool.Payouts.Batch.{Miner}
use tos_pool.Store.Data.{key_miner}
use tos_pool.Store.Batches.{Distinct}
use tos_pool.Payouts.Loops.{amounts}
use tos_pool.Payouts.Listing.{get_miners_with_balance}
use tos_pool.Payouts.Owed.{due, AllDistinct, get_miners_with_balance-due}
use tos_pool.Payouts.Confirmation.{
  Event, tick, waiting, poll_all, wait_for_tx_confirmation, OnTime, Mined,
  wait_for_tx_confirmation-settled, wait_for_tx_confirmation-Mined,
}

-- A tick every six seconds, with an error of the node each time.
abbrev ticks : ℕ → ℕ → List Event
ticks i zero = []
ticks i (suc n) = tick (6_000_000_000 * suc i) true none ∷ ticks (suc i) n

ticks-OnTime : (i n : ℕ) → OnTime 0 i (ticks i n)
ticks-OnTime i zero = tt
ticks-OnTime i (suc n) = (omega arith, ticks-OnTime (suc i) n)

wait_for_tx_confirmation-settled_example :
    let r = wait_for_tx_confirmation 0 (take 61 (ticks 0 70)) in
    (r ≢ waiting) × (wait_for_tx_confirmation 0 (ticks 0 70) ≡ r)
wait_for_tx_confirmation-settled_example =
    wait_for_tx_confirmation-settled 0 (ticks 0 70) (ticks-OnTime 0 70) (omega arith)

abbrev answered : List Event
answered = tick 5_000_000_000 true none ∷ tick 10_000_000_000 true (some (some 1)) ∷ []

wait_for_tx_confirmation-Mined_example : Mined (0 + 300_000_000_000) answered
unfolding wait_for_tx_confirmation poll_all
wait_for_tx_confirmation-Mined_example = wait_for_tx_confirmation-Mined 0 answered refl

abbrev numbers : Codec
numbers = record {
  marshal_block = λ b. b.hash;
  unmarshal_block = λ m. none;
  marshal_payment = λ p. p.tx_hash;
  unmarshal_payment = λ m. none;
  marshal_debt = λ d. d.reason;
  parse_uint = length;
}

-- Two miners with a balance of three and of one digit's length, and the key of a worker.
abbrev fields : Bytes → Option (List (Bytes × Bytes))
fields k =
    if bytes_eq k (key_miner (codes "x"))
    then some ((codes "balance", codes "777") ∷ [])
    else some ((codes "balance", codes "7") ∷ [])

abbrev addresses : List Bytes
addresses = codes "x" ∷ codes "y" ∷ codes "x:workers" ∷ []

abbrev scan : List (List Bytes)
scan =
    (key_miner (codes "x") ∷ []) ∷ (key_miner (codes "y") ∷ key_miner (codes "x:workers") ∷ []) ∷ []

one_listed :
    get_miners_with_balance numbers fields 2 (map some scan)
    ≡ some (record { address = codes "x"; balance = 3 } ∷ [])
unfolding get_miners_with_balance
one_listed = refl

get_miners_with_balance-due_example :
    (ms : List Miner) × ((get_miners_with_balance numbers fields 2 (map some scan) ≡ some ms)
      × (((a : Bytes)
            → lookup a (amounts ms) ≡ (if member a addresses then due numbers fields 2 a else none))
          × (AllDistinct addresses → Distinct (amounts ms))))
get_miners_with_balance-due_example =
    get_miners_with_balance-due numbers fields 2 scan addresses refl
