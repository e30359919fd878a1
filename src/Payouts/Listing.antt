-- ===== src/Payouts/Listing.antt =====
-- `GetMiner` and `GetMinersWithBalance` of internal/storage/redis.go.
-- Of a miner, the address and the balance are read; the other fields are parsed alike and left out.
use tos_pool.Prelude.{
  ℕ, Bool, true, false, ◌&&◌, ◌||◌, ◌==◌, Option, none, some, List, [], ◌∷◌, ◌++◌, leb,
  if◌then◌else◌, drop, length,
}
use tos_pool.Prelude.Maps.{Bytes, codes, bytes_Eq, lookup}
use tos_pool.Store.Data.{Codec, key_miner}
use tos_pool.Payouts.Batch.{Miner}

abbrev pub starts_with : Bytes → Bytes → Bool
starts_with [] s = true
starts_with (c ∷ p) [] = false
starts_with (c ∷ p) (d ∷ s) = c == d && starts_with p s

-- `strings.Contains`
abbrev pub contains : Bytes → Bytes → Bool
contains [] p = starts_with p []
contains (c ∷ s) p = starts_with p (c ∷ s) || contains s p

-- `strings.TrimPrefix`
abbrev pub trim_prefix : Bytes → Bytes → Bytes
trim_prefix s p = if starts_with p s then drop (length p) s else s

abbrev pub balance_field : Codec → Option Bytes → ℕ
balance_field c none = 0
balance_field c (some v) = c.parse_uint v

-- From the fields of the miner's key: `none` is an error, and `some none` a nil miner.
abbrev pub get_miner : Codec → Bytes → Option (List (Bytes × Bytes)) → Option (Option Miner)
get_miner c address none = none
get_miner c address (some []) = some none
get_miner c address (some (x ∷ fs)) = some (
    some
      (record { address = address; balance = balance_field c (lookup (codes "balance") (x ∷ fs)) }))

abbrev pub with_balance : ℕ → Option (Option Miner) → List Miner
with_balance threshold none = []
with_balance threshold (some none) = []
with_balance threshold (some (some m)) = if leb threshold m.balance then m ∷ [] else []

-- `fields` is what HGETALL gives for a key.
module _ (c : Codec) (fields : Bytes → Option (List (Bytes × Bytes))) (threshold : ℕ) where
  abbrev pub from_key : Bytes → List Miner
  from_key key =
      let address = trim_prefix key (key_miner []) in
      if contains key (codes ":workers")
      then []
      else with_balance threshold (get_miner c address (fields (key_miner address)))

  abbrev pub from_keys : List Bytes → List Miner
  from_keys [] = []
  from_keys (key ∷ keys) = from_key key ++ from_keys keys

  abbrev pub append_page : List Miner → Option (List Miner) → Option (List Miner)
  append_page ms none = none
  append_page ms (some rest) = some (ms ++ rest)

  -- Over the pages that SCAN gives until its cursor is 0; `none` is an error.
  unfoldable pub get_miners_with_balance : List (Option (List Bytes)) → Option (List Miner)
  get_miners_with_balance [] = some []
  get_miners_with_balance (none ∷ pages) = none
  get_miners_with_balance (some keys ∷ pages) =
      append_page (from_keys keys) (get_miners_with_balance pages)
