-- ===== src/Store/Data.antt =====
-- The records of internal/storage/types.go, the keys of internal/storage/redis.go, and Go's
-- number formats.
-- encoding/json and strconv.ParseUint are parameters, as is float64.
use Prim.Native.String.{String}
use tos_pool.Prelude.{
  ℕ, zero, suc, ◌+◌, ◌/◌, ◌%◌, Bool, Option, List, [], ◌∷◌, ◌++◌, ◌==◌, if◌then◌else◌,
}
use tos_pool.Prelude.Int.{ℤ, pos, neg, int64}
use tos_pool.Prelude.Maps.{Bytes, codes}

pub data BlockStatus : Type 0 where
  candidate immature matured orphan : BlockStatus

pub record Block : Type 0 where
  pub height : ℕ
  pub hash : Bytes
  pub parent_hash : Bytes
  pub nonce : Bytes
  pub difficulty : ℕ
  pub total_diff : Bytes
  pub reward : ℕ
  pub timestamp : ℤ
  pub finder : Bytes
  pub worker : Bytes
  pub round_shares : ℕ
  pub round_height : ℕ
  pub status : BlockStatus
  pub confirmations : ℕ
  pub shares : List (Bytes × ℕ)

pub record Share : Type 0 where
  pub address : Bytes
  pub worker : Bytes
  pub job_id : Bytes
  pub nonce : Bytes
  pub hash : Bytes
  pub difficulty : ℕ
  pub height : ℕ
  pub timestamp : ℤ
  pub valid : Bool
  pub block_hash : Bytes

pub data PaymentStatus : Type 0 where
  pending confirmed : PaymentStatus

pub record Payment : Type 0 where
  pub tx_hash : Bytes
  pub address : Bytes
  pub amount : ℕ
  pub timestamp : ℕ
  pub status : PaymentStatus

pub record DebtRecord : Type 0 where
  pub address : Bytes
  pub amount : ℤ
  pub reason : Bytes
  pub timestamp : ℕ

pub record Codec : Type 0 where
  pub marshal_block : Block → Bytes
  pub unmarshal_block : Bytes → Option Block
  pub marshal_payment : Payment → Bytes
  pub unmarshal_payment : Bytes → Option Payment
  pub marshal_debt : DebtRecord → Bytes
  -- The first result of `strconv.ParseUint`, whose error the source drops: 0 for what is no number,
  -- and 2^64 - 1 for a number out of range.
  pub parse_uint : Bytes → ℕ

-- Go's float64, as far as a reward's share uses it.
pub record Float64 (F : Type 0) : Type 0 where
  pub of_uint64 : ℕ → F
  pub times : F → F → F
  pub divide : F → F → F
  pub to_uint64 : F → ℕ

-- `%d` of a number of at most 20 digits, as every uint64 is.
unfoldable pub digits : ℕ → ℕ → Bytes → Bytes
digits zero n acc = acc
digits (suc k) n acc =
    let acc' = (48 + n % 10) ∷ acc in
    let rest = digits k (n / 10) acc' in if n / 10 == 0 then acc' else rest

abbrev pub decimal : ℕ → Bytes
decimal n = digits 20 n []

-- `int64(n)` of a uint64, and `-int64(n)`.
unfoldable pub signed : ℕ → ℤ
signed n = int64 (pos n)

unfoldable pub minus : ℕ → ℤ
minus n = int64 (neg (int64 (pos n)))

abbrev pub key : String → Bytes
key s = codes "tos:" ++ codes s

abbrev pub key_stats : Bytes
key_stats = key "stats"

abbrev pub key_finders : Bytes
key_finders = key "finders"

abbrev pub key_hashrate : Bytes
key_hashrate = key "hashrate"

abbrev pub key_hashrate_addr : Bytes → Bytes
key_hashrate_addr a = key "hashrate:" ++ a

abbrev pub key_shares_round : Bytes
key_shares_round = key "shares:roundCurrent"

abbrev pub key_shares_round_block : ℕ → Bytes → Bytes
key_shares_round_block h hash = key "shares:round:" ++ decimal h ++ codes ":" ++ hash

abbrev pub key_candidates : Bytes
key_candidates = key "blocks:candidates"

abbrev pub key_immature : Bytes
key_immature = key "blocks:immature"

abbrev pub key_matured : Bytes
key_matured = key "blocks:matured"

abbrev pub key_miner : Bytes → Bytes
key_miner a = key "miners:" ++ a

abbrev pub key_miner_workers : Bytes → Bytes
key_miner_workers a = key "miners:" ++ a ++ codes ":workers"

abbrev pub key_payments_pending : Bytes
key_payments_pending = key "payments:pending"

abbrev pub key_payments_all : Bytes
key_payments_all = key "payments:all"

abbrev pub key_payments_addr : Bytes → Bytes
key_payments_addr a = key "payments:" ++ a

abbrev pub key_debt : Bytes → Bytes
key_debt a = key "debt:" ++ a

abbrev pub key_debt_total : Bytes
key_debt_total = key "debt:total"

abbrev pub key_debt_history : Bytes → Bytes
key_debt_history a = key "debt:history:" ++ a
