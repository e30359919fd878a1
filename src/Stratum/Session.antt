-- ===== src/Stratum/Session.antt =====
-- Sessions, jobs, shares and messages of internal/slave/stratum.go, and the parsing of names and
-- addresses.
use tos_pool.Prelude.{
  ℕ, ◌+◌, ◌-◌, ◌*◌, ◌^◌, Bool, Option, none, some, List, [], ◌∷◌, ◌&&◌, ◌||◌, ◌==◌, ltb, leb,
  if◌then◌else◌,
}
use tos_pool.Prelude.Int.{ℤ}
use tos_pool.Prelude.Maps.{Bytes, codes}

pub record Job : Type 0 where
  pub id : Bytes
  pub height : ℕ
  pub header_hash : Bytes
  pub parent_hash : Bytes
  pub target : Bytes
  pub difficulty : ℕ
  pub timestamp : ℕ
  pub clean_jobs : Bool
  pub created_at : ℕ

pub record Share : Type 0 where
  pub session_id : ℕ
  pub address : Bytes
  pub worker : Bytes
  pub job_id : Bytes
  pub nonce : Bytes
  pub hash : Bytes
  pub difficulty : ℕ
  pub height : ℕ
  pub timestamp : ℕ
  pub is_block : Bool
  pub trust_score : ℤ
  pub skip_validation : Bool

-- Times are nanoseconds; the count is an int.
pub record VardiffStats : Type 0 where
  pub last_retarget : ℕ
  pub shares_since : ℤ
  pub miner_requested : Bool

-- The connection and its reader are left out.
pub record Session : Type 0 where
  pub id : ℕ
  pub address : Bytes
  pub worker : Bytes
  pub authorized : Bool
  pub difficulty : ℕ
  pub vardiff_stats : VardiffStats
  pub extra_nonce1 : Bytes
  pub extra_nonce2_size : ℤ
  pub valid_shares : ℕ
  pub invalid_shares : ℕ
  pub stale_shares : ℕ
  pub last_share : ℕ
  pub trust_score : ℤ
  pub remote_addr : Bytes
  pub connected_at : ℕ

-- A decoded JSON value, as the handlers tell them apart; `F` stands for float64. The decoder gives
-- no int, for which the source has a case too.
pub data Value (F : Type 0) : Type 0 where
  number : F → Value F
  integer : ℤ → Value F
  text : Bytes → Value F
  other : Value F

-- The identifier of a request is only sent back.
pub record StratumRequest (F : Type 0) : Type 0 where
  pub id : Value F
  pub method : Bytes
  pub params : List (Value F)

-- What is written to the connection.
pub data Sent (F : Type 0) : Type 0 where
  result : Value F → Sent F
  pong : Value F → Sent F
  subscribed : Value F → ℕ → Bytes → ℤ → Sent F
  failure : Option (Value F) → ℤ → Bytes → Sent F
  set_difficulty : ℕ → Sent F
  notify : Job → Sent F

-- `parseWorkerID`: the name is split at its first dot.
abbrev pub before : Bytes × Bytes → ℕ → Bytes × Bytes
before p c = (c ∷ p.0, p.1)

unfoldable pub split_dot : Bytes → Option (Bytes × Bytes)
split_dot [] = none
split_dot (c ∷ s) =
    let rest = split_dot s in
    if c == b'.' then some ([], s) else elim rest [ none ↦ none | some p ↦ some (before p c) ]

unfoldable pub parse_worker_id : Bytes → Bytes × Bytes
parse_worker_id username = elim (split_dot username) [
  | none ↦ (username, codes "default")
  | some p ↦ p
]

-- What stands before the last colon, if there is one (`strings.LastIndex`).
unfoldable pub before_last_colon : Bytes → Option Bytes
before_last_colon [] = none
before_last_colon (c ∷ s) = elim (before_last_colon s) [
  | some ip ↦ some (c ∷ ip)
  | none ↦ if c == b':' then some [] else none
]

abbrev pub trim_open : Bytes → Bytes
trim_open [] = []
trim_open (c ∷ s) = if c == b'[' then s else c ∷ s

abbrev pub trim_close : Bytes → Bytes
trim_close [] = []
trim_close (c ∷ []) = if c == b']' then [] else c ∷ []
trim_close (c ∷ d ∷ s) = c ∷ trim_close (d ∷ s)

unfoldable pub extract_ip : Bytes → Bytes
extract_ip remote_addr = elim (before_last_colon remote_addr) [
  | none ↦ remote_addr
  | some ip ↦ trim_close (trim_open ip)
]

-- `fmt.Sscanf(v, "%d", &n)` on a uint64 that is 0: spaces are skipped, and the digits that follow
-- are the number; it stays 0 if there are none, or if they are too big. Spaces beyond ASCII are not
-- skipped here.
abbrev pub is_digit : ℕ → Bool
is_digit c = leb b'0' c && leb c b'9'

unfoldable pub digits_value : ℕ → Bytes → ℕ
digits_value n [] = n
digits_value n (c ∷ s) =
    let rest = digits_value (n * 10 + (c - b'0')) s in if is_digit c then rest else n

abbrev pub is_space : ℕ → Bool
is_space c = c == 9 || c == 11 || c == 12 || c == 13 || c == 32

unfoldable pub skip_space : Bytes → Bytes
skip_space [] = []
skip_space (c ∷ s) = let rest = skip_space s in if is_space c then rest else c ∷ s

unfoldable pub sscanf_uint64 : Bytes → ℕ
unfolding digits_value skip_space
sscanf_uint64 v = let n = digits_value 0 (skip_space v) in if ltb n (2 ^ 64) then n else 0
