-- ===== src/Stratum/Vardiff.antt =====
-- The difficulty of a session and its trust, and the parameters of a request, as functions of the
-- session (internal/slave/stratum.go).
use tos_pool.Prelude.{
  ℕ, zero, suc, ◌-◌, ◌%◌, ◌^◌, Bool, true, false, Option, none, some, List, [], ◌∷◌, ltb, leb,
  if◌then◌else◌, length,
}
use tos_pool.Prelude.Int.{ℤ, pos, negsuc, leb_ℤ, ltb_ℤ}
use tos_pool.Prelude.Maps.{Bytes, bytes_eq}
use tos_pool.Policy.State.{PolicyServer}
use tos_pool.Policy.Tables.{apply_login_policy}
use tos_pool.Config.{Floats, MiningConfig, ValidationConfig}
use tos_pool.Stratum.Session.{
  Job, Share, Session, Value, number, integer, text, other, sscanf_uint64,
}

-- What one line reads from outside: three readings of the policy server in milliseconds, `time.Now`
-- in nanoseconds and in seconds, the readings of `checkVardiff` at its start and at its end, and
-- `rand.Intn(100)`.
pub record Clock : Type 0 where
  pub beat : ℕ
  pub beat' : ℕ
  pub at : ℕ
  pub now : ℕ
  pub unix : ℕ
  pub since : ℕ
  pub retarget : ℕ
  pub roll : ℕ

pub record Settings (F : Type 0) : Type 0 where
  pub mining : MiningConfig F
  pub validation : ValidationConfig

-- Of the session it reads the trust score only.
unfoldable pub should_skip_validation : ValidationConfig → ℕ → ℤ → Bool
should_skip_validation v roll trust_score =
    if leb_ℤ v.trust_threshold (pos 0)
    then false
    else (if ltb_ℤ trust_score v.trust_threshold
        then false
        else (if leb_ℤ (pos 100) v.trust_check_percent
            then false
            else (if leb_ℤ v.trust_check_percent (pos 0)
                then true
                else leb_ℤ v.trust_check_percent (pos roll))))

-- The share before the job is known.
abbrev pub share_of : Clock → Session → Bytes → Bytes → Share
share_of k s job_id nonce = record {
  session_id = s.id;
  address = s.address;
  worker = s.worker;
  job_id = job_id;
  nonce = nonce;
  hash = [];
  difficulty = s.difficulty;
  height = 0;
  timestamp = k.unix;
  is_block = false;
  trust_score = pos 0;
  skip_validation = false;
}

abbrev pub is_current : Option Job → Bytes → Option Job
is_current none id = none
is_current (some job) id = if bytes_eq job.id id then some job else none

-- `ApplyLoginPolicy`, or true where there is no policy server.
abbrev pub login_policy :
    {G : Type 0} → Clock → Option (PolicyServer G) → Bytes → Bytes → Option (PolicyServer G) × Bool
login_policy k none address ip = (none, true)
login_policy k (some p) address ip =
    let (p', ok) = apply_login_policy p k.beat k.at address ip in (some p', ok)

module _ {F : Type 0} where
  unfoldable pub create_session : MiningConfig F → ℕ → Bytes → Bytes → ℕ → Session
  create_session cfg id extra_nonce1 remote_addr now = record {
    id = id;
    address = [];
    worker = [];
    authorized = false;
    difficulty = cfg.initial_difficulty;
    vardiff_stats = record { last_retarget = now; shares_since = pos 0; miner_requested = false };
    extra_nonce1 = extra_nonce1;
    extra_nonce2_size = pos 4;
    valid_shares = 0;
    invalid_shares = 0;
    stale_shares = 0;
    last_share = 0;
    trust_score = pos 0;
    remote_addr = remote_addr;
    connected_at = now;
  }

  abbrev pub clamp : MiningConfig F → ℕ → ℕ
  clamp cfg d =
      let low = if ltb d cfg.min_difficulty then cfg.min_difficulty else d in
      if ltb cfg.max_difficulty low then cfg.max_difficulty else low

  -- The requested difficulty, where the value has one.
  abbrev pub requested : Floats F → Value F → Option ℕ
  requested fl (number x) = some (fl.base.to_uint64 x)
  requested fl (integer (pos n)) = some (n % 2 ^ 64)
  requested fl (integer (negsuc n)) = some (2 ^ 64 - suc (n % 2 ^ 64))
  requested fl (text s) = some (sscanf_uint64 s)
  requested fl other = none

  unfoldable pub new_difficulty : Floats F → MiningConfig F → Session → ℕ → ℕ
  new_difficulty fl cfg s elapsed =
      let one = fl.base.of_uint64 1 in
      let share_rate =
        fl.base.divide (fl.of_int s.vardiff_stats.shares_since) (fl.of_seconds elapsed) in
      let target_rate = fl.base.divide one cfg.vardiff_target_time in
      let raw = fl.base.divide share_rate target_rate in
      let ratio =
        if fl.equal raw (fl.base.of_uint64 0)
        then fl.base.divide one (fl.base.of_uint64 2)
        else raw in
      let variance = fl.base.divide cfg.vardiff_variance (fl.base.of_uint64 100) in
      let limited =
        if fl.less (fl.plus one variance) ratio
        then fl.plus one variance
        else (if fl.less ratio (fl.minus one variance) then fl.minus one variance else ratio) in
      clamp cfg (fl.base.to_uint64 (fl.base.times (fl.base.of_uint64 s.difficulty) limited))

  -- The string at a place of the parameters, empty where there is another value.
  abbrev pub string_at : List (Value F) → ℕ → Bytes
  string_at [] i = []
  string_at (text s ∷ vs) zero = s
  string_at (v ∷ vs) zero = []
  string_at (v ∷ vs) (suc i) = string_at vs i

  abbrev pub nonce_of : List (Value F) → Bytes
  nonce_of params = if leb 5 (length params) then string_at params 4 else string_at params 3
