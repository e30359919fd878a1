-- ===== src/Policy/State.antt =====
-- The policy server's configuration and state, and the operations on one IP's entry
-- (internal/policy/policy.go).
-- An operation is a function on the server; a method that reads the clock several times takes one
-- argument for each reading, in order. Times and durations are not negative, and int64
-- arithmetic on them stays in range; durations are nanoseconds, as in Go.
use tos_pool.Prelude.{
  ℕ, ◌+◌, ◌/◌, Bool, true, false, not, Option, none, some, List, [], ◌∷◌, ◌++◌, ltb, leb, ◌==◌,
  if◌then◌else◌, length,
}
use tos_pool.Prelude.Int.{ℤ, pos, ◌+ℤ◌, ◌-ℤ◌, leb_ℤ, int32}
use tos_pool.Prelude.Maps.{Bytes, bytes_eq, bytes_Eq, member, lookup, insert}

-- `F` stands for Go's float32.
pub record Config (F : Type 0) : Type 0 where
  pub banning_enabled : Bool
  pub ban_timeout : ℕ
  pub invalid_percent : F
  pub check_threshold : ℤ
  pub malformed_limit : ℤ
  pub ip_set_name : Bytes
  pub rate_limit_enabled : Bool
  pub connection_limit : ℤ
  pub connection_grace : ℕ
  pub limit_jump : ℤ
  pub score_enabled : Bool
  pub max_score : ℤ
  pub score_reset_time : ℕ
  pub score_temp_ban_time : ℕ
  pub cost_invalid_share : ℤ
  pub cost_malformed : ℤ
  pub cost_connection : ℤ
  pub cost_auth : ℤ
  pub reset_interval : ℕ
  pub refresh_interval : ℕ

-- `Duration.Milliseconds` and the whole part of `Duration.Seconds`.
abbrev pub milliseconds : ℕ → ℕ
milliseconds d = d / 1_000_000

abbrev pub seconds : ℕ → ℕ
seconds d = d / 1_000_000_000

pub record IpStats : Type 0 where
  pub last_beat : ℕ
  pub banned_at : ℕ
  pub valid_shares : ℤ
  pub invalid_shares : ℤ
  pub malformed : ℤ
  pub conn_limit : ℤ
  pub banned : ℕ
  pub score : ℤ
  pub last_score_reset : ℕ

-- The keys of the two sets, and the ban channel from its oldest entry.
pub record PolicyServer (F : Type 0) : Type 0 where
  pub config : Config F
  pub stats : List (Bytes × IpStats)
  pub blacklist : List Bytes
  pub whitelist : List Bytes
  pub ban_chan : List Bytes
  pub started_at : ℕ

abbrev pub ban_chan_capacity : ℕ
ban_chan_capacity = 64

module _ {F : Type 0} where
  -- `NewPolicyServer` with a configuration; `now` is `time.Now().UnixMilli()`.
  unfoldable pub new_policy_server : Config F → ℕ → PolicyServer F
  new_policy_server cfg now = record {
    config = cfg;
    stats = [];
    blacklist = [];
    whitelist = [];
    ban_chan = [];
    started_at = now;
  }

  -- The entry that `getStats` makes, or the old one with its `LastBeat` renewed.
  abbrev pub touch : Config F → ℕ → Option IpStats → IpStats
  touch cfg now none = record {
    last_beat = now;
    banned_at = 0;
    valid_shares = pos 0;
    invalid_shares = pos 0;
    malformed = pos 0;
    conn_limit = cfg.connection_limit;
    banned = 0;
    score = pos 0;
    last_score_reset = 0;
  }
  touch cfg now (some st) = record st { last_beat = now }

  -- The map keeps a pointer to the entry: what an operation writes to the entry it got, it puts
  -- back under the same IP.
  abbrev pub put : PolicyServer F → Bytes → IpStats → PolicyServer F
  put p ip st = record p { stats = insert ip st p.stats }

  -- What `getStats` returns; the operations store it by `put`, changed or not.
  unfoldable pub get_stats : PolicyServer F → ℕ → Bytes → IpStats
  get_stats p now ip = touch p.config now (lookup ip p.stats)

  unfoldable pub is_banned : PolicyServer F → ℕ → Bytes → PolicyServer F × Bool
  is_banned p now ip =
      if not p.config.banning_enabled
      then (p, false)
      else let st = get_stats p now ip in (put p ip st, ltb 0 st.banned)

  -- `now` is the reading for the grace period, `beat` that of `getStats`.
  unfoldable pub apply_connection_limit : PolicyServer F → ℕ → ℕ → Bytes → PolicyServer F × Bool
  apply_connection_limit p now beat ip =
      if not p.config.rate_limit_enabled
      then (p, true)
      else (if ltb now (p.started_at + milliseconds p.config.connection_grace)
          then (p, true)
          else let st = get_stats p beat ip in
            let left = int32 (st.conn_limit -ℤ pos 1) in
            (put p ip (record st { conn_limit = left }), leb_ℤ (pos 0) left))

  -- The non-blocking send on `banChan`, if an ipset is configured.
  unfoldable pub queue_ban : PolicyServer F → Bytes → PolicyServer F
  queue_ban p ip =
      if bytes_eq p.config.ip_set_name []
      then p
      else (if ltb (length p.ban_chan) ban_chan_capacity
          then record p { ban_chan = p.ban_chan ++ (ip ∷ []) }
          else p)

  -- `banned_at` is stored, then `Banned` is swapped from 0 to 1.
  unfoldable pub set_ban : PolicyServer F → Bytes → IpStats → ℕ → PolicyServer F
  set_ban p ip st at =
      if st.banned == 0
      then queue_ban (put p ip (record st { banned_at = at; banned = 1 })) ip
      else put p ip (record st { banned_at = at })

  unfoldable pub ban_ip : PolicyServer F → ℕ → ℕ → Bytes → PolicyServer F
  ban_ip p beat at ip =
      if not p.config.banning_enabled
      then p
      else (if member ip p.whitelist then p else set_ban p ip (get_stats p beat ip) at)

  -- `beat` is read by `getStats`, `beat'` and `at` by `BanIP`.
  unfoldable pub apply_malformed_policy : PolicyServer F → ℕ → ℕ → ℕ → Bytes → PolicyServer F × Bool
  apply_malformed_policy p beat beat' at ip =
      if not p.config.banning_enabled
      then (p, true)
      else let st = get_stats p beat ip in
        let count = int32 (st.malformed +ℤ pos 1) in
        let p' = put p ip (record st { malformed = count }) in
        if leb_ℤ p.config.malformed_limit count then (ban_ip p' beat' at ip, false) else (p', true)

  -- The score starts again when its time is over; `now` is `time.Now().Unix()`, in seconds.
  unfoldable pub fresh_score : Config F → ℕ → IpStats → IpStats
  fresh_score cfg now st =
      if leb (st.last_score_reset + seconds cfg.score_reset_time) now
      then record st { score = pos 0; last_score_reset = now }
      else st

  -- The new score `total` is stored, or it is over the maximum and starts a temporary ban.
  unfoldable pub settle_score : PolicyServer F → ℕ → Bytes → IpStats → ℤ → PolicyServer F × Bool
  settle_score p at ip st total =
      if leb_ℤ p.config.max_score total
      then (
        put p ip (
            if ltb 0 p.config.score_temp_ban_time
            then record st { score = pos 0; banned_at = at; banned = 1 }
            else record st { score = pos 0 }),
        false,
      )
      else (put p ip (record st { score = total }), true)

  -- `at` is the time of the temporary ban.
  unfoldable pub add_score : PolicyServer F → ℕ → ℕ → ℕ → Bytes → ℤ → PolicyServer F × Bool
  add_score p beat now at ip cost =
      if not p.config.score_enabled
      then (p, true)
      else let st = fresh_score p.config now (get_stats p beat ip) in
        settle_score p at ip st (int32 (st.score +ℤ cost))

  abbrev pub apply_connection_score : PolicyServer F → ℕ → ℕ → ℕ → Bytes → PolicyServer F × Bool
  apply_connection_score p beat now at ip = add_score p beat now at ip p.config.cost_connection

  abbrev pub apply_auth_score : PolicyServer F → ℕ → ℕ → ℕ → Bytes → PolicyServer F × Bool
  apply_auth_score p beat now at ip = add_score p beat now at ip p.config.cost_auth

  abbrev pub apply_invalid_share_score : PolicyServer F → ℕ → ℕ → ℕ → Bytes → PolicyServer F × Bool
  apply_invalid_share_score p beat now at ip =
      add_score p beat now at ip p.config.cost_invalid_share

  abbrev pub apply_malformed_score : PolicyServer F → ℕ → ℕ → ℕ → Bytes → PolicyServer F × Bool
  apply_malformed_score p beat now at ip = add_score p beat now at ip p.config.cost_malformed

  unfoldable pub get_score : PolicyServer F → ℕ → Bytes → PolicyServer F × ℤ
  get_score p now ip = let st = get_stats p now ip in (put p ip st, st.score)
