-- ===== src/Policy/Tables.antt =====
-- The share ratio, the blacklist and whitelist, and the periodic reset of
-- internal/policy/policy.go.
use tos_pool.Prelude.{
  ℕ, suc, ◌+◌, Bool, true, false, not, ◌&&◌, Option, none, some, List, [], ◌∷◌, map, ltb, leb, ◌==◌,
  if◌then◌else◌, length,
}
use tos_pool.Prelude.Int.{ℤ, pos, ◌+ℤ◌, ltb_ℤ, int32}
use tos_pool.Prelude.Maps.{Bytes, bytes_Eq, member}
use tos_pool.Policy.State.{Config, IpStats, PolicyServer, put, get_stats, ban_ip, milliseconds}

-- Go's float32, as far as the share ratio uses it.
pub record Float32 (F : Type 0) : Type 0 where
  pub of_int32 : ℤ → F
  pub divide : F → F → F
  pub times : F → F → F
  pub at_least : F → F → Bool
  pub hundred : F

-- `strings.ToLower` of an ASCII text, as an address is. It also folds the letters of other scripts,
-- which is not modelled: here their bytes stay.
unfoldable pub to_lower_byte : ℕ → ℕ
to_lower_byte c = if leb b'A' c && leb c b'Z' then c + 32 else c

abbrev pub to_lower : Bytes → Bytes
to_lower = map to_lower_byte

abbrev pub count_banned : List (Bytes × IpStats) → ℕ
count_banned [] = 0
count_banned ((ip, st) ∷ m) = if ltb 0 st.banned then suc (count_banned m) else count_banned m

module _ {F : Type 0} where
  -- One share counted, as it is stored before the ratio is looked at.
  unfoldable pub count_share : Config F → IpStats → Bool → IpStats
  count_share cfg st valid =
      if valid
      then record st {
        valid_shares = int32 (st.valid_shares +ℤ pos 1);
        conn_limit =
            if cfg.rate_limit_enabled
            then int32 (st.conn_limit +ℤ cfg.limit_jump)
            else st.conn_limit;
      }
      else record st { invalid_shares = int32 (st.invalid_shares +ℤ pos 1) }

  unfoldable pub invalid_ratio : Float32 F → IpStats → F
  invalid_ratio fl st =
      fl.times
        (fl.divide (fl.of_int32 st.invalid_shares) (fl.of_int32 (int32 (st.valid_shares +ℤ pos 1))))
        fl.hundred

  unfoldable pub apply_share_policy :
      Float32 F → PolicyServer F → ℕ → ℕ → ℕ → Bytes → Bool → PolicyServer F × Bool
  apply_share_policy fl p beat beat' at ip valid =
      if not p.config.banning_enabled
      then (p, true)
      else let st = count_share p.config (get_stats p beat ip) valid in
        if ltb_ℤ (int32 (st.valid_shares +ℤ st.invalid_shares)) p.config.check_threshold
        then (put p ip st, true)
        else let p' = put p ip (record st { valid_shares = pos 0; invalid_shares = pos 0 }) in
          if fl.at_least (invalid_ratio fl st) p.config.invalid_percent
          then (ban_ip p' beat' at ip, false)
          else (p', true)

  unfoldable pub is_blacklisted : PolicyServer F → Bytes → Bool
  unfolding to_lower_byte
  is_blacklisted p address = member (to_lower address) p.blacklist

  unfoldable pub is_whitelisted : PolicyServer F → Bytes → Bool
  is_whitelisted p ip = member ip p.whitelist

  unfoldable pub apply_login_policy : PolicyServer F → ℕ → ℕ → Bytes → Bytes → PolicyServer F × Bool
  unfolding is_blacklisted
  apply_login_policy p beat at address ip =
      if is_blacklisted p address then (ban_ip p beat at ip, false) else (p, true)

  -- `stored` tells whether the store took the entry; with no store configured it is true.
  unfoldable pub add_to_blacklist : PolicyServer F → Bool → Bytes → PolicyServer F × Bool
  unfolding to_lower_byte
  add_to_blacklist p stored address =
      if stored then (record p { blacklist = to_lower address ∷ p.blacklist }, true) else (p, false)

  unfoldable pub add_to_whitelist : PolicyServer F → Bool → Bytes → PolicyServer F × Bool
  add_to_whitelist p stored ip =
      if stored then (record p { whitelist = ip ∷ p.whitelist }, true) else (p, false)

  -- `none` is an error of the store: the old set stays.
  abbrev pub reload_blacklist : PolicyServer F → Option (List Bytes) → PolicyServer F
  reload_blacklist p none = p
  reload_blacklist p (some l) = record p { blacklist = map to_lower l }

  abbrev pub reload_whitelist : PolicyServer F → Option (List Bytes) → PolicyServer F
  reload_whitelist p none = p
  reload_whitelist p (some l) = record p { whitelist = l }

  -- The replies to `GetBlacklist` and `GetWhitelist`; `none` if no store is configured.
  unfoldable pub refresh_lists :
      PolicyServer F → Option (Option (List Bytes) × Option (List Bytes)) → PolicyServer F
  unfolding to_lower_byte
  refresh_lists p none = p
  refresh_lists p (some (black, white)) = reload_whitelist (reload_blacklist p black) white

  abbrev pub ban_expired : Config F → ℕ → IpStats → Bool
  ban_expired cfg now st =
      ltb 0 st.banned_at && leb (st.banned_at + milliseconds cfg.ban_timeout) now

  abbrev pub expire_ban : Config F → ℕ → IpStats → IpStats
  expire_ban cfg now st =
      if ban_expired cfg now st
      then record st { banned_at = 0; banned = if st.banned == 1 then 0 else st.banned }
      else st

  abbrev pub is_stale : Config F → ℕ → IpStats → Bool
  is_stale cfg now st = leb (st.last_beat + milliseconds cfg.reset_interval) now && st.banned == 0

  -- The loop over the map; each round touches its own entry only.
  unfoldable pub sweep : Config F → ℕ → List (Bytes × IpStats) → List (Bytes × IpStats)
  sweep cfg now [] = []
  sweep cfg now ((ip, st) ∷ m) =
      let st' = expire_ban cfg now st in
      let rest = sweep cfg now m in if is_stale cfg now st' then rest else (ip, st') ∷ rest

  unfoldable pub reset_stats : PolicyServer F → ℕ → PolicyServer F
  unfolding sweep
  reset_stats p now = record p { stats = sweep p.config now p.stats }

  -- The method `GetStats`.
  unfoldable pub stats_totals : PolicyServer F → ℕ × ℕ
  stats_totals p = (length p.stats, count_banned p.stats)

  -- `DefaultConfig`; the argument is the float 50.0.
  unfoldable pub default_config : F → Config F
  default_config fifty = record {
    banning_enabled = true;
    ban_timeout = 1_800_000_000_000;
    invalid_percent = fifty;
    check_threshold = pos 100;
    malformed_limit = pos 5;
    ip_set_name = [];
    rate_limit_enabled = true;
    connection_limit = pos 10;
    connection_grace = 300_000_000_000;
    limit_jump = pos 5;
    score_enabled = true;
    max_score = pos 100;
    score_reset_time = 60_000_000_000;
    score_temp_ban_time = 300_000_000_000;
    cost_invalid_share = pos 10;
    cost_malformed = pos 25;
    cost_connection = pos 1;
    cost_auth = pos 2;
    reset_interval = 3_600_000_000_000;
    refresh_interval = 300_000_000_000;
  }
