-- ===== src/Policy/Tests.antt =====
-- Runs of the policy server, and each theorem at a concrete input.
use tos_pool.Prelude.{ℕ, ◌≡◌, refl, true, false, some, [], ◌∷◌, arith, leb, ◌*◌, ◌/◌}
use tos_pool.Prelude.Int.{pos, pos_part, int32, ◌+ℤ◌}
use tos_pool.Prelude.Maps.{Bytes, codes, bytes_Eq, lookup}
use tos_pool.Policy.State.{
  Config, IpStats, PolicyServer, get_score, get_stats, ban_ip, is_banned, set_ban, queue_ban,
  apply_malformed_policy, new_policy_server,
}
use tos_pool.Policy.Tables.{
  Float32, apply_share_policy, reset_stats, default_config, is_blacklisted, add_to_blacklist,
}
use tos_pool.Policy.Bans.{ban_flag}
use tos_pool.Policy.Steps.{ban, step}
use tos_pool.Policy.Safety.{IsValid, step-IsValid}
use tos_pool.Policy.Lifecycle.{ban_ip-reset_stats, reset_stats-keeps_ban}
use tos_pool.Policy.Whitelist.{step-whitelisted}
use tos_pool.Policy.Limits.{malforms}
use tos_pool.Policy.Window.{submitted, window_verdict}
use tos_pool.Policy.Scores.{Charge, charge, charged, Settled, add_score-costs}

-- Percentages in whole numbers, rounded down.
abbrev floats : Float32 ℕ
floats = record {
  of_int32 = λ z. pos_part z * 1000;
  divide = λ a b. a * 1000 / b;
  times = λ a b. a * b / 1000;
  at_least = λ a b. leb b a;
  hundred = 100_000;
}

-- Ten seconds of ban, three malformed requests, a window of four shares, a maximal score of 100.
abbrev config : Config ℕ
config = record {
  banning_enabled = true;
  ban_timeout = 10_000_000_000;
  invalid_percent = 50_000;
  check_threshold = pos 4;
  malformed_limit = pos 3;
  ip_set_name = codes "banned";
  rate_limit_enabled = true;
  connection_limit = pos 2;
  connection_grace = 0;
  limit_jump = pos 5;
  score_enabled = true;
  max_score = pos 100;
  score_reset_time = 60_000_000_000;
  score_temp_ban_time = 300_000_000_000;
  cost_invalid_share = pos 10;
  cost_malformed = pos 25;
  cost_connection = pos 1;
  cost_auth = pos 2;
  reset_interval = 3_600_000_000_000;
  refresh_interval = 300_000_000_000;
}

abbrev home : Bytes
home = codes "10.0.0.1"

abbrev away : Bytes
away = codes "10.0.0.2"

abbrev entry : IpStats
entry = record {
  last_beat = 900;
  banned_at = 950;
  valid_shares = pos 0;
  invalid_shares = pos 0;
  malformed = pos 0;
  conn_limit = pos 2;
  banned = 1;
  score = pos 95;
  last_score_reset = 0;
}

-- `home` is whitelisted, and `away` is banned.
abbrev server : PolicyServer ℕ
server = record {
  config = config;
  stats = (away, entry) ∷ [];
  blacklist = codes "tos1bad" ∷ [];
  whitelist = home ∷ [];
  ban_chan = [];
  started_at = 0;
}

server-IsValid : IsValid server
server-IsValid = record {
  distinct = (refl, tt);
  sound = ((omega arith, λ e. omega arith), tt);
  bounded = omega arith;
}

abbrev third : Bytes
third = codes "10.0.0.3"

abbrev default : Config ℕ
unfolding default_config
default = default_config 50

blacklist_folds_case :
    is_blacklisted
      (add_to_blacklist (new_policy_server default 7) true (codes "TOS1Bad")).0
      (codes "tos1bAD")
    ≡ true
unfolding is_blacklisted add_to_blacklist new_policy_server default
blacklist_folds_case = refl

-- Under the default configuration the fifth malformed request bans an address.
fifth_malformed :
    let p = malforms third 1 2 3 5 (new_policy_server default 7) in ban_flag p third ≡ 1
unfolding apply_malformed_policy get_stats ban_ip set_ban queue_ban new_policy_server default int32
    ◌+ℤ◌
fifth_malformed = refl

step-IsValid_example : IsValid (step floats server (ban 1000 1001 third))
step-IsValid_example = step-IsValid floats server (ban 1000 1001 third) (omega arith) server-IsValid

ban_ip-reset_stats_example :
    let q = ban_ip server 1000 1001 third in
    ((is_banned q 1500 third).1 ≡ true) × ((is_banned (reset_stats q 11_001) 1500 third).1 ≡ false)
ban_ip-reset_stats_example =
    ban_ip-reset_stats server 1000 1001 11_001 1500 third server-IsValid refl refl (omega arith)

reset_stats-keeps_ban_example : lookup away (reset_stats server 10_949).stats ≡ some entry
reset_stats-keeps_ban_example =
    reset_stats-keeps_ban server 10_949 away entry server-IsValid refl refl (omega arith)

step-whitelisted_example : ban_flag (step floats server (ban 1000 1001 home)) home ≡ 0
step-whitelisted_example =
    step-whitelisted floats server (ban 1000 1001 home) home server-IsValid refl refl tt

-- Two invalid shares of four: the ratio is two thirds, as the code divides by the valid shares.
window_verdict_example :
    (apply_share_policy floats
      (submitted floats third 1 2 3 server (true ∷ false ∷ true ∷ []))
      1
      2
      3
      third
      false).1
    ≡ false
unfolding get_stats
window_verdict_example =
    window_verdict floats third 1 2 3 (true ∷ false ∷ true ∷ []) false server 4
      (refl, refl, refl, refl) (omega arith) (omega arith)

-- A charge in the second `n`.
abbrev charge_at : ℕ → ℕ → Charge
charge_at n cost = record { beat = 1000; now = n; at = 1000 * n; cost = cost }

-- Charges of 40, 30 and 30 within a minute.
add_score-costs_example :
    let q = charged home server (charge_at 100 40 ∷ charge_at 110 30 ∷ []) in
    ((get_score q 5 home).1 ≡ pos 70)
    × (ban_flag q home ≡ ban_flag server home)
    × Settled home 5 100 q 100 (charge home q (charge_at 159 30))
unfolding get_stats
add_score-costs_example =
    add_score-costs home server (charge_at 100 40) (charge_at 110 30 ∷ []) (charge_at 159 30) 5 100
      (refl, omega arith, refl, omega arith) (omega arith) (omega arith, tt) (omega arith)
      (omega arith) (omega arith)
