-- ===== src/Stratum/Tests.antt =====
-- Sessions on concrete input, and each theorem at a concrete input.
use tos_pool.Prelude.{
  ℕ, ◌≡◌, ◌+◌, ◌-◌, ◌*◌, ◌/◌, refl, true, false, Option, none, some, List, [], ◌∷◌, ◌++◌, replicate,
  ltb, leb, ◌==◌, map, if◌then◌else◌,
}
use tos_pool.Prelude.Int.{pos, pos_part}
use tos_pool.Prelude.Maps.{Bytes, codes}
use tos_pool.Store.Data.{Float64}
use tos_pool.Policy.Tables.{Float32}
use tos_pool.Util.Hex.{validate_address}
use tos_pool.Config.{Floats, Config, validate}
use tos_pool.Stratum.Session.{
  Job, Share, Value, number, text, other, parse_worker_id, split_dot, sscanf_uint64, digits_value,
  skip_space,
}
use tos_pool.Stratum.Vardiff.{Clock, create_session}
use tos_pool.Stratum.Handlers.{
  Link, authorize, handle_authorize, handle_submit, handle_set_difficulty, check_vardiff,
  accept_share, reward,
}
use tos_pool.Stratum.Server.{Line, handle_request, handle_line, handle_session}
use tos_pool.Stratum.Invariant.{IsSound}
use tos_pool.Stratum.Reach.{settings, fresh, handle_session-IsSound}
use tos_pool.Stratum.Names.{parse_worker_id-append}

abbrev whole : Float64 ℕ
whole = record {
  of_uint64 = λ n. n;
  times = λ a b. a * b;
  divide = λ a b. if b == 0 then 0 else a / b;
  to_uint64 = λ n. n;
}

abbrev floats : Floats ℕ
floats = record {
  base = whole;
  plus = λ a b. a + b;
  minus = λ a b. a - b;
  less = ltb;
  at_most = leb;
  equal = ◌==◌;
  of_int = pos_part;
  of_seconds = λ n. n / 1_000_000_000;
}

abbrev floats32 : Float32 ℕ
floats32 = record {
  of_int32 = pos_part;
  divide = λ a b. if b == 0 then 0 else a / b;
  times = λ a b. a * b;
  at_least = λ a b. leb b a;
  hundred = 100;
}

abbrev config : Config ℕ
config = record {
  pool = record { name = codes "pool"; fee = 1; fee_address = codes "tos1fee" };
  node = record {
    url = codes "http://node";
    timeout = 10;
    upstreams = [];
    max_failures = pos 3;
    recovery_threshold = pos 2;
  };
  master = record { enabled = true; bind = codes "0.0.0.0:3221"; secret = codes "s" };
  slave = record {
    enabled = true;
    master_url = [];
    stratum_bind = codes "0.0.0.0:3333";
    stratum_tls_bind = [];
    tls_cert = [];
    tls_key = [];
    getwork_enabled = false;
    getwork_bind = [];
    websocket_enabled = false;
    websocket_bind = [];
    xatum_enabled = false;
    xatum_bind = [];
  };
  mining = record {
    initial_difficulty = 10;
    min_difficulty = 5;
    max_difficulty = 1000;
    vardiff_target_time = 4;
    vardiff_retarget = 90;
    vardiff_variance = 30;
    job_refresh_interval = 50;
  };
  validation = record {
    trust_threshold = pos 2;
    trust_check_percent = pos 0;
    hashrate_window = 600;
    hashrate_large_window = 10800;
  };
  unlocker = record { enabled = true; interval = 60; immature_depth = 10; mature_depth = 100 };
  pplns = record { window = 2; dynamic_window = false; min_window = 1; max_window = 4 };
  payouts = record {
    enabled = true;
    interval = 3600;
    threshold = 100;
    max_addresses_per_tx = pos 100;
    gas_limit = 21000;
    gas_price = codes "auto";
    withdrawal_fee = 0;
    withdrawal_fee_rate = 0;
    wallet_rpc = codes "http://wallet";
    wallet_user = [];
    wallet_password = [];
    wallet_network = codes "mainnet";
  };
}

-- All readings of the clock are 10.
abbrev clock : Clock
clock = record {
  beat = 10;
  beat' = 10;
  at = 10;
  now = 10;
  unix = 10;
  since = 10;
  retarget = 10;
  roll = 0;
}

abbrev address : Bytes
address = codes "tos1" ++ replicate 59 b'q'

abbrev job : Job
job = record {
  id = codes "a";
  height = 9;
  header_hash = [];
  parent_hash = [];
  target = [];
  difficulty = 200;
  timestamp = 1;
  clean_jobs = true;
  created_at = 0;
}

abbrev line : Bytes → List (Value ℕ) → Clock × (Option Job × Line ℕ)
line method params = (
  clock,
  (
    some job,
    record {
      is_prefix = false;
      size = 100;
      parsed = some (record { id = other; method = method; params = params });
    },
  ),
)

abbrev submission : Clock × (Option Job × Line ℕ)
submission =
    line (codes "mining.submit")
      (text (codes "w") ∷ text (codes "a") ∷ text (codes "00") ∷ text (codes "01") ∷ [])

-- A submission that comes too soon, the login, a difficulty that is too high, and a submission.
abbrev lines : List (Clock × (Option Job × Line ℕ))
lines =
    submission
    ∷ line (codes "mining.authorize") (text (address ++ codes ".rig.7") ∷ [])
    ∷ line (codes "mining.set_difficulty") (number 5000 ∷ [])
    ∷ submission
    ∷ []

abbrev start : Link ℕ ℕ
start = fresh config 1 (codes "00") (codes "[::1]:4000") 0 none

abbrev finish : Link ℕ ℕ
finish = handle_session floats floats32 (settings config) start lines

session_runs :
    (finish.session.difficulty ≡ 1000)
    × ((finish.session.worker ≡ codes "rig.7")
        × (map (λ (s : Share). s.difficulty) finish.shares ≡ 1000 ∷ []))
unfolding handle_session handle_line handle_request authorize handle_authorize handle_submit
    handle_set_difficulty check_vardiff accept_share reward parse_worker_id split_dot
    validate_address create_session
session_runs = (refl, (refl, refl))

number_read : sscanf_uint64 (codes " 42x") ≡ 42
unfolding sscanf_uint64 digits_value skip_space
number_read = refl

handle_session-IsSound_example : IsSound config.mining finish.session finish.shares
unfolding validate
handle_session-IsSound_example =
    handle_session-IsSound floats floats32 config 1 (codes "00") (codes "[::1]:4000") 0 none lines
      refl

parse_worker_id-append_example :
    parse_worker_id (address ++ (b'.' ∷ codes "rig.7")) ≡ (address, codes "rig.7")
unfolding validate_address
parse_worker_id-append_example = parse_worker_id-append address (codes "rig.7") refl
