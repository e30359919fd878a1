-- ===== src/Websocket/Tests.antt =====
-- Clients and connections on concrete input.
use tos_pool.Prelude.{ℕ, ◌≡◌, refl, arith, true, none, some, List, [], ◌∷◌, ◌++◌, map, replicate}
use tos_pool.Prelude.Maps.{Bytes, codes, bytes_eq_iff}
use tos_pool.Util.Hex.{validate_address}
use tos_pool.Config.{MiningConfig}
use tos_pool.Stratum.Session.{Job, Share, Value, text, split_dot, parse_worker_id}
use tos_pool.Websocket.Client.{
  WsLink, WsContext, WsRequest, new_client, authorize, handle_submit, handle_request, handle_client,
  client_ip,
}
use tos_pool.Prelude.Int.{pos}
use tos_pool.Policy.State.{Config, PolicyServer}
use tos_pool.Websocket.Forwarded.{handle_connection-forwarded}
use tos_pool.Websocket.Client.{handle_connection}
use tos_pool.Websocket.Sound.{fresh}

abbrev mining : MiningConfig ℕ
mining = record {
  initial_difficulty = 10;
  min_difficulty = 5;
  max_difficulty = 1000;
  vardiff_target_time = 4;
  vardiff_retarget = 90;
  vardiff_variance = 30;
  job_refresh_interval = 50;
}

abbrev job : Job
job = record {
  id = codes "a";
  height = 9;
  header_hash = [];
  parent_hash = [];
  target = [];
  difficulty = 200;
  timestamp = 1;
  clean_jobs = true;
  created_at = 0;
}

abbrev context : WsContext
context = record { beat = 10; at = 10; unix = 10; job = some job }

abbrev address : Bytes
address = codes "tos1" ++ replicate 59 b'q'

abbrev request : Bytes → List (Value ℕ) → WsRequest ℕ
request method params = record { method = method; params = params }

-- A submission without login, the login, and the two forms of a submission.
abbrev finish : WsLink ℕ
finish = handle_client (fresh mining 1 (codes "10.0.0.1:4000") 0 none) (
    map (λ q. (context, some q))
      (request (codes "submit") (text (codes "a") ∷ text (codes "00") ∷ [])
        ∷ request (codes "authorize") (text (address ++ codes ".rig") ∷ [])
        ∷ request (codes "submit") (text (codes "b") ∷ text (codes "00") ∷ [])
        ∷ request (codes "tos_submitWork") (text (codes "01") ∷ text (replicate 64 b'0') ∷ [])
        ∷ []))

client_runs :
    map {B = Bytes × Bytes} (λ (s : Share). (s.job_id, s.nonce)) finish.shares
    ≡ (codes "b", codes "00") ∷ (codes "a", codes "01") ∷ []
unfolding handle_client handle_request authorize handle_submit parse_worker_id split_dot
    validate_address new_client
client_runs = refl

forwarded_address : client_ip (codes "10.0.0.1:4000") (codes "1.2.3.4") ≡ codes "1.2.3.4"
forwarded_address = refl

abbrev config : Config ℕ
config = record {
  banning_enabled = true;
  ban_timeout = 10_000_000_000;
  invalid_percent = 50_000;
  check_threshold = pos 4;
  malformed_limit = pos 3;
  ip_set_name = [];
  rate_limit_enabled = true;
  connection_limit = pos 2;
  connection_grace = 0;
  limit_jump = pos 5;
  score_enabled = true;
  max_score = pos 100;
  score_reset_time = 60_000_000_000;
  score_temp_ban_time = 300_000_000_000;
  cost_invalid_share = pos 10;
  cost_malformed = pos 25;
  cost_connection = pos 1;
  cost_auth = pos 2;
  reset_interval = 3_600_000_000_000;
  refresh_interval = 300_000_000_000;
}

abbrev banned_ip : Bytes
banned_ip = codes "10.0.0.1:4000"

-- The server has banned the address.
abbrev server : PolicyServer ℕ
server = record {
  config = config;
  stats =
      (
        banned_ip,
        record {
          last_beat = 900;
          banned_at = 950;
          valid_shares = pos 0;
          invalid_shares = pos 0;
          malformed = pos 0;
          conn_limit = pos 0;
          banned = 1;
          score = pos 95;
          last_score_reset = 0;
        },
      )
      ∷ [];
  blacklist = [];
  whitelist = [];
  ban_chan = [];
  started_at = 0;
}

handle_connection-forwarded_example :
    (handle_connection mining (some server) 1000 1000 1000 1 0 banned_ip (codes "1.2.3.4") true).1
    ≡ some (new_client mining 1 (codes "1.2.3.4") 0)
handle_connection-forwarded_example =
    handle_connection-forwarded mining server 2 1000 1000 1000 1 0 banned_ip (codes "1.2.3.4")
      (λ q. cc ((bytes_eq_iff (codes "1.2.3.4") []).1 q)) refl refl (omega arith) (omega arith)
