-- ===== src/Pool/Tests.antt =====
-- Two submissions on trust, and then a share without work that the master takes.
use tos_pool.Prelude.{
  Option, length, ℕ, ◌≡◌, ◌+◌, ◌-◌, ◌*◌, ◌/◌, refl, true, false, none, some, List, [], ◌∷◌, ◌++◌,
  replicate, ltb, leb, ◌==◌, if◌then◌else◌, arith,
}
use tos_pool.Prelude.Int.{pos, pos_part}
use tos_pool.Prelude.Maps.{Bytes, codes}
use tos_pool.Store.Data.{Float64, Codec}
use tos_pool.Store.Memory.{Memory, memory}
use tos_pool.Policy.Tables.{Float32}
use tos_pool.Util.Hex.{hex_to_bytes, decode_string, hex_digit}
use tos_pool.Config.{Floats}
use tos_pool.Master.Jobs.{Master}
use tos_pool.Master.Jobs
use tos_pool.Master.Shares.{World, process_share, find_job}
use tos_pool.Stratum.Session.{Job, text, other, StratumRequest}
use tos_pool.Stratum.Vardiff.{Clock, Settings, create_session}
use tos_pool.Stratum.Handlers.{Link, handle_submit, check_vardiff, accept_share, reward}
use tos_pool.Stratum.Trust.{handed_on, submit_all}
use tos_pool.Util.Hex.{validate_address}
use tos_pool.Stratum.Session.{split_dot, parse_worker_id}
use tos_pool.Websocket.Client.{
  WsLink, WsContext, WsRequest, handle_client, handle_request, authorize, new_client,
}
use tos_pool.Websocket.Client
use tos_pool.Websocket.Sound.{fresh}
use tos_pool.Pool.Proven.{AllProven, handle_client-AllProven}
use tos_pool.Pool.Wiring.{submission_of, stratum_job}
use tos_pool.Pool.Unproven.{submit_all-process_share}

abbrev whole : Float64 ℕ
whole = record {
  of_uint64 = λ n. n;
  times = λ a b. a * b;
  divide = λ a b. if b == 0 then 0 else a / b;
  to_uint64 = λ n. n;
}

abbrev floats : Floats ℕ
floats = record {
  base = whole;
  plus = λ a b. a + b;
  minus = λ a b. a - b;
  less = ltb;
  at_most = leb;
  equal = ◌==◌;
  of_int = pos_part;
  of_seconds = λ n. n / 1_000_000_000;
}

abbrev floats32 : Float32 ℕ
floats32 = record {
  of_int32 = pos_part;
  divide = λ a b. if b == 0 then 0 else a / b;
  times = λ a b. a * b;
  at_least = λ a b. leb b a;
  hundred = 100;
}

abbrev settings : Settings ℕ
settings = record {
  mining = record {
    initial_difficulty = 10;
    min_difficulty = 5;
    max_difficulty = 1000;
    vardiff_target_time = 4;
    vardiff_retarget = 90;
    vardiff_variance = 30;
    job_refresh_interval = 50;
  };
  validation = record {
    trust_threshold = pos 2;
    trust_check_percent = pos 0;
    hashrate_window = 600;
    hashrate_large_window = 10800;
  };
}

abbrev clock : Clock
clock = record {
  beat = 10;
  beat' = 10;
  at = 10;
  now = 10;
  unix = 10;
  since = 10;
  retarget = 10;
  roll = 0;
}

abbrev known : Jobs.Job
known = record {
  id = codes "a";
  height = 9;
  header_hash = replicate 112 0;
  original_header = [];
  target = [];
  difficulty = 200;
  timestamp = 1;
  created_at = 1;
}

abbrev master : Master
master = record {
  current_job = some known;
  current_height = 9;
  current_diff = 200;
  job_backlog = [];
  signalled = false;
}

abbrev job : Job
job = stratum_job known

abbrev request : Bytes → StratumRequest ℕ
request nonce = record {
  id = other;
  method = codes "mining.submit";
  params = text (codes "w") ∷ text (codes "a") ∷ text (codes "00") ∷ text nonce ∷ [];
}

-- A valid address.
abbrev home : Bytes
home = codes "tos1" ++ replicate 59 b'q'

-- An authorized session without trust.
abbrev start : Link ℕ ℕ
start = record {
  session = record (create_session settings.mining 1 (codes "00") (codes "[::1]:4000") 0) {
    authorized = true;
    address = home;
    difficulty = 10;
    trust_score = pos 0;
  };
  policy = none;
  closed = false;
  sent = [];
  shares = [];
}

abbrev earlier : List (Clock × StratumRequest ℕ)
earlier = (clock, request (codes "junk")) ∷ (clock, request []) ∷ []

abbrev trusted : Link ℕ ℕ
trusted = submit_all floats floats32 settings job start earlier

abbrev codec : Codec
codec = record {
  marshal_block = λ b. b.hash;
  unmarshal_block = λ m. none;
  marshal_payment = λ p. p.tx_hash;
  unmarshal_payment = λ m. none;
  marshal_debt = λ d. d.reason;
  parse_uint = λ m. 0;
}

abbrev memory_start : Memory
memory_start = record { fields = λ k f. pos 0; numbers = λ k. pos 0; sets = λ k. [] }

abbrev world : World
world = record {
  now = 10;
  ms = 10_000;
  share_sent = true;
  block_read = true;
  block_sent = true;
  submitted = some false;
}

-- A stand-in for blake3, with the lowest difficulty of all for each input.
abbrev constant : List ℕ → List ℕ
constant x = replicate 32 255

submit_all-process_share_example :
    let req = request (codes "00") in
    let share = handed_on settings.validation clock trusted.session req.params job in
    ((handle_submit floats floats32 settings clock trusted req (some job)).shares
      ≡ trusted.shares ++ (share ∷ []))
    × ((process_share memory codec 600 constant world memory_start master
          (submission_of share)).1.valid
        ≡ true)
unfolding submit_all handle_submit check_vardiff accept_share reward find_job hex_to_bytes
    decode_string hex_digit create_session
submit_all-process_share_example =
    submit_all-process_share floats floats32 settings job start earlier clock (request (codes "00"))
      memory codec 600 constant world memory_start master known (0 ∷ []) refl refl
      ((omega arith, refl), ((omega arith, refl), tt)) (omega arith, refl) (omega arith)
      (omega arith) refl (omega arith) refl refl (omega arith)

abbrev visit : Bytes → Bytes → Bytes → WsContext × Option (WsRequest ℕ)
visit method v w = (
  record { beat = 10; at = 10; unix = 10; job = some job },
  some (record { method = method; params = text v ∷ text w ∷ [] }),
)

abbrev visits : List (WsContext × Option (WsRequest ℕ))
visits = visit (codes "authorize") home [] ∷ visit (codes "submit") (codes "a") (codes "00") ∷ []

abbrev visitor : WsLink ℕ
visitor = handle_client (fresh settings.mining 1 (codes "10.0.0.1:4000") 0 none) visits

visitor_shares : length visitor.shares ≡ 1
unfolding handle_client handle_request authorize Client.handle_submit parse_worker_id split_dot
    validate_address new_client
visitor_shares = refl

handle_client-AllProven_example : AllProven memory codec 600 constant 10 visitor.shares
handle_client-AllProven_example =
    handle_client-AllProven memory codec 600 constant settings.mining 1 (codes "10.0.0.1:4000") 0
      none visits
