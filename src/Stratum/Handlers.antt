-- ===== src/Stratum/Handlers.antt =====
-- What a session does with a request (internal/slave/stratum.go). `F` stands for float64 and `G`
-- for the float32 of the policy server. A line is handled as a whole: the callback, and other
-- sessions, come between two lines only.
use tos_pool.Prelude.{
  ℕ, ◌+◌, ◌-◌, ◌%◌, ◌^◌, Bool, true, false, not, Option, none, some, List, [], ◌∷◌, ◌++◌, ◌==◌, ltb,
  if◌then◌else◌, length,
}
use tos_pool.Prelude.Int.{ℤ, pos, negsuc, ◌+ℤ◌, int64}
use tos_pool.Prelude.Maps.{Bytes, codes}
use tos_pool.Policy.State.{PolicyServer}
use tos_pool.Policy.Tables.{Float32, apply_share_policy}
use tos_pool.Config.{Floats, MiningConfig}
use tos_pool.Util.Hex.{validate_address}
use tos_pool.Stratum.Session.{
  Job, Share, Session, Value, text, StratumRequest, Sent, result, pong, subscribed, failure,
  set_difficulty, notify, parse_worker_id, extract_ip,
}
use tos_pool.Stratum.Vardiff.{
  Clock, Settings, should_skip_validation, share_of, is_current, login_policy, clamp, requested,
  new_difficulty, string_at, nonce_of,
}

abbrev pub max_request_size : ℕ
max_request_size = 1024

-- A session with what it touches: the policy server, which may be nil, whether the connection was
-- closed, what was written to it and which shares the callback was given, from the oldest.
pub record Link (F G : Type 0) : Type 0 where
  pub session : Session
  pub policy : Option (PolicyServer G)
  pub closed : Bool
  pub sent : List (Sent F)
  pub shares : List Share

module _ {F G : Type 0} where
  abbrev pub send : Link F G → Sent F → Link F G
  send l m = record l { sent = l.sent ++ (m ∷ []) }

  abbrev pub send_error : Link F G → Option (Value F) → ℤ → Bytes → Link F G
  send_error l id code message = send l (failure id code message)

  abbrev pub ip_of : Link F G → Bytes
  ip_of l = extract_ip l.session.remote_addr

  unfoldable pub handle_ping : Clock → Link F G → Value F → Link F G
  handle_ping k l id =
      send (record l { session = record l.session { last_share = k.now } }) (pong id)

  abbrev pub set_to : MiningConfig F → Link F G → Value F → Option ℕ → Link F G
  set_to cfg l id none = send_error l (some id) (negsuc 0) (codes "Invalid difficulty format")
  set_to cfg l id (some d) =
      let s = record l.session {
        difficulty = clamp cfg d;
        vardiff_stats = record l.session.vardiff_stats { miner_requested = true };
      } in
      send (send (record l { session = s }) (result id)) (set_difficulty (clamp cfg d))

  abbrev pub set_from : Floats F → MiningConfig F → Link F G → Value F → List (Value F) → Link F G
  set_from fl cfg l id [] = send_error l (some id) (negsuc 0) (codes "Invalid params")
  set_from fl cfg l id (v ∷ vs) = set_to cfg l id (requested fl v)

  unfoldable pub handle_set_difficulty :
      Floats F → MiningConfig F → Link F G → StratumRequest F → Link F G
  handle_set_difficulty fl cfg l req = set_from fl cfg l req.id req.params

  abbrev pub send_current : Link F G → Option Job → Link F G
  send_current l none = l
  send_current l (some job) = send l (notify job)

  unfoldable pub handle_subscribe : Link F G → StratumRequest F → Option Job → Link F G
  handle_subscribe l req job =
      let s = l.session in
      send_current
        (send (send l (subscribed req.id s.id s.extra_nonce1 s.extra_nonce2_size))
          (set_difficulty s.difficulty))
        job

  unfoldable pub authorize : Clock → Link F G → Value F → Bytes → Link F G
  authorize k l id username =
      let (address, worker) = parse_worker_id username in
      if not (validate_address address)
      then send_error l (some id) (negsuc 0) (codes "Invalid TOS address")
      else let (p, allowed) = login_policy k l.policy address (ip_of l) in
        if allowed
        then send
            (record l {
              session = record l.session { address = address; worker = worker; authorized = true };
              policy = p;
            })
            (result id)
        else send_error (record l { policy = p }) (some id) (negsuc 0) (codes "Address blacklisted")

  abbrev pub authorize_from : Clock → Link F G → Value F → List (Value F) → Link F G
  authorize_from k l id [] = send_error l (some id) (negsuc 0) (codes "Invalid params")
  authorize_from k l id (text username ∷ vs) = authorize k l id username
  authorize_from k l id (v ∷ vs) = send_error l (some id) (negsuc 0) (codes "Invalid username")

  unfoldable pub handle_authorize : Clock → Link F G → StratumRequest F → Link F G
  handle_authorize k l req = authorize_from k l req.id req.params

  -- `ApplySharePolicy` for an invalid share, which may close the connection.
  abbrev pub punish_by : Float32 G → Clock → Link F G → Option (PolicyServer G) → Link F G
  punish_by f32 k l none = l
  punish_by f32 k l (some p) =
      let (p', ok) = apply_share_policy f32 p k.beat k.beat' k.at (ip_of l) false in
      record l { policy = some p'; closed = if ok then l.closed else true }

  unfoldable pub punish : Float32 G → Clock → Link F G → Link F G
  punish f32 k l = punish_by f32 k l l.policy

  -- The same for a valid share, whose verdict is not looked at.
  abbrev pub reward_by : Float32 G → Clock → Link F G → Option (PolicyServer G) → Link F G
  reward_by f32 k l none = l
  reward_by f32 k l (some p) = record l {
    policy = some (apply_share_policy f32 p k.beat k.beat' k.at (ip_of l) true).0;
  }

  unfoldable pub reward : Float32 G → Clock → Link F G → Link F G
  reward f32 k l = reward_by f32 k l l.policy

  -- The new difficulty takes effect, and is sent if it is another one.
  abbrev pub adjust : Link F G → ℕ → Link F G
  adjust l d =
      if d == l.session.difficulty
      then l
      else send (record l { session = record l.session { difficulty = d } }) (set_difficulty d)

  abbrev pub reset_vardiff : Clock → Link F G → Link F G
  reset_vardiff k l = record l {
    session = record l.session {
      vardiff_stats = record l.session.vardiff_stats {
        last_retarget = k.retarget;
        shares_since = pos 0;
      };
    };
  }

  unfoldable pub check_vardiff : Floats F → MiningConfig F → Clock → Link F G → Link F G
  check_vardiff fl cfg k l =
      let elapsed = k.since - l.session.vardiff_stats.last_retarget in
      if fl.less (fl.of_seconds elapsed) cfg.vardiff_retarget
      then l
      else reset_vardiff k (adjust l (new_difficulty fl cfg l.session elapsed))

  -- The part of `handleSubmit` from the job on.
  unfoldable pub accept_share :
      Floats F → Float32 G → Settings F → Clock → Link F G → Value F → Share → Job → Link F G
  accept_share fl f32 cfg k l id share job =
      let counted = record l {
        session = record l.session {
          vardiff_stats = record l.session.vardiff_stats {
            shares_since = int64 (l.session.vardiff_stats.shares_since +ℤ pos 1);
          };
          last_share = k.now;
        };
      } in
      let l1 = check_vardiff fl cfg.mining k counted in
      let share' = record share {
        height = job.height;
        trust_score = l1.session.trust_score;
        skip_validation = should_skip_validation cfg.validation k.roll l1.session.trust_score;
      } in
      let l2 = record l1 {
        session = record l1.session {
          valid_shares = (l1.session.valid_shares + 1) % 2 ^ 64;
          trust_score = int64 (l1.session.trust_score +ℤ pos 1);
        };
      } in
      let l3 = reward f32 k l2 in
      send (record l3 { shares = l3.shares ++ (share' ∷ []) }) (result id)

  abbrev pub stale : Float32 G → Clock → Link F G → Value F → Link F G
  stale f32 k l id =
      let l' = send_error l (some id) (pos 21) (codes "Job not found") in
      punish f32 k (record l' {
        session = record l'.session { stale_shares = (l'.session.stale_shares + 1) % 2 ^ 64 };
      })

  abbrev pub too_few : Float32 G → Clock → Link F G → Value F → Link F G
  too_few f32 k l id =
      let l' = send_error l (some id) (negsuc 0) (codes "Invalid params") in
      punish f32 k (record l' {
        session = record l'.session { invalid_shares = (l'.session.invalid_shares + 1) % 2 ^ 64 };
      })

  abbrev pub submit_for :
      Floats F
      → Float32 G
      → Settings F
      → Clock
      → Link F G
      → StratumRequest F
      → Option Job
      → Link F G
  submit_for fl f32 cfg k l req none = stale f32 k l req.id
  submit_for fl f32 cfg k l req (some job) =
      accept_share fl f32 cfg k l req.id
        (share_of k l.session (string_at req.params 1) (nonce_of req.params)) job

  unfoldable pub handle_submit :
      Floats F
      → Float32 G
      → Settings F
      → Clock
      → Link F G
      → StratumRequest F
      → Option Job
      → Link F G
  handle_submit fl f32 cfg k l req current =
      if not l.session.authorized
      then send_error l (some req.id) (pos 24) (codes "Unauthorized")
      else (if ltb (length req.params) 4
          then too_few f32 k l req.id
          else submit_for fl f32 cfg k l req (is_current current (string_at req.params 1)))
