-- ===== src/Xatum/Session.antt =====
-- Sessions of the Xatum server and their requests (internal/slave/xatum.go). `P` stands for the
-- undecoded parameters of a request, `G` for the float32 of the policy server. A line is handled as
-- a whole, with the job that is current then and the clocks of the policy server and of the share.
use tos_pool.Prelude.{
  ℕ, Bool, true, false, not, Option, none, some, List, [], ◌∷◌, ◌++◌, map, if◌then◌else◌,
}
use tos_pool.Prelude.Int.{ℤ, pos, negsuc}
use tos_pool.Prelude.Maps.{Bytes, codes, bytes_eq}
use tos_pool.Policy.State.{PolicyServer}
use tos_pool.Policy.Tables.{apply_login_policy}
use tos_pool.Config.{MiningConfig}
use tos_pool.Util.Hex.{validate_address}
use tos_pool.Stratum.Session.{Job, Share, extract_ip}

-- The connection and its reader are left out.
pub record XatumSession : Type 0 where
  pub id : ℕ
  pub address : Bytes
  pub worker : Bytes
  pub authorized : Bool
  pub difficulty : ℕ
  pub remote_addr : Bytes
  pub connected_at : ℕ

-- The identifier of a request is only sent back, and left out.
pub record XatumRequest (P : Type 0) : Type 0 where
  pub method : Bytes
  pub params : P

pub record AuthorizeParams : Type 0 where
  pub address : Bytes
  pub worker : Bytes

pub record SubmitParams : Type 0 where
  pub job_id : Bytes
  pub nonce : Bytes

pub record JobParams : Type 0 where
  pub id : Bytes
  pub header_hash : Bytes
  pub target : Bytes
  pub height : ℕ
  pub difficulty : ℕ
  pub clean : Bool

-- The JSON decoder of parameters: `none` is an error. The parameters of a handshake are only
-- logged.
pub record Decoder (P : Type 0) : Type 0 where
  pub authorize : P → Option AuthorizeParams
  pub submit : P → Option SubmitParams

-- What is written to the connection; the version and the protocol of a handshake are fixed.
pub data XatumSent : Type 0 where
  welcome : ℕ → ℕ → XatumSent
  accepted : XatumSent
  failure : ℤ → Bytes → XatumSent
  pong : XatumSent
  job : JobParams → XatumSent

-- A session with the policy server, which may be nil, what was written to it and which shares the
-- callback was given, from the oldest.
pub record XatumLink (G : Type 0) : Type 0 where
  pub session : XatumSession
  pub policy : Option (PolicyServer G)
  pub sent : List XatumSent
  pub shares : List Share

-- What a line reads from outside: the policy server's clocks, the time of a share in seconds, and
-- the current job.
pub record XatumContext : Type 0 where
  pub beat : ℕ
  pub at : ℕ
  pub unix : ℕ
  pub job : Option Job

unfoldable pub create_session : {F : Type 0} → MiningConfig F → ℕ → Bytes → ℕ → XatumSession
create_session cfg id remote_addr now = record {
  id = id;
  address = [];
  worker = [];
  authorized = false;
  difficulty = cfg.initial_difficulty;
  remote_addr = remote_addr;
  connected_at = now;
}

-- A job with the difficulty of the session.
abbrev pub job_params : XatumSession → Job → JobParams
job_params session j = record {
  id = j.id;
  header_hash = j.header_hash;
  target = j.target;
  height = j.height;
  difficulty = session.difficulty;
  clean = j.clean_jobs;
}

abbrev pub share_of : XatumContext → XatumSession → Job → SubmitParams → Share
share_of k session j params = record {
  session_id = session.id;
  address = session.address;
  worker = session.worker;
  job_id = params.job_id;
  nonce = params.nonce;
  hash = [];
  difficulty = session.difficulty;
  height = j.height;
  timestamp = k.unix;
  is_block = false;
  trust_score = pos 0;
  skip_validation = false;
}

abbrev pub or_default : Bytes → Bytes
or_default worker = if bytes_eq worker [] then codes "default" else worker

module _ {G : Type 0} where
  abbrev pub send : XatumLink G → XatumSent → XatumLink G
  send l m = record l { sent = l.sent ++ (m ∷ []) }

  abbrev pub send_job : XatumLink G → Job → XatumLink G
  send_job l j = send l (job (job_params l.session j))

  abbrev pub send_current : XatumLink G → Option Job → XatumLink G
  send_current l none = l
  send_current l (some j) = send_job l j

  unfoldable pub handle_handshake : XatumLink G → XatumLink G
  handle_handshake l = send l (welcome l.session.id l.session.difficulty)

  unfoldable pub handle_ping : XatumLink G → XatumLink G
  handle_ping l = send l pong

  -- `ApplyLoginPolicy`, or true where there is no policy server.
  abbrev pub login_policy :
      XatumContext → Option (PolicyServer G) → Bytes → Bytes → Option (PolicyServer G) × Bool
  login_policy k none address ip = (none, true)
  login_policy k (some p) address ip =
      let (p', ok) = apply_login_policy p k.beat k.at address ip in (some p', ok)

  unfoldable pub authorize : XatumContext → XatumLink G → AuthorizeParams → XatumLink G
  authorize k l params =
      if not (validate_address params.address)
      then send l (failure (negsuc 0) (codes "Invalid TOS address"))
      else let (p, allowed) =
          login_policy k l.policy params.address (extract_ip l.session.remote_addr) in
        if allowed
        then send_current
            (send
              (record l {
                session = record l.session {
                  address = params.address;
                  worker = or_default params.worker;
                  authorized = true;
                };
                policy = p;
              })
              accepted)
            k.job
        else send (record l { policy = p }) (failure (negsuc 0) (codes "Address blacklisted"))

  abbrev pub authorize_from : XatumContext → XatumLink G → Option AuthorizeParams → XatumLink G
  authorize_from k l none = send l (failure (negsuc 0) (codes "Invalid params"))
  authorize_from k l (some params) = authorize k l params

  abbrev pub submit_for : XatumContext → XatumLink G → SubmitParams → Option Job → XatumLink G
  submit_for k l params none = send l (failure (pos 21) (codes "Job not found"))
  submit_for k l params (some j) =
      if not (bytes_eq j.id params.job_id)
      then send l (failure (pos 21) (codes "Job not found"))
      else send (record l { shares = l.shares ++ (share_of k l.session j params ∷ []) }) accepted

  abbrev pub submit_from : XatumContext → XatumLink G → Option SubmitParams → XatumLink G
  submit_from k l none = send l (failure (negsuc 0) (codes "Invalid params"))
  submit_from k l (some params) = submit_for k l params k.job

  module _ {P : Type 0} (decoder : Decoder P) where
    unfoldable pub handle_submit : XatumContext → XatumLink G → P → XatumLink G
    handle_submit k l params =
        if not l.session.authorized
        then send l (failure (pos 24) (codes "Unauthorized"))
        else submit_from k l (decoder.submit params)

    unfoldable pub handle_request : XatumContext → XatumLink G → XatumRequest P → XatumLink G
    handle_request k l req =
        if bytes_eq req.method (codes "handshake")
        then handle_handshake l
        else (if bytes_eq req.method (codes "authorize")
            then authorize_from k l (decoder.authorize req.params)
            else (if bytes_eq req.method (codes "submit")
                then handle_submit k l req.params
                else (if bytes_eq req.method (codes "ping")
                    then handle_ping l
                    else send l (failure (negsuc 32600) (codes "Method not found")))))

    abbrev pub handle_line : XatumContext → XatumLink G → Option (XatumRequest P) → XatumLink G
    handle_line k l none = send l (failure (negsuc 32699) (codes "Parse error"))
    handle_line k l (some req) = handle_request k l req

    -- The loop, over the lines that the connection gives; `none` does not decode.
    unfoldable pub handle_session :
        XatumLink G → List (XatumContext × Option (XatumRequest P)) → XatumLink G
    handle_session l [] = l
    handle_session l ((k, line) ∷ lines) = handle_session (handle_line k l line) lines

-- `BroadcastJob`: the job becomes the current one.
unfoldable pub broadcast_job :
    {G : Type 0} → Job → List (XatumLink G) → Option Job × List (XatumLink G)
broadcast_job j links = (some j, map (λ l. if l.session.authorized then send_job l j else l) links)
