-- ===== src/Websocket/Client.antt =====
-- Clients of the WebSocket server and their requests (internal/slave/websocket.go). `F` stands for
-- float64, `G` for the float32 of the policy server. A message is handled as a whole, with the job
-- that is current then and the clocks of the policy server and of the share.
use tos_pool.Prelude.{
  ℕ, Bool, true, false, not, ◌&&◌, ◌||◌, Option, none, some, List, [], ◌∷◌, ◌++◌, map, ltb,
  if◌then◌else◌, length,
}
use tos_pool.Prelude.Int.{ℤ, pos, negsuc}
use tos_pool.Prelude.Maps.{Bytes, codes, bytes_eq}
use tos_pool.Policy.State.{PolicyServer, is_banned, apply_connection_limit}
use tos_pool.Policy.Tables.{apply_login_policy}
use tos_pool.Config.{MiningConfig}
use tos_pool.Util.Hex.{validate_address}
use tos_pool.Stratum.Session.{Job, Share, Value, text, parse_worker_id}

-- The connection is left out.
pub record WsClient : Type 0 where
  pub id : ℕ
  pub address : Bytes
  pub worker : Bytes
  pub authorized : Bool
  pub difficulty : ℕ
  pub remote_addr : Bytes
  pub connected_at : ℕ

-- The identifier of a request is only sent back, and left out.
pub record WsRequest (F : Type 0) : Type 0 where
  pub method : Bytes
  pub params : List (Value F)

pub record GetWorkResult : Type 0 where
  pub header_hash : Bytes
  pub target : Bytes
  pub height : ℕ
  pub job_id : Bytes
  pub difficulty : ℕ

-- What is written to the connection.
pub data WsSent : Type 0 where
  accepted : WsSent
  subscribed : ℕ → WsSent
  work : GetWorkResult → WsSent
  failure : ℤ → Bytes → WsSent
  set_difficulty : ℕ → WsSent
  notify : Job → WsSent

-- A client with the policy server, which may be nil, what was written to it and which shares the
-- callback was given, from the oldest.
pub record WsLink (G : Type 0) : Type 0 where
  pub client : WsClient
  pub policy : Option (PolicyServer G)
  pub sent : List WsSent
  pub shares : List Share

-- What a message reads from outside: the policy server's clocks, the time of a share in seconds,
-- and the current job.
pub record WsContext : Type 0 where
  pub beat : ℕ
  pub at : ℕ
  pub unix : ℕ
  pub job : Option Job

-- The address that the policy is asked about: that of the header, if there is one.
abbrev pub client_ip : Bytes → Bytes → Bytes
client_ip remote_addr forwarded = if not (bytes_eq forwarded []) then forwarded else remote_addr

-- The policy checks of `handleConnection`.
unfoldable pub admit : {G : Type 0} → PolicyServer G → ℕ → ℕ → ℕ → Bytes → PolicyServer G × Bool
admit p now at beat ip =
    let (p1, banned) = is_banned p now ip in
    if banned then (p1, false) else apply_connection_limit p1 at beat ip

unfoldable pub new_client : {F : Type 0} → MiningConfig F → ℕ → Bytes → ℕ → WsClient
new_client cfg id ip now = record {
  id = id;
  address = [];
  worker = [];
  authorized = false;
  difficulty = cfg.initial_difficulty;
  remote_addr = ip;
  connected_at = now;
}

-- What the policy server lets in.
abbrev pub check_policy :
    {G : Type 0} → Option (PolicyServer G) → ℕ → ℕ → ℕ → Bytes → Option (PolicyServer G) × Bool
check_policy none now at beat ip = (none, true)
check_policy (some p) now at beat ip = let (p', ok) = admit p now at beat ip in (some p', ok)

-- The policy server, and the client if it is let in and the upgrade to a WebSocket goes well;
-- `since` is the time of the connection.
unfoldable pub handle_connection :
    {F G : Type 0}
    → MiningConfig F
    → Option (PolicyServer G)
    → ℕ
    → ℕ
    → ℕ
    → ℕ
    → ℕ
    → Bytes
    → Bytes
    → Bool
    → Option (PolicyServer G) × Option WsClient
handle_connection cfg policy now at beat id since remote_addr forwarded upgraded =
    let ip = client_ip remote_addr forwarded in
    let (policy', ok) = check_policy policy now at beat ip in
    (policy', if ok && upgraded then some (new_client cfg id ip since) else none)

-- The job and the nonce of a submission; no job stands for the current one.
abbrev pub job_and_nonce : {F : Type 0} → List (Value F) → Bytes × Bytes
job_and_nonce (text v ∷ text s ∷ vs) = if ltb 20 (length s) then ([], v) else (v, s)
job_and_nonce (text v ∷ _) = (v, [])
job_and_nonce _ = ([], [])

abbrev pub is_one_of : Bytes → List Bytes → Bool
is_one_of method [] = false
is_one_of method (m ∷ ms) = bytes_eq method m || is_one_of method ms

abbrev pub share_of : WsContext → WsClient → Job → Bytes → Bytes → Share
share_of k client job job_id nonce = record {
  session_id = client.id;
  address = client.address;
  worker = client.worker;
  job_id = if bytes_eq job_id [] then job.id else job_id;
  nonce = nonce;
  hash = [];
  difficulty = client.difficulty;
  height = job.height;
  timestamp = k.unix;
  is_block = false;
  trust_score = pos 0;
  skip_validation = false;
}

module _ {G : Type 0} where
  abbrev pub send : WsLink G → WsSent → WsLink G
  send l m = record l { sent = l.sent ++ (m ∷ []) }

  abbrev pub send_current : WsLink G → Option Job → WsLink G
  send_current l none = l
  send_current l (some job) = send l (notify job)

  -- `ApplyLoginPolicy`, or true where there is no policy server.
  abbrev pub login_policy :
      WsContext → Option (PolicyServer G) → Bytes → Bytes → Option (PolicyServer G) × Bool
  login_policy k none address ip = (none, true)
  login_policy k (some p) address ip =
      let (p', ok) = apply_login_policy p k.beat k.at address ip in (some p', ok)

  unfoldable pub authorize : WsContext → WsLink G → Bytes → WsLink G
  authorize k l username =
      let (address, worker) = parse_worker_id username in
      if not (validate_address address)
      then send l (failure (negsuc 0) (codes "Invalid TOS address"))
      else let (p, allowed) = login_policy k l.policy address l.client.remote_addr in
        if allowed
        then send_current
            (send
              (record l {
                client = record l.client { address = address; worker = worker; authorized = true };
                policy = p;
              })
              accepted)
            k.job
        else send (record l { policy = p }) (failure (negsuc 0) (codes "Address blacklisted"))

  unfoldable pub handle_subscribe : WsLink G → WsLink G
  handle_subscribe l = send (send l (subscribed l.client.id)) (set_difficulty l.client.difficulty)

  abbrev pub give_work : WsLink G → Option Job → WsLink G
  give_work l none = send l (failure (negsuc 0) (codes "No work available"))
  give_work l (some job) = send l (
      work (record {
        header_hash = job.header_hash;
        target = job.target;
        height = job.height;
        job_id = job.id;
        difficulty = l.client.difficulty;
      }))

  unfoldable pub handle_get_work : WsContext → WsLink G → WsLink G
  handle_get_work k l =
      if not l.client.authorized
      then send l (failure (pos 24) (codes "Unauthorized"))
      else give_work l k.job

  abbrev pub submit_for : WsContext → WsLink G → Bytes × Bytes → Option Job → WsLink G
  submit_for k l names none = send l (failure (pos 21) (codes "Job not found"))
  submit_for k l (job_id, nonce) (some job) =
      send (record l { shares = l.shares ++ (share_of k l.client job job_id nonce ∷ []) }) accepted

  module _ {F : Type 0} where
    abbrev pub handle_authorize : WsContext → WsLink G → List (Value F) → WsLink G
    handle_authorize k l [] = send l (failure (negsuc 0) (codes "Invalid params"))
    handle_authorize k l (text username ∷ vs) = authorize k l username
    handle_authorize k l (v ∷ vs) = send l (failure (negsuc 0) (codes "Invalid username"))

    unfoldable pub handle_submit : WsContext → WsLink G → List (Value F) → WsLink G
    handle_submit k l params =
        if not l.client.authorized
        then send l (failure (pos 24) (codes "Unauthorized"))
        else (if ltb (length params) 2
            then send l (failure (negsuc 0) (codes "Invalid params"))
            else submit_for k l (job_and_nonce params) k.job)

    unfoldable pub handle_request : WsContext → WsLink G → WsRequest F → WsLink G
    handle_request k l req =
        if is_one_of req.method (codes "mining.authorize" ∷ codes "authorize" ∷ [])
        then handle_authorize k l req.params
        else (if is_one_of req.method
              (codes "mining.getwork" ∷ codes "getwork" ∷ codes "tos_getWork" ∷ [])
            then handle_get_work k l
            else (if is_one_of req.method
                  (codes "mining.submit" ∷ codes "submit" ∷ codes "tos_submitWork" ∷ [])
                then handle_submit k l req.params
                else (if is_one_of req.method (codes "mining.subscribe" ∷ codes "subscribe" ∷ [])
                    then handle_subscribe l
                    else send l (failure (negsuc 32600) (codes "Method not found")))))

    abbrev pub handle_message : WsContext → WsLink G → Option (WsRequest F) → WsLink G
    handle_message k l none = send l (failure (negsuc 32699) (codes "Parse error"))
    handle_message k l (some req) = handle_request k l req

    -- The loop, over the messages that the connection gives; `none` does not decode.
    unfoldable pub handle_client : WsLink G → List (WsContext × Option (WsRequest F)) → WsLink G
    handle_client l [] = l
    handle_client l ((k, message) ∷ messages) = handle_client (handle_message k l message) messages

-- `BroadcastJob`: the job becomes the current one.
unfoldable pub broadcast_job : {G : Type 0} → Job → List (WsLink G) → Option Job × List (WsLink G)
broadcast_job job links =
    (some job, map (λ l. if l.client.authorized then send l (notify job) else l) links)
