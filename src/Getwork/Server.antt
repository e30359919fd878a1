-- ===== src/Getwork/Server.antt =====
-- Requests of the getwork server (internal/slave/getwork.go). The JSON decoder and the HTTP server
-- are left out; a request is handled as a whole, with the master as it is then. `F` stands for
-- float64.
use tos_pool.Prelude.{
  ℕ, suc, ◌+◌, ◌-◌, ◌%◌, ◌^◌, Bool, false, not, ◌&&◌, ◌||◌, Option, none, some, List, [], ◌∷◌, ltb,
  if◌then◌else◌, replicate, length,
}
use tos_pool.Prelude.Int.{pos, negsuc}
use tos_pool.Prelude.Maps.{Bytes, codes, bytes_eq, bytes_Eq, lookup, insert}
use tos_pool.TosHash.Mix.{tos_hash, input_size}
use tos_pool.TosHash.Header.{hash_to_difficulty, copy_into}
use tos_pool.Store.Redis.{Redis}
use tos_pool.Store.Data.{Codec}
use tos_pool.Util.Hex.{hex_to_bytes, bytes_to_hex}
use tos_pool.Config.{MiningConfig}
use tos_pool.Master.Jobs.{Master}
use tos_pool.Master.Jobs
use tos_pool.Master.Shares.{ShareSubmission, ShareResult, World, process_share}
use tos_pool.Stratum.Session.{Value}
use tos_pool.Stratum.Vardiff.{string_at}
use tos_pool.Getwork.State.{
  GetworkSession, GetworkServer, GetworkRequest, Reply, accepted, failure, rejected,
  handle_get_work_rpc, handle_authorize, anonymous,
}

-- The header whose hash is looked at.
unfoldable pub getwork_header : Jobs.Job → List ℕ → List ℕ
getwork_header job nonce =
    copy_into (copy_into (replicate input_size 0) 0 input_size job.header_hash) 72 8 nonce

-- What is handed to the master.
abbrev pub submission : GetworkSession → Jobs.Job → Bytes → ShareSubmission
submission session job nonce = record {
  address = session.address;
  worker = session.worker;
  job_id = job.id;
  nonce = nonce;
  difficulty = session.difficulty;
  height = job.height;
  trust_score = pos 0;
  skip_validation = false;
}

module _ {S : Type 0} (r : Redis S) (c : Codec) (window : ℕ) (blake3 : List ℕ → List ℕ) where
  abbrev pub reply_of : ShareResult → Reply
  reply_of res = if res.valid then accepted else rejected res.message

  abbrev pub hand_on : World → S → Master → ShareSubmission → S × Reply
  hand_on w s m share =
      let (s', res) = process_share r c window blake3 w s m share in (s', reply_of res)

  abbrev pub check_work :
      World → S → Master → GetworkSession → Jobs.Job → Bytes → Option (List ℕ) → S × Reply
  check_work w s m session job nonce none =
      (s, failure (negsuc 0) (codes "Hash computation failed"))
  check_work w s m session job nonce (some hash) =
      if ltb (hash_to_difficulty hash) session.difficulty
      then (s, failure (negsuc 0) (codes "Low difficulty"))
      else hand_on w s m (submission session job nonce)

  abbrev pub check_nonce :
      World → S → Master → GetworkSession → Jobs.Job → Bytes → Option (List ℕ) → S × Reply
  check_nonce w s m session job nonce none = (s, failure (negsuc 0) (codes "Invalid nonce"))
  check_nonce w s m session job nonce (some bytes) =
      check_work w s m session job nonce (tos_hash blake3 (getwork_header job bytes))

  abbrev pub check_job :
      World → S → Master → GetworkSession → Bytes → Bytes → Option Jobs.Job → S × Reply
  check_job w s m session header_hash nonce none = (s, failure (negsuc 0) (codes "No active job"))
  check_job w s m session header_hash nonce (some job) =
      if not (bytes_eq header_hash (bytes_to_hex job.header_hash))
        && not (bytes_eq header_hash job.id)
      then (s, failure (negsuc 0) (codes "Stale work"))
      else check_nonce w s m session job nonce (hex_to_bytes nonce)

  -- The session is seen, and has one share more if the work is accepted.
  abbrev pub seen : ℕ → Reply → GetworkSession → GetworkSession
  seen now accepted session = record session {
    last_seen = now;
    shares = (session.shares + 1) % 2 ^ 64;
  }
  seen now _ session = record session { last_seen = now }

  module _ {F : Type 0} (cfg : MiningConfig F) (now : ℕ) (w : World) where
    abbrev pub submit_without :
        GetworkServer
        → S
        → Master
        → List (Value F)
        → Option GetworkSession
        → GetworkServer × (S × Reply)
    submit_without g s m params none = (g, (s, failure (negsuc 0) (codes "Not authorized")))
    submit_without g s m params (some session) =
        (g, check_job w s m session (string_at params 1) (string_at params 0) m.current_job)

    abbrev pub submit_with :
        GetworkServer
        → S
        → Master
        → Bytes
        → List (Value F)
        → Option GetworkSession
        → GetworkServer × (S × Reply)
    submit_with g s m remote_addr params none = submit_without g s m params (anonymous cfg params)
    submit_with g s m remote_addr params (some session) =
        let out = check_job w s m session (string_at params 1) (string_at params 0) m.current_job in
        (record g { sessions = insert remote_addr (seen now out.1 session) g.sessions }, out)

    unfoldable pub handle_submit_work :
        GetworkServer → S → Master → Bytes → List (Value F) → GetworkServer × (S × Reply)
    handle_submit_work g s m remote_addr params =
        if ltb (length params) 3
        then (g, (s, failure (negsuc 0) (codes "Missing parameters")))
        else submit_with g s m remote_addr params (lookup remote_addr g.sessions)

    abbrev pub is_get_work : Bytes → Bool
    is_get_work method =
        bytes_eq method (codes "eth_getWork")
        || bytes_eq method (codes "getwork")
        || bytes_eq method (codes "mining.getwork")

    abbrev pub is_submit_work : Bytes → Bool
    is_submit_work method =
        bytes_eq method (codes "eth_submitWork")
        || bytes_eq method (codes "submitwork")
        || bytes_eq method (codes "mining.submit")

    abbrev pub is_authorize : Bytes → Bool
    is_authorize method =
        bytes_eq method (codes "eth_submitLogin") || bytes_eq method (codes "mining.authorize")

    abbrev pub authorized : S → GetworkServer × Reply → GetworkServer × (S × Reply)
    authorized s (g, reply) = (g, (s, reply))

    -- A POST request; `none` is a body that does not decode.
    unfoldable pub handle_request :
        GetworkServer → S → Master → Bytes → Option (GetworkRequest F) → GetworkServer × (S × Reply)
    handle_request g s m remote_addr none = (g, (s, failure (negsuc 32699) (codes "Parse error")))
    handle_request g s m remote_addr (some req) =
        if is_get_work req.method
        then (g, (s, handle_get_work_rpc g))
        else (if is_submit_work req.method
            then handle_submit_work g s m remote_addr req.params
            else (if is_authorize req.method
                then authorized s (handle_authorize cfg g now remote_addr req.params)
                else (g, (s, failure (negsuc 32600) (codes "Method not found")))))

-- The sessions that were seen after `cutoff`.
unfoldable pub count_seen : ℕ → List (Bytes × GetworkSession) → ℕ
count_seen cutoff [] = 0
count_seen cutoff ((a, session) ∷ sessions) =
    let rest = count_seen cutoff sessions in if ltb cutoff session.last_seen then suc rest else rest

unfoldable pub get_active_sessions : GetworkServer → ℕ → ℕ
get_active_sessions g now = count_seen (now - 600_000_000_000) g.sessions
