-- ===== src/Stratum/Server.antt =====
-- Lines and connections of the server (handleSession, handleRequest and acceptLoop of
-- internal/slave/stratum.go).
use tos_pool.Prelude.{
  ℕ, suc, Bool, true, false, Option, none, some, List, [], ◌∷◌, map, ltb, ◌==◌, if◌then◌else◌,
}
use tos_pool.Prelude.Int.{ℤ, negsuc}
use tos_pool.Prelude.Maps.{Bytes, codes, bytes_eq}
use tos_pool.Policy.State.{
  PolicyServer, is_banned, ban_ip, apply_connection_limit, apply_malformed_policy,
}
use tos_pool.Policy.Tables.{Float32, apply_share_policy}
use tos_pool.Config.{Floats}
use tos_pool.Stratum.Session.{Job, StratumRequest, result, notify}
use tos_pool.Stratum.Vardiff.{Clock, Settings}
use tos_pool.Stratum.Handlers.{
  Link, max_request_size, send, send_error, ip_of, handle_ping, handle_set_difficulty,
  handle_subscribe, handle_authorize, handle_submit,
}

-- A line that was read: whether it did not fit into the buffer, its size, and what the JSON decoder
-- makes of it, `none` for an error.
pub record Line (F : Type 0) : Type 0 where
  pub is_prefix : Bool
  pub size : ℕ
  pub parsed : Option (StratumRequest F)

module _ {F G : Type 0} (fl : Floats F) (f32 : Float32 G) (cfg : Settings F) where
  unfoldable pub handle_request : Clock → Option Job → Link F G → StratumRequest F → Link F G
  handle_request k job l req =
      if bytes_eq req.method (codes "mining.subscribe")
      then handle_subscribe l req job
      else (if bytes_eq req.method (codes "mining.authorize")
          then handle_authorize k l req
          else (if bytes_eq req.method (codes "mining.submit")
              then handle_submit fl f32 cfg k l req job
              else (if bytes_eq req.method (codes "mining.extranonce.subscribe")
                  then send l (result req.id)
                  else (if bytes_eq req.method (codes "mining.ping")
                      then handle_ping k l req.id
                      else (if bytes_eq req.method (codes "mining.set_difficulty")
                          then handle_set_difficulty fl cfg.mining l req
                          else send_error l (some req.id) (negsuc 32600)
                              (codes "Method not found"))))))

  abbrev pub ban : Clock → Link F G → Option (PolicyServer G) → Link F G
  ban k l none = l
  ban k l (some p) = record l { policy = some (ban_ip p k.beat k.at (ip_of l)) }

  -- `ApplyMalformedPolicy`, and the error if the session goes on.
  abbrev pub malformed : Clock → Link F G → ℤ → Bytes → Option (PolicyServer G) → Link F G × Bool
  malformed k l code message none = (send_error l none code message, true)
  malformed k l code message (some p) =
      let (p', ok) = apply_malformed_policy p k.beat k.beat' k.at (ip_of l) in
      let l' = record l { policy = some p' } in
      if ok then (send_error l' none code message, true) else (l', false)

  abbrev pub handle_parsed :
      Clock → Option Job → Link F G → Option (StratumRequest F) → Link F G × Bool
  handle_parsed k job l none = malformed k l (negsuc 32699) (codes "Parse error") l.policy
  handle_parsed k job l (some req) = (handle_request k job l req, true)

  -- One round of the loop of `handleSession`, with whether it goes on.
  unfoldable pub handle_line : Clock → Option Job → Link F G → Line F → Link F G × Bool
  handle_line k job l line =
      if line.is_prefix
      then (ban k l l.policy, false)
      else (if ltb max_request_size line.size
          then malformed k l (negsuc 32599) (codes "Request too large") l.policy
          else handle_parsed k job l line.parsed)

  -- The loop, over the lines that the connection gives; each comes with its clock and the job that
  -- is current then. A read error ends the list.
  unfoldable pub handle_session : Link F G → List (Clock × (Option Job × Line F)) → Link F G
  handle_session l [] = l
  handle_session l ((k, (job, line)) ∷ lines) =
      let (l', goes_on) = handle_line k job l line in
      let rest = handle_session l' lines in if goes_on then rest else l'

-- The policy checks of `acceptLoop`; `now` is the clock of `IsBanned`.
unfoldable pub admit : {G : Type 0} → PolicyServer G → ℕ → ℕ → ℕ → Bytes → PolicyServer G × Bool
admit p now at beat ip =
    let (p1, banned) = is_banned p now ip in
    if banned then (p1, false) else apply_connection_limit p1 at beat ip

-- `BroadcastJob`: the sessions of the map, in any order; the job becomes the current one.
unfoldable pub broadcast_job : {F G : Type 0} → Job → List (Link F G) → Option Job × List (Link F G)
broadcast_job job links =
    (some job, map (λ l. if l.session.authorized then send l (notify job) else l) links)

-- `ReportInvalidShare`, for the policy server and the session with the identifier.
abbrev pub close_session : {F G : Type 0} → ℕ → List (Link F G) → List (Link F G)
close_session id links =
    map (λ l. if l.session.id == id then record l { closed = true } else l) links

unfoldable pub report_invalid_share :
    {F G : Type 0}
    → Float32 G
    → Clock
    → Option (PolicyServer G)
    → ℕ
    → Bytes
    → List (Link F G)
    → Option (PolicyServer G) × List (Link F G)
report_invalid_share f32 k none id ip links = (none, links)
report_invalid_share f32 k (some p) id ip links =
    let (p', ok) = apply_share_policy f32 p k.beat k.beat' k.at ip false in
    (some p', if ok then links else close_session id links)

unfoldable pub get_authorized_count : {F G : Type 0} → List (Link F G) → ℕ
get_authorized_count [] = 0
get_authorized_count (l ∷ links) =
    let rest = get_authorized_count links in if l.session.authorized then suc rest else rest
