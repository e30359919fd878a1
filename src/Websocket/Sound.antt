-- ===== src/Websocket/Sound.antt =====
-- What holds of a WebSocket client (internal/slave/websocket.go).
use tos_pool.Prelude.{
  ℕ, ◌≡◌, refl, true, not, Option, none, some, List, [], ◌∷◌, ltb, if-elim, arith, Bool-cases, inl,
  inr, length,
}
use tos_pool.Prelude.Maps.{Bytes, codes}
use tos_pool.Policy.State.{PolicyServer}
use tos_pool.Config.{MiningConfig}
use tos_pool.Util.Hex.{validate_address}
use tos_pool.Stratum.Session.{Job, Value, text, parse_worker_id}
use tos_pool.Stratum.Fixed.{IsFixed, AllFixed-append}
use tos_pool.Websocket.Client.{
  WsRequest, WsLink, WsContext, new_client, send_current, login_policy, authorize, handle_authorize,
  handle_subscribe, give_work, handle_get_work, submit_for, share_of, job_and_nonce, handle_submit,
  is_one_of, handle_request, handle_message, handle_client,
}

module _ {G : Type 0} (d : ℕ) where
  abbrev pub Sound : WsLink G → Type 0
  Sound l = IsFixed d l.client.authorized l.client.address l.client.difficulty l.shares

  send_current-Sound : (l : WsLink G) (job : Option Job) → Sound l → Sound (send_current l job)
  send_current-Sound l none v = v
  send_current-Sound l (some job) v = v

  authorize-Sound :
      (k : WsContext) (l : WsLink G) (username : Bytes) → Sound l → Sound (authorize k l username)
  unfolding authorize
  authorize-Sound k l username v =
      elim (Bool-cases (validate_address (parse_worker_id username).0)) [
        | inr bad ↦ rw bad v
        | inl good ↦ rw good (
            if-elim Sound
              (login_policy k l.policy (parse_worker_id username).0 l.client.remote_addr).1
              (λ e.
                send_current-Sound _ k.job
                  (record { steady = v.steady; checked = λ t. good; earned = v.earned }))
              (λ e. v))
      ]

  get_work-Sound : (k : WsContext) (l : WsLink G) → Sound l → Sound (handle_get_work k l)
  unfolding handle_get_work
  get_work-Sound k l v = if-elim Sound (not l.client.authorized) (λ e. v) (λ e. given k.job)
    where
      given : (job : Option Job) → Sound (give_work l job)
      given none = v
      given (some job) = v

  submit_for-Sound :
      (k : WsContext) (l : WsLink G) (names : Bytes × Bytes) (job : Option Job)
      → l.client.authorized ≡ true
      → Sound l
      → Sound (submit_for k l names job)
  submit_for-Sound k l names none a v = v
  submit_for-Sound k l (job_id, nonce) (some job) a v = record {
    steady = v.steady;
    checked = v.checked;
    earned =
        AllFixed-append d l.shares (share_of k l.client job job_id nonce) v.earned (v.checked a)
          v.steady refl;
  }

  module _ {F : Type 0} where
    handle_authorize-Sound :
        (k : WsContext) (l : WsLink G) (vs : List (Value F))
        → Sound l
        → Sound (handle_authorize k l vs)
    handle_authorize-Sound k l [] v = v
    handle_authorize-Sound k l (text username ∷ vs) v = authorize-Sound k l username v
    handle_authorize-Sound k l (_ ∷ vs) v = v

    submit-Sound :
        (k : WsContext) (l : WsLink G) (params : List (Value F))
        → Sound l
        → Sound (handle_submit k l params)
    unfolding handle_submit
    submit-Sound k l params v =
        if-elim Sound (not l.client.authorized) (λ e. v)
          (λ e.
            if-elim Sound (ltb (length params) 2) (λ e'. v)
              (λ e'. submit_for-Sound k l (job_and_nonce params) k.job (ground arith) v))

    handle_request-Sound :
        (k : WsContext) (l : WsLink G) (req : WsRequest F)
        → Sound l
        → Sound (handle_request k l req)
    unfolding handle_request handle_subscribe
    handle_request-Sound k l req v =
        if-elim Sound (is_one_of req.method (codes "mining.authorize" ∷ codes "authorize" ∷ []))
          (λ e. handle_authorize-Sound k l req.params v)
          (λ e.
            if-elim Sound
              (is_one_of req.method
                (codes "mining.getwork" ∷ codes "getwork" ∷ codes "tos_getWork" ∷ []))
              (λ e. get_work-Sound k l v)
              (λ e.
                if-elim Sound
                  (is_one_of req.method
                    (codes "mining.submit" ∷ codes "submit" ∷ codes "tos_submitWork" ∷ []))
                  (λ e. submit-Sound k l req.params v)
                  (λ e.
                    if-elim Sound
                      (is_one_of req.method (codes "mining.subscribe" ∷ codes "subscribe" ∷ []))
                      (λ e. v) (λ e. v))))

    message-Sound :
        (k : WsContext) (l : WsLink G) (message : Option (WsRequest F))
        → Sound l
        → Sound (handle_message k l message)
    message-Sound k l none v = v
    message-Sound k l (some req) v = handle_request-Sound k l req v

    handle_client-Sound :
        (l : WsLink G) (messages : List (WsContext × Option (WsRequest F)))
        → Sound l
        → Sound (handle_client l messages)
    unfolding handle_client
    handle_client-Sound l [] v = v
    handle_client-Sound l ((k, message) ∷ messages) v =
        handle_client-Sound (handle_message k l message) messages (message-Sound k l message v)

abbrev pub fresh :
    {F G : Type 0} → MiningConfig F → ℕ → Bytes → ℕ → Option (PolicyServer G) → WsLink G
fresh cfg id ip now policy = record {
  client = new_client cfg id ip now;
  policy = policy;
  sent = [];
  shares = [];
}

-- Whatever a WebSocket connection sends: its client keeps the initial difficulty, it has a valid
-- address if it is authorized, and each share that it hands on has a valid address and the initial
-- difficulty and is to be validated.
pub handle_client-IsFixed :
    {F G : Type 0} (cfg : MiningConfig F) (id : ℕ) (ip : Bytes) (now : ℕ)
    (policy : Option (PolicyServer G)) (messages : List (WsContext × Option (WsRequest F)))
    → let l = handle_client (fresh cfg id ip now policy) messages in
      IsFixed cfg.initial_difficulty l.client.authorized l.client.address l.client.difficulty
        l.shares
unfolding new_client
handle_client-IsFixed cfg id ip now policy messages =
    handle_client-Sound cfg.initial_difficulty (fresh cfg id ip now policy) messages
      (record { steady = refl; checked = λ e. cc; earned = tt })
