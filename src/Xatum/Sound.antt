-- ===== src/Xatum/Sound.antt =====
-- What holds of a Xatum session (internal/slave/xatum.go).
use tos_pool.Prelude.{
  ℕ, ◌≡◌, refl, true, not, Option, none, some, List, [], ◌∷◌, if-elim, arith, Bool-cases, inl, inr,
}
use tos_pool.Prelude.Maps.{Bytes, codes, bytes_eq}
use tos_pool.Policy.State.{PolicyServer}
use tos_pool.Config.{MiningConfig}
use tos_pool.Util.Hex.{validate_address}
use tos_pool.Stratum.Session.{Job, extract_ip}
use tos_pool.Stratum.Fixed.{IsFixed, AllFixed-append}
use tos_pool.Xatum.Session.{
  XatumRequest, XatumLink, XatumContext, AuthorizeParams, SubmitParams, Decoder, create_session,
  send_current, login_policy, authorize, authorize_from, submit_for, submit_from, share_of,
  handle_submit, handle_handshake, handle_ping, handle_request, handle_line, handle_session,
}

module _ {G : Type 0} (d : ℕ) where
  abbrev pub Sound : XatumLink G → Type 0
  Sound l = IsFixed d l.session.authorized l.session.address l.session.difficulty l.shares

  send_current-Sound : (l : XatumLink G) (j : Option Job) → Sound l → Sound (send_current l j)
  send_current-Sound l none v = v
  send_current-Sound l (some j) v = v

  authorize-Sound :
      (k : XatumContext) (l : XatumLink G) (params : AuthorizeParams)
      → Sound l
      → Sound (authorize k l params)
  unfolding authorize
  authorize-Sound k l params v = elim (Bool-cases (validate_address params.address)) [
    | inr bad ↦ rw bad v
    | inl good ↦ rw good (
        if-elim Sound (login_policy k l.policy params.address (extract_ip l.session.remote_addr)).1
          (λ e.
            send_current-Sound _ k.job
              (record { steady = v.steady; checked = λ t. good; earned = v.earned }))
          (λ e. v))
  ]

  authorize_from-Sound :
      (k : XatumContext) (l : XatumLink G) (params : Option AuthorizeParams)
      → Sound l
      → Sound (authorize_from k l params)
  authorize_from-Sound k l none v = v
  authorize_from-Sound k l (some params) v = authorize-Sound k l params v

  submit_for-Sound :
      (k : XatumContext) (l : XatumLink G) (params : SubmitParams) (j : Option Job)
      → l.session.authorized ≡ true
      → Sound l
      → Sound (submit_for k l params j)
  submit_for-Sound k l params none a v = v
  submit_for-Sound k l params (some j) a v =
      if-elim Sound (not (bytes_eq j.id params.job_id)) (λ e. v)
        (λ e. record {
          steady = v.steady;
          checked = v.checked;
          earned =
              AllFixed-append d l.shares (share_of k l.session j params) v.earned (v.checked a)
                v.steady refl;
        })

  submit_from-Sound :
      (k : XatumContext) (l : XatumLink G) (params : Option SubmitParams)
      → l.session.authorized ≡ true
      → Sound l
      → Sound (submit_from k l params)
  submit_from-Sound k l none a v = v
  submit_from-Sound k l (some params) a v = submit_for-Sound k l params k.job a v

  module _ {P : Type 0} (decoder : Decoder P) where
    submit-Sound :
        (k : XatumContext) (l : XatumLink G) (params : P)
        → Sound l
        → Sound (handle_submit decoder k l params)
    unfolding handle_submit
    submit-Sound k l params v =
        if-elim Sound (not l.session.authorized) (λ e. v)
          (λ e. submit_from-Sound k l (decoder.submit params) (ground arith) v)

    handle_request-Sound :
        (k : XatumContext) (l : XatumLink G) (req : XatumRequest P)
        → Sound l
        → Sound (handle_request decoder k l req)
    unfolding handle_request handle_handshake handle_ping
    handle_request-Sound k l req v =
        if-elim Sound (bytes_eq req.method (codes "handshake")) (λ e. v)
          (λ e.
            if-elim Sound (bytes_eq req.method (codes "authorize"))
              (λ e. authorize_from-Sound k l (decoder.authorize req.params) v)
              (λ e.
                if-elim Sound (bytes_eq req.method (codes "submit"))
                  (λ e. submit-Sound k l req.params v)
                  (λ e. if-elim Sound (bytes_eq req.method (codes "ping")) (λ e. v) (λ e. v))))

    line-Sound :
        (k : XatumContext) (l : XatumLink G) (line : Option (XatumRequest P))
        → Sound l
        → Sound (handle_line decoder k l line)
    line-Sound k l none v = v
    line-Sound k l (some req) v = handle_request-Sound k l req v

    handle_session-Sound :
        (l : XatumLink G) (lines : List (XatumContext × Option (XatumRequest P)))
        → Sound l
        → Sound (handle_session decoder l lines)
    unfolding handle_session
    handle_session-Sound l [] v = v
    handle_session-Sound l ((k, line) ∷ lines) v =
        handle_session-Sound (handle_line decoder k l line) lines (line-Sound k l line v)

abbrev pub fresh :
    {F G : Type 0} → MiningConfig F → ℕ → Bytes → ℕ → Option (PolicyServer G) → XatumLink G
fresh cfg id remote_addr now policy = record {
  session = create_session cfg id remote_addr now;
  policy = policy;
  sent = [];
  shares = [];
}

-- Whatever a Xatum connection sends: its session keeps the initial difficulty, it has a valid
-- address if it is authorized, and each share that it hands on has a valid address and the initial
-- difficulty and is to be validated.
pub handle_session-IsFixed :
    {F G P : Type 0} (decoder : Decoder P) (cfg : MiningConfig F) (id : ℕ) (remote_addr : Bytes)
    (now : ℕ) (policy : Option (PolicyServer G))
    (lines : List (XatumContext × Option (XatumRequest P)))
    → let l = handle_session decoder (fresh cfg id remote_addr now policy) lines in
      IsFixed cfg.initial_difficulty l.session.authorized l.session.address l.session.difficulty
        l.shares
unfolding create_session
handle_session-IsFixed decoder cfg id remote_addr now policy lines =
    handle_session-Sound cfg.initial_difficulty decoder (fresh cfg id remote_addr now policy) lines
      (record { steady = refl; checked = λ e. cc; earned = tt })
