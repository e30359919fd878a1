-- ===== src/Stratum/Reach.antt =====
-- A whole connection under a validated configuration (handleSession of internal/slave/stratum.go,
-- Validate of internal/config/config.go).
use tos_pool.Prelude.{
  inl, ℕ, ◌≤◌, ◌≡◌, refl, Bool, true, false, Option, none, some, List, [], ◌∷◌, arith, if-elim, ltb,
}
use tos_pool.Prelude.Int.{ℤ}
use tos_pool.Prelude.Maps.{Bytes, codes, bytes_eq}
use tos_pool.Policy.State.{PolicyServer}
use tos_pool.Policy.Tables.{Float32}
use tos_pool.Config.{Floats, Config, ConfigError, first_error, checks, validate}
use tos_pool.Stratum.Session.{Job, Value, text, StratumRequest}
use tos_pool.Stratum.Vardiff.{Clock, Settings, create_session}
use tos_pool.Stratum.Handlers.{
  Link, handle_authorize, handle_ping, max_request_size, authorize_from,
}
use tos_pool.Stratum.Server.{
  Line, handle_request, ban, malformed, handle_parsed, handle_line, handle_session,
}
use tos_pool.Stratum.Invariant.{
  IsSound, Sound, set_difficulty-Sound, subscribe-Sound, authorize-Sound, handle_submit-Sound,
}

abbrev AllFalse : List (Bool × ConfigError) → Type 0
AllFalse [] = Unit {0}
AllFalse ((t, e) ∷ cs) = (t ≡ false) × AllFalse cs

first_error-AllFalse : (cs : List (Bool × ConfigError)) → first_error cs ≡ none → AllFalse cs
first_error-AllFalse [] h = tt
first_error-AllFalse ((true, e) ∷ cs) h = cc
first_error-AllFalse ((false, e) ∷ cs) h = (refl, first_error-AllFalse cs h)

validate_ordered :
    {F : Type 0} (fl : Floats F) (c : Config F)
    → validate fl c ≡ none
    → c.mining.min_difficulty ≤ c.mining.max_difficulty
unfolding validate
validate_ordered fl c h =
    let fact = (first_error-AllFalse (checks fl c) h).1.1.1.1.1.0 in ground (arith, fact)

abbrev pub settings : {F : Type 0} → Config F → Settings F
settings c = record { mining = c.mining; validation = c.validation }

abbrev pub fresh :
    {F G : Type 0} → Config F → ℕ → Bytes → Bytes → ℕ → Option (PolicyServer G) → Link F G
fresh c id extra_nonce1 remote_addr now policy = record {
  session = create_session c.mining id extra_nonce1 remote_addr now;
  policy = policy;
  closed = false;
  sent = [];
  shares = [];
}

module _ {F G : Type 0} (fl : Floats F) (f32 : Float32 G) (cfg : Settings F)
    (ordered : cfg.mining.min_difficulty ≤ cfg.mining.max_difficulty) where
  abbrev Good : Link F G → Type 0
  Good = Sound cfg.mining ordered

  authorize_from-Sound :
      (k : Clock) (l : Link F G) (id : Value F) (vs : List (Value F))
      → Good l
      → Good (authorize_from k l id vs)
  authorize_from-Sound k l id [] v = v
  authorize_from-Sound k l id (text username ∷ vs) v =
      authorize-Sound cfg.mining ordered k l id username v
  authorize_from-Sound k l id (_ ∷ vs) v = v

  handle_request-Sound :
      (k : Clock) (job : Option Job) (l : Link F G) (req : StratumRequest F)
      → Good l
      → Good (handle_request fl f32 cfg k job l req)
  unfolding handle_request handle_authorize handle_ping
  handle_request-Sound k job l req v =
      if-elim Good (bytes_eq req.method (codes "mining.subscribe"))
        (λ e. subscribe-Sound cfg.mining ordered l req job v)
        (λ e.
          if-elim Good (bytes_eq req.method (codes "mining.authorize"))
            (λ e. authorize_from-Sound k l req.id req.params v)
            (λ e.
              if-elim Good (bytes_eq req.method (codes "mining.submit"))
                (λ e. handle_submit-Sound fl f32 cfg ordered k l req job v)
                (λ e.
                  if-elim Good (bytes_eq req.method (codes "mining.extranonce.subscribe")) (λ e. v)
                    (λ e.
                      if-elim Good (bytes_eq req.method (codes "mining.ping"))
                        (λ e. record {
                          bounded = v.bounded;
                          checked = v.checked;
                          earned = v.earned;
                        })
                        (λ e.
                          if-elim Good (bytes_eq req.method (codes "mining.set_difficulty"))
                            (λ e. set_difficulty-Sound cfg.mining ordered fl l req v) (λ e. v))))))

  ban-Sound :
      (k : Clock) (l : Link F G) (p : Option (PolicyServer G))
      → Good l
      → Good (ban fl f32 cfg k l p)
  ban-Sound k l none v = v
  ban-Sound k l (some p) v = v

  malformed-Sound :
      (k : Clock) (l : Link F G) (code : ℤ) (message : Bytes) (p : Option (PolicyServer G))
      → Good l
      → Good (malformed fl f32 cfg k l code message p).0
  malformed-Sound k l code message none v = v
  malformed-Sound k l code message (some p) v =
      if-elim (λ (x : Link F G × Bool). Good x.0) _ (λ e. v) (λ e. v)

  handle_parsed-Sound :
      (k : Clock) (job : Option Job) (l : Link F G) (o : Option (StratumRequest F))
      → Good l
      → Good (handle_parsed fl f32 cfg k job l o).0
  handle_parsed-Sound k job l none v = malformed-Sound k l _ _ l.policy v
  handle_parsed-Sound k job l (some req) v = handle_request-Sound k job l req v

  handle_line-Sound :
      (k : Clock) (job : Option Job) (l : Link F G) (line : Line F)
      → Good l
      → Good (handle_line fl f32 cfg k job l line).0
  unfolding handle_line
  handle_line-Sound k job l line v =
      if-elim (λ (x : Link F G × Bool). Good x.0) line.is_prefix (λ e. ban-Sound k l l.policy v)
        (λ e.
          if-elim (λ (x : Link F G × Bool). Good x.0) (ltb max_request_size line.size)
            (λ e'. malformed-Sound k l _ _ l.policy v)
            (λ e'. handle_parsed-Sound k job l line.parsed v))

  lines-Sound :
      (l : Link F G) (lines : List (Clock × (Option Job × Line F)))
      → Good l
      → Good (handle_session fl f32 cfg l lines)
  unfolding handle_session
  lines-Sound l [] v = v
  lines-Sound l ((k, (job, line)) ∷ lines) v =
      let v' = handle_line-Sound k job l line v in
      if-elim Good (handle_line fl f32 cfg k job l line).1
        (λ e. lines-Sound (handle_line fl f32 cfg k job l line).0 lines v') (λ e. v')

-- Under a configuration that `Validate` accepts, and whatever a connection sends and when: the
-- difficulty of its session is the initial one or within the configured bounds, an authorized
-- session has a valid address, and each share that it hands on has a valid address and such a
-- difficulty.
pub handle_session-IsSound :
    {F G : Type 0} (fl : Floats F) (f32 : Float32 G) (c : Config F) (id : ℕ)
    (extra_nonce1 remote_addr : Bytes) (now : ℕ) (policy : Option (PolicyServer G))
    (lines : List (Clock × (Option Job × Line F)))
    → validate fl c ≡ none
    → let l =
        handle_session fl f32 (settings c) (fresh c id extra_nonce1 remote_addr now policy) lines in
      IsSound c.mining l.session l.shares
unfolding create_session
handle_session-IsSound fl f32 c id extra_nonce1 remote_addr now policy lines h =
    lines-Sound fl f32 (settings c) (validate_ordered fl c h)
      (fresh c id extra_nonce1 remote_addr now policy) lines
      (record { bounded = inl refl; checked = λ e. cc; earned = tt })
