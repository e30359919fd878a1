-- ===== src/Stratum/Invariant.antt =====
-- What holds of a session between two lines (internal/slave/stratum.go).
use tos_pool.Prelude.{
  ℕ, ◌+◌, ◌-◌, ◌%◌, ◌^◌, ◌≤◌, ◌≡◌, ◌⊎◌, inl, inr, refl, true, not, Option, none, some, List, [],
  ◌∷◌, ◌++◌, arith, if-elim, Bool-cases, ltb, ◌==◌, length,
}
use tos_pool.Prelude.Int.{pos, ◌+ℤ◌, int64}
use tos_pool.Prelude.Maps.{Bytes}
use tos_pool.Policy.State.{PolicyServer}
use tos_pool.Policy.Tables.{Float32}
use tos_pool.Config.{Floats, MiningConfig}
use tos_pool.Util.Hex.{validate_address}
use tos_pool.Stratum.Session.{Job, Share, Session, Value, StratumRequest, parse_worker_id}
use tos_pool.Stratum.Vardiff.{
  Clock, Settings, clamp, requested, new_difficulty, login_policy, is_current, string_at,
}
use tos_pool.Stratum.Handlers.{
  Link, handle_set_difficulty, handle_subscribe, authorize, punish, punish_by, reward, reward_by,
  set_to, set_from, submit_for, adjust, reset_vardiff, check_vardiff, accept_share, handle_submit,
  ip_of,
}

module _ {F : Type 0} (cfg : MiningConfig F) where
  -- The difficulty is the first one, or within the configured bounds.
  abbrev pub InBounds : ℕ → Type 0
  InBounds d = (d ≡ cfg.initial_difficulty) ⊎ ((cfg.min_difficulty ≤ d) × (d ≤ cfg.max_difficulty))

  abbrev pub IsEarned : Share → Type 0
  IsEarned share = (validate_address share.address ≡ true) × InBounds share.difficulty

  abbrev pub AllEarned : List Share → Type 0
  AllEarned [] = Unit {0}
  AllEarned (share ∷ shares) = IsEarned share × AllEarned shares

  pub record IsSound (s : Session) (shares : List Share) : Type 0 where
    pub bounded : InBounds s.difficulty
    pub checked : s.authorized ≡ true → validate_address s.address ≡ true
    pub earned : AllEarned shares

  clamp-InBounds : (d : ℕ) → cfg.min_difficulty ≤ cfg.max_difficulty → InBounds (clamp cfg d)
  clamp-InBounds d h = inr (ground arith)

  new_difficulty-InBounds :
      (fl : Floats F) (s : Session) (elapsed : ℕ)
      → cfg.min_difficulty ≤ cfg.max_difficulty
      → InBounds (new_difficulty fl cfg s elapsed)
  unfolding new_difficulty
  new_difficulty-InBounds fl s elapsed ordered = clamp-InBounds _ ordered

  AllEarned-append :
      (xs : List Share) (y : Share) → AllEarned xs → IsEarned y → AllEarned (xs ++ (y ∷ []))
  AllEarned-append [] y h e = (e, tt)
  AllEarned-append (x ∷ xs) y h e = (h.0, AllEarned-append xs y h.1 e)

  carry : {s s' : Session} {x x' : List Share} → s' ≡ s → x' ≡ x → IsSound s x → IsSound s' x'
  carry p q v = rw (p, q) v

module _ {F G : Type 0} where
  punish_by-session :
      (f32 : Float32 G) (k : Clock) (l : Link F G) (p : Option (PolicyServer G))
      → ((punish_by f32 k l p).session ≡ l.session) × ((punish_by f32 k l p).shares ≡ l.shares)
  punish_by-session f32 k l none = (refl, refl)
  punish_by-session f32 k l (some p) = (refl, refl)

  reward_by-session :
      (f32 : Float32 G) (k : Clock) (l : Link F G) (p : Option (PolicyServer G))
      → ((reward_by f32 k l p).session ≡ l.session) × ((reward_by f32 k l p).shares ≡ l.shares)
  reward_by-session f32 k l none = (refl, refl)
  reward_by-session f32 k l (some p) = (refl, refl)

module _ {F G : Type 0} (cfg : MiningConfig F)
    (ordered : cfg.min_difficulty ≤ cfg.max_difficulty) where
  abbrev pub Sound : Link F G → Type 0
  Sound l = IsSound cfg l.session l.shares

  punish-Sound : (f32 : Float32 G) (k : Clock) (l : Link F G) → Sound l → Sound (punish f32 k l)
  unfolding punish
  punish-Sound f32 k l v = let (p, q) = punish_by-session f32 k l l.policy in carry cfg p q v

  pub set_difficulty-Sound :
      (fl : Floats F) (l : Link F G) (req : StratumRequest F)
      → Sound l
      → Sound (handle_set_difficulty fl cfg l req)
  unfolding handle_set_difficulty
  set_difficulty-Sound fl l req v = from req.params
    where
      to : (d : Option ℕ) → Sound (set_to cfg l req.id d)
      to none = v
      to (some d) = record {
        bounded = clamp-InBounds cfg d ordered;
        checked = v.checked;
        earned = v.earned;
      }

      from : (vs : List (Value F)) → Sound (set_from fl cfg l req.id vs)
      from [] = v
      from (x ∷ vs) = to (requested fl x)

  pub subscribe-Sound :
      (l : Link F G) (req : StratumRequest F) (job : Option Job)
      → Sound l
      → Sound (handle_subscribe l req job)
  unfolding handle_subscribe
  subscribe-Sound l req none v = v
  subscribe-Sound l req (some job) v = v

  pub authorize-Sound :
      (k : Clock) (l : Link F G) (id : Value F) (username : Bytes)
      → Sound l
      → Sound (authorize k l id username)
  unfolding authorize
  authorize-Sound k l id username v =
      elim (Bool-cases (validate_address (parse_worker_id username).0)) [
        | inr bad ↦ rw bad v
        | inl good ↦ rw good (
            if-elim Sound (login_policy k l.policy (parse_worker_id username).0 (ip_of l)).1
              (λ e. record { bounded = v.bounded; checked = λ t. good; earned = v.earned })
              (λ e. v))
      ]

  adjust-Sound : (l : Link F G) (d : ℕ) → InBounds cfg d → Sound l → Sound (adjust l d)
  adjust-Sound l d b v =
      if-elim Sound (d == l.session.difficulty) (λ e. v)
        (λ e. record { bounded = b; checked = v.checked; earned = v.earned })

  reset_vardiff-Sound : (k : Clock) (l : Link F G) → Sound l → Sound (reset_vardiff k l)
  reset_vardiff-Sound k l v = record { bounded = v.bounded; checked = v.checked; earned = v.earned }

  check_vardiff-Sound :
      (fl : Floats F) (k : Clock) (l : Link F G) → Sound l → Sound (check_vardiff fl cfg k l)
  unfolding check_vardiff
  check_vardiff-Sound fl k l v =
      let elapsed = k.since - l.session.vardiff_stats.last_retarget in
      let d = new_difficulty fl cfg l.session elapsed in
      if-elim Sound (fl.less (fl.of_seconds elapsed) cfg.vardiff_retarget) (λ e. v)
        (λ e.
          reset_vardiff-Sound k (adjust l d)
            (adjust-Sound l d (new_difficulty-InBounds cfg fl l.session elapsed ordered) v))

  reward-Sound : (f32 : Float32 G) (k : Clock) (l : Link F G) → Sound l → Sound (reward f32 k l)
  unfolding reward
  reward-Sound f32 k l v = let (p, q) = reward_by-session f32 k l l.policy in carry cfg p q v

module _ {F G : Type 0} (fl : Floats F) (f32 : Float32 G) (cfg : Settings F)
    (ordered : cfg.mining.min_difficulty ≤ cfg.mining.max_difficulty) where
  abbrev Good : Link F G → Type 0
  Good = Sound cfg.mining ordered

  accept_share-Sound :
      (k : Clock) (l : Link F G) (id : Value F) (share : Share) (job : Job)
      → Good l
      → IsEarned cfg.mining share
      → Good (accept_share fl f32 cfg k l id share job)
  unfolding accept_share
  accept_share-Sound k l id share job v e =
      let counted : Link F G = record l {
        session = record l.session {
          vardiff_stats = record l.session.vardiff_stats {
            shares_since = int64 (l.session.vardiff_stats.shares_since +ℤ pos 1);
          };
          last_share = k.now;
        };
      } in
      let l1 = check_vardiff fl cfg.mining k counted in
      let v1 =
        check_vardiff-Sound cfg.mining ordered fl k counted
          (record { bounded = v.bounded; checked = v.checked; earned = v.earned }) in
      let l2 : Link F G = record l1 {
        session = record l1.session {
          valid_shares = (l1.session.valid_shares + 1) % 2 ^ 64;
          trust_score = int64 (l1.session.trust_score +ℤ pos 1);
        };
      } in
      let v3 =
        reward-Sound cfg.mining ordered f32 k l2
          (record { bounded = v1.bounded; checked = v1.checked; earned = v1.earned }) in
      record {
        bounded = v3.bounded;
        checked = v3.checked;
        earned = AllEarned-append cfg.mining (reward f32 k l2).shares _ v3.earned e;
      }

  submit_for-Sound :
      (k : Clock) (l : Link F G) (req : StratumRequest F) (job : Option Job)
      → l.session.authorized ≡ true
      → Good l
      → Good (submit_for fl f32 cfg k l req job)
  submit_for-Sound k l req none a v =
      punish-Sound cfg.mining ordered f32 k _
        (record { bounded = v.bounded; checked = v.checked; earned = v.earned })
  submit_for-Sound k l req (some job) a v =
      accept_share-Sound k l req.id _ job v (v.checked a, v.bounded)

  pub handle_submit-Sound :
      (k : Clock) (l : Link F G) (req : StratumRequest F) (job : Option Job)
      → Good l
      → Good (handle_submit fl f32 cfg k l req job)
  unfolding handle_submit
  handle_submit-Sound k l req job v =
      if-elim Good (not l.session.authorized) (λ e. v)
        (λ e.
          if-elim Good (ltb (length req.params) 4)
            (λ e'.
              punish-Sound cfg.mining ordered f32 k _
                (record { bounded = v.bounded; checked = v.checked; earned = v.earned }))
            (λ e'.
              submit_for-Sound k l req (is_current job (string_at req.params 1)) (ground arith) v))
