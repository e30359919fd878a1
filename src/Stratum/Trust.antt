-- ===== src/Stratum/Trust.antt =====
-- What a submission does to the trust of its session (handleSubmit of internal/slave/stratum.go).
use mathlib.Core.Path.{subst}
use tos_pool.Prelude.{
  ℕ, suc, ◌+◌, ◌-◌, ◌%◌, ◌^◌, ◌≤◌, ◌<◌, ◌≡◌, refl, sym, ap, ◌∙◌, true, not, Option, none, some,
  List, [], ◌∷◌, ◌++◌, arith, if-elim, length, ltb, ◌==◌,
}
use tos_pool.Prelude.Int.{ℤ, pos, ◌+ℤ◌, int64, int64-id, int_laws}
use tos_pool.Prelude.Maps.{bytes_eq, bytes_Eq, beq_self}
use tos_pool.Policy.State.{PolicyServer}
use tos_pool.Policy.Tables.{Float32}
use tos_pool.Config.{Floats, MiningConfig, ValidationConfig}
use tos_pool.Stratum.Session.{Job, Share, Session, Value, StratumRequest}
use tos_pool.Stratum.Vardiff.{
  Clock, Settings, should_skip_validation, share_of, is_current, new_difficulty, string_at,
  nonce_of,
}
use tos_pool.Stratum.Handlers.{
  Link, reward_by, reward, reset_vardiff, check_vardiff, accept_share, submit_for, handle_submit,
}

add_one : (t : ℕ) → pos t +ℤ pos 1 ≡ pos (suc t)
add_one t = grind (int_laws)

module _ {F G : Type 0} (l : Link F G) where
  -- The trust, the authorization and the shares are those of `l`.
  abbrev Keeps : Link F G → Type 0
  Keeps l' =
      (l'.session.trust_score ≡ l.session.trust_score)
      × ((l'.session.authorized ≡ l.session.authorized) × (l'.shares ≡ l.shares))

  check_vardiff-Keeps :
      (fl : Floats F) (cfg : MiningConfig F) (k : Clock) → Keeps (check_vardiff fl cfg k l)
  unfolding check_vardiff
  check_vardiff-Keeps fl cfg k =
      let elapsed = k.since - l.session.vardiff_stats.last_retarget in
      let d = new_difficulty fl cfg l.session elapsed in
      if-elim Keeps (fl.less (fl.of_seconds elapsed) cfg.vardiff_retarget)
        (λ e. (refl, (refl, refl)))
        (λ e.
          if-elim (λ (x : Link F G). Keeps (reset_vardiff k x)) (d == l.session.difficulty)
            (λ e'. (refl, (refl, refl))) (λ e'. (refl, (refl, refl))))

  reward_by-Keeps :
      (f32 : Float32 G) (k : Clock) (p : Option (PolicyServer G)) → Keeps (reward_by f32 k l p)
  reward_by-Keeps f32 k none = (refl, (refl, refl))
  reward_by-Keeps f32 k (some p) = (refl, (refl, refl))

-- The share that a submission hands on.
abbrev pub handed_on :
    {F : Type 0} → ValidationConfig → Clock → Session → List (Value F) → Job → Share
handed_on v k s params job = record (share_of k s (string_at params 1) (nonce_of params)) {
  height = job.height;
  trust_score = s.trust_score;
  skip_validation = should_skip_validation v k.roll s.trust_score;
}

-- A submission for the job, of a form that is accepted.
abbrev pub Submits : {F : Type 0} → Job → StratumRequest F → Type 0
Submits job req = (4 ≤ length req.params) × (string_at req.params 1 ≡ job.id)

module _ {F G : Type 0} (fl : Floats F) (f32 : Float32 G) (cfg : Settings F) (job : Job) where
  abbrev Trusted : Link F G → Share → Link F G → Type 0
  Trusted l share l' =
      (l'.session.trust_score ≡ int64 (l.session.trust_score +ℤ pos 1))
      × ((l'.session.authorized ≡ l.session.authorized) × (l'.shares ≡ l.shares ++ (share ∷ [])))

  accept_share-Trusted :
      (k : Clock) (l : Link F G) (id : Value F) (share : Share)
      → Trusted l
          (record share {
            height = job.height;
            trust_score = l.session.trust_score;
            skip_validation = should_skip_validation cfg.validation k.roll l.session.trust_score;
          })
          (accept_share fl f32 cfg k l id share job)
  unfolding accept_share reward
  accept_share-Trusted k l id share =
      let counted : Link F G = record l {
        session = record l.session {
          vardiff_stats = record l.session.vardiff_stats {
            shares_since = int64 (l.session.vardiff_stats.shares_since +ℤ pos 1);
          };
          last_share = k.now;
        };
      } in
      let l1 = check_vardiff fl cfg.mining k counted in
      let (t, (a, x)) = check_vardiff-Keeps counted fl cfg.mining k in
      let l2 : Link F G = record l1 {
        session = record l1.session {
          valid_shares = (l1.session.valid_shares + 1) % 2 ^ 64;
          trust_score = int64 (l1.session.trust_score +ℤ pos 1);
        };
      } in
      let (t', (a', x')) = reward_by-Keeps l2 f32 k l2.policy in
      let hand : ℤ → Share = λ z. record share {
        height = job.height;
        trust_score = z;
        skip_validation = should_skip_validation cfg.validation k.roll z;
      } in
      (
        t' ∙ ap (λ z. int64 (z +ℤ pos 1)) t,
        (
          a' ∙ a,
          ap (λ y. y ++ (hand l1.session.trust_score ∷ [])) (x' ∙ x)
              ∙ ap (λ z. l.shares ++ (hand z ∷ [])) t,
        ),
      )

  pub handle_submit-Trusted :
      (k : Clock) (l : Link F G) (req : StratumRequest F)
      → l.session.authorized ≡ true
      → Submits job req
      → Trusted l
          (handed_on cfg.validation k l.session req.params job)
          (handle_submit fl f32 cfg k l req (some job))
  unfolding handle_submit
  handle_submit-Trusted k l req a (len, id) =
      let share = handed_on cfg.validation k l.session req.params job in
      let done =
        accept_share-Trusted k l req.id
          (share_of k l.session (string_at req.params 1) (nonce_of req.params)) in
      let same : bytes_eq job.id (string_at req.params 1) ≡ true = rw id (beq_self job.id) in
      let known : is_current (some job) (string_at req.params 1) ≡ some job = rw same refl in
      if-elim (Trusted l share) (not l.session.authorized) (λ e. absurd (ground (arith, a, e)))
        (λ e.
          if-elim (Trusted l share) (ltb (length req.params) 4)
            (λ e'. absurd (ground (arith, len, e')))
            (λ e'. subst (λ o. Trusted l share (submit_for fl f32 cfg k l req o)) (sym known) done))

  -- The submissions of a miner, one after the other.
  unfoldable pub submit_all : Link F G → List (Clock × StratumRequest F) → Link F G
  submit_all l [] = l
  submit_all l ((k, req) ∷ reqs) = submit_all (handle_submit fl f32 cfg k l req (some job)) reqs

  abbrev pub AllSubmit : List (Clock × StratumRequest F) → Type 0
  AllSubmit [] = Unit {0}
  AllSubmit ((k, req) ∷ reqs) = Submits job req × AllSubmit reqs

  pub submit_all-trust :
      (l : Link F G) (reqs : List (Clock × StratumRequest F)) (t : ℕ)
      → l.session.authorized ≡ true
      → AllSubmit reqs
      → l.session.trust_score ≡ pos t
      → t + length reqs < 2 ^ 63
      → let l' = submit_all l reqs in
        (l'.session.trust_score ≡ pos (t + length reqs)) × (l'.session.authorized ≡ true)
  unfolding submit_all
  submit_all-trust l [] t a h e small =
      let zero_more : t ≡ t + 0 = omega arith in (e ∙ ap pos zero_more, a)
  submit_all-trust l ((k, req) ∷ reqs) t a h e small =
      let (t', (a', x)) = handle_submit-Trusted k l req a h.0 in
      let next : int64 (pos t +ℤ pos 1) ≡ pos (suc t) =
        ap int64 (add_one t) ∙ int64-id (pos (suc t)) (omega arith, omega arith) in
      let (u, v) =
        submit_all-trust (handle_submit fl f32 cfg k l req (some job)) reqs (suc t) (a' ∙ a) h.1
          (t' ∙ ap (λ z. int64 (z +ℤ pos 1)) e ∙ next) (omega arith) in
      let count : suc t + length reqs ≡ t + suc (length reqs) = omega arith in (u ∙ ap pos count, v)
