-- ===== src/Pool/Unproven.antt =====
-- Trust without work: shares of the mining server in the master (internal/slave/stratum.go,
-- cmd/tos-pool/main.go, internal/master/master.go).
use tos_pool.Prelude.{
  ℕ, ◌+◌, ◌<◌, ◌^◌, ◌≤◌, ◌≡◌, refl, ap, ◌∙◌, true, none, some, List, [], ◌∷◌, ◌++◌, arith, length,
  ltb, ◌&&◌,
}
use tos_pool.Prelude.Int.{pos, ◌≤ℤ◌}
use tos_pool.Policy.Tables.{Float32}
use tos_pool.Config.{Floats, ValidationConfig}
use tos_pool.Store.Redis.{Redis}
use tos_pool.Store.Data.{Codec}
use tos_pool.Util.Hex.{hex_to_bytes}
use tos_pool.Master.Jobs.{Master}
use tos_pool.Master.Jobs
use tos_pool.Master.Shares.{
  ShareSubmission, found, find_job, passed, validate, validate_found, judge, World, conclude,
  process_share,
}
use tos_pool.Stratum.Session.{Job, StratumRequest}
use tos_pool.Stratum.Vardiff.{Clock, Settings, should_skip_validation, nonce_of}
use tos_pool.Stratum.Handlers.{Link, handle_submit}
use tos_pool.Stratum.Trust.{
  Submits, AllSubmit, handed_on, handle_submit-Trusted, submit_all, submit_all-trust,
}
use tos_pool.Pool.Wiring.{submission_of}

skips :
    (v : ValidationConfig) (roll n : ℕ) (t : ℕ)
    → v.trust_threshold ≡ pos n
    → 0 < n
    → n ≤ t
    → v.trust_check_percent ≤ℤ pos 0
    → should_skip_validation v roll (pos t) ≡ true
unfolding should_skip_validation
skips v roll n t e p q h = ground (arith, e)

-- A share that skips validation, for a known job that is harder, passes with no look at its hash.
trusted_judge :
    (blake3 : List ℕ → List ℕ) (m : Master) (share : ShareSubmission) (job : Jobs.Job)
    (nonce : List ℕ)
    → find_job m share.job_id ≡ found job
    → hex_to_bytes share.nonce ≡ some nonce
    → share.skip_validation ≡ true
    → share.difficulty < job.difficulty
    → judge blake3 m share ≡ passed job share.difficulty none
unfolding judge validate
trusted_judge blake3 m share job nonce f x skip low =
    let test : (share.skip_validation && ltb share.difficulty job.difficulty) ≡ true =
      ground (arith, skip) in
    ap (validate_found blake3 share) f ∙ ap (validate blake3 share job) x ∙ rw test refl

trusted_valid :
    {S : Type 0} (r : Redis S) (c : Codec) (window : ℕ) (blake3 : List ℕ → List ℕ) (w : World)
    (s : S) (m : Master) (share : ShareSubmission) (job : Jobs.Job) (actual : ℕ)
    → judge blake3 m share ≡ passed job actual none
    → (process_share r c window blake3 w s m share).1.valid ≡ true
unfolding process_share
trusted_valid r c window blake3 w s m share job actual e =
    ap (λ v. (conclude r c window w s share v).1.valid) e

-- With a trust threshold above 0 and a check percentage of at most 0: after as many submissions for
-- the current job as the threshold asks, whatever their nonces and whatever the master said of
-- them, the next submission whose nonce decodes is handed on and the master finds it valid, with
-- any hash function, if the difficulty of the session is below that of the job.
pub submit_all-process_share :
    {F G S : Type 0} (fl : Floats F) (f32 : Float32 G) (cfg : Settings F) (job : Job) (l : Link F G)
    (reqs : List (Clock × StratumRequest F)) (k : Clock) (req : StratumRequest F) (r : Redis S)
    (c : Codec) (window : ℕ) (blake3 : List ℕ → List ℕ) (w : World) (s : S) (m : Master)
    (known : Jobs.Job) (nonce : List ℕ)
    → l.session.authorized ≡ true
    → l.session.trust_score ≡ pos 0
    → AllSubmit fl f32 cfg job reqs
    → Submits job req
    → 0 < length reqs
    → length reqs < 2 ^ 63
    → cfg.validation.trust_threshold ≡ pos (length reqs)
    → cfg.validation.trust_check_percent ≤ℤ pos 0
    → find_job m job.id ≡ found known
    → hex_to_bytes (nonce_of req.params) ≡ some nonce
    → let l1 = submit_all fl f32 cfg job l reqs in
      l1.session.difficulty < known.difficulty
      → let share = handed_on cfg.validation k l1.session req.params job in
        ((handle_submit fl f32 cfg k l1 req (some job)).shares ≡ l1.shares ++ (share ∷ []))
        × ((process_share r c window blake3 w s m (submission_of share)).1.valid ≡ true)
submit_all-process_share fl f32 cfg job l reqs k req r c window blake3 w s m known nonce a t all sub
      some_reqs fit th pc f x low =
    let l1 = submit_all fl f32 cfg job l reqs in
    let (trust, authorized) = submit_all-trust fl f32 cfg job l reqs 0 a all t (omega arith) in
    let share = handed_on cfg.validation k l1.session req.params job in
    let skip : share.skip_validation ≡ true =
      ap (should_skip_validation cfg.validation k.roll) trust
      ∙ skips cfg.validation k.roll (length reqs) (0 + length reqs) th some_reqs (omega arith) pc in
    (
      (handle_submit-Trusted fl f32 cfg job k l1 req authorized sub).1.1,
      trusted_valid r c window blake3 w s m (submission_of share) known share.difficulty (
          trusted_judge blake3 m (submission_of share) known nonce (ap (find_job m) sub.1 ∙ f) x
            skip low),
    )
