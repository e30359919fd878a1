-- ===== src/Master/Verdicts.antt =====
-- What the verdicts of processShare rest on (internal/master/master.go).
use tos_pool.Prelude.{
  ℕ, ◌≤◌, ◌<◌, ◌≡◌, refl, Bool, true, false, Option, none, some, List, ltb, leb, ◌&&◌, arith,
  if-elim,
}
use tos_pool.TosHash.Mix.{tos_hash}
use tos_pool.TosHash.Header.{hash_to_difficulty, verify_difficulty}
use tos_pool.Store.Redis.{Redis}
use tos_pool.Store.Data.{Codec}
use tos_pool.Util.Hex.{hex_to_bytes}
use tos_pool.Master.Jobs.{Job, Master}
use tos_pool.Master.Shares.{
  ShareSubmission, ShareResult, Found, found, missing, find_job, miner_work, Verdict, refused,
  passed, check_hash, validate, validate_found, judge, World, record_block, conclude, process_share,
}

module _ (blake3 : List ℕ → List ℕ) (m : Master) (share : ShareSubmission) where
  -- The share is for a job that the master knows, and its proof of work has this difficulty.
  abbrev pub Proves : ℕ → Type 0
  Proves difficulty =
      (job : Job) × ((nonce : List ℕ) × ((find_job m share.job_id ≡ found job)
          × ((hex_to_bytes share.nonce ≡ some nonce)
              × (verify_difficulty blake3 (miner_work job nonce) difficulty ≡ true))))

  abbrev pub Computed : Job → ℕ → List ℕ → Type 0
  Computed job actual hash =
      (nonce : List ℕ) × ((find_job m share.job_id ≡ found job)
        × ((hex_to_bytes share.nonce ≡ some nonce)
            × ((tos_hash blake3 (miner_work job nonce) ≡ some hash)
                × ((hash_to_difficulty hash ≡ actual) × (share.difficulty ≤ actual)))))

  abbrev pub Judged : Verdict → Type 0
  Judged (refused why) = Unit {0}
  Judged (passed job actual none) =
      (share.skip_validation ≡ true) × (share.difficulty < job.difficulty)
  Judged (passed job actual (some hash)) = Computed job actual hash

  check_hash-Judged :
      (job : Job) (nonce : List ℕ) (o : Option (List ℕ))
      → find_job m share.job_id ≡ found job
      → hex_to_bytes share.nonce ≡ some nonce
      → tos_hash blake3 (miner_work job nonce) ≡ o
      → Judged (check_hash blake3 share job o)
  check_hash-Judged job nonce none f x t = tt
  check_hash-Judged job nonce (some hash) f x t =
      if-elim Judged (ltb (hash_to_difficulty hash) share.difficulty) (λ e. tt)
        (λ e. (nonce, (f, (x, (t, (refl, ground arith))))))

  validate-Judged :
      (job : Job) (o : Option (List ℕ))
      → find_job m share.job_id ≡ found job
      → hex_to_bytes share.nonce ≡ o
      → Judged (validate blake3 share job o)
  unfolding validate
  validate-Judged job none f x = tt
  validate-Judged job (some nonce) f x =
      if-elim Judged (share.skip_validation && ltb share.difficulty job.difficulty)
        (λ e. (ground arith, ground arith))
        (λ e. check_hash-Judged job nonce (tos_hash blake3 (miner_work job nonce)) f x refl)

  validate_found-Judged :
      (o : Found) → find_job m share.job_id ≡ o → Judged (validate_found blake3 share o)
  validate_found-Judged (missing why) f = tt
  validate_found-Judged (found job) f = validate-Judged job (hex_to_bytes share.nonce) f refl

  judge-Judged : Judged (judge blake3 m share)
  unfolding judge
  judge-Judged = validate_found-Judged (find_job m share.job_id) refl

  Computed-Proves :
      (job : Job) (actual difficulty : ℕ) (hash : List ℕ)
      → Computed job actual hash
      → difficulty ≤ actual
      → Proves difficulty
  unfolding verify_difficulty
  Computed-Proves job actual difficulty hash (nonce, (f, (x, (t, (e, le))))) le' =
      (job, (nonce, (f, (x, rw (t, verify_difficulty) (rw e (ground arith))))))

module _ {S : Type 0} (r : Redis S) (c : Codec) (window : ℕ) (blake3 : List ℕ → List ℕ) (w : World)
    (s : S) (m : Master) (share : ShareSubmission) where
  conclude-valid :
      (v : Verdict)
      → Judged blake3 m share v
      → share.skip_validation ≡ false
      → (conclude r c window w s share v).1.valid ≡ true
      → Proves blake3 m share share.difficulty
  conclude-valid (refused why) j skip e = cc
  conclude-valid (passed job actual none) j skip e = absurd (ground (arith, j, skip))
  conclude-valid (passed job actual (some hash)) j skip e =
      Computed-Proves blake3 m share job actual share.difficulty hash j j.1.1.1.1.1

  -- A share that is not trusted is valid only if it is for a job that the master knows, its nonce
  -- decodes, and the hash of the work with the nonce has the difficulty of the share.
  pub process_share-valid :
      share.skip_validation ≡ false
      → (process_share r c window blake3 w s m share).1.valid ≡ true
      → Proves blake3 m share share.difficulty
  unfolding process_share
  process_share-valid skip e =
      conclude-valid (judge blake3 m share) (judge-Judged blake3 m share) skip e

  submitted-block :
      (s' : S) (job : Job) (hash : List ℕ) (actual : ℕ)
      → Computed blake3 m share job actual hash
      → job.difficulty ≤ actual
      → (j : Job) × ((find_job m share.job_id ≡ found j) × Proves blake3 m share j.difficulty)
  submitted-block s' job hash actual x le =
      (job, (x.1.0, Computed-Proves blake3 m share job actual job.difficulty hash x le))

  conclude-block :
      (v : Verdict)
      → Judged blake3 m share v
      → (conclude r c window w s share v).1.block ≡ true
      → (j : Job) × ((find_job m share.job_id ≡ found j) × Proves blake3 m share j.difficulty)
  conclude-block (refused why) j e = cc
  conclude-block (passed job actual none) j e = cc
  conclude-block (passed job actual (some hash)) j e =
      if-elim
        (λ (x : S × ShareResult).
          x.1.block ≡ true
          → (j : Job) × ((find_job m share.job_id ≡ found j) × Proves blake3 m share j.difficulty))
        (leb job.difficulty actual)
        (λ t e'. submitted-block s job hash actual j (ground (arith, t))) (λ t e'. cc) e

  record_block-valid :
      (s' : S) (job : Job) (hash : List ℕ) (o : Option Bool)
      → (record_block r c window w s' share job hash o).1.valid ≡ true
  unfolding record_block
  record_block-valid s' job hash none = refl
  record_block-valid s' job hash (some success) = refl

  -- A share is reported as a block only if it is for a job that the master knows and the hash of
  -- the work with its nonce has the difficulty of that job, whether or not the miner is trusted.
  pub process_share-block :
      (process_share r c window blake3 w s m share).1.block ≡ true
      → (j : Job) × ((find_job m share.job_id ≡ found j) × Proves blake3 m share j.difficulty)
  unfolding process_share
  process_share-block e = conclude-block (judge blake3 m share) (judge-Judged blake3 m share) e

  conclude-refused :
      (v : Verdict)
      → (conclude r c window w s share v).1.valid ≡ false
      → (conclude r c window w s share v).0 ≡ s
  conclude-refused (refused why) e = refl
  conclude-refused (passed job actual none) e = cc
  conclude-refused (passed job actual (some hash)) e =
      if-elim (λ (x : S × ShareResult). x.1.valid ≡ false → x.0 ≡ s) (leb job.difficulty actual)
        (λ t e'. cc (record_block-valid _ job hash w.submitted)) (λ t e'. cc) e

  -- A share that is refused leaves the store as it was.
  process_share-refused :
      (process_share r c window blake3 w s m share).1.valid ≡ false
      → (process_share r c window blake3 w s m share).0 ≡ s
  unfolding process_share
  process_share-refused e = conclude-refused (judge blake3 m share) e
