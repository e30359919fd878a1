-- ===== src/Master/Jobs.antt =====
-- The current job and the backlog of jobs (refreshJob and pruneJobBacklog,
-- internal/master/master.go).
use tos_pool.Prelude.{
  ℕ, ◌-◌, Bool, true, false, ◌&&◌, Option, none, some, List, [], ◌∷◌, ltb, leb, ◌==◌, if◌then◌else◌,
  take, length,
}
use tos_pool.Prelude.Maps.{Bytes, bytes_Eq, insert}
use tos_pool.TosHash.Header.{ok, err, block_header_to_miner_work}
use tos_pool.Util.Hex.{hex_to_bytes, bytes_to_hex_no_pre}

-- `ParentHash` is set nowhere.
pub record Job : Type 0 where
  pub id : Bytes
  pub height : ℕ
  pub header_hash : List ℕ
  pub original_header : List ℕ
  pub target : List ℕ
  pub difficulty : ℕ
  pub timestamp : ℕ
  pub created_at : ℕ

-- What the node's `GetWork` gives.
pub record Template : Type 0 where
  pub header_hash : Bytes
  pub target : Bytes
  pub height : ℕ
  pub difficulty : ℕ
  pub timestamp : ℕ

-- The part of the master that the jobs are about; `signalled` tells whether the channel of job
-- updates, which has room for one, is full.
pub record Master : Type 0 where
  pub current_job : Option Job
  pub current_height : ℕ
  pub current_diff : ℕ
  pub job_backlog : List (Bytes × Job)
  pub signalled : Bool

abbrev pub max_job_backlog : ℕ
max_job_backlog = 3

abbrev pub min_height : ℕ → ℕ
min_height current = if ltb max_job_backlog current then current - max_job_backlog else 0

-- The loop that deletes the jobs under the height.
abbrev pub keep_from : ℕ → List (Bytes × Job) → List (Bytes × Job)
keep_from low [] = []
keep_from low ((id, job) ∷ m) =
    let rest = keep_from low m in if ltb job.height low then rest else (id, job) ∷ rest

unfoldable pub prune_job_backlog : Master → Master
prune_job_backlog m =
    if leb (length m.job_backlog) max_job_backlog
    then m
    else record m { job_backlog = keep_from (min_height m.current_height) m.job_backlog }

-- The current job goes to the backlog.
abbrev pub retire : Option Job → List (Bytes × Job) → List (Bytes × Job)
retire none m = m
retire (some job) m = insert job.id job m

-- The part under the lock, and the signal.
unfoldable pub install : Master → Job → Master
install m job =
    let m' = prune_job_backlog (record m {
      current_job = some job;
      current_height = job.height;
      current_diff = job.difficulty;
      job_backlog = retire m.current_job m.job_backlog;
    }) in
    record m' { signalled = true }

unfoldable pub make_job : Template → ℕ → List ℕ → List ℕ → List ℕ → Job
make_job t now target original miner_work = record {
  id = bytes_to_hex_no_pre (take 8 miner_work);
  height = t.height;
  header_hash = miner_work;
  original_header = original;
  target = target;
  difficulty = t.difficulty;
  timestamp = t.timestamp;
  created_at = now;
}

abbrev pub has_job : Option Job → Bool
has_job none = false
has_job (some job) = true

module _ (blake3 : List ℕ → List ℕ) where
  -- The steps that may fail, in order; `none` is an error.
  unfoldable pub job_of : Template → ℕ → Option Job
  job_of t now = elim (hex_to_bytes t.target) [
    | none ↦ none
    | some target ↦ elim (hex_to_bytes t.header_hash) [
      | none ↦ none
      | some original ↦ elim (block_header_to_miner_work blake3 original) [
        | err e ↦ none
        | ok miner_work ↦ some (make_job t now target original miner_work)
      ]
    ]
  ]

  abbrev pub installed : Master → Option Job → Master × Bool
  installed m none = (m, false)
  installed m (some job) = (install m job, true)

  -- `work` is the node's answer, `none` an error or no upstream. The result tells whether the error
  -- is nil. The calls of the upstream manager are left to it.
  unfoldable pub refresh_job : Master → Option Template → ℕ → Master × Bool
  refresh_job m none now = (m, false)
  refresh_job m (some t) now =
      if (t.height == m.current_height) && has_job m.current_job
      then (m, true)
      else installed m (job_of t now)
