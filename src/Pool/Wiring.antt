-- ===== src/Pool/Wiring.antt =====
-- The share callback and the job that is broadcast (cmd/tos-pool/main.go).
use tos_pool.Prelude.{true, []}
use tos_pool.Util.Hex.{bytes_to_hex_no_pre}
use tos_pool.Master.Jobs
use tos_pool.Master.Shares.{ShareSubmission}
use tos_pool.Stratum.Session

-- The submission that the callback makes of a share.
abbrev pub submission_of : Session.Share → ShareSubmission
submission_of share = record {
  address = share.address;
  worker = share.worker;
  job_id = share.job_id;
  nonce = share.nonce;
  difficulty = share.difficulty;
  height = share.height;
  trust_score = share.trust_score;
  skip_validation = share.skip_validation;
}

-- `CreatedAt` and `ParentHash` are left at their zero values.
abbrev pub stratum_job : Jobs.Job → Session.Job
stratum_job job = record {
  id = job.id;
  height = job.height;
  header_hash = bytes_to_hex_no_pre job.header_hash;
  parent_hash = [];
  target = bytes_to_hex_no_pre job.target;
  difficulty = job.difficulty;
  timestamp = job.timestamp;
  clean_jobs = true;
  created_at = 0;
}
