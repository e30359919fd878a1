-- ===== src/Master/Shares.antt =====
-- `processShare` of internal/master/master.go, over the store. Its log lines slice the first 12 or
-- 16 bytes of the share's address and would stop the program at a shorter one, which is not
-- modelled: every server takes an address only if it is valid, so of 63 bytes.
use tos_pool.Prelude.{
  ℕ, Bool, true, false, Option, none, some, List, [], ltb, leb, ◌&&◌, if◌then◌else◌, replicate,
}
use tos_pool.Prelude.Int.{ℤ, pos}
use tos_pool.Prelude.Maps.{Bytes, bytes_eq, bytes_Eq, lookup}
use tos_pool.TosHash.Mix.{tos_hash, input_size, nonce_offset}
use tos_pool.TosHash.Header.{hash_to_difficulty, copy_into}
use tos_pool.Store.Redis.{Redis}
use tos_pool.Store.Data.{Share, Block, BlockStatus, Codec}
use tos_pool.Store.Blocks.{write_share, write_block}
use tos_pool.Util.Hex.{hex_to_bytes, bytes_to_hex, bytes_to_hex_no_pre}
use tos_pool.Master.Jobs.{Job, Master}

pub record ShareSubmission : Type 0 where
  pub address : Bytes
  pub worker : Bytes
  pub job_id : Bytes
  pub nonce : Bytes
  pub difficulty : ℕ
  pub height : ℕ
  pub trust_score : ℤ
  pub skip_validation : Bool

pub data Message : Type 0 where
  no_active_job stale_job invalid_nonce hash_failed low_difficulty : Message
  submission_failed block_found share_accepted : Message

pub record ShareResult : Type 0 where
  pub valid : Bool
  pub block : Bool
  pub message : Message

-- The job of a share, or why there is none.
pub data Found : Type 0 where
  found : Job → Found
  missing : Message → Found

abbrev pub from_backlog : Option Job → Found
from_backlog none = missing stale_job
from_backlog (some job) = found job

abbrev pub find_in : Option Job → List (Bytes × Job) → Bytes → Found
find_in none backlog id = missing no_active_job
find_in (some job) backlog id =
    if bytes_eq id job.id then found job else from_backlog (lookup id backlog)

unfoldable pub find_job : Master → Bytes → Found
find_job m id = find_in m.current_job m.job_backlog id

-- MinerWork with the nonce.
unfoldable pub miner_work : Job → List ℕ → List ℕ
miner_work job nonce =
    copy_into (copy_into (replicate input_size 0) 0 input_size job.header_hash) nonce_offset 8 nonce

-- A share that is refused, or the difficulty that it has, with the hash where it was computed.
pub data Verdict : Type 0 where
  refused : Message → Verdict
  passed : Job → ℕ → Option (List ℕ) → Verdict

module _ (blake3 : List ℕ → List ℕ) where
  abbrev pub check_hash : ShareSubmission → Job → Option (List ℕ) → Verdict
  check_hash share job none = refused hash_failed
  check_hash share job (some hash) =
      if ltb (hash_to_difficulty hash) share.difficulty
      then refused low_difficulty
      else passed job (hash_to_difficulty hash) (some hash)

  -- The choice between trust and full validation, for a decoded nonce.
  unfoldable pub validate : ShareSubmission → Job → Option (List ℕ) → Verdict
  validate share job none = refused invalid_nonce
  validate share job (some nonce) =
      if share.skip_validation && ltb share.difficulty job.difficulty
      then passed job share.difficulty none
      else check_hash share job (tos_hash blake3 (miner_work job nonce))

  abbrev pub validate_found : ShareSubmission → Found → Verdict
  validate_found share (missing why) = refused why
  validate_found share (found job) = validate share job (hex_to_bytes share.nonce)

  unfoldable pub judge : Master → ShareSubmission → Verdict
  judge m share = validate_found share (find_job m share.job_id)

abbrev pub hash_str : Option (List ℕ) → Bytes
hash_str none = []
hash_str (some hash) = bytes_to_hex hash

abbrev pub db_share : ShareSubmission → Job → Option (List ℕ) → ℕ → Share
db_share share job hash now = record {
  address = share.address;
  worker = share.worker;
  job_id = share.job_id;
  nonce = share.nonce;
  hash = hash_str hash;
  difficulty = share.difficulty;
  height = job.height;
  timestamp = pos now;
  valid = true;
  block_hash = [];
}

abbrev pub found_block : ShareSubmission → Job → List ℕ → ℕ → Block
found_block share job hash now = record {
  height = job.height;
  hash = bytes_to_hex_no_pre hash;
  parent_hash = [];
  nonce = share.nonce;
  difficulty = job.difficulty;
  total_diff = [];
  reward = 0;
  timestamp = pos now;
  finder = share.address;
  worker = share.worker;
  round_shares = 0;
  round_height = 0;
  status = BlockStatus.candidate;
  confirmations = 0;
  shares = [];
}

-- The outside world as one share sees it: the clock in seconds and milliseconds, the flags of the
-- store, and the node's answer to the block, `none` if there is no upstream.
pub record World : Type 0 where
  pub now : ℕ
  pub ms : ℕ
  pub share_sent : Bool
  pub block_read : Bool
  pub block_sent : Bool
  pub submitted : Option Bool

module _ {S : Type 0} (r : Redis S) (c : Codec) (hashrate_window : ℕ) where
  -- The record of a block; `s` is the store after the share, and the last argument the node's
  -- answer.
  unfoldable pub record_block :
      World → S → ShareSubmission → Job → List ℕ → Option Bool → S × ShareResult
  record_block w s share job hash none =
      (s, record { valid = true; block = true; message = submission_failed })
  record_block w s share job hash (some success) = (
    if success
        then (write_block r c s (found_block share job hash w.now) w.now w.block_read
            w.block_sent).0
        else s,
    record { valid = true; block = true; message = block_found },
  )

  abbrev pub conclude : World → S → ShareSubmission → Verdict → S × ShareResult
  conclude w s share (refused why) = (s, record { valid = false; block = false; message = why })
  conclude w s share (passed job actual none) = (
    (write_share r s (db_share share job none w.now) hashrate_window w.now w.ms w.share_sent).0,
    record { valid = true; block = false; message = share_accepted },
  )
  conclude w s share (passed job actual (some hash)) =
      let s' =
        (write_share r s (db_share share job (some hash) w.now) hashrate_window w.now w.ms
          w.share_sent).0 in
      if leb job.difficulty actual
      then record_block w s' share job hash w.submitted
      else (s', record { valid = true; block = false; message = share_accepted })

  unfoldable pub process_share :
      (List ℕ → List ℕ) → World → S → Master → ShareSubmission → S × ShareResult
  process_share blake3 w s m share = conclude w s share (judge blake3 m share)
