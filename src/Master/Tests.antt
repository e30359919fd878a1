-- ===== src/Master/Tests.antt =====
-- Jobs and shares over the store in memory, and each theorem at a concrete input.
use tos_pool.Prelude.{◌*◌, ◌∷◌, ℕ, ◌≡◌, refl, true, false, none, some, List, [], arith, replicate}
use tos_pool.Prelude.Int.{pos}
use tos_pool.Prelude.Maps.{codes, bytes_eq_iff, bytes_Eq}
use tos_pool.TosHash.Mix.{tos_hash, stage4_finalize}
use tos_pool.TosHash.Header.{hash_to_difficulty, big_endian}
use tos_pool.Store.Data.{Block, BlockStatus, Float64, Codec}
use tos_pool.Store.Blocks.{move_block_to_matured}
use tos_pool.Config.{UnlockerConfig}
use tos_pool.Master.Unlocking.{Chain, Calls, decide, becomes_immature, process_immature}
use tos_pool.Master.Maturing.{Justified, decide-Justified, process_immature-above}
use tos_pool.Store.Memory.{Memory, memory}
use tos_pool.Util.Hex.{hex_to_bytes, decode_string, hex_digit}
use tos_pool.Master.Jobs.{Job, Master, install}
use tos_pool.Master.Shares.{
  ShareSubmission, World, found, find_job, miner_work, validate, judge, record_block, process_share,
}
use tos_pool.Master.Verdicts.{Proves, process_share-valid, process_share-block}
use tos_pool.Master.Backlog.{install-find_job}

-- A stand-in for blake3, whose hashes all have the difficulty 255.
abbrev constant : List ℕ → List ℕ
constant x = replicate 32 1

abbrev codec : Codec
codec = record {
  marshal_block = λ b. b.hash;
  unmarshal_block = λ m. none;
  marshal_payment = λ p. p.tx_hash;
  unmarshal_payment = λ m. none;
  marshal_debt = λ d. d.reason;
  parse_uint = λ m. 0;
}

abbrev start : Memory
start = record { fields = λ k f. pos 0; numbers = λ k. pos 0; sets = λ k. [] }

abbrev job : Job
job = record {
  id = codes "a";
  height = 9;
  header_hash = replicate 112 0;
  original_header = [];
  target = [];
  difficulty = 200;
  timestamp = 1;
  created_at = 1;
}

abbrev master : Master
master = record {
  current_job = some job;
  current_height = 9;
  current_diff = 200;
  job_backlog = [];
  signalled = false;
}

abbrev share : ShareSubmission
share = record {
  address = codes "tos1_first_miner_address";
  worker = codes "w";
  job_id = codes "a";
  nonce = codes "0011223344556677";
  difficulty = 100;
  height = 9;
  trust_score = pos 0;
  skip_validation = false;
}

abbrev late : ShareSubmission
late = record share { job_id = codes "b" }

abbrev world : World
world = record {
  now = 10;
  ms = 10_000;
  share_sent = true;
  block_read = true;
  block_sent = true;
  submitted = some false;
}

process_share-valid_example : Proves constant master share 100
unfolding process_share judge find_job validate hex_to_bytes decode_string hex_digit tos_hash
    miner_work hash_to_difficulty big_endian record_block stage4_finalize
process_share-valid_example =
    process_share-valid memory codec 600 constant world start master share refl refl

process_share-block_example :
    (j : Job) × ((find_job master (codes "a") ≡ found j)
      × Proves constant master share j.difficulty)
unfolding process_share judge find_job validate hex_to_bytes decode_string hex_digit tos_hash
    miner_work hash_to_difficulty big_endian record_block stage4_finalize
process_share-block_example =
    process_share-block memory codec 600 constant world start master share refl

install-find_job_example :
    find_job (install master (record job { id = codes "b"; height = 12 })) (codes "a") ≡ found job
unfolding find_job
install-find_job_example =
    install-find_job master (record job { id = codes "b"; height = 12 }) job (codes "a") refl
      (λ p. cc ((bytes_eq_iff (codes "a") (codes "b")).1 p)) (omega arith)

abbrev unlocker : UnlockerConfig
unlocker = record { enabled = true; interval = 60; immature_depth = 10; mature_depth = 100 }

abbrev mined : Block
mined = record {
  height = 500;
  hash = codes "h";
  parent_hash = [];
  nonce = [];
  difficulty = 200;
  total_diff = [];
  reward = 0;
  timestamp = pos 0;
  finder = codes "tos1_first_miner_address";
  worker = codes "w";
  round_shares = 10;
  round_height = 0;
  status = BlockStatus.candidate;
  confirmations = 0;
  shares = (codes "tos1_first_miner_address", 10) ∷ [];
}

-- A node at height 550 that has the block, with a reward of 40 and fees of 2.
abbrev chain : Chain
chain = record {
  height = some 550;
  block_by_number =
      λ h. some (some (record { miner = codes "tos1_first_miner_address"; reward = 40 }));
  block_tx_fees = λ h. some 2;
}

abbrev calls : Calls
calls = record {
  candidates_read = true;
  immature_read = true;
  to_immature = λ b. (true, true);
  to_matured = λ b. (true, true);
  immature_to_matured = λ b. (true, true);
  orphan = λ b. ((true, true), (true, (true, true)));
}

abbrev whole : Float64 ℕ
whole = record { of_uint64 = λ n. n; times = λ a b. a * b; divide = λ a b. a; to_uint64 = λ n. n }

mined_immature : decide unlocker 550 chain mined ≡ becomes_immature (record mined { reward = 42 })
unfolding decide
mined_immature = refl

decide-Justified_example : Justified unlocker 550 chain mined (decide unlocker 550 chain mined)
decide-Justified_example = decide-Justified unlocker 550 chain mined (omega arith) (omega arith)

process_immature-above_example :
    process_immature memory codec whole calls unlocker 499 chain start (mined ∷ [])
    ≡ process_immature memory codec whole calls unlocker 499 chain
        (move_block_to_matured memory codec whole start mined true true).0
        []
process_immature-above_example =
    process_immature-above memory codec whole calls unlocker 499 chain start mined [] (omega arith)
      (omega arith) (omega arith)
