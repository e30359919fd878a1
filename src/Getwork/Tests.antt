-- ===== src/Getwork/Tests.antt =====
-- A login and a work on concrete input, and each theorem at a concrete input.
use tos_pool.Prelude.{ℕ, ◌≡◌, refl, true, false, none, some, List, [], ◌∷◌, ◌++◌, replicate}
use tos_pool.Prelude.Int.{pos}
use tos_pool.Prelude.Maps.{Bytes, codes}
use tos_pool.TosHash.Mix.{tos_hash, stage4_finalize}
use tos_pool.TosHash.Header.{hash_to_difficulty, big_endian}
use tos_pool.Store.Data.{Codec}
use tos_pool.Store.Memory.{Memory, memory}
use tos_pool.Util.Hex.{hex_to_bytes, bytes_to_hex, decode_string, hex_digit}
use tos_pool.Config.{MiningConfig}
use tos_pool.Master.Jobs.{Job, Master}
use tos_pool.Master.Shares.{
  World, find_job, miner_work, validate, judge, record_block, process_share,
}
use tos_pool.Stratum.Session.{Value, text}
use tos_pool.Getwork.State.{GetworkServer, accepted}
use tos_pool.Getwork.Server.{getwork_header, handle_submit_work}
use tos_pool.Getwork.Accepted.{Earned, handle_submit_work-Earned}

-- A stand-in for blake3, whose hashes all have the difficulty 255.
abbrev constant : List ℕ → List ℕ
constant x = replicate 32 1

abbrev mining : MiningConfig ℕ
mining = record {
  initial_difficulty = 10;
  min_difficulty = 5;
  max_difficulty = 1000;
  vardiff_target_time = 4;
  vardiff_retarget = 90;
  vardiff_variance = 30;
  job_refresh_interval = 50;
}

abbrev codec : Codec
codec = record {
  marshal_block = λ b. b.hash;
  unmarshal_block = λ m. none;
  marshal_payment = λ p. p.tx_hash;
  unmarshal_payment = λ m. none;
  marshal_debt = λ d. d.reason;
  parse_uint = λ m. 0;
}

abbrev start : Memory
start = record { fields = λ k f. pos 0; numbers = λ k. pos 0; sets = λ k. [] }

abbrev job : Job
job = record {
  id = codes "a";
  height = 9;
  header_hash = replicate 112 0;
  original_header = [];
  target = [];
  difficulty = 2000;
  timestamp = 1;
  created_at = 1;
}

abbrev master : Master
master = record {
  current_job = some job;
  current_height = 9;
  current_diff = 2000;
  job_backlog = [];
  signalled = false;
}

abbrev world : World
world = record {
  now = 10;
  ms = 10_000;
  share_sent = true;
  block_read = true;
  block_sent = true;
  submitted = some false;
}

abbrev address : Bytes
address = codes "tos1" ++ replicate 59 b'q'

abbrev home : Bytes
home = codes "10.0.0.1:5000"

abbrev server : GetworkServer
server = record {
  current_work = none;
  sessions =
      (
        home,
        record {
          address = address;
          worker = codes "rig";
          last_seen = 0;
          difficulty = 100;
          shares = 0;
        },
      )
      ∷ [];
}

abbrev params : List (Value ℕ)
params = text (codes "0011223344556677") ∷ text (codes "a") ∷ text [] ∷ []

work_accepted :
    (handle_submit_work memory codec 600 constant mining 10 world server start master home
      params).1.1
    ≡ accepted
unfolding handle_submit_work getwork_header process_share judge find_job validate hex_to_bytes
    bytes_to_hex decode_string hex_digit tos_hash miner_work hash_to_difficulty big_endian
    record_block stage4_finalize
work_accepted = refl

handle_submit_work-Earned_example :
    Earned memory codec 600 constant world start master mining 10 server home params
handle_submit_work-Earned_example =
    handle_submit_work-Earned memory codec 600 constant world start master mining 10 server home
      params work_accepted
