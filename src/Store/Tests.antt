-- ===== src/Store/Tests.antt =====
-- Runs of the store in memory, and each theorem at a concrete input.
use tos_pool.Prelude.{ℕ, ◌*◌, ◌/◌, ◌≡◌, refl, true, none, some, [], ◌∷◌, arith, if◌then◌else◌, ◌==◌}
use tos_pool.Prelude.Int.{pos, neg, ◌+ℤ◌}
use tos_pool.Prelude.Maps.{codes, bytes_Eq}
use tos_pool.Store.Data.{
  Block, candidate, Codec, Float64, decimal, digits, key_miner, key_candidates,
}
use tos_pool.Store.Blocks.{miner_reward, move_block_to_immature, move_block_to_matured}
use tos_pool.Store.Maturity.{
  move_block_to_immature-move_block_to_matured, move_block_to_matured-repeated,
}
use tos_pool.Store.Memory.{Memory, memory, memory-IsRedis}

-- Whole numbers in the place of floats.
abbrev whole : Float64 ℕ
whole = record {
  of_uint64 = λ n. n;
  times = λ a b. a * b;
  divide = λ a b. if b == 0 then 0 else a / b;
  to_uint64 = λ n. n;
}

abbrev block : Block
block = record {
  height = 7;
  hash = codes "ab";
  parent_hash = [];
  nonce = [];
  difficulty = 1;
  total_diff = [];
  reward = 100;
  timestamp = pos 0;
  finder = codes "x";
  worker = [];
  round_shares = 4;
  round_height = 7;
  status = candidate;
  confirmations = 0;
  shares = (codes "x", 3) ∷ (codes "y", 1) ∷ [];
}

-- Every member decodes to the one block.
abbrev codec : Codec
codec = record {
  marshal_block = λ b. b.hash;
  unmarshal_block = λ m. some block;
  marshal_payment = λ p. p.tx_hash;
  unmarshal_payment = λ m. none;
  marshal_debt = λ d. d.reason;
  parse_uint = λ m. 0;
}

abbrev start : Memory
start = record { fields = λ k f. pos 10; numbers = λ k. pos 0; sets = λ k. codes "ab" ∷ [] }

decimal_example : decimal 1_024 ≡ codes "1024"
unfolding digits
decimal_example = refl

reward_x : miner_reward whole block 3 ≡ 75
unfolding miner_reward
reward_x = refl

move_block_to_immature-move_block_to_matured_example :
    let s1 = (move_block_to_immature memory codec whole start block true true).0 in
    let s2 = (move_block_to_matured memory codec whole s1 block true true).0 in
    (memory.field s2 (key_miner (codes "x")) (codes "immature") ≡ pos 10)
    × (memory.field s2 (key_miner (codes "x")) (codes "balance")
        ≡ pos 10 +ℤ pos (miner_reward whole block 3))
unfolding miner_reward ◌+ℤ◌
move_block_to_immature-move_block_to_matured_example =
    move_block_to_immature-move_block_to_matured memory memory-IsRedis codec whole block (codes "x")
      3 (refl, (refl, tt)) refl (omega arith) start (omega arith, omega arith)
      (omega arith, omega arith) (omega arith, omega arith)

move_block_to_matured-repeated_example :
    let w = pos (miner_reward whole block 3) in
    let s1 = (move_block_to_matured memory codec whole start block true true).0 in
    let s2 = (move_block_to_matured memory codec whole s1 block true true).0 in
    (memory.zrange s1 key_candidates ≡ codes "ab" ∷ [])
    × ((memory.field s2 (key_miner (codes "x")) (codes "balance") ≡ (pos 10 +ℤ w) +ℤ w)
        × (memory.field s2 (key_miner (codes "x")) (codes "immature") ≡ (pos 10 +ℤ neg w) +ℤ neg w))
unfolding miner_reward ◌+ℤ◌
move_block_to_matured-repeated_example =
    move_block_to_matured-repeated memory memory-IsRedis codec whole block (codes "x") 3 start
      (refl, (refl, tt)) refl (omega arith) (omega arith, omega arith) (omega arith, omega arith)
      (omega arith, omega arith) (omega arith, omega arith)
