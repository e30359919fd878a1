-- ===== src/Store/Blocks.antt =====
-- Shares and blocks (WriteShare, WriteBlock, the moves of a block, internal/storage/redis.go).
-- Each round trip to the server has a flag that tells whether it went well: `read` for a query and
-- `sent` for a pipeline; a method returns the store and whether its error is nil.
use tos_pool.Prelude.{
  ℕ, ◌+◌, ◌%◌, ◌^◌, Bool, true, false, not, Option, none, some, List, [], ◌∷◌, ◌++◌, take,
  if◌then◌else◌,
}
use tos_pool.Prelude.Int.{pos}
use tos_pool.Prelude.Maps.{Bytes, codes, bytes_eq}
use tos_pool.Store.Redis.{
  Command, hincr_by, hset, zadd, zrem, zincr_by, expire, del, Redis, pipeline,
}
use tos_pool.Store.Data.{
  Block, BlockStatus, matured, Share, Codec, Float64, decimal, digits, signed, minus, key_stats,
  key_finders, key_hashrate, key_hashrate_addr, key_shares_round, key_shares_round_block,
  key_candidates, key_immature, key_matured, key_miner, key_miner_workers,
}

-- The shares of the round, and their sum as a uint64.
abbrev pub round_shares : Codec → List (Bytes × Bytes) → List (Bytes × ℕ)
round_shares c [] = []
round_shares c ((addr, count) ∷ m) = (addr, c.parse_uint count) ∷ round_shares c m

abbrev pub total_shares : List (Bytes × ℕ) → ℕ
total_shares [] = 0
total_shares ((addr, n) ∷ m) = (n + total_shares m) % 2 ^ 64

abbrev pub archive : Bytes → List (Bytes × Bytes) → List Command
archive round_key [] = []
archive round_key ((addr, count) ∷ m) = hset round_key addr count ∷ archive round_key m

-- The first member that decodes to a block with this hash, as the command that removes it.
unfoldable pub remove_block : Codec → Bytes → Bytes → List Bytes → List Command
remove_block c set hash [] = []
remove_block c set hash (m ∷ ms) =
    let rest = remove_block c set hash ms in
    elim (c.unmarshal_block m) [
      | none ↦ rest
      | some b ↦ if bytes_eq b.hash hash then zrem set m ∷ [] else rest
    ]

module _ {F : Type 0} where
  -- What a miner with `shares` of the round gets of the block's reward.
  unfoldable pub miner_reward : Float64 F → Block → ℕ → ℕ
  miner_reward fl block shares = fl.to_uint64 (
      fl.divide (fl.times (fl.of_uint64 block.reward) (fl.of_uint64 shares))
        (fl.of_uint64 block.round_shares))

  -- The loops that credit and that move the rewards of a block's miners.
  unfoldable pub credit_immature : Float64 F → Block → List (Bytes × ℕ) → List Command
  credit_immature fl block [] = []
  credit_immature fl block ((addr, n) ∷ m) =
      hincr_by (key_miner addr) (codes "immature") (signed (miner_reward fl block n))
      ∷ credit_immature fl block m

  unfoldable pub mature_rewards : Float64 F → Block → List (Bytes × ℕ) → List Command
  mature_rewards fl block [] = []
  mature_rewards fl block ((addr, n) ∷ m) =
      hincr_by (key_miner addr) (codes "immature") (minus (miner_reward fl block n))
      ∷ hincr_by (key_miner addr) (codes "balance") (signed (miner_reward fl block n))
      ∷ mature_rewards fl block m

  unfoldable pub debit_immature : Float64 F → Block → List (Bytes × ℕ) → List Command
  debit_immature fl block [] = []
  debit_immature fl block ((addr, n) ∷ m) =
      hincr_by (key_miner addr) (codes "immature") (minus (miner_reward fl block n))
      ∷ debit_immature fl block m

unfoldable pub decode_blocks : Codec → List Bytes → List Block
decode_blocks c [] = []
decode_blocks c (m ∷ ms) =
    let rest = decode_blocks c ms in elim (c.unmarshal_block m) [ none ↦ rest | some b ↦ b ∷ rest ]

module _ {S : Type 0} (r : Redis S) where
  -- `now` is in seconds and `ms` in milliseconds; `window` is the expiration.
  unfoldable pub write_share : S → Share → ℕ → ℕ → ℕ → Bool → S × Bool
  unfolding digits
  write_share s share window now ms sent =
      let mem =
        decimal share.difficulty
        ++ codes ":"
        ++ share.address
        ++ codes ":"
        ++ share.worker
        ++ codes ":"
        ++ decimal ms in
      pipeline r sent s (
        hincr_by key_shares_round share.address (signed share.difficulty)
        ∷ zadd key_hashrate now mem
        ∷ zadd (key_hashrate_addr share.address) now mem
        ∷ expire (key_hashrate_addr share.address) window
        ∷ hset (key_miner share.address) (codes "lastShare") (decimal now)
        ∷ hset (key_miner_workers share.address) share.worker (decimal now)
        ∷ [])

  -- The block that `WriteBlock` stores.
  abbrev pub with_round : Codec → Block → List (Bytes × Bytes) → Block
  with_round c block round =
      let shares = round_shares c round in
      record block { shares = shares; round_shares = total_shares shares }

  -- The block's hash has at least 16 bytes, as the source's slice needs.
  unfoldable pub write_block : Codec → S → Block → ℕ → Bool → Bool → S × Bool
  unfolding digits
  write_block c s block now read sent =
      if not read
      then (s, false)
      else let round = r.hgetall s key_shares_round in
        let stored = with_round c block round in
        pipeline r sent s (
          zadd key_candidates block.height (c.marshal_block stored)
            ∷ archive (key_shares_round_block block.height (take 16 block.hash)) round
          ++ (del key_shares_round
              ∷ zincr_by key_finders 1 block.finder
              ∷ hset key_stats (codes "lastBlockFound") (decimal now)
              ∷ hset key_stats (codes "lastBlockHeight") (decimal block.height)
              ∷ hincr_by key_stats (codes "blocksFound") (pos 1)
              ∷ hincr_by (key_miner block.finder) (codes "blocksFound") (pos 1)
              ∷ []))

  -- `none` is an error.
  unfoldable pub get_candidate_blocks : Codec → S → Bool → Option (List Block)
  get_candidate_blocks c s read =
      if read then some (decode_blocks c (r.zrange s key_candidates)) else none

  unfoldable pub get_immature_blocks : Codec → S → Bool → Option (List Block)
  get_immature_blocks c s read =
      if read then some (decode_blocks c (r.zrange s key_immature)) else none

module _ {S F : Type 0} (r : Redis S) (c : Codec) (fl : Float64 F) where
  unfoldable pub move_block_to_immature : S → Block → Bool → Bool → S × Bool
  move_block_to_immature s block read sent =
      if not read
      then (s, false)
      else let moved = record block { status = BlockStatus.immature } in
        pipeline r sent s (
          remove_block c key_candidates block.hash (r.zrange s key_candidates)
          ++ (zadd key_immature block.height (c.marshal_block moved)
              ∷ credit_immature fl block block.shares))

  unfoldable pub move_block_to_matured : S → Block → Bool → Bool → S × Bool
  move_block_to_matured s block read sent =
      if not read
      then (s, false)
      else let moved = record block { status = matured } in
        pipeline r sent s (
          remove_block c key_immature block.hash (r.zrange s key_immature)
          ++ (zadd key_matured block.height (c.marshal_block moved)
              ∷ mature_rewards fl block block.shares))

  -- One round of the loop over the two sets: `none` if the block was not in this one. `read`
  -- and `removed` tell whether the query and the removal went well; both errors are ignored.
  unfoldable pub remove_orphan_from :
      Bytes → List Command → S → Block → Bool → Bool → Bool → Option S
  remove_orphan_from set debits s block read removed sent =
      if not read then none else elim (remove_block c set block.hash (r.zrange s set)) [
        | [] ↦ none
        | (x ∷ xs) ↦ some (pipeline r sent (pipeline r removed s (x ∷ xs)).0 debits).0
      ]

  -- The flags are those of the candidates and those of the immature blocks. The result is always
  -- a nil error.
  unfoldable pub remove_orphan_block : S → Block → Bool × Bool → Bool × (Bool × Bool) → S
  unfolding remove_orphan_from
  remove_orphan_block s block (read, removed) (read', (removed', sent)) =
      elim (remove_orphan_from key_candidates [] s block read removed true) [
        | some s' ↦ s'
        | none ↦
            elim (remove_orphan_from key_immature (debit_immature fl block block.shares) s block
              read' removed' sent) [ some s' ↦ s' | none ↦ s ]
      ]
