-- ===== src/Master/Maturing.antt =====
-- When blocks mature (processBlocks, internal/master/master.go).
use tos_pool.Prelude.{
  ℕ, ◌+◌, ◌-◌, ◌^◌, ◌≤◌, ◌<◌, ◌≡◌, ◌≢◌, refl, ap, ◌∙◌, true, not, ◌||◌, length, Option, none, some,
  List, ◌∷◌, ltb, leb, if◌then◌else◌, if-elim, arith,
}
use tos_pool.Prelude.Maps.{bytes_eq, bytes_Eq, bytes_eq_iff, bytes_Eq}
use tos_pool.Store.Redis.{Redis}
use tos_pool.Store.Data.{Block, Codec, Float64}
use tos_pool.Store.Blocks.{move_block_to_matured}
use tos_pool.Config.{UnlockerConfig}
use tos_pool.Master.Unlocking.{
  BlockInfo, Chain, Calls, Decision, skipped, orphaned, waits, panicked, too_short, matures,
  becomes_immature, confirmations, add_fees, by_depth, with_info, decide, process_immature,
}

-- Of a block that is not above the current height, as uint64.
confirmations_below :
    (current height : ℕ)
    → height ≤ current
    → current < 2 ^ 64
    → confirmations current height ≡ current - height
confirmations_below current height h small = ground arith

confirmations_above :
    (current height : ℕ)
    → current < height
    → height < 2 ^ 64
    → confirmations current height ≡ 2 ^ 64 - (height - current)
confirmations_above current height h small = ground arith

module _ (cfg : UnlockerConfig) (current : ℕ) (node : Chain) (block : Block) where
  -- The node has a block of the finder at this height.
  abbrev pub Ours : BlockInfo → Type 0
  Ours found =
      (node.block_by_number block.height ≡ some (some found)) × (found.miner ≡ block.finder)

  -- The candidate with the reward that the node says, fees included.
  abbrev pub rewarded : BlockInfo → Block
  rewarded found =
      add_fees (record block { reward = found.reward }) (node.block_tx_fees block.height)

  -- What each decision rests on, for a block that is not above the current height.
  abbrev pub Justified : Decision → Type 0
  Justified skipped = (found : BlockInfo) → node.block_by_number block.height ≢ some (some found)
  Justified orphaned =
      (found : BlockInfo) × ((node.block_by_number block.height ≡ some (some found))
        × (found.miner ≢ block.finder))
  Justified panicked =
      (found : BlockInfo) × ((node.block_by_number block.height ≡ some (some found))
        × (20 ≤ length found.miner → length block.finder < 20))
  Justified waits =
      (found : BlockInfo) × (Ours found × (current < block.height + cfg.immature_depth))
  Justified (matures b) =
      (found : BlockInfo) × (Ours found
        × ((b ≡ rewarded found) × (block.height + cfg.mature_depth ≤ current)))
  Justified (becomes_immature b) =
      (found : BlockInfo) × (Ours found
        × ((b ≡ rewarded found)
            × ((block.height + cfg.immature_depth ≤ current)
                × (current < block.height + cfg.mature_depth))))

  add_fees-height : (b : Block) (fees : Option ℕ) → (add_fees b fees).height ≡ b.height
  add_fees-height b none = refl
  add_fees-height b (some fees) =
      if-elim (λ (x : Block). x.height ≡ b.height) (ltb 0 fees) (λ e. refl) (λ e. refl)

  by_depth-Justified :
      (found : BlockInfo)
      → Ours found
      → block.height ≤ current
      → current < 2 ^ 64
      → Justified (by_depth cfg current node (rewarded found))
  by_depth-Justified found ours below small =
      let same =
        add_fees-height (record block { reward = found.reward })
          (node.block_tx_fees block.height) in
      let count : confirmations current (rewarded found).height ≡ current - block.height =
        ap (confirmations current) same ∙ confirmations_below current block.height below small in
      if-elim Justified (leb cfg.mature_depth (confirmations current (rewarded found).height))
        (λ e. (found, (ours, (refl, ground (arith, e, count, below)))))
        (λ e.
          if-elim Justified (leb cfg.immature_depth (confirmations current (rewarded found).height))
            (λ e'. (
              found,
              (ours, (refl, (ground (arith, e', count, below), ground (arith, e, count, below)))),
            ))
            (λ e'. (found, (ours, ground (arith, e', count, below)))))

  with_info-Justified :
      (o : Option (Option BlockInfo))
      → node.block_by_number block.height ≡ o
      → block.height ≤ current
      → current < 2 ^ 64
      → Justified (with_info cfg current node block o)
  with_info-Justified none e below small = λ found e'. cc
  with_info-Justified (some none) e below small = λ found e'. cc
  with_info-Justified (some (some found)) e below small =
      if-elim Justified (not (bytes_eq found.miner block.finder))
        (λ other.
          if-elim Justified (too_short found.miner || too_short block.finder)
            (λ short. (found, (e, λ long. ground (arith, short, long))))
            (λ long. (
              found,
              (e, λ same. ground (arith, other, (bytes_eq_iff found.miner block.finder).1 same)),
            )))
        (λ mine.
          if-elim Justified (too_short block.finder)
            (λ short. (found, (e, λ long. ground (arith, short))))
            (λ long.
              by_depth-Justified found
                (e, (bytes_eq_iff found.miner block.finder).0 (ground (arith, mine))) below small))

  -- For a candidate that is not above the node's height: it matures only at the mature depth and
  -- becomes immature only from the immature depth on and below the mature one, with the reward and
  -- the fees of the node's block, whose miner is the finder; it is an orphan only if the node's
  -- block has another miner; it is left alone only below the immature depth, or if the node gives
  -- no block; and the program stops only if the node's block or the candidate names a miner of
  -- fewer than 20 bytes, which a log line slices.
  pub decide-Justified :
      block.height ≤ current → current < 2 ^ 64 → Justified (decide cfg current node block)
  unfolding decide
  decide-Justified below small =
      with_info-Justified (node.block_by_number block.height) refl below small

module _ {S F : Type 0} (r : Redis S) (c : Codec) (fl : Float64 F) (calls : Calls) where
  -- An immature block above the node's height, as after a failover to a node that lags behind,
  -- matures at once, since the difference of the heights wraps around, if the mature depth is at
  -- most 2^64 less that difference.
  pub process_immature-above :
      (cfg : UnlockerConfig) (current : ℕ) (node : Chain) (s : S) (block : Block)
      (blocks : List Block)
      → current < block.height
      → block.height < 2 ^ 64
      → cfg.mature_depth ≤ 2 ^ 64 - (block.height - current)
      → let (read, sent) = calls.immature_to_matured block in
        process_immature r c fl calls cfg current node s (block ∷ blocks)
        ≡ process_immature r c fl calls cfg current node
            (move_block_to_matured r c fl s block read sent).0
            blocks
  unfolding process_immature
  process_immature-above cfg current node s block blocks above small deep =
      let (read, sent) = calls.immature_to_matured block in
      let count = confirmations_above current block.height above small in
      let test : leb cfg.mature_depth (confirmations current block.height) ≡ true =
        ground (arith, count, deep) in
      ap
        (λ b.
          process_immature r c fl calls cfg current node
            (if b then (move_block_to_matured r c fl s block read sent).0 else s) blocks)
        test
