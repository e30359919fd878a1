-- ===== src/Master/Unlocking.antt =====
-- `processBlocks` of internal/master/master.go, over the store. The answers of the node and how the
-- calls of the store went are arguments; the webhook is left out.
use tos_pool.Prelude.{
  ℕ, ◌+◌, ◌-◌, ◌%◌, ◌^◌, Bool, not, ◌||◌, Option, none, some, List, [], ◌∷◌, ltb, leb,
  if◌then◌else◌, length,
}
use tos_pool.Prelude.Maps.{Bytes, bytes_eq}
use tos_pool.Store.Redis.{Redis}
use tos_pool.Store.Data.{Block, Codec, Float64}
use tos_pool.Store.Blocks.{
  get_candidate_blocks, get_immature_blocks, move_block_to_immature, move_block_to_matured,
  remove_orphan_block,
}
use tos_pool.Config.{UnlockerConfig}
use tos_pool.Upstream.Manager.{
  UpstreamManager, TosClient, get_client, record_success, record_failure,
}

-- The fields of BlockInfo that are read.
pub record BlockInfo : Type 0 where
  pub miner : Bytes
  pub reward : ℕ

-- What the node answers: `none` is an error, and `some none` a nil block.
pub record Chain : Type 0 where
  pub height : Option ℕ
  pub block_by_number : ℕ → Option (Option BlockInfo)
  pub block_tx_fees : ℕ → Option ℕ

-- Whether the reads and the pipelines of the store went well, for each call.
pub record Calls : Type 0 where
  pub candidates_read : Bool
  pub immature_read : Bool
  pub to_immature : Block → Bool × Bool
  pub to_matured : Block → Bool × Bool
  pub immature_to_matured : Block → Bool × Bool
  pub orphan : Block → (Bool × Bool) × (Bool × (Bool × Bool))

-- What is done with a candidate; `panicked` is a log line that slices a name shorter than 20 bytes.
pub data Decision : Type 0 where
  skipped orphaned waits panicked : Decision
  matures : Block → Decision
  becomes_immature : Block → Decision

-- Both numbers are uint64, as is the difference.
abbrev pub confirmations : ℕ → ℕ → ℕ
confirmations current height = (current + 2 ^ 64 - height) % 2 ^ 64

abbrev pub add_fees : Block → Option ℕ → Block
add_fees block none = block
add_fees block (some fees) =
    if ltb 0 fees then record block { reward = (block.reward + fees) % 2 ^ 64 } else block

-- `[:20]` of a name is out of range.
abbrev pub too_short : Bytes → Bool
too_short name = ltb (length name) 20

module _ (cfg : UnlockerConfig) (current : ℕ) (node : Chain) where
  abbrev pub by_depth : Block → Decision
  by_depth block =
      if leb cfg.mature_depth (confirmations current block.height)
      then matures block
      else (if leb cfg.immature_depth (confirmations current block.height)
          then becomes_immature block
          else waits)

  abbrev pub with_info : Block → Option (Option BlockInfo) → Decision
  with_info block none = skipped
  with_info block (some none) = skipped
  with_info block (some (some found)) =
      if not (bytes_eq found.miner block.finder)
      then (if too_short found.miner || too_short block.finder then panicked else orphaned)
      else if too_short block.finder
      then panicked
      else by_depth
          (add_fees (record block { reward = found.reward }) (node.block_tx_fees block.height))

  unfoldable pub decide : Block → Decision
  decide block = with_info block (node.block_by_number block.height)

abbrev pub unless_panicked : {S : Type 0} → Option S → (S → Option S) → Option S
unless_panicked none rest = none
unless_panicked (some s) rest = rest s

module _ {S F : Type 0} (r : Redis S) (c : Codec) (fl : Float64 F) (calls : Calls) where
  -- The errors of the store are not looked at; `none` is a panic, which ends the program.
  abbrev pub act : S → Block → Decision → Option S
  act s block skipped = some s
  act s block waits = some s
  act s block panicked = none
  act s block orphaned =
      let (first, second) = calls.orphan block in
      some (remove_orphan_block r c fl s block first second)
  act s block (matures b) =
      let (read, sent) = calls.to_matured b in some (move_block_to_matured r c fl s b read sent).0
  act s block (becomes_immature b) =
      let (read, sent) = calls.to_immature b in some (move_block_to_immature r c fl s b read sent).0

  module _ (cfg : UnlockerConfig) (current : ℕ) (node : Chain) where
    unfoldable pub process_candidates : S → List Block → Option S
    process_candidates s [] = some s
    process_candidates s (block ∷ blocks) =
        unless_panicked (act s block (decide cfg current node block))
          (λ s'. process_candidates s' blocks)

    abbrev pub mature_immature : S → Block → S
    mature_immature s block =
        let (read, sent) = calls.immature_to_matured block in
        if leb cfg.mature_depth (confirmations current block.height)
        then (move_block_to_matured r c fl s block read sent).0
        else s

    unfoldable pub process_immature : S → List Block → S
    process_immature s [] = s
    process_immature s (block ∷ blocks) = process_immature (mature_immature s block) blocks

    abbrev pub after_candidates : S → Option (List Block) → S
    after_candidates s none = s
    after_candidates s (some blocks) = process_immature s blocks

    abbrev pub process_at : S → Option (List Block) → Option S
    process_at s none = some s
    process_at s (some blocks) =
        unless_panicked (process_candidates s blocks)
          (λ s'. some (after_candidates s' (get_immature_blocks r c s' calls.immature_read)))

  abbrev pub with_height :
      UnlockerConfig → Chain → UpstreamManager → S → Option ℕ → UpstreamManager × Option S
  with_height cfg node m s none = (record_failure m, some s)
  with_height cfg node m s (some current) = (
    record_success m,
    process_at cfg current node s (get_candidate_blocks r c s calls.candidates_read),
  )

  abbrev pub with_client :
      UnlockerConfig → Chain → UpstreamManager → S → Option TosClient → UpstreamManager × Option S
  with_client cfg node m s none = (m, some s)
  with_client cfg node m s (some client) = with_height cfg node m s node.height

  unfoldable pub process_blocks :
      UnlockerConfig → Chain → UpstreamManager → S → UpstreamManager × Option S
  process_blocks cfg node m s = with_client cfg node m s (get_client m)
