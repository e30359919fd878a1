-- ===== src/Store/Maturity.antt =====
-- The rewards of a block's miners through its life (MoveBlockToImmature, MoveBlockToMatured,
-- internal/storage/redis.go).
use tos_pool.Prelude.{
  ℕ, ◌≡◌, ◌≢◌, refl, sym, ap, ◌∙◌, true, false, if◌then◌else◌, if-elim, none, some, List, [], ◌∷◌,
  ◌++◌, ◌<◌, ◌^◌,
}
use tos_pool.Prelude.Int.{pos, neg, ◌+ℤ◌, IsInt64}
use tos_pool.Prelude.Maps.{Bytes, codes, bytes_eq, bytes_Eq, lookup}
use tos_pool.Store.Redis.{
  Command, hincr_by, zadd, Redis, IsRedis, run, pipeline, changes_field, changes_set, zrem,
}
use tos_pool.Store.Data.{
  Block, BlockStatus, matured, Codec, Float64, key_miner, key_candidates, key_immature, key_matured,
  signed,
}
use tos_pool.Store.Payments.{transfer}
use tos_pool.Store.Blocks.{
  credit_immature, mature_rewards, miner_reward, move_block_to_immature, move_block_to_matured,
  remove_block,
}
use tos_pool.Store.Fields.{
  run-append, run-KeepsField, KeepsSet, run-KeepsSet, remove_block-KeepsField, other_miner,
  other_field, signed-pos,
}
use tos_pool.Store.Transfers.{transfer-source, transfer-target, transfer-other, restore}
use tos_pool.Store.Batches.{Distinct, run_each, run_each-present, run_each-kept}

module _ {S F : Type 0} (r : Redis S) (law : IsRedis r) (fl : Float64 F) (b : Block) where
  abbrev credit : Bytes → ℕ → List Command
  credit a n = hincr_by (key_miner a) (codes "immature") (signed (miner_reward fl b n)) ∷ []

  abbrev mature : Bytes → ℕ → List Command
  mature a n = transfer a (codes "immature") (codes "balance") (miner_reward fl b n)

  run-credit_immature :
      (s : S) (m : List (Bytes × ℕ)) → run r s (credit_immature fl b m) ≡ run_each r credit s m
  unfolding run credit_immature run_each
  run-credit_immature s [] = refl
  run-credit_immature s ((a, n) ∷ m) = run-credit_immature (run r s (credit a n)) m

  run-mature_rewards :
      (s : S) (m : List (Bytes × ℕ)) → run r s (mature_rewards fl b m) ≡ run_each r mature s m
  unfolding run mature_rewards run_each
  run-mature_rewards s [] = refl
  run-mature_rewards s ((a, n) ∷ m) = run-mature_rewards (run r s (mature a n)) m

  credit_local :
      (s : S) (a c h : Bytes) (k : ℕ)
      → a ≢ c
      → r.field (run r s (credit c k)) (key_miner a) h ≡ r.field s (key_miner a) h
  credit_local s a c h k ne =
      run-KeepsField r law s (credit c k) (key_miner a) h
        (other_miner a c h (codes "immature") _ ne, tt)

  mature_local :
      (s : S) (a c h : Bytes) (k : ℕ)
      → a ≢ c
      → r.field (run r s (mature c k)) (key_miner a) h ≡ r.field s (key_miner a) h
  mature_local s a c h k ne = transfer-other r law s c a _ _ h _ (λ p. ne (sym p))

  credit_own :
      (t : S) (a : Bytes) (n : ℕ)
      → miner_reward fl b n < 2 ^ 63
      → IsInt64 (r.field t (key_miner a) (codes "immature") +ℤ pos (miner_reward fl b n))
      → r.field (run r t (credit a n)) (key_miner a) (codes "immature")
        ≡ r.field t (key_miner a) (codes "immature") +ℤ pos (miner_reward fl b n)
  unfolding run
  credit_own t a n small i =
      let p = signed-pos (miner_reward fl b n) small in
      law.field_added t (key_miner a) (codes "immature") _ (rw p i)
      ∙ ap (λ z. r.field t (key_miner a) (codes "immature") +ℤ z) p

  credit_balance :
      (t : S) (a x : Bytes) (k : ℕ)
      → r.field (run r t (credit x k)) (key_miner a) (codes "balance")
        ≡ r.field t (key_miner a) (codes "balance")
  credit_balance t a x k =
      run-KeepsField r law t (credit x k) (key_miner a) (codes "balance")
        (other_field a x (codes "balance") (codes "immature") _ refl, tt)

-- The store after the block has left one set and entered another, before the loop over its miners.
abbrev pub relocated : {S : Type 0} → Redis S → Codec → S → Block → Bytes → Command → S
relocated r c s b source enter =
    r.exec (run r s (remove_block c source b.hash (r.zrange s source))) enter

relocated-field :
    {S : Type 0} (r : Redis S) (law : IsRedis r) (c : Codec) (s : S) (b : Block) (source : Bytes)
    (enter : Command) (k f : Bytes)
    → changes_field enter k f ≡ false
    → r.field (relocated r c s b source enter) k f ≡ r.field s k f
relocated-field r law c s b source enter k f e =
    law.field_kept _ enter k f e
    ∙ run-KeepsField r law s (remove_block c source b.hash (r.zrange s source)) k f
        (remove_block-KeepsField c source b.hash (r.zrange s source) k f)

run-relocated :
    {S : Type 0} (r : Redis S) (c : Codec) (s : S) (b : Block) (source : Bytes) (enter : Command)
    (cs : List Command)
    → run r s (remove_block c source b.hash (r.zrange s source) ++ (enter ∷ cs))
      ≡ run r (relocated r c s b source enter) cs
unfolding run
run-relocated r c s b source enter cs =
    run-append r s (remove_block c source b.hash (r.zrange s source)) (enter ∷ cs)

module _ {S F : Type 0} (r : Redis S) (law : IsRedis r) (c : Codec) (fl : Float64 F) (b : Block)
    (a : Bytes) (n : ℕ) (d : Distinct b.shares) (e : lookup a b.shares ≡ some n)
    (small : miner_reward fl b n < 2 ^ 63) where
  -- One move to the immature blocks adds the reward to the miner's immature balance.
  to_immature-reward :
      (s : S)
      → IsInt64 (r.field s (key_miner a) (codes "immature") +ℤ pos (miner_reward fl b n))
      → let s' = (move_block_to_immature r c fl s b true true).0 in
        (r.field s' (key_miner a) (codes "immature")
          ≡ r.field s (key_miner a) (codes "immature") +ℤ pos (miner_reward fl b n))
        × (r.field s' (key_miner a) (codes "balance") ≡ r.field s (key_miner a) (codes "balance"))
  unfolding move_block_to_immature pipeline changes_field
  to_immature-reward s i =
      let enter =
        zadd key_immature b.height (c.marshal_block (record b { status = BlockStatus.immature })) in
      let s0 = relocated r c s b key_candidates enter in
      let whole =
        run-relocated r c s b key_candidates enter (credit_immature fl b b.shares)
        ∙ run-credit_immature r law fl b s0 b.shares in
      let kept =
        relocated-field r law c s b key_candidates enter (key_miner a) (codes "immature") refl in
      (
        ap (λ t. r.field t (key_miner a) (codes "immature")) whole
            ∙ run_each-present r (credit r law fl b) (credit_local r law fl b) s0 b.shares a
                (codes "immature") n (pos (miner_reward fl b n))
                (λ t. credit_own r law fl b t a n small) d e (rw kept i)
            ∙ ap (λ z. z +ℤ pos (miner_reward fl b n)) kept,
        ap (λ t. r.field t (key_miner a) (codes "balance")) whole
            ∙ run_each-kept r (credit r law fl b) s0 b.shares (key_miner a) (codes "balance")
                (λ t. credit_balance r law fl b t a)
            ∙ relocated-field r law c s b key_candidates enter (key_miner a) (codes "balance") refl,
      )

  -- One move to the matured blocks takes the reward from the immature balance to the balance.
  to_matured-reward :
      (s : S)
      → IsInt64 (r.field s (key_miner a) (codes "immature") +ℤ neg (pos (miner_reward fl b n)))
      → IsInt64 (r.field s (key_miner a) (codes "balance") +ℤ pos (miner_reward fl b n))
      → let s' = (move_block_to_matured r c fl s b true true).0 in
        (r.field s' (key_miner a) (codes "immature")
          ≡ r.field s (key_miner a) (codes "immature") +ℤ neg (pos (miner_reward fl b n)))
        × (r.field s' (key_miner a) (codes "balance")
            ≡ r.field s (key_miner a) (codes "balance") +ℤ pos (miner_reward fl b n))
  unfolding move_block_to_matured pipeline changes_field
  to_matured-reward s i j =
      let enter = zadd key_matured b.height (c.marshal_block (record b { status = matured })) in
      let s0 = relocated r c s b key_immature enter in
      let whole =
        run-relocated r c s b key_immature enter (mature_rewards fl b b.shares)
        ∙ run-mature_rewards r law fl b s0 b.shares in
      let kept =
        relocated-field r law c s b key_immature enter (key_miner a) (codes "immature") refl in
      let kept' =
        relocated-field r law c s b key_immature enter (key_miner a) (codes "balance") refl in
      let loop = run_each-present r (mature r law fl b) (mature_local r law fl b) s0 b.shares a in
      (
        ap (λ t. r.field t (key_miner a) (codes "immature")) whole
            ∙ loop (codes "immature") n (neg (pos (miner_reward fl b n)))
                (λ t.
                  transfer-source r law t a (codes "immature") (codes "balance")
                    (miner_reward fl b n) small refl)
                d e (rw kept i)
            ∙ ap (λ z. z +ℤ neg (pos (miner_reward fl b n))) kept,
        ap (λ t. r.field t (key_miner a) (codes "balance")) whole
            ∙ loop (codes "balance") n (pos (miner_reward fl b n))
                (λ t.
                  transfer-target r law t a (codes "immature") (codes "balance")
                    (miner_reward fl b n) small refl)
                d e (rw kept' j)
            ∙ ap (λ z. z +ℤ pos (miner_reward fl b n)) kept',
      )

  -- A block that becomes immature and then matured adds the reward of each of its miners to the
  -- balance, once, and leaves the immature balance as it was, if the two balances stay within 64
  -- bits.
  pub move_block_to_immature-move_block_to_matured :
      (s : S)
      → IsInt64 (r.field s (key_miner a) (codes "immature"))
      → IsInt64 (r.field s (key_miner a) (codes "immature") +ℤ pos (miner_reward fl b n))
      → IsInt64 (r.field s (key_miner a) (codes "balance") +ℤ pos (miner_reward fl b n))
      → let s1 = (move_block_to_immature r c fl s b true true).0 in
        let s2 = (move_block_to_matured r c fl s1 b true true).0 in
        (r.field s2 (key_miner a) (codes "immature") ≡ r.field s (key_miner a) (codes "immature"))
        × (r.field s2 (key_miner a) (codes "balance")
            ≡ r.field s (key_miner a) (codes "balance") +ℤ pos (miner_reward fl b n))
  move_block_to_immature-move_block_to_matured s i j k =
      let s1 = (move_block_to_immature r c fl s b true true).0 in
      let w = miner_reward fl b n in
      let (p, q) = to_immature-reward s j in
      let back =
        ap (λ z. z +ℤ neg (pos w)) p ∙ restore (r.field s (key_miner a) (codes "immature")) w in
      let (u, v) = to_matured-reward s1 (rw back i) (rw q k) in
      (u ∙ back, v ∙ ap (λ z. z +ℤ pos w) q)

mature_rewards-KeepsSet :
    {F : Type 0} (fl : Float64 F) (b : Block) (m : List (Bytes × ℕ)) (k : Bytes)
    → KeepsSet (mature_rewards fl b m) k
unfolding mature_rewards changes_set
mature_rewards-KeepsSet fl b [] k = tt
mature_rewards-KeepsSet fl b ((a, n) ∷ m) k = (refl, (refl, mature_rewards-KeepsSet fl b m k))

remove_block-KeepsSet :
    (c : Codec) (set hash : Bytes) (ms : List Bytes) (k : Bytes)
    → bytes_eq set k ≡ false
    → KeepsSet (remove_block c set hash ms) k
unfolding remove_block changes_set
remove_block-KeepsSet c set hash [] k h = tt
remove_block-KeepsSet c set hash (m ∷ ms) k h =
    let rest = remove_block-KeepsSet c set hash ms k h in
    let others = remove_block c set hash ms in
    elim (c.unmarshal_block m)
      as (λ o.
        KeepsSet
          (elim o [
            | none ↦ others
            | some b ↦ if bytes_eq b.hash hash then zrem set m ∷ [] else others
          ])
          k) [
            | none ↦ rest
            | some b ↦
                if-elim (λ cs. KeepsSet cs k) (bytes_eq b.hash hash) (λ e. (h, tt)) (λ e. rest)
          ]

matured-candidates :
    {S F : Type 0} (r : Redis S) (law : IsRedis r) (c : Codec) (fl : Float64 F) (b : Block) (s : S)
    → r.zrange (move_block_to_matured r c fl s b true true).0 key_candidates
      ≡ r.zrange s key_candidates
unfolding move_block_to_matured pipeline changes_set
matured-candidates r law c fl b s =
    let enter = zadd key_matured b.height (c.marshal_block (record b { status = matured })) in
    ap (λ t. r.zrange t key_candidates)
      (run-relocated r c s b key_immature enter (mature_rewards fl b b.shares))
    ∙ run-KeepsSet r law (relocated r c s b key_immature enter) (mature_rewards fl b b.shares)
        key_candidates (mature_rewards-KeepsSet fl b b.shares key_candidates)
    ∙ law.set_kept _ enter key_candidates refl
    ∙ run-KeepsSet r law s (remove_block c key_immature b.hash (r.zrange s key_immature))
        key_candidates
        (remove_block-KeepsSet c key_immature b.hash (r.zrange s key_immature) key_candidates refl)

-- `MoveBlockToMatured` on a block leaves the set of candidates as it is, so that a candidate which
-- is matured at once stays a candidate; maturing it again pays each of its miners a second time, if
-- the two balances stay within 64 bits.
pub move_block_to_matured-repeated :
    {S F : Type 0} (r : Redis S) (law : IsRedis r) (c : Codec) (fl : Float64 F) (b : Block)
    (a : Bytes) (n : ℕ) (s : S)
    → Distinct b.shares
    → lookup a b.shares ≡ some n
    → miner_reward fl b n < 2 ^ 63
    → let w = pos (miner_reward fl b n) in
      let debt = r.field s (key_miner a) (codes "immature") in
      let paid = r.field s (key_miner a) (codes "balance") in
      IsInt64 (debt +ℤ neg w)
      → IsInt64 ((debt +ℤ neg w) +ℤ neg w)
      → IsInt64 (paid +ℤ w)
      → IsInt64 ((paid +ℤ w) +ℤ w)
      → let s1 = (move_block_to_matured r c fl s b true true).0 in
        let s2 = (move_block_to_matured r c fl s1 b true true).0 in
        (r.zrange s1 key_candidates ≡ r.zrange s key_candidates)
        × ((r.field s2 (key_miner a) (codes "balance") ≡ (paid +ℤ w) +ℤ w)
            × (r.field s2 (key_miner a) (codes "immature") ≡ (debt +ℤ neg w) +ℤ neg w))
move_block_to_matured-repeated r law c fl b a n s d e small i i' j j' =
    let w = pos (miner_reward fl b n) in
    let s1 = (move_block_to_matured r c fl s b true true).0 in
    let (p, q) = to_matured-reward r law c fl b a n d e small s i j in
    let (p', q') = to_matured-reward r law c fl b a n d e small s1 (rw p i') (rw q j') in
    (matured-candidates r law c fl b s, (q' ∙ ap (λ z. z +ℤ w) q, p' ∙ ap (λ z. z +ℤ neg w) p))
