-- ===== src/Payouts/Exclusion.antt =====
-- Payouts that run at the same time (processPayouts and processBatchPayout,
-- internal/master/master.go, over the lock of internal/storage/redis.go). A release, which
-- reads the lock and then deletes it, is one step.
use tos_pool.Prelude.{
  ℕ, ◌≡◌, ◌≢◌, refl, ap, ◌∙◌, Bool, true, false, Option, none, some, List, ltb, if-elim,
}
use tos_pool.Prelude.Int.{ℤ}
use tos_pool.Prelude.Maps.{Bytes, bytes_eq, bytes_Eq, beq_ne}
use tos_pool.Store.Redis.{Command, Redis}
use tos_pool.Store.Data.{Codec, Float64}
use tos_pool.Upstream.Manager.{UpstreamManager, TosClient, get_client}
use tos_pool.Payouts.Batch.{Miner, Wallet, process_batch_payout}
use tos_pool.Payouts.Schedule.{
  Strings, key_payout_lock, payout_lock_ttl, min_peers_for_payout, lock_payouts, delete_own,
  unlock_payouts, done, with_lock, with_client, process_payouts,
}
use tos_pool.Payouts.Locking.{IsStrings}
use tos_pool.Payouts.Whole.{key_of, process_batch_payout-lock}

-- A command does not change the string under another key, and time does not end it.
abbrev pub KeepsStrings :
    {S : Type 0} (r : Redis S) (strings : Strings S) → IsStrings strings → Type 0
KeepsStrings {S = S} r strings law =
    (s : S) (c : Command) (key : Bytes)
    → bytes_eq (key_of c) key ≡ false
    → law.holder (r.exec s c) key ≡ law.holder s key

module _ {S F : Type 0} (r : Redis S) (strings : Strings S) (law : IsStrings strings)
    (fl : Float64 F) (fee : F) (c : Codec) (mine : Bytes) where
  -- The stores that there can be while the payout `mine` is between its lock and its release, with
  -- any number of its batches done, and whole payouts and releases of others in between.
  pub data Meanwhile : S → Type 0 where
    locked :
        {t : S} (s : S)
        → (lock_payouts strings s mine payout_lock_ttl).1 ≡ some true
        → t ≡ (lock_payouts strings s mine payout_lock_ttl).0
        → Meanwhile t
    paid :
        {t : S} (s : S) (wallet : Option Wallet) (now : Bytes → ℕ) (sent back : Bytes → Bool)
        (miners : List Miner)
        → Meanwhile s
        → t ≡ process_batch_payout r fl fee c wallet now sent back s miners
        → Meanwhile t
    attempted :
        {t : S} (s : S) (pay : S → List Miner → S) (other : Bytes) (size : ℤ) (fuel : ℕ)
        (list : S → Option (List Miner)) (peers : Option ℕ) (m : UpstreamManager)
        → Meanwhile s
        → mine ≢ other
        → (process_payouts strings pay size fuel other list peers m s).1 ≡ done t
        → Meanwhile t
    released :
        {t : S} (s : S) (other : Bytes)
        → Meanwhile s
        → mine ≢ other
        → t ≡ (unlock_payouts strings s other).0
        → Meanwhile t

module _ {S : Type 0} (strings : Strings S) (law : IsStrings strings) (s : S) (mine : Bytes)
    (held : law.holder s key_payout_lock ≡ some mine) where
  not_locked :
      (pay : S → List Miner → S) (size : ℤ) (fuel : ℕ) (other : Bytes)
      (list : S → Option (List Miner)) (o : Option Bool)
      → o ≢ some true
      → with_lock strings pay size fuel other list (s, o) ≡ done s
  not_locked pay size fuel other list none h = refl
  not_locked pay size fuel other list (some false) h = refl
  not_locked pay size fuel other list (some true) h = absurd (h refl)

  blocked :
      (pay : S → List Miner → S) (size : ℤ) (fuel : ℕ) (other : Bytes)
      (list : S → Option (List Miner))
      → with_lock strings pay size fuel other list (lock_payouts strings s other payout_lock_ttl)
        ≡ done s
  blocked pay size fuel other list =
      let l = lock_payouts strings s other payout_lock_ttl in
      let (same, not_set) = law.refused s key_payout_lock other mine payout_lock_ttl held in
      ap (λ x. with_lock strings pay size fuel other list (x, l.1)) same
      ∙ not_locked pay size fuel other list l.1 not_set

  attempt-held :
      (pay : S → List Miner → S) (size : ℤ) (fuel : ℕ) (other : Bytes)
      (list : S → Option (List Miner)) (peers : Option ℕ) (m : UpstreamManager)
      → (process_payouts strings pay size fuel other list peers m s).1 ≡ done s
  unfolding process_payouts
  attempt-held pay size fuel other list peers m = by_client (get_client m) peers
    where
      by_client :
          (client : Option TosClient) (n : Option ℕ)
          → (with_client strings pay size fuel other list n m s client).1 ≡ done s
      by_client none n = refl
      by_client (some node) none = refl
      by_client (some node) (some n) =
          if-elim (λ x. x ≡ done s) (ltb n min_peers_for_payout) (λ e. refl)
            (λ e. blocked pay size fuel other list)

  delete_own-held :
      (other : Bytes) (current : Option Bytes)
      → strings.get s key_payout_lock ≡ current
      → mine ≢ other
      → (delete_own strings s other current).0 ≡ s
  delete_own-held other none e ne = refl
  delete_own-held other (some v) e ne =
      let same : v ≡ mine = cc (law.answered s key_payout_lock v e, held) in
      let differ : bytes_eq v other ≡ false =
        ap (λ x. bytes_eq x other) same ∙ beq_ne mine other ne in
      rw differ refl

  release-held : (other : Bytes) → mine ≢ other → (unlock_payouts strings s other).0 ≡ s
  unfolding unlock_payouts
  release-held other ne = delete_own-held other (strings.get s key_payout_lock) refl ne

module _ {S F : Type 0} (r : Redis S) (strings : Strings S) (law : IsStrings strings)
    (keeps : KeepsStrings r strings law) (fl : Float64 F) (fee : F) (c : Codec) (mine : Bytes) where
  Meanwhile-held :
      (s : S) → Meanwhile r strings law fl fee c mine s → law.holder s key_payout_lock ≡ some mine
  Meanwhile-held s (locked s0 h e) =
      ap (λ x. law.holder x key_payout_lock) e ∙ law.taken s0 key_payout_lock mine payout_lock_ttl h
  Meanwhile-held s (paid s0 wallet now sent back miners h e) =
      ap (λ x. law.holder x key_payout_lock) e
      ∙ process_batch_payout-lock r (λ x. law.holder x key_payout_lock ≡ some mine)
          (λ x k other p. keeps x k key_payout_lock other ∙ p) fl fee c wallet now sent back s0
          miners (Meanwhile-held s0 h)
  Meanwhile-held s (attempted s0 pay other size fuel list peers m h ne e) =
      let held = Meanwhile-held s0 h in
      let same : s ≡ s0 =
        cc (e, attempt-held strings law s0 mine held pay size fuel other list peers m) in
      ap (λ x. law.holder x key_payout_lock) same ∙ held
  Meanwhile-held s (released s0 other h ne e) =
      let held = Meanwhile-held s0 h in
      ap (λ x. law.holder x key_payout_lock) (e ∙ release-held strings law s0 mine held other ne)
      ∙ held

  -- While one payout is between its lock and its release, and the lock does not expire, whatever
  -- batches it has paid, whatever commands have failed, and whatever other payouts have tried and
  -- released: another payout with another id, whatever its peers, its batch size and its miners,
  -- ends with the store as it is, so it pays nothing, and a release with another id leaves the
  -- store as it is.
  pub process_payouts-excluded :
      (s : S) (pay : S → List Miner → S) (other : Bytes) (size : ℤ) (fuel : ℕ)
      (list : S → Option (List Miner)) (peers : Option ℕ) (m : UpstreamManager)
      → Meanwhile r strings law fl fee c mine s
      → mine ≢ other
      → ((process_payouts strings pay size fuel other list peers m s).1 ≡ done s)
        × ((unlock_payouts strings s other).0 ≡ s)
  process_payouts-excluded s pay other size fuel list peers m h ne =
      let held = Meanwhile-held s h in
      (
        attempt-held strings law s mine held pay size fuel other list peers m,
        release-held strings law s mine held other ne,
      )
