-- ===== src/Payouts/Locking.antt =====
-- The lock that guards a payout (processPayouts, internal/master/master.go, and LockPayouts and
-- UnlockPayouts, internal/storage/redis.go).
use mathlib.Core.Path.{subst}
use tos_pool.Prelude.{
  ℕ, suc, ◌≤◌, ◌<◌, ◌≡◌, ◌≢◌, refl, sym, ap, ◌∙◌, Bool, true, false, Option, none, some, List, [],
  ◌∷◌, length, arith, ltb,
}
use tos_pool.Prelude.Int.{ℤ, pos, negsuc}
use tos_pool.Prelude.Maps.{Bytes, bytes_eq, bytes_Eq, beq_self}
use tos_pool.Upstream.Manager.{UpstreamManager, TosClient, get_client}
use tos_pool.Payouts.Batch.{Miner}
use tos_pool.Payouts.Schedule.{
  Strings, key_payout_lock, payout_lock_ttl, min_peers_for_payout, lock_payouts, delete_own,
  unlock_payouts, Ending, done, panicked, stuck, pay_listed, release, with_lock, with_client,
  process_payouts,
}
use tos_pool.Payouts.Batches.{pay_all, pay_batches-PaysAll, pay_from-stuck, pay_from-panicked}

-- No one but `id` has the string.
abbrev pub OnlyBy : Bytes → Option Bytes → Type 0
OnlyBy id none = Unit {0}
OnlyBy id (some v) = v ≡ id

-- What the documentation of SETNX, GET and DEL promises. `holder` is the string that the server has
-- under a key, and `none` also when its time to live is over. Each command may fail: of a failed
-- GET nothing is promised, and of a failed DEL only that it adds nothing.
pub record IsStrings {S : Type 0} (r : Strings S) : Type 0 where
  pub holder : S → Bytes → Option Bytes
  pub taken :
      (s : S) (k v : Bytes) (t : ℕ)
      → (r.set_nx s k v t).1 ≡ some true
      → holder (r.set_nx s k v t).0 k ≡ some v
  pub refused :
      (s : S) (k v w : Bytes) (t : ℕ)
      → holder s k ≡ some w
      → ((r.set_nx s k v t).0 ≡ s) × ((r.set_nx s k v t).1 ≢ some true)
  pub answered : (s : S) (k v : Bytes) → r.get s k ≡ some v → holder s k ≡ some v
  pub deleted : (s : S) (k : Bytes) → (r.del s k).1 ≡ true → holder (r.del s k).0 k ≡ none
  pub not_added :
      (s : S) (k id : Bytes) → OnlyBy id (holder s k) → OnlyBy id (holder (r.del s k).0 k)

module _ {S : Type 0} (r : Strings S) (law : IsStrings r) where
  -- After a release: the lock is not another's, and it is free if the release reports no error.
  abbrev pub Released : Bytes → S × Bool → Type 0
  Released id u =
      OnlyBy id (law.holder u.0 key_payout_lock)
      × (u.1 ≡ true → law.holder u.0 key_payout_lock ≡ none)

  delete_own-Released :
      (s : S) (id : Bytes) (current : Option Bytes)
      → r.get s key_payout_lock ≡ current
      → OnlyBy id (law.holder s key_payout_lock)
      → Released id (delete_own r s id current)
  delete_own-Released s id none e h = (h, λ f. cc)
  delete_own-Released s id (some v) e h =
      let same : v ≡ id = subst (OnlyBy id) (law.answered s key_payout_lock v e) h in
      let own : bytes_eq v id ≡ true = ap (λ x. bytes_eq x id) same ∙ beq_self id in
      rw own (law.not_added s key_payout_lock id h, law.deleted s key_payout_lock)

  unlock_payouts-Released :
      (s : S) (id : Bytes)
      → OnlyBy id (law.holder s key_payout_lock)
      → Released id (unlock_payouts r s id)
  unfolding unlock_payouts
  unlock_payouts-Released s id h = delete_own-Released s id (r.get s key_payout_lock) refl h

  -- A batch does not give the lock to another; the lock may expire meanwhile.
  abbrev pub Respects : Bytes → (S → List Miner → S) → Type 0
  Respects id pay =
      (s : S) (b : List Miner)
      → OnlyBy id (law.holder s key_payout_lock)
      → OnlyBy id (law.holder (pay s b) key_payout_lock)

  pay_all-lock :
      (pay : S → List Miner → S) (id : Bytes) (s : S) (bs : List (List Miner))
      → Respects id pay
      → OnlyBy id (law.holder s key_payout_lock)
      → OnlyBy id (law.holder (pay_all pay s bs) key_payout_lock)
  pay_all-lock pay id s [] k h = h
  pay_all-lock pay id s (b ∷ bs) k h = pay_all-lock pay id (pay s b) bs k (k s b h)

  -- A payout that ends with a release.
  abbrev pub Freed : Bytes → Ending S → Type 0
  Freed id x =
      (s : S) × ((x ≡ done (unlock_payouts r s id).0) × Released id (unlock_payouts r s id))

  release-Freed :
      (pay : S → List Miner → S) (s : S) (id : Bytes) (x : Ending S)
      → x ≡ done s
      → OnlyBy id (law.holder s key_payout_lock)
      → Freed id (release r pay id x)
  release-Freed pay s id x e h = (s, (ap (release r pay id) e, unlock_payouts-Released s id h))

  listed-Freed :
      (pay : S → List Miner → S) (max : ℕ) (s : S) (id : Bytes) (listed : Option (List Miner))
      (fuel : ℕ)
      → Respects id pay
      → 1 ≤ max
      → OnlyBy id (law.holder s key_payout_lock)
      → ((ms : List Miner) → listed ≡ some ms → length ms < fuel)
      → Freed id (release r pay id (pay_listed r pay (pos max) fuel s listed))
  listed-Freed pay max s id none fuel k one h enough = release-Freed pay s id (done s) refl h
  listed-Freed pay max s id (some ms) fuel k one h enough =
      let (bs, (e, rest)) = pay_batches-PaysAll pay max fuel ms s one (enough ms refl) in
      release-Freed pay (pay_all pay s bs) id _ e (pay_all-lock pay id s bs k h)

module _ {S : Type 0} (r : Strings S) where
  -- A payout that gets the lock, from a node with 3 peers or more.
  pub process_payouts-locked :
      (pay : S → List Miner → S) (s : S) (id : Bytes) (size : ℤ) (fuel : ℕ)
      (list : S → Option (List Miner)) (peers : ℕ) (m : UpstreamManager) (node : TosClient)
      → get_client m ≡ some node
      → 3 ≤ peers
      → (lock_payouts r s id payout_lock_ttl).1 ≡ some true
      → let s1 = (lock_payouts r s id payout_lock_ttl).0 in
        (process_payouts r pay size fuel id list (some peers) m s).1
        ≡ release r pay id (pay_listed r pay size fuel s1 (list s1))
  unfolding process_payouts
  process_payouts-locked pay s id size fuel list peers m node c three h =
      let l = lock_payouts r s id payout_lock_ttl in
      let few : ltb peers min_peers_for_payout ≡ false = ground (arith, three) in
      ap (λ o. (with_client r pay size fuel id list (some peers) m s o).1) c
      ∙ (rw few refl)
      ∙ ap (λ o. with_lock r pay size fuel id list (l.0, o)) h

  -- A payout that gets the lock, from a node with 3 peers or more, and that lists a miner, does not
  -- end if the batch size is 0, whatever the fuel; with a negative size it stops the program.
  pub process_payouts-fails :
      (pay : S → List Miner → S) (s : S) (id : Bytes) (fuel n : ℕ) (list : S → Option (List Miner))
      (peers : ℕ) (m : UpstreamManager) (node : TosClient) (first : Miner) (rest : List Miner)
      → get_client m ≡ some node
      → 3 ≤ peers
      → (lock_payouts r s id payout_lock_ttl).1 ≡ some true
      → list (lock_payouts r s id payout_lock_ttl).0 ≡ some (first ∷ rest)
      → ((process_payouts r pay (pos 0) fuel id list (some peers) m s).1 ≡ stuck)
        × ((process_payouts r pay (negsuc n) (suc fuel) id list (some peers) m s).1 ≡ panicked)
  process_payouts-fails pay s id fuel n list peers m node first rest c three h e =
      let s1 = (lock_payouts r s id payout_lock_ttl).0 in
      (
        process_payouts-locked pay s id (pos 0) fuel list peers m node c three h
            ∙ ap (λ o. release r pay id (pay_listed r pay (pos 0) fuel s1 o)) e
            ∙ ap (release r pay id) (pay_from-stuck pay first rest fuel s1),
        process_payouts-locked pay s id (negsuc n) (suc fuel) list peers m node c three h
            ∙ ap (λ o. release r pay id (pay_listed r pay (negsuc n) (suc fuel) s1 o)) e
            ∙ ap (release r pay id) (pay_from-panicked pay first rest fuel n s1),
      )

  -- A payout that gets the lock, from a node with 3 peers or more and with a batch size of at least
  -- 1, ends with a release, if its batches do not give the lock to another. The fuel exceeds the
  -- number of miners.
  pub process_payouts-Freed :
      (law : IsStrings r) (pay : S → List Miner → S) (s : S) (id : Bytes) (max : ℕ) (fuel : ℕ)
      (list : S → Option (List Miner)) (peers : ℕ) (m : UpstreamManager) (node : TosClient)
      → get_client m ≡ some node
      → 3 ≤ peers
      → 1 ≤ max
      → Respects r law id pay
      → (lock_payouts r s id payout_lock_ttl).1 ≡ some true
      → let s1 = (lock_payouts r s id payout_lock_ttl).0 in
        ((ms : List Miner) → list s1 ≡ some ms → length ms < fuel)
        → Freed r law id (process_payouts r pay (pos max) fuel id list (some peers) m s).1
  process_payouts-Freed law pay s id max fuel list peers m node c three one k h enough =
      let l = lock_payouts r s id payout_lock_ttl in
      let own : OnlyBy id (law.holder l.0 key_payout_lock) =
        subst (OnlyBy id) (sym (law.taken s key_payout_lock id payout_lock_ttl h)) refl in
      subst (Freed r law id)
        (sym (process_payouts-locked pay s id (pos max) fuel list peers m node c three h))
        (listed-Freed r law pay max l.0 id (list l.0) fuel k one own enough)
