-- ===== src/Payouts/Runs.antt =====
-- Whole payouts over the store in memory with the lock beside it, and each theorem at a concrete
-- input.
use tos_pool.Prelude.{
  ℕ, ◌≡◌, ◌≢◌, refl, ap, Bool, true, false, Option, none, some, List, [], arith, length,
}
use tos_pool.Prelude.Int.{pos, negsuc}
use tos_pool.Prelude.Maps.{Bytes, codes, bytes_Eq, bytes_eq_iff}
use tos_pool.Store.Memory.{Memory, memory}
use tos_pool.Payouts.Batch.{Miner, process_batch_payout}
use tos_pool.Upstream.Manager.{
  TosClient, UpstreamManager, new_upstream_manager, new_tos_client, get_client, active_upstream,
}
use tos_pool.Payouts.Schedule.{Strings, unlock_payouts, done, panicked, stuck, process_payouts}
use tos_pool.Store.Redis.{Redis}
use tos_pool.Payouts.Whole.{process_payouts-free}
use tos_pool.Payouts.Locking.{IsStrings, Freed, process_payouts-fails}
use tos_pool.Payouts.Exclusion.{Meanwhile, locked, paid, released, process_payouts-excluded}
use tos_pool.Payouts.Tests.{whole, codec, start, miners, paying, three}

abbrev node : TosClient
node = record { url = codes "http://n"; timeout = 10; miner_address = [] }

abbrev manager : UpstreamManager
manager = new_upstream_manager (record {
  url = codes "http://n";
  timeout = 10;
  upstreams = [];
  max_failures = pos 3;
  recovery_threshold = pos 2;
})

-- The store in memory with the lock beside it.
abbrev Locked : Type 0
Locked = Option Bytes × Memory

abbrev both : Redis Locked
both = record {
  exec = λ s k. (s.0, memory.exec s.1 k);
  field = λ s. memory.field s.1;
  number = λ s. memory.number s.1;
  zrange = λ s. memory.zrange s.1;
  hgetall = λ s. memory.hgetall s.1;
}

abbrev take_lock : Bytes → Locked → Locked × Option Bool
take_lock v (none, m) = ((some v, m), some true)
take_lock v (some w, m) = ((some w, m), some false)

abbrev locks : Strings Locked
locks = record {
  set_nx = λ s k v t. take_lock v s;
  get = λ s k. s.0;
  del = λ s k. ((none, s.1), true);
}

locks-IsStrings : IsStrings locks
locks-IsStrings = record {
  holder = λ s k. s.0;
  taken = taken;
  refused = refused;
  answered = λ s k v e. e;
  deleted = λ s k e. refl;
  not_added = λ s k id h. tt;
}
  where
    taken :
        (s : Locked) (k v : Bytes) (t : ℕ)
        → (take_lock v s).1 ≡ some true
        → (take_lock v s).0.0 ≡ some v
    taken (none, m) k v t h = refl
    taken (some x, m) k v t h = cc

    refused :
        (s : Locked) (k v w : Bytes) (t : ℕ)
        → s.0 ≡ some w
        → ((take_lock v s).0 ≡ s) × ((take_lock v s).1 ≢ some true)
    refused (none, m) k v w t h = cc
    refused (some x, m) k v w t h = (refl, λ e. cc)

abbrev pay_both : Locked → List Miner → Locked
pay_both = process_batch_payout both whole 0 codec (some paying) (λ a. 0) (λ a. true) (λ a. true)

process_payouts-free_example :
    Freed locks locks-IsStrings
      (codes "a")
      (process_payouts locks pay_both
        (pos 2)
        4
        (codes "a")
        (λ s. some three)
        (some 5)
        manager
        (none, start)).1
unfolding get_client active_upstream new_upstream_manager new_tos_client locks-IsStrings
process_payouts-free_example =
    process_payouts-free both locks locks-IsStrings whole 0 codec (some paying) (λ a. 0) (λ a. true)
      (λ a. true) (none, start) (codes "a") 2 4 (λ s. some three) 5 manager node
      (λ s k key id e h. h) refl (omega arith) (omega arith) refl
      (λ ms e. let size = ap (λ o. or_zero o) e in omega (arith, size))
  where
    or_zero : Option (List Miner) → ℕ
    or_zero none = 0
    or_zero (some ms) = length ms

process_payouts-fails_example :
    ((process_payouts locks pay_both
        (pos 0)
        50
        (codes "a")
        (λ s. some three)
        (some 5)
        manager
        (none, start)).1
      ≡ stuck)
    × ((process_payouts locks pay_both
          (negsuc 4)
          51
          (codes "a")
          (λ s. some three)
          (some 5)
          manager
          (none, start)).1
        ≡ panicked)
unfolding get_client active_upstream new_upstream_manager new_tos_client
process_payouts-fails_example =
    process_payouts-fails locks pay_both (none, start) (codes "a") 50 4 (λ s. some three) 5 manager
      node (record { address = codes "tos1_third_miner_address"; balance = 70 }) miners refl
      (omega arith) refl refl

-- After its lock, a batch, and a release by another payout.
abbrev during : Locked
during = pay_both (some (codes "a"), start) miners

apart : codes "a" ≢ codes "b"
apart = λ p. cc ((bytes_eq_iff (codes "a") (codes "b")).1 p)

not_released :
    ◌≡◌ {A = Locked}
      (some (codes "a"), start)
      (unlock_payouts locks (some (codes "a"), start) (codes "b")).0
unfolding unlock_payouts
not_released = refl

during-Meanwhile : Meanwhile both locks locks-IsStrings whole 0 codec (codes "a") during
during-Meanwhile =
    paid (some (codes "a"), start) (some paying) (λ a. 0) (λ a. true) (λ a. true) miners
      (released (some (codes "a"), start) (codes "b") (locked (none, start) refl refl) apart
        not_released)
      refl

process_payouts-excluded_example :
    ((process_payouts locks pay_both
        (pos 2)
        4
        (codes "b")
        (λ s. some three)
        (some 5)
        manager
        during).1
      ≡ done during)
    × ((unlock_payouts locks during (codes "b")).0 ≡ during)
unfolding locks-IsStrings
process_payouts-excluded_example =
    process_payouts-excluded both locks locks-IsStrings (λ s k key e. refl) whole 0 codec
      (codes "a") during pay_both (codes "b") (pos 2) 4 (λ s. some three) (some 5) manager
      during-Meanwhile apart
