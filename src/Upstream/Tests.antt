-- ===== src/Upstream/Tests.antt =====
-- Runs of the upstream manager, and each theorem at a concrete input.
use tos_pool.Prelude.{
  ℕ, ◌≡◌, ◌⊎◌, refl, Bool, true, false, Option, none, some, List, [], ◌∷◌, arith, get_elem?,
}
use tos_pool.Prelude.Int.{ℤ, pos, int32, ◌+ℤ◌}
use tos_pool.Prelude.Maps.{Bytes, codes}
use tos_pool.Upstream.Manager.{
  NodeConfig, Upstream, UpstreamManager, Reply, new_upstream_manager, sort_by_weight,
  insert_by_weight, new_tos_client, scan, select_best_upstream, get_client, record_failure,
  active_upstream,
}
use tos_pool.Upstream.Failover.{call_with_failover, has_healthy_upstream, try_others, fail_over}
use tos_pool.Upstream.Selection.{IsBestAt, select_best_upstream-IsBestAt}
use tos_pool.Upstream.Calls.{Settled, pair, call_with_failover-Settled, call_with_failover-untried}
use tos_pool.Upstream.Events.{Event, handle_all, handle_all-client, failure, checks}

abbrev node_config : NodeConfig
node_config = record {
  url = [];
  timeout = 10;
  upstreams =
      record { name = codes "a"; url = codes "http://a"; timeout = 0; weight = pos 0 }
      ∷ record { name = []; url = codes "http://b"; timeout = 7; weight = pos 5 }
      ∷ [];
  max_failures = pos 0;
  recovery_threshold = pos 0;
}

abbrev node : ℕ → Bool → ℤ → ℤ → ℤ → Upstream
node height healthy weight fails successes = record {
  client = record { url = codes "http://n"; timeout = 10; miner_address = [] };
  name = codes "n";
  weight = weight;
  healthy = healthy;
  fail_count = fails;
  success_count = successes;
  last_check = 0;
  response_time = 0;
  height = height;
}

abbrev fresh_node : ℕ → Bytes → Bytes → ℤ → Upstream
fresh_node timeout url name weight = record (node 0 true weight (pos 0) (pos 0)) {
  name = name;
  client = record { url = url; timeout = timeout; miner_address = [] };
}

-- Two failures have been counted on the first of two healthy upstreams.
abbrev first : Upstream
first = node 90 true (pos 5) (pos 2) (pos 0)

abbrev second : Upstream
second = node 95 true (pos 1) (pos 0) (pos 3)

abbrev manager : UpstreamManager
manager = pair node_config first second 0

abbrev timed_out : ℕ
timed_out = 7

abbrev no_error : ℕ → Option ℕ
no_error i = none

abbrev silent : Reply
silent = record { block = none; at = 100; took = 3 }

abbrev answer_at : ℕ → Reply
answer_at height = record { block = some height; at = 100; took = 3 }

heaviest_first :
    (new_upstream_manager node_config).upstreams
    ≡ fresh_node 7 (codes "http://b") (codes "http://b") (pos 5)
      ∷ fresh_node 10 (codes "http://a") (codes "a") (pos 1)
      ∷ []
unfolding new_upstream_manager sort_by_weight insert_by_weight new_tos_client
heaviest_first = refl

-- The first upstream reaches its third failure; the second would answer, and is not asked.
answering_node_untried : (call_with_failover manager (some timed_out) no_error).1 ≡ some timed_out
unfolding call_with_failover active_upstream fail_over record_failure select_best_upstream scan
    try_others int32 ◌+ℤ◌
answering_node_untried = refl

select_best_upstream-IsBestAt_example :
    ((has_healthy_upstream manager ≡ true)
      × IsBestAt manager.upstreams (select_best_upstream manager).active_idx)
    ⊎ ((has_healthy_upstream manager ≡ false) × (select_best_upstream manager ≡ manager))
select_best_upstream-IsBestAt_example =
    select_best_upstream-IsBestAt manager (omega arith, (omega arith, tt))

call_with_failover-Settled_example :
    Settled
      (record_failure manager)
      timed_out
      no_error
      (call_with_failover manager (some timed_out) no_error)
unfolding active_upstream
call_with_failover-Settled_example =
    call_with_failover-Settled manager first timed_out no_error refl

call_with_failover-untried_example :
    let r = call_with_failover manager (some timed_out) no_error in
    (r.0.active_idx ≡ 1) × (r.1 ≡ some timed_out)
unfolding int32 ◌+ℤ◌
call_with_failover-untried_example =
    call_with_failover-untried node_config first second timed_out no_error refl refl (omega arith)

abbrev history : List (Event ℕ)
history = failure ∷ checks (λ i. answer_at i) ∷ []

handle_all-client_example :
    (u : Upstream) × (get_elem?
        (handle_all manager history).upstreams
        (handle_all manager history).active_idx
      ≡ some u)
    × (get_client (handle_all manager history) ≡ some u.client)
handle_all-client_example = handle_all-client history manager (omega arith)
