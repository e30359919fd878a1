-- ===== src/Upstream/Failover.antt =====
-- `CallWithFailover` and the read-only views of the manager (internal/rpc/upstream.go).
use tos_pool.Prelude.{
  ℕ, suc, Bool, false, not, ◌||◌, Option, none, some, List, [], ◌∷◌, map, ◌==◌, if◌then◌else◌,
  length,
}
use tos_pool.Prelude.Int.{ℤ, pos, ◌+ℤ◌, int32}
use tos_pool.Prelude.Maps.{Bytes}
use tos_pool.Upstream.Manager.{
  Upstream, UpstreamManager, active_upstream, record_success, record_failure,
}

module _ {E : Type 0} where
  -- The loop over the other upstreams: `answer i` is what the call gives on upstream `i`, `none`
  -- for success. It returns the upstreams and the index that answered.
  unfoldable pub try_others : ℕ → (ℕ → Option E) → ℕ → List Upstream → List Upstream × Option ℕ
  try_others active answer i [] = ([], none)
  try_others active answer i (u ∷ us) =
      let rest = try_others active answer (suc i) us in
      let skip : List Upstream × Option ℕ = (u ∷ rest.0, rest.1) in
      if i == active
      then skip
      else (if not u.healthy then skip else elim (answer i) [
        | none ↦ (u ∷ us, some i)
        | some e ↦ (record u { fail_count = int32 (u.fail_count +ℤ pos 1) } ∷ rest.0, rest.1)
      ])

  abbrev pub finish : E → UpstreamManager → List Upstream × Option ℕ → UpstreamManager × Option E
  finish e m (us, some i) = (record m { upstreams = us; active_idx = i }, none)
  finish e m (us, none) = (record m { upstreams = us }, some e)

  -- What happens after the first call failed with `e`.
  unfoldable pub fail_over : UpstreamManager → E → (ℕ → Option E) → UpstreamManager × Option E
  unfolding try_others
  fail_over m e answer =
      let m' = record_failure m in finish e m' (try_others m'.active_idx answer 0 m'.upstreams)

  -- `first` is what the active client answers, and the result is the error returned, `none` for
  -- nil.
  unfoldable pub call_with_failover :
      UpstreamManager → Option E → (ℕ → Option E) → UpstreamManager × Option E
  unfolding fail_over active_upstream
  call_with_failover m first answer = elim (active_upstream m) [
    | none ↦ (m, none)
    | some u ↦ elim first [ none ↦ (record_success m, none) | some e ↦ fail_over m e answer ]
  ]

unfoldable pub any_healthy : List Upstream → Bool
any_healthy [] = false
any_healthy (u ∷ us) = u.healthy || any_healthy us

unfoldable pub has_healthy_upstream : UpstreamManager → Bool
unfolding any_healthy
has_healthy_upstream m = any_healthy m.upstreams

unfoldable pub count_healthy : List Upstream → ℕ
count_healthy [] = 0
count_healthy (u ∷ us) = if u.healthy then suc (count_healthy us) else count_healthy us

unfoldable pub healthy_count : UpstreamManager → ℕ
unfolding count_healthy
healthy_count m = count_healthy m.upstreams

unfoldable pub upstream_count : UpstreamManager → ℕ
upstream_count m = length m.upstreams

unfoldable pub set_miner_address : UpstreamManager → Bytes → UpstreamManager
set_miner_address m address = record m {
  upstreams =
      map {A = Upstream} (λ u. record u { client = record u.client { miner_address = address } })
        m.upstreams;
}

pub record UpstreamState : Type 0 where
  pub name : Bytes
  pub url : Bytes
  pub healthy : Bool
  pub last_check : ℕ
  pub success_count : ℤ
  pub fail_count : ℤ
  pub response_time : ℕ
  pub height : ℕ
  pub weight : ℤ

abbrev pub upstream_state : Upstream → UpstreamState
upstream_state u = record {
  name = u.name;
  url = u.client.url;
  healthy = u.healthy;
  last_check = u.last_check;
  success_count = u.success_count;
  fail_count = u.fail_count;
  response_time = u.response_time;
  height = u.height;
  weight = u.weight;
}

unfoldable pub get_upstream_states : UpstreamManager → List UpstreamState
get_upstream_states m = map upstream_state m.upstreams
