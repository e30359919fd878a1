-- ===== src/Upstream/Manager.antt =====
-- The upstream manager (internal/rpc/upstream.go) and the client it wraps
-- (internal/rpc/tos_client.go): its state and every operation on it.
-- The answers of the nodes are arguments: a health check gets a height or an error, and a call that
-- is tried gets `none` for success. There are fewer than 2^31 upstreams, so that `int32(i)` is `i`.
use tos_pool.Prelude.{
  ℕ, zero, suc, Bool, true, false, ◌&&◌, ◌||◌, Option, none, some, List, [], ◌∷◌, map, ltb, ◌==◌,
  if◌then◌else◌, length, get_elem?,
}
use tos_pool.Prelude.Int.{ℤ, pos, negsuc, ◌+ℤ◌, leb_ℤ, ltb_ℤ, eqb_ℤ, int32}
use tos_pool.Prelude.Maps.{Bytes, codes, bytes_eq}

-- The fields of `TOSClient` that the manager reads or sets.
pub record TosClient : Type 0 where
  pub url : Bytes
  pub timeout : ℕ
  pub miner_address : Bytes

unfoldable pub new_tos_client : Bytes → ℕ → TosClient
new_tos_client url timeout = record { url = url; timeout = timeout; miner_address = [] }

pub record UpstreamConfig : Type 0 where
  pub name : Bytes
  pub url : Bytes
  pub timeout : ℕ
  pub weight : ℤ

pub record NodeConfig : Type 0 where
  pub url : Bytes
  pub timeout : ℕ
  pub upstreams : List UpstreamConfig
  pub max_failures : ℤ
  pub recovery_threshold : ℤ

pub record Upstream : Type 0 where
  pub client : TosClient
  pub name : Bytes
  pub weight : ℤ
  pub healthy : Bool
  pub fail_count : ℤ
  pub success_count : ℤ
  pub last_check : ℕ
  pub response_time : ℕ
  pub height : ℕ

pub record UpstreamManager : Type 0 where
  pub upstreams : List Upstream
  pub cfg : NodeConfig
  pub active_idx : ℕ

abbrev pub new_upstream : TosClient → Bytes → ℤ → Upstream
new_upstream client name weight = record {
  client = client;
  name = name;
  weight = weight;
  healthy = true;
  fail_count = pos 0;
  success_count = pos 0;
  last_check = 0;
  response_time = 0;
  height = 0;
}

abbrev pub from_config : NodeConfig → UpstreamConfig → Upstream
from_config cfg u =
    new_upstream (new_tos_client u.url (if u.timeout == 0 then cfg.timeout else u.timeout))
      (if bytes_eq u.name [] then u.url else u.name)
      (if eqb_ℤ u.weight (pos 0) then pos 1 else u.weight)

-- `sort.Slice` by falling weight, as the insertion sort that Go runs on up to twelve elements: an
-- element moves forward past those of a smaller weight.
unfoldable pub insert_by_weight : Upstream → List Upstream → List Upstream
insert_by_weight u [] = u ∷ []
insert_by_weight u (v ∷ vs) =
    let rest = insert_by_weight u vs in if leb_ℤ v.weight u.weight then u ∷ v ∷ vs else v ∷ rest

unfoldable pub sort_by_weight : List Upstream → List Upstream
unfolding insert_by_weight
sort_by_weight [] = []
sort_by_weight (u ∷ us) = insert_by_weight u (sort_by_weight us)

abbrev pub configured : NodeConfig → List UpstreamConfig → List Upstream
configured cfg [] =
    if bytes_eq cfg.url []
    then []
    else new_upstream (new_tos_client cfg.url cfg.timeout) (codes "primary") (pos 1) ∷ []
configured cfg (u ∷ us) = map (from_config cfg) (u ∷ us)

unfoldable pub new_upstream_manager : NodeConfig → UpstreamManager
unfolding sort_by_weight new_tos_client
new_upstream_manager cfg = record {
  upstreams = sort_by_weight (configured cfg cfg.upstreams);
  cfg = cfg;
  active_idx = 0;
}

abbrev pub or_default : ℤ → ℤ → ℤ
or_default z d = if eqb_ℤ z (pos 0) then d else z

-- The threshold of failures and of recoveries.
abbrev pub max_failures : NodeConfig → ℤ
max_failures cfg = int32 (or_default cfg.max_failures (pos 3))

abbrev pub recovery_threshold : NodeConfig → ℤ
recovery_threshold cfg = int32 (or_default cfg.recovery_threshold (pos 2))

-- One more failure, which may mark the upstream unhealthy.
abbrev pub fail : NodeConfig → Upstream → Upstream
fail cfg u =
    let count = int32 (u.fail_count +ℤ pos 1) in
    record u {
      fail_count = count;
      success_count = pos 0;
      healthy = if leb_ℤ (max_failures cfg) count then false else u.healthy;
    }

abbrev pub recover : NodeConfig → ℕ → Upstream → Upstream
recover cfg height u =
    let count = int32 (u.success_count +ℤ pos 1) in
    if u.healthy
    then record u { success_count = count; height = height; fail_count = pos 0 }
    else (if leb_ℤ (recovery_threshold cfg) count
        then record u { success_count = count; height = height; healthy = true; fail_count = pos 0 }
        else record u { success_count = count; height = height })

abbrev pub observe : NodeConfig → Option ℕ → Upstream → Upstream
observe cfg none u = fail cfg u
observe cfg (some height) u = recover cfg height u

-- What `GetLatestBlock` answers, with the clock at the end and the time that it took.
pub record Reply : Type 0 where
  pub block : Option ℕ
  pub at : ℕ
  pub took : ℕ

unfoldable pub check_upstream : NodeConfig → Upstream → Reply → Upstream
check_upstream cfg u r =
    observe cfg r.block (record u { last_check = r.at; response_time = r.took })

-- The best upstream so far; `idx` is none for -1.
pub record Best : Type 0 where
  pub idx : Option ℕ
  pub weight : ℤ
  pub height : ℕ

abbrev pub beats : Best → Upstream → Bool
beats b u = ltb_ℤ b.weight u.weight || (eqb_ℤ u.weight b.weight && ltb b.height u.height)

abbrev pub consider : ℕ → Best → Upstream → Best
consider i b u =
    if u.healthy && beats b u
    then record { idx = some i; weight = u.weight; height = u.height }
    else b

unfoldable pub scan : ℕ → Best → List Upstream → Best
scan i b [] = b
scan i b (u ∷ us) = scan (suc i) (consider i b u) us

abbrev pub no_best : Best
no_best = record { idx = none; weight = negsuc 0; height = 0 }

abbrev pub activate : UpstreamManager → Option ℕ → UpstreamManager
activate m none = m
activate m (some i) = record m { active_idx = i }

unfoldable pub select_best_upstream : UpstreamManager → UpstreamManager
select_best_upstream m = activate m (scan 0 no_best m.upstreams).idx

-- The checks of one round, each on its own upstream; `replies i` is what upstream `i` answers.
unfoldable pub check_each : NodeConfig → (ℕ → Reply) → ℕ → List Upstream → List Upstream
check_each cfg replies i [] = []
check_each cfg replies i (u ∷ us) =
    check_upstream cfg u (replies i) ∷ check_each cfg replies (suc i) us

unfoldable pub check_all_upstreams : UpstreamManager → (ℕ → Reply) → UpstreamManager
check_all_upstreams m replies =
    select_best_upstream (record m { upstreams = check_each m.cfg replies 0 m.upstreams })

abbrev pub head? : List Upstream → Option Upstream
head? [] = none
head? (u ∷ us) = some u

-- The upstream that `GetClient` and `GetActiveUpstream` read; none if there is no upstream.
unfoldable pub active_upstream : UpstreamManager → Option Upstream
active_upstream m =
    if ltb m.active_idx (length m.upstreams)
    then get_elem? m.upstreams m.active_idx
    else head? m.upstreams

unfoldable pub get_client : UpstreamManager → Option TosClient
unfolding active_upstream
get_client m = elim (active_upstream m) [ none ↦ none | some u ↦ some u.client ]

unfoldable pub get_active_upstream : UpstreamManager → Bytes
unfolding active_upstream
get_active_upstream m = elim (active_upstream m) [ none ↦ [] | some u ↦ u.name ]

abbrev pub succeed : Upstream → Upstream
succeed u = record u {
  success_count = int32 (u.success_count +ℤ pos 1);
  fail_count = pos 0;
  healthy = true;
}

-- A write to the upstream at an index, if there is one.
abbrev pub update_at : (Upstream → Upstream) → ℕ → List Upstream → List Upstream
update_at f i [] = []
update_at f zero (u ∷ us) = f u ∷ us
update_at f (suc i) (u ∷ us) = u ∷ update_at f i us

unfoldable pub record_success : UpstreamManager → UpstreamManager
record_success m = record m { upstreams = update_at succeed m.active_idx m.upstreams }

abbrev pub should_failover : NodeConfig → Upstream → Bool
should_failover cfg u = leb_ℤ (max_failures cfg) (int32 (u.fail_count +ℤ pos 1)) && u.healthy

unfoldable pub record_failure : UpstreamManager → UpstreamManager
record_failure m = elim (get_elem? m.upstreams m.active_idx) [
  | none ↦ m
  | some u ↦
      let m' : UpstreamManager = record m {
        upstreams = update_at (fail m.cfg) m.active_idx m.upstreams;
      } in
      if should_failover m.cfg u then select_best_upstream m' else m'
]
