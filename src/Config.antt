-- ===== src/Config.antt =====
-- The settings of internal/config/config.go that the models read, and `Validate`. Durations are
-- nanoseconds. The sections redis, api, notify, security, log, profiling and newrelic are left out:
-- `Validate` does not look at them.
use tos_pool.Prelude.{
  ℕ, Bool, true, false, not, ◌&&◌, ◌||◌, Option, none, some, List, [], ◌∷◌, ◌==◌, ltb,
  if◌then◌else◌,
}
use tos_pool.Prelude.Int.{ℤ}
use tos_pool.Prelude.Maps.{Bytes, bytes_eq}
use tos_pool.Store.Data.{Float64}
use tos_pool.Upstream.Manager.{NodeConfig, UpstreamConfig}

-- Further operations of Go's float64; `of_seconds` is `Duration.Seconds`.
pub record Floats (F : Type 0) : Type 0 where
  pub base : Float64 F
  pub plus : F → F → F
  pub minus : F → F → F
  pub less : F → F → Bool
  pub at_most : F → F → Bool
  pub equal : F → F → Bool
  pub of_int : ℤ → F
  pub of_seconds : ℕ → F

pub record PoolConfig (F : Type 0) : Type 0 where
  pub name : Bytes
  pub fee : F
  pub fee_address : Bytes

pub record MasterConfig : Type 0 where
  pub enabled : Bool
  pub bind : Bytes
  pub secret : Bytes

pub record SlaveConfig : Type 0 where
  pub enabled : Bool
  pub master_url : Bytes
  pub stratum_bind : Bytes
  pub stratum_tls_bind : Bytes
  pub tls_cert : Bytes
  pub tls_key : Bytes
  pub getwork_enabled : Bool
  pub getwork_bind : Bytes
  pub websocket_enabled : Bool
  pub websocket_bind : Bytes
  pub xatum_enabled : Bool
  pub xatum_bind : Bytes

pub record MiningConfig (F : Type 0) : Type 0 where
  pub initial_difficulty : ℕ
  pub min_difficulty : ℕ
  pub max_difficulty : ℕ
  pub vardiff_target_time : F
  pub vardiff_retarget : F
  pub vardiff_variance : F
  pub job_refresh_interval : ℕ

pub record ValidationConfig : Type 0 where
  pub trust_threshold : ℤ
  pub trust_check_percent : ℤ
  pub hashrate_window : ℕ
  pub hashrate_large_window : ℕ

pub record UnlockerConfig : Type 0 where
  pub enabled : Bool
  pub interval : ℕ
  pub immature_depth : ℕ
  pub mature_depth : ℕ

pub record PplnsConfig (F : Type 0) : Type 0 where
  pub window : F
  pub dynamic_window : Bool
  pub min_window : F
  pub max_window : F

pub record PayoutsConfig (F : Type 0) : Type 0 where
  pub enabled : Bool
  pub interval : ℕ
  pub threshold : ℕ
  pub max_addresses_per_tx : ℤ
  pub gas_limit : ℕ
  pub gas_price : Bytes
  pub withdrawal_fee : ℕ
  pub withdrawal_fee_rate : F
  pub wallet_rpc : Bytes
  pub wallet_user : Bytes
  pub wallet_password : Bytes
  pub wallet_network : Bytes

pub record Config (F : Type 0) : Type 0 where
  pub pool : PoolConfig F
  pub node : NodeConfig
  pub master : MasterConfig
  pub slave : SlaveConfig
  pub mining : MiningConfig F
  pub validation : ValidationConfig
  pub unlocker : UnlockerConfig
  pub pplns : PplnsConfig F
  pub payouts : PayoutsConfig F

-- The errors of `Validate`, in the order of its tests.
pub data ConfigError : Type 0 where
  fee_address_required fee_out_of_range node_required : ConfigError
  upstream_url_required : ConfigError
  secret_required min_above_max target_time_not_positive : ConfigError
  threshold_zero wallet_rpc_required : ConfigError

abbrev pub is_empty : Bytes → Bool
is_empty s = bytes_eq s []

abbrev pub any_without_url : List UpstreamConfig → Bool
any_without_url [] = false
any_without_url (u ∷ us) = is_empty u.url || any_without_url us

abbrev pub no_upstreams : List UpstreamConfig → Bool
no_upstreams [] = true
no_upstreams (u ∷ us) = false

-- The first test that holds gives its error.
abbrev pub first_error : List (Bool × ConfigError) → Option ConfigError
first_error [] = none
first_error ((test, e) ∷ rest) = if test then some e else first_error rest

abbrev pub checks : {F : Type 0} → Floats F → Config F → List (Bool × ConfigError)
checks fl c =
    let number = fl.base.of_uint64 in
    (is_empty c.pool.fee_address, fee_address_required)
    ∷ (fl.less c.pool.fee (number 0) || fl.less (number 100) c.pool.fee, fee_out_of_range)
    ∷ (is_empty c.node.url && no_upstreams c.node.upstreams, node_required)
    ∷ (any_without_url c.node.upstreams, upstream_url_required)
    ∷ (c.master.enabled && is_empty c.master.secret, secret_required)
    ∷ (ltb c.mining.max_difficulty c.mining.min_difficulty, min_above_max)
    ∷ (fl.at_most c.mining.vardiff_target_time (number 0), target_time_not_positive)
    ∷ (c.payouts.threshold == 0, threshold_zero)
    ∷ (c.payouts.enabled && is_empty c.payouts.wallet_rpc, wallet_rpc_required)
    ∷ []

-- `none` is a nil error. The number of the upstream in its message is left out.
unfoldable pub validate : {F : Type 0} → Floats F → Config F → Option ConfigError
validate fl c = first_error (checks fl c)

abbrev pub is_combined_mode : {F : Type 0} → Config F → Bool
is_combined_mode c = c.master.enabled && c.slave.enabled

abbrev pub is_master_only : {F : Type 0} → Config F → Bool
is_master_only c = c.master.enabled && not c.slave.enabled

abbrev pub is_slave_only : {F : Type 0} → Config F → Bool
is_slave_only c = not c.master.enabled && c.slave.enabled
