-- ===== src/Config.antt =====
-- pkg/config/config.go: the configuration, its defaults and its checks; the loading of it by
-- cmd/main/main.go is in Load.
pub mod Load
pub mod Credentials
use tee_relay_client.Base.{
  ℕ, Bool, true, false, ◌&&◌, ◌||◌, List, [], ◌∷◌, replicate, Bytes, bytes_eq, nat_eq, ◌==◌,
  if◌then◌else◌, Error, new, Result, ok, err,
}
use tee_relay_client.Base.Dict.{Dict}
use tee_relay_client.Base.Int.{ℤ, pos, negsuc, ltb_ℤ}

-- The parameters of a queue that the checks read; durations are nanoseconds.
pub record QueueParams : Type 0 where
  pub max_attempts : ℤ
  pub time_off : ℤ
  pub rest : Bytes

-- The struct `Health`.
pub record HealthConfig : Type 0 where
  pub disabled : Bool
  pub port : ℤ
  pub max_indexer_lag : ℤ

-- The struct `Config`: the collector's section is its one field, and `rest` is what no check reads.
pub record Config : Type 0 where
  pub flare_tee_manager : Bytes
  pub chain_id : ℕ
  pub is_cosigner : Bool
  pub start_interval : ℤ
  pub queues : Dict Bytes QueueParams
  pub health : HealthConfig
  pub allow_unsafe_urls : Bool
  pub rest : Bytes

unfoldable pub no_address : Bytes
no_address = replicate 20 0

abbrev pub default_health_port : ℕ
default_health_port = 8080

-- `Default`
unfoldable pub default : Config
default = record {
  flare_tee_manager = no_address;
  chain_id = 0;
  is_cosigner = false;
  start_interval = pos 100;
  queues = [];
  health = record {
    disabled = false;
    port = pos default_health_port;
    max_indexer_lag = pos 30000000000;
  };
  allow_unsafe_urls = false;
  rest = [];
}

unfoldable pub check_address : Config → Result (Unit {0})
check_address c =
    if c.flare_tee_manager == no_address then err (new "FlareTeeManager address not set") else ok tt

unfoldable pub check_chain_id : Config → Result (Unit {0})
check_chain_id c =
    if c.chain_id == 0 then err (new "chain id should be a positive integer") else ok tt

unfoldable pub check_start_interval : Config → Result (Unit {0})
check_start_interval c =
    if ltb_ℤ c.start_interval (pos 0)
    then err (new "collector start_interval must not be negative")
    else ok tt

-- The loop of `CheckQueues`, in the map's order.
unfoldable pub check_queues_loop : Dict Bytes QueueParams → Result (Unit {0})
check_queues_loop [] = ok tt
check_queues_loop ((name, q) ∷ rest) =
    let next = check_queues_loop rest in
    if ltb_ℤ q.max_attempts (pos 1)
    then err (new "max_attempts must be at least 1")
    else if ltb_ℤ (pos 1) q.max_attempts && ltb_ℤ q.time_off (pos 1)
    then err (new "time_off must be positive when max_attempts > 1")
    else next

unfoldable pub check_queues : Config → Result (Unit {0})
check_queues c = check_queues_loop c.queues

unfoldable pub check_health : Config → Result (Unit {0})
check_health c =
    let h = c.health in
    if h.disabled
    then ok tt
    else if ltb_ℤ h.port (pos 1) || ltb_ℤ (pos 65535) h.port
    then err (new "health port must be in 1-65535")
    else if ltb_ℤ h.max_indexer_lag (pos 1)
    then err (new "health max_indexer_lag must be positive")
    else ok tt
