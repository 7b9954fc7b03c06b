-- ===== src/Tests/Config.antt =====
-- Loading a sample file, and sample credentials.
use tee_relay_client.Base.{
  false, [], ◌∷◌, replicate, Bytes, bytes, bytes_dec, some, Result, ok, ◌≡◌, ◌↔◌, refl,
}
use native.Mathlib.Decide.{ℕ_discrete}
use tee_relay_client.Base.Int.{pos}
use tee_relay_client.Config.{
  Config, no_address, default, check_address, check_chain_id, check_start_interval,
  check_queues_loop, check_queues, check_health,
}
use tee_relay_client.Config.Load.{
  Environment, apply_flare_tee_manager_env, apply_unsafe_env, check_all, load_config,
}
use tee_relay_client.Config.Load.Laws.{Loaded, load_config-Loaded}
use tee_relay_client.Config.Credentials.{Credentials, Url, check, Usable, check_lem}

abbrev test_address : Bytes
test_address = replicate 20 7

-- The address is only in the environment.
abbrev pub test_env : Environment
test_env = record {
  flare_tee_manager_variable = some test_address;
  allow_unsafe_urls_variable = some (bytes "false");
  trim_space = λ s. s;
  unmarshal_address = λ s. ok s;
}

-- A file with a chain id and a queue of three attempts.
abbrev pub read_file : Config → Result Config
read_file c = ok (record c {
  chain_id = 14;
  queues = (bytes "q", record { max_attempts = pos 3; time_off = pos 1000000000; rest = [] }) ∷ [];
})

abbrev pub loaded : Config
loaded = record {
  flare_tee_manager = test_address;
  chain_id = 14;
  is_cosigner = false;
  start_interval = pos 100;
  queues = (bytes "q", record { max_attempts = pos 3; time_off = pos 1000000000; rest = [] }) ∷ [];
  health = record { disabled = false; port = pos 8080; max_indexer_lag = pos 30000000000 };
  allow_unsafe_urls = false;
  rest = [];
}

load_config-Loaded_example : Loaded test_env read_file loaded
unfolding load_config default apply_flare_tee_manager_env apply_unsafe_env check_all check_address
    check_chain_id check_start_interval check_queues check_queues_loop check_health no_address
    bytes_dec ℕ_discrete
load_config-Loaded_example = load_config-Loaded test_env read_file loaded refl

abbrev test_credentials : Credentials
test_credentials = record { key_name = bytes "X-API-KEY"; key = bytes "k"; url = bytes "http://a" }

abbrev test_parse : Bytes → Result Url
test_parse url = ok (record { scheme = bytes "http"; host = bytes "a" })

check_lem_example : (check test_parse test_credentials ≡ ok tt) ↔ Usable test_parse test_credentials
check_lem_example = check_lem test_parse test_credentials
