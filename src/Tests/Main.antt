-- ===== src/Tests/Main.antt =====
-- A relay that is started, and one that cannot bind the port of its health server.
use tee_relay_client.Base.{false, bytes, ◌≡◌, ◌≢◌, refl, inr, bytes_dec, new, ok, err}
use native.Mathlib.Decide.{ℕ_discrete}
use tee_relay_client.Config.{
  default, check_address, check_chain_id, check_start_interval, check_queues, check_queues_loop,
  check_health, no_address,
}
use tee_relay_client.Config.Load.{
  load_config, apply_flare_tee_manager_env, apply_unsafe_env, check_all,
}
use tee_relay_client.Client.{new_with_db, set_signer, private_key_from_env, cut_prefix, new_router}
use tee_relay_client.Router.{new_filterer}
use tee_relay_client.Fdc.Queues.{new_fdc, new_fdc_handler, handler_loop, queue_loop, make_queues}
use tee_relay_client.Health.Lifecycle.{listen}
use tee_relay_client.Main.{Sections, Outside, new_process, start_health, start_up}
use tee_relay_client.Main.Start.{Prepared, Refused}
use tee_relay_client.Main.Launch.{Launched, start_up-Launched, start_up-Refused}
use tee_relay_client.Tests.Client.{test_lib, test_client, local_key, no_queues, named}
use tee_relay_client.Tests.Config.{test_env, read_file, loaded}

abbrev test_sections : Sections (Unit {0})
test_sections = record { signer = local_key; fdc = no_queues; relay_cutover = false }

abbrev outside : Outside
outside = record {
  join_host_port = λ host port. port;
  itoa = λ n. bytes "8080";
  bind = λ a. ok tt;
  connect = ok tt;
  wait_to_sync = λ p. ok tt;
}

abbrev busy : Outside
busy = record outside { bind = λ a. err (new "address already in use") }

loads : load_config test_env read_file ≡ ok loaded
unfolding load_config default apply_flare_tee_manager_env apply_unsafe_env check_all check_address
    check_chain_id check_start_interval check_queues check_queues_loop check_health no_address
    bytes_dec ℕ_discrete
loads = refl

assembles : new_with_db test_lib named loaded local_key no_queues ≡ ok test_client
unfolding new_with_db set_signer private_key_from_env cut_prefix new_router new_filterer new_fdc
    new_fdc_handler handler_loop queue_loop make_queues bytes_dec ℕ_discrete
assembles = refl

prepared : Prepared outside test_env read_file test_lib named test_sections loaded test_client
prepared = record {
  loaded = loads;
  bindable = inr refl;
  connected = refl;
  made = assembles;
  synced = refl;
}

refuses : (start_up busy test_env read_file test_lib named test_sections new_process).0 ≢ ok tt
unfolding start_up start_health listen load_config default apply_flare_tee_manager_env
    apply_unsafe_env check_all check_address check_chain_id check_start_interval check_queues
    check_queues_loop check_health no_address bytes_dec ℕ_discrete
refuses = λ e. cc

start_up-Launched_example :
    let (r, p) = start_up outside test_env read_file test_lib named test_sections new_process in
    Launched outside test_env read_file test_lib named test_sections loaded test_client r p
start_up-Launched_example =
    start_up-Launched outside test_env read_file test_lib named test_sections loaded test_client
      prepared

start_up-Refused_example :
    let (r, p) = start_up busy test_env read_file test_lib named test_sections new_process in
    Refused r p
start_up-Refused_example =
    start_up-Refused busy test_env read_file test_lib named test_sections refuses
