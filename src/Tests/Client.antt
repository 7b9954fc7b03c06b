-- ===== src/Tests/Client.antt =====
-- A data provider with a local key: the environment, and the client that is assembled from it.
use tee_relay_client.Base.{true, false, [], Bytes, bytes, some, ok}
use tee_relay_client.Base.Int.{pos}
use tee_relay_client.Signer.{new_local, SignerServer}
use tee_relay_client.Processor.{new_base}
use tee_relay_client.Fdc.Queues.{FdcConfig}
use tee_relay_client.Router.{provider}
use tee_relay_client.Client.{SignerConfig, ClientLib, Client}
use tee_relay_client.Tests.Samples.{test_key}
use tee_relay_client.Tests.Config.{loaded}

abbrev no_server : SignerServer
no_server = record {
  post_sign = λ limit t hashes. ok [];
  post_decrypt = λ limit t cipher. ok [];
  do_id = λ t attempt. ok (200, []);
  execute = λ f. f 0;
  decode_id = λ body. ok test_key.public;
}

-- The environment has the key for every name, and it parses to the sample key.
abbrev pub test_lib : ClientLib
test_lib = record {
  lookup_env = λ name. some (bytes "0x07");
  hex_to_ecdsa = λ s. ok test_key;
  parse_url = λ url. ok (record { scheme = []; host = [] });
  server_at = λ c. no_server;
  parse_pub_key = λ pk. ok pk;
  pubkey_to_address = λ pk. pk.x;
  string_to_common_hash = λ s. ok s;
}

abbrev pub local_key : SignerConfig
local_key = record {
  credentials = record { key_name = []; key = []; url = [] };
  local = true;
  private_key_variable = [];
}

abbrev pub no_queues : FdcConfig (Unit {0})
no_queues = record { queues = []; verifiers = [] }

abbrev pub named : Unit {0} → Bytes → Bytes
named params name = name

abbrev pub test_client : Client Bytes
test_client = record {
  flare_tee_manager = loaded.flare_tee_manager;
  start_interval = pos 100;
  signer = new_local test_key;
  router = record {
    filterer = provider;
    base_processor = new_base 14 (new_local test_key);
    fdc_processor = record {
      id_to_queue_name = [];
      queues = [];
      handler = record { base = new_base 14 (new_local test_key); verifiers = [] };
    };
  };
  allow_unsafe_urls = false;
}
