-- ===== src/Tests/Samples.antt =====
-- A small world: a local key, two machines, and an instruction for both.
use tee_relay_client.Base.{true, false, List, [], ◌∷◌, Bytes, bytes, ok}
use tee_relay_client.Signer.{PublicKey, Key, new_local}
use tee_relay_client.Instruction.{TeeMachine, Event, Data, World}
use tee_relay_client.Processor.{Processor, Env}

abbrev pub test_pk : PublicKey
test_pk = record { x = 1 ∷ []; y = 2 ∷ [] }

-- The signature is the hash behind a 7, and the cipher text is the plain text.
abbrev pub test_key : Key
test_key = record { sign_hash = λ h. ok (7 ∷ h); decrypt_cipher = λ c. ok c; public = test_pk }

abbrev pub test_env : Env
test_env = record {
  hash_for_signing = λ chain_id d. ok (chain_id ∷ d.tee_id);
  cancelled = λ t. false;
}

abbrev pub test_base : Processor
test_base = record { chain_id = 14; signer = new_local test_key; out_set = true }

abbrev pub machine_a : TeeMachine
machine_a = record { tee_id = 1 ∷ []; rest = []; url = bytes "http://a" }

abbrev pub machine_b : TeeMachine
machine_b = record { tee_id = 2 ∷ []; rest = []; url = bytes "http://b" }

abbrev pub test_event : Event
test_event = record {
  instruction_id = 5 ∷ [];
  tee_machines = machine_a ∷ machine_b ∷ machine_a ∷ [];
  reward_epoch_id = 3;
  op_type = 1 ∷ [];
  op_command = 2 ∷ [];
  message = 4 ∷ [];
  cosigners = [];
  cosigners_threshold = 0;
}

-- The data of the event with the given fixed message.
abbrev pub data_with : Bytes → Data
data_with fixed = record {
  instruction_id = 5 ∷ [];
  tee_id = 0 ∷ [];
  timestamp = 100;
  reward_epoch_id = 3;
  op_type = 1 ∷ [];
  op_command = 2 ∷ [];
  cosigners = [];
  cosigners_threshold = 0;
  original_message = 4 ∷ [];
  additional_fixed_message = fixed;
  additional_variable_message = [];
}

abbrev pub world_with : List TeeMachine → Bytes → World
world_with tees fixed = record {
  ib = record { event = test_event; tees = tees; general_data = data_with fixed; signatures = [] };
  out = [];
  tick = 0;
  asked = 0;
}

abbrev pub test_world : World
test_world = world_with (machine_a ∷ machine_b ∷ []) []
