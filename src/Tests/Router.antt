-- ===== src/Tests/Router.antt =====
-- Routing of a sample restore, and a batch with a log that does not parse.
use tee_relay_client.Base.{
  true, false, [], ◌∷◌, bytes_eq, nat_eq, ◌==◌, Option, some, ◌≡◌, ◌↔◌, new, Result, ok, err,
  if◌then◌else◌,
}
use tee_relay_client.Instruction.{Event, Log, Instr, parse_instruction}
use tee_relay_client.Router.{OpLib, backup_processor, Filterer, cosigner, route, started, handle}
use tee_relay_client.Router.Laws.{handle_started}
use tee_relay_client.Tests.Samples.{test_event}
use tee_relay_client.Tests.Backup.{restoring}

-- The sample event is a KEY_DATA_PROVIDER_RESTORE of a wallet.
abbrev pub test_op : OpLib
test_op = record {
  hash_to_op_type = λ h. h;
  hash_to_op_command = λ h. h;
  fdc2 = 9 ∷ [];
  wallet = 1 ∷ [];
  prove = 8 ∷ [];
  key_data_provider_restore = 2 ∷ [];
  key_direct_restore = 3 ∷ [];
  is_valid = λ t c. t == 6 ∷ [];
}

-- An operation of no known type.
abbrev strange : Event
strange = record test_event { op_type = 4 ∷ [] }

-- A log parses to the sample event, unless its payload is empty.
abbrev parse : Log → Result Event
parse log = if log.payload == [] then err (new "no payload") else ok test_event

abbrev good : Log
good = record { timestamp = 100; topic2 = []; payload = 1 ∷ [] }

abbrev bad : Log
bad = record { timestamp = 100; topic2 = []; payload = [] }

-- A cosigner that the event does not name.
abbrev outsider : Option Filterer
outsider = some (cosigner (5 ∷ []))

abbrev test_instr : Instr
test_instr = restoring.ib

handle_started_example :
    (handle test_op (λ log. ok log) parse outsider good ≡ ok (started backup_processor test_instr))
    ↔ ((parse_instruction (λ log. ok log) parse good ≡ ok test_instr)
        × (false ≡ true)
        × (route test_op test_event ≡ ok backup_processor))
handle_started_example =
    handle_started test_op (λ log. ok log) parse outsider good backup_processor test_instr
