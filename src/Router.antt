-- ===== src/Router.antt =====
-- internal/router: the filter, the choice of a processor, and the handling of a log.
pub mod Laws
use tee_relay_client.Base.{
  ℕ, ◌+◌, Bool, true, false, not, ◌&&◌, ◌||◌, List, [], ◌∷◌, Bytes, bytes_eq, ◌==◌, contains,
  Option, none, some, if◌then◌else◌, Error, new, Result, ok, err, panic, wrapped, then_do, Go,
}
use tee_relay_client.Signer.{PublicKey, Signer}
use tee_relay_client.Instruction.{Event, Instr, Log, World, parse_instruction}
use tee_relay_client.Backup.Restore.{Commands}

-- go-flare-common's `op` package.
pub record OpLib : Type 0 where
  pub hash_to_op_type : Bytes → Bytes
  pub hash_to_op_command : Bytes → Bytes
  pub fdc2 : Bytes
  pub wallet : Bytes
  pub prove : Bytes
  pub key_data_provider_restore : Bytes
  pub key_direct_restore : Bytes
  pub is_valid : Bytes → Bytes → Bool

pub data InstructionClass : Type 0 where
  invalid plain fdc backup : InstructionClass

-- The three processors of a router.
pub data Kind : Type 0 where
  base_processor fdc_processor backup_processor : Kind

pub data Filterer : Type 0 where
  provider : Filterer
  cosigner : Bytes → Filterer

-- `Filter`: `true` drops the event.
unfoldable pub filter : Filterer → Event → Bool
filter provider event = false
filter (cosigner address) event = not (contains event.cosigners address)

-- `NewFilterer`, with tee-node's `ParsePubKey` and go-ethereum's `PubkeyToAddress`.
module _ (parse_pub_key : PublicKey → Result PublicKey)
    (pubkey_to_address : PublicKey → Bytes) where
  unfoldable pub new_filterer : Bool → Signer → ℕ → Result Filterer
  new_filterer false sgnr t = ok provider
  new_filterer true sgnr t = then_do (wrapped "identifying signer" (sgnr.identify t)) λ id.
      then_do (wrapped "parsing signer public key" (parse_pub_key id))
        λ pubkey. ok (cosigner (pubkey_to_address pubkey))

module _ (op : OpLib) where
  -- `instClass`
  unfoldable pub inst_class : Bytes → Bytes → InstructionClass
  inst_class op_type op_command =
      let t = op.hash_to_op_type op_type in
      let c = op.hash_to_op_command op_command in
      if t == op.fdc2 && c == op.prove
      then fdc
      else if t == op.wallet && c == op.key_data_provider_restore
      then backup
      else if t == op.wallet && c == op.key_direct_restore
      then backup
      else if op.is_valid t c
      then plain
      else invalid

  abbrev route_class : InstructionClass → Result Kind
  route_class plain = ok base_processor
  route_class fdc = ok fdc_processor
  route_class backup = ok backup_processor
  route_class invalid = err (new "unexpected instructions.InstructionClass")

  -- `Route`
  unfoldable pub route : Event → Result Kind
  route event = route_class (inst_class event.op_type event.op_command)

  -- The commands as the backup processor reads them.
  abbrev pub commands : Commands
  commands = record {
    hash_to_command = op.hash_to_op_command;
    key_data_provider_restore = op.key_data_provider_restore;
    key_direct_restore = op.key_direct_restore;
  }

  -- A log is dropped by the filter, or the goroutine of its processor is started.
  pub data Handled : Type 0 where
    filtered_out : Handled
    started : Kind → Instr → Handled

  abbrev is_dropped : Option Filterer → Event → Bool
  is_dropped none event = false
  is_dropped (some f) event = filter f event

  -- `Handle`, with the parsing of logs by other modules.
  module _ {ChainLog : Type 0} (convert : Log → Result ChainLog)
      (parse : ChainLog → Result Event) where
    unfoldable pub handle : Option Filterer → Log → Result Handled
    handle filterer in_log =
        then_do (wrapped "parsing instruction" (parse_instruction convert parse in_log)) λ instr.
          if is_dropped filterer instr.event
          then ok filtered_out
          else then_do (wrapped "no processor" (route instr.event))
              λ processor. ok (started processor instr)

    -- An error is logged, and a filtered log is dropped. A panic of `Handle` is not recovered and
    -- ends the process.
    abbrev pub keep_started :
        Result Handled → Result (List (Kind × Instr)) → Result (List (Kind × Instr))
    keep_started (ok filtered_out) rest = rest
    keep_started (ok (started k ib)) rest = then_do rest λ jobs. ok ((k, ib) ∷ jobs)
    keep_started (err e) rest = rest
    keep_started panic rest = panic

    -- The body of `Run` for a batch of logs: the processors that are started, in order.
    unfoldable pub handle_batch : Option Filterer → List Log → Result (List (Kind × Instr))
    handle_batch filterer [] = ok []
    handle_batch filterer (log ∷ logs) =
        keep_started (handle filterer log) (handle_batch filterer logs)

-- The goroutine around `Process`: a panic is recovered and logged, and so is an error. What
-- remains is the world.
unfoldable pub run_processor : Go World (Unit {0}) → World → Unit {0} × World
run_processor process w = let (r, w') = process w in (tt, w')
