-- ===== src/Instruction.antt =====
-- internal/router/instructions/instructions.go: the instruction that the relay handles.
pub mod Dedup
pub mod Signing
use tee_relay_client.Base.{
  ℕ, Bool, true, false, ◌+◌, List, [], ◌∷◌, ◌++◌, Bytes, bytes_dec, ◌==◌, Eq, contains,
  if◌then◌else◌, Error, new, wrap, Result, ok, err, panic, wrapped, then_do, Go, ◌>>=◌, ◌>>◌, lift,
  gets, modify,
}
use tee_relay_client.Signer.{Signer}

-- `IMachineManagerTeeMachine`; the relay reads the id and the URL, and compares all of it.
pub record TeeMachine : Type 0 where
  pub tee_id : Bytes
  pub rest : Bytes
  pub url : Bytes

unfoldable pub TeeMachine_dec : Discrete TeeMachine
unfolding bytes_dec
TeeMachine_dec = hlevel bytes_dec

instance abbrev pub TeeMachine_eq : Eq TeeMachine
TeeMachine_eq = record { dec = TeeMachine_dec }

-- The parsed TeeInstructionsSent log.
pub record Event : Type 0 where
  pub instruction_id : Bytes
  pub tee_machines : List TeeMachine
  pub reward_epoch_id : ℕ
  pub op_type : Bytes
  pub op_command : Bytes
  pub message : Bytes
  pub cosigners : List Bytes
  pub cosigners_threshold : ℕ

-- `instruction.Data`, with the fields of its `DataFixed`.
pub record Data : Type 0 where
  pub instruction_id : Bytes
  pub tee_id : Bytes
  pub timestamp : ℕ
  pub reward_epoch_id : ℕ
  pub op_type : Bytes
  pub op_command : Bytes
  pub cosigners : List Bytes
  pub cosigners_threshold : ℕ
  pub original_message : Bytes
  pub additional_fixed_message : Bytes
  pub additional_variable_message : Bytes

-- The struct `Base`.
pub record Instr : Type 0 where
  pub event : Event
  pub tees : List TeeMachine
  pub general_data : Data
  pub signatures : List Bytes

-- The loop of `removeDuplicates`: `set` is the map's keys.
module _ {A : Type 0} ⦃e : Eq A⦄ where
  unfoldable pub dedup_loop : (set unique : List A) → List A → List A
  dedup_loop set unique [] = unique
  dedup_loop set unique (x ∷ s) =
      let old = contains set x in
      dedup_loop (if old then set else x ∷ set) (if old then unique else unique ++ (x ∷ [])) s

  unfoldable pub remove_duplicates : List A → List A
  unfolding dedup_loop
  remove_duplicates s = dedup_loop [] [] s

abbrev pub zero_address : Bytes
zero_address = 0 ∷ 0 ∷ 0 ∷ 0 ∷ 0 ∷ 0 ∷ 0 ∷ 0 ∷ 0 ∷ 0 ∷ 0 ∷ 0 ∷ 0 ∷ 0 ∷ 0 ∷ 0 ∷ 0 ∷ 0 ∷ 0 ∷ 0 ∷ []

-- `EventToData`. Fields that the literal leaves out get Go's zero value.
unfoldable pub event_to_data : Instr → ℕ → Instr
unfolding remove_duplicates
event_to_data ib timestamp = record ib {
  general_data = record {
    instruction_id = ib.event.instruction_id;
    tee_id = zero_address;
    timestamp = timestamp;
    reward_epoch_id = ib.event.reward_epoch_id;
    op_type = ib.event.op_type;
    op_command = ib.event.op_command;
    cosigners = ib.event.cosigners;
    cosigners_threshold = ib.event.cosigners_threshold;
    original_message = ib.event.message;
    additional_fixed_message = [];
    additional_variable_message = [];
  };
  tees = remove_duplicates ib.event.tee_machines;
}

-- A row of the indexer's log table: its timestamp, and the rest as the event parser reads it.
pub record Log : Type 0 where
  pub timestamp : ℕ
  pub topic2 : Bytes
  pub payload : Bytes

-- The struct's zero value, with the event set.
abbrev blank : Event → Instr
blank event = record {
  event = event;
  tees = [];
  general_data = record {
    instruction_id = [];
    tee_id = zero_address;
    timestamp = 0;
    reward_epoch_id = 0;
    op_type = [];
    op_command = [];
    cosigners = [];
    cosigners_threshold = 0;
    original_message = [];
    additional_fixed_message = [];
    additional_variable_message = [];
  };
  signatures = [];
}

-- `ConvertDatabaseLogToChainLog` and `ParseTeeInstructionsSent`, of other modules.
module _ {ChainLog : Type 0} (convert : Log → Result ChainLog)
    (parse : ChainLog → Result Event) where
  unfoldable pub parse_tee_instructions_sent : Log → Result Event
  parse_tee_instructions_sent i =
      then_do (wrapped "converting instruction db log" (convert i))
        λ cl. wrapped "parsing instruction" (parse cl)

  unfoldable pub parse_instruction : Log → Result Instr
  unfolding parse_tee_instructions_sent event_to_data
  parse_instruction il =
      then_do (parse_tee_instructions_sent il)
        λ event. ok (event_to_data (blank event) il.timestamp)

-- What the handling of one instruction can change: the instruction, what was sent on the out
-- channel, the number of calls made to other parties, and of those to a verifier.
pub record World : Type 0 where
  pub ib : Instr
  pub out : List Instr
  pub tick : ℕ
  pub asked : ℕ

-- A call of another party, which answers by the time of the call.
abbrev pub ask : {A : Type 0} → (ℕ → Result A) → Go World A
ask f w = (f w.tick, record w { tick = w.tick + 1 })

-- tee-node's `Data.HashForSigning`.
module _ (hash_for_signing : ℕ → Data → Result Bytes) where
  -- The loop over the tees, with `data` a copy whose `TeeID` each round sets.
  unfoldable pub hash_loop : ℕ → Data → List TeeMachine → Result (List Bytes)
  hash_loop chain_id data' [] = ok []
  hash_loop chain_id data' (tee ∷ tees) =
      let d = record data' { tee_id = tee.tee_id } in
      then_do (wrapped "hashing instruction" (hash_for_signing chain_id d))
        λ hash. then_do (hash_loop chain_id d tees) λ hashes. ok (hash ∷ hashes)

  unfoldable pub hashes_for_signing : ℕ → Instr → Result (List Bytes)
  unfolding hash_loop
  hashes_for_signing chain_id ib = hash_loop chain_id ib.general_data ib.tees

  -- `(ib *Base) Sign`
  unfoldable pub sign : Signer → ℕ → Go World (Unit {0})
  unfolding hashes_for_signing
  sign s chain_id = do
    ib ← gets (λ (w : World). w.ib)
    to_sign ← lift (wrapped "preparing" (hashes_for_signing chain_id ib))
    signatures ← ask (λ t. wrapped "getting signatures" (s.sign t to_sign))
    modify (λ w. record w { ib = record w.ib { signatures = signatures } })
