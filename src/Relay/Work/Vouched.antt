-- ===== src/Relay/Work/Vouched.antt =====
-- What stands behind an instruction that a processor hands to the sender.
use tee_relay_client.Base.{
  ℕ, Bool, [], ◌∷◌, some, Result, ok, err, panic, Go, ◌≡◌, ◌⊎◌, inl, inr, refl, ◌∙◌, arith,
}
use tee_relay_client.Instruction.{Instr, World}
use tee_relay_client.Processor.{Env, Processor}
use tee_relay_client.Processor.Laws.{Emitted}
use tee_relay_client.Fdc.Handler.{FdcLib}
use tee_relay_client.Fdc.Handler.Parts.{fixed_message}
use tee_relay_client.Fdc.Queues
use tee_relay_client.Fdc.Queues.{Fdc, wrap_handle}
use tee_relay_client.Backup.Defs.{BackupLib}
use tee_relay_client.Router.{
  OpLib, Kind, base_processor, fdc_processor, backup_processor, commands, run_processor,
}
use tee_relay_client.Client.{Router}
use tee_relay_client.Relay.Defs.{Job}
use tee_relay_client.Relay.Work.{entered, Queued, handed, queued, processed, work}
use tee_relay_client.Relay.Work.Ends.{Silent, RestoreSent, part, direct, process_end, restore_end}
use tee_relay_client.Relay.Work.Attempts.{ResponseSent, queue_end}

-- A processor's last act, whichever it is.
pub record LastAct (env : Env) (b : Processor) (w w' : World) : Type 0 where
  pub mid : World
  pub mid_out : mid.out ≡ w.out
  pub emitted : Emitted env b mid w'

-- The processor whose signer a kind of processing uses.
abbrev pub signer_of : {Q : Type 0} → Router Q → Kind → Processor
signer_of r base_processor = r.base_processor
signer_of r fdc_processor = r.fdc_processor.handler.base
signer_of r backup_processor = r.base_processor

module _ (env : Env) (fdc_lib : FdcLib) (backup_lib : BackupLib) (allow_unsafe_urls : Bool)
    {Q : Type 0} (r : Router Q) where
  -- The base processor signs any instruction; a request is first confirmed by its verifier, and a
  -- restore is checked.
  pub data Vouched : Kind → World → World → Type 0 where
    any : {w w' : World} → Emitted env r.base_processor w w' → Vouched base_processor w w'
    confirmed :
        {w w' : World}
        → ResponseSent env fdc_lib r.fdc_processor.handler w w'
        → Vouched fdc_processor w w'
    restored :
        {w w' : World}
        → RestoreSent env r.base_processor backup_lib allow_unsafe_urls w w'
        → Vouched backup_processor w w'

  pub Vouched-LastAct :
      {k : Kind} {w w' : World} → Vouched k w w' → LastAct env (signer_of r k) w w'
  Vouched-LastAct {w = w} (any e) = record { mid = w; mid_out = refl; emitted = e }
  Vouched-LastAct (confirmed c) = record { mid = _; mid_out = c.mid_out; emitted = c.emitted }
  Vouched-LastAct (restored (part request wb u o i q s)) = record {
    mid = _;
    mid_out = s.mid_out ∙ q;
    emitted = s.forwarded.emitted;
  }
  Vouched-LastAct (restored (direct d)) = record {
    mid = d.mid;
    mid_out = d.mid_out;
    emitted = d.emitted;
  }

queues_process_keeps :
    {Q : Type 0} (add : Q → Instr → ℕ → Result (Unit {0})) (lib : FdcLib) (f : Fdc Q) (w : World)
    → ((Queues.process add lib f w).1.ib ≡ w.ib) × ((Queues.process add lib f w).1.out ≡ w.out)
unfolding Queues.process
queues_process_keeps add lib f w = (ground arith, ground arith)

module _ (env : Env) (fdc_lib : FdcLib) (backup_lib : BackupLib) (op : OpLib)
    (allow_unsafe_urls : Bool) {Q : Type 0} (add : Q → Instr → ℕ → Result (Unit {0}))
    (dequeue : Go World (Unit {0}) → World → World) (r : Router Q) (clock : Kind × Instr → ℕ) where
  abbrev runs : Job → World
  runs = processed env fdc_lib backup_lib op allow_unsafe_urls add dequeue r clock

  abbrev from_start : Job → World
  from_start job = entered (clock job) job.1

  abbrev Served : Job → Type 0
  Served job =
      Silent (from_start job) (runs job)
      ⊎ Vouched env fdc_lib backup_lib allow_unsafe_urls r job.0 (from_start job) (runs job)

  -- go-flare-common's queue makes attempts, and nothing else.
  module _ (attempts : (f : Go World (Unit {0})) (w : World) → Queued f w (dequeue f w)) where
    queued_end :
        (w : World) (x : Result (Unit {0}) × World)
        → fixed_message w ≡ []
        → x.1.ib ≡ w.ib
        → x.1.out ≡ w.out
        → let v = queued env fdc_lib backup_lib op allow_unsafe_urls add dequeue r clock x in
          Silent w v ⊎ ResponseSent env fdc_lib r.fdc_processor.handler w v
    queued_end w (ok tt, u) empty same quiet =
        queue_end env fdc_lib r.fdc_processor.handler empty same quiet
          (attempts (wrap_handle env fdc_lib r.fdc_processor.handler) u)
    queued_end w (err e, u) empty same quiet = inl quiet
    queued_end w (panic, u) empty same quiet = inl quiet

    processed_end :
        (k : Kind) (ib : Instr) → ib.general_data.additional_fixed_message ≡ [] → Served (k, ib)
    unfolding processed run_processor
    processed_end base_processor ib empty =
        elim (process_end env r.base_processor (from_start (base_processor, ib))) [
          | inl quiet ↦ inl quiet
          | inr e ↦ inr (any e)
        ]
    processed_end fdc_processor ib empty =
        let w = from_start (fdc_processor, ib) in
        let (same, quiet) = queues_process_keeps add fdc_lib r.fdc_processor w in
        elim (queued_end w (Queues.process add fdc_lib r.fdc_processor w) empty same quiet) [
          | inl quiet ↦ inl quiet
          | inr c ↦ inr (confirmed c)
        ]
    processed_end backup_processor ib empty =
        elim (restore_end env r.base_processor backup_lib allow_unsafe_urls (commands op)
          (from_start (backup_processor, ib))) [ inl quiet ↦ inl quiet | inr s ↦ inr (restored s) ]

    handed_lem : (w : World) {ib : Instr} → w.out ≡ w.ib ∷ [] → handed w.out ≡ some ib → ib ≡ w.ib
    handed_lem w e h = ground arith

    -- What a job hands to the sender.
    pub work-Vouched :
        (job : Job) (ib : Instr)
        → job.1.general_data.additional_fixed_message ≡ []
        → work env fdc_lib backup_lib op allow_unsafe_urls add dequeue r clock job ≡ some ib
        → Vouched env fdc_lib backup_lib allow_unsafe_urls r job.0 (from_start job) (runs job)
          × (ib ≡ (runs job).ib)
    unfolding work
    work-Vouched (k, i) ib empty h = elim (processed_end k i empty) [
      | inl quiet ↦ absurd (ground (arith, quiet))
      | inr v ↦
          let last = Vouched-LastAct env fdc_lib backup_lib allow_unsafe_urls r v in
          (v, handed_lem (runs (k, i)) (ground (arith, last.mid_out, last.emitted.out_grown)) h)
    ]
