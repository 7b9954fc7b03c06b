-- ===== src/Router/Laws.antt =====
-- Which instructions are processed, and by whom.
use tee_relay_client.Base.{
  Bool, true, false, ◌&&◌, ◌||◌, List, [], ◌∷◌, ◌++◌, bytes_eq, ◌==◌, contains, Option, none, some,
  ◌≡◌, ◌≢◌, ◌⊎◌, ◌↔◌, inl, inr, ap, Error, Result, ok, err, panic, new, Result-cases, arith,
}
use tee_relay_client.Instruction.{
  Event, Instr, Log, World, parse_instruction, parse_tee_instructions_sent,
}
use tee_relay_client.Processor.{Env, Processor}
use tee_relay_client.Backup.Defs.{BackupLib}
use tee_relay_client.Backup.Restore
use tee_relay_client.Backup.Restore.{process_data_provider_restore, process_direct_restore}
use tee_relay_client.Router.{
  OpLib, Kind, backup_processor, Filterer, provider, cosigner, filter, inst_class, route, commands,
  filtered_out, started, handle, keep_started, handle_batch,
}

module _ (op : OpLib) where
  -- The backup processor supports what is routed to it: `Process` then runs one of the two
  -- restore flows.
  pub route-backup_process :
      (env : Env) (lib : BackupLib) (base : Processor) (unsafe : Bool) (w : World)
      → route op w.ib.event ≡ ok backup_processor
      → (Restore.process env lib base unsafe (commands op) w
          ≡ process_data_provider_restore env lib base unsafe w)
        ⊎ (Restore.process env lib base unsafe (commands op) w
            ≡ process_direct_restore env lib base unsafe w)
  unfolding route inst_class Restore.process
  route-backup_process env lib base unsafe w h = ground arith

  -- `Route` fails exactly for an operation that is not valid and is none of the three that have a
  -- processor of their own.
  pub route_fails :
      (event : Event)
      → let t = op.hash_to_op_type event.op_type in
        let c = op.hash_to_op_command event.op_command in
        ((e : Error) × (route op event ≡ err e)) ↔ (
          (op.is_valid t c ≡ false)
          × ((t == op.fdc2 && c == op.prove) ≡ false)
          × ((t == op.wallet && (c == op.key_data_provider_restore || c == op.key_direct_restore))
              ≡ false))
  unfolding route inst_class
  route_fails event =
      (λ h. ground arith, λ h. (new "unexpected instructions.InstructionClass", ground arith))

  module _ {ChainLog : Type 0} (convert : Log → Result ChainLog)
      (parse : ChainLog → Result Event) where
    -- Who is meant to process the event: everybody, or a cosigner that the event names.
    abbrev pub Concerns : Option Filterer → Event → Type 0
    Concerns none event = Unit
    Concerns (some provider) event = Unit
    Concerns (some (cosigner address)) event = contains event.cosigners address ≡ true

    -- `Handle` starts a processor on an instruction exactly when the log parses to that
    -- instruction, the filter lets its event pass, and the event is routed to that processor.
    pub handle_started :
        (f : Option Filterer) (log : Log) (k : Kind) (ib : Instr)
        → (handle op convert parse f log ≡ ok (started k ib)) ↔ (
            (parse_instruction convert parse log ≡ ok ib)
            × Concerns f ib.event
            × (route op ib.event ≡ ok k))
    unfolding handle filter
    handle_started none log k ib = elim (Result-cases (parse_instruction convert parse log)) [
      | inl (x, e) ↦ elim (Result-cases (route op x.event)) [
        | inl (k', r) ↦ (λ h. ground arith, λ h. ground arith)
        | inr bad ↦ (λ h. absurd (ground arith), λ h. absurd (ground arith))
      ]
      | inr bad ↦ (λ h. absurd (ground arith), λ h. absurd (ground arith))
    ]
    handle_started (some provider) log k ib =
        elim (Result-cases (parse_instruction convert parse log)) [
          | inl (x, e) ↦ elim (Result-cases (route op x.event)) [
            | inl (k', r) ↦ (λ h. ground arith, λ h. ground arith)
            | inr bad ↦ (λ h. absurd (ground arith), λ h. absurd (ground arith))
          ]
          | inr bad ↦ (λ h. absurd (ground arith), λ h. absurd (ground arith))
        ]
    handle_started (some (cosigner address)) log k ib =
        elim (Result-cases (parse_instruction convert parse log)) [
          | inl (x, e) ↦ elim (Result-cases (route op x.event)) [
            | inl (k', r) ↦ (λ h. ground arith, λ h. ground arith)
            | inr bad ↦ (λ h. absurd (ground arith), λ h. absurd (ground arith))
          ]
          | inr bad ↦ (λ h. absurd (ground arith), λ h. absurd (ground arith))
        ]

    -- Where no other module panics on the log, `Handle` does not either.
    pub handle_returns :
        (f : Option Filterer) (log : Log)
        → ((l : Log) → convert l ≢ panic)
        → ((cl : ChainLog) → parse cl ≢ panic)
        → handle op convert parse f log ≢ panic
    unfolding handle parse_instruction parse_tee_instructions_sent route inst_class
    handle_returns f log c p =
        let made = c log in
        elim (Result-cases (convert log)) [
          | inl (cl, e) ↦ let read = p cl in λ h. ground arith
          | inr bad ↦ λ h. ground arith
        ]

    -- A log that starts no processor, because of an error or the filter, changes nothing for the
    -- other logs of its batch.
    pub handle_batch_skips :
        (f : Option Filterer) (before : List Log) (log : Log) (after : List Log)
        → ((k : Kind) (ib : Instr) → handle op convert parse f log ≢ ok (started k ib))
        → handle op convert parse f log ≢ panic
        → handle_batch op convert parse f (before ++ (log ∷ after))
          ≡ handle_batch op convert parse f (before ++ after)
    unfolding handle_batch
    handle_batch_skips f [] log after h lives =
        elim (Result-cases (handle op convert parse f log)) [
          | inl (filtered_out, e) ↦ ground arith
          | inl (started k ib, e) ↦ absurd (h k ib e)
          | inr (inl (e, x)) ↦ ground arith
          | inr (inr x) ↦ absurd (lives x)
        ]
    handle_batch_skips f (l ∷ before) log after h lives =
        ap (keep_started op convert parse (handle op convert parse f l))
          (handle_batch_skips f before log after h lives)
