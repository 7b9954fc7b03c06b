-- ===== src/Tests/Fitting.antt =====
-- A verifier that validates, behind a queue whose first attempt fails.
use tee_relay_client.Base.{
  ℕ, zero, suc, [], ◌∷◌, ◌++◌, Bytes, bytes, bytes_dec, some, Result, ok, err, new, ◌≡◌, ◌⊎◌, refl,
}
use tee_relay_client.Base.Dict.{lookup, insert}
use native.Mathlib.Decide.{ℕ_discrete}
use tee_relay_client.Signer.{new_local, local_sign, sign_loop}
use tee_relay_client.Instruction.{World, sign, hashes_for_signing, hash_loop}
use tee_relay_client.Processor.{sign_and_emit, emit}
use tee_relay_client.Fdc.Verifier.{
  VerifierResponse, Request, status_verified, status_retry, status_rejected, response,
  validate_response, truncate_text,
}
use tee_relay_client.Fdc.Handler.{
  Responder, handle, att_type_and_source_id, verified_response, take_verdict, finish, sign_response,
}
use tee_relay_client.Fdc.Handler.Parts.{fixed_message}
use tee_relay_client.Fdc.Queues.{
  FdcConfig, Fdc, new_fdc, new_fdc_handler, handler_loop, queue_loop, make_queues,
  join_att_type_and_source_id, wrap_handle,
}
use tee_relay_client.Relay.Work.{Queued, done, again}
use tee_relay_client.Relay.Work.Ends.{Silent}
use tee_relay_client.Relay.Work.Fitting.{Fits, new_fdc-Fits}
use tee_relay_client.Tests.Samples.{test_env, test_base}
use tee_relay_client.Tests.Fdc.{test_lib, test_response, padded, named, fresh}

abbrev fits_any : Bytes → Result (Unit {0})
fits_any body = ok tt

-- The server cannot be reached at first.
abbrev flaky : ℕ → Request → Result VerifierResponse
flaky zero request = err (new "connection refused")
flaky (suc t) request = ok (test_response status_verified)

abbrev validating : Responder
validating = response fits_any flaky

abbrev validating_config : FdcConfig (Unit {0})
validating_config = record {
  queues = (bytes "q", tt) ∷ [];
  verifiers =
      (
        bytes "v",
        record {
          att_type = 1 ∷ [];
          source_id = 2 ∷ [];
          queue_name = bytes "q";
          server_check = ok tt;
          server = validating;
        },
      )
      ∷ [];
}

abbrev validating_fdc : Fdc Bytes
validating_fdc = record {
  id_to_queue_name = (padded 1 ++ padded 2, bytes "q") ∷ [];
  queues = (bytes "q", bytes "q") ∷ [];
  handler = record { base = test_base; verifiers = (padded 1 ++ padded 2, validating) ∷ [] };
}

abbrev hashed : Bytes → Result Bytes
hashed s = ok s

validating_made : new_fdc named hashed (some validating_config) test_base ≡ ok validating_fdc
unfolding new_fdc new_fdc_handler handler_loop queue_loop make_queues join_att_type_and_source_id
    lookup insert bytes_dec ℕ_discrete
validating_made = refl

abbrev attempt : World → Result (Unit {0}) × World
attempt = wrap_handle test_env test_lib validating_fdc.handler

-- A second attempt goes through.
abbrev between : World
between = record (attempt fresh).1 { tick = 7 }

abbrev sent : World
sent = (attempt between).1

two_attempts : Queued (wrap_handle test_env test_lib validating_fdc.handler) fresh sent
unfolding handle att_type_and_source_id verified_response take_verdict finish sign_response
    sign_and_emit emit sign hashes_for_signing hash_loop new_local local_sign sign_loop lookup
    bytes_dec ℕ_discrete status_verified status_retry status_rejected wrap_handle response
    validate_response truncate_text
two_attempts = again fresh between sent 7 (λ e. cc) refl (done between sent refl refl)

new_fdc-Fits_example :
    Silent fresh sent ⊎ (sent.out ≡ [] ++ (sent.ib ∷ [])) × Fits fits_any (fixed_message sent)
new_fdc-Fits_example =
    new_fdc-Fits fits_any hashed named validating_config test_base validating_fdc test_env test_lib
      validating_made ((flaky, refl), tt) refl two_attempts
