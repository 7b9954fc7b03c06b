-- ===== src/Tests/Fdc.antt =====
-- The FDC queue at a sample instruction: one verifier, which says VERIFIED.
use tee_relay_client.Base.{
  ℕ, [], ◌∷◌, ◌++◌, Bytes, bytes, bytes_dec, some, ◌≡◌, ◌↔◌, ◌⊎◌, nat_eq, ◌==◌, refl, Result, ok,
}
use tee_relay_client.Base.Dict.{lookup, insert}
use native.Mathlib.Decide.{ℕ_discrete}
use tee_relay_client.Signer.{new_local, local_sign, sign_loop}
use tee_relay_client.Instruction.{World, sign, hashes_for_signing, hash_loop}
use tee_relay_client.Processor.{Env, sign_and_emit, emit}
use tee_relay_client.Fdc.Verifier.{
  VerifierResponse, Request, status_verified, status_retry, status_rejected, validate_response,
}
use tee_relay_client.Fdc.Verifier.Laws.{Allowed, capped, validate_response_lem}
use tee_relay_client.Fdc.Handler.{
  Responder, FdcLib, FdcHandler, handle, att_type_and_source_id, verified_response, take_verdict,
  finish, sign_response,
}
use tee_relay_client.Fdc.Handler.Parts.{fixed_message}
use tee_relay_client.Fdc.Handler.Carried.{Kept, handle-Kept}
use tee_relay_client.Fdc.Handler.Laws.{Delivered, Rejected, handle_ok}
use tee_relay_client.Fdc.Queues.{
  VerifierConfig, FdcConfig, Fdc, new_fdc, new_fdc_handler, handler_loop, queue_loop, make_queues,
  join_att_type_and_source_id, wrap_handle,
}
use tee_relay_client.Fdc.Queues.Served.{Served, new_fdc-Served}
use tee_relay_client.Fdc.Queues.Retries.{Attempts, start, attempt, Attempts_deliver}
use tee_relay_client.Fdc.Handler.Success.{CanHandle, handle_lem}
use tee_relay_client.Processor.Success.{CanEmit, sign_and_emit_lem}
use tee_relay_client.Tests.Samples.{test_env, test_base, machine_a, world_with}

abbrev pub test_response : Bytes → VerifierResponse
test_response status = record { status = status; response_body = 8 ∷ 9 ∷ []; message = [] }

abbrev test_request : Request
test_request = record { attestation_type = 1 ∷ []; source_id = 2 ∷ []; request_body = 6 ∷ [] }

abbrev pub test_lib : FdcLib
test_lib = record {
  decode_request = λ m. ok test_request;
  hash_message = λ chain_id request body cosigners threshold timestamp. ok body;
  chain_bound_hash = λ chain_id hash. chain_id ∷ hash;
}

-- Verifies what it is asked.
abbrev pub yes : Responder
yes t request = ok (test_response status_verified)

abbrev pub padded : ℕ → Bytes
padded n =
    n ∷ 0 ∷ 0 ∷ 0 ∷ 0 ∷ 0 ∷ 0 ∷ 0 ∷ 0 ∷ 0 ∷ 0 ∷ 0 ∷ 0 ∷ 0 ∷ 0 ∷ 0 ∷ 0 ∷ 0 ∷ 0 ∷ 0 ∷ 0 ∷ 0 ∷ 0 ∷ 0
    ∷ 0 ∷ 0 ∷ 0 ∷ 0 ∷ 0 ∷ 0 ∷ 0 ∷ 0 ∷ []

abbrev pub test_handler : FdcHandler
test_handler = record { base = test_base; verifiers = (padded 1 ++ padded 2, yes) ∷ [] }

-- An instruction that was verified by an earlier attempt, and one that was not.
abbrev pub fresh : World
fresh = world_with (machine_a ∷ []) []

abbrev verified : World
verified = world_with (machine_a ∷ []) (8 ∷ 9 ∷ [])

-- The context is cancelled at the first tick of the signing attempt, and not later.
abbrev flaky_env : Env
flaky_env = record { hash_for_signing = test_env.hash_for_signing; cancelled = λ t. t == 2 }

handle_ok_example :
    let w' = (handle test_env test_lib test_handler fresh).1 in
    Delivered test_env test_lib test_handler fresh w'
    ⊎ Rejected test_env test_lib test_handler fresh w'
unfolding handle att_type_and_source_id verified_response take_verdict finish sign_response
    sign_and_emit emit sign hashes_for_signing hash_loop new_local local_sign sign_loop lookup
    bytes_dec ℕ_discrete status_verified status_retry status_rejected
handle_ok_example = handle_ok test_env test_lib test_handler fresh refl

abbrev after_failure : World
after_failure = (wrap_handle flaky_env test_lib test_handler verified).1

first_attempt : Attempts flaky_env test_lib test_handler verified after_failure
unfolding handle att_type_and_source_id verified_response take_verdict finish sign_response
    sign_and_emit emit sign hashes_for_signing hash_loop new_local local_sign sign_loop lookup
    bytes_dec ℕ_discrete status_verified status_retry status_rejected wrap_handle
first_attempt = attempt start (λ e. cc)

Attempts_deliver_example :
    let u' = (wrap_handle flaky_env test_lib test_handler after_failure).1 in
    (u'.out ≡ after_failure.out ++ (u'.ib ∷ [])) × (fixed_message u' ≡ 8 ∷ 9 ∷ []) × (u'.asked ≡ 0)
unfolding handle att_type_and_source_id verified_response take_verdict finish sign_response
    sign_and_emit emit sign hashes_for_signing hash_loop new_local local_sign sign_loop lookup
    bytes_dec ℕ_discrete status_verified status_retry status_rejected wrap_handle
Attempts_deliver_example =
    Attempts_deliver flaky_env test_lib test_handler (λ e. cc) first_attempt refl

abbrev test_verifier : VerifierConfig
test_verifier = record {
  att_type = 1 ∷ [];
  source_id = 2 ∷ [];
  queue_name = bytes "q";
  server_check = ok tt;
  server = yes;
}

abbrev pub test_config : FdcConfig (Unit {0})
test_config = record { queues = (bytes "q", tt) ∷ []; verifiers = (bytes "v", test_verifier) ∷ [] }

-- A queue is its name.
abbrev pub named : Unit {0} → Bytes → Bytes
named params name = name

abbrev hashed : Bytes → Result Bytes
hashed s = ok s

abbrev pub test_fdc : Fdc Bytes
test_fdc = record {
  id_to_queue_name = (padded 1 ++ padded 2, bytes "q") ∷ [];
  queues = (bytes "q", bytes "q") ∷ [];
  handler = test_handler;
}

pub new_fdc_test : new_fdc named hashed (some test_config) test_base ≡ ok test_fdc
unfolding new_fdc new_fdc_handler handler_loop queue_loop make_queues join_att_type_and_source_id
    lookup insert bytes_dec ℕ_discrete
new_fdc_test = refl

new_fdc-Served_example : Served hashed test_fdc test_verifier
new_fdc-Served_example =
    new_fdc-Served hashed named test_config test_base test_fdc 0 (bytes "v") test_verifier
      new_fdc_test refl

abbrev fits : Bytes → Result (Unit {0})
fits body = ok tt

validate_response_lem_example :
    (validate_response fits (test_response status_verified) ≡ ok (test_response status_verified))
    ↔ (Allowed fits (test_response status_verified)
        × (test_response status_verified ≡ capped fits (test_response status_verified)))
validate_response_lem_example =
    validate_response_lem fits (test_response status_verified) (test_response status_verified)

handle-Kept_example :
    Kept test_env test_lib test_handler fresh (handle test_env test_lib test_handler fresh).1
handle-Kept_example = handle-Kept test_env test_lib test_handler fresh

handle_lem_example :
    ((handle test_env test_lib test_handler fresh).0 ≡ ok tt)
    ↔ CanHandle test_env test_lib test_handler fresh
handle_lem_example = handle_lem test_env test_lib test_handler fresh

sign_and_emit_lem_example :
    ((sign_and_emit "signing" test_env test_base fresh).0 ≡ ok tt)
    ↔ CanEmit test_env test_base fresh
sign_and_emit_lem_example = sign_and_emit_lem test_env test_base "signing" fresh
