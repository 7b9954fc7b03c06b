-- ===== src/Tests/Signing.antt =====
-- Deduplication, signing, emitting and sending at the sample instruction.
use tee_relay_client.Base.{true, List, [], ◌∷◌, ◌++◌, Bytes, ◌≡◌, refl, ok, bytes_dec}
use native.Mathlib.Decide.{ℕ_discrete}
use tee_relay_client.Signer.{new_local, local_sign, sign_loop, SignerServer}
use tee_relay_client.Signer.Laws.{SignedBy, new_local-sign}
use tee_relay_client.Instruction.{
  TeeMachine_eq, TeeMachine_dec, remove_duplicates, Instr, sign, hashes_for_signing, hash_loop,
}
use tee_relay_client.Instruction.Dedup.{remove_duplicates-first_occurrences}
use tee_relay_client.Processor.{sign_and_emit, emit}
use tee_relay_client.Sender.{fan_out}
use tee_relay_client.Pipeline.{Authentic, sign_and_emit-Authentic}
use tee_relay_client.Tests.Samples.{
  test_key, test_env, test_base, machine_a, machine_b, test_event, test_world,
}

remove_duplicates-first_occurrences_example :
    remove_duplicates test_event.tee_machines ≡ machine_a ∷ machine_b ∷ []
unfolding TeeMachine_dec bytes_dec ℕ_discrete
remove_duplicates-first_occurrences_example =
    remove_duplicates-first_occurrences test_event.tee_machines

new_local-sign_example : SignedBy test_key ((1 ∷ []) ∷ []) ((7 ∷ 1 ∷ []) ∷ [])
unfolding new_local local_sign sign_loop
new_local-sign_example = new_local-sign test_key 0 ((1 ∷ []) ∷ []) ((7 ∷ 1 ∷ []) ∷ []) refl

-- A server that signs each hash by itself.
abbrev echo_server : SignerServer
echo_server = record {
  post_sign = λ limit t hashes. ok hashes;
  post_decrypt = λ limit t cipher. ok cipher;
  do_id = λ t attempt. ok (200, []);
  execute = λ f. f 0;
  decode_id = λ body. ok test_key.public;
}

abbrev one_hash : List Bytes
one_hash = (1 ∷ []) ∷ []

abbrev signed_instr : Instr
signed_instr = record test_world.ib { signatures = (7 ∷ 14 ∷ 1 ∷ []) ∷ (7 ∷ 14 ∷ 2 ∷ []) ∷ [] }

sign_and_emit-Authentic_example :
    let w' = (sign_and_emit "signing" test_env test_base test_world).1 in
    (w'.out ≡ test_world.out ++ (w'.ib ∷ []))
    × Authentic test_env.hash_for_signing test_key 14 test_world.ib.general_data test_world.ib.tees
        (fan_out w'.ib)
unfolding sign_and_emit emit sign hashes_for_signing hash_loop new_local local_sign sign_loop
sign_and_emit-Authentic_example =
    sign_and_emit-Authentic "signing" test_env test_key 14 true test_world refl
