-- ===== src/Tests/Named.antt =====
-- The FDC queue with hashes of 32 bytes: the configured verifier, and the texts.
use tee_relay_client.Base.{
  ℕ, [], ◌∷◌, take, Bytes, bytes, bytes_eq, bytes_dec, some, ◌≡◌, refl, Result, ok, arith,
}
use tee_relay_client.Base.Dict.{lookup, insert}
use native.Mathlib.Decide.{ℕ_discrete}
use tee_relay_client.Fdc.Verifier.{Request}
use tee_relay_client.Fdc.Handler.{FdcLib, att_type_and_source_id}
use tee_relay_client.Fdc.Handler.Laws.{Selected}
use tee_relay_client.Fdc.Queues.{
  new_fdc, new_fdc_handler, handler_loop, queue_loop, make_queues, join_att_type_and_source_id,
}
use tee_relay_client.Fdc.Queues.Matched.{Sized, Matches, new_fdc-Matches}
use tee_relay_client.Fdc.Names.{ats_half, ats_strings, ats_strings-att_type_and_source_id}
use tee_relay_client.Tests.Samples.{test_env, test_base}
use tee_relay_client.Tests.Fdc.{
  test_lib, test_config, test_fdc, test_handler, named, padded, yes, fresh,
}

abbrev first : Bytes → ℕ
first [] = 0
first (x ∷ s) = x

-- The hash of a text is its first byte, padded.
abbrev hash : Bytes → Result Bytes
hash s = ok (padded (first s))

abbrev request : Request
request = record { attestation_type = padded 1; source_id = padded 2; request_body = 6 ∷ [] }

abbrev lib : FdcLib
lib = record test_lib { decode_request = λ m. ok request }

made : new_fdc named hash (some test_config) test_base ≡ ok test_fdc
unfolding new_fdc new_fdc_handler handler_loop queue_loop make_queues join_att_type_and_source_id
    lookup insert bytes_dec ℕ_discrete
made = refl

listed : lookup (att_type_and_source_id request) test_handler.verifiers ≡ some yes
unfolding att_type_and_source_id lookup bytes_dec ℕ_discrete
listed = refl

abbrev selected : Selected test_env lib test_handler fresh
selected = record { request = request; decoded = refl; verifier = yes; listed = listed }

sized : Sized hash request
sized = record { hashes = λ s h e. ground arith; attestation_type = refl; source_id = refl }

new_fdc-Matches_example : Matches hash test_config.verifiers request yes
new_fdc-Matches_example =
    new_fdc-Matches hash named test_config test_base test_fdc test_env lib fresh selected made sized

-- `Hex` as a text of its own, and a trimmed half.
abbrev hex : Bytes → Bytes
hex s = bytes "0x"

ats_strings-att_type_and_source_id_example :
    ats_strings (take 1) hex (att_type_and_source_id request)
    ≡ (ats_half (take 1) hex (padded 1), ats_half (take 1) hex (padded 2))
ats_strings-att_type_and_source_id_example =
    ats_strings-att_type_and_source_id (take 1) hex request refl refl
