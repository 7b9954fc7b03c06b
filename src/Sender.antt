-- ===== src/Sender.antt =====
-- internal/sender/sender.go: each tee of an instruction is sent its own copy.
pub mod Laws
use tee_relay_client.Base.{
  ℕ, zero, suc, Bool, ◌+◌, List, [], ◌∷◌, ◌++◌, length, map, Bytes, bytes, leb, if◌then◌else◌,
  Error, new, Result, ok, err, panic, wrapped, then_do, index,
}
use tee_relay_client.Base.Int.{ℤ, pos, negsuc}
use tee_relay_client.Instruction.{Data, Instr, TeeMachine}

-- `instruction.Instruction`: the data and its signature.
pub record SignedData : Type 0 where
  pub payload : Data
  pub signature : Bytes

-- `PrepareInstruction`. `ib.Signatures[j]` is not guarded.
abbrev prepare_at : Instr → ℕ → Result (SignedData × Bytes)
prepare_at ib j = then_do (index ib.tees j) λ tee.
    let payload = record ib.general_data { tee_id = tee.tee_id } in
    then_do (index ib.signatures j)
      λ signature. ok (record { payload = payload; signature = signature }, tee.url)

unfoldable pub prepare_instruction : Instr → ℤ → Result (SignedData × Bytes)
prepare_instruction ib (negsuc j) = err (new "invalid tee index")
prepare_instruction ib (pos j) =
    if leb (length ib.tees) j then err (new "invalid tee index") else prepare_at ib j

-- A POST to a tee: where, and what.
pub record Delivery : Type 0 where
  pub url_endpoint : Bytes
  pub message : SignedData

-- `SendToTEE` up to the call: its endpoint.
abbrev pub send_to_tee : Bytes → SignedData → Delivery
send_to_tee url instr = record { url_endpoint = url ++ bytes "/instruction"; message = instr }

-- The body of the goroutine that `Run` starts for the `j`-th tee.
unfoldable pub deliver : Instr → ℕ → Result Delivery
unfolding prepare_instruction
deliver ib j =
    then_do (wrapped "preparing instruction" (prepare_instruction ib (pos j)))
      λ (msg, url). ok (send_to_tee url msg)

-- `for j := range instr.Tees`: the goroutines of an instruction, from the `j`-th on.
unfoldable pub fan_out_from : Instr → ℕ → List TeeMachine → List (Result Delivery)
fan_out_from ib j [] = []
fan_out_from ib j (tee ∷ tees) = deliver ib j ∷ fan_out_from ib (j + 1) tees

unfoldable pub fan_out : Instr → List (Result Delivery)
unfolding fan_out_from deliver
fan_out ib = fan_out_from ib 0 ib.tees

-- The standard library's transport, and the one that refuses unsafe addresses.
pub data Transport : Type 0 where
  default_transport safe_transport : Transport

-- `newTransport`
unfoldable pub new_transport : (allow_unsafe : Bool) → Transport
new_transport allow_unsafe = if allow_unsafe then default_transport else safe_transport
