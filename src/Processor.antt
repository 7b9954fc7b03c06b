-- ===== src/Processor.antt =====
-- internal/router/processors/processor.go: the base processor, and the end that all processors share.
pub mod Laws
pub mod Success
use tee_relay_client.Base.{
  ℕ, ◌+◌, Bool, true, false, not, ◌&&◌, List, [], ◌∷◌, ◌++◌, Bytes, String, if◌then◌else◌, Error,
  new, wrap, Result, ok, err, panic, Go, ◌>>=◌, ◌>>◌, fail_if, wrapping,
}
use tee_relay_client.Signer.{Signer}
use tee_relay_client.Instruction.{Data, Instr, World, sign}

-- The struct `Base`: of the channel, whether it is set.
pub record Processor : Type 0 where
  pub chain_id : ℕ
  pub signer : Signer
  pub out_set : Bool

unfoldable pub new_base : ℕ → Signer → Processor
new_base chain_id signer = record { chain_id = chain_id; signer = signer; out_set = false }

unfoldable pub set_out : Processor → Processor
set_out b = record b { out_set = true }

-- tee-node's hashing of an instruction, and at which calls a `select` takes the branch of the
-- cancelled context.
pub record Env : Type 0 where
  pub hash_for_signing : ℕ → Data → Result Bytes
  pub cancelled : ℕ → Bool

-- `select { case out <- ib: return nil; case <-ctx.Done(): return ctx.Err() }`. A nil channel is
-- never ready.
unfoldable pub emit : Env → Processor → Go World (Unit {0})
emit env b w =
    if b.out_set && not (env.cancelled w.tick)
    then (ok tt, record w { out = w.out ++ (w.ib ∷ []); tick = w.tick + 1 })
    else (err (new "context canceled"), record w { tick = w.tick + 1 })

-- The last statements of each processor: sign, then hand the instruction to the sender.
unfoldable pub sign_and_emit : String → Env → Processor → Go World (Unit {0})
unfolding emit
sign_and_emit text env b =
    wrapping text (sign env.hash_for_signing b.signer b.chain_id) >> emit env b

-- `(b *Base) Process`
unfoldable pub process : Env → Processor → Go World (Unit {0})
unfolding sign_and_emit
process env b = fail_if (not b.out_set) (new "out channel not set") >> sign_and_emit "signing" env b
