-- ===== src/Fdc/Queues/Loops.antt =====
-- internal/router/processors/fdc.go and fdc_queue.go: the queues' parameters, and the goroutines that
-- `StartQueues` and `ProcessOut` start, less what those do.
use tee_relay_client.Base.{Bool, true, false, List, [], ◌∷◌, ◌++◌, Bytes, bytes_eq, ◌≡◌, arith}
use tee_relay_client.Base.Dict.{Dict}
use tee_relay_client.Base.Int.{ℤ, ltb_ℤ}

-- `priority.Params`: whether final errors go to a channel, and the rest.
pub record PriorityParams : Type 0 where
  pub error_chan : Bool
  pub rest : Bytes

-- `NewQueue`, with go-flare-common's `priority.NewWithLogger`.
module _ {Q : Type 0} (new_with_logger : PriorityParams → Bytes → Q) where
  unfoldable pub new_queue : PriorityParams → Bytes → Q
  new_queue params name = new_with_logger (record params { error_chan = true }) name

-- A goroutine of a queue: the one that drains its final errors, or the one that dequeues.
pub data Loop : Type 0 where
  drains dequeues : Bytes → Loop

-- `ProcessOut`
unfoldable pub process_out : Bytes → List Loop
process_out name = drains name ∷ dequeues name ∷ []

-- The first loop of `StartQueues`.
unfoldable pub start_queues : {Q : Type 0} → Dict Bytes Q → List Loop
start_queues [] = []
start_queues ((name, q) ∷ rest) = process_out name ++ start_queues rest

-- A `Weight` is the time an instruction was added at, and the greater weight is the earlier one.
unfoldable pub less : ℤ → ℤ → Bool
less w t = ltb_ℤ t w

-- A strict order, in which two weights that are not ordered are equal.
less-StrictOrder :
    (u v w : ℤ)
    → (less u u ≡ false)
      × (less u v ≡ true → less v w ≡ true → less u w ≡ true)
      × (less u v ≡ false → less v u ≡ false → u ≡ v)
unfolding less
less-StrictOrder u v w = (ground arith, λ h k. ground arith, λ h k. ground arith)
