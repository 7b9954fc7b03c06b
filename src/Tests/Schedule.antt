-- ===== src/Tests/Schedule.antt =====
-- A call to a verifier with three attempts.
use tee_relay_client.Base.{◌+◌, ◌≤◌, [], ◌∷◌, arith}
use tee_relay_client.Schedule.{verifier, verifier_params, elapsed, elapsed_le}

elapsed_le_example : 10000 + elapsed ((6500, 10000) ∷ (13000, 10000) ∷ []) ≤ 60000
unfolding verifier_params
elapsed_le_example =
    elapsed_le verifier 10000 ((6500, 10000) ∷ (13000, 10000) ∷ []) (omega arith) (omega arith)
      (omega arith, omega arith, (omega arith, omega arith, tt))
