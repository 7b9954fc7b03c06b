-- ===== src/Schedule.antt =====
-- The retried calls of the relay, and how long their schedules can take: the parameters that
-- internal/router/processors/fdc_verifier.go, pkg/signer/remote.go and internal/sender/sender.go give
-- to go-flare-common's retries. Durations are milliseconds.
use tee_relay_client.Base.{ℕ, zero, suc, ◌+◌, ◌-◌, ◌*◌, ◌/◌, ◌≤◌, List, [], ◌∷◌, length, arith}

-- The timeout of one call in `call.Params`, and `retry.Params`: the delay grows by the multiplier
-- from one attempt to the next, and varies by the jitter, in percent. A multiplier that is left out
-- keeps the delay.
pub record CallParams : Type 0 where
  pub call_timeout : ℕ
  pub max_attempts : ℕ
  pub delay : ℕ
  pub multiplier : ℕ
  pub jitter : ℕ
  pub timeout : ℕ

-- Who calls with retries.
pub data Caller : Type 0 where
  verifier remote_sign remote_decrypt remote_identify send_to_tee : Caller

-- `NewVerifier`
unfoldable pub verifier_params : CallParams
verifier_params = record {
  call_timeout = 10000;
  max_attempts = 3;
  delay = 5000;
  multiplier = 2;
  jitter = 30;
  timeout = 60000;
}

-- The remote signer's `Sign`, `Decrypt` and `Identify`.
unfoldable pub sign_params : CallParams
sign_params = record {
  call_timeout = 5000;
  max_attempts = 3;
  delay = 10000;
  multiplier = 1;
  jitter = 0;
  timeout = 40000;
}

unfoldable pub decrypt_params : CallParams
decrypt_params = record {
  call_timeout = 5000;
  max_attempts = 3;
  delay = 10000;
  multiplier = 1;
  jitter = 0;
  timeout = 40000;
}

unfoldable pub identify_params : CallParams
identify_params = record {
  call_timeout = 10000;
  max_attempts = 3;
  delay = 5000;
  multiplier = 1;
  jitter = 0;
  timeout = 45000;
}

-- `SendToTEE`
unfoldable pub send_params : CallParams
send_params = record {
  call_timeout = 5000;
  max_attempts = 3;
  delay = 10000;
  multiplier = 1;
  jitter = 0;
  timeout = 60000;
}

abbrev pub retry_params : Caller → CallParams
retry_params verifier = verifier_params
retry_params remote_sign = sign_params
retry_params remote_decrypt = decrypt_params
retry_params remote_identify = identify_params
retry_params send_to_tee = send_params

-- The attempts behind the first one: the delay before each, and how long it takes.
abbrev pub Attempts : Type 0
Attempts = List (ℕ × ℕ)

-- Each attempt ends by its own timeout, and each delay is within its jitter.
abbrev pub Within : CallParams → (delay : ℕ) → Attempts → Type 0
Within r delay [] = Unit
Within r delay ((d, c) ∷ rest) =
    (d * 100 ≤ delay * (100 + r.jitter))
    × (c ≤ r.call_timeout)
    × Within r (delay * r.multiplier) rest

abbrev pub elapsed : Attempts → ℕ
elapsed [] = 0
elapsed ((d, c) ∷ rest) = d + c + elapsed rest

-- The longest that a number of attempts can take, with the delays before them.
worst_case : CallParams → (delay : ℕ) → ℕ → ℕ
worst_case r delay zero = 0
worst_case r delay (suc n) =
    delay * (100 + r.jitter) / 100 + r.call_timeout + worst_case r (delay * r.multiplier) n

elapsed-worst_case :
    (r : CallParams) (delay n : ℕ) (rest : Attempts)
    → length rest ≤ n
    → Within r delay rest
    → elapsed rest ≤ worst_case r delay n
unfolding worst_case
elapsed-worst_case r delay n [] h w = omega arith
elapsed-worst_case r delay zero ((d, c) ∷ rest) h w = absurd (omega arith)
elapsed-worst_case r delay (suc n) ((d, c) ∷ rest) h (p, q, w) =
    let later = elapsed-worst_case r (delay * r.multiplier) n rest (omega arith) w in
    let x = delay * (100 + r.jitter) in let wait : d ≤ x / 100 = omega arith in omega arith

worst_case_fits :
    (caller : Caller)
    → let r = retry_params caller in
      r.call_timeout + worst_case r r.delay (r.max_attempts - 1) ≤ r.timeout
unfolding worst_case verifier_params sign_params decrypt_params identify_params send_params
worst_case_fits verifier = omega arith
worst_case_fits remote_sign = omega arith
worst_case_fits remote_decrypt = omega arith
worst_case_fits remote_identify = omega arith
worst_case_fits send_to_tee = omega arith

-- For the calls to a verifier, to the remote signer and to a tee: attempts that are at most as
-- many as configured, each of which ends by the timeout of a single call, with delays within the
-- configured growth and jitter, together take at most the timeout of the whole schedule, so that
-- no attempt is cut off by it.
pub elapsed_le :
    (caller : Caller) (first : ℕ) (rest : Attempts)
    → let r = retry_params caller in
      first ≤ r.call_timeout
      → suc (length rest) ≤ r.max_attempts
      → Within r r.delay rest
      → first + elapsed rest ≤ r.timeout
elapsed_le caller first rest h m w =
    let r = retry_params caller in
    omega (
      arith,
      elapsed-worst_case r r.delay (r.max_attempts - 1) rest (omega arith) w,
      worst_case_fits caller,
    )
