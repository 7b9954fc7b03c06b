-- ===== src/Post.antt =====
-- internal/post/post.go: POST requests with retries.
pub mod Laws
use tee_relay_client.Base.{
  ℕ, zero, suc, ◌+◌, ◌≤◌, Bool, true, false, ◌&&◌, ◌||◌, leb, List, [], ◌∷◌, ◌++◌, length, take,
  Bytes, bytes, nat_eq, ◌==◌, Option, none, some, if◌then◌else◌,
}

-- An error is its text here, since the texts are measured and cut.
abbrev pub Text : Type 0
Text = Bytes

-- `call.Response` with the error of the call: status 0 where there was no HTTP response.
pub record PostOut (T : Type 0) : Type 0 where
  pub status : ℕ
  pub message : Option T
  pub error : Option Text

-- The struct `attempt`.
pub record Attempt (T : Type 0) : Type 0 where
  pub res : PostOut T
  pub err : Option Text

-- The variables that the closure shares, and the number of calls made.
pub record Shared : Type 0 where
  pub attempts : ℕ
  pub first_err : Option Text

-- `retryable`
unfoldable pub retryable : ℕ → Bool
retryable status =
    if status == 0 || (status == 408 || status == 429)
    then true
    else if leb 500 status && leb status 599
    then true
    else false

abbrev remember : Option Text → Option Text → Option Text
remember none err = err
remember (some e) err = some e

-- The closure `wrapped`, at the result of its call: what it returns, its error, and the shared
-- variables.
unfoldable pub wrapped : {T : Type 0} → PostOut T → Shared → (Attempt T × Option Text) × Shared
wrapped out s =
    let s' : Shared = record {
      attempts = s.attempts + 1;
      first_err = remember s.first_err out.error;
    } in
    elim out.error [
      | none ↦ ((record { res = out; err = none }, none), s')
      | some e ↦
          if retryable out.status
          then ((record { res = out; err = none }, some e), s')
          else ((record { res = out; err = some e }, none), s')
    ]

abbrev pub max_err_len : ℕ
max_err_len = 1024

abbrev pub max_first_err_len : ℕ
max_first_err_len = 256

-- `s[:n] + "..."` for a text longer than `n`.
unfoldable pub cut : ℕ → Text → Text
cut n s = if leb (length s) n then s else take n s ++ bytes "..."

-- `capError`
unfoldable pub cap_error : Text → Text
cap_error s = cut max_err_len s

-- `fmt.Sprint` of an attempt count.
module _ (itoa : ℕ → Text) where
  -- What `withHistory` puts in front of the error.
  abbrev pub history : ℕ → Text → Text
  history n first =
      itoa n ++ (bytes " attempts, first error: " ++ (cut max_first_err_len first ++ bytes "; "))

  -- `withHistory`
  unfoldable pub with_history : Text → ℕ → Option Text → Text
  with_history err n none = err
  with_history err n (some first) = if leb n 1 then err else history n first ++ err

  -- go-flare-common's `retry.Execute`: its status has the value of the last run, and an error.
  pub data Outcome (T : Type 0) : Type 0 where
    answered : T → Outcome T
    failed : Text → Outcome T

  abbrev pub RetryStatus : Type 0 → Type 0
  RetryStatus T = Attempt T × Option Text

  -- `WithRetry` after `retry.Execute`: `final` is `st.Value.err`, `error` is `st.Err` and `message`
  -- is `st.Value.res.Message`.
  unfoldable pub conclude :
      {T : Type 0} → (final error : Option Text) (message : Option T) → Shared → Outcome T
  conclude (some e) error message s = failed (cap_error (with_history e s.attempts s.first_err))
  conclude none (some e) message s = failed (cap_error (with_history e s.attempts s.first_err))
  conclude none none none s = failed (bytes "response missing body")
  conclude none none (some m) s = answered m

  -- `WithRetry`: `execute` runs the closure as often as it decides to.
  unfoldable pub with_retry :
      {T : Type 0}
      → ((PostOut T → Shared → (Attempt T × Option Text) × Shared)
          → Shared
          → RetryStatus T × Shared)
      → Outcome T
  with_retry execute =
      let (st, s) = execute wrapped (record { attempts = 0; first_err = none }) in
      let (value, error) = st in conclude value.err error value.res.message s
