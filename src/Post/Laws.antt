-- ===== src/Post/Laws.antt =====
-- Which failures are retried, and how long an error can get.
use tee_relay_client.Base.{
  ℕ, ◌+◌, ◌≤◌, true, false, ◌++◌, length, length-append, length-take, take, bytes, nat_eq, Option,
  none, some, ◌≡◌, ◌≢◌, ◌⊎◌, inl, inr, ◌↔◌, arith, Option-cases, Bool-cases,
}
use tee_relay_client.Post.{
  Text, PostOut, Attempt, Shared, retryable, wrapped, cut, cap_error, max_err_len,
  max_first_err_len, history, with_history, Outcome, answered, failed, RetryStatus, conclude,
  with_retry,
}

-- Exactly the status 0, 408, 429 and 500 to 599 are retryable.
pub retryable_lem :
    (status : ℕ)
    → (retryable status ≡ true)
      ↔ ((status ≡ 0) ⊎ (status ≡ 408) ⊎ (status ≡ 429) ⊎ ((500 ≤ status) × (status ≤ 599)))
unfolding retryable
retryable_lem status = (λ h. ground arith, λ h. ground arith)

-- The closure asks for another attempt exactly if its call failed with a retryable status,
-- carries the error as final exactly if it failed with another status, and counts each run.
pub wrapped_lem :
    {T : Type 0} (out : PostOut T) (s : Shared)
    → let ((value, error), s') = wrapped out s in
      ((error ≢ none) ↔ ((out.error ≢ none) × (retryable out.status ≡ true)))
      × ((value.err ≢ none) ↔ ((out.error ≢ none) × (retryable out.status ≡ false)))
      × (s'.attempts ≡ s.attempts + 1)
unfolding wrapped
wrapped_lem out s = elim (Option-cases out.error) [
  | inl e ↦ ground arith
  | inr (x, e) ↦ elim (Bool-cases (retryable out.status)) [
    | inl b ↦ ground arith
    | inr b ↦ ground arith
  ]
]

length-cut : (n : ℕ) (s : Text) → length (cut n s) ≤ n + 3
unfolding cut
length-cut n s = ground (arith, length-append (take n s) (bytes "..."), length-take n s)

abbrev pub Short : {T : Type 0} → (itoa : ℕ → Text) → Outcome itoa T → Type 0
Short itoa (answered t) = Unit {0}
Short itoa (failed e) = length e ≤ max_err_len + 3

conclude-Short :
    {T : Type 0} (itoa : ℕ → Text) (final error : Option Text) (m : Option T) (s : Shared)
    → Short itoa (conclude itoa final error m s)
unfolding conclude cap_error
conclude-Short itoa (some e) error m s =
    length-cut max_err_len (with_history itoa e s.attempts s.first_err)
conclude-Short itoa none (some e) m s =
    length-cut max_err_len (with_history itoa e s.attempts s.first_err)
conclude-Short itoa none none (some m) s = tt
conclude-Short itoa none none none s = omega arith

-- Whatever the calls answer and however they are retried, the text of the error that `WithRetry`
-- returns is at most three bytes longer than the cap.
pub with_retry-Short :
    {T : Type 0} (itoa : ℕ → Text)
    (execute : (PostOut T → Shared → (Attempt T × Option Text) × Shared)
      → Shared
      → RetryStatus itoa T × Shared)
    → Short itoa (with_retry itoa execute)
unfolding with_retry
with_retry-Short itoa execute =
    let (st, s) = execute wrapped (record { attempts = 0; first_err = none }) in
    conclude-Short itoa (st.0.err) (st.1) (st.0.res.message) s

-- What `withHistory` puts before the final cause is at most 285 bytes longer than the printed
-- count of attempts.
pub length-history :
    (itoa : ℕ → Text) (n : ℕ) (first : Text) → length (history itoa n first) ≤ length (itoa n) + 285
length-history itoa n first = omega (
  arith,
  length-append (itoa n)
      (bytes " attempts, first error: " ++ (cut max_first_err_len first ++ bytes "; ")),
  length-append (bytes " attempts, first error: ") (cut max_first_err_len first ++ bytes "; "),
  length-append (cut max_first_err_len first) (bytes "; "),
  length-cut max_first_err_len first,
)
