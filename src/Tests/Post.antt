-- ===== src/Tests/Post.antt =====
-- Retries and the length of errors at sample statuses.
use tee_relay_client.Base.{ℕ, ◌+◌, [], ◌∷◌, bytes, Option, none, some}
use tee_relay_client.Post.{PostOut, Attempt, Shared, Text, with_retry, RetryStatus}
use tee_relay_client.Post.Laws.{Short, with_retry-Short}

abbrev refused : PostOut (Unit {0})
refused = record { status = 400; message = none; error = some (bytes "bad request") }

abbrev fresh : Shared
fresh = record { attempts = 0; first_err = none }

abbrev one_digit : ℕ → Text
one_digit n = (48 + n) ∷ []

-- One run of the closure, and no other.
abbrev once :
    (PostOut (Unit {0}) → Shared → (Attempt (Unit {0}) × Option Text) × Shared)
    → Shared
    → RetryStatus one_digit (Unit {0}) × Shared
once f s = f refused s

with_retry-Short_example : Short one_digit (with_retry one_digit once)
with_retry-Short_example = with_retry-Short one_digit once
