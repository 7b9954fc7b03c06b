-- ===== src/Health/Server.antt =====
-- internal/health/server.go: the answers to HTTP requests.
use tee_relay_client.Base.{
  ℕ, Option, none, some, Error, Result, ok, err, panic, ◌≡◌, ◌↔◌, ◌≢◌, ◌⊎◌, refl, arith,
}
use tee_relay_client.Base.Int.{ℤ}
use tee_relay_client.Health.{Status, startup, ready}

pub record Answer : Type 0 where
  pub code : ℕ
  pub reason : Option Error

-- `writeProbe`
unfoldable pub write_probe : Result (Unit {0}) → Answer
write_probe (ok u) = record { code = 200; reason = none }
write_probe (err e) = record { code = 503; reason = some e }
write_probe panic = record { code = 500; reason = none }

pub data Method : Type 0 where
  get head other : Method

-- The paths that `Handler` registers, and any other.
pub data Probe : Type 0 where
  healthy startup_path ready_path unknown : Probe

abbrev serve : Option Status → ℤ → Probe → Answer
serve s now healthy = write_probe (ok tt)
serve s now startup_path = write_probe (startup s)
serve s now ready_path = write_probe (ready s now)
serve s now unknown = record { code = 404; reason = none }

-- `Handler`: a pattern `GET /path` of the standard library's ServeMux matches GET and HEAD, a
-- request for a known path by another method is answered by 405, and an unknown path by 404.
unfoldable pub handler : Option Status → ℤ → Method → Probe → Answer
handler s now get p = serve s now p
handler s now head p = serve s now p
handler s now other unknown = record { code = 404; reason = none }
handler s now other p = record { code = 405; reason = none }

-- To GET and HEAD the liveness probe answers 200, and the two other probes answer 200 where the
-- status passes and 503 where it does not.
pub handler_lem :
    (s : Option Status) (now : ℤ) (m : Method)
    → m ≢ other
    → ((handler s now m healthy).code ≡ 200)
      × (((handler s now m startup_path).code ≡ 200) ↔ (startup s ≡ ok tt))
      × (((handler s now m ready_path).code ≡ 200) ↔ (ready s now ≡ ok tt))
      × (((handler s now m startup_path).code ≡ 200) ⊎ ((handler s now m startup_path).code ≡ 503))
      × (((handler s now m ready_path).code ≡ 200) ⊎ ((handler s now m ready_path).code ≡ 503))
unfolding handler startup ready write_probe
handler_lem none now get h = (refl, ground arith, ground arith, ground arith, ground arith)
handler_lem none now head h = (refl, ground arith, ground arith, ground arith, ground arith)
handler_lem (some s) now get h = (refl, ground arith, ground arith, ground arith, ground arith)
handler_lem (some s) now head h = (refl, ground arith, ground arith, ground arith, ground arith)
handler_lem s now other h = absurd (h refl)
