-- ===== src/Tests/Health.antt =====
-- The probes of a relay whose indexer is two seconds behind.
use tee_relay_client.Base.{ℕ, true, some, ◌≡◌, ◌≢◌, ◌⊎◌, ◌↔◌, refl, ok, arith}
use tee_relay_client.Base.Int.{pos, ◌-ℤ◌, ◌≤ℤ◌}
use tee_relay_client.Health.{zero_time, Status, startup, ready}
use tee_relay_client.Health.Laws.{ready_lem}
use tee_relay_client.Health.Server.{handler, get, healthy, startup_path, ready_path, handler_lem}

abbrev minute : ℕ
minute = 60000000000

abbrev running : Status
running = record { started = true; block = 7; block_time = pos 1000000000; max_lag = pos minute }

ready_lem_example : (ready (some running) (pos 3000000000) ≡ ok tt) ↔ (
    (true ≡ true) × (pos 1000000000 ≢ zero_time) × (pos 3000000000 -ℤ pos 1000000000 ≤ℤ pos minute))
ready_lem_example = ready_lem running minute (pos 3000000000) refl (omega arith)

handler_lem_example :
    let now = pos 3000000000 in
    ((handler (some running) now get healthy).code ≡ 200)
    × (((handler (some running) now get startup_path).code ≡ 200)
        ↔ (startup (some running) ≡ ok tt))
    × (((handler (some running) now get ready_path).code ≡ 200)
        ↔ (ready (some running) now ≡ ok tt))
    × (((handler (some running) now get startup_path).code ≡ 200)
        ⊎ ((handler (some running) now get startup_path).code ≡ 503))
    × (((handler (some running) now get ready_path).code ≡ 200)
        ⊎ ((handler (some running) now get ready_path).code ≡ 503))
handler_lem_example = handler_lem (some running) (pos 3000000000) get (λ e. cc)
