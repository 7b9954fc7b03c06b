-- ===== src/Backup/Restore/Guarded.antt =====
-- The guard of the downloads (internal/router/processors/backup.go) against unsafe URLs.
use tee_relay_client.Base.{
  ◌+◌, Bool, true, false, Bytes, ok, Result-cases, ◌≡◌, ◌≢◌, ◌⊎◌, ◌↔◌, inl, inr, refl, arith,
}
use tee_relay_client.Instruction.{World}
use tee_relay_client.Processor.{Env, Processor}
use tee_relay_client.Backup.Defs.{HttpResponse, BackupLib}
use tee_relay_client.Backup.Restore.{fetch}

module _ (env : Env) (lib : BackupLib) (base : Processor) where
  -- The response to a GET by the plain client where unsafe URLs are allowed, and otherwise, at a
  -- later time, by the safe client, for a URL that passed validation.
  abbrev pub Downloaded : Bool → Bytes → World → HttpResponse → Type 0
  Downloaded unsafe url w response =
      (unsafe ≡ true) × (lib.new_request url ≡ ok tt) × (lib.http_get true w.tick url ≡ ok response)
      ⊎ (unsafe ≡ false)
        × (lib.validate_url w.tick url ≡ ok tt)
        × (lib.new_request url ≡ ok tt)
        × (lib.http_get false (w.tick + 1) url ≡ ok response)

  fetch_valid :
      (url : Bytes) (w : World) (response : HttpResponse)
      → lib.validate_url w.tick url ≡ ok tt
      → ((fetch env lib base false url w).0 ≡ ok response)
        ↔ ((lib.new_request url ≡ ok tt) × (lib.http_get false (w.tick + 1) url ≡ ok response))
  unfolding fetch
  fetch_valid url w response v = (λ h. ground arith, λ h. ground arith)

  -- A restore's download succeeds with a response exactly when it is what the matching client
  -- answers to a GET: without an exception for unsafe URLs the URL has passed validation, and the
  -- client is the safe one. A URL that does not pass is not requested: its validation is the only
  -- call that is made.
  pub fetch_lem :
      (unsafe : Bool) (url : Bytes) (w : World) (response : HttpResponse)
      → (((fetch env lib base unsafe url w).0 ≡ ok response) ↔ Downloaded unsafe url w response)
        × (unsafe ≡ false
            → lib.validate_url w.tick url ≢ ok tt
            → (fetch env lib base unsafe url w).1 ≡ record w { tick = w.tick + 1 })
  unfolding fetch
  fetch_lem true url w response = (
    (λ h. inl (refl, ground arith, ground arith), λ h. ground arith),
    λ e v. absurd (ground arith),
  )
  fetch_lem false url w response = elim (Result-cases (lib.validate_url w.tick url)) [
    | inl (u, e) ↦
        let (there, back) = fetch_valid url w response e in
        (
          (λ h. let (made, got) = there h in inr (refl, e, made, got), λ h. ground arith),
          λ f v. absurd (v e),
        )
    | inr bad ↦ ((λ h. absurd (ground arith), λ h. absurd (ground arith)), λ f v. ground arith)
  ]
