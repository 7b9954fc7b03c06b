-- ===== src/Health/Lifecycle.antt =====
-- internal/health/server.go: the life of the server, from `Listen` to `Close`.
use tee_relay_client.Base.{
  Bool, true, false, not, ◌&&◌, List, [], ◌∷◌, Option, none, some, Error, Result, ok, wrapped,
  then_do, if◌then◌else◌, ◌≡◌, ◌⊎◌, ◌↔◌, refl, arith,
}

-- The struct `Server`: whether its listener holds the port, whether `Serve` has registered the
-- listener, and whether the HTTP server was shut down.
pub record Server : Type 0 where
  pub bound : Bool
  pub registered : Bool
  pub shut_down : Bool

-- `Listen`, at what `net.Listen` gives.
unfoldable pub listen : Result (Unit {0}) → Result Server
listen bind =
    then_do (wrapped "binding health server" bind)
      λ u. ok (record { bound = true; registered = false; shut_down = false })

-- The goroutine of `Start`, when it comes to `Serve`: after a shutdown that closes the listener and
-- returns at once, and else the listener is registered.
unfoldable pub start : Server → Server
start s = if s.shut_down then record s { bound = false } else record s { registered = true }

-- `errors.Join(err, lnErr)`: both, or the one that there is.
pub data Failure : Type 0 where
  one : Error → Failure
  join : Option Error → Error → Failure

abbrev failed : Option Error → Option Failure
failed none = none
failed (some e) = some (one e)

-- `lnErr := s.ln.Close(); lnErr != nil && !errors.Is(lnErr, net.ErrClosed)`: a listener that is
-- closed already gives ErrClosed, which is passed over.
abbrev close_listener : Bool → Option Error → Option Error → Option Failure
close_listener true shutdown (some e) = some (join shutdown e)
close_listener true shutdown none = failed shutdown
close_listener false shutdown close_error = failed shutdown

-- `Close`: `Shutdown`, which closes a registered listener, and then the listener itself. The
-- arguments are what the two calls may fail with; the port is given up also where closing the
-- listener reports an error.
unfoldable pub close : Option Error → Option Error → Server → Option Failure × Server
close shutdown close_error s =
    let open' = s.bound && not s.registered in
    (close_listener open' shutdown close_error, record s { bound = false; shut_down = true })

-- What can happen to a server.
pub data Occurrence : Type 0 where
  started : Occurrence
  closed : Option Error → Option Error → Occurrence

abbrev react : Occurrence → Server → Server
react started s = start s
react (closed e l) s = (close e l s).1

unfoldable pub events : List Occurrence → Server → Server
events [] s = s
events (e ∷ es) s = events es (react e s)

events-bound : (es : List Occurrence) (s : Server) → s.bound ≡ false → (events es s).bound ≡ false
unfolding events start close
events-bound [] s h = h
events-bound (started ∷ es) s h = events-bound es (start s) (ground arith)
events-bound (closed e l ∷ es) s h = events-bound es (close e l s).1 refl

close_listener_lem :
    (open' : Bool) (e l : Option Error)
    → (close_listener open' e l ≡ none) ↔ ((e ≡ none) × ((open' ≡ false) ⊎ (l ≡ none)))
close_listener_lem true none none = (λ h. ground arith, λ h. ground arith)
close_listener_lem true (some x) none = (λ h. absurd (ground arith), λ h. absurd (ground arith))
close_listener_lem true e (some y) = (λ h. absurd (ground arith), λ h. absurd (ground arith))
close_listener_lem false none l = (λ h. ground arith, λ h. ground arith)
close_listener_lem false (some x) l = (λ h. absurd (ground arith), λ h. absurd (ground arith))

-- Whatever happened to the server before and happens after: once `Close` was called the port is
-- free, and `Close` gives no error exactly if the shutdown gave none, and either the listener was
-- closed before or closing it gave none.
pub close_releases :
    (before after : List Occurrence) (e l : Option Error) (s : Server)
    → let u = events before s in
      ((events after (close e l u).1).bound ≡ false)
      × (((close e l u).0 ≡ none)
          ↔ ((e ≡ none) × (((u.bound && not u.registered) ≡ false) ⊎ (l ≡ none))))
unfolding close
close_releases before after e l s =
    let u = events before s in
    (events-bound after (close e l u).1 refl, close_listener_lem (u.bound && not u.registered) e l)
