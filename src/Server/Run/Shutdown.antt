-- ===== src/Server/Run/Shutdown.antt =====
-- When `shutdown_signal` completes.
use justkv.Common.{◌≡◌, ◌↔◌, ◌⊎◌, inl, inr, refl, Bool, ◌||◌, true, false, List}
use justkv.Common.Assoc.{In}
use justkv.Server.Run.{
  Event, interrupt, terminate, request, Signals, is_interrupt, is_terminate, shutdown_signal,
  Completes,
}

-- what ends the server
abbrev pub IsStopped : Signals → List Event → Type 0
IsStopped s events =
    (s.ctrl_c_ok ≡ false) ⊎ ((s.terminate_ok ≡ false) ⊎ (In interrupt events ⊎ In terminate events))

by_event :
    (events : List Event) (e : Event)
    → In e events
    → (is_interrupt e || is_terminate e) ≡ true
    → In interrupt events ⊎ In terminate events
by_event events interrupt i p = inl i
by_event events terminate i p = inr i
by_event events (request q) i p = absurd (cc)

by_handlers :
    (a b : Bool) (events : List Event)
    → let s : Signals = record { ctrl_c_ok = a; terminate_ok = b } in
      Completes (shutdown_signal s) events ↔ IsStopped s events
unfolding shutdown_signal
by_handlers false b events = ((λ c. inl refl), (λ c. tt))
by_handlers true false events = ((λ c. inr (inl refl)), (λ c. tt))
by_handlers true true events = (
  (λ (e, i, p). inr (inr (by_event events e i p))),
  (λ c. elim c [
    | inl missing ↦ absurd (cc)
    | inr (inl missing) ↦ absurd (cc)
    | inr (inr (inl i)) ↦ (interrupt, i, refl)
    | inr (inr (inr i)) ↦ (terminate, i, refl)
  ]),
)

-- `shutdown_signal` completes exactly if SIGINT or SIGTERM comes, or if the handler of one of them
-- could not be registered: then at once, though no signal came.
pub shutdown_signal-Completes :
    (s : Signals) (events : List Event) → Completes (shutdown_signal s) events ↔ IsStopped s events
shutdown_signal-Completes s events = by_handlers s.ctrl_c_ok s.terminate_ok events
