-- ===== src/Connection/Session/States.antt =====
-- The states that `run_single_connection` of src/connection.rs sends: every one is a loss.
use titan_rust_client.Base.{
  String, ℕ, ◌-◌, inl, inr, List, [], ◌∷◌, none, some, All, All-append, Bool-cases, Option-cases,
  ltb, ◌&&◌,
}
use titan_rust_client.Notify.{Notify}
use titan_rust_client.Wire.{Api}
use titan_rust_client.State.{ConnectionState, disconnected}
use titan_rust_client.Config.{TitanConfig}
use titan_rust_client.Connection.Resume.{binary, ping, pong, unknown, failure, close}
use titan_rust_client.Connection.Session.{
  Session, Event, shutdown_cancelled, requests_closed, received, arrived, ticked, elsewhere,
  send_pending, handle_frame, handle_tick, session_step, run_events, run_single_connection,
}

module _ {N : Notify} {api : Api} (P : ConnectionState → Type 0)
    (losses : (reason : String) → P (disconnected reason)) where
  session_step-states :
      (c : TitanConfig) (e : Event N api) (s : Session N api)
      → All P s.states
      → All P (session_step c e s).0.states
  unfolding session_step send_pending handle_frame handle_tick
  session_step-states c shutdown_cancelled s h = h
  session_step-states c requests_closed s h = h
  session_step-states c (received request tx encode_error send_error) s h = h
  session_step-states c (arrived (binary (some m)) text) s h = h
  session_step-states c (arrived (binary none) text) s h = h
  session_step-states c (arrived (close (some r)) text) s h =
      All-append _ s.states _ h (losses _, tt)
  session_step-states c (arrived (close none) text) s h = All-append _ s.states _ h (losses _, tt)
  session_step-states c (arrived ping text) s h = h
  session_step-states c (arrived pong text) s h = h
  session_step-states c (arrived unknown text) s h = h
  session_step-states c (arrived failure text) s h = All-append _ s.states _ h (losses _, tt)
  session_step-states c (ticked now none) s h =
      elim (Bool-cases (
        ltb 0 c.pong_timeout_ms
        && (s.awaiting_pong && ltb c.pong_timeout_ms (now - s.last_ping)))) [
          | inl e ↦ rw (e, handle_tick) (All-append _ s.states _ h (losses _, tt))
          | inr e ↦ rw (e, handle_tick) h
        ]
  session_step-states c (ticked now (some e)) s h =
      elim (Bool-cases (
        ltb 0 c.pong_timeout_ms
        && (s.awaiting_pong && ltb c.pong_timeout_ms (now - s.last_ping)))) [
          | inl e ↦ rw (e, handle_tick) (All-append _ s.states _ h (losses _, tt))
          | inr e ↦ rw (e, handle_tick) (All-append _ s.states _ h (losses _, tt))
        ]
  session_step-states c (elsewhere f) s h = h

  run_events-states :
      (c : TitanConfig) (events : List (Event N api)) (s : Session N api)
      → All P s.states
      → All P (run_events c events s).0.states
  unfolding run_events
  run_events-states c [] s h = h
  run_events-states c (event ∷ events) s h =
      let after = session_step-states c event s h in
      elim (Option-cases (session_step c event s).1) [
        | inl e ↦ rw (e, run_events) (run_events-states c events _ after)
        | inr (r, e) ↦ rw (e, run_events) after
      ]

  pub run_single_connection-states :
      (c : TitanConfig) (now : ℕ) (events : List (Event N api)) (s : Session N api)
      → All P s.states
      → All P (run_single_connection c now events s).0.states
  unfolding run_single_connection
  run_single_connection-states c now events s h = run_events-states c events _ h
