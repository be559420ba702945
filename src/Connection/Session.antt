-- ===== src/Connection/Session.antt =====
-- `run_single_connection` of src/connection.rs: one arm of its `select!` at a time.
use Prim.Native.String.{◌++◌ as str_append}
use titan_rust_client.Base.{
  ℕ, ◌-◌, Bool, true, false, ◌&&◌, List, [], ◌∷◌, ◌++◌, Option, none, some, String, ltb,
  if◌then◌else◌, u32_succ, max,
}
use titan_rust_client.Base.Map.{insert}
use titan_rust_client.Base.Outcome.{err, connection_closed, unexpected}
use titan_rust_client.Notify.{Notify}
use titan_rust_client.Wire.{Api, ClientRequest}
use titan_rust_client.State.{ConnectionState, disconnected}
use titan_rust_client.Config.{TitanConfig, default_ping_interval_ms}
use titan_rust_client.Connection.Resume.{Frame, binary, ping, pong, unknown, failure, close}
use titan_rust_client.Connection.{Shared, answer_pending, handle_server_message}
pub mod Arms
pub mod Answers
pub mod States

-- The local variables of the loop, the shared state, and what was sent on `state_tx`, newest last (a
-- watch channel keeps a value that is sent only while it has a receiver).
pub record Session (N : Notify) (api : Api) : Type 0 where
  pub shared : Shared N api
  pub request_id_counter : ℕ
  pub awaiting_pong : Bool
  pub last_ping : ℕ
  pub states : List ConnectionState

-- The arm of `select!` that is ready, with what the encoder and the sink make of what is sent
-- (`none` where they succeed) and the text of a socket error; or what other tasks do in between.
pub data Event (N : Notify) (api : Api) : Type 0 where
  shutdown_cancelled : Event N api
  requests_closed : Event N api
  received : ClientRequest api → (tx : ℕ) → (encode_error send_error : Option String) → Event N api
  arrived : Frame api → (error_text : String) → Event N api
  ticked : (now : ℕ) → (ping_error : Option String) → Event N api
  elsewhere : (Shared N api → Shared N api) → Event N api

-- The period of `ping_timer`.
pub ping_interval : TitanConfig → ℕ
ping_interval c = if ltb 0 c.ping_interval_ms then c.ping_interval_ms else default_ping_interval_ms

module _ {N : Notify} {api : Api} where
  -- `state_tx.send(Disconnected { reason })` before the loop returns the reason.
  abbrev pub lose : Session N api → String → Session N api × Option String
  lose s reason = (record s { states = s.states ++ disconnected reason ∷ [] }, some reason)

  unfoldable pub send_pending :
      ClientRequest api → ℕ → Option String → Option String → Session N api → Session N api
  send_pending request tx encode_error send_error s =
      let waiting : Shared N api = record (s.shared) {
        pending_requests = insert request.id tx s.shared.pending_requests;
      } in
      record s {
        request_id_counter = u32_succ (max request.id s.request_id_counter);
        shared = elim encode_error [
          | some e ↦
              answer_pending request.id (err (unexpected (str_append "Encode failed: " e))) waiting
          | none ↦ elim send_error [
            | some e ↦
                answer_pending request.id (err (connection_closed (str_append "Send failed: " e)))
                  waiting
            | none ↦ waiting
          ]
        ];
      }

  unfoldable pub handle_frame : Frame api → String → Session N api → Session N api × Option String
  handle_frame (binary (some msg)) text s =
      (record s { shared = handle_server_message msg s.shared }, none)
  handle_frame (binary none) text s = (s, none)
  handle_frame (close (some reason)) text s = lose s reason
  handle_frame (close none) text s = lose s "Server closed connection"
  handle_frame ping text s = (s, none)
  handle_frame pong text s = (record s { awaiting_pong = false }, none)
  handle_frame unknown text s = (s, none)
  handle_frame failure text s = lose s (str_append "WebSocket error: " text)

  unfoldable pub handle_tick :
      TitanConfig → ℕ → Option String → Session N api → Session N api × Option String
  handle_tick c now ping_error s =
      if ltb 0 c.pong_timeout_ms && (s.awaiting_pong && ltb c.pong_timeout_ms (now - s.last_ping))
      then lose s "Pong timeout"
      else elim ping_error [
        | some e ↦ lose s (str_append "Failed to send ping: " e)
        | none ↦ (record s { awaiting_pong = true; last_ping = now }, none)
      ]

  -- One turn of the loop; a reason ends it.
  unfoldable pub session_step :
      TitanConfig → Event N api → Session N api → Session N api × Option String
  unfolding send_pending handle_frame handle_tick
  session_step c shutdown_cancelled s = (s, some "Client shutdown")
  session_step c requests_closed s = (s, some "Request channel closed")
  session_step c (received request tx encode_error send_error) s =
      (send_pending request tx encode_error send_error s, none)
  session_step c (arrived frame text) s = handle_frame frame text s
  session_step c (ticked now ping_error) s = handle_tick c now ping_error s
  session_step c (elsewhere f) s = (record s { shared = f s.shared }, none)

  -- The loop over the events of one connection; `none` if it still runs after them.
  unfoldable pub run_events :
      TitanConfig → List (Event N api) → Session N api → Session N api × Option String
  run_events c [] s = (s, none)
  run_events c (e ∷ events) s =
      let (s', reason) = session_step c e s in
      elim reason [ some r ↦ (s', some r) | none ↦ run_events c events s' ]

  -- `awaiting_pong` and `last_ping` start anew with each connection.
  unfoldable pub run_single_connection :
      TitanConfig → ℕ → List (Event N api) → Session N api → Session N api × Option String
  unfolding run_events
  run_single_connection c now events s =
      run_events c events (record s { awaiting_pong = false; last_ping = now })
