-- ===== src/Connection/Reconnect.antt =====
-- `run_connection_loop_with_reconnect` of src/connection.rs, over what the world does in each turn.
pub mod Clean
pub mod Keeps
pub mod Accounting
pub mod Attempts
pub mod Silent
pub mod GivenUp
pub mod Lost
pub mod Scenarios
use Prim.Native.String.{◌++◌ as str_append}
use titan_rust_client.Base.{
  ℕ, Bool, true, false, List, [], ◌∷◌, ◌++◌, Option, none, some, String, ltb, if◌then◌else◌,
  u32_succ,
}
use titan_rust_client.Notify.{Notify}
use titan_rust_client.Wire.{Api}
use titan_rust_client.State.{ConnectionState, connected, reconnecting, disconnected}
use titan_rust_client.Config.{TitanConfig}
use titan_rust_client.Backoff.{calculate_backoff}
use titan_rust_client.Connection.Resume.{Socket, resume_streams}
use titan_rust_client.Connection.Session.{Session, Event, run_single_connection}
use titan_rust_client.Connection.{
  Shared, fail_pending_requests, cleanup_pending_requests, cleanup_resumable_streams,
}

-- One turn of the loop: when the connection starts and what happens on it, the two tests after it,
-- what other tasks do during the back-off, and what `establish_connection` gives.
pub record Round (N : Notify) (api : Api) : Type 0 where
  pub start : ℕ
  pub events : List (Event N api)
  pub is_cancelled : Bool
  pub is_closed : Bool
  pub meanwhile : Shared N api → Shared N api
  pub established : Option (Socket N api)

-- The local variables of the loop, and the delays slept so far.
pub record Loop (N : Notify) (api : Api) : Type 0 where
  pub session : Session N api
  pub reconnect_attempt : ℕ
  pub delays : List ℕ

-- `if let Some(max) = config.max_reconnect_attempts { if reconnect_attempt > max`
unfoldable pub gives_up : TitanConfig → ℕ → Bool
gives_up c attempt = elim c.max_reconnect_attempts [ none ↦ false | some max ↦ ltb max attempt ]

module _ {N : Notify} {api : Api} where
  pub send_state : ConnectionState → Session N api → Session N api
  send_state state s = record s { states = s.states ++ state ∷ [] }

  -- From the announcement of attempt `attempt` on.
  pub reconnect : TitanConfig → Round N api → ℕ → Loop N api → Loop N api
  unfolding send_state
  reconnect c round attempt l =
      let announced = send_state (reconnecting attempt) l.session in
      let waited : Session N api = record announced { shared = round.meanwhile announced.shared } in
      let delays = l.delays ++ calculate_backoff attempt c.max_reconnect_delay_ms ∷ [] in
      elim round.established [
        | none ↦ record { session = waited; reconnect_attempt = attempt; delays = delays }
        | some socket ↦
            let online = send_state connected waited in
            let (shared, counter) = resume_streams socket online.request_id_counter online.shared in
            record {
              session = record online { shared = shared; request_id_counter = counter };
              reconnect_attempt = 0;
              delays = delays;
            }
      ]

  -- What follows `run_single_connection` in a turn; the flag says whether the loop goes on.
  pub after_connection : TitanConfig → Round N api → String → Loop N api → Loop N api × Bool
  unfolding gives_up send_state reconnect
  after_connection c round reason l =
      let failed : Session N api = record (l.session) {
        shared = fail_pending_requests reason l.session.shared;
      } in
      let attempt = u32_succ l.reconnect_attempt in
      (if round.is_cancelled
        then (record l { session = failed }, false)
        else if round.is_closed
        then (record l { session = failed }, false)
        else if gives_up c attempt
        then (
          record l {
            session =
                send_state
                  (disconnected (str_append "Max reconnect attempts reached. Last error: " reason))
                  failed;
            reconnect_attempt = attempt;
          },
          false,
        )
        else (reconnect c round attempt (record l { session = failed }), true))

  -- The `loop`; the flag says whether it has been left by `break`.
  pub connection_loop : TitanConfig → List (Round N api) → Loop N api → Loop N api × Bool
  connection_loop c [] l = (l, false)
  connection_loop c (round ∷ rounds) l =
      let (s, ended) = run_single_connection c round.start round.events l.session in
      elim ended [
        | none ↦ (record l { session = s }, false)
        | some reason ↦
            let (l', more) = after_connection c round reason (record l { session = s }) in
            elim more [ true ↦ connection_loop c rounds l' | false ↦ (l', true) ]
      ]

  -- "Final cleanup"
  pub final_cleanup : Loop N api → Loop N api
  final_cleanup l = record l {
    session = record (l.session) {
      shared = cleanup_resumable_streams (cleanup_pending_requests l.session.shared);
    };
  }

  -- The task; the flag says whether it has ended after these turns.
  pub run_connection_loop_with_reconnect :
      TitanConfig → List (Round N api) → Loop N api → Loop N api × Bool
  unfolding connection_loop final_cleanup
  run_connection_loop_with_reconnect c rounds l =
      let (l', left) = connection_loop c rounds l in
      elim left [ true ↦ (final_cleanup l', true) | false ↦ (l', false) ]
