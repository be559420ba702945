-- ===== src/Connection/Reconnect/Scenarios.antt =====
-- Runs of the connection task of src/connection.rs at concrete inputs.
use titan_rust_client.Base.Map.{lookup}
use titan_rust_client.Wire.{response}
use titan_rust_client.Connection.Pending.{Told}
use titan_rust_client.Connection.Reconnect.Lost.{disconnect_fails_pending}
use titan_rust_client.Connection.{handle_server_message}
use titan_rust_client.Base.{◌⊎◌, ◌≤◌, ◌≡◌, refl, true, false, [], ◌∷◌, none, some, All, arith}
use titan_rust_client.Sample.{permits, numbers}
use titan_rust_client.Config.{TitanConfig}
use titan_rust_client.Manager.Slots.{Counted}
use titan_rust_client.Connection.Resume.{close}
use titan_rust_client.Connection.Resume.Sync.{Synced}
use titan_rust_client.Connection.Scenarios.{reply_to, two_streams-Synced, reconnected, session}
use titan_rust_client.Connection.Session.{
  arrived, session_step, handle_frame, run_events, run_single_connection,
}
use titan_rust_client.Connection.Reconnect.{Round, Loop, run_connection_loop_with_reconnect}
use titan_rust_client.Base.{String}
use titan_rust_client.Base.Outcome.{err, connection_failed}
use titan_rust_client.State.{connected, reconnecting}
use titan_rust_client.Client.{wait_for_connected}
use titan_rust_client.Client.GivenUp.{Seen, sees, misses, seen_all, waiter_told}
use titan_rust_client.Connection.Reconnect.GivenUp.{Hopeless, last_words}
use titan_rust_client.Connection.Reconnect.{
  connection_loop, final_cleanup, after_connection, reconnect, send_state, gives_up,
}
use titan_rust_client.Connection.Reconnect.Clean.{loop_leaves_nothing}
use titan_rust_client.Connection.Reconnect.Attempts.{
  Announced, Failing, limit_ends_loop, reconnects_within_limits,
}
use titan_rust_client.Connection.Reconnect.Accounting.{EndsAll, loop-Counted, loop-Synced}

-- One attempt is allowed.
abbrev pub one_attempt : TitanConfig
one_attempt = record {
  url = "wss://x";
  token = "t";
  max_reconnect_delay_ms = 500;
  max_reconnect_attempts = some 1;
  auto_wrap_sol = false;
  danger_accept_invalid_certs = false;
  ping_interval_ms = 1_000;
  pong_timeout_ms = 2_000;
  one_shot_timeout_ms = 3_000;
}

-- The server closes the connection, and cannot be reached again.
abbrev pub lost_round : Round permits numbers
lost_round = record {
  start = 0;
  events = arrived (close none) "" ∷ [];
  is_cancelled = false;
  is_closed = false;
  meanwhile = λ s. s;
  established = none;
}

-- The server closes the connection, and takes the next one.
abbrev pub resumed_round : Round permits numbers
resumed_round = record lost_round { established = some reconnected }

abbrev pub begun : Loop permits numbers
begun = record { session = session; reconnect_attempt = 0; delays = [] }

lost_round-Failing : Failing one_attempt lost_round
unfolding run_single_connection run_events session_step handle_frame
lost_round-Failing = (refl, λ s e. cc)

limit_ends_loop_example :
    (run_connection_loop_with_reconnect one_attempt (lost_round ∷ lost_round ∷ []) begun).1 ≡ true
limit_ends_loop_example =
    limit_ends_loop one_attempt (lost_round ∷ lost_round ∷ []) begun 1 refl (omega arith)
      (omega arith) (lost_round-Failing, (lost_round-Failing, tt)) (omega arith)

loop_leaves_nothing_example :
    let t =
      (run_connection_loop_with_reconnect one_attempt
        (lost_round ∷ lost_round ∷ [])
        begun).0.session.shared in
    (t.pending_requests ≡ []) × (t.resumable_streams ≡ [])
loop_leaves_nothing_example = loop_leaves_nothing one_attempt (lost_round ∷ lost_round ∷ []) begun (
    limit_ends_loop one_attempt (lost_round ∷ lost_round ∷ []) begun 1 refl (omega arith)
      (omega arith) (lost_round-Failing, (lost_round-Failing, tt)) (omega arith))

reconnects_within_limits_example :
    let t =
      (run_connection_loop_with_reconnect one_attempt (lost_round ∷ resumed_round ∷ []) begun).0 in
    All (Announced 1) t.session.states × All (λ d. d ≤ 500) t.delays
reconnects_within_limits_example =
    reconnects_within_limits one_attempt (lost_round ∷ resumed_round ∷ []) begun 1 refl
      (omega arith) (omega arith) (tt, tt) tt

loop-Counted_example :
    let rounds = resumed_round ∷ lost_round ∷ lost_round ∷ [] in
    let (t, left) = run_connection_loop_with_reconnect one_attempt rounds begun in
    Counted 3 t.session.shared.manager 0
    × ((left ≡ false)
        ⊎ EndsAll (connection_loop one_attempt rounds begun).0.session.shared t.session.shared)
loop-Counted_example =
    loop-Counted one_attempt (resumed_round ∷ lost_round ∷ lost_round ∷ []) begun
      (
        ((tt, tt), (λ s v. v), (λ s v. v, (λ s v. v, tt))),
        (((tt, tt), (λ s v. v), tt), (((tt, tt), (λ s v. v), tt), tt)),
      )
      (record { small = omega arith; limit = omega arith; capped = omega arith; counted = refl })

disconnect_fails_pending_example :
    let t = (connection_loop one_attempt (resumed_round ∷ []) begun).0.session.shared in
    Told 0 "Server closed connection" t × (handle_server_message (response (reply_to 5 none)) t ≡ t)
unfolding lookup run_single_connection run_events session_step handle_frame
disconnect_fails_pending_example =
    disconnect_fails_pending one_attempt resumed_round begun 5 (reply_to 5 none)
      ((tt, tt), (λ s v. v), (λ s v. v, (λ s v. v, tt))) refl refl

loop-Synced_example :
    Synced
      (run_connection_loop_with_reconnect one_attempt
        (resumed_round ∷ lost_round ∷ [])
        begun).0.session.shared
loop-Synced_example =
    loop-Synced one_attempt (resumed_round ∷ lost_round ∷ []) begun
      (((tt, tt), (λ s v. v), (λ s v. v, (λ s v. v, tt))), (((tt, tt), (λ s v. v), tt), tt))
      two_streams-Synced

-- Nothing has been announced yet.
abbrev silent : Loop permits numbers
silent = record begun { session = record session { states = [] } }

lost_round-Hopeless : Hopeless one_attempt lost_round
lost_round-Hopeless = (lost_round-Failing, refl, refl)

told_twice :
    Seen
      (run_connection_loop_with_reconnect one_attempt
        (lost_round ∷ lost_round ∷ [])
        silent).0.session.states
      (reconnecting 1 ∷ last_words "Server closed connection" ∷ [])
unfolding run_connection_loop_with_reconnect connection_loop final_cleanup after_connection
    reconnect send_state gives_up run_single_connection run_events session_step handle_frame
told_twice = misses _ _ (sees _ (misses _ _ (sees _ seen_all)))

waiter_told_example :
    (reason : String) × ((run_connection_loop_with_reconnect one_attempt
        (lost_round ∷ lost_round ∷ [])
        silent).1
      ≡ true)
    × (wait_for_connected
          (λ r. true)
          (reconnecting 1 ∷ last_words "Server closed connection" ∷ connected ∷ [])
        ≡ err (connection_failed 0 reason))
waiter_told_example =
    waiter_told (λ r. true) (λ r. refl) one_attempt (lost_round ∷ lost_round ∷ []) silent 1
      (reconnecting 1 ∷ last_words "Server closed connection" ∷ []) (connected ∷ []) refl
      (omega arith) (omega arith) (lost_round-Hopeless, (lost_round-Hopeless, tt)) (omega arith) tt
      told_twice
