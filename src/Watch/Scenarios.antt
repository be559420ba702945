-- ===== src/Watch/Scenarios.antt =====
-- Runs of the model of the state channel of src/connection.rs.
use titan_rust_client.Base.{
  ℕ, ◌+◌, ◌-◌, ◌<◌, ◌≡◌, refl, List, [], ◌∷◌, arith, if◌then◌else◌, ◌==◌, true, ◌++◌,
}
use titan_rust_client.State.{ConnectionState, connected, reconnecting, disconnected}
use titan_rust_client.Watch.{
  Watch, Use, sends, subscribes, drops, use_all, all_sent, connect_channel, state_receiver,
}
use titan_rust_client.Client.Methods.{state}
use titan_rust_client.Client.Scenarios.{client}
use titan_rust_client.Sample.{permits, numbers}
use titan_rust_client.Connection.Session.{
  shutdown_cancelled, run_single_connection, run_events, session_step, handle_frame,
}
use titan_rust_client.Connection.Reconnect.{Round, gives_up, run_connection_loop_with_reconnect}
use titan_rust_client.Connection.Reconnect.Silent.{shutdown_unseen}
use titan_rust_client.Connection.Scenarios.{session, reconnected}
use titan_rust_client.Connection.Reconnect.Scenarios.{one_attempt, lost_round, resumed_round, begun}
use titan_rust_client.Watch.Shown.{last_heard}

-- A value with a number of receivers.
record Told : Type 0 where
  value : ConnectionState
  receivers : ℕ

kept : (v u : ConnectionState) (n : ℕ) → 0 < n → (if n == 0 then u else v) ≡ v
kept v u n h = ground arith

lost : (v u : ConnectionState) (n : ℕ) → n ≡ 0 → (if n == 0 then u else v) ≡ u
lost v u n h = ground arith

abbrev counted : Watch
counted = record {
  Channel = Told;
  channel = λ v. record { value = v; receivers = 1 };
  subscribe = λ w. record w { receivers = w.receivers + 1 };
  drop_receiver = λ w. record w { receivers = w.receivers - 1 };
  send = λ v w. record w { value = if w.receivers == 0 then w.value else v };
  send_replace = λ v w. record w { value = v };
  borrow = λ w. w.value;
  receiver_count = λ w. w.receivers;
  receiver_count-channel = λ v. refl;
  receiver_count-subscribe = λ w. refl;
  receiver_count-drop = λ w. refl;
  receiver_count-send = λ v w. refl;
  receiver_count-send_replace = λ v w. refl;
  borrow-channel = λ v. refl;
  borrow-subscribe = λ w. refl;
  borrow-drop = λ w. refl;
  borrow-send = λ v w. kept v w.value w.receivers;
  borrow-send_closed = λ v w. lost v w.value w.receivers;
  borrow-send_replace = λ v w. refl;
}

-- The connection is lost and given up after one attempt, before anybody subscribes and again after.
abbrev unheard_then_heard : List Use
unheard_then_heard =
    drops
    ∷ sends (reconnecting 1)
    ∷ sends (disconnected "Pong timeout")
    ∷ subscribes
    ∷ sends (reconnecting 2)
    ∷ drops
    ∷ []

last_heard_example :
    let w = use_all counted unheard_then_heard (connect_channel counted []) in
    (state (counted.borrow w) client ≡ reconnecting 2)
    × (counted.borrow (state_receiver counted client w).1 ≡ reconnecting 2)
    × (counted.borrow (
          use_all counted
            (drops ∷ all_sent (disconnected "Pong timeout" ∷ []))
            (connect_channel counted []))
        ≡ connected)
last_heard_example =
    last_heard counted client [] (disconnected "Pong timeout" ∷ []) unheard_then_heard

abbrev cancelled_round : Round permits numbers
cancelled_round = record lost_round { events = shutdown_cancelled ∷ []; is_cancelled = true }

shutdown_unseen_example :
    let w = counted.subscribe (connect_channel counted []) in
    let (l', ended) =
      run_connection_loop_with_reconnect one_attempt (resumed_round ∷ cancelled_round ∷ []) begun in
    (ended ≡ true)
    × (l'.session.states
        ≡ (run_single_connection one_attempt 0 resumed_round.events session).0.states
          ++ reconnecting 1 ∷ connected ∷ [])
    × (counted.borrow (
          use_all counted
            (sends (reconnecting 1) ∷ sends (disconnected "Client shutdown") ∷ sends connected ∷ [])
            w)
        ≡ connected)
unfolding run_single_connection run_events session_step handle_frame gives_up connect_channel
    use_all
shutdown_unseen_example =
    shutdown_unseen counted (counted.subscribe (connect_channel counted [])) one_attempt
      resumed_round cancelled_round [] begun "Server closed connection" reconnected [] refl refl
      refl refl refl refl refl (omega arith)
