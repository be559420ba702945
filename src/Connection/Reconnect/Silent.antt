-- ===== src/Connection/Reconnect/Silent.antt =====
-- A shutdown that comes while the task of src/connection.rs reconnects.
use mathlib.Core.List.{append_assoc}
use titan_rust_client.Base.{
  ℕ, ◌<◌, ◌≡◌, refl, ◌∙◌, ap, List, [], ◌∷◌, ◌++◌, some, String, true, false, u32_succ,
}
use titan_rust_client.Notify.{Notify}
use titan_rust_client.Wire.{Api}
use titan_rust_client.State.{connected, disconnected, reconnecting}
use titan_rust_client.Config.{TitanConfig}
use titan_rust_client.Connection.Resume.{Socket}
use titan_rust_client.Connection.Session.{
  Event, shutdown_cancelled, session_step, run_events, run_single_connection,
}
use titan_rust_client.Connection.Reconnect.{
  Round, Loop, gives_up, send_state, reconnect, after_connection, connection_loop, final_cleanup,
  run_connection_loop_with_reconnect, fail_pending_requests,
}
use titan_rust_client.Watch.Shown.{sends-shown}
use titan_rust_client.Watch.{Watch, sends, use_all}

module _ {N : Notify} {api : Api} where
  reconnect-states :
      (c : TitanConfig) (round : Round N api) (attempt : ℕ) (l : Loop N api) (socket : Socket N api)
      → round.established ≡ some socket
      → (reconnect c round attempt l).session.states
        ≡ l.session.states ++ reconnecting attempt ∷ connected ∷ []
  unfolding reconnect send_state
  reconnect-states c round attempt l socket e =
      rw (e, reconnect) (append_assoc l.session.states _ _)

  ends_silently :
      (c : TitanConfig) (round : Round N api) (rounds : List (Round N api)) (l : Loop N api)
      (later : List (Event N api))
      → round.events ≡ shutdown_cancelled ∷ later
      → round.is_cancelled ≡ true
      → let (l', ended) = connection_loop c (round ∷ rounds) l in
        (ended ≡ true) × (l'.session.states ≡ l.session.states)
  unfolding connection_loop after_connection run_single_connection run_events session_step
  ends_silently c round rounds l later e cancelled = rw (e, cancelled) (refl, refl)

  -- What a turn does when the task goes on.
  after_connection-goes_on :
      (c : TitanConfig) (round : Round N api) (reason : String) (l : Loop N api)
      → round.is_cancelled ≡ false
      → round.is_closed ≡ false
      → gives_up c (u32_succ l.reconnect_attempt) ≡ false
      → after_connection c round reason l ≡ (
        reconnect c round (u32_succ l.reconnect_attempt) (record l {
          session = record (l.session) { shared = fail_pending_requests reason l.session.shared };
        }),
        true,
      )
  unfolding after_connection
  after_connection-goes_on c round reason l uncancelled open_still goes_on =
      rw (uncancelled, open_still, goes_on, after_connection) refl

  -- A connection is lost and made again, and the next one sees the cancelled token at once.
  cancelled_late :
      (c : TitanConfig) (round last : Round N api) (rounds : List (Round N api)) (l : Loop N api)
      (reason : String) (socket : Socket N api) (later : List (Event N api))
      → (run_single_connection c round.start round.events l.session).1 ≡ some reason
      → round.is_cancelled ≡ false
      → round.is_closed ≡ false
      → gives_up c (u32_succ l.reconnect_attempt) ≡ false
      → round.established ≡ some socket
      → last.events ≡ shutdown_cancelled ∷ later
      → last.is_cancelled ≡ true
      → let (l', ended) = connection_loop c (round ∷ last ∷ rounds) l in
        (ended ≡ true)
        × (l'.session.states
            ≡ (run_single_connection c round.start round.events l.session).0.states
              ++ reconnecting (u32_succ l.reconnect_attempt) ∷ connected ∷ [])
  unfolding connection_loop
  cancelled_late c round last rounds l reason socket later lost uncancelled open_still goes_on made
        e cancelled =
      let before : Loop N api = record l {
        session = (run_single_connection c round.start round.events l.session).0;
      } in
      let on = after_connection-goes_on c round reason before uncancelled open_still goes_on in
      let quiet =
        ends_silently c last rounds (after_connection c round reason before).0 later e cancelled in
      rw (lost, connection_loop, ap (λ p. p.1) on)
        (
          quiet.0,
          quiet.1
              ∙ (ap (λ p. p.0.session.states) on
                  ∙ reconnect-states c round (u32_succ l.reconnect_attempt) _ socket made),
        )

  -- A shutdown during the back-off is not told: if a connection is lost and the next one can be made, the task
  -- announces the attempt and then the new connection, and once that one takes the arm of the cancelled token the
  -- task ends and sends nothing more. So who receives the states reads connected in the end, though the
  -- shutdown has sent its own state in between.
  pub shutdown_unseen :
      (W : Watch) (w : W.Channel) (c : TitanConfig) (round last : Round N api)
      (rounds : List (Round N api)) (l : Loop N api) (reason : String) (socket : Socket N api)
      (later : List (Event N api))
      → (run_single_connection c round.start round.events l.session).1 ≡ some reason
      → round.is_cancelled ≡ false
      → round.is_closed ≡ false
      → gives_up c (u32_succ l.reconnect_attempt) ≡ false
      → round.established ≡ some socket
      → last.events ≡ shutdown_cancelled ∷ later
      → last.is_cancelled ≡ true
      → 0 < W.receiver_count w
      → let attempt = reconnecting (u32_succ l.reconnect_attempt) in
        let (l', ended) = run_connection_loop_with_reconnect c (round ∷ last ∷ rounds) l in
        (ended ≡ true)
        × (l'.session.states
            ≡ (run_single_connection c round.start round.events l.session).0.states
              ++ attempt ∷ connected ∷ [])
        × (W.borrow (
              use_all W
                (sends attempt ∷ sends (disconnected "Client shutdown") ∷ sends connected ∷ [])
                w)
            ≡ connected)
  unfolding run_connection_loop_with_reconnect final_cleanup
  shutdown_unseen W w c round last rounds l reason socket later lost uncancelled open_still goes_on
        made e cancelled heard =
      let ends =
        cancelled_late c round last rounds l reason socket later lost uncancelled open_still goes_on
          made e cancelled in
      rw (ends.0, run_connection_loop_with_reconnect)
        (refl, ends.1, sends-shown W _ connected w heard (λ n. refl))
