-- ===== src/Connection/Reconnect/Keeps.antt =====
-- The rule for what the whole connection task of src/connection.rs keeps.
use titan_rust_client.Base.{
  ℕ, inl, inr, List, [], ◌∷◌, Option, none, some, All, Bool-cases, Option-cases, String, u32_succ,
  arith, subst, ◌≡◌,
}
use titan_rust_client.Base.Map.{Map, lookup}
use titan_rust_client.Notify.{Notify}
use titan_rust_client.Wire.{Api, ServerMessage}
use titan_rust_client.Config.{TitanConfig}
use titan_rust_client.Connection.Resume.{
  Arrival, Socket, remap, binary, ping, pong, unknown, failure, close,
}
use titan_rust_client.Connection.Resume.Keeps.{resume_streams-keeps}
use titan_rust_client.Connection.Session.{
  Session, Event, shutdown_cancelled, requests_closed, received, arrived, ticked, elsewhere,
  send_pending, handle_frame, handle_tick, session_step, run_events, run_single_connection,
}
use titan_rust_client.Connection.Reconnect.{
  Round, Loop, send_state, gives_up, reconnect, after_connection, connection_loop, final_cleanup,
  run_connection_loop_with_reconnect,
}
use titan_rust_client.Connection.{
  Shared, Sent, answer_pending, remove_and_end, handle_server_message, cleanup_resumable_streams,
  fail_pending_requests, cleanup_pending_requests,
}

-- Other tasks keep `P` during a connection.
abbrev pub CalmEvent : {N : Notify} {api : Api} → (Shared N api → Type 0) → Event N api → Type 0
CalmEvent {N} {api} P (elsewhere f) = (s : Shared N api) → P s → P (f s)
CalmEvent P _ = Unit

-- They keep it while the streams are resumed.
abbrev pub CalmSocket :
    {N : Notify} {api : Api} → (Shared N api → Type 0) → Option (Socket N api) → Type 0
CalmSocket P none = Unit
CalmSocket {N} {api} P (some socket) =
    All (λ (a : Arrival N api). (s : Shared N api) → P s → P (a.meanwhile s)) socket.frames

-- They keep it in a whole turn.
abbrev pub CalmRound : {N : Notify} {api : Api} → (Shared N api → Type 0) → Round N api → Type 0
CalmRound {N} {api} P round =
    All (CalmEvent P) round.events
    × ((s : Shared N api) → P s → P (round.meanwhile s))
    × CalmSocket P round.established

handle_tick-shared :
    {N : Notify} {api : Api} (c : TitanConfig) (now : ℕ) (ping_error : Option String)
    (s : Session N api)
    → (handle_tick c now ping_error s).0.shared ≡ s.shared
unfolding handle_tick
handle_tick-shared c now ping_error s = ground arith

module _ {N : Notify} {api : Api} (P : Shared N api → Type 0)
    (ends : (id : ℕ) (s : Shared N api) → P s → P (remove_and_end id s))
    (messages : (msg : ServerMessage api) (s : Shared N api)
      → P s
      → P (handle_server_message msg s))
    (remaps : (old_id : ℕ) (new_id : Option ℕ) (s : Shared N api) → P s → P (remap old_id new_id s))
    (cleans : (s : Shared N api) → P s → P (cleanup_resumable_streams s))
    (answers : (s : Shared N api) (pending : Map ℕ) (sent : List (Sent api))
      → P s
      → P (record s { pending_requests = pending; sent = sent })) where
  answer_pending-keeps :
      (id : ℕ) (result : _) (s : Shared N api) → P s → P (answer_pending id result s)
  unfolding answer_pending
  answer_pending-keeps id result s h = elim (Option-cases (lookup id s.pending_requests)) [
    | inl e ↦ rw (e, answer_pending) h
    | inr (tx, e) ↦ rw (e, answer_pending) (answers s _ _ h)
  ]

  session_step-keeps :
      (c : TitanConfig) (event : Event N api) (s : Session N api)
      → CalmEvent P event
      → P s.shared
      → P (session_step c event s).0.shared
  unfolding session_step send_pending handle_frame handle_tick
  session_step-keeps c shutdown_cancelled s calm h = h
  session_step-keeps c requests_closed s calm h = h
  session_step-keeps c (received request tx (some e) send_error) s calm h =
      answer_pending-keeps request.id _ _ (answers s.shared _ s.shared.sent h)
  session_step-keeps c (received request tx none (some e)) s calm h =
      answer_pending-keeps request.id _ _ (answers s.shared _ s.shared.sent h)
  session_step-keeps c (received request tx none none) s calm h = answers s.shared _ s.shared.sent h
  session_step-keeps c (arrived (binary (some m)) text) s calm h = messages m s.shared h
  session_step-keeps c (arrived (binary none) text) s calm h = h
  session_step-keeps c (arrived (close (some r)) text) s calm h = h
  session_step-keeps c (arrived (close none) text) s calm h = h
  session_step-keeps c (arrived ping text) s calm h = h
  session_step-keeps c (arrived pong text) s calm h = h
  session_step-keeps c (arrived unknown text) s calm h = h
  session_step-keeps c (arrived failure text) s calm h = h
  session_step-keeps c (ticked now ping_error) s calm h =
      rw (handle_tick-shared c now ping_error s) h
  session_step-keeps c (elsewhere f) s calm h = calm s.shared h

  run_events-keeps :
      (c : TitanConfig) (events : List (Event N api)) (s : Session N api)
      → All (CalmEvent P) events
      → P s.shared
      → P (run_events c events s).0.shared
  unfolding run_events
  run_events-keeps c [] s calm h = h
  run_events-keeps c (event ∷ events) s calm h =
      let after = session_step-keeps c event s calm.0 h in
      elim (Option-cases (session_step c event s).1) [
        | inl e ↦ rw (e, run_events) (run_events-keeps c events _ calm.1 after)
        | inr (r, e) ↦ rw (e, run_events) after
      ]

  reconnect-keeps :
      (c : TitanConfig) (round : Round N api) (attempt : ℕ) (l : Loop N api)
      → CalmRound P round
      → P l.session.shared
      → P (reconnect c round attempt l).session.shared
  unfolding reconnect send_state
  reconnect-keeps c round attempt l calm h = elim (Option-cases round.established) [
    | inl e ↦ rw (e, reconnect) (calm.1 _ h)
    | inr (socket, e) ↦
        rw (e, reconnect)
          (resume_streams-keeps P ends messages remaps socket _ _ (subst (CalmSocket P) e calm.2)
            (calm.1 _ h))
  ]

  after_connection-keeps :
      (c : TitanConfig) (round : Round N api) (reason : String) (l : Loop N api)
      → CalmRound P round
      → P l.session.shared
      → P (after_connection c round reason l).0.session.shared
  unfolding after_connection fail_pending_requests send_state
  after_connection-keeps c round reason l calm h =
      let failed = answers l.session.shared _ _ h in
      let lost : Loop N api = record l {
        session = record (l.session) { shared = fail_pending_requests reason l.session.shared };
      } in
      elim (Bool-cases round.is_cancelled) [
        | inl x ↦ rw (x, after_connection) failed
        | inr x ↦ elim (Bool-cases round.is_closed) [
          | inl y ↦ rw (x, y, after_connection) failed
          | inr y ↦ elim (Bool-cases (gives_up c (u32_succ l.reconnect_attempt))) [
            | inl z ↦ rw (x, y, z, after_connection) failed
            | inr z ↦ rw (x, y, z, after_connection) (reconnect-keeps c round _ lost calm failed)
          ]
        ]
      ]

  connection_loop-keeps :
      (c : TitanConfig) (rounds : List (Round N api)) (l : Loop N api)
      → All (CalmRound P) rounds
      → P l.session.shared
      → P (connection_loop c rounds l).0.session.shared
  unfolding connection_loop run_single_connection
  connection_loop-keeps c [] l calm h = h
  connection_loop-keeps c (round ∷ rounds) l calm h =
      let (s, ended) = run_single_connection c round.start round.events l.session in
      let lost : Loop N api = record l { session = s } in
      let before = run_events-keeps c round.events _ calm.0.0 h in
      elim (Option-cases ended) [
        | inl x ↦ rw (x, connection_loop) before
        | inr (reason, x) ↦
            let next = after_connection-keeps c round reason lost calm.0 before in
            elim (Bool-cases (after_connection c round reason lost).1) [
              | inl y ↦ rw (x, connection_loop, y) (connection_loop-keeps c rounds _ calm.1 next)
              | inr y ↦ rw (x, connection_loop, y) next
            ]
      ]

  pub run_connection_loop-keeps :
      (c : TitanConfig) (rounds : List (Round N api)) (l : Loop N api)
      → All (CalmRound P) rounds
      → P l.session.shared
      → P (run_connection_loop_with_reconnect c rounds l).0.session.shared
  unfolding run_connection_loop_with_reconnect final_cleanup cleanup_pending_requests
      fail_pending_requests
  run_connection_loop-keeps c rounds l calm h =
      let after = connection_loop-keeps c rounds l calm h in
      elim (Bool-cases (connection_loop c rounds l).1) [
        | inl x ↦ rw (x, run_connection_loop_with_reconnect) (cleans _ (answers _ _ _ after))
        | inr x ↦ rw (x, run_connection_loop_with_reconnect) after
      ]
