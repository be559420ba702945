-- ===== src/Connection/Session/Answers.antt =====
-- A request and its response, through `run_single_connection` of src/connection.rs.
use titan_rust_client.Base.{
  subst, sym, ℕ, ◌≡◌, ◌≢◌, refl, inl, inr, [], ◌∷◌, ◌++◌, List, none, some, String, All, arith,
  Option-cases,
}
use titan_rust_client.Base.Map.{lookup, lookup-insert, lookup-remove}
use titan_rust_client.Base.Outcome.{Outcome, ok}
use titan_rust_client.Notify.{Notify}
use titan_rust_client.Wire.{
  Api, ClientRequest, ResponseSuccess, ServerMessage, response, error, stream_data, stream_end,
}
use titan_rust_client.Config.{TitanConfig}
use titan_rust_client.Connection.Resume.{binary, ping, pong, unknown, failure, close}
use titan_rust_client.Connection.{
  Shared, ResumableStream, answer, on_end, call_on_end, remove_and_end, answer_pending,
  handle_server_message,
}
use titan_rust_client.Connection.Session.{
  Session, Event, shutdown_cancelled, requests_closed, received, arrived, ticked, elsewhere,
  send_pending, handle_frame, handle_tick, session_step, run_events,
}

module _ {N : Notify} {api : Api} where
  -- The request `id` waits, and its answer goes to `tx`.
  abbrev pub Waits : ℕ → ℕ → Shared N api → Type 0
  Waits id tx s = lookup id s.pending_requests ≡ some tx

  -- The event is about other requests.
  abbrev pub Foreign : ℕ → ℕ → Event N api → Type 0
  Foreign id tx (received request tx' encode_error send_error) = request.id ≢ id
  Foreign id tx (arrived (binary (some (response r))) text) = r.request_id ≢ id
  Foreign id tx (arrived (binary (some (error e))) text) = e.request_id ≢ id
  Foreign id tx (elsewhere f) = (u : Shared N api) → Waits id tx u → Waits id tx (f u)
  Foreign id tx _ = Unit {0}

  answer_pending-Waits :
      (id tx other : ℕ) (result : Outcome (ResponseSuccess api)) (s : Shared N api)
      → other ≢ id
      → Waits id tx s
      → Waits id tx (answer_pending other result s)
  unfolding answer_pending
  answer_pending-Waits id tx other result s apart h =
      elim (Option-cases (lookup other s.pending_requests)) [
        | inl e ↦ rw (e, answer_pending) h
        | inr (tx', e) ↦
            rw (e, answer_pending) (ground (arith, lookup-remove other id s.pending_requests))
      ]

  call_on_end-pending :
      (stream : ResumableStream api) (s : Shared N api)
      → (call_on_end stream s).pending_requests ≡ s.pending_requests
  unfolding call_on_end on_end
  call_on_end-pending stream s = ground arith

  remove_and_end-pending :
      (id : ℕ) (s : Shared N api) → (remove_and_end id s).pending_requests ≡ s.pending_requests
  unfolding remove_and_end
  remove_and_end-pending id s = elim (Option-cases (lookup id s.resumable_streams)) [
    | inl e ↦ rw (e, remove_and_end) refl
    | inr (stream, e) ↦ rw (e, remove_and_end) (call_on_end-pending stream _)
  ]

  handle_server_message-Waits :
      (id tx : ℕ) (m : ServerMessage api) (text : String) (s : Shared N api)
      → Foreign id tx (arrived (binary (some m)) text)
      → Waits id tx s
      → Waits id tx (handle_server_message m s)
  unfolding handle_server_message
  handle_server_message-Waits id tx (response r) text s apart h =
      answer_pending-Waits id tx r.request_id _ s apart h
  handle_server_message-Waits id tx (error e) text s apart h =
      answer_pending-Waits id tx e.request_id _ s apart h
  handle_server_message-Waits id tx (stream_data d) text s apart h =
      elim (Option-cases (lookup d.id s.resumable_streams)) [
        | inl e ↦ rw (e, handle_server_message) h
        | inr (stream, e) ↦ rw (e, handle_server_message) h
      ]
  handle_server_message-Waits id tx (stream_end j) text s apart h =
      rw (remove_and_end-pending j s) h
  handle_server_message-Waits id tx ServerMessage.other text s apart h = h

  send_pending-Waits :
      (id tx : ℕ) (request : ClientRequest api) (tx' : ℕ) (encode_error send_error : _)
      (s : Session N api)
      → request.id ≢ id
      → Waits id tx s.shared
      → Waits id tx (send_pending request tx' encode_error send_error s).shared
  unfolding send_pending
  send_pending-Waits id tx request tx' encode_error send_error s apart h =
      let kept = lookup-insert request.id id tx' s.shared.pending_requests in
      elim (Option-cases encode_error) [
        | inr (e, at) ↦
            rw at (answer_pending-Waits id tx request.id _ _ apart (ground (arith, kept)))
        | inl at ↦ rw at (elim (Option-cases send_error) [
          | inr (e, at') ↦
              rw at' (answer_pending-Waits id tx request.id _ _ apart (ground (arith, kept)))
          | inl at' ↦ rw at' (ground (arith, kept))
        ])
      ]

  session_step-Waits :
      (c : TitanConfig) (id tx : ℕ) (e : Event N api) (s : Session N api)
      → Foreign id tx e
      → Waits id tx s.shared
      → Waits id tx (session_step c e s).0.shared
  unfolding session_step handle_frame handle_tick
  session_step-Waits c id tx shutdown_cancelled s apart h = h
  session_step-Waits c id tx requests_closed s apart h = h
  session_step-Waits c id tx (received request tx' e e') s apart h =
      send_pending-Waits id tx request tx' e e' s apart h
  session_step-Waits c id tx (arrived (binary (some m)) text) s apart h =
      handle_server_message-Waits id tx m text s.shared apart h
  session_step-Waits c id tx (arrived (binary none) text) s apart h = h
  session_step-Waits c id tx (arrived (close (some r)) text) s apart h = h
  session_step-Waits c id tx (arrived (close none) text) s apart h = h
  session_step-Waits c id tx (arrived ping text) s apart h = h
  session_step-Waits c id tx (arrived pong text) s apart h = h
  session_step-Waits c id tx (arrived unknown text) s apart h = h
  session_step-Waits c id tx (arrived failure text) s apart h = h
  session_step-Waits c id tx (ticked now e) s apart h = ground arith
  session_step-Waits c id tx (elsewhere f) s apart h = apart (s.shared) h

  run_events-Waits :
      (c : TitanConfig) (id tx : ℕ) (events : List (Event N api)) (s : Session N api)
      → All (Foreign id tx) events
      → Waits id tx s.shared
      → Waits id tx (run_events c events s).0.shared
  unfolding run_events
  run_events-Waits c id tx [] s apart h = h
  run_events-Waits c id tx (e ∷ events) s (first, rest) h =
      let h' = session_step-Waits c id tx e s first h in
      elim (Option-cases (session_step c e s).1) [
        | inl at ↦
            rw (at, run_events) (run_events-Waits c id tx events (session_step c e s).0 rest h')
        | inr (r, at) ↦ rw (at, run_events) h'
      ]

  answer_pending-answered :
      (id tx : ℕ) (result : Outcome (ResponseSuccess api)) (s : Shared N api)
      → Waits id tx s
      → ((answer_pending id result s).sent ≡ s.sent ++ answer tx result ∷ [])
        × (lookup id (answer_pending id result s).pending_requests ≡ none)
  unfolding answer_pending
  answer_pending-answered id tx result s h =
      rw (h, answer_pending) (refl, ground (arith, lookup-remove id id s.pending_requests))

  -- A request gets its own response: once the task has taken and sent it, it waits through any events of
  -- the connection that are about other requests; and the response that names its id is then sent on its
  -- channel, as the next thing that is sent, and ends the wait.
  pub own_response :
      (c : TitanConfig) (request : ClientRequest api) (tx : ℕ) (events : List (Event N api))
      (r : ResponseSuccess api) (text : String) (s : Session N api)
      → All (Foreign request.id tx) events
      → r.request_id ≡ request.id
      → let t = (run_events c (received request tx none none ∷ events) s).0 in
        let u = (session_step c (arrived (binary (some (response r))) text) t).0 in
        (lookup request.id t.shared.pending_requests ≡ some tx)
        × (u.shared.sent ≡ t.shared.sent ++ answer tx (ok r) ∷ [])
        × (lookup request.id u.shared.pending_requests ≡ none)
  unfolding run_events session_step send_pending handle_frame handle_server_message
  own_response c request tx events r text s apart same =
      let sent_off : Session N api = send_pending request tx none none s in
      let waits : Waits request.id tx (run_events c events sent_off).0.shared =
        run_events-Waits c request.id tx events sent_off apart
          (ground (arith, lookup-insert request.id request.id tx s.shared.pending_requests)) in
      let (out, gone) =
        answer_pending-answered r.request_id tx (ok r) (run_events c events sent_off).0.shared
          (subst (λ i. Waits i tx (run_events c events sent_off).0.shared) (sym same) waits) in
      (
        waits,
        out,
        subst
            (λ i.
              lookup i
                (answer_pending r.request_id (ok r)
                  (run_events c events sent_off).0.shared).pending_requests
              ≡ none)
            same gone,
      )
