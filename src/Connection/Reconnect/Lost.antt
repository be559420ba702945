-- ===== src/Connection/Reconnect/Lost.antt =====
-- What a turn of the loop in src/connection.rs that loses its connection does to the pending requests.
use mathlib.Core.List.{mem-append_left}
use titan_rust_client.Base.{
  ℕ, ◌≡◌, refl, inl, inr, [], ◌∷◌, none, some, String, Option-cases, Bool-cases, u32_succ, subst,
  Option,
}
use titan_rust_client.Base.Map.{lookup}
use titan_rust_client.Notify.{Notify}
use titan_rust_client.Wire.{
  Api, ResponseSuccess, ServerMessage, response, error, stream_data, stream_end,
}
use titan_rust_client.Config.{TitanConfig}
use titan_rust_client.Connection.Pending.{Told, fail_pending_requests-Told, answer_pending_unknown}
use titan_rust_client.Connection.Resume.{remap, is_abandoned, store_effective}
use titan_rust_client.Connection.Resume.Remap.{remap_abandoned}
use titan_rust_client.Connection.Resume.Keeps.{resume_streams-keeps}
use titan_rust_client.Connection.Reconnect.Keeps.{CalmRound, CalmSocket}
use titan_rust_client.Connection.Session.{run_single_connection}
use titan_rust_client.Connection.Reconnect.{
  Round, Loop, send_state, gives_up, reconnect, after_connection, connection_loop,
}
use titan_rust_client.Connection.{
  Shared, ResumableStream, call_on_end, on_end, remove_and_end, handle_server_message,
  fail_pending_requests, register_stream,
}

module _ {N : Notify} {api : Api} {tx : ℕ} {reason : String} where
  call_on_end-Told :
      (stream : ResumableStream api) (s : Shared N api)
      → Told tx reason s
      → Told tx reason (call_on_end stream s)
  unfolding call_on_end on_end
  call_on_end-Told stream s h = elim (Option-cases stream.on_end) [
    | inl e ↦ rw (e, call_on_end) h
    | inr (k, e) ↦ rw (e, call_on_end) h
  ]

  remove_and_end-Told :
      (id : ℕ) (s : Shared N api) → Told tx reason s → Told tx reason (remove_and_end id s)
  unfolding remove_and_end
  remove_and_end-Told id s h = elim (Option-cases (lookup id s.resumable_streams)) [
    | inl e ↦ rw (e, remove_and_end) h
    | inr (stream, e) ↦ rw (e, remove_and_end) (call_on_end-Told stream _ h)
  ]

  handle_server_message-Told :
      (m : ServerMessage api) (s : Shared N api)
      → Told tx reason s
      → Told tx reason (handle_server_message m s)
  unfolding handle_server_message lookup
  handle_server_message-Told (response r) s h =
      rw (answer_pending_unknown r.request_id _ s (rw h.1 refl)) h
  handle_server_message-Told (error e) s h =
      rw (answer_pending_unknown e.request_id _ s (rw h.1 refl)) h
  handle_server_message-Told (stream_data d) s h =
      elim (Option-cases (lookup d.id s.resumable_streams)) [
        | inl e ↦ rw (e, handle_server_message) h
        | inr (stream, e) ↦ rw (e, handle_server_message) (mem-append_left _ h.0, h.1)
      ]
  handle_server_message-Told (stream_end id) s h = remove_and_end-Told id s h
  handle_server_message-Told ServerMessage.other s h = h

  remap-Told :
      (old_id : ℕ) (new_id : Option ℕ) (s : Shared N api)
      → Told tx reason s
      → Told tx reason (remap old_id new_id s)
  unfolding remap is_abandoned store_effective register_stream
  remap-Told old_id none s h = remove_and_end-Told old_id s h
  remap-Told old_id (some new_id) s h = elim (Option-cases (lookup old_id s.resumable_streams)) [
    | inl e ↦ rw (e, remap) h
    | inr (stream, e) ↦ elim (Bool-cases (is_abandoned s stream)) [
      | inl dead ↦
          rw (remap_abandoned old_id new_id stream s e dead) (remove_and_end-Told old_id s h)
      | inr alive ↦
          rw (e, remap, alive)
            (elim (Option-cases stream.effective_id) [
              | inl x ↦ rw (x, store_effective) h
              | inr (k, x) ↦ rw (x, store_effective) h
            ])
    ]
  ]

  reconnect-Told :
      (c : TitanConfig) (round : Round N api) (attempt : ℕ) (l : Loop N api)
      → CalmRound (Told tx reason) round
      → Told tx reason l.session.shared
      → Told tx reason (reconnect c round attempt l).session.shared
  unfolding reconnect send_state
  reconnect-Told c round attempt l calm h = elim (Option-cases round.established) [
    | inl e ↦ rw (e, reconnect) (calm.1 _ h)
    | inr (socket, e) ↦
        rw (e, reconnect)
          (resume_streams-keeps (Told tx reason) remove_and_end-Told handle_server_message-Told
            remap-Told socket _ _ (subst (CalmSocket (Told tx reason)) e calm.2) (calm.1 _ h))
  ]

  after_connection-Told :
      (c : TitanConfig) (round : Round N api) (l : Loop N api) (id : ℕ)
      → CalmRound (Told tx reason) round
      → lookup id l.session.shared.pending_requests ≡ some tx
      → Told tx reason (after_connection c round reason l).0.session.shared
  unfolding after_connection send_state
  after_connection-Told c round l id calm at =
      let failed = fail_pending_requests-Told id tx reason l.session.shared at in
      let lost : Loop N api = record l {
        session = record (l.session) { shared = fail_pending_requests reason l.session.shared };
      } in
      elim (Bool-cases round.is_cancelled) [
        | inl x ↦ rw (x, after_connection) failed
        | inr x ↦ elim (Bool-cases round.is_closed) [
          | inl y ↦ rw (x, y, after_connection) failed
          | inr y ↦ elim (Bool-cases (gives_up c (u32_succ l.reconnect_attempt))) [
            | inl z ↦ rw (x, y, z, after_connection) failed
            | inr z ↦ rw (x, y, z, after_connection) (reconnect-Told c round _ lost calm failed)
          ]
        ]
      ]

  -- When a connection is lost, every request that waits for an answer then is failed with
  -- `ConnectionClosed` and the reason: at the end of the loop's turn, whether the loop gives up, goes back to
  -- try again or has reconnected and resumed the streams, its channel has been told, no request is
  -- pending, and a response that comes late is dropped. The other tasks are taken to leave what was told
  -- and to put no request of their own among the pending ones, which is what `run_single_connection` does.
  pub disconnect_fails_pending :
      (c : TitanConfig) (round : Round N api) (l : Loop N api) (id : ℕ) (r : ResponseSuccess api)
      → CalmRound (Told tx reason) round
      → (run_single_connection c round.start round.events l.session).1 ≡ some reason
      → lookup id
          (run_single_connection c round.start round.events l.session).0.shared.pending_requests
        ≡ some tx
      → let t = (connection_loop c (round ∷ []) l).0.session.shared in
        Told tx reason t × (handle_server_message (response r) t ≡ t)
  unfolding connection_loop handle_server_message lookup
  disconnect_fails_pending c round l id r calm ran at =
      let lost : Loop N api = record l {
        session = (run_single_connection c round.start round.events l.session).0;
      } in
      let told = after_connection-Told c round lost id calm at in
      let late = answer_pending_unknown r.request_id _ _ (rw (told.1) refl) in
      elim (Bool-cases (after_connection c round reason lost).1) [
        | inl y ↦ rw (ran, connection_loop, y) (told, late)
        | inr y ↦ rw (ran, connection_loop, y) (told, late)
      ]
