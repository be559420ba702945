-- ===== src/Connection/Session/Arms.antt =====
-- The arms of the `select!` in `run_single_connection` of src/connection.rs.
use mathlib.Core.List.{Mem, mem-append_right, mem-cons_self}
use titan_rust_client.Base.{
  u32_succ, ℕ, ◌-◌, ◌<◌, ◌≡◌, ◌↔◌, refl, ◌⊎◌, inl, inr, true, [], ◌∷◌, ◌++◌, Option, none, some,
  String, u32_max, max, arith,
}
use titan_rust_client.Base.Map.{Map, lookup, insert, lookup-insert}
use titan_rust_client.Base.Outcome.{TitanClientError, err}
use titan_rust_client.Notify.{Notify}
use titan_rust_client.Wire.{Api, ClientRequest}
use titan_rust_client.State.{disconnected}
use titan_rust_client.Config.{TitanConfig}
use titan_rust_client.Connection.Resume.{binary, ping, pong, unknown, failure, close}
use titan_rust_client.Connection.{Shared, Sent, answer, answer_pending}
use titan_rust_client.Connection.Session.{
  Session, Event, shutdown_cancelled, requests_closed, received, arrived, ticked, elsewhere,
  send_pending, handle_frame, handle_tick, session_step,
}

just_inserted : (k v : ℕ) (m : Map ℕ) → lookup k (insert k v m) ≡ some v
just_inserted k v m = ground (arith, lookup-insert k k v m)

above_both :
    (a b : ℕ) → a < u32_max → b < u32_max → (a < u32_succ (max a b)) × (b < u32_succ (max a b))
above_both a b h k = (omega arith, omega arith)

module _ {N : Notify} {api : Api} where
  -- Of a ping that the socket takes, the connection is given up for silence exactly when the check is
  -- on, a pong is still owed, and the last ping is longer ago than the timeout; and a pong in between
  -- always calls it off.
  pub pong_timeout_exact :
      (c : TitanConfig) (now : ℕ) (text : String) (s : Session N api)
      → (((handle_tick c now none s).1 ≡ some "Pong timeout") ↔ (
          (0 < c.pong_timeout_ms)
          × (s.awaiting_pong ≡ true)
          × (c.pong_timeout_ms < now - s.last_ping)))
        × ((handle_tick c now none (handle_frame pong text s).0).1 ≡ none)
  unfolding handle_tick handle_frame
  pong_timeout_exact c now text s = ((λ h. ground arith, λ (a, b, d). ground arith), ground arith)

  answer_pending-answers :
      (id tx : ℕ) (e : TitanClientError) (s : Shared N api)
      → lookup id s.pending_requests ≡ some tx
      → Mem {A = Sent api} (answer tx (err e)) (answer_pending id (err e) s).sent
  unfolding answer_pending
  answer_pending-answers id tx e s h =
      rw (h, answer_pending) (mem-append_right s.sent mem-cons_self)

  -- A request that the task takes is never lost: it waits for its answer under its id, or it has been
  -- answered with an error; and the ids that the task gives out itself stay above it, while the counter
  -- has not reached the end of its range.
  pub received_kept :
      (c : TitanConfig) (request : ClientRequest api) (tx : ℕ)
      (encode_error send_error : Option String) (s : Session N api)
      → request.id < u32_max
      → s.request_id_counter < u32_max
      → let t = (session_step c (received request tx encode_error send_error) s).0 in
        ((lookup request.id t.shared.pending_requests ≡ some tx)
          ⊎ ((e : TitanClientError) × Mem {A = Sent api} (answer tx (err e)) t.shared.sent))
        × (request.id < t.request_id_counter)
        × (s.request_id_counter < t.request_id_counter)
  unfolding session_step send_pending
  received_kept c request tx (some e) send_error s word count = (
    inr (_, answer_pending-answers request.id tx _ _ (just_inserted request.id tx _)),
    (above_both _ _ word count).0,
    (above_both _ _ word count).1,
  )
  received_kept c request tx none (some e) s word count = (
    inr (_, answer_pending-answers request.id tx _ _ (just_inserted request.id tx _)),
    (above_both _ _ word count).0,
    (above_both _ _ word count).1,
  )
  received_kept c request tx none none s word count = (
    inl (just_inserted request.id tx _),
    (above_both _ _ word count).0,
    (above_both _ _ word count).1,
  )

  -- Whatever ends a connection, but a shutdown of the client or the end of its request channel, the
  -- last state sent is `Disconnected` with the reason.
  pub loss_published :
      (c : TitanConfig) (e : Event N api) (s : Session N api) (reason : String)
      → (session_step c e s).1 ≡ some reason
      → ((e ≡ shutdown_cancelled) ⊎ (e ≡ requests_closed))
        ⊎ ((session_step c e s).0.states ≡ s.states ++ disconnected reason ∷ [])
  unfolding session_step handle_frame handle_tick
  loss_published c shutdown_cancelled s reason h = inl (inl refl)
  loss_published c requests_closed s reason h = inl (inr refl)
  loss_published c (received request tx encode_error send_error) s reason h = cc
  loss_published c (arrived (binary (some m)) text) s reason h = cc
  loss_published c (arrived (binary none) text) s reason h = cc
  loss_published c (arrived (close (some r)) text) s reason h = inr (ground arith)
  loss_published c (arrived (close none) text) s reason h = inr (ground arith)
  loss_published c (arrived ping text) s reason h = cc
  loss_published c (arrived pong text) s reason h = cc
  loss_published c (arrived unknown text) s reason h = cc
  loss_published c (arrived failure text) s reason h = inr (ground arith)
  loss_published c (ticked now none) s reason h = inr (ground arith)
  loss_published c (ticked now (some e)) s reason h = inr (ground arith)
  loss_published c (elsewhere f) s reason h = cc
