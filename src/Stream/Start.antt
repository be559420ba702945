-- ===== src/Stream/Start.antt =====
-- What `start_stream_internal` of src/queue.rs leaves behind on each of its ways out.
use titan_rust_client.Base.{
  ℕ, ◌+◌, ◌≡◌, refl, false, [], ◌∷◌, none, some, arith, Option-cases, total-append,
}
use titan_rust_client.Base.Map.{lookup, lookup-insert}
use titan_rust_client.Base.Outcome.{Outcome, ok, err}
use titan_rust_client.Notify.{Notify}
use titan_rust_client.Wire.{Api, ResponseSuccess, stream_end}
use titan_rust_client.Manager.Weights.{live}
use titan_rust_client.Manager.Slots.{Counted}
use titan_rust_client.Connection.Slots.{release_slot-Counted}
use titan_rust_client.Connection.Ends.{stream_end_unknown}
use titan_rust_client.Base.{inl, inr}
use titan_rust_client.Connection.{Shared, register_stream, handle_server_message}
use titan_rust_client.Stream.{new_cells, open_stream, start_stream_internal}

module _ {N : Notify} {api : Api} where
  -- A claimed slot becomes the flag of the new stream.
  pub new_cells-Counted :
      {bound h : ℕ} (s : Shared N api)
      → Counted bound s.manager (h + 1)
      → Counted bound (new_cells s).manager h
  unfolding new_cells
  new_cells-Counted s c = ground (arith, total-append live s.manager.released (false ∷ []))

  -- A stream that is started with a claimed slot accounts for it on every way out: the slot is the
  -- stream's if the server opens one, and is given back if the request fails or the response names no
  -- stream; if the tasks that run meanwhile keep the count exact.
  pub start_stream_internal-Counted :
      {bound h : ℕ} (meanwhile : Shared N api → Shared N api)
      (response : Outcome (ResponseSuccess api)) (request : api.SwapQuoteRequest) (channel : ℕ)
      (s : Shared N api)
      → ((u : Shared N api) → Counted bound u.manager h → Counted bound (meanwhile u).manager h)
      → Counted bound s.manager (h + 1)
      → Counted bound (start_stream_internal meanwhile response request channel s).0.manager h
  unfolding start_stream_internal open_stream register_stream
  start_stream_internal-Counted meanwhile (err e) request channel s calm c =
      release_slot-Counted _ _ (calm (new_cells s) (new_cells-Counted s c))
  start_stream_internal-Counted meanwhile (ok r) request channel s calm c =
      elim (Option-cases r.stream) [
        | inl e ↦
            rw (e, start_stream_internal)
              (release_slot-Counted _ _ (calm (new_cells s) (new_cells-Counted s c)))
        | inr (id, e) ↦ rw (e, start_stream_internal) (calm (new_cells s) (new_cells-Counted s c))
      ]

  -- If the server ends a stream before its opener has registered it, the end is lost: the stream is
  -- registered all the same, its handle is not told, and its slot stays taken.
  pub early_end_lost :
      (id k channel : ℕ) (request : api.SwapQuoteRequest) (s : Shared N api)
      → lookup id s.resumable_streams ≡ none
      → let t = open_stream id k request channel (handle_server_message (stream_end id) s) in
        (lookup id t.resumable_streams
          ≡ some (record {
            request = request;
            sender = channel;
            on_end = some k;
            effective_id = some k;
            stopped = k;
          }))
        × (t.manager ≡ s.manager)
        × (t.stopped_flags ≡ s.stopped_flags)
  unfolding open_stream register_stream
  early_end_lost id k channel request s e =
      rw (stream_end_unknown id s e) (rw (lookup-insert id id) (ground arith), refl, refl)
