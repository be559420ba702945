-- ===== src/Stream/Race.antt =====
-- `stop` of src/stream.rs against a reconnect of src/connection.rs whose test of the flag comes too early.
use titan_rust_client.Base.{
  ℕ, ◌≡◌, ◌∙◌, refl, true, false, [], ◌∷◌, some, arith, get_elem?, ◌==◌, if◌then◌else◌,
}
use titan_rust_client.Base.Map.{lookup, lookup-remove, lookup-insert}
use titan_rust_client.Notify.{Notify}
use titan_rust_client.Wire.{Api}
use titan_rust_client.Connection.{Shared, ResumableStream, unregister_stream, register_stream}
use titan_rust_client.Connection.Resume.{remap_late}
use titan_rust_client.Stream.{
  QuoteStream, ids_to_stop, load_effective, set_stopped, stop_each, close_stream, stop,
}
use titan_rust_client.Stream.Task.{act, resumed_late}
use titan_rust_client.Stream.Stop.{load_effective_lem}

module _ {N : Notify} {api : Api} where
  -- The flag of a stream is raised, and its id read, after a reconnect's test of the flag and before its
  -- store of the new id.
  abbrev pub late_at_first : ℕ → ℕ → ℕ → Shared N api → Shared N api
  late_at_first old_id new_id n s = if n == 1 then act (resumed_late old_id new_id) s else s

  late_entry :
      (old_id new_id : ℕ) (stream : ResumableStream api) (s : Shared N api)
      → lookup old_id s.resumable_streams ≡ some stream
      → (old_id == new_id) ≡ false
      → lookup new_id (unregister_stream old_id (remap_late old_id new_id s)).resumable_streams
        ≡ some stream
  unfolding unregister_stream remap_late register_stream
  late_entry old_id new_id stream s at apart =
      rw (at, remap_late)
        (lookup-remove old_id new_id _
          ∙ rw apart (lookup-insert new_id new_id stream _ ∙ ground arith))

  close_race :
      (q : QuoteStream) (new_id : ℕ) (stream : ResumableStream api) (s : Shared N api)
      → load_effective q s ≡ q.stream_id
      → lookup q.stream_id s.resumable_streams ≡ some stream
      → (q.stream_id == new_id) ≡ false
      → let (t, ids) = close_stream (late_at_first q.stream_id new_id) q s in
        (lookup new_id t.resumable_streams ≡ some stream) × (ids ≡ q.stream_id ∷ [])
  unfolding act close_stream stop_each ids_to_stop
  close_race q new_id stream s here at apart =
      let same : (q.stream_id == q.stream_id) ≡ true = ground arith in
      rw here (rw same (late_entry q.stream_id new_id stream s at apart, refl))

  -- The race of `stop` with a reconnect: if the flag of the stream is raised, and its id read, after the
  -- reconnect's test of the flag and before its store of the new id, the entry of the stopped stream
  -- survives under the new id: `stop` asks the server to stop the old id only.
  pub stop_race :
      (q : QuoteStream) (new_id : ℕ) (stream : ResumableStream api) (s : Shared N api)
      → q.stopped ≡ false
      → get_elem? s.effective_ids q.cell ≡ some q.stream_id
      → lookup q.stream_id s.resumable_streams ≡ some stream
      → (q.stream_id == new_id) ≡ false
      → let (q', t, ids) = stop (late_at_first q.stream_id new_id) q s in
        (lookup new_id t.resumable_streams ≡ some stream) × (ids ≡ q.stream_id ∷ [])
  unfolding stop set_stopped close_stream
  stop_race q new_id stream s fresh here at apart =
      rw (fresh, stop)
        (close_race q new_id stream (set_stopped q s) (load_effective_lem q q.stream_id s here) at
          apart)
