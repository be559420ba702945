-- ===== src/Connection/Resume/Sync.antt =====
-- The handle of a stream of src/stream.rs knows the id under which src/connection.rs has it registered.
use titan_rust_client.Base.{
  ℕ, ◌≡◌, refl, inl, inr, false, Option, none, some, arith, All, Bool-cases, Option-cases,
  get_elem?, get_elem?-set, get_elem?-lt, set, ◌==◌, if◌then◌else◌,
}
use titan_rust_client.Base.Map.{lookup, remove, lookup-remove}
use titan_rust_client.Notify.{Notify}
use titan_rust_client.Wire.{Api, ServerMessage, response, error, stream_data, stream_end}
use titan_rust_client.Connection.Resume.{
  Arrival, Socket, is_abandoned, store_effective, remap, resume_streams,
}
use titan_rust_client.Connection.Resume.Remap.{remap_lem, remap_abandoned}
use titan_rust_client.Connection.Resume.Keeps.{resume_streams-keeps}
use titan_rust_client.Connection.{
  Shared, ResumableStream, on_end, call_on_end, remove_and_end, register_stream, answer_pending,
  handle_server_message,
}

-- Every registered stream shares its `effective_id` with its handle, at the place of its other cells,
-- and the value there is the id of the entry.
abbrev pub Synced : {N : Notify} {api : Api} → Shared N api → Type 0
Synced {api = api} s =
    (id : ℕ) (stream : ResumableStream api)
    → lookup id s.resumable_streams ≡ some stream
    → (stream.effective_id ≡ some stream.stopped)
      × (get_elem? s.effective_ids stream.stopped ≡ some id)

module _ {N : Notify} {api : Api} where
  -- Taking entries out and touching other parts of the state leaves the rest in step.
  Synced-fewer :
      (s t : Shared N api) (gone : ℕ)
      → ((j : ℕ)
          → lookup j t.resumable_streams
            ≡ (if gone == j then none else lookup j s.resumable_streams))
      → t.effective_ids ≡ s.effective_ids
      → Synced s
      → Synced t
  Synced-fewer s t gone e f v id stream at = rw f (v id stream (ground (arith, e id)))

  call_on_end-rest :
      (stream : ResumableStream api) (s : Shared N api)
      → let t = call_on_end stream s in
        (t.effective_ids ≡ s.effective_ids) × (t.resumable_streams ≡ s.resumable_streams)
  unfolding call_on_end on_end
  call_on_end-rest stream s = ground arith

  pub remove_and_end-Synced : (id : ℕ) (s : Shared N api) → Synced s → Synced (remove_and_end id s)
  unfolding remove_and_end
  remove_and_end-Synced id s v = elim (Option-cases (lookup id s.resumable_streams)) [
    | inl e ↦ rw (e, remove_and_end) v
    | inr (stream, e) ↦
        let removed : Shared N api = record s {
          resumable_streams = remove id s.resumable_streams;
        } in
        let rest = call_on_end-rest stream removed in
        rw (e, remove_and_end)
          (Synced-fewer s (call_on_end stream removed) id
            (λ j. rw (rest.1) (lookup-remove id j s.resumable_streams)) rest.0 v)
  ]

  answer_pending-rest :
      (id : ℕ) (result : _) (s : Shared N api)
      → let t = answer_pending id result s in
        (t.effective_ids ≡ s.effective_ids) × (t.resumable_streams ≡ s.resumable_streams)
  unfolding answer_pending
  answer_pending-rest id result s = ground arith

  answer_pending-Synced :
      (id : ℕ) (result : _) (s : Shared N api) → Synced s → Synced (answer_pending id result s)
  answer_pending-Synced id result s v =
      let rest = answer_pending-rest id result s in
      λ j stream at. rw rest.0 (v j stream (rw rest.1 at at))

  pub handle_server_message-Synced :
      (msg : ServerMessage api) (s : Shared N api) → Synced s → Synced (handle_server_message msg s)
  unfolding handle_server_message
  handle_server_message-Synced (response r) s v = answer_pending-Synced _ _ s v
  handle_server_message-Synced (error e) s v = answer_pending-Synced _ _ s v
  handle_server_message-Synced (stream_data d) s v =
      elim (Option-cases (lookup d.id s.resumable_streams)) [
        | inl e ↦ rw (e, handle_server_message) v
        | inr (stream, e) ↦ rw (e, handle_server_message) v
      ]
  handle_server_message-Synced (stream_end id) s v = remove_and_end-Synced id s v
  handle_server_message-Synced ServerMessage.other s v = v

  remap-effective :
      (old_id new_id k : ℕ) (stream : ResumableStream api) (s : Shared N api)
      → lookup old_id s.resumable_streams ≡ some stream
      → is_abandoned s stream ≡ false
      → stream.effective_id ≡ some k
      → (remap old_id (some new_id) s).effective_ids ≡ set s.effective_ids k new_id
  unfolding remap register_stream store_effective
  remap-effective old_id new_id k stream s at alive e =
      rw (at, remap) (rw alive (rw (e, store_effective) refl))

  remap_alive-Synced :
      (old_id new_id : ℕ) (stream : ResumableStream api) (s : Shared N api)
      → lookup old_id s.resumable_streams ≡ some stream
      → is_abandoned s stream ≡ false
      → Synced s
      → Synced (remap old_id (some new_id) s)
  remap_alive-Synced old_id new_id stream s e alive v id other at =
      let (points, here) = v old_id stream e in
      let k = stream.stopped in
      let moved =
        remap_lem old_id new_id k stream s e alive points (get_elem?-lt s.effective_ids k here) in
      let cells = remap-effective old_id new_id k stream s e alive points in
      elim (Bool-cases (new_id == id)) [
        | inl hit ↦
            let same : new_id ≡ id = ground arith in
            let it : stream ≡ other = ground (arith, moved.0 id) in
            rw (← it) (rw (← same) (points, moved.1))
        | inr miss ↦
            let there : lookup id s.resumable_streams ≡ some other = ground (arith, moved.0 id) in
            let apart : (old_id == id) ≡ false = ground (arith, moved.0 id) in
            let (points', there') = v id other there in
            (
              points',
              rw (cells, get_elem?-set s.effective_ids k other.stopped new_id)
                  (ground (arith, here, there')),
            )
      ]

  pub remap-Synced :
      (old_id : ℕ) (new_id : Option ℕ) (s : Shared N api)
      → Synced s
      → Synced (remap old_id new_id s)
  unfolding remap
  remap-Synced old_id none s v = remove_and_end-Synced old_id s v
  remap-Synced old_id (some new_id) s v = elim (Option-cases (lookup old_id s.resumable_streams)) [
    | inl e ↦ rw (e, remap) v
    | inr (stream, e) ↦ elim (Bool-cases (is_abandoned s stream)) [
      | inl dead ↦
          rw (remap_abandoned old_id new_id stream s e dead) (remove_and_end-Synced old_id s v)
      | inr alive ↦ remap_alive-Synced old_id new_id stream s e alive v
    ]
  ]

  -- However a reconnect goes, and whatever the server sends in between: afterwards every stream that is
  -- still registered is registered under the id that its handle reads, if the tasks that run meanwhile
  -- keep this. So `stop` and `drop` name the server's current id.
  pub resume_streams-Synced :
      (socket : Socket N api) (counter : ℕ) (s : Shared N api)
      → All
          (λ (a : Arrival N api). (u : Shared N api) → Synced u → Synced (a.meanwhile u))
          socket.frames
      → Synced s
      → Synced (resume_streams socket counter s).0
  resume_streams-Synced socket counter s calm v =
      resume_streams-keeps Synced remove_and_end-Synced handle_server_message-Synced remap-Synced
        socket counter s calm v
