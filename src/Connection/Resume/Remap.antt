-- ===== src/Connection/Resume/Remap.antt =====
-- One stream under `resume_streams` of src/connection.rs: what its new id does to the map.
use titan_rust_client.Base.{
  ℕ, ◌<◌, ◌≡◌, ◌≢◌, refl, inl, inr, false, Option, none, some, arith, All, Bool-cases, Option-cases,
  get_elem?, get_elem?-set, get_elem?_total, length, length-set, ◌∙◌, ◌==◌, if◌then◌else◌, true,
}
use titan_rust_client.Base.Map.{lookup, remove, lookup-remove, lookup-insert}
use titan_rust_client.Notify.{Notify}
use titan_rust_client.Manager.Slots.{Counted}
use titan_rust_client.Wire.{Api}
use titan_rust_client.Connection.Slots.{
  call_on_end-Counted, remove_and_end-Counted, handle_server_message-Counted,
}
use titan_rust_client.Connection.Resume.{
  Arrival, Socket, is_abandoned, store_effective, remap, resume_streams,
}
use titan_rust_client.Connection.Resume.Keeps.{resume_streams-keeps}
use titan_rust_client.Connection.{Shared, ResumableStream, register_stream, remove_and_end}

module _ {N : Notify} {api : Api} where
  pub store_effective-rest :
      (stream : ResumableStream api) (id : ℕ) (s : Shared N api)
      → let t = store_effective stream id s in
        (t.resumable_streams ≡ s.resumable_streams)
        × (t.manager ≡ s.manager)
        × (t.stopped_flags ≡ s.stopped_flags)
        × (t.closed ≡ s.closed)
        × (length t.effective_ids ≡ length s.effective_ids)
  unfolding store_effective
  store_effective-rest stream id s = elim (Option-cases stream.effective_id) [
    | inl e ↦ rw (e, store_effective) (refl, refl, refl, refl, refl)
    | inr (k, e) ↦ rw (e, store_effective) (refl, refl, refl, refl, length-set s.effective_ids k id)
  ]

  store_effective-get :
      (stream : ResumableStream api) (id k : ℕ) (s : Shared N api)
      → stream.effective_id ≡ some k
      → k < length s.effective_ids
      → get_elem? (store_effective stream id s).effective_ids k ≡ some id
  unfolding store_effective
  store_effective-get stream id k s e h =
      rw (e, store_effective)
        (ground (arith, get_elem?_total s.effective_ids k h, get_elem?-set s.effective_ids k k id))

  pub remap-Counted :
      {bound h : ℕ} (old_id : ℕ) (new_id : Option ℕ) (s : Shared N api)
      → Counted bound s.manager h
      → Counted bound (remap old_id new_id s).manager h
  unfolding remap register_stream
  remap-Counted old_id none s c = remove_and_end-Counted old_id s c
  remap-Counted old_id (some new_id) s c = elim (Option-cases (lookup old_id s.resumable_streams)) [
    | inl e ↦ rw (e, remap) c
    | inr (stream, e) ↦ elim (Bool-cases (is_abandoned s stream)) [
      | inl dead ↦ rw (e, remap) (rw dead (call_on_end-Counted stream _ c))
      | inr alive ↦ rw (e, remap) (rw alive (rw ((store_effective-rest stream new_id _).1) c))
    ]
  ]

  -- Reconnecting keeps the count of slots exact, whatever frames arrive in whatever order and however
  -- many of the streams can be resumed, if the tasks that run meanwhile keep it.
  pub resume_streams-Counted :
      {bound h : ℕ} (socket : Socket N api) (counter : ℕ) (s : Shared N api)
      → All
          (λ (a : Arrival N api).
            (u : Shared N api)
            → Counted bound u.manager h
            → Counted bound (a.meanwhile u).manager h)
          socket.frames
      → Counted bound s.manager h
      → Counted bound (resume_streams socket counter s).0.manager h
  resume_streams-Counted {bound} {h} socket counter s calm c =
      resume_streams-keeps (λ u. Counted bound u.manager h)
        (λ id u v. remove_and_end-Counted id u v) (λ msg u v. handle_server_message-Counted msg u v)
        (λ o n u v. remap-Counted o n u v) socket counter s calm c

  -- A stream that is still wanted goes on under its new id: it is registered there and no longer at
  -- the old id, its handle reads the new id, and no slot is given back.
  pub remap_lem :
      (old_id new_id k : ℕ) (stream : ResumableStream api) (s : Shared N api)
      → lookup old_id s.resumable_streams ≡ some stream
      → is_abandoned s stream ≡ false
      → stream.effective_id ≡ some k
      → k < length s.effective_ids
      → let t = remap old_id (some new_id) s in
        ((j : ℕ)
          → lookup j t.resumable_streams ≡ (
              if new_id == j
              then some stream
              else if old_id == j
              then none
              else lookup j s.resumable_streams))
        × (get_elem? t.effective_ids k ≡ some new_id)
        × (t.manager ≡ s.manager)
        × (t.stopped_flags ≡ s.stopped_flags)
  unfolding remap register_stream
  remap_lem old_id new_id k stream s at alive e h =
      let removed : Shared N api = record s {
        resumable_streams = remove old_id s.resumable_streams;
      } in
      let rest = store_effective-rest stream new_id removed in
      rw (at, remap)
        (rw alive (
          λ j.
              rw
                (lookup-insert new_id j stream
                  (store_effective stream new_id removed).resumable_streams)
                (rw (rest.0) (rw (lookup-remove old_id j s.resumable_streams) refl)),
          store_effective-get stream new_id k removed e h,
          rest.1,
          rest.2,
        ))

  -- A stream that nobody wants any more is ended in place of being moved.
  pub remap_abandoned :
      (old_id new_id : ℕ) (stream : ResumableStream api) (s : Shared N api)
      → lookup old_id s.resumable_streams ≡ some stream
      → is_abandoned s stream ≡ true
      → remap old_id (some new_id) s ≡ remove_and_end old_id s
  unfolding remap remove_and_end
  remap_abandoned old_id new_id stream s at dead = rw (at, remap, remove_and_end) (rw dead refl)

  -- The rest of the state that a remap leaves alone.
  remap-rest :
      (old_id new_id : ℕ) (stream : ResumableStream api) (s : Shared N api)
      → lookup old_id s.resumable_streams ≡ some stream
      → is_abandoned s stream ≡ false
      → let t = remap old_id (some new_id) s in
        (t.closed ≡ s.closed) × (length t.effective_ids ≡ length s.effective_ids)
  unfolding remap register_stream
  remap-rest old_id new_id stream s at alive =
      let rest =
        store_effective-rest stream new_id
          (record s { resumable_streams = remove old_id s.resumable_streams }) in
      rw (at, remap) (rw alive (rest.3, rest.4))

  -- A reconnected server may give a stream an id that another stream, not yet resumed, had before.
  -- Then that other stream drops out of the map with no sign: nothing stops it and its slot stays
  -- taken. When the code comes to it, the id that the server opens for it goes to the first stream,
  -- whose own new id is left with no stream: its data is lost.
  pub resume_collision :
      (a b c k : ℕ) (first second : ResumableStream api) (s : Shared N api)
      → lookup a s.resumable_streams ≡ some first
      → lookup b s.resumable_streams ≡ some second
      → is_abandoned s first ≡ false
      → first.effective_id ≡ some k
      → k < length s.effective_ids
      → b ≢ c
      → let t = remap a (some b) s in
        let u = remap b (some c) t in
        ((j : ℕ)
          → lookup j t.resumable_streams ≡ (
              if b == j then some first else if a == j then none else lookup j s.resumable_streams))
        × (t.manager ≡ s.manager)
        × (t.stopped_flags ≡ s.stopped_flags)
        × (lookup c u.resumable_streams ≡ some first)
        × (lookup b u.resumable_streams ≡ none)
        × (u.manager ≡ s.manager)
  unfolding is_abandoned
  resume_collision a b c k first second s at_a at_b alive e h ne =
      let t = remap a (some b) s in
      let moved = remap_lem a b k first s at_a alive e h in
      let kept = remap-rest a b first s at_a alive in
      let at_b' : lookup b t.resumable_streams ≡ some first = ground (arith, moved.0 b) in
      let alive' : is_abandoned t first ≡ false = rw (moved.3, kept.0) alive in
      let again = remap_lem b c k first t at_b' alive' e (omega (arith, kept.1)) in
      (
        moved.0,
        moved.2,
        moved.3,
        ground (arith, again.0 c),
        ground (arith, again.0 b),
        again.2 ∙ moved.2,
      )
