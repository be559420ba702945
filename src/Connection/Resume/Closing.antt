-- ===== src/Connection/Resume/Closing.antt =====
-- A stream that its handle has stopped stays on the way out: no message of the server and no reconnect
-- of src/connection.rs brings it back under another id.
use titan_rust_client.Base.{
  ℕ, ◌<◌, ◌≡◌, refl, ◌⊎◌, inl, inr, true, false, List, [], ◌∷◌, Option, none, some, arith,
  Bool-cases, Option-cases, get_elem?, get_elem?-set, length, ◌==◌, get_elem?-lt,
}
use titan_rust_client.Base.Map.{lookup, remove, lookup-remove}
use titan_rust_client.Notify.{Notify}
use titan_rust_client.Wire.{Api, ServerMessage, response, error, stream_data, stream_end}
use titan_rust_client.Connection.Ends.{release_slot-length}
use titan_rust_client.Connection.Resume.{is_set, is_abandoned, remap}
use titan_rust_client.Connection.Resume.Remap.{remap_lem, remap_abandoned}
use titan_rust_client.Connection.Resume.Sync.{Synced, remove_and_end-Synced, remap-Synced}
use titan_rust_client.Connection.{
  Shared, ResumableStream, on_end, call_on_end, remove_and_end, answer_pending,
  handle_server_message,
}

abbrev pub Listed : ℕ → List ℕ → Type 0
Listed id [] = ⊥
Listed id (j ∷ ids) = (id ≡ j) ⊎ Listed id ids

-- The stream at `k` is stopped, and can be registered under one of `ids` only.
pub record Closing {N : Notify} {api : Api} (k : ℕ) (ids : List ℕ) (s : Shared N api) : Type 0 where
  pub flagged : get_elem? s.stopped_flags k ≡ some true
  pub has_slot : k < length s.manager.released
  pub synced : Synced s
  pub only :
      (id : ℕ) (stream : ResumableStream api)
      → lookup id s.resumable_streams ≡ some stream
      → stream.stopped ≡ k
      → Listed id ids

module _ {N : Notify} {api : Api} where
  call_on_end-flags :
      (stream : ResumableStream api) (k : ℕ) (s : Shared N api)
      → let t = call_on_end stream s in
        (get_elem? s.stopped_flags k ≡ some true → get_elem? t.stopped_flags k ≡ some true)
        × (length t.manager.released ≡ length s.manager.released)
        × (t.resumable_streams ≡ s.resumable_streams)
  unfolding call_on_end on_end
  call_on_end-flags stream k s = elim (Option-cases stream.on_end) [
    | inl e ↦ rw (e, call_on_end) (λ h. h, refl, refl)
    | inr (j, e) ↦
        rw (e, call_on_end)
          (
            λ h. ground (arith, get_elem?-set s.stopped_flags j k true),
            release_slot-length s.manager j,
            refl,
          )
  ]

  remove_and_end-flags :
      (id k : ℕ) (s : Shared N api)
      → let t = remove_and_end id s in
        (get_elem? s.stopped_flags k ≡ some true → get_elem? t.stopped_flags k ≡ some true)
        × (length t.manager.released ≡ length s.manager.released)
        × ((j : ℕ) (stream : ResumableStream api)
            → lookup j t.resumable_streams ≡ some stream
            → lookup j s.resumable_streams ≡ some stream)
  unfolding remove_and_end
  remove_and_end-flags id k s = elim (Option-cases (lookup id s.resumable_streams)) [
    | inl e ↦ rw (e, remove_and_end) (λ h. h, refl, λ j stream at. at)
    | inr (gone, e) ↦
        let removed : Shared N api = record s {
          resumable_streams = remove id s.resumable_streams;
        } in
        let (flags, slots, streams) = call_on_end-flags gone k removed in
        rw (e, remove_and_end)
          (
            flags,
            slots,
            λ j stream at.
                let at' : lookup j (remove id s.resumable_streams) ≡ some stream =
                  rw streams at at in
                ground (arith, lookup-remove id j s.resumable_streams),
          )
  ]

module _ {N : Notify} {api : Api} {k : ℕ} {ids : List ℕ} where
  pub remove_and_end-Closing :
      (id : ℕ) (s : Shared N api) → Closing k ids s → Closing k ids (remove_and_end id s)
  remove_and_end-Closing id s v =
      let (flags, slots, fewer) = remove_and_end-flags id k s in
      record {
        flagged = flags v.flagged;
        has_slot = rw slots v.has_slot;
        synced = remove_and_end-Synced id s v.synced;
        only = λ j stream at e. v.only j stream (fewer j stream at) e;
      }

  answer_pending-Closing :
      (id : ℕ) (result : _) (s : Shared N api)
      → Closing k ids s
      → Closing k ids (answer_pending id result s)
  unfolding answer_pending
  answer_pending-Closing id result s v = elim (Option-cases (lookup id s.pending_requests)) [
    | inl e ↦ rw (e, answer_pending) v
    | inr (tx, e) ↦
        rw (e, answer_pending)
          (record { flagged = v.flagged; has_slot = v.has_slot; synced = v.synced; only = v.only })
  ]

  pub handle_server_message-Closing :
      (msg : ServerMessage api) (s : Shared N api)
      → Closing k ids s
      → Closing k ids (handle_server_message msg s)
  unfolding handle_server_message
  handle_server_message-Closing (response r) s v = answer_pending-Closing _ _ s v
  handle_server_message-Closing (error e) s v = answer_pending-Closing _ _ s v
  handle_server_message-Closing (stream_data d) s v =
      elim (Option-cases (lookup d.id s.resumable_streams)) [
        | inl e ↦ rw (e, handle_server_message) v
        | inr (stream, e) ↦
            rw (e, handle_server_message)
              (record {
                flagged = v.flagged;
                has_slot = v.has_slot;
                synced = v.synced;
                only = v.only;
              })
      ]
  handle_server_message-Closing (stream_end id) s v = remove_and_end-Closing id s v
  handle_server_message-Closing ServerMessage.other s v = v

  remap_alive-Closing :
      (old_id new_id : ℕ) (stream : ResumableStream api) (s : Shared N api)
      → lookup old_id s.resumable_streams ≡ some stream
      → is_abandoned s stream ≡ false
      → Closing k ids s
      → Closing k ids (remap old_id (some new_id) s)
  unfolding is_abandoned is_set
  remap_alive-Closing old_id new_id stream s e alive v =
      let (points, here) = v.synced old_id stream e in
      let moved =
        remap_lem old_id new_id stream.stopped stream s e alive points
          (get_elem?-lt s.effective_ids stream.stopped here) in
      record {
        flagged = rw (moved.3) v.flagged;
        has_slot = rw (moved.2) v.has_slot;
        synced = remap-Synced old_id (some new_id) s v.synced;
        only = λ j other at hit. elim (Bool-cases (new_id == j)) [
          | inl new ↦
              let same : stream ≡ other = ground (arith, moved.0 j) in
              let mine : stream.stopped ≡ k = rw same hit in
              let up : get_elem? s.stopped_flags stream.stopped ≡ some true = rw mine v.flagged in
              absurd (ground (arith, up))
          | inr old ↦
              let there : lookup j s.resumable_streams ≡ some other = ground (arith, moved.0 j) in
              v.only j other there hit
        ];
      }

  pub remap-Closing :
      (old_id : ℕ) (new_id : Option ℕ) (s : Shared N api)
      → Closing k ids s
      → Closing k ids (remap old_id new_id s)
  unfolding remap
  remap-Closing old_id none s v = remove_and_end-Closing old_id s v
  remap-Closing old_id (some new_id) s v = elim (Option-cases (lookup old_id s.resumable_streams)) [
    | inl e ↦ rw (e, remap) v
    | inr (stream, e) ↦ elim (Bool-cases (is_abandoned s stream)) [
      | inl dead ↦
          rw (remap_abandoned old_id new_id stream s e dead) (remove_and_end-Closing old_id s v)
      | inr alive ↦ remap_alive-Closing old_id new_id stream s e alive v
    ]
  ]
