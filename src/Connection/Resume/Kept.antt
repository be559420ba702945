-- ===== src/Connection/Resume/Kept.antt =====
-- No stream is lost by src/connection.rs: what happens to the map either keeps a stream or frees its slot.
use mathlib.Core.Option.{some-injective}
use titan_rust_client.Base.{
  ℕ, ◌<◌, ◌≡◌, ◌⊎◌, ◌∙◌, sym, inl, inr, true, false, Option, none, some, arith, Bool-cases,
  Option-cases, length, ◌==◌, ap,
}
use titan_rust_client.Base.Map.{lookup, remove, lookup-remove, lookup-insert}
use titan_rust_client.Notify.{Notify}
use titan_rust_client.Wire.{Api, ServerMessage, response, error, stream_data, stream_end}
use titan_rust_client.Connection.{
  Shared, ResumableStream, on_end, call_on_end, remove_and_end, answer_pending, register_stream,
  handle_server_message,
}
use titan_rust_client.Connection.Slots.{Freed, release_slot-frees, release_slot-keeps}
use titan_rust_client.Connection.Resume.{is_abandoned, store_effective, remap}
use titan_rust_client.Connection.Resume.Remap.{store_effective-rest}
use titan_rust_client.Connection.Tame.{call_on_end-streams}

-- The stream of cell `k` is registered, or its slot is given back.
abbrev pub Held : {N : Notify} {api : Api} → ℕ → Shared N api → Type 0
Held {api = api} k s =
    ((id : ℕ) × (stream : ResumableStream api) × (lookup id s.resumable_streams ≡ some stream)
      × (stream.stopped ≡ k))
    ⊎ Freed s.manager.released k

-- Every registered stream gives back the slot of its own cell.
abbrev pub Wired : {N : Notify} {api : Api} → Shared N api → Type 0
Wired {api = api} s =
    (id : ℕ) (stream : ResumableStream api)
    → lookup id s.resumable_streams ≡ some stream
    → (stream.on_end ≡ some stream.stopped) × (stream.stopped < length s.manager.released)

module _ {N : Notify} {api : Api} where
  call_on_end-keeps :
      (k : ℕ) (stream : ResumableStream api) (s : Shared N api)
      → Freed s.manager.released k
      → Freed (call_on_end stream s).manager.released k
  unfolding call_on_end on_end
  call_on_end-keeps k stream s h = elim (Option-cases stream.on_end) [
    | inl e ↦ rw (e, call_on_end) h
    | inr (j, e) ↦ rw (e, call_on_end) (release_slot-keeps s.manager j k h)
  ]

  call_on_end-frees :
      {k : ℕ} (stream : ResumableStream api) (s : Shared N api)
      → stream.on_end ≡ some k
      → k < length s.manager.released
      → Freed (call_on_end stream s).manager.released k
  unfolding call_on_end on_end
  call_on_end-frees {k} stream s e h = rw (e, call_on_end) (release_slot-frees s.manager k h)

  same_entry :
      (i j : ℕ) (a b : ResumableStream api) (s : Shared N api)
      → (i == j) ≡ true
      → lookup i s.resumable_streams ≡ some a
      → lookup j s.resumable_streams ≡ some b
      → b ≡ a
  same_entry i j a b s here at at' =
      let moved : j ≡ i = ground arith in
      some-injective _ _ (sym at' ∙ (ap (λ n. lookup n s.resumable_streams) moved ∙ at))

  ends-Held :
      {k : ℕ} (id : ℕ) (stream : ResumableStream api) (s : Shared N api)
      → lookup id s.resumable_streams ≡ some stream
      → Wired s
      → Held k s
      → Held k (call_on_end stream (record s { resumable_streams = remove id s.resumable_streams }))
  ends-Held {k} id stream s e w (inr freed) = inr (call_on_end-keeps k stream _ freed)
  ends-Held id stream s e w (inl (j, other, at, same)) =
      let removed : Shared N api = record s { resumable_streams = remove id s.resumable_streams } in
      elim (Bool-cases (id == j)) [
        | inl here ↦
            let own = same_entry id j stream other s here e at in
            inr (
              call_on_end-frees stream removed
                ((w id stream e).0 ∙ ap some (ap (λ r. r.stopped) (sym own) ∙ same))
                (omega (arith, (w id stream e).1, ap (λ r. r.stopped) own, same)))
        | inr there ↦ inl (
          j,
          other,
          rw (call_on_end-streams stream removed)
              (lookup-remove id j s.resumable_streams ∙ (rw there at)),
          same,
        )
      ]

  pub remove_and_end-Held :
      {k : ℕ} (id : ℕ) (s : Shared N api) → Wired s → Held k s → Held k (remove_and_end id s)
  unfolding remove_and_end
  remove_and_end-Held id s w h = elim (Option-cases (lookup id s.resumable_streams)) [
    | inl e ↦ rw (e, remove_and_end) h
    | inr (stream, e) ↦ rw (e, remove_and_end) (ends-Held id stream s e w h)
  ]

  answer_pending-Held :
      {k : ℕ} (id : ℕ) (result : _) (s : Shared N api)
      → Held k s
      → Held k (answer_pending id result s)
  unfolding answer_pending
  answer_pending-Held id result s h = elim (Option-cases (lookup id s.pending_requests)) [
    | inl e ↦ rw (e, answer_pending) h
    | inr (tx, e) ↦ rw (e, answer_pending) h
  ]

  pub handle_server_message-Held :
      {k : ℕ} (m : ServerMessage api) (s : Shared N api)
      → Wired s
      → Held k s
      → Held k (handle_server_message m s)
  unfolding handle_server_message
  handle_server_message-Held (response r) s w h = answer_pending-Held r.request_id _ s h
  handle_server_message-Held (error e) s w h = answer_pending-Held e.request_id _ s h
  handle_server_message-Held (stream_data d) s w h =
      elim (Option-cases (lookup d.id s.resumable_streams)) [
        | inl e ↦ rw (e, handle_server_message) h
        | inr (stream, e) ↦ rw (e, handle_server_message) h
      ]
  handle_server_message-Held (stream_end id) s w h = remove_and_end-Held id s w h
  handle_server_message-Held ServerMessage.other s w h = h

  -- The server gives no stream an id that another one, not yet resumed, still has.
  abbrev pub Clashless : ℕ → Option ℕ → Shared N api → Type 0
  Clashless old_id none s = Unit {0}
  Clashless old_id (some new_id) s = lookup new_id (remove old_id s.resumable_streams) ≡ none

  -- The stream that is resumed stands under its new id, the others under theirs.
  moves-Held :
      {k : ℕ} (old_id new_id : ℕ) (stream : ResumableStream api) (s : Shared N api)
      → lookup old_id s.resumable_streams ≡ some stream
      → Clashless old_id (some new_id) s
      → Held k s
      → Held k (
          register_stream new_id stream (
            store_effective stream new_id
              (record s { resumable_streams = remove old_id s.resumable_streams })))
  unfolding register_stream
  moves-Held {k} old_id new_id stream s e free h =
      let rest = remove old_id s.resumable_streams in
      let stored = store_effective-rest stream new_id (record s { resumable_streams = rest }) in
      elim h [
        | inr freed ↦ inr (rw (stored.1) freed)
        | inl (j, other, at, same) ↦ elim (Bool-cases (old_id == j)) [
          | inl here ↦
              let own = same_entry old_id j stream other s here e at in
              inl (
                new_id,
                stream,
                rw (stored.0) (ground (arith, lookup-insert new_id new_id stream rest)),
                ap (λ r. r.stopped) (sym own) ∙ same,
              )
          | inr there ↦
              let kept : lookup j rest ≡ some other =
                lookup-remove old_id j s.resumable_streams ∙ rw there at in
              let apart : (new_id == j) ≡ false =
                ground (arith, ap (λ n. lookup n rest), kept, free) in
              inl
                (j, other, rw (stored.0) (lookup-insert new_id j stream rest ∙ rw apart kept), same)
        ]
      ]

  pub remap-Held :
      {k : ℕ} (old_id : ℕ) (new_id : Option ℕ) (s : Shared N api)
      → Clashless old_id new_id s
      → Wired s
      → Held k s
      → Held k (remap old_id new_id s)
  unfolding remap register_stream
  remap-Held old_id none s free w h = remove_and_end-Held old_id s w h
  remap-Held old_id (some new_id) s free w h =
      elim (Option-cases (lookup old_id s.resumable_streams)) [
        | inl e ↦ rw (e, remap) h
        | inr (stream, e) ↦ elim (Bool-cases (is_abandoned s stream)) [
          | inl dead ↦ rw (e, remap) (rw dead (ends-Held old_id stream s e w h))
          | inr alive ↦ rw (e, remap) (rw alive (moves-Held old_id new_id stream s e free h))
        ]
      ]
