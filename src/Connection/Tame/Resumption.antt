-- ===== src/Connection/Tame/Resumption.antt =====
-- What the end of a stream's resumption and the final clean-up of src/connection.rs keep.
use titan_rust_client.Base.{
  ℕ, ◌≡◌, refl, ◌∙◌, ap, inl, inr, [], ◌∷◌, Option, none, some, arith, length-set, Bool-cases,
  Option-cases, ◌==◌,
}
use titan_rust_client.Base.Map.{Map, lookup, remove, lookup-remove, lookup-insert}
use titan_rust_client.Notify.{Notify}
use titan_rust_client.Wire.{Api}
use titan_rust_client.Connection.Slots.{cleanup_resumable_streams-Counted}
use titan_rust_client.Connection.Ends.{end_all-streams}
use titan_rust_client.Connection.Resume.{remap, is_abandoned, store_effective}
use titan_rust_client.Connection.Resume.Remap.{remap-Counted, remap_abandoned}
use titan_rust_client.Connection.Resume.Sync.{remap-Synced}
use titan_rust_client.Connection.Reconnect.Accounting.{cleanup-Synced}
use titan_rust_client.Connection.{
  Shared, ResumableStream, call_on_end, register_stream, end_all, cleanup_resumable_streams,
}
use titan_rust_client.Connection.Tame.{
  SameCells, Fewer, Tame, SameCells-trans, SameCells-call_on_end, SameCells-remove_and_end,
  Fewer-remove_and_end, SameCells-refl,
}

module _ {N : Notify} {api : Api} where
  store_effective-streams :
      (stream : ResumableStream api) (id : ℕ) (s : Shared N api)
      → (store_effective stream id s).resumable_streams ≡ s.resumable_streams
  unfolding store_effective
  store_effective-streams stream id s = elim (Option-cases stream.effective_id) [
    | inl e ↦ rw (e, store_effective) refl
    | inr (k, e) ↦ rw (e, store_effective) refl
  ]

  Fewer-moved :
      (old_id new_id : ℕ) (moved : ResumableStream api) (s : Shared N api)
      → lookup old_id s.resumable_streams ≡ some moved
      → Fewer s (
          register_stream new_id moved (
            store_effective moved new_id
              (record s { resumable_streams = remove old_id s.resumable_streams })))
  unfolding register_stream
  Fewer-moved old_id new_id moved s at id stream =
      let removed : Shared N api = record s {
        resumable_streams = remove old_id s.resumable_streams;
      } in
      rw
        (
          store_effective-streams moved new_id removed,
          lookup-insert new_id id,
          lookup-remove old_id id,
        )
        (elim (Bool-cases (new_id == id)) [
          | inl e ↦ rw e (λ found. (old_id, at ∙ found))
          | inr e ↦ rw e (elim (Bool-cases (old_id == id)) [
            | inl e' ↦ rw e' (λ found. absurd (ground arith))
            | inr e' ↦ rw e' (λ found. (id, found))
          ])
        ])

  SameCells-store :
      (stream : ResumableStream api) (id : ℕ) (s : Shared N api)
      → SameCells s (store_effective stream id s)
  unfolding store_effective
  SameCells-store stream id s = elim (Option-cases stream.effective_id) [
    | inl e ↦ rw (e, store_effective) (SameCells-refl s)
    | inr (k, e) ↦
        rw (e, store_effective)
          (record { ids = length-set s.effective_ids k id; flags = refl; slots = refl })
  ]

  Fewer-remap :
      (old_id : ℕ) (new_id : Option ℕ) (s : Shared N api) → Fewer s (remap old_id new_id s)
  unfolding remap store_effective register_stream
  Fewer-remap old_id none s = Fewer-remove_and_end old_id s
  Fewer-remap old_id (some new_id) s = elim (Option-cases (lookup old_id s.resumable_streams)) [
    | inl e ↦ rw (e, remap) (λ id stream at. (id, at))
    | inr (moved, e) ↦ elim (Bool-cases (is_abandoned s moved)) [
      | inl dead ↦ rw (remap_abandoned old_id new_id moved s e dead) (Fewer-remove_and_end old_id s)
      | inr alive ↦ rw (e, remap, alive) (Fewer-moved old_id new_id moved s e)
    ]
  ]

  SameCells-remap :
      (old_id : ℕ) (new_id : Option ℕ) (s : Shared N api) → SameCells s (remap old_id new_id s)
  unfolding remap store_effective register_stream
  SameCells-remap old_id none s = SameCells-remove_and_end old_id s
  SameCells-remap old_id (some new_id) s = elim (Option-cases (lookup old_id s.resumable_streams)) [
    | inl e ↦ rw (e, remap) (SameCells-refl s)
    | inr (moved, e) ↦ elim (Bool-cases (is_abandoned s moved)) [
      | inl dead ↦
          rw (remap_abandoned old_id new_id moved s e dead) (SameCells-remove_and_end old_id s)
      | inr alive ↦
          let removed : Shared N api = record s {
            resumable_streams = remove old_id s.resumable_streams;
          } in
          let c = SameCells-store moved new_id removed in
          rw (e, remap, alive) (record { ids = c.ids; flags = c.flags; slots = c.slots })
    ]
  ]

  pub remap-Tame :
      (old_id : ℕ) (new_id : Option ℕ) (s : Shared N api) → Tame s (remap old_id new_id s)
  remap-Tame old_id new_id s = record {
    counted = λ c. remap-Counted old_id new_id s c;
    synced = remap-Synced old_id new_id s;
    fewer = Fewer-remap old_id new_id s;
    cells = SameCells-remap old_id new_id s;
  }

  SameCells-end_all :
      (entries : Map (ResumableStream api)) (s : Shared N api) → SameCells s (end_all entries s)
  unfolding end_all
  SameCells-end_all [] s = SameCells-refl s
  SameCells-end_all ((id, stream) ∷ rest) s =
      SameCells-trans (SameCells-call_on_end stream s)
        (SameCells-end_all rest (call_on_end stream s))

  pub cleanup-Tame : (s : Shared N api) → Tame s (cleanup_resumable_streams s)
  unfolding cleanup_resumable_streams lookup
  cleanup-Tame s =
      let emptied : Shared N api = record s { resumable_streams = [] } in
      let c = SameCells-end_all s.resumable_streams emptied in
      record {
        counted = λ c. cleanup_resumable_streams-Counted s c;
        synced = cleanup-Synced s;
        fewer = λ id stream at.
            absurd (ground (arith, ap (lookup id) (end_all-streams s.resumable_streams emptied)));
        cells = record { ids = c.ids; flags = c.flags; slots = c.slots };
      }
