-- ===== src/Stream/Stop.antt =====
-- What `QuoteStream::stop` of src/stream.rs achieves, whatever the connection does meanwhile.
use titan_rust_client.Base.{
  ℕ, ◌+◌, ◌<◌, ◌≡◌, refl, inl, true, false, List, [], ◌∷◌, some, arith, get_elem?, get_elem?-set,
  Bool-cases, inr, get_elem?_total, length, All,
}
use titan_rust_client.Base.Map.{lookup-remove}
use titan_rust_client.Notify.{Notify}
use titan_rust_client.Wire.{Api}
use titan_rust_client.Manager.Slots.{Counted}
use titan_rust_client.Stream.Adapter.{Absent}
use titan_rust_client.Stream.Task.{
  Background, message, resumed, resumed_late, gives_up, act, act_all, act_all-Tame, stop_each-Tame,
  Tame-trans, release_handle-Tame,
}
use titan_rust_client.Connection.Slots.{Freed, release_slot-frees}
use titan_rust_client.Connection.Resume.Sync.{Synced}
use titan_rust_client.Connection.Resume.Closing.{
  Closing, handle_server_message-Closing, remap-Closing, remove_and_end-Closing,
}
use titan_rust_client.Stream.{
  QuoteStream, ids_to_stop, load_effective, set_stopped, stop_each, close_stream, stop, drop,
  release_handle,
}
use titan_rust_client.Connection.{Shared, unregister_stream}

-- The task tests `stopped` and stores the new id with no store to that flag in between.
abbrev pub OnTime : {api : Api} → Background api → Type 0
OnTime (resumed_late old_id new_id) = ⊥
OnTime _ = Unit {0}

module _ {N : Notify} {api : Api} where
  act_all-Closing :
      {k : ℕ} {ids : List ℕ} (bs : List (Background api)) (s : Shared N api)
      → All OnTime bs
      → Closing k ids s
      → Closing k ids (act_all bs s)
  unfolding act_all act
  act_all-Closing [] s on_time v = v
  act_all-Closing (message m ∷ bs) s on_time v =
      act_all-Closing bs _ on_time.1 (handle_server_message-Closing m s v)
  act_all-Closing (resumed o n ∷ bs) s on_time v =
      act_all-Closing bs _ on_time.1 (remap-Closing o n s v)
  act_all-Closing (resumed_late o n ∷ bs) s on_time v = absurd on_time.0
  act_all-Closing (gives_up o ∷ bs) s on_time v =
      act_all-Closing bs _ on_time.1 (remove_and_end-Closing o s v)

  unregister-Closing :
      {k : ℕ} (id : ℕ) (ids : List ℕ) (s : Shared N api)
      → Closing k (id ∷ ids) s
      → Closing k ids (unregister_stream id s)
  unfolding unregister_stream
  unregister-Closing id ids s v = record {
    flagged = v.flagged;
    has_slot = v.has_slot;
    synced =
        λ j stream at. v.synced j stream (ground (arith, lookup-remove id j s.resumable_streams));
    only = λ j stream at e. ground (arith, lookup-remove id j s.resumable_streams, v.only j stream);
  }

  stop_each-Closing :
      {k : ℕ} (script : ℕ → List (Background api)) (ids : List ℕ) (n : ℕ) (s : Shared N api)
      → ((i : ℕ) → All OnTime (script i))
      → Closing k ids s
      → Closing k [] (stop_each (λ i. act_all (script i)) ids n s)
  unfolding stop_each
  stop_each-Closing script [] n s on_time v = v
  stop_each-Closing script (id ∷ ids) n s on_time v =
      stop_each-Closing script ids (n + 1) _ on_time (
        unregister-Closing id ids (act_all (script n) s)
          (act_all-Closing (script n) s (on_time n) v))

  Closing-more :
      {k : ℕ} (id : ℕ) (ids : List ℕ) (s : Shared N api)
      → Closing k (id ∷ []) s
      → Closing k (id ∷ ids) s
  Closing-more id ids s v = record {
    flagged = v.flagged;
    has_slot = v.has_slot;
    synced = v.synced;
    only = λ j stream at e. ground (arith, v.only j stream at e);
  }

  set_stopped-Closing :
      (q : QuoteStream) (id : ℕ) (s : Shared N api)
      → Synced s
      → get_elem? s.effective_ids q.cell ≡ some id
      → q.cell < length s.stopped_flags
      → q.cell < length s.manager.released
      → Closing q.cell (id ∷ []) (set_stopped q s)
  unfolding set_stopped
  set_stopped-Closing q id s synced here flag slot = record {
    flagged = ground (
      arith,
      get_elem?_total s.stopped_flags q.cell flag,
      get_elem?-set s.stopped_flags q.cell q.cell true,
    );
    has_slot = slot;
    synced = synced;
    only = λ j stream at e.
        let (_, there) = synced j stream at in
        let there' : get_elem? s.effective_ids q.cell ≡ some j = rw e at there in
        inl (ground (arith, here));
  }

  pub load_effective_lem :
      (q : QuoteStream) (id : ℕ) (s : Shared N api)
      → get_elem? s.effective_ids q.cell ≡ some id
      → load_effective q (set_stopped q s) ≡ id
  unfolding load_effective set_stopped
  load_effective_lem q id s here = ground arith

  close_stream-Absent :
      (q : QuoteStream) (s : Shared N api) (script : ℕ → List (Background api))
      → ((i : ℕ) → All OnTime (script i))
      → Closing q.cell (load_effective q s ∷ []) s
      → Absent q.cell (close_stream (λ i. act_all (script i)) q s).0
  unfolding close_stream
  close_stream-Absent q s script on_time v =
      let s1 = act_all (script 0) s in
      let ids = ids_to_stop (load_effective q s) (load_effective q s1) q.stream_id in
      let closed =
        stop_each-Closing script ids 1 s1 on_time
          (Closing-more _ _ s1 (act_all-Closing (script 0) s (on_time 0) v)) in
      λ j stream at e. closed.only j stream at e

  -- Closing a stream gives its slot back, and the count stays exact.
  close_stream-Frees :
      {bound h : ℕ} (q : QuoteStream) (s : Shared N api) (script : ℕ → List (Background api))
      → q.managed ≡ true
      → q.cell < length s.manager.released
      → Counted bound s.manager h
      → let t = (close_stream (λ i. act_all (script i)) q s).0 in
        Freed t.manager.released q.cell × Counted bound t.manager h
  unfolding close_stream
  close_stream-Frees q s script managed slot c =
      let s1 = act_all (script 0) s in
      let ids = ids_to_stop (load_effective q s) (load_effective q s1) q.stream_id in
      let s2 = stop_each (λ i. act_all (script i)) ids 1 s1 in
      let tame = Tame-trans (act_all-Tame (script 0) s) (stop_each-Tame script ids 1 s1) in
      (
        rw (managed, release_handle)
            (release_slot-frees s2.manager q.cell (omega (arith, slot, tame.cells.slots))),
        (release_handle-Tame q s2 managed).counted (tame.counted c),
      )

  -- Stopping or dropping a live handle, the latter with a runtime to clean up on, gives the slot back,
  -- whatever the task does meanwhile: the flag of the slot is up, and `active_count` is still the number
  -- of the slots that are not given back.
  pub stop-Frees :
      {bound h : ℕ} (q : QuoteStream) (s : Shared N api) (script : ℕ → List (Background api))
      → q.stopped ≡ false
      → q.managed ≡ true
      → q.cell < length s.manager.released
      → Counted bound s.manager h
      → let t = (stop (λ i. act_all (script i)) q s).1 in
        let u = (drop (λ i. act_all (script i)) true q s).0 in
        (Freed t.manager.released q.cell × Counted bound t.manager h)
        × (Freed u.manager.released q.cell × Counted bound u.manager h)
  unfolding stop drop set_stopped close_stream
  stop-Frees q s script fresh managed slot c =
      let closed = close_stream-Frees q (set_stopped q s) script managed slot c in
      rw (fresh, stop, drop) (closed, closed)

  -- Stopping a stream by its live, managed handle is final and complete, whatever messages the server
  -- sends and whichever streams a reconnect resumes or gives up while `stop` waits, if the flag of the
  -- stream is not raised between a reconnect's test of it and the store of the new id, and if the count
  -- was exact and every stream registered under the id that its handle reads: afterwards the slot is
  -- given back, with `active_count` still the number of the slots that are not, no entry of the
  -- connection belongs to the stream under any id, and a second `stop` does nothing.
  pub stop_completes :
      {bound h : ℕ} (q : QuoteStream) (id : ℕ) (s : Shared N api)
      (script : ℕ → List (Background api))
      → ((i : ℕ) → All OnTime (script i))
      → q.stopped ≡ false
      → q.managed ≡ true
      → Synced s
      → get_elem? s.effective_ids q.cell ≡ some id
      → q.cell < length s.stopped_flags
      → q.cell < length s.manager.released
      → Counted bound s.manager h
      → let others : ℕ → Shared N api → Shared N api = λ i. act_all (script i) in
        let (q', s', _) = stop others q s in
        (Freed s'.manager.released q.cell × Counted bound s'.manager h)
        × Absent q.cell s'
        × (stop others q' s' ≡ (q', s', []))
  unfolding stop set_stopped close_stream
  stop_completes q id s script on_time fresh managed synced here flag slot c =
      let absent =
        close_stream-Absent q (set_stopped q s) script on_time (
          rw (load_effective_lem q id s here) (set_stopped-Closing q id s synced here flag slot)) in
      let freed = (stop-Frees q s script fresh managed slot c).0 in
      rw (fresh, stop) (rw (fresh, stop) at freed, absent, refl)

  -- Dropping a handle that was stopped changes nothing.
  pub drop-stop :
      (others : ℕ → Shared N api → Shared N api) (q : QuoteStream) (s : Shared N api)
      → let (q', s', _) = stop others q s in drop others true q' s' ≡ (s', [])
  unfolding stop drop
  drop-stop others q s = elim (Bool-cases q.stopped) [
    | inl e ↦ rw (e, stop) refl
    | inr e ↦ rw (e, stop) refl
  ]
