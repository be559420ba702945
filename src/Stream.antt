-- ===== src/Stream.antt =====
-- src/stream.rs: the handle of a quote stream, its `stop` and its `drop`; and the part of
-- `start_stream_internal` in src/queue.rs that makes one. Between two accesses of the shared state
-- other tasks may run: `others n` is what they do to it in the n-th wait.
pub mod Task
pub mod Stop
pub mod Race
pub mod Start
pub mod Whole
pub mod Adapter
pub mod Handle
pub mod Runs
pub mod Kept
pub mod Scenarios
use titan_rust_client.Base.{
  ℕ, ◌+◌, Bool, true, false, List, [], ◌∷◌, ◌++◌, none, some, set, get_elem?, length, ◌==◌, ◌&&◌,
  not, if◌then◌else◌,
}
use titan_rust_client.Base.Outcome.{Outcome, ok, err, unexpected}
use titan_rust_client.Notify.{Notify}
use titan_rust_client.Manager.{StreamManager, try_release}
use titan_rust_client.Wire.{Api, ResponseSuccess}
use titan_rust_client.Connection.{Shared, release_slot, register_stream, unregister_stream}

-- `effective_stream_id`, `stopped_flag` and `slot_released` are the shared cells at `cell`; `managed`
-- says whether there is a `StreamManager`.
pub record QuoteStream : Type 0 where
  pub stream_id : ℕ
  pub cell : ℕ
  pub receiver : ℕ
  pub managed : Bool
  pub stopped : Bool

abbrev pub new_managed : (stream_id receiver cell : ℕ) → QuoteStream
new_managed stream_id receiver cell = record {
  stream_id = stream_id;
  cell = cell;
  receiver = receiver;
  managed = true;
  stopped = false;
}

-- The ids that `stop` and `drop` name to the server: the effective id as read twice, and the original.
pub ids_to_stop : ℕ → ℕ → ℕ → List ℕ
ids_to_stop first_id second_id stream_id =
    first_id
    ∷ ((if second_id == first_id then [] else second_id ∷ [])
        ++ (if not (stream_id == first_id) && not (stream_id == second_id)
            then stream_id ∷ []
            else []))

-- The CAS guard of a handle, which calls `stream_ended` only if it has a manager.
pub release_handle : {N : Notify} {R : Type 0} → QuoteStream → StreamManager N R → StreamManager N R
release_handle q m =
    if q.managed then release_slot m q.cell else elim (try_release m.released q.cell) [
      | none ↦ m
      | some flags ↦ record m { released = flags }
    ]

module _ {N : Notify} {api : Api} where
  -- The cells of a stream: `slot_released` is made before the request, the other two with the stream;
  -- until then nobody reads them.
  pub new_cells : Shared N api → Shared N api
  new_cells s = record s {
    manager = record (s.manager) { released = s.manager.released ++ false ∷ [] };
    effective_ids = s.effective_ids ++ 0 ∷ [];
    stopped_flags = s.stopped_flags ++ false ∷ [];
  }

  -- The stream that a successful response opens, registered for its data and for reconnects.
  pub open_stream : ℕ → ℕ → api.SwapQuoteRequest → ℕ → Shared N api → Shared N api
  open_stream stream_id k request channel s =
      register_stream stream_id
        (record {
          request = request;
          sender = channel;
          on_end = some k;
          effective_id = some k;
          stopped = k;
        })
        (record s { effective_ids = set s.effective_ids k stream_id })

  -- `start_stream_internal` for a claimed slot: `meanwhile` is what happens until the response is there.
  pub start_stream_internal :
      (Shared N api → Shared N api)
      → Outcome (ResponseSuccess api)
      → api.SwapQuoteRequest
      → ℕ
      → Shared N api
      → Shared N api × Outcome QuoteStream
  start_stream_internal meanwhile response request channel s =
      let k = length s.manager.released in
      let s1 = meanwhile (new_cells s) in
      let released = record s1 { manager = release_slot s1.manager k } in
      elim response [
        | err e ↦ (released, err e)
        | ok r ↦ elim r.stream [
          | none ↦ (released, err (unexpected "NewSwapQuoteStream response missing stream info"))
          | some id ↦ (open_stream id k request channel s1, ok (new_managed id channel k))
        ]
      ]

  -- `effective_stream_id.load()`; every handle's cell has a place.
  pub load_effective : QuoteStream → Shared N api → ℕ
  load_effective q s = elim (get_elem? s.effective_ids q.cell) [ none ↦ q.stream_id | some id ↦ id ]

  pub set_stopped : QuoteStream → Shared N api → Shared N api
  set_stopped q s = record s { stopped_flags = set s.stopped_flags q.cell true }

  -- The loop over the ids: `StopStream` is sent and its answer awaited, then the id is unregistered.
  pub stop_each : (ℕ → Shared N api → Shared N api) → List ℕ → ℕ → Shared N api → Shared N api
  stop_each others [] n s = s
  stop_each others (id ∷ ids) n s = stop_each others ids (n + 1) (unregister_stream id (others n s))

  -- The body that `stop` and the task of `drop` share: the ids asked to stop, and the state after.
  pub close_stream :
      (ℕ → Shared N api → Shared N api) → QuoteStream → Shared N api → Shared N api × List ℕ
  unfolding load_effective ids_to_stop release_handle
  close_stream others q s =
      let first_id = load_effective q s in
      let s1 = others 0 s in
      let ids = ids_to_stop first_id (load_effective q s1) q.stream_id in
      let s2 = stop_each others ids 1 s1 in
      (record s2 { manager = release_handle q s2.manager }, ids)

  -- `QuoteStream::stop`: the handle, the state, and the ids for which `StopStream` was sent.
  pub stop :
      (ℕ → Shared N api → Shared N api)
      → QuoteStream
      → Shared N api
      → QuoteStream × Shared N api × List ℕ
  stop others q s =
      if q.stopped
      then (q, s, [])
      else let (s', ids) = close_stream others q (set_stopped q s) in
        (record q { stopped = true }, s', ids)

  -- `Drop::drop`; `runtime` says whether a Tokio runtime is there to spawn the clean-up on.
  pub drop :
      (ℕ → Shared N api → Shared N api) → Bool → QuoteStream → Shared N api → Shared N api × List ℕ
  drop others runtime q s =
      if q.stopped
      then (s, [])
      else let s' = set_stopped q s in
        (if runtime
          then close_stream others q s'
          else (record s' { manager = release_handle q s'.manager }, []))
