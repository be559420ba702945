-- ===== src/Stream/Adapter.antt =====
-- The adapter task that `start_stream_internal` of src/queue.rs spawns: it takes what the connection sends for
-- a stream and passes the quotes on to the handle.
use titan_rust_client.Base.{
  ℕ, ◌≡◌, ◌≢◌, refl, Bool, true, false, not, List, [], ◌∷◌, none, some, All, get_elem?, arith,
  if◌then◌else◌, ap,
}
use titan_rust_client.Base.Map.{lookup, lookup-remove}
use titan_rust_client.Notify.{Notify}
use titan_rust_client.Wire.{Api, StreamDataPayload, swap_quotes}
use titan_rust_client.Connection.{Shared, ResumableStream, unregister_stream}
use titan_rust_client.Connection.Resume.Sync.{Synced}

-- What `raw_rx.recv()` gives: what other tasks did until then, the payload, whether the handle still
-- receives, and, where it does not, what they do between the load of the id and the removal under it.
pub data Delivery (N : Notify) (api : Api) : Type 0 where
  received :
      (meanwhile : Shared N api → Shared N api)
      → (payload : StreamDataPayload api) → (listening : Bool)
      → (between : Shared N api → Shared N api) → Delivery N api

-- The quotes of a payload whose handle is gone.
abbrev pub refused : {N : Notify} {api : Api} → Delivery N api → Bool
refused (received f (swap_quotes q) listening g) = not listening
refused (received f StreamDataPayload.other listening g) = false

-- What the other tasks do keeps every stream under the id that its handle reads; and between the load of
-- the id of the cell and the removal, no reconnect gives that stream another one.
abbrev pub Calm : {N : Notify} {api : Api} → ℕ → Delivery N api → Type 0
Calm {N} {api} k (received f payload listening g) =
    ((u : Shared N api) → Synced u → Synced (f u))
    × ((u : Shared N api)
        → Synced u
        → Synced (g u) × (get_elem? (g u).effective_ids k ≡ get_elem? u.effective_ids k))

module _ {N : Notify} {api : Api} where
  -- `adapter_effective_id.load()`; every stream's cell has a place.
  load_cell : ℕ → Shared N api → ℕ
  load_cell k s = elim (get_elem? s.effective_ids k) [ none ↦ 0 | some id ↦ id ]

  -- The loop, until the channel of the connection is closed; with what the handle was sent.
  pub adapter :
      List (Delivery N api) → (cell : ℕ) → Shared N api → Shared N api × List api.SwapQuotes
  unfolding load_cell
  adapter [] k s = (s, [])
  adapter (received meanwhile (swap_quotes q) listening between ∷ rest) k s =
      let s' = meanwhile s in
      let (t, sent) = adapter rest k s' in
      if listening then (t, q ∷ sent) else (unregister_stream (load_cell k s') (between s'), [])
  adapter (received meanwhile StreamDataPayload.other listening between ∷ rest) k s =
      adapter rest k (meanwhile s)

  -- The deliveries before the first refused one.
  abbrev pub before_refusal : List (Delivery N api) → List (Delivery N api)
  before_refusal [] = []
  before_refusal (d ∷ rest) = let ds = before_refusal rest in if refused d then [] else d ∷ ds

  abbrev pub quotes_of : List (Delivery N api) → List api.SwapQuotes
  quotes_of [] = []
  quotes_of (received f (swap_quotes q) listening g ∷ rest) = q ∷ quotes_of rest
  quotes_of (received f StreamDataPayload.other listening g ∷ rest) = quotes_of rest

  abbrev pub any_refused : List (Delivery N api) → Bool
  any_refused [] = false
  any_refused (d ∷ rest) = let r = any_refused rest in if refused d then true else r

  -- No stream of the map has the cell.
  abbrev pub Absent : ℕ → Shared N api → Type 0
  Absent k s =
      (id : ℕ) (stream : ResumableStream api)
      → lookup id s.resumable_streams ≡ some stream
      → stream.stopped ≢ k

  unregisters_own :
      (k id : ℕ) (s : Shared N api)
      → Synced s
      → load_cell k s ≡ id
      → Synced (unregister_stream id s) × Absent k (unregister_stream id s)
  unfolding unregister_stream load_cell
  unregisters_own k own s v here = (
    λ id stream at. v id stream (ground (arith, lookup-remove own id s.resumable_streams)),
    λ id stream at same. ground (
      arith,
      here,
      lookup-remove own id s.resumable_streams,
      ap (get_elem? s.effective_ids) same,
      (v id stream (ground (arith, lookup-remove own id s.resumable_streams))).1,
    ),
  )

  -- The handle is sent exactly the quotes of the stream, in order, up to the first that it no longer takes;
  -- and when it is gone, the stream leaves the map under whatever id it has by then, if the tasks that run
  -- meanwhile keep every stream under the id that its handle reads, and give it no new one between the load
  -- of the id and the removal.
  pub adapter_lem :
      (deliveries : List (Delivery N api)) (k : ℕ) (s : Shared N api)
      → All (Calm k) deliveries
      → Synced s
      → let (t, sent) = adapter deliveries k s in
        (sent ≡ quotes_of (before_refusal deliveries))
        × Synced t
        × (any_refused deliveries ≡ true → Absent k t)
  unfolding adapter load_cell
  adapter_lem [] k s calm v = (refl, v, λ e. cc)
  adapter_lem (received f (swap_quotes q) true g ∷ rest) k s ((now, between), calm) v =
      let (same, synced, gone) = adapter_lem rest k (f s) calm (now s v) in
      (ap (λ qs. q ∷ qs) same, synced, gone)
  adapter_lem (received f (swap_quotes q) false g ∷ rest) k s ((now, between), calm) v =
      let (kept, same) = between (f s) (now s v) in
      let (synced, gone) = unregisters_own k (load_cell k (f s)) (g (f s)) kept (ground arith) in
      (refl, synced, λ e. gone)
  adapter_lem (received f StreamDataPayload.other b g ∷ rest) k s ((now, between), calm) v =
      adapter_lem rest k (f s) calm (now s v)
