-- ===== src/Stream/Runs.antt =====
-- The operations of src/stream.rs and src/connection.rs that give slots back, and `start_stream_internal` of
-- src/queue.rs, against the tasks that make one access at a time: nothing else runs between the accesses of
-- one critical section here.
use titan_rust_client.Base.{
  ℕ, zero, suc, ◌≡◌, refl, true, none, some, length, arith, Option-cases, inl, inr,
}
use titan_rust_client.Base.Outcome.{Outcome, ok, err}
use titan_rust_client.Notify.{Notify}
use titan_rust_client.Wire.{Api, ResponseSuccess}
use titan_rust_client.Manager.{
  StreamManager, Env, Answer, opened, missing_stream, failed, Reply, stream, failure, StartPc,
  EndPc, end_step, start_step, stream_ended,
}
use titan_rust_client.Connection.{Shared, release_slot, register_stream}
use titan_rust_client.Stream.{QuoteStream, new_cells, open_stream, start_stream_internal}

module _ {N : Notify} {R : Type 0} where
  -- A task that makes `n` accesses in a row.
  pub ender_run : ℕ → StreamManager N R → EndPc → StreamManager N R × EndPc
  ender_run zero m p = (m, p)
  ender_run (suc n) m p = let (m', p') = end_step m p in ender_run n m' p'

  pub start_run : ℕ → Env → StreamManager N R → StartPc R → StreamManager N R × StartPc R
  start_run zero e m p = (m, p)
  start_run (suc n) e m p = let (m', p') = start_step e m p in start_run n e m' p'

  pub ender_run-release_slot :
      (m : StreamManager N R) (k : ℕ)
      → ender_run 3 m (EndPc.guard k) ≡ (release_slot m k, EndPc.ended)
  unfolding ender_run end_step release_slot stream_ended
  ender_run-release_slot m k = ground arith

  undo_run :
      (e : Env) (m : StreamManager N R) (k : ℕ)
      → start_run 3 e m (StartPc.undo k) ≡ (release_slot m k, StartPc.returned failure)
  unfolding start_run start_step release_slot stream_ended
  undo_run e m k = ground arith

-- What a response is to the start, and what a result is to its caller.
abbrev pub answer_of : {api : Api} → Outcome (ResponseSuccess api) → Answer
answer_of (err e) = failed
answer_of (ok r) = elim r.stream [ none ↦ missing_stream | some id ↦ opened ]

abbrev pub reply_of : Outcome QuoteStream → Reply
reply_of (err e) = failure
reply_of (ok q) = stream q.cell

module _ {N : Notify} {api : Api} where
  responded :
      (response : Outcome (ResponseSuccess api)) (meanwhile : Shared N api → Shared N api)
      (request : api.SwapQuoteRequest) (channel : ℕ) (s : Shared N api)
      → let e : Env = record { answer = answer_of response; listening = true } in
        let k = length s.manager.released in
        let (t, result) = start_stream_internal meanwhile response request channel s in
        start_run 4 e (meanwhile (new_cells s)).manager (StartPc.awaiting k)
        ≡ (t.manager, StartPc.returned (reply_of result))
  unfolding start_stream_internal start_run start_step open_stream register_stream
  responded (err e) meanwhile request channel s =
      undo_run (record { answer = failed; listening = true }) (meanwhile (new_cells s)).manager
        (length s.manager.released)
  responded (ok r) meanwhile request channel s = elim (Option-cases r.stream) [
    | inl e ↦
        rw (e, start_stream_internal)
          (undo_run (record { answer = missing_stream; listening = true })
            (meanwhile (new_cells s)).manager (length s.manager.released))
    | inr (id, e) ↦ rw (e, start_stream_internal) refl
  ]

  -- The operations on the whole state are runs of the tasks that make one access at a time: a path that
  -- ends a stream, let alone from its guard on, does to the manager what `release_slot` does; and
  -- `start_stream_internal` makes the cells that its task makes for a claimed slot, and leaves, once the
  -- response is there, what that task leaves, with the reply that its result stands for.
  pub operations_are_runs :
      (meanwhile : Shared N api → Shared N api) (response : Outcome (ResponseSuccess api))
      (request : api.SwapQuoteRequest) (channel j : ℕ) (s : Shared N api)
      → let e : Env = record { answer = answer_of response; listening = true } in
        let k = length s.manager.released in
        let (t, result) = start_stream_internal meanwhile response request channel s in
        (ender_run 3 s.manager (EndPc.guard j) ≡ (release_slot s.manager j, EndPc.ended))
        × (start_step e s.manager (StartPc.claimed request)
            ≡ ((new_cells s).manager, StartPc.awaiting k))
        × (start_run 4 e (meanwhile (new_cells s)).manager (StartPc.awaiting k)
            ≡ (t.manager, StartPc.returned (reply_of result)))
  unfolding start_step new_cells
  operations_are_runs meanwhile response request channel j s =
      (ender_run-release_slot s.manager j, refl, responded response meanwhile request channel s)
