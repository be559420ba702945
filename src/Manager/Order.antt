-- ===== src/Manager/Order.antt =====
-- The order of the queue of src/queue.rs, and what a raised limit does to a worker about to wait.
use titan_rust_client.Base.{
  ℕ, ◌<◌, ◌≡◌, refl, ◌⊎◌, inl, inr, false, List, [], ◌∷◌, ◌++◌, arith, Bool-cases, ◌==◌,
}
use titan_rust_client.Notify.{Notify}
use titan_rust_client.Manager.{
  StreamManager, QueuedRequest, Env, StartPc, RequestPc, WorkerPc, start_step, request_step,
  worker_step, set_max_concurrent, parked, await_slot,
}

-- The requests that wait, first in line first: what the worker has taken out, then the queue.
abbrev pub in_line :
    {N : Notify} {R : Type 0} → StreamManager N R → WorkerPc R → List (QueuedRequest R)
in_line m (WorkerPc.popped _ q) = q ∷ m.queue
in_line m (WorkerPc.requeue q) = q ∷ m.queue
in_line m _ = m.queue

module _ {N : Notify} {R : Type 0} where
  start_step-queue :
      (e : Env) (m : StreamManager N R) (p : StartPc R) → (start_step e m p).0.queue ≡ m.queue
  unfolding start_step
  start_step-queue e m (StartPc.claimed r) = refl
  start_step-queue e m p = ground arith

  -- Every step of the worker keeps the line as it is, lost races for a slot included, or takes the
  -- request at its head and starts its stream with the slot claimed.
  pub worker_step-in_line :
      (e : Env) (m : StreamManager N R) (p : WorkerPc R)
      → let (m', p', _) = worker_step e m p in
        (in_line m' p' ≡ in_line m p)
        ⊎ ((q : QueuedRequest R) × (in_line m p ≡ q ∷ in_line m' p')
            × (p' ≡ WorkerPc.starting q.result_tx (StartPc.claimed q.request)))
  unfolding worker_step
  worker_step-in_line e m WorkerPc.top = inl refl
  worker_step-in_line e m (WorkerPc.popped current q) =
      elim (Bool-cases (m.active_count == current)) [
        | inl e ↦ rw e (inr (q, refl, refl))
        | inr e ↦ rw e (inl refl)
      ]
  worker_step-in_line e m (WorkerPc.starting tx (StartPc.returned r)) = inl (ground arith)
  worker_step-in_line e m (WorkerPc.starting tx p) = inl (start_step-queue e m p)
  worker_step-in_line e m p = inl (ground arith)

  -- No other task takes a request out of the queue: a caller's step leaves it or appends one request.
  pub request_step-queue :
      (e : Env) (m : StreamManager N R) (p : RequestPc R)
      → let (m', p', _) = request_step e m p in
        (m'.queue ≡ m.queue)
        ⊎ ((r : R) × (p ≡ RequestPc.push r)
            × (m'.queue ≡ m.queue ++ record { request = r; result_tx = m.next_tx } ∷ []))
  unfolding request_step
  request_step-queue e m (RequestPc.load_max r) = inl refl
  request_step-queue e m (RequestPc.push r) = inr (r, refl, refl)
  request_step-queue e m (RequestPc.starting (StartPc.returned r)) = inl refl
  request_step-queue e m (RequestPc.starting p) = inl (start_step-queue e m p)
  request_step-queue e m p = inl (ground arith)

  -- A worker that has read the old limit and does not wait yet misses the notice of a higher one: if
  -- nobody waits and no permit is stored when `set_max_concurrent` sets a limit above the count, the
  -- worker parks, and stays parked, though a slot is free.
  pub raised_limit_missed :
      (e e' : Env) (m : StreamManager N R) (max : ℕ)
      → N.ready m.slot_available ≡ false
      → N.waiting m.slot_available ≡ false
      → m.active_count < max
      → let (m', p', _) = worker_step e (set_max_concurrent m max) await_slot in
        (p' ≡ parked) × (m'.active_count < m'.max_concurrent) × ((worker_step e' m' p').1 ≡ parked)
  unfolding worker_step set_max_concurrent
  raised_limit_missed e e' m max unready unwaited free = ground (
    arith,
    N.ready-notify_waiters_idle m.slot_available,
    N.ready-register (N.notify_waiters m.slot_available),
  )
