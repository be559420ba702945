-- ===== src/Manager/Settle/Steps.antt =====
-- Each step of a task of src/queue.rs spends or comes nearer to rest.
use titan_rust_client.Base.{ℕ, ◌<◌, ◌+◌, ◌≤◌, ◌≡◌, refl, inl, ◌⊎◌, [], ◌∷◌, arith, length-append}
use titan_rust_client.Notify.{Notify}
use titan_rust_client.Manager.Weights.{drives}
use titan_rust_client.Manager.Settle.{Advances, start_budget, start_rank, stock}
use titan_rust_client.Manager.{
  StreamManager, Env, Task, requester, worker, ender, StartPc, RequestPc, WorkerPc, EndPc,
  start_step, request_step, worker_step, end_step, step,
}

module _ {N : Notify} {R : Type 0} where
  start_step-Advances :
      (e : Env) (m : StreamManager N R) (p : StartPc R)
      → let (m', p') = start_step e m p in
        (p' ≡ p)
        ⊎ (stock m' + start_budget p' < stock m + start_budget p)
        ⊎ ((stock m' + start_budget p' ≤ stock m + start_budget p)
            × (m'.active_count ≡ m.active_count)
            × (m'.queue ≡ m.queue)
            × (start_rank p' < start_rank p))
  unfolding start_step
  start_step-Advances e m (StartPc.claimed r) = ground arith
  start_step-Advances e m (StartPc.awaiting k) = ground arith
  start_step-Advances e m (StartPc.undo k) = ground arith
  start_step-Advances e m StartPc.undo_sub = ground arith
  start_step-Advances e m StartPc.undo_notify =
      ground (arith, N.wake_ups-notify_one m.slot_available)
  start_step-Advances e m (StartPc.returned r) = inl refl

  request_step-Advances :
      (others : ℕ) (e : Env) (m : StreamManager N R) (p : RequestPc R)
      → let (m', p', new_tasks) = request_step e m p in
        Advances others m (requester p) m' (requester p') new_tasks
  unfolding request_step
  request_step-Advances others e m (RequestPc.load_max r) = ground arith
  request_step-Advances others e m (RequestPc.load_active r max) = ground arith
  request_step-Advances others e m (RequestPc.claim r current) = ground arith
  request_step-Advances others e m (RequestPc.push r) =
      ground (arith, length-append m.queue (record { request = r; result_tx = m.next_tx } ∷ []))
  request_step-Advances others e m (RequestPc.pushed tx) = ground arith
  request_step-Advances others e m (RequestPc.spawning tx) = ground arith
  request_step-Advances others e m (RequestPc.await_result tx) = ground arith
  request_step-Advances others e m (RequestPc.starting (StartPc.returned r)) = ground arith
  request_step-Advances others e m (RequestPc.starting (StartPc.claimed r)) =
      ground (arith, start_step-Advances e m (StartPc.claimed r))
  request_step-Advances others e m (RequestPc.starting (StartPc.awaiting k)) =
      ground (arith, start_step-Advances e m (StartPc.awaiting k))
  request_step-Advances others e m (RequestPc.starting (StartPc.undo k)) =
      ground (arith, start_step-Advances e m (StartPc.undo k))
  request_step-Advances others e m (RequestPc.starting StartPc.undo_sub) =
      ground (arith, start_step-Advances e m StartPc.undo_sub)
  request_step-Advances others e m (RequestPc.starting StartPc.undo_notify) =
      ground (arith, start_step-Advances e m StartPc.undo_notify)
  request_step-Advances others e m (RequestPc.finished r) = inl refl

  worker_step-Advances :
      (others : ℕ) (e : Env) (m : StreamManager N R) (p : WorkerPc R)
      → others + drives (worker p) ≤ 1
      → let (m', p', new_tasks) = worker_step e m p in
        Advances others m (worker p) m' (worker p') new_tasks
  unfolding worker_step
  worker_step-Advances others e m WorkerPc.top h = ground arith
  worker_step-Advances others e m (WorkerPc.load_active max) h = ground arith
  worker_step-Advances others e m WorkerPc.await_slot h =
      ground (arith, N.wake_ups-consume m.slot_available, N.wake_ups-register m.slot_available)
  worker_step-Advances others e m WorkerPc.parked h =
      ground (arith, N.wake_ups-consume m.slot_available)
  worker_step-Advances others e m (WorkerPc.pop current) h = ground arith
  worker_step-Advances others e m (WorkerPc.popped current q) h = ground arith
  worker_step-Advances others e m (WorkerPc.requeue q) h = ground arith
  worker_step-Advances others e m (WorkerPc.starting tx (StartPc.returned r)) h = ground arith
  worker_step-Advances others e m (WorkerPc.starting tx (StartPc.claimed r)) h =
      ground (arith, start_step-Advances e m (StartPc.claimed r))
  worker_step-Advances others e m (WorkerPc.starting tx (StartPc.awaiting k)) h =
      ground (arith, start_step-Advances e m (StartPc.awaiting k))
  worker_step-Advances others e m (WorkerPc.starting tx (StartPc.undo k)) h =
      ground (arith, start_step-Advances e m (StartPc.undo k))
  worker_step-Advances others e m (WorkerPc.starting tx StartPc.undo_sub) h =
      ground (arith, start_step-Advances e m StartPc.undo_sub)
  worker_step-Advances others e m (WorkerPc.starting tx StartPc.undo_notify) h =
      ground (arith, start_step-Advances e m StartPc.undo_notify)
  worker_step-Advances others e m WorkerPc.store_idle h = ground arith
  worker_step-Advances others e m WorkerPc.idled h = ground arith
  worker_step-Advances others e m WorkerPc.reclaim h = ground arith
  worker_step-Advances others e m WorkerPc.exited h = inl refl

  end_step-Advances :
      (others : ℕ) (m : StreamManager N R) (p : EndPc)
      → let (m', p') = end_step m p in Advances {R = R} others m (ender p) m' (ender p') []
  unfolding end_step
  end_step-Advances others m (EndPc.guard k) = ground arith
  end_step-Advances others m EndPc.sub = ground arith
  end_step-Advances others m EndPc.notify = ground (arith, N.wake_ups-notify_one m.slot_available)
  end_step-Advances others m EndPc.ended = inl refl

  pub step-Advances :
      (others : ℕ) (e : Env) (m : StreamManager N R) (p : Task R)
      → others + drives p ≤ 1
      → let (m', p', new_tasks) = step e m p in Advances others m p m' p' new_tasks
  unfolding step
  step-Advances others e m (requester p) h = request_step-Advances others e m p
  step-Advances others e m (worker p) h = worker_step-Advances others e m p h
  step-Advances others e m (ender p) h = end_step-Advances others m p
