-- ===== src/Manager/Slots.antt =====
-- Slot accounting of src/queue.rs: `active_count` against the flags of the streams.
use titan_rust_client.Base.{
  ℕ, ◌+◌, ◌≤◌, ◌<◌, ◌≡◌, ◌⊎◌, inl, inr, Bool, true, false, List, [], ◌∷◌, none, some, arith, All,
  Option-cases, total, total-append, total-split, total-set, get_elem?, set, u32_max,
}
use titan_rust_client.Notify.{Notify}
use titan_rust_client.Manager.Weights.{holds, start_holds, live}
use titan_rust_client.Manager.{
  StreamManager, Env, Task, requester, worker, ender, StartPc, RequestPc, WorkerPc, EndPc,
  start_step, request_step, worker_step, end_step, step, try_release,
}

-- `active_count` is the number of streams whose flag is down and of `h` slots held besides.
pub record Counted {N : Notify} {R : Type 0} (bound : ℕ) (m : StreamManager N R) (h : ℕ)
    : Type 0 where
  pub small : bound ≤ u32_max
  pub limit : m.max_concurrent ≤ bound
  pub capped : m.active_count ≤ bound
  pub counted : m.active_count ≡ total live m.released + h

-- A number that a task has read is still good for what it does with it.
abbrev pub Fits : {R : Type 0} → ℕ → Task R → Type 0
Fits bound (requester (RequestPc.load_active _ max)) = max ≤ bound
Fits bound (requester (RequestPc.claim _ current)) = current < bound
Fits bound (worker (WorkerPc.load_active max)) = max ≤ bound
Fits bound (worker (WorkerPc.pop current)) = current < bound
Fits bound (worker (WorkerPc.popped current _)) = current < bound
Fits bound _ = Unit {0}

-- Winning the flag of a stream turns its count into a slot held.
pub try_release-live :
    (flags : List Bool) (k : ℕ)
    → (try_release flags k ≡ none)
      ⊎ ((after : List Bool) × (try_release flags k ≡ some after)
          × (total live flags ≡ total live after + 1))
try_release-live flags k = elim (Option-cases (get_elem? flags k)) [
  | inl e ↦ inl (rw (e, try_release))
  | inr (true, e) ↦ inl (rw (e, try_release))
  | inr (false, e) ↦ inr (
    set flags k true,
    rw (e, try_release),
    omega (arith, total-split live flags k false e, total-set live flags k false true e),
  )
]

module _ {N : Notify} {R : Type 0} {bound : ℕ} where
  start_step-Counted :
      (e : Env) (m : StreamManager N R) (p : StartPc R) (rest : ℕ)
      → Counted bound m (rest + start_holds p)
      → Counted bound (start_step e m p).0 (rest + start_holds (start_step e m p).1)
  unfolding start_step
  start_step-Counted e m (StartPc.claimed r) rest c =
      ground (arith, total-append live m.released (false ∷ []))
  start_step-Counted e m (StartPc.awaiting k) rest c = ground arith
  start_step-Counted e m (StartPc.undo k) rest c = ground (arith, try_release-live m.released k)
  start_step-Counted e m StartPc.undo_sub rest c = ground arith
  start_step-Counted e m StartPc.undo_notify rest c = ground arith
  start_step-Counted e m (StartPc.returned r) rest c = ground arith

  end_step-Counted :
      (m : StreamManager N R) (p : EndPc) (rest : ℕ)
      → Counted bound m (rest + holds {R = R} (ender p))
      → Counted bound (end_step m p).0 (rest + holds {R = R} (ender (end_step m p).1))
  unfolding end_step
  end_step-Counted m (EndPc.guard k) rest c = ground (arith, try_release-live m.released k)
  end_step-Counted m EndPc.sub rest c = ground arith
  end_step-Counted m EndPc.notify rest c = ground arith
  end_step-Counted m EndPc.ended rest c = ground arith

  request_step-Counted :
      (e : Env) (m : StreamManager N R) (p : RequestPc R) (rest : ℕ)
      → Fits bound (requester p)
      → Counted bound m (rest + holds (requester p))
      → let (m', p', new_tasks) = request_step e m p in
        Counted bound m' (rest + holds (requester p') + total holds new_tasks)
        × Fits bound (requester p')
        × All (Fits bound) new_tasks
  unfolding request_step
  request_step-Counted e m (RequestPc.load_max r) rest f c = ground arith
  request_step-Counted e m (RequestPc.load_active r max) rest f c = ground arith
  request_step-Counted e m (RequestPc.claim r current) rest f c = ground arith
  request_step-Counted e m (RequestPc.push r) rest f c = ground arith
  request_step-Counted e m (RequestPc.pushed tx) rest f c = ground arith
  request_step-Counted e m (RequestPc.spawning tx) rest f c = ground arith
  request_step-Counted e m (RequestPc.await_result tx) rest f c = ground arith
  request_step-Counted e m (RequestPc.starting (StartPc.returned r)) rest f c = ground arith
  request_step-Counted e m (RequestPc.starting p) rest f c =
      ground (arith, start_step-Counted e m p rest)
  request_step-Counted e m (RequestPc.finished r) rest f c = ground arith

  worker_step-Counted :
      (e : Env) (m : StreamManager N R) (p : WorkerPc R) (rest : ℕ)
      → Fits bound (worker p)
      → Counted bound m (rest + holds (worker p))
      → let (m', p', new_tasks) = worker_step e m p in
        Counted bound m' (rest + holds (worker p') + total holds new_tasks)
        × Fits bound (worker p')
        × All (Fits bound) new_tasks
  unfolding worker_step
  worker_step-Counted e m WorkerPc.top rest f c = ground arith
  worker_step-Counted e m (WorkerPc.load_active max) rest f c = ground arith
  worker_step-Counted e m (WorkerPc.starting tx (StartPc.returned r)) rest f c = ground arith
  worker_step-Counted e m (WorkerPc.starting tx p) rest f c =
      ground (arith, start_step-Counted e m p rest)
  worker_step-Counted e m p rest f c = ground arith

  pub step-Counted :
      (e : Env) (m : StreamManager N R) (p : Task R) (rest : ℕ)
      → Fits bound p
      → Counted bound m (rest + holds p)
      → let (m', p', new_tasks) = step e m p in
        Counted bound m' (rest + holds p' + total holds new_tasks)
        × Fits bound p'
        × All (Fits bound) new_tasks
  unfolding step
  step-Counted e m (requester p) rest f c = request_step-Counted e m p rest f c
  step-Counted e m (worker p) rest f c = worker_step-Counted e m p rest f c
  step-Counted e m (ender p) rest f c = ground (arith, end_step-Counted m p rest)
