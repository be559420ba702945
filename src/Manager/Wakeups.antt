-- ===== src/Manager/Wakeups.antt =====
-- The worker of src/queue.rs: at most one runs, none sleeps while a slot is free, and no request is
-- left in the queue with nobody to serve it. One step of one task.
use titan_rust_client.Base.{
  ℕ, ◌+◌, ◌≤◌, ◌<◌, ◌≡◌, ◌≢◌, ◌⊎◌, Bool, true, false, List, [], arith, total, All,
}
use titan_rust_client.Notify.{Notify}
use titan_rust_client.Manager.Slots.{Counted, Fits}
use titan_rust_client.Manager.Weights.{
  holds, start_holds, owes, start_owes, drives, blocked, rescues,
}
use titan_rust_client.Manager.{
  StreamManager, Env, Task, requester, worker, ender, StartPc, RequestPc, WorkerPc, EndPc,
  start_step, request_step, worker_step, end_step, step,
}

abbrev pub flag : Bool → ℕ
flag true = 1
flag false = 0

-- `d`, `b`, `o` and `r` count the tasks that drive, are blocked, owe a wake-up and rescue.
pub record Served {N : Notify} {R : Type 0} (m : StreamManager N R) (d b o r : ℕ) : Type 0 where
  pub one_driver : d ≡ flag m.queue_worker_active
  -- Who is blocked has a wake-up coming, or the limit is reached but for wake-ups owed.
  pub no_hunger :
      0 < b → (N.ready m.slot_available ≡ true) ⊎ (m.max_concurrent ≤ m.active_count + o)
  pub no_orphan : m.queue ≢ [] → (0 < d) ⊎ (0 < r)

-- A limit that a worker has read is no lower than the limit now.
abbrev pub Recent : {N : Notify} {R : Type 0} → StreamManager N R → Task R → Type 0
Recent m (worker (WorkerPc.load_active max)) = m.max_concurrent ≤ max
Recent m _ = Unit {0}

-- The counts over the other tasks.
pub record Rest : Type 0 where
  pub drive : ℕ
  pub block : ℕ
  pub owe : ℕ
  pub rescue : ℕ

-- The counts with one task at `p`, and with it at `p` beside the tasks that it started.
abbrev pub ServedAt : {N : Notify} {R : Type 0} → Rest → StreamManager N R → Task R → Type 0
ServedAt t m p =
    Served m (t.drive + drives p) (t.block + blocked p) (t.owe + owes p) (t.rescue + rescues p)

abbrev pub ServedAfter :
    {N : Notify} {R : Type 0}
    → Rest
    → StreamManager N R
    → StreamManager N R
    → Task R
    → List (Task R)
    → Type 0
ServedAfter t before m p new_tasks =
    Served m (t.drive + drives p + total drives new_tasks)
      (t.block + blocked p + total blocked new_tasks) (t.owe + owes p + total owes new_tasks)
      (t.rescue + rescues p + total rescues new_tasks)
    × Recent m p
    × All (Recent m) new_tasks
    × (m.max_concurrent ≡ before.max_concurrent)

module _ {N : Notify} {R : Type 0} {bound : ℕ} (rh : ℕ) (t : Rest) (few : t.block ≤ t.drive) where
  start_step-Served :
      (e : Env) (m : StreamManager N R) (p : StartPc R)
      → Counted bound m (rh + start_holds p)
      → (d : ℕ) → Served m (t.drive + d) t.block (t.owe + start_owes p) t.rescue
      → Served
          (start_step e m p).0
          (t.drive + d)
          t.block
          (t.owe + start_owes (start_step e m p).1)
          t.rescue
        × ((start_step e m p).0.max_concurrent ≡ m.max_concurrent)
  unfolding start_step
  start_step-Served e m (StartPc.claimed r) c d v = ground arith
  start_step-Served e m (StartPc.awaiting k) c d v = ground arith
  start_step-Served e m (StartPc.undo k) c d v = ground arith
  start_step-Served e m StartPc.undo_sub c d v = ground arith
  start_step-Served e m StartPc.undo_notify c d v =
      ground (arith, N.ready-notify_one m.slot_available)
  start_step-Served e m (StartPc.returned r) c d v = ground arith

  request_step-Served :
      (e : Env) (m : StreamManager N R) (p : RequestPc R)
      → Fits bound (requester p)
      → Counted bound m (rh + holds (requester p))
      → ServedAt t m (requester p)
      → let (m', p', new_tasks) = request_step e m p in ServedAfter t m m' (requester p') new_tasks
  unfolding request_step
  request_step-Served e m (RequestPc.load_max r) f c v = ground arith
  request_step-Served e m (RequestPc.starting (StartPc.returned r)) f c v = ground arith
  request_step-Served e m (RequestPc.starting p) f c v = ground (arith, start_step-Served e m p c 0)
  request_step-Served e m p f c v = ground arith

  worker_step-Served :
      (e : Env) (m : StreamManager N R) (p : WorkerPc R)
      → Fits bound (worker p)
      → Recent m (worker p)
      → Counted bound m (rh + holds (worker p))
      → ServedAt t m (worker p)
      → let (m', p', new_tasks) = worker_step e m p in ServedAfter t m m' (worker p') new_tasks
  unfolding worker_step
  worker_step-Served e m WorkerPc.top f g c v = ground arith
  worker_step-Served e m (WorkerPc.starting tx (StartPc.returned r)) f g c v = ground arith
  worker_step-Served e m (WorkerPc.starting tx p) f g c v =
      ground (arith, start_step-Served e m p c 1)
  worker_step-Served e m p f g c v = ground arith

  end_step-Served :
      (m : StreamManager N R) (p : EndPc)
      → Counted bound m (rh + holds {R = R} (ender p))
      → ServedAt t m (ender p)
      → ServedAfter t m (end_step m p).0 (ender (end_step m p).1) []
  unfolding end_step
  end_step-Served m (EndPc.guard k) c v = ground arith
  end_step-Served m EndPc.sub c v = ground arith
  end_step-Served m EndPc.notify c v = ground (arith, N.ready-notify_one m.slot_available)
  end_step-Served m EndPc.ended c v = ground arith

  pub step-Served :
      (e : Env) (m : StreamManager N R) (p : Task R)
      → Fits bound p
      → Recent m p
      → Counted bound m (rh + holds p)
      → ServedAt t m p
      → let (m', p', new_tasks) = step e m p in ServedAfter t m m' p' new_tasks
  unfolding step
  step-Served e m (requester p) f g c v = request_step-Served e m p f c v
  step-Served e m (worker p) f g c v = worker_step-Served e m p f g c v
  step-Served e m (ender p) f g c v = end_step-Served m p c v
