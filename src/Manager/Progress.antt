-- ===== src/Manager/Progress.antt =====
-- When the tasks of src/queue.rs can do no more, no request waits for a slot that is free.
use titan_rust_client.Base.{
  ℕ, ◌≤◌, ◌<◌, ◌≡◌, ◌≢◌, true, false, List, [], ◌∷◌, arith, All, total, u32_max,
}
use titan_rust_client.Notify.{Notify}
use titan_rust_client.Manager.Weights.{holds, live, owes, drives, blocked, rescues}
use titan_rust_client.Manager.Wakeups.{flag}
use titan_rust_client.Manager.Live.{Live, Lowers, Step-Live}
use titan_rust_client.Manager.System.{System, Reach, start, later}
use titan_rust_client.Manager.{
  StreamManager, Env, Task, StartPc, RequestPc, WorkerPc, EndPc, requester, worker, ender, step,
  start_step, request_step, worker_step, end_step, create, opened,
}

-- No answer of the server and no scheduling takes the task further.
abbrev pub Quiet : {N : Notify} {R : Type 0} → StreamManager N R → Task R → Type 0
Quiet m p = (e : Env) → (step e m p).1 ≡ p

abbrev some_env : Env
some_env = record { answer = opened; listening = true }

-- What a quiet task can be.
record Still {N : Notify} {R : Type 0} (m : StreamManager N R) (p : Task R) : Type 0 where
  no_slot : holds p ≡ 0
  no_debt : owes p ≡ 0
  no_rescue : rescues p ≡ 0
  no_drive : drives p ≡ blocked p
  asleep : 0 < blocked p → N.ready m.slot_available ≡ false

module _ {N : Notify} {R : Type 0} where
  Quiet-Still : (m : StreamManager N R) (p : Task R) → Quiet m p → Still m p
  unfolding step request_step worker_step end_step start_step
  Quiet-Still m (requester (RequestPc.load_max r)) q = ground (arith, q some_env)
  Quiet-Still m (requester (RequestPc.starting (StartPc.claimed r))) q = ground (arith, q some_env)
  Quiet-Still m (requester p) q = ground (arith, q some_env)
  Quiet-Still m (worker WorkerPc.top) q = ground (arith, q some_env)
  Quiet-Still m (worker (WorkerPc.starting tx (StartPc.claimed r))) q = ground (arith, q some_env)
  Quiet-Still m (worker p) q = ground (arith, q some_env)
  Quiet-Still m (ender (EndPc.guard k)) q = ground (arith, q some_env)
  Quiet-Still m (ender p) q = ground (arith, q some_env)

  -- The same of all tasks at once.
  Quiet-total :
      (m : StreamManager N R) (ts : List (Task R))
      → All (Quiet m) ts
      → (total holds ts ≡ 0)
        × (total owes ts ≡ 0)
        × (total rescues ts ≡ 0)
        × (total drives ts ≡ total blocked ts)
        × (0 < total blocked ts → N.ready m.slot_available ≡ false)
  Quiet-total m [] q = ground arith
  Quiet-total m (p ∷ ts) q = ground (arith, Quiet-Still m p q.0, Quiet-total m ts q.1)

module _ {N : Notify} {R : Type 0} {max : ℕ} (word : max ≤ u32_max) where
  pub Reach-Live : {s : System N R} → Reach N R Lowers max s → Live max s
  unfolding create
  Reach-Live start = record {
    base = record { slots = omega arith; fits = tt };
    served = ground arith;
    recent = tt;
  }
  Reach-Live (later r st) = Step-Live st (Reach-Live r)

  -- However requests, stream ends and the worker interleave, as long as the limit is not raised:
  -- at most one task acts as the queue's worker, and `queue_worker_active` says whether one does.
  pub one_worker :
      {s : System N R}
      → Reach N R Lowers max s
      → (total drives s.tasks ≡ flag s.mem.queue_worker_active) × (total drives s.tasks ≤ 1)
  one_worker r = ground (arith, (Reach-Live r).served)

  -- However requests, stream ends and the worker interleave, as long as the limit is not raised: when
  -- no task can move any more and a request is still in the queue, the limit is used up, and by
  -- streams that have not given their slot back. No request is stranded while a slot is free.
  pub no_stranded_request :
      {s : System N R}
      → Reach N R Lowers max s
      → All (Quiet s.mem) s.tasks
      → s.mem.queue ≢ []
      → s.mem.max_concurrent ≤ total live s.mem.released
  no_stranded_request {s} r q w =
      ground (arith, (Reach-Live r).served, (Reach-Live r).base.slots, Quiet-total s.mem s.tasks q)
