-- ===== src/Manager/Cancel.antt =====
-- Dropping the future of `request_stream` (src/queue.rs) while it waits for the server's answer.
use titan_rust_client.Base.{
  ℕ, ◌≤◌, ◌≡◌, ◌≢◌, true, false, arith, some, total, total-split, get_elem?, get_elem?-set,
  get_elem?-lt, get_elem?-append, erase_at, All-replace, set, All, All-append, All-set,
  All-get_elem?, ◌+◌, total-set,
}
use titan_rust_client.Notify.{Notify}
use titan_rust_client.Manager.Safety.{Inv, Step-Inv}
use titan_rust_client.Manager.Slots.{Fits}
use titan_rust_client.Manager.Weights.{live, holds}
use titan_rust_client.Manager.System.{System, Step, run, request_stream, end_stream, retune}
use titan_rust_client.Manager.{
  StreamManager, Env, Task, stream, failure, StartPc, RequestPc, WorkerPc, EndPc, requester, worker,
  ender, step, start_step, request_step, worker_step, end_step, set_max_concurrent,
}

-- The task at `i` is gone, with what it had on its stack.
pub cancel : {N : Notify} {R : Type 0} → ℕ → System N R → System N R
cancel i s = record s { tasks = set s.tasks i (requester (RequestPc.finished failure)) }

-- The code of a task no longer leads to the flag `k`.
abbrev StartSpares : {R : Type 0} → ℕ → StartPc R → Type 0
StartSpares k (StartPc.awaiting j) = j ≢ k
StartSpares k (StartPc.undo j) = j ≢ k
StartSpares k (StartPc.returned (stream j)) = j ≢ k
StartSpares k _ = Unit {0}

abbrev pub Spares : {R : Type 0} → ℕ → Task R → Type 0
Spares k (requester (RequestPc.starting p)) = StartSpares k p
Spares k (requester _) = Unit {0}
Spares k (worker (WorkerPc.starting _ p)) = StartSpares k p
Spares k (worker _) = Unit {0}
Spares k (ender (EndPc.guard j)) = j ≢ k
Spares k (ender _) = Unit {0}

module _ {N : Notify} {R : Type 0} where
  -- No handle and no entry of the connection leads to the stream either, so nobody ends it.
  abbrev pub Unended :
      {s t : System N R} {Allowed : ℕ → ℕ → Type 0} → ℕ → Step N R Allowed s t → Type 0
  Unended k (end_stream j lt) = j ≢ k
  Unended k _ = Unit {0}

  -- The states after `s` in which nobody ends the stream `k`.
  pub data After (Allowed : ℕ → ℕ → Type 0) (k : ℕ) (s : System N R) : System N R → Type 0 where
    here : After Allowed k s s
    next :
        {t u : System N R}
        → After Allowed k s t
        → (st : Step N R Allowed t u) → Unended k st
        → After Allowed k s u

  -- The slot of the stream `k` is taken for good.
  abbrev Lost : ℕ → System N R → Type 0
  Lost k s = (get_elem? s.mem.released k ≡ some false) × All (Spares k) s.tasks

  start_step-Lost :
      (k : ℕ) (e : Env) (m : StreamManager N R) (p : StartPc R)
      → get_elem? m.released k ≡ some false
      → StartSpares k p
      → (get_elem? (start_step e m p).0.released k ≡ some false)
        × StartSpares k (start_step e m p).1
  unfolding start_step
  start_step-Lost k e m (StartPc.claimed r) h v =
      (get_elem?-append m.released _ k h, ground (arith, get_elem?-lt m.released k h))
  start_step-Lost k e m (StartPc.awaiting j) h v = ground arith
  start_step-Lost k e m (StartPc.undo j) h v = ground (arith, get_elem?-set m.released j k true)
  start_step-Lost k e m StartPc.undo_sub h v = ground arith
  start_step-Lost k e m StartPc.undo_notify h v = ground arith
  start_step-Lost k e m (StartPc.returned r) h v = (h, v)

  request_step-Lost :
      (k : ℕ) (e : Env) (m : StreamManager N R) (p : RequestPc R)
      → get_elem? m.released k ≡ some false
      → Spares k (requester p)
      → let (m', p', new_tasks) = request_step e m p in
        (get_elem? m'.released k ≡ some false) × Spares k (requester p') × All (Spares k) new_tasks
  unfolding request_step
  request_step-Lost k e m (RequestPc.starting (StartPc.returned r)) h v = ground arith
  request_step-Lost k e m (RequestPc.starting p) h v = ground (arith, start_step-Lost k e m p)
  request_step-Lost k e m p h v = ground arith

  worker_step-Lost :
      (k : ℕ) (e : Env) (m : StreamManager N R) (p : WorkerPc R)
      → get_elem? m.released k ≡ some false
      → Spares k (worker p)
      → let (m', p', new_tasks) = worker_step e m p in
        (get_elem? m'.released k ≡ some false) × Spares k (worker p') × All (Spares k) new_tasks
  unfolding worker_step
  worker_step-Lost k e m (WorkerPc.starting tx (StartPc.returned failure)) h v = ground arith
  worker_step-Lost k e m (WorkerPc.starting tx (StartPc.returned (stream j))) h v = ground arith
  worker_step-Lost k e m (WorkerPc.starting tx p) h v = ground (arith, start_step-Lost k e m p)
  worker_step-Lost k e m p h v = ground arith

  end_step-Lost :
      (k : ℕ) (m : StreamManager N R) (p : EndPc)
      → get_elem? m.released k ≡ some false
      → Spares {R = R} k (ender p)
      → (get_elem? (end_step m p).0.released k ≡ some false)
        × Spares {R = R} k (ender (end_step m p).1)
  unfolding end_step
  end_step-Lost k m (EndPc.guard j) h v = ground (arith, get_elem?-set m.released j k true)
  end_step-Lost k m p h v = ground arith

  step-Lost :
      (k : ℕ) (e : Env) (m : StreamManager N R) (p : Task R)
      → get_elem? m.released k ≡ some false
      → Spares k p
      → let (m', p', new_tasks) = step e m p in
        (get_elem? m'.released k ≡ some false) × Spares k p' × All (Spares k) new_tasks
  unfolding step
  step-Lost k e m (requester p) h v = request_step-Lost k e m p h v
  step-Lost k e m (worker p) h v = worker_step-Lost k e m p h v
  step-Lost k e m (ender p) h v = let (a, b) = end_step-Lost k m p h v in (a, b, tt)

  After-Lost :
      {Allowed : ℕ → ℕ → Type 0} {k : ℕ} {s t : System N R}
      → After Allowed k s t
      → Lost k s
      → Lost k t
  unfolding set_max_concurrent
  After-Lost here v = v
  After-Lost {k} (next {t} a (run e i p at) free) v =
      let w = After-Lost a v in
      let (live_k, mine, new) =
        step-Lost k e t.mem p w.0 (All-get_elem? (Spares k) t.tasks i w.1 at) in
      (live_k, All-append (Spares k) _ _ (All-set (Spares k) t.tasks i _ w.1 mine) new)
  After-Lost {k} (next {t} a (request_stream r) free) v =
      let w = After-Lost a v in (w.0, All-append (Spares k) t.tasks _ w.1 (tt, tt))
  After-Lost {k} (next {t} a (end_stream j lt) free) v =
      let w = After-Lost a v in (w.0, All-append (Spares k) t.tasks _ w.1 (free, tt))
  After-Lost (next a (retune max b) free) v = let w = After-Lost a v in (w.0, w.1)

  cancel-Inv :
      {bound : ℕ} (s : System N R) (i k : ℕ)
      → get_elem? s.tasks i ≡ some (requester (RequestPc.starting (StartPc.awaiting k)))
      → Inv bound s
      → Inv bound (cancel i s)
  unfolding cancel
  cancel-Inv {bound} s i k at v = record {
    slots =
        let same : total holds (cancel i s).tasks ≡ total holds s.tasks = omega (
          arith,
          total-split holds s.tasks i _ at,
          total-set holds s.tasks i _ (requester (RequestPc.finished failure)) at,
        ) in
        rw same v.slots;
    fits = All-set (Fits bound) s.tasks i (requester (RequestPc.finished failure)) v.fits tt;
  }

  After-Inv :
      {bound : ℕ} {Allowed : ℕ → ℕ → Type 0} {k : ℕ} {s t : System N R}
      → ((old max : ℕ) → old ≤ bound → Allowed old max → max ≤ bound)
      → After Allowed k s t
      → Inv bound s
      → Inv bound t
  After-Inv within here v = v
  After-Inv within (next a st free) v =
      let w = After-Inv within a v in
      Step-Inv (λ max allowed. within _ max w.slots.limit allowed) st w

  -- A slot is leaked if the future of `request_stream` is dropped while it waits for the server, in a state
  -- whose count is exact and in which no other task leads to the flag of the stream that it had made: that
  -- flag stays down, whatever the other tasks do while the limit stays at most `bound` and nobody ends the
  -- stream, which was never handed out; and `active_count` stays one more than the number of the other
  -- live streams and of the slots that the tasks hold.
  pub cancel_leaks :
      {bound : ℕ} {Allowed : ℕ → ℕ → Type 0} (s t : System N R) (i k : ℕ)
      → Inv bound s
      → ((old max : ℕ) → old ≤ bound → Allowed old max → max ≤ bound)
      → get_elem? s.tasks i ≡ some (requester (RequestPc.starting (StartPc.awaiting k)))
      → get_elem? s.mem.released k ≡ some false
      → All (Spares k) (erase_at s.tasks i)
      → After Allowed k (cancel i s) t
      → (get_elem? t.mem.released k ≡ some false)
        × (t.mem.active_count ≡ total live (erase_at t.mem.released k) + total holds t.tasks + 1)
  unfolding cancel
  cancel_leaks s t i k v within at live_k others a =
      let lost = After-Lost a (live_k, All-replace (Spares k) s.tasks i _ others tt) in
      let kept = After-Inv within a (cancel-Inv s i k at v) in
      (lost.0, omega (arith, kept.slots.counted, total-split live t.mem.released k false lost.0))
