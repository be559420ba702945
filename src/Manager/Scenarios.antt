-- ===== src/Manager/Scenarios.antt =====
-- Runs of the model of src/queue.rs at concrete inputs.
use titan_rust_client.Base.{
  ℕ, ◌+◌, ◌≤◌, ◌<◌, ◌≡◌, refl, true, List, [], ◌∷◌, ◌++◌, arith, Option, some, none, total,
  get_elem?, length, false, erase_at,
}
use native.Mathlib.Decide.{dec_lt}
use titan_rust_client.Base.Map.{lookup}
use titan_rust_client.Sample.{permits}
use titan_rust_client.Manager.Weights.{holds, live, drives}
use titan_rust_client.Manager.Safety.{slots_accounted, free_slot_exact}
use titan_rust_client.Manager.Live.{Lowers}
use titan_rust_client.Manager.Progress.{one_worker, no_stranded_request}
use titan_rust_client.Manager.Order.{raised_limit_missed}
use titan_rust_client.Base.{◌≢◌, All}
use titan_rust_client.Manager.Progress.{Quiet}
use titan_rust_client.Manager.Settle.Runs.{Runs}
use titan_rust_client.Manager.Settle.Rest.{Ends, comes_to_rest}
use titan_rust_client.Manager.Spec.{Move, event_of, arrivals, admissions, log}
use titan_rust_client.Manager.Spec.Fifo.{view, waiting, refines_office, first_come_first_served}
use titan_rust_client.Manager.Cancel.{here, next, cancel, cancel_leaks}
use titan_rust_client.Manager.Wakeups.{flag}
use titan_rust_client.Manager.System.{
  System, Reach, start, later, run, request_stream, end_stream, init, Step,
}
use titan_rust_client.Manager.{
  Task, StreamManager, QueuedRequest, Env, StartPc, RequestPc, EndPc, ender, step, start_step,
  request_step, worker_step, end_step, create, opened, set_max_concurrent, free_slot, await_slot,
  parked, requester,
}

-- A reachable state with the steps that lead to it.
record Run (Allowed : ℕ → ℕ → Type 0) (max : ℕ) : Type 0 where
  last : System permits ℕ
  reach : Reach permits ℕ Allowed max last

data Act : Type 0 where
  call : ℕ → Act
  go : ℕ → Act
  close : ℕ → Act

abbrev accepts : Env
accepts = record { answer = opened; listening = true }

run_found :
    {Allowed : ℕ → ℕ → Type 0} {max : ℕ} (u : Run Allowed max) (i : ℕ) (found : Option (Task ℕ))
    → get_elem? u.last.tasks i ≡ found
    → Run Allowed max
run_found u i none e = u
run_found u i (some p) e = record { last = _; reach = later u.reach (run accepts i p e) }

perform : {Allowed : ℕ → ℕ → Type 0} {max : ℕ} → Run Allowed max → Act → Run Allowed max
perform u (call r) = record { last = _; reach = later u.reach (request_stream r) }
perform u (go i) = run_found u i (get_elem? u.last.tasks i) refl
perform u (close k) = elim (dec_lt k (length u.last.mem.released)) [
  | yes h ↦ record { last = _; reach = later u.reach (end_stream k h) }
  | no h ↦ u
]

replay : {Allowed : ℕ → ℕ → Type 0} {max : ℕ} → Run Allowed max → List Act → Run Allowed max
replay u [] = u
replay u (a ∷ acts) = replay (perform u a) acts

abbrev from_limit : (Allowed : ℕ → ℕ → Type 0) (max : ℕ) → Run Allowed max
from_limit Allowed max = record { last = init permits ℕ max; reach = start }

-- Under limit 1 the first caller gets its stream, the second waits in the queue, the worker is parked.
abbrev crowd : List Act
crowd =
    call 7
    ∷ go 0
    ∷ go 0
    ∷ go 0
    ∷ go 0
    ∷ go 0
    ∷ go 0
    ∷ call 8
    ∷ go 1
    ∷ go 1
    ∷ go 1
    ∷ go 1
    ∷ go 1
    ∷ go 2
    ∷ go 2
    ∷ go 2
    ∷ []

abbrev AtMostOne : ℕ → ℕ → Type 0
AtMostOne old new = new ≤ 1

crowded : Run Lowers 1
unfolding replay perform run_found step request_step worker_step start_step end_step create dec_lt
crowded = replay (from_limit Lowers 1) crowd

-- The stream ends: its ender has won the flag and is about to give the slot back.
closing : Run AtMostOne 1
unfolding replay perform run_found step request_step worker_step start_step end_step create dec_lt
closing = replay (from_limit AtMostOne 1) (crowd ++ close 0 ∷ go 3 ∷ [])

slots_accounted_example :
    (closing.last.mem.active_count ≤ 1)
    × (closing.last.mem.active_count
        ≡ total live closing.last.mem.released + total holds closing.last.tasks)
slots_accounted_example = slots_accounted (omega arith) (λ old new a. a) (omega arith) closing.reach

free_slot_exact_example :
    (free_slot closing.last.mem).active_count + 1 ≡ closing.last.mem.active_count
unfolding closing
free_slot_exact_example =
    free_slot_exact (omega arith) (λ old new a. a) (omega arith) closing.reach 3 (ender EndPc.sub)
      refl tt

one_worker_example :
    (total drives crowded.last.tasks ≡ flag crowded.last.mem.queue_worker_active)
    × (total drives crowded.last.tasks ≤ 1)
one_worker_example = one_worker (omega arith) crowded.reach

no_stranded_request_example : crowded.last.mem.max_concurrent ≤ total live crowded.last.mem.released
unfolding crowded step request_step worker_step lookup
no_stranded_request_example =
    no_stranded_request (omega arith) crowded.reach (λ e. refl, (λ e. refl, (λ e. refl, tt)))
      (λ h. cc)

abbrev order : ℕ → ℕ → QueuedRequest ℕ
order r tx = record { request = r; result_tx = tx }

-- One slot of two is taken, and two requests wait.
abbrev pair_waiting : StreamManager permits ℕ
pair_waiting = record (create {N = permits} {R = ℕ} 2) {
  active_count = 1;
  queue = order 8 0 ∷ order 9 1 ∷ [];
}

raised_limit_missed_example :
    let (m', p', _) = worker_step accepts (set_max_concurrent pair_waiting 3) await_slot in
    (p' ≡ parked) × (m'.active_count < m'.max_concurrent) × ((worker_step accepts m' p').1 ≡ parked)
unfolding create
raised_limit_missed_example =
    raised_limit_missed accepts accepts pair_waiting 3 refl refl (omega arith)

-- The first stream ends.
abbrev ended : System permits ℕ
ended = record (crowded.last) { tasks = crowded.last.tasks ++ ender (EndPc.guard 0) ∷ [] }

ends : Step permits ℕ Lowers crowded.last ended
unfolding crowded
ends = end_stream 0 (omega arith)

refines_office_example : Move 1 (event_of ends) (view crowded.last) (view ended)
refines_office_example = refines_office (omega arith) crowded.reach ends

first_come_first_served_example :
    arrivals (log crowded.reach) ≡ admissions (log crowded.reach) ++ waiting crowded.last
first_come_first_served_example = first_come_first_served (omega arith) crowded.reach

-- The only caller waits for the server, and another one comes after it has given up.
abbrev asking : System permits ℕ
asking = record {
  mem = record (create {N = permits} {R = ℕ} 2) { active_count = 1; released = false ∷ [] };
  tasks = requester (RequestPc.starting (StartPc.awaiting 0)) ∷ [];
}

cancel_leaks_example :
    let t : System permits ℕ = record (cancel 0 asking) {
      tasks = (cancel 0 asking).tasks ++ requester (RequestPc.load_max 9) ∷ [];
    } in
    (get_elem? t.mem.released 0 ≡ some false)
    × (t.mem.active_count ≡ total live (erase_at t.mem.released 0) + total holds t.tasks + 1)
unfolding create
cancel_leaks_example =
    cancel_leaks {bound = 2} {Allowed = Lowers} asking _ 0 0
      (record {
        slots = record {
          small = omega arith;
          limit = omega arith;
          capped = omega arith;
          counted = refl;
        };
        fits = (tt, tt);
      })
      (λ old max fits lower. omega (arith, fits, lower)) refl refl tt
      (next here (request_stream 9) tt)

comes_to_rest_example :
    Ends crowded.last
    × ((t : System permits ℕ) × Runs crowded.last t × All (Quiet t.mem) t.tasks)
    × ((t : System permits ℕ)
        → Runs crowded.last t
        → All (Quiet t.mem) t.tasks
        → t.mem.queue ≢ []
        → t.mem.max_concurrent ≤ total live t.mem.released)
comes_to_rest_example = comes_to_rest (omega arith) crowded.reach
