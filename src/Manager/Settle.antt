-- ===== src/Manager/Settle.antt =====
-- Why the tasks of src/queue.rs come to rest: what a task may still do to the shared state, and how far it is
-- from that.
pub mod Steps
pub mod Runs
pub mod Rest
use titan_rust_client.Base.{
  ℕ, ◌+◌, ◌*◌, ◌<◌, ◌≤◌, ◌≡◌, ◌⊎◌, List, [], length, total, ◌==◌, if◌then◌else◌,
}
use titan_rust_client.Notify.{Notify}
use titan_rust_client.Manager.{
  StreamManager, Task, requester, worker, ender, StartPc, RequestPc, WorkerPc, claimed, awaiting,
  undo, undo_notify, returned, pushed, spawning, await_result, finished, load_max, load_active,
  claim, push, popped, requeue, guard, sub, notify, ended, pop, parked, await_slot, top, store_idle,
  idled, reclaim, exited,
}

module _ {R : Type 0} where
  -- How often the task may still push a request, take or give back a slot, wake somebody, start a task
  -- or reply.
  abbrev pub start_budget : StartPc R → ℕ
  start_budget undo_notify = 6
  start_budget (returned _) = 4
  start_budget _ = 7

  abbrev pub budget : Task R → ℕ
  budget (requester (RequestPc.starting p)) = start_budget p
  budget (requester (pushed _)) = 1
  budget (requester (spawning _)) = 1
  budget (requester (await_result _)) = 0
  budget (requester (finished _)) = 0
  budget (requester _) = 10
  budget (worker (WorkerPc.starting _ p)) = start_budget p
  budget (worker (popped _ _)) = 8
  budget (worker (requeue _)) = 8
  budget (worker _) = 0
  budget (ender (guard _)) = 3
  budget (ender sub) = 3
  budget (ender notify) = 2
  budget (ender ended) = 0

  -- A request that the worker has taken out of the queue and not yet started.
  abbrev pub carries : Task R → ℕ
  carries (worker (popped _ _)) = 1
  carries (worker (requeue _)) = 1
  carries _ = 0

  abbrev pub start_rank : StartPc R → ℕ
  start_rank (claimed _) = 4
  start_rank (awaiting _) = 3
  start_rank (undo _) = 2
  start_rank _ = 1

  -- How far the task is from the next such act or its end: `active` is the count of slots, `line` how many
  -- requests wait. A worker with an old count has a vain attempt before it, and so has one that has given
  -- its flag back while requests wait.
  abbrev pub rank : (active line : ℕ) → Task R → ℕ
  rank active line (requester (load_max _)) = 4
  rank active line (requester (RequestPc.load_active _ _)) = 3
  rank active line (requester (claim _ _)) = 2
  rank active line (requester (push _)) = 1
  rank active line (requester (pushed _)) = 3
  rank active line (requester (spawning _)) = 2
  rank active line (requester (await_result _)) = 1
  rank active line (requester (RequestPc.starting p)) = start_rank p
  rank active line (requester (finished _)) = 0
  rank active line (worker top) = 10
  rank active line (worker (WorkerPc.load_active _)) = 9
  rank active line (worker await_slot) = 8
  rank active line (worker parked) = 7
  rank active line (worker (pop current)) = 8 + (if current == active then 0 else 5)
  rank active line (worker (popped current _)) = 7 + (if current == active then 0 else 5)
  rank active line (worker (requeue _)) = 11
  rank active line (worker (WorkerPc.starting _ p)) = start_rank p
  rank active line (worker store_idle) = 7 + (if line == 0 then 0 else 7)
  rank active line (worker idled) = 6 + (if line == 0 then 0 else 7)
  rank active line (worker reclaim) = 12
  rank active line (worker exited) = 0
  rank active line (ender (guard _)) = 3
  rank active line (ender sub) = 2
  rank active line (ender notify) = 1
  rank active line (ender ended) = 0

module _ {N : Notify} {R : Type 0} where
  -- The budget of the shared state: wake-ups to come and requests in the queue.
  abbrev pub stock : StreamManager N R → ℕ
  stock m = N.wake_ups m.slot_available + 8 * length m.queue

  -- What a step does, with `others` requests carried by other tasks: nothing, or it spends, or it comes
  -- nearer and leaves alone what the ranks of other tasks depend on.
  abbrev pub Advances :
      (others : ℕ)
      → StreamManager N R
      → Task R
      → StreamManager N R
      → Task R
      → List (Task R)
      → Type 0
  Advances others m p m' p' new_tasks =
      (p' ≡ p)
      ⊎ (stock m' + budget p' + total budget new_tasks < stock m + budget p)
      ⊎ ((stock m' + budget p' ≤ stock m + budget p)
          × (new_tasks ≡ [])
          × (m'.active_count ≡ m.active_count)
          × (length m'.queue + carries p' ≡ length m.queue + carries p)
          × (rank m'.active_count (others + (length m'.queue + carries p')) p'
              < rank m.active_count (others + (length m.queue + carries p)) p))
