-- ===== src/Manager/Weights.antt =====
-- What each task holds: a claimed slot, the worker's flag, a wake-up that it still owes, and so on.
use titan_rust_client.Base.{ℕ, ◌≤◌, Bool, true, false, arith}
use titan_rust_client.Manager.{
  Task, requester, worker, ender, StartPc, RequestPc, WorkerPc, claimed, undo_sub, undo_notify,
  pushed, spawning, await_slot, parked, idled, reclaim, exited, sub, notify,
}

module _ {R : Type 0} where
  -- A slot that is counted in `active_count` and in no stream's flag.
  abbrev pub start_holds : StartPc R → ℕ
  start_holds (claimed _) = 1
  start_holds undo_sub = 1
  start_holds _ = 0

  abbrev pub holds : Task R → ℕ
  holds (requester (RequestPc.starting p)) = start_holds p
  holds (requester _) = 0
  holds (worker (WorkerPc.starting _ p)) = start_holds p
  holds (worker _) = 0
  holds (ender sub) = 1
  holds (ender _) = 0

  -- A slot that is free, with the call of `notify_one` still to come.
  abbrev pub start_owes : StartPc R → ℕ
  start_owes undo_notify = 1
  start_owes _ = 0

  abbrev pub owes : Task R → ℕ
  owes (requester (RequestPc.starting p)) = start_owes p
  owes (requester _) = 0
  owes (worker (WorkerPc.starting _ p)) = start_owes p
  owes (worker _) = 0
  owes (ender notify) = 1
  owes (ender _) = 0

  -- The flag `queue_worker_active` belongs to this task.
  abbrev pub drives : Task R → ℕ
  drives (requester (spawning _)) = 1
  drives (requester _) = 0
  drives (worker idled) = 0
  drives (worker reclaim) = 0
  drives (worker exited) = 0
  drives (worker _) = 1
  drives (ender _) = 0

  -- A worker that has found no slot free.
  abbrev pub blocked : Task R → ℕ
  blocked (worker await_slot) = 1
  blocked (worker parked) = 1
  blocked _ = 0

  -- A task that will still look whether the queue needs a worker.
  abbrev pub rescues : Task R → ℕ
  rescues (requester (pushed _)) = 1
  rescues (requester _) = 0
  rescues (worker idled) = 1
  rescues (worker reclaim) = 1
  rescues _ = 0

  pub blocked-le-drives : (p : Task R) → blocked p ≤ drives p
  blocked-le-drives (requester p) = ground arith
  blocked-le-drives (worker p) = ground arith
  blocked-le-drives (ender p) = ground arith

-- The flag of a stream that still has its slot.
abbrev pub live : Bool → ℕ
live true = 0
live false = 1
