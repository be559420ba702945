-- ===== src/Manager.antt =====
-- src/queue.rs: the shared state of `StreamManager`, and its tasks one atomic access at a time.
-- A task is a value that says where its code stands; `step` makes its next access. Each load,
-- store, `compare_exchange` or `fetch_sub`, each section under the queue's lock, and each call of
-- `Notify` is one step. What the server answers, and whether a caller still listens, is an `Env`.
pub mod System
pub mod Weights
pub mod Slots
pub mod Safety
pub mod Wakeups
pub mod Live
pub mod Progress
pub mod Order
pub mod Spec
pub mod Settle
pub mod Cancel
mod Scenarios
use titan_rust_client.Base.{
  ℕ, ◌+◌, Bool, true, false, List, [], ◌∷◌, ◌++◌, Option, none, some, ltb, leb, ◌==◌, if◌then◌else◌,
  u32_succ, u32_pred, get_elem?, set, length,
}
use titan_rust_client.Base.Map.{Map, lookup}
use titan_rust_client.Notify.{Notify}

-- `QueuedRequest`: `result_tx` is the number of its oneshot channel.
pub record QueuedRequest (R : Type 0) : Type 0 where
  pub request : R
  pub result_tx : ℕ

-- The result of `start_stream_internal`: a stream, named by the place of its `slot_released` flag.
pub data Reply : Type 0 where
  stream : (cell : ℕ) → Reply
  failure : Reply

-- `StreamManager`, the `slot_released` flags of the streams that it started, and what was sent on
-- the oneshot channels (`next_tx` of them so far).
pub record StreamManager (N : Notify) (R : Type 0) : Type 0 where
  pub max_concurrent : ℕ
  pub active_count : ℕ
  pub queue : List (QueuedRequest R)
  pub slot_available : N.State
  pub queue_worker_active : Bool
  pub released : List Bool
  pub next_tx : ℕ
  pub replies : Map Reply

-- The server's answer to `NewSwapQuoteStream`, as far as `start_stream_internal` tells it apart.
pub data Answer : Type 0 where
  opened missing_stream failed : Answer

pub record Env : Type 0 where
  pub answer : Answer
  pub listening : Bool

-- Inside `start_stream_internal`.
pub data StartPc (R : Type 0) : Type 0 where
  claimed : R → StartPc R
  awaiting : (cell : ℕ) → StartPc R
  undo : (cell : ℕ) → StartPc R
  undo_sub : StartPc R
  undo_notify : StartPc R
  returned : Reply → StartPc R

-- Inside `request_stream`.
pub data RequestPc (R : Type 0) : Type 0 where
  load_max : R → RequestPc R
  load_active : R → (max : ℕ) → RequestPc R
  claim : R → (current : ℕ) → RequestPc R
  push : R → RequestPc R
  pushed : (tx : ℕ) → RequestPc R
  spawning : (tx : ℕ) → RequestPc R
  await_result : (tx : ℕ) → RequestPc R
  starting : StartPc R → RequestPc R
  finished : Reply → RequestPc R

-- Inside `process_queue`; from `idled` on the worker has given its flag back.
pub data WorkerPc (R : Type 0) : Type 0 where
  top : WorkerPc R
  load_active : (max : ℕ) → WorkerPc R
  await_slot : WorkerPc R
  parked : WorkerPc R
  pop : (current : ℕ) → WorkerPc R
  popped : (current : ℕ) → QueuedRequest R → WorkerPc R
  requeue : QueuedRequest R → WorkerPc R
  starting : (tx : ℕ) → StartPc R → WorkerPc R
  store_idle : WorkerPc R
  idled : WorkerPc R
  reclaim : WorkerPc R
  exited : WorkerPc R

-- Inside a path that ends a stream: `on_end`, `QuoteStream::stop` or its `drop`.
pub data EndPc : Type 0 where
  guard : (cell : ℕ) → EndPc
  sub : EndPc
  notify : EndPc
  ended : EndPc

pub data Task (R : Type 0) : Type 0 where
  requester : RequestPc R → Task R
  worker : WorkerPc R → Task R
  ender : EndPc → Task R

-- `compare_exchange(false, true)` on the flag of a stream: the flags after it, if it won.
abbrev pub try_release : List Bool → ℕ → Option (List Bool)
try_release flags k = elim (get_elem? flags k) [ some false ↦ some (set flags k true) | _ ↦ none ]

-- What becomes of a result that no caller waits for: a stream is dropped, which ends it.
abbrev pub discard : (R : Type 0) → Reply → List (Task R)
discard R (stream k) = ender (guard k) ∷ []
discard R failure = []

module _ {N : Notify} {R : Type 0} where
  open N use {new, notify_one, notify_waiters, ready, register, consume}

  -- `StreamManager::new`.
  unfoldable pub create : ℕ → StreamManager N R
  create max = record {
    max_concurrent = max;
    active_count = 0;
    queue = [];
    slot_available = new;
    queue_worker_active = false;
    released = [];
    next_tx = 0;
    replies = [];
  }

  unfoldable pub set_max_concurrent : StreamManager N R → ℕ → StreamManager N R
  set_max_concurrent m max = record m {
    max_concurrent = max;
    slot_available = notify_waiters m.slot_available;
  }

  pub queue_len : StreamManager N R → ℕ
  queue_len m = length m.queue

  unfoldable pub free_slot : StreamManager N R → StreamManager N R
  free_slot m = record m { active_count = u32_pred m.active_count }

  unfoldable pub wake_one : StreamManager N R → StreamManager N R
  wake_one m = record m { slot_available = notify_one m.slot_available }

  -- `stream_ended`: its two accesses, one after the other.
  unfoldable pub stream_ended : StreamManager N R → StreamManager N R
  unfolding free_slot wake_one
  stream_ended m = wake_one (free_slot m)

  unfoldable pub start_step : Env → StreamManager N R → StartPc R → StreamManager N R × StartPc R
  unfolding free_slot wake_one
  start_step e m (claimed r) =
      (record m { released = m.released ++ false ∷ [] }, awaiting (length m.released))
  start_step e m (awaiting k) = (
    m,
    elim e.answer [ opened ↦ returned (stream k) | missing_stream ↦ undo k | failed ↦ undo k ],
  )
  start_step e m (undo k) = elim (try_release m.released k) [
    | some flags ↦ (record m { released = flags }, undo_sub)
    | none ↦ (m, returned failure)
  ]
  start_step e m undo_sub = (free_slot m, undo_notify)
  start_step e m undo_notify = (wake_one m, returned failure)
  start_step e m (returned r) = (m, returned r)

  pub request_step :
      Env → StreamManager N R → RequestPc R → StreamManager N R × RequestPc R × List (Task R)
  request_step e m (load_max r) = (m, load_active r m.max_concurrent, [])
  request_step e m (load_active r max) =
      (m, if ltb m.active_count max then claim r m.active_count else push r, [])
  request_step e m (claim r current) =
      if m.active_count == current
      then (record m { active_count = u32_succ current }, starting (claimed r), [])
      else (m, push r, [])
  request_step e m (push r) = (
    record m {
      queue = m.queue ++ record { request = r; result_tx = m.next_tx } ∷ [];
      next_tx = m.next_tx + 1;
    },
    pushed m.next_tx,
    [],
  )
  request_step e m (pushed tx) =
      if m.queue_worker_active
      then (m, await_result tx, [])
      else (record m { queue_worker_active = true }, spawning tx, [])
  request_step e m (spawning tx) = (m, await_result tx, worker top ∷ [])
  request_step e m (await_result tx) =
      (m, elim (lookup tx m.replies) [ none ↦ await_result tx | some r ↦ finished r ], [])
  request_step e m (starting (returned r)) = (m, finished r, [])
  request_step e m (starting p) = ((start_step e m p).0, starting (start_step e m p).1, [])
  request_step e m (finished r) = (m, finished r, [])

  pub worker_step :
      Env → StreamManager N R → WorkerPc R → StreamManager N R × WorkerPc R × List (Task R)
  worker_step e m top = (m, load_active m.max_concurrent, [])
  worker_step e m (load_active max) =
      (m, if leb max m.active_count then await_slot else pop m.active_count, [])
  worker_step e m await_slot =
      if ready m.slot_available
      then (record m { slot_available = consume m.slot_available }, top, [])
      else (record m { slot_available = register m.slot_available }, parked, [])
  worker_step e m parked =
      if ready m.slot_available
      then (record m { slot_available = consume m.slot_available }, top, [])
      else (m, parked, [])
  worker_step e m (pop current) = elim m.queue [
    | [] ↦ (m, store_idle, [])
    | q ∷ rest ↦ (record m { queue = rest }, popped current q, [])
  ]
  worker_step e m (popped current q) =
      if m.active_count == current
      then (
        record m { active_count = u32_succ current },
        starting q.result_tx (claimed q.request),
        [],
      )
      else (m, requeue q, [])
  worker_step e m (requeue q) = (record m { queue = q ∷ m.queue }, top, [])
  worker_step e m (starting tx (returned r)) =
      if e.listening
      then (record m { replies = (tx, r) ∷ m.replies }, top, [])
      else (m, top, discard R r)
  worker_step e m (starting tx p) = ((start_step e m p).0, starting tx (start_step e m p).1, [])
  worker_step e m store_idle = (record m { queue_worker_active = false }, idled, [])
  worker_step e m idled = elim m.queue [ [] ↦ (m, exited, []) | q ∷ rest ↦ (m, reclaim, []) ]
  worker_step e m reclaim =
      if m.queue_worker_active
      then (m, exited, [])
      else (record m { queue_worker_active = true }, top, [])
  worker_step e m exited = (m, exited, [])

  unfoldable pub end_step : StreamManager N R → EndPc → StreamManager N R × EndPc
  unfolding free_slot wake_one
  end_step m (guard k) = elim (try_release m.released k) [
    | some flags ↦ (record m { released = flags }, sub)
    | none ↦ (m, ended)
  ]
  end_step m sub = (free_slot m, notify)
  end_step m notify = (wake_one m, ended)
  end_step m ended = (m, ended)

  pub step : Env → StreamManager N R → Task R → StreamManager N R × Task R × List (Task R)
  step e m (requester p) =
      let (m', p', new_tasks) = request_step e m p in (m', requester p', new_tasks)
  step e m (worker p) = let (m', p', new_tasks) = worker_step e m p in (m', worker p', new_tasks)
  step e m (ender p) = let (m', p') = end_step m p in (m', ender p', [])
