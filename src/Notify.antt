-- ===== src/Notify.antt =====
-- `tokio::sync::Notify`, the part of another crate that src/queue.rs waits on, for one waiting task:
-- its operations, and what its documentation says of them.
use titan_rust_client.Base.{ℕ, ◌+◌, ◌<◌, ◌≤◌, ◌≡◌, Bool, true, false}

pub record Notify : Type 1 where
  pub State : Type 0
  pub new : State
  pub notify_one : State → State
  pub notify_waiters : State → State
  -- Whether `notified().await` completes now, and the state when it has.
  pub ready : State → Bool
  pub consume : State → State
  -- A task that has begun to wait.
  pub register : State → State
  pub waiting : State → Bool
  -- "If no task is waiting, a permit is stored": the next wait completes.
  pub ready-notify_one : (s : State) → ready (notify_one s) ≡ true
  pub ready-notify_waiters : (s : State) → ready s ≡ true → ready (notify_waiters s) ≡ true
  pub ready-register : (s : State) → ready s ≡ false → ready (register s) ≡ false
  -- "Unlike with `notify_one`, no permit is stored": it wakes only who already waits.
  pub ready-notify_waiters_idle :
      (s : State) → ready s ≡ false → waiting s ≡ false → ready (notify_waiters s) ≡ false
  -- How many waits one after the other complete with no further notice: each takes one, `notify_one` adds
  -- at most one, and a task that begins to wait adds none.
  pub wake_ups : State → ℕ
  pub wake_ups-consume : (s : State) → ready s ≡ true → wake_ups (consume s) < wake_ups s
  pub wake_ups-notify_one : (s : State) → wake_ups (notify_one s) ≤ wake_ups s + 1
  pub wake_ups-register : (s : State) → wake_ups (register s) ≤ wake_ups s
  -- A fresh `Notify` has no permit and nobody waits on it.
  pub new_idle : (ready new ≡ false) × (waiting new ≡ false)
