-- ===== src/Manager/Spec.antt =====
-- What src/queue.rs promises, without its tasks and atomics: slots up to a bound, and a line of
-- requests that wait, served from the front.
pub mod Held
pub mod Refines
pub mod Account
pub mod Fifo
use titan_rust_client.Base.{ℕ, ◌+◌, ◌<◌, ◌≡◌, List, [], ◌∷◌, ◌++◌, if◌then◌else◌, ◌==◌}
use titan_rust_client.Notify.{Notify}
use titan_rust_client.Manager.System.{
  System, Step, Reach, run, request_stream, end_stream, retune, start, later,
}
use titan_rust_client.Manager.{
  StreamManager, QueuedRequest, Task, StartPc, RequestPc, WorkerPc, EndPc, requester, worker, ender,
}

pub data Event (R : Type 0) : Type 0 where
  silent : Event R
  arrives : QueuedRequest R → Event R
  admits : QueuedRequest R → Event R
  walks_in : Event R
  leaves : Event R

pub record Office (R : Type 0) : Type 0 where
  pub taken : ℕ
  pub line : List (QueuedRequest R)

-- What the office `a` may become by an event. A slot is taken only below the bound, and the line is
-- served from its front; a newcomer may take a free slot without joining the line.
abbrev pub Move : {R : Type 0} → ℕ → Event R → Office R → Office R → Type 0
Move bound silent a b = (b.taken ≡ a.taken) × (b.line ≡ a.line)
Move bound (arrives q) a b = (b.taken ≡ a.taken) × (b.line ≡ a.line ++ q ∷ [])
Move bound (admits q) a b = (a.taken < bound) × (b.taken ≡ a.taken + 1) × (a.line ≡ q ∷ b.line)
Move bound walks_in a b = (a.taken < bound) × (b.taken ≡ a.taken + 1) × (b.line ≡ a.line)
Move bound leaves a b = (a.taken ≡ b.taken + 1) × (b.line ≡ a.line)

-- What the next access of a task is to the outside.
pub event : {N : Notify} {R : Type 0} → StreamManager N R → Task R → Event R
event m (requester (RequestPc.push r)) = arrives (record { request = r; result_tx = m.next_tx })
event m (requester (RequestPc.claim r current)) =
    if m.active_count == current then walks_in else silent
event m (requester (RequestPc.starting StartPc.undo_sub)) = leaves
event m (worker (WorkerPc.popped current q)) =
    if m.active_count == current then admits q else silent
event m (worker (WorkerPc.starting _ StartPc.undo_sub)) = leaves
event m (ender EndPc.sub) = leaves
event m _ = silent

module _ {N : Notify} {R : Type 0} {Allowed : ℕ → ℕ → Type 0} where
  pub event_of : {s t : System N R} → Step N R Allowed s t → Event R
  unfolding event
  event_of {s} (run e i p at) = event s.mem p
  event_of (request_stream r) = silent
  event_of (end_stream k lt) = silent
  event_of (retune max a) = silent

  -- The events of a run, newest last.
  pub log : {max : ℕ} {s : System N R} → Reach N R Allowed max s → List (Event R)
  log start = []
  log (later r st) = log r ++ event_of st ∷ []

module _ {R : Type 0} where
  pub arrivals : List (Event R) → List (QueuedRequest R)
  arrivals [] = []
  arrivals (arrives q ∷ events) = q ∷ arrivals events
  arrivals (_ ∷ events) = arrivals events

  pub admissions : List (Event R) → List (QueuedRequest R)
  admissions [] = []
  admissions (admits q ∷ events) = q ∷ admissions events
  admissions (_ ∷ events) = admissions events
