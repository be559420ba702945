-- ===== src/Manager/Spec/Refines.antt =====
-- The tasks of src/queue.rs, interleaved in any order, keep what the specification promises.
use titan_rust_client.Base.{
  ℕ, ◌≤◌, ◌≡◌, refl, sym, ◌≢◌, ◌⊎◌, inl, inr, List, [], ◌∷◌, ◌++◌, arith, u32_max,
}
use mathlib.Core.List.{append_assoc}
use titan_rust_client.Notify.{Notify}
use titan_rust_client.Manager.Weights.{holds, drives}
use titan_rust_client.Manager.Slots.{Fits}
use titan_rust_client.Manager.Spec.Held.{held, all_held}
use titan_rust_client.Manager.Spec.{
  Event, Office, Move, event, silent, arrives, admits, walks_in, leaves,
}
use titan_rust_client.Manager.{
  StreamManager, QueuedRequest, Env, Task, RequestPc, WorkerPc, EndPc, requester, worker, ender,
  step, start_step, request_step, worker_step, end_step, free_slot,
}

module _ {N : Notify} {R : Type 0} where
  -- What one task makes of the line that starts with what it holds.
  abbrev pub office : StreamManager N R → List (QueuedRequest R) → Office R
  office m in_hand = record { taken = m.active_count; line = in_hand ++ m.queue }

  -- A slot that the task gives back is counted.
  abbrev Sound : ℕ → StreamManager N R → Task R → Type 0
  Sound bound m p =
      Fits bound p × (holds p ≤ m.active_count) × (m.active_count ≤ bound) × (bound ≤ u32_max)

  -- A caller or an ender holds no request.
  request_step-Move :
      (bound : ℕ) (e : Env) (m : StreamManager N R) (p : RequestPc R)
      → Sound bound m (requester p)
      → let (m', p', new_tasks) = request_step e m p in
        Move bound (event m (requester p)) (office m []) (office m' [])
        × (held (requester p') ≡ [])
        × (all_held new_tasks ≡ [])
  unfolding request_step event start_step free_slot
  request_step-Move bound e m p v = ground arith

  worker_step-Move :
      (bound : ℕ) (e : Env) (m : StreamManager N R) (p : WorkerPc R)
      → Sound bound m (worker p)
      → let (m', p', new_tasks) = worker_step e m p in
        Move bound (event m (worker p)) (office m (held (worker p))) (office m' (held (worker p')))
        × ((drives (worker p) ≡ 1)
            ⊎ ((event m (worker p) ≡ silent) × (held (worker p) ≡ []) × (held (worker p') ≡ [])))
        × (all_held new_tasks ≡ [])
  unfolding worker_step event start_step free_slot
  worker_step-Move bound e m p v = ground arith

  end_step-Move :
      (bound : ℕ) (m : StreamManager N R) (p : EndPc)
      → Sound bound m (ender p)
      → let (m', p') = end_step m p in Move bound (event m (ender p)) (office m []) (office m' [])
  unfolding end_step event free_slot
  end_step-Move bound m p v = ground arith

  not_admits :
      (m : StreamManager N R) (p : RequestPc R) (q : QueuedRequest R)
      → event m (requester p) ≢ admits q
  unfolding event
  not_admits m p q = ground arith

  end_not_admits :
      (m : StreamManager N R) (p : EndPc) (q : QueuedRequest R) → event m (ender p) ≢ admits q
  unfolding event
  end_not_admits m p q = ground arith

  -- One step of any task. The line is that of the task's own hands; either the task drives the queue, or
  -- it holds nothing and lets nobody in.
  pub step-Move :
      (bound : ℕ) (e : Env) (m : StreamManager N R) (p : Task R)
      → Sound bound m p
      → let (m', p', new_tasks) = step e m p in
        Move bound (event m p) (office m (held p)) (office m' (held p'))
        × ((drives p ≡ 1)
            ⊎ (((q : QueuedRequest R) → event m p ≢ admits q) × (held p ≡ []) × (held p' ≡ [])))
        × (all_held new_tasks ≡ [])
  unfolding step
  step-Move bound e m (requester p) v =
      let (move, empty, new) = request_step-Move bound e m p v in
      (rw empty move, inr (not_admits m p, refl, empty), new)
  step-Move bound e m (worker p) v =
      let (move, side, new) = worker_step-Move bound e m p v in
      (
        move,
        elim side [ inl d ↦ inl d | inr (s, before, after) ↦ inr (λ q x. cc, before, after) ],
        new,
      )
  step-Move bound e m (ender p) v =
      (end_step-Move bound m p v, inr (end_not_admits m p, refl, refl), refl)

  -- More requests in front change nothing, as long as nobody is let in.
  pub Move-behind :
      (bound : ℕ) (ev : Event R) (m m' : StreamManager N R) (front : List (QueuedRequest R))
      → ((q : QueuedRequest R) → ev ≢ admits q)
      → Move bound ev (office m []) (office m' [])
      → Move bound ev (office m front) (office m' front)
  Move-behind bound silent m m' front shut h = (h.0, cc)
  Move-behind bound (arrives q) m m' front shut h =
      (h.0, rw (h.1) (sym (append_assoc front m.queue (q ∷ []))))
  Move-behind bound (admits q) m m' front shut h = absurd (shut q refl)
  Move-behind bound walks_in m m' front shut h = (h.0, h.1, cc)
  Move-behind bound leaves m m' front shut h = (h.0, cc)
