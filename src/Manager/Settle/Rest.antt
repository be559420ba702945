-- ===== src/Manager/Settle/Rest.antt =====
-- Every schedule of the tasks of src/queue.rs ends, and where it ends no request is left behind.
use mathlib.Core.WellFounded.{Acc}
use titan_rust_client.Base.{
  ℕ, zero, suc, ◌<◌, ◌≤◌, ◌≡◌, ◌≢◌, ◌⊎◌, inl, inr, refl, List, [], ◌∷◌, arith, All, total,
  get_elem?, some, u32_max, true, Option-cases, Bool-cases,
}
use titan_rust_client.Base.Map.{lookup}
use titan_rust_client.Notify.{Notify}
use titan_rust_client.Manager.{
  StreamManager, Env, Task, step, requester, worker, ender, StartPc, RequestPc, WorkerPc, EndPc,
  opened, request_step, worker_step, start_step, end_step,
}
use titan_rust_client.Manager.Weights.{live}
use titan_rust_client.Manager.Live.{Lowers}
use titan_rust_client.Manager.Progress.{Quiet, one_worker, no_stranded_request}
use titan_rust_client.Manager.Settle.Runs.{
  Moves, moves, Runs, here, next, energy, distance, advance-nearer,
}
use titan_rust_client.Manager.System.{System, Reach, later, run}

abbrev answers : Env
answers = record { answer = opened; listening = true }

module _ {N : Notify} {R : Type 0} where
  -- A task either cannot move, or moves if the server answers.
  Quiet-or_moves : (m : StreamManager N R) (p : Task R) → Quiet m p ⊎ ((step answers m p).1 ≢ p)
  unfolding step request_step worker_step end_step start_step
  Quiet-or_moves m (requester (RequestPc.load_max r)) = inr (λ h. cc)
  Quiet-or_moves m (requester (RequestPc.load_active r max)) = inr (λ h. ground arith)
  Quiet-or_moves m (requester (RequestPc.claim r current)) = inr (λ h. ground arith)
  Quiet-or_moves m (requester (RequestPc.push r)) = inr (λ h. cc)
  Quiet-or_moves m (requester (RequestPc.pushed tx)) = inr (λ h. ground arith)
  Quiet-or_moves m (requester (RequestPc.spawning tx)) = inr (λ h. cc)
  Quiet-or_moves m (requester (RequestPc.await_result tx)) =
      elim (Option-cases (lookup tx m.replies)) [
        | inl e ↦ inl (λ env. ground arith)
        | inr (r, e) ↦ inr (λ h. ground arith)
      ]
  Quiet-or_moves m (requester (RequestPc.starting (StartPc.claimed r))) = inr (λ h. cc)
  Quiet-or_moves m (requester (RequestPc.starting (StartPc.awaiting k))) = inr (λ h. cc)
  Quiet-or_moves m (requester (RequestPc.starting (StartPc.undo k))) = inr (λ h. ground arith)
  Quiet-or_moves m (requester (RequestPc.starting StartPc.undo_sub)) = inr (λ h. cc)
  Quiet-or_moves m (requester (RequestPc.starting StartPc.undo_notify)) = inr (λ h. cc)
  Quiet-or_moves m (requester (RequestPc.starting (StartPc.returned r))) = inr (λ h. cc)
  Quiet-or_moves m (requester (RequestPc.finished r)) = inl (λ env. refl)
  Quiet-or_moves m (worker WorkerPc.top) = inr (λ h. cc)
  Quiet-or_moves m (worker (WorkerPc.load_active max)) = inr (λ h. ground arith)
  Quiet-or_moves m (worker WorkerPc.await_slot) = inr (λ h. ground arith)
  Quiet-or_moves m (worker WorkerPc.parked) = elim (Bool-cases (N.ready m.slot_available)) [
    | inl e ↦ inr (λ h. ground arith)
    | inr e ↦ inl (λ env. ground arith)
  ]
  Quiet-or_moves m (worker (WorkerPc.pop current)) = inr (λ h. ground arith)
  Quiet-or_moves m (worker (WorkerPc.popped current q)) = inr (λ h. ground arith)
  Quiet-or_moves m (worker (WorkerPc.requeue q)) = inr (λ h. cc)
  Quiet-or_moves m (worker (WorkerPc.starting tx (StartPc.claimed r))) = inr (λ h. cc)
  Quiet-or_moves m (worker (WorkerPc.starting tx (StartPc.awaiting k))) = inr (λ h. cc)
  Quiet-or_moves m (worker (WorkerPc.starting tx (StartPc.undo k))) = inr (λ h. ground arith)
  Quiet-or_moves m (worker (WorkerPc.starting tx StartPc.undo_sub)) = inr (λ h. cc)
  Quiet-or_moves m (worker (WorkerPc.starting tx StartPc.undo_notify)) = inr (λ h. cc)
  Quiet-or_moves m (worker (WorkerPc.starting tx (StartPc.returned r))) = inr (λ h. cc)
  Quiet-or_moves m (worker WorkerPc.store_idle) = inr (λ h. cc)
  Quiet-or_moves m (worker WorkerPc.idled) = inr (λ h. ground arith)
  Quiet-or_moves m (worker WorkerPc.reclaim) = inr (λ h. ground arith)
  Quiet-or_moves m (worker WorkerPc.exited) = inl (λ env. refl)
  Quiet-or_moves m (ender (EndPc.guard k)) = inr (λ h. ground arith)
  Quiet-or_moves m (ender EndPc.sub) = inr (λ h. cc)
  Quiet-or_moves m (ender EndPc.notify) = inr (λ h. cc)
  Quiet-or_moves m (ender EndPc.ended) = inl (λ env. refl)

  -- Either all tasks are quiet, or one of them can move.
  settled_or_moves :
      (m : StreamManager N R) (ts : List (Task R))
      → All (Quiet m) ts
        ⊎ ((i : ℕ) × (p : Task R) × (get_elem? ts i ≡ some p) × ((step answers m p).1 ≢ p))
  settled_or_moves m [] = inl tt
  settled_or_moves m (p ∷ ts) = elim (Quiet-or_moves m p) [
    | inr ne ↦ inr (0, p, refl, ne)
    | inl q ↦ elim (settled_or_moves m ts) [
      | inl qs ↦ inl (q, qs)
      | inr (i, p', at, ne) ↦ inr (suc i, p', at, ne)
    ]
  ]

-- No schedule goes on for ever from here: every row of moves comes to an end.
abbrev pub Ends : {N : Notify} {R : Type 0} → System N R → Type 0
Ends s = Acc (λ (t u : System _ _). Moves u t) s

module _ {N : Notify} {R : Type 0} {max : ℕ} (word : max ≤ u32_max) where
  Moves-Reach : {s t : System N R} → Moves s t → Reach N R Lowers max s → Reach N R Lowers max t
  Moves-Reach (moves e i p at ne) r = later r (run e i p at)

  Moves-nearer :
      {s t : System N R}
      → Moves s t
      → Reach N R Lowers max s
      → (energy t < energy s) ⊎ ((energy t ≤ energy s) × (distance t < distance s))
  Moves-nearer {s} (moves e i p at ne) r = advance-nearer s e i p at (one_worker word r).1 ne

  -- With less than `n` to spend and less than `d` to go.
  within :
      (n : ℕ)
      → ((s : System N R) → Reach N R Lowers max s → energy s < n → Ends s)
      → (d : ℕ) (s : System N R) → Reach N R Lowers max s
      → energy s < suc n
      → distance s < d
      → Ends s
  within n less zero s r spend go = absurd (omega arith)
  within n less (suc d) s r spend go = Acc.intro s (λ t mv. elim (Moves-nearer mv r) [
    | inl lt ↦ less t (Moves-Reach mv r) (omega arith)
    | inr (le, lt) ↦ within n less d t (Moves-Reach mv r) (omega arith) (omega arith)
  ])

  ends : (n : ℕ) (s : System N R) → Reach N R Lowers max s → energy s < n → Ends s
  ends zero s r h = absurd (omega arith)
  ends (suc n) s r h = within n (ends n) (suc (distance s)) s r h (omega arith)

  Runs-trans : {s t u : System N R} → Moves s t → Runs t u → Runs s u
  Runs-trans mv here = next here mv
  Runs-trans mv (next rs mv') = next (Runs-trans mv rs) mv'

  rests : {s : System N R} → Ends s → (t : System N R) × Runs s t × All (Quiet t.mem) t.tasks
  rests (Acc.intro s sub) = elim (settled_or_moves s.mem s.tasks) [
    | inl q ↦ (s, here, q)
    | inr (i, p, at, ne) ↦
        let mv = moves answers i p at ne in
        let (t, rs, q) = rests (sub _ mv) in (t, Runs-trans mv rs, q)
  ]

  Runs-Reach : {s t : System N R} → Runs s t → Reach N R Lowers max s → Reach N R Lowers max t
  Runs-Reach here r = r
  Runs-Reach (next rs mv) r = Moves-Reach mv (Runs-Reach rs r)

  -- From every state that calls, ends of streams and tasks can lead to while the limit is not raised, every
  -- schedule of the tasks and all answers of the server bring the tasks to rest after finitely many moves,
  -- if no further call or end of a stream begins; the tasks do reach such a state; and wherever they rest
  -- with a request in the queue, the limit is used up by streams that have not given their slot back.
  pub comes_to_rest :
      {s : System N R}
      → Reach N R Lowers max s
      → Ends s
        × ((t : System N R) × Runs s t × All (Quiet t.mem) t.tasks)
        × ((t : System N R)
            → Runs s t
            → All (Quiet t.mem) t.tasks
            → t.mem.queue ≢ []
            → t.mem.max_concurrent ≤ total live t.mem.released)
  comes_to_rest {s} r =
      let over : Ends s = ends (suc (energy s)) s r (omega arith) in
      (over, rests over, λ t rs q w. no_stranded_request word (Runs-Reach rs r) q w)
