-- ===== src/Manager/Safety.antt =====
-- What holds of the slots of src/queue.rs in every reachable state.
use titan_rust_client.Base.{
  ℕ, ◌+◌, ◌≤◌, ◌≡◌, arith, All, All-append, All-set, All-get_elem?, total, total-append,
  total-split, total-set, get_elem?, set, erase_at, some, u32_max,
}
use titan_rust_client.Notify.{Notify}
use titan_rust_client.Manager.Weights.{holds, live}
use titan_rust_client.Manager.Slots.{Counted, Fits, step-Counted}
use titan_rust_client.Manager.System.{
  System, Step, Reach, run, request_stream, end_stream, retune, start, later, advance,
}
use titan_rust_client.Manager.{
  Env, Task, StartPc, RequestPc, WorkerPc, EndPc, requester, worker, ender, step, create, free_slot,
  set_max_concurrent,
}

-- A task that is about to give a slot back.
abbrev pub Frees : {R : Type 0} → Task R → Type 0
Frees (requester (RequestPc.starting StartPc.undo_sub)) = Unit {0}
Frees (worker (WorkerPc.starting _ StartPc.undo_sub)) = Unit {0}
Frees (ender EndPc.sub) = Unit {0}
Frees _ = ⊥

Frees-holds : {R : Type 0} (p : Task R) → Frees p → holds p ≡ 1
Frees-holds (requester p) f = ground arith
Frees-holds (worker p) f = ground arith
Frees-holds (ender p) f = ground arith

module _ {N : Notify} {R : Type 0} where
  pub record Inv (bound : ℕ) (s : System N R) : Type 0 where
    pub slots : Counted bound s.mem (total holds s.tasks)
    pub fits : All (Fits bound) s.tasks

  pub advance-Inv :
      {bound : ℕ} (s : System N R) (e : Env) (i : ℕ) (p : Task R)
      → get_elem? s.tasks i ≡ some p
      → Inv bound s
      → Inv bound (advance s e i p)
  advance-Inv {bound} s e i p at v =
      let (m', p', new_tasks) = step e s.mem p in
      let before : Counted bound s.mem (total holds (erase_at s.tasks i) + holds p) =
        rw (← total-split holds s.tasks i p at) v.slots in
      let kept =
        step-Counted e s.mem p (total holds (erase_at s.tasks i))
          (All-get_elem? (Fits bound) s.tasks i v.fits at) before in
      record {
        slots =
            rw (total-append holds (set s.tasks i p') new_tasks, total-set holds s.tasks i p p' at)
              kept.0;
        fits =
            All-append (Fits bound) _ new_tasks (All-set (Fits bound) s.tasks i p' v.fits kept.1)
              kept.2;
      }

  pub Step-Inv :
      {bound : ℕ} {Allowed : ℕ → ℕ → Type 0} {s t : System N R}
      → ((max : ℕ) → Allowed s.mem.max_concurrent max → max ≤ bound)
      → Step N R Allowed s t
      → Inv bound s
      → Inv bound t
  unfolding set_max_concurrent
  Step-Inv {s} within (run e i p at) v = advance-Inv s e i p at v
  Step-Inv {bound} {s} within (request_stream r) v = record {
    slots = rw (total-append holds) (ground (arith, v.slots));
    fits = All-append (Fits bound) s.tasks _ v.fits (tt, tt);
  }
  Step-Inv {bound} {s} within (end_stream k h) v = record {
    slots = rw (total-append holds) (ground (arith, v.slots));
    fits = All-append (Fits bound) s.tasks _ v.fits (tt, tt);
  }
  Step-Inv within (retune max a) v = record {
    slots = record {
      small = v.slots.small;
      limit = within max a;
      capped = v.slots.capped;
      counted = v.slots.counted;
    };
    fits = v.fits;
  }

module _ {N : Notify} {R : Type 0} {Allowed : ℕ → ℕ → Type 0} {bound max : ℕ}
    (word : bound ≤ u32_max) (within : (old new : ℕ) → Allowed old new → new ≤ bound)
    (first : max ≤ bound) where
  pub Reach-Inv : {s : System N R} → Reach N R Allowed max s → Inv bound s
  unfolding create
  Reach-Inv start = record { slots = omega arith; fits = tt }
  Reach-Inv (later r st) = Step-Inv (λ new a. within _ new a) st (Reach-Inv r)

  -- In every reachable state, whatever the interleaving: if no limit above `bound` is ever set, at
  -- most `bound` slots are counted, and the count is exactly the number of streams that have not
  -- given theirs back and of the tasks that hold one besides.
  pub slots_accounted :
      {s : System N R}
      → Reach N R Allowed max s
      → (s.mem.active_count ≤ bound)
        × (s.mem.active_count ≡ total live s.mem.released + total holds s.tasks)
  slots_accounted r = let v = Reach-Inv r in (v.slots.capped, v.slots.counted)

  -- In every reachable state a task that is about to run `fetch_sub` finds a slot to give back: the
  -- count falls by exactly one and never wraps below zero.
  pub free_slot_exact :
      {s : System N R}
      → Reach N R Allowed max s
      → (i : ℕ) (p : Task R) → get_elem? s.tasks i ≡ some p
      → Frees p
      → (free_slot s.mem).active_count + 1 ≡ s.mem.active_count
  unfolding free_slot
  free_slot_exact {s} r i p at f = omega (
    arith,
    (Reach-Inv r).slots.counted,
    (Reach-Inv r).slots.capped,
    total-split holds s.tasks i p at,
    Frees-holds p f,
  )
