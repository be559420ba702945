-- ===== src/Manager/Spec/Fifo.antt =====
-- Runs of src/queue.rs against the specification: refinement, and the order of service.
use titan_rust_client.Base.{
  ℕ, ◌≤◌, ◌≡◌, refl, subst, ap, inl, inr, List, [], ◌++◌, arith, some, total, total-split,
  get_elem?, set, erase_at, u32_max, All-get_elem?,
}
use titan_rust_client.Notify.{Notify}
use titan_rust_client.Manager.Weights.{holds, drives}
use titan_rust_client.Manager.Slots.{Fits}
use titan_rust_client.Manager.Live.{Live, Lowers}
use titan_rust_client.Manager.Progress.{Reach-Live}
use titan_rust_client.Manager.System.{
  System, Step, Reach, run, request_stream, end_stream, retune, start, later, advance,
}
use titan_rust_client.Manager.Spec.Held.{
  held, all_held, all_held-append, all_held-set, all_held-same, all_held-one,
}
use titan_rust_client.Manager.Spec.Account.{account-Move}
use titan_rust_client.Manager.Spec.Refines.{office, step-Move, Move-behind}
use titan_rust_client.Manager.Spec.{Office, Move, event, event_of, log, arrivals, admissions}
use titan_rust_client.Manager.{QueuedRequest, Env, Task, step, set_max_concurrent, create}

module _ {N : Notify} {R : Type 0} where
  -- All requests that wait, first in line first.
  pub waiting : System N R → List (QueuedRequest R)
  waiting s = all_held s.tasks ++ s.mem.queue

  pub view : System N R → Office R
  unfolding waiting
  view s = record { taken = s.mem.active_count; line = waiting s }

  advance-Move :
      {bound : ℕ} (s : System N R) (e : Env) (i : ℕ) (p : Task R)
      → get_elem? s.tasks i ≡ some p
      → bound ≤ u32_max
      → Live bound s
      → Move bound (event s.mem p) (view s) (view (advance s e i p))
  unfolding view waiting
  advance-Move {bound} s e i p at word v =
      let (m', p', new_tasks) = step e s.mem p in
      let sound : holds p ≤ s.mem.active_count =
        omega (arith, total-split holds s.tasks i p at, v.base.slots.counted) in
      let (move, side, idle) =
        step-Move bound e s.mem p
          (All-get_elem? (Fits bound) s.tasks i v.base.fits at, sound, v.base.slots.capped, word) in
      elim side [
        | inl alone ↦
            let others : total drives (erase_at s.tasks i) ≡ 0 =
              ground (arith, v.served, total-split drives s.tasks i p at) in
            rw
              (
                all_held-append (set s.tasks i p') new_tasks idle,
                all_held-set s.tasks i p p' at others,
                all_held-one s.tasks i p at others,
              )
              move
        | inr (shut, before, after) ↦
            rw
              (
                all_held-append (set s.tasks i p') new_tasks idle,
                all_held-same s.tasks i p p' at before after,
              )
              (Move-behind bound (event s.mem p) s.mem m' (all_held s.tasks) shut (
                subst (λ h. Move bound (event s.mem p) (office s.mem []) (office m' h)) after
                  (subst (λ h. Move bound (event s.mem p) (office s.mem h) (office m' (held p')))
                    before move)))
      ]

module _ {N : Notify} {R : Type 0} {max : ℕ} (word : max ≤ u32_max) where
  -- The tasks of the manager refine the specification: as long as the limit is not raised, each step of
  -- each task, of the callers and of the streams that end is the move of the office that its event
  -- names. So a slot is taken only while fewer are taken than the limit that the run started with, and the
  -- line is served from its front only.
  pub refines_office :
      {s t : System N R}
      → Reach N R Lowers max s
      → (st : Step N R Lowers s t) → Move max (event_of st) (view s) (view t)
  unfolding event_of view waiting set_max_concurrent
  refines_office {s} r (run e i p at) = advance-Move s e i p at word (Reach-Live word r)
  refines_office {s} r (request_stream x) =
      (refl, ap (λ h. h ++ s.mem.queue) (all_held-append s.tasks _ refl))
  refines_office {s} r (end_stream k lt) =
      (refl, ap (λ h. h ++ s.mem.queue) (all_held-append s.tasks _ refl))
  refines_office r (retune n a) = (refl, refl)

  -- First come, first served: in every run, as long as the limit is not raised, the requests that were
  -- ever put in line are, in the order of their arrival, those that were given a slot and then those that
  -- still wait; none is lost, doubled or overtaken by a later one.
  pub first_come_first_served :
      {s : System N R} (r : Reach N R Lowers max s)
      → arrivals (log r) ≡ admissions (log r) ++ waiting s
  unfolding log create waiting arrivals admissions view
  first_come_first_served start = refl
  first_come_first_served (later {s} {t} r st) =
      account-Move max (event_of st) (log r) (view s) (view t) (refines_office r st)
        (first_come_first_served r)
