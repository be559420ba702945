-- ===== src/Manager/Live.antt =====
-- Every reachable state of src/queue.rs has at most one worker, and none of its tasks is forgotten.
use titan_rust_client.Base.{
  ℕ, ◌+◌, ◌≤◌, ◌≡◌, refl, List, [], ◌∷◌, arith, All, All-append, All-set, All-map, All-get_elem?,
  total, total-le, total-append, total-split, total-set, get_elem?, set, erase_at, some, ◌++◌,
}
use titan_rust_client.Notify.{Notify}
use titan_rust_client.Manager.Weights.{holds, owes, drives, blocked, rescues, blocked-le-drives}
use titan_rust_client.Manager.Slots.{Fits}
use titan_rust_client.Manager.Wakeups.{Served, Recent, Rest, ServedAfter, step-Served}
use titan_rust_client.Manager.Safety.{Inv, advance-Inv, Step-Inv}
use titan_rust_client.Manager.System.{
  System, Step, run, request_stream, end_stream, retune, advance,
}
use titan_rust_client.Manager.{
  StreamManager, Env, Task, requester, worker, ender, step, set_max_concurrent,
}

-- The limit is never raised.
abbrev pub Lowers : ℕ → ℕ → Type 0
Lowers old new = new ≤ old

module _ {N : Notify} {R : Type 0} where
  pub record Live (bound : ℕ) (s : System N R) : Type 0 where
    pub base : Inv bound s
    pub served :
        Served s.mem
          (total drives s.tasks)
          (total blocked s.tasks)
          (total owes s.tasks)
          (total rescues s.tasks)
    pub recent : All (Recent s.mem) s.tasks

  Recent-mono :
      (m m' : StreamManager N R) (p : Task R)
      → m'.max_concurrent ≤ m.max_concurrent
      → Recent m p
      → Recent m' p
  Recent-mono m m' (requester p) h r = tt
  Recent-mono m m' (worker p) h r = ground arith
  Recent-mono m m' (ender p) h r = tt

  advance-Live :
      {bound : ℕ} (s : System N R) (e : Env) (i : ℕ) (p : Task R)
      → get_elem? s.tasks i ≡ some p
      → Live bound s
      → Live bound (advance s e i p)
  advance-Live {bound} s e i p at v = record {
    base = advance-Inv s e i p at v.base;
    served = ground (arith, after drives, after blocked, after owes, after rescues, kept.0);
    recent =
        All-append (Recent m') _ new_tasks (All-set (Recent m') s.tasks i p' others kept.1) kept.2;
  }
    where
      new : StreamManager N R × Task R × List (Task R)
      new = step e s.mem p

      m' : StreamManager N R
      m' = new.0

      p' : Task R
      p' = new.1

      new_tasks : List (Task R)
      new_tasks = new.2

      rest : Rest
      rest = record {
        drive = total drives (erase_at s.tasks i);
        block = total blocked (erase_at s.tasks i);
        owe = total owes (erase_at s.tasks i);
        rescue = total rescues (erase_at s.tasks i);
      }

      before : (w : Task R → ℕ) → total w s.tasks ≡ total w (erase_at s.tasks i) + w p
      before w = total-split w s.tasks i p at

      after :
          (w : Task R → ℕ)
          → total w (set s.tasks i p' ++ new_tasks)
            ≡ total w (erase_at s.tasks i) + w p' + total w new_tasks
      after w = rw (total-append w (set s.tasks i p') new_tasks, total-set w s.tasks i p p' at)

      kept : ServedAfter rest s.mem m' p' new_tasks
      kept =
          step-Served (total holds (erase_at s.tasks i)) rest
            (total-le blocked drives blocked-le-drives (erase_at s.tasks i)) e s.mem p
            (All-get_elem? (Fits bound) s.tasks i v.base.fits at)
            (All-get_elem? (Recent s.mem) s.tasks i v.recent at) (rw (← before holds) v.base.slots)
            (rw (← before drives, ← before blocked, ← before owes, ← before rescues) v.served)

      others : All (Recent m') s.tasks
      others =
          All-map (Recent m') (λ q. Recent-mono s.mem m' q (omega (arith, kept.3))) s.tasks v.recent

  lowered :
      {bound : ℕ} {s : System N R}
      → Live bound s
      → (max : ℕ) → Lowers s.mem.max_concurrent max
      → max ≤ bound
  lowered v max a = omega (arith, v.base.slots.limit)

  -- A task that begins holds nothing yet.
  begin-Live :
      {bound : ℕ} (s : System N R) (p : Task R)
      → (drives p ≡ 0) × (blocked p ≡ 0) × (owes p ≡ 0) × (rescues p ≡ 0)
      → Recent s.mem p
      → Inv bound (record s { tasks = s.tasks ++ p ∷ [] })
      → Live bound s
      → Live bound (record s { tasks = s.tasks ++ p ∷ [] })
  begin-Live s p zeros g b v = record {
    base = b;
    served = ground (arith, v.served, same drives, same blocked, same owes, same rescues);
    recent = All-append (Recent s.mem) s.tasks (p ∷ []) v.recent (g, tt);
  }
    where
      same : (w : Task R → ℕ) → total w (s.tasks ++ p ∷ []) ≡ total w s.tasks + w p
      same w = omega (arith, total-append w s.tasks (p ∷ []))

  pub Step-Live : {bound : ℕ} {s t : System N R} → Step N R Lowers s t → Live bound s → Live bound t
  unfolding set_max_concurrent
  Step-Live (run e i p at) v = advance-Live _ e i p at v
  Step-Live {s} (request_stream r) v =
      begin-Live s _ (refl, refl, refl, refl) tt
        (Step-Inv {Allowed = Lowers} (lowered v) (request_stream r) v.base) v
  Step-Live {s} (end_stream k lt) v =
      begin-Live s _ (refl, refl, refl, refl) tt
        (Step-Inv {Allowed = Lowers} (lowered v) (end_stream k lt) v.base) v
  Step-Live {s} (retune max a) v = record {
    base = Step-Inv {Allowed = Lowers} (lowered v) (retune max a) v.base;
    served = ground (arith, v.served, N.ready-notify_waiters s.mem.slot_available);
    recent =
        All-map (Recent (set_max_concurrent s.mem max))
          (λ q. Recent-mono s.mem (set_max_concurrent s.mem max) q a) s.tasks v.recent;
  }
