-- ===== src/Manager/Spec/Held.antt =====
-- The requests that tasks of src/queue.rs have in their hands.
use titan_rust_client.Base.{
  ℕ, zero, suc, ◌≡◌, refl, List, [], ◌∷◌, ◌++◌, arith, some, total, get_elem?, set, erase_at,
}
use mathlib.Core.List.{append-nil}
use titan_rust_client.Manager.Weights.{drives}
use titan_rust_client.Manager.{QueuedRequest, Task, WorkerPc, worker, requester, ender}

module _ {R : Type 0} where
  abbrev pub held : Task R → List (QueuedRequest R)
  held (worker (WorkerPc.popped _ q)) = q ∷ []
  held (worker (WorkerPc.requeue q)) = q ∷ []
  held _ = []

  abbrev pub all_held : List (Task R) → List (QueuedRequest R)
  all_held [] = []
  all_held (p ∷ ts) = held p ++ all_held ts

  pub all_held-append :
      (ts us : List (Task R)) → all_held us ≡ [] → all_held (ts ++ us) ≡ all_held ts
  all_held-append [] us e = e
  all_held-append (p ∷ ts) us e = rw (all_held-append ts us e) refl

  -- Only the worker holds a request.
  pub held-drives : (p : Task R) → drives p ≡ 0 → held p ≡ []
  held-drives (requester p) e = ground arith
  held-drives (worker p) e = ground arith
  held-drives (ender p) e = ground arith

  pub all_held-idle : (ts : List (Task R)) → total drives ts ≡ 0 → all_held ts ≡ []
  all_held-idle [] e = refl
  all_held-idle (p ∷ ts) e =
      rw (held-drives p (omega (arith, e))) (all_held-idle ts (omega (arith, e)))

  -- Where no other task drives the queue, the line starts with what task `i` holds.
  pub all_held-set :
      (ts : List (Task R)) (i : ℕ) (p p' : Task R)
      → get_elem? ts i ≡ some p
      → total drives (erase_at ts i) ≡ 0
      → all_held (set ts i p') ≡ held p'
  all_held-set [] i p p' at e = ground arith
  all_held-set (x ∷ ts) zero p p' at e = rw (all_held-idle ts e) (append-nil (held p'))
  all_held-set (x ∷ ts) (suc i) p p' at e =
      rw (held-drives x (omega (arith, e))) (all_held-set ts i p p' at (omega (arith, e)))

  -- A task that holds nothing before and after leaves the line alone.
  pub all_held-same :
      (ts : List (Task R)) (i : ℕ) (p p' : Task R)
      → get_elem? ts i ≡ some p
      → held p ≡ []
      → held p' ≡ []
      → all_held (set ts i p') ≡ all_held ts
  all_held-same [] i p p' at e e' = ground arith
  all_held-same (x ∷ ts) zero p p' at e e' =
      let same : x ≡ p = ground arith in rw (same, e, e') refl
  all_held-same (x ∷ ts) (suc i) p p' at e e' = rw (all_held-same ts i p p' at e e') refl

  pub all_held-one :
      (ts : List (Task R)) (i : ℕ) (p : Task R)
      → get_elem? ts i ≡ some p
      → total drives (erase_at ts i) ≡ 0
      → all_held ts ≡ held p
  all_held-one [] i p at e = ground arith
  all_held-one (x ∷ ts) zero p at e =
      let same : x ≡ p = ground arith in rw (same, all_held-idle ts e) (append-nil (held p))
  all_held-one (x ∷ ts) (suc i) p at e =
      rw (held-drives x (omega (arith, e))) (all_held-one ts i p at (omega (arith, e)))
