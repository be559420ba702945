-- ===== src/Manager/Settle/Runs.antt =====
-- The tasks of src/queue.rs come to rest, whatever the scheduling and the server's answers.
use titan_rust_client.Base.{
  ℕ, ◌+◌, ◌<◌, ◌≤◌, ◌≡◌, ◌≢◌, ◌⊎◌, inl, inr, List, [], ◌++◌, arith, total, total-append,
  total-split, total-set, get_elem?, some, length, set, erase_at, total-le, ap,
}
use titan_rust_client.Notify.{Notify}
use titan_rust_client.Manager.{StreamManager, Env, Task, step, requester, worker, ender}
use titan_rust_client.Manager.Weights.{drives}
use titan_rust_client.Manager.Settle.{budget, carries, rank, stock}
use titan_rust_client.Manager.Settle.Steps.{step-Advances}
use titan_rust_client.Manager.System.{System, advance}

carries-le-drives : {R : Type 0} (p : Task R) → carries p ≤ drives p
carries-le-drives (requester p) = ground arith
carries-le-drives (worker p) = ground arith
carries-le-drives (ender p) = ground arith

-- A task makes a step that takes it further.
pub data Moves {N : Notify} {R : Type 0} (s : System N R) : System N R → Type 0 where
  moves :
      (e : Env) (i : ℕ) (p : Task R)
      → get_elem? s.tasks i ≡ some p
      → (step e s.mem p).1 ≢ p
      → Moves s (advance s e i p)

-- Some steps, one after the other.
pub data Runs {N : Notify} {R : Type 0} (s : System N R) : System N R → Type 0 where
  here : Runs s s
  next : {t u : System N R} → Runs s t → Moves t u → Runs s u

module _ {N : Notify} {R : Type 0} where
  pub energy : System N R → ℕ
  energy s = stock s.mem + total budget s.tasks

  pub line : System N R → ℕ
  line s = total carries s.tasks + length s.mem.queue

  pub distance : System N R → ℕ
  unfolding line
  distance s = total (rank s.mem.active_count (line s)) s.tasks

  pub advance-nearer :
      (s : System N R) (e : Env) (i : ℕ) (p : Task R)
      → get_elem? s.tasks i ≡ some p
      → total drives s.tasks ≤ 1
      → (step e s.mem p).1 ≢ p
      → let t = advance s e i p in
        (energy t < energy s) ⊎ ((energy t ≤ energy s) × (distance t < distance s))
  unfolding energy distance line
  advance-nearer s e i p at one ne =
      elim (step-Advances (total carries rest) e s.mem p
        (omega (arith, before drives, total-le carries drives carries-le-drives rest, one))) [
          | inl same ↦ absurd (ne same)
          | inr (inl spent) ↦ inl (omega (arith, spent, before budget, after budget))
          | inr (inr (kept, none_new, same_active, same_line, nearer)) ↦ inr (
            omega (arith, ap (total budget) none_new, kept, before budget, after budget),
            omega (
              arith,
              ap (λ a. total (rank a (line (advance s e i p))) (advance s e i p).tasks) same_active,
              ap (λ l. total (rank s.mem.active_count l) (advance s e i p).tasks)
                  (at_level same_line none_new),
              ap (λ l. total (rank s.mem.active_count l) s.tasks) level,
              ap (λ a. rank a (total carries rest + (length new.0.queue + carries new.1)) new.1)
                  same_active,
              ap (λ l. rank s.mem.active_count (total carries rest + l) new.1) same_line,
              ap (total (rank s.mem.active_count here_line)) none_new,
              before (rank s.mem.active_count here_line),
              after (rank s.mem.active_count here_line),
              nearer,
            ),
          )
        ]
    where
      rest : List (Task R)
      rest = erase_at s.tasks i

      new : StreamManager N R × Task R × List (Task R)
      new = step e s.mem p

      before : (w : Task R → ℕ) → total w s.tasks ≡ total w rest + w p
      before w = total-split w s.tasks i p at

      after :
          (w : Task R → ℕ)
          → total w (set s.tasks i new.1 ++ new.2) ≡ total w rest + w new.1 + total w new.2
      after w = rw (total-append w (set s.tasks i new.1) new.2, total-set w s.tasks i p new.1 at)

      here_line : ℕ
      here_line = total carries rest + (length s.mem.queue + carries p)

      level : line s ≡ here_line
      level = omega (arith, before carries)

      at_level :
          length new.0.queue + carries new.1 ≡ length s.mem.queue + carries p
          → new.2 ≡ []
          → line (advance s e i p) ≡ here_line
      at_level same_line none_new =
          omega (arith, after carries, same_line, ap (total carries) none_new)
