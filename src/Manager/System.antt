-- ===== src/Manager/System.antt =====
-- A `StreamManager` with the tasks that run on it, interleaved in any order, and what its clients do.
use titan_rust_client.Base.{ℕ, ◌<◌, ◌≡◌, List, [], ◌∷◌, ◌++◌, some, get_elem?, set, length}
use titan_rust_client.Notify.{Notify}
use titan_rust_client.Manager.{
  StreamManager, Env, Task, requester, ender, RequestPc, EndPc, create, set_max_concurrent, step,
}

pub record System (N : Notify) (R : Type 0) : Type 0 where
  pub mem : StreamManager N R
  pub tasks : List (Task R)

abbrev pub init : (N : Notify) (R : Type 0) → ℕ → System N R
init N R max = record { mem = create max; tasks = [] }

-- Task `i` stands at `p` and makes its next access.
abbrev pub advance : {N : Notify} {R : Type 0} → System N R → Env → ℕ → Task R → System N R
advance s e i p =
    let (m', p', new_tasks) = step e s.mem p in
    record { mem = m'; tasks = set s.tasks i p' ++ new_tasks }

-- `Allowed old new` says which changes of the limit the client makes. An ender may begin for any
-- stream at any time, and as often as it likes: the server ends it, a reconnect fails, the client
-- stops or drops it.
pub data Step (N : Notify) (R : Type 0) (Allowed : ℕ → ℕ → Type 0) (s : System N R)
    : System N R → Type 0 where
  run :
      (e : Env) (i : ℕ) (p : Task R)
      → get_elem? s.tasks i ≡ some p
      → Step N R Allowed s (advance s e i p)
  request_stream :
      (r : R)
      → Step N R Allowed s (record s { tasks = s.tasks ++ requester (RequestPc.load_max r) ∷ [] })
  end_stream :
      (k : ℕ)
      → k < length s.mem.released
      → Step N R Allowed s (record s { tasks = s.tasks ++ ender (EndPc.guard k) ∷ [] })
  retune :
      (max : ℕ)
      → Allowed s.mem.max_concurrent max
      → Step N R Allowed s (record s { mem = set_max_concurrent s.mem max })

pub data Reach (N : Notify) (R : Type 0) (Allowed : ℕ → ℕ → Type 0) (max : ℕ)
    : System N R → Type 0 where
  start : Reach N R Allowed max (init N R max)
  later :
      {s t : System N R} → Reach N R Allowed max s → Step N R Allowed s t → Reach N R Allowed max t
