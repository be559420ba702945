-- ===== src/Manager/Spec/Account.antt =====
-- What a log of events says of the line of an office.
use mathlib.Core.List.{append_assoc, append-nil}
use titan_rust_client.Base.{ℕ, ◌≡◌, refl, List, [], ◌∷◌, ◌++◌}
use titan_rust_client.Manager.Spec.{
  Event, Office, Move, arrivals, admissions, silent, arrives, admits, walks_in, leaves,
}

module _ {R : Type 0} where
  -- A list of events whose newest is an event at the end.
  arrivals-append : (xs ys : List (Event R)) → arrivals (xs ++ ys) ≡ arrivals xs ++ arrivals ys
  unfolding arrivals
  arrivals-append [] ys = refl
  arrivals-append (arrives q ∷ xs) ys = rw (arrivals-append xs ys) refl
  arrivals-append (silent ∷ xs) ys = arrivals-append xs ys
  arrivals-append (admits q ∷ xs) ys = arrivals-append xs ys
  arrivals-append (walks_in ∷ xs) ys = arrivals-append xs ys
  arrivals-append (leaves ∷ xs) ys = arrivals-append xs ys

  admissions-append :
      (xs ys : List (Event R)) → admissions (xs ++ ys) ≡ admissions xs ++ admissions ys
  unfolding admissions
  admissions-append [] ys = refl
  admissions-append (admits q ∷ xs) ys = rw (admissions-append xs ys) refl
  admissions-append (silent ∷ xs) ys = admissions-append xs ys
  admissions-append (arrives q ∷ xs) ys = admissions-append xs ys
  admissions-append (walks_in ∷ xs) ys = admissions-append xs ys
  admissions-append (leaves ∷ xs) ys = admissions-append xs ys

  -- One move keeps the account of the line.
  pub account-Move :
      (bound : ℕ) (ev : Event R) (events : List (Event R)) (a b : Office R)
      → Move bound ev a b
      → arrivals events ≡ admissions events ++ a.line
      → arrivals (events ++ ev ∷ []) ≡ admissions (events ++ ev ∷ []) ++ b.line
  unfolding arrivals admissions
  account-Move bound ev events a b move h =
      rw (arrivals-append events (ev ∷ []), admissions-append events (ev ∷ []), h) (one ev move)
    where
      one :
          (ev : Event R)
          → Move bound ev a b
          → (admissions events ++ a.line) ++ arrivals (ev ∷ [])
            ≡ (admissions events ++ admissions (ev ∷ [])) ++ b.line
      one silent m =
          rw (m.1, append-nil (admissions events), append-nil (admissions events ++ a.line)) refl
      one (arrives q) m =
          rw (m.1, append-nil (admissions events), append_assoc (admissions events) a.line (q ∷ []))
            refl
      one (admits q) m =
          rw
            (
              m.2,
              append-nil (admissions events ++ q ∷ b.line),
              append_assoc (admissions events) (q ∷ []) b.line,
            )
            refl
      one walks_in m =
          rw (m.2, append-nil (admissions events), append-nil (admissions events ++ a.line)) refl
      one leaves m =
          rw (m.1, append-nil (admissions events), append-nil (admissions events ++ a.line)) refl
