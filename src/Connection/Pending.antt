-- ===== src/Connection/Pending.antt =====
-- The answers that src/connection.rs gives to pending requests.
use mathlib.Core.List.{Mem, mem-append_right, mem-cons_self, mem-cons_of_mem}
use titan_rust_client.Base.{
  ℕ, ◌≡◌, refl, inl, inr, [], ◌∷◌, none, some, arith, String, Option-cases, Bool-cases, ◌==◌,
}
use titan_rust_client.Base.Map.{Map, lookup, lookup-remove}
use titan_rust_client.Base.Outcome.{Outcome, err, connection_closed}
use titan_rust_client.Notify.{Notify}
use titan_rust_client.Wire.{Api, ResponseSuccess, ResponseError, response, error}
use titan_rust_client.Connection.{
  Shared, Sent, answer, answer_pending, handle_server_message, fail_all, fail_pending_requests,
}

-- The channel `tx` was told that the connection was lost, and no request is pending.
abbrev pub Told : {N : Notify} {api : Api} → ℕ → String → Shared N api → Type 0
Told {N} {api} tx reason s =
    Mem {A = Sent api} (answer tx (err (connection_closed reason))) s.sent
    × (s.pending_requests ≡ [])

fail_all-mem :
    {api : Api} (id tx : ℕ) (reason : String) (pending : Map ℕ)
    → lookup id pending ≡ some tx
    → Mem {A = Sent api}
        (answer tx (err (connection_closed reason)))
        (fail_all (connection_closed reason) pending)
unfolding fail_all lookup
fail_all-mem id tx reason [] h = cc
fail_all-mem id tx reason ((j, first) ∷ rest) h = elim (Bool-cases (j == id)) [
  | inl hit ↦ let same : first ≡ tx = ground arith in rw same mem-cons_self
  | inr miss ↦ mem-cons_of_mem _ (fail_all-mem id tx reason rest (ground arith))
]

module _ {N : Notify} {api : Api} where
  answer_pending-forgets :
      (id : ℕ) (result : Outcome (ResponseSuccess api)) (s : Shared N api)
      → lookup id (answer_pending id result s).pending_requests ≡ none
  unfolding answer_pending
  answer_pending-forgets id result s = elim (Option-cases (lookup id s.pending_requests)) [
    | inl e ↦ rw (e, answer_pending) e
    | inr (tx, e) ↦ rw (e, answer_pending) (ground (arith, lookup-remove id id s.pending_requests))
  ]

  pub answer_pending_unknown :
      (id : ℕ) (result : Outcome (ResponseSuccess api)) (s : Shared N api)
      → lookup id s.pending_requests ≡ none
      → answer_pending id result s ≡ s
  unfolding answer_pending
  answer_pending_unknown id result s e = rw (e, answer_pending)

  -- A request is answered at most once: after a response or an error for its id, a further response
  -- or error for that id changes nothing.
  pub answered_once :
      (r r' : ResponseSuccess api) (e : ResponseError) (s : Shared N api)
      → r'.request_id ≡ r.request_id
      → e.request_id ≡ r.request_id
      → let t = handle_server_message (response r) s in
        let u = handle_server_message (error e) s in
        (handle_server_message (response r') t ≡ t)
        × (handle_server_message (error e) t ≡ t)
        × (handle_server_message (response r') u ≡ u)
  unfolding handle_server_message
  answered_once r r' e s p q = (
    answer_pending_unknown r'.request_id _ _ (rw p (answer_pending-forgets r.request_id _ s)),
    answer_pending_unknown e.request_id _ _ (rw q (answer_pending-forgets r.request_id _ s)),
    answer_pending_unknown r'.request_id _ _
        (rw (p, ← q) (answer_pending-forgets e.request_id _ s)),
  )

  pub fail_pending_requests-Told :
      (id tx : ℕ) (reason : String) (s : Shared N api)
      → lookup id s.pending_requests ≡ some tx
      → Told tx reason (fail_pending_requests reason s)
  unfolding fail_pending_requests
  fail_pending_requests-Told id tx reason s h =
      (mem-append_right s.sent (fail_all-mem id tx reason s.pending_requests h), refl)
