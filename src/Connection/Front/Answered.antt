-- ===== src/Connection/Front/Answered.antt =====
-- Requests from `send_request` to their answers, through both ends of the channel of src/connection.rs.
use titan_rust_client.Base.{
  All-map, ℕ, ◌<◌, ◌≡◌, ◌≢◌, sym, [], ◌∷◌, ◌++◌, List, none, some, String, All, get_elem?, u32_max,
}
use titan_rust_client.Base.Map.{lookup}
use titan_rust_client.Base.Outcome.{Outcome, ok}
use titan_rust_client.Notify.{Notify}
use titan_rust_client.Wire.{Api, ClientRequest, ResponseSuccess, response}
use titan_rust_client.Config.{TitanConfig}
use titan_rust_client.Connection.{answer}
use titan_rust_client.Connection.Resume.{binary}
use titan_rust_client.Connection.Session.{
  Session, Event, shutdown_cancelled, requests_closed, received, arrived, ticked, elsewhere,
  run_events, session_step,
}
use titan_rust_client.Connection.Session.Answers.{Foreign, own_response}
use titan_rust_client.Connection.Front.{Front, connect}
use titan_rust_client.Connection.Front.Distinct.{Calls, connect-Distinct, Calls-Distinct}

-- Any other request has another id and another channel.
abbrev pub Others : {api : Api} → List (ClientRequest api × ℕ) → ℕ → ClientRequest api × ℕ → Type 0
Others {api = api} outbox i p =
    (j : ℕ) (q : ClientRequest api × ℕ)
    → get_elem? outbox j ≡ some q
    → i ≢ j
    → (q.0.id ≢ p.0.id) × (q.1 ≢ p.1)

module _ {N : Notify} {api : Api} where
  -- What the connection does after it has taken the request at place `i`: it may take other requests, but
  -- has no answer to this one, and other tasks let it wait.
  abbrev pub Since : List (ClientRequest api × ℕ) → ℕ → ClientRequest api → ℕ → Event N api → Type 0
  Since outbox i request tx (received other tx' e e') =
      (j : ℕ) × (get_elem? outbox j ≡ some (other, tx')) × (i ≢ j)
  Since outbox i request tx event = Foreign request.id tx event

  Since-Foreign :
      (outbox : List (ClientRequest api × ℕ)) (i : ℕ) (request : ClientRequest api) (tx : ℕ)
      → ((j : ℕ) (q : ClientRequest api × ℕ)
          → get_elem? outbox j ≡ some q
          → i ≢ j
          → q.0.id ≢ request.id)
      → (e : Event N api) → Since outbox i request tx e
      → Foreign request.id tx e
  Since-Foreign outbox i request tx h (received other tx' e e') (j, at, apart) = h j _ at apart
  Since-Foreign outbox i request tx h shutdown_cancelled since = since
  Since-Foreign outbox i request tx h requests_closed since = since
  Since-Foreign outbox i request tx h (arrived frame text) since = since
  Since-Foreign outbox i request tx h (ticked now e) since = since
  Since-Foreign outbox i request tx h (elsewhere f) since = since

  -- Every caller gets the answer to its own request. Take any request that calls of `send_request` handed over
  -- since `connect`, fewer than the ids that there are: no other has its channel. And once the connection
  -- has taken and sent it, it waits through any other requests that are taken, in any order, through
  -- messages about others and other tasks; the response that names its id is then sent on its channel, as the
  -- next thing sent, and ends the wait.
  pub request_answered :
      {n : ℕ} {f g : Front N api} (established : Outcome (Unit {0})) (c : TitanConfig) (i : ℕ)
      (request : ClientRequest api) (tx : ℕ) (events : List (Event N api)) (r : ResponseSuccess api)
      (text : String) (s : Session N api)
      → connect established ≡ ok f
      → Calls f n g
      → n < u32_max
      → get_elem? g.outbox i ≡ some (request, tx)
      → All (Since g.outbox i request tx) events
      → r.request_id ≡ request.id
      → let t = (run_events c (received request tx none none ∷ events) s).0 in
        let u = (session_step c (arrived (binary (some (response r))) text) t).0 in
        ((j : ℕ) (q : ClientRequest api × ℕ) → get_elem? g.outbox j ≡ some q → i ≢ j → q.1 ≢ tx)
        × (lookup request.id t.shared.pending_requests ≡ some tx)
        × (u.shared.sent ≡ t.shared.sent ++ answer tx (ok r) ∷ [])
        × (lookup request.id u.shared.pending_requests ≡ none)
  request_answered {f = f} {g = g} established c i request tx events r text s made calls small at
        since same =
      let d = Calls-Distinct calls small (connect-Distinct established f made) in
      let apart : Others g.outbox i (request, tx) =
        λ j q at' other. d.apart j i q (request, tx) at' at (λ e. other (sym e)) in
      let (waits, sent, gone) =
        own_response c request tx events r text s
          (All-map _
            (Since-Foreign g.outbox i request tx (λ j q at' other. (apart j q at' other).0)) events
            since)
          same in
      ((λ j q at' other. (apart j q at' other).1), waits, sent, gone)
