-- ===== src/Connection/Front/Scenarios.antt =====
-- Runs of the callers' side of src/connection.rs at concrete inputs.
use titan_rust_client.Base.{
  get_elem?, some, ◌++◌, refl, ℕ, ◌≡◌, ◌≢◌, true, false, [], ◌∷◌, none, arith,
}
use titan_rust_client.Base.Outcome.{ok, err, connection_closed}
use titan_rust_client.Sample.{permits, numbers}
use titan_rust_client.Wire.{ClientRequest, get_info, get_venues}
use titan_rust_client.State.{connected, disconnected}
use titan_rust_client.Config.{new}
use titan_rust_client.Manager.{create}
use titan_rust_client.Wire.{response}
use titan_rust_client.Base.Map.{lookup}
use titan_rust_client.Connection.{answer}
use titan_rust_client.Connection.Resume.{binary}
use titan_rust_client.Connection.Session.{received, arrived, run_events, session_step}
use titan_rust_client.Connection.Scenarios.{two_streams, session, reply_to}
use titan_rust_client.Connection.Front.{Front, connect, submit, shutdown}
use titan_rust_client.Connection.Front.Distinct.{none_yet, submits}
use titan_rust_client.Connection.Front.Answered.{request_answered}
use titan_rust_client.Connection.Front.Shutdown.{shutdown_lem}

-- Two requests have been handed over.
abbrev busy : Front permits numbers
busy = record {
  shared = two_streams;
  cancelled = false;
  request_id = 3;
  listening = true;
  outbox = (record { id = 1; body = get_info }, 0) ∷ (record { id = 2; body = get_venues }, 1) ∷ [];
  next_tx = 2;
  states = connected ∷ [];
}

shutdown_example :
    let t = shutdown (λ n f. f) (λ body tx. none) busy in
    (t.shared.resumable_streams ≡ [])
    × (submit get_info t ≡ (t, err (connection_closed "Client shutdown")))
shutdown_example = shutdown_lem (λ n f. f) (λ body tx. none) get_info busy

-- Two requests over a fresh connection; the second is taken while the first waits.
abbrev fresh : Front permits numbers
fresh = record busy {
  shared = record two_streams {
    manager = create 0;
    effective_ids = [];
    stopped_flags = [];
    resumable_streams = [];
    pending_requests = [];
    sent = [];
    closed = λ channel. false;
  };
  request_id = 1;
  outbox = [];
  next_tx = 0;
  states = disconnected "Connecting..." ∷ connected ∷ [];
}

abbrev both_sent : Front permits numbers
both_sent = (submit get_venues (submit get_info fresh).0).0

fresh_made : connect (ok tt) ≡ ok fresh
unfolding connect
fresh_made = refl

request_answered_example :
    let c = new "wss://x" "t" in
    let request : ClientRequest numbers = record { id = 1; body = get_info } in
    let other : ClientRequest numbers = record { id = 2; body = get_venues } in
    let t =
      (run_events c (received request 0 none none ∷ received other 1 none none ∷ []) session).0 in
    let u = (session_step c (arrived (binary (some (response (reply_to 1 none)))) "") t).0 in
    ((j : ℕ) (q : ClientRequest numbers × ℕ)
      → get_elem? both_sent.outbox j ≡ some q
      → 0 ≢ j
      → q.1 ≢ 0)
    × (lookup 1 t.shared.pending_requests ≡ some 0)
    × (u.shared.sent ≡ t.shared.sent ++ answer 0 (ok (reply_to 1 none)) ∷ [])
    × (lookup 1 u.shared.pending_requests ≡ none)
unfolding submit
request_answered_example =
    request_answered {f = fresh} {g = both_sent} (ok tt) (new "wss://x" "t") 0
      (record { id = 1; body = get_info }) 0
      (received (record { id = 2; body = get_venues }) 1 none none ∷ []) (reply_to 1 none) ""
      session fresh_made (submits get_venues (submits get_info none_yet)) (omega arith) refl
      ((1, refl, (λ e. omega (arith, e))), tt) refl
