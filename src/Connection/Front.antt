-- ===== src/Connection/Front.antt =====
-- The side of `Connection` in src/connection.rs that its callers use: `connect`, `send_request`,
-- `active_stream_ids`, `stop_all_streams` and `shutdown`.
pub mod Ids
pub mod Distinct
pub mod Answered
pub mod Shutdown
mod Scenarios
use titan_rust_client.Base.{
  ℕ, ◌+◌, Bool, true, false, List, [], ◌∷◌, ◌++◌, Option, none, some, if◌then◌else◌, u32_succ,
}
use titan_rust_client.Base.Map.{keys}
use titan_rust_client.Base.Outcome.{Outcome, ok, err, connection_closed}
use titan_rust_client.Notify.{Notify}
use titan_rust_client.Wire.{Api, RequestData, ClientRequest, ResponseSuccess, stop_stream}
use titan_rust_client.State.{ConnectionState, connected, disconnected}
use titan_rust_client.Manager.{create}
use titan_rust_client.Connection.{Shared, cleanup_resumable_streams}

-- `Connection`: the shared maps, the token `shutdown`, `request_id`, whether the task still holds the
-- other end of `sender`, the requests put into it with their oneshot channels (`next_tx` so far), and
-- what was sent on `state_tx`.
pub record Front (N : Notify) (api : Api) : Type 0 where
  pub shared : Shared N api
  pub cancelled : Bool
  pub request_id : ℕ
  pub listening : Bool
  pub outbox : List (ClientRequest api × ℕ)
  pub next_tx : ℕ
  pub states : List ConnectionState

-- `response_rx.await`; `none` if the other end is dropped without an answer.
pub await_response :
    {api : Api} → Option (Outcome (ResponseSuccess api)) → Outcome (ResponseSuccess api)
await_response none = err (connection_closed "Response channel closed")
await_response (some response) = response

module _ {N : Notify} {api : Api} where
  -- `connect`, by the result of `establish_connection`. There is no stream manager yet: the first one
  -- is made by the client.
  pub connect : Outcome (Unit {0}) → Outcome (Front N api)
  connect (err e) = err e
  connect (ok _) = ok (record {
    shared = record {
      manager = create 0;
      effective_ids = [];
      stopped_flags = [];
      pending_requests = [];
      resumable_streams = [];
      sent = [];
      closed = λ _. false;
    };
    cancelled = false;
    request_id = 1;
    listening = true;
    outbox = [];
    next_tx = 0;
    states = disconnected "Connecting..." ∷ connected ∷ [];
  })

  -- `send_request` up to the wait: the number of the channel that the answer comes on.
  pub submit : RequestData api → Front N api → Front N api × Outcome ℕ
  submit body f =
      if f.cancelled
      then (f, err (connection_closed "Client shutdown"))
      else let counted : Front N api = record f {
        request_id = u32_succ f.request_id;
        next_tx = f.next_tx + 1;
      } in
        (if f.listening
          then (
            record counted {
              outbox = f.outbox ++ (record { id = f.request_id; body = body }, f.next_tx) ∷ [];
            },
            ok f.next_tx,
          )
          else (counted, err (connection_closed "Connection closed")))

  -- `others` is what happens during the wait, `answer` what comes on the channel of a request.
  pub send_request :
      (Front N api → Front N api)
      → (RequestData api → ℕ → Option (Outcome (ResponseSuccess api)))
      → RequestData api
      → Front N api
      → Front N api × Outcome (ResponseSuccess api)
  unfolding submit await_response
  send_request others answer body f =
      let (f', sent) = submit body f in
      elim sent [ err e ↦ (f', err e) | ok tx ↦ (others f', await_response (answer body tx)) ]

  pub active_stream_ids : Front N api → List ℕ
  active_stream_ids f = keys f.shared.resumable_streams

  -- The loop of `stop_all_streams`; the answers are ignored.
  pub stop_requests :
      (ℕ → Front N api → Front N api)
      → (RequestData api → ℕ → Option (Outcome (ResponseSuccess api)))
      → List ℕ
      → ℕ
      → Front N api
      → Front N api
  stop_requests others answer [] n f = f
  stop_requests others answer (id ∷ ids) n f =
      stop_requests others answer ids (n + 1) (send_request (others n) answer (stop_stream id) f).0

  pub stop_all_streams :
      (ℕ → Front N api → Front N api)
      → (RequestData api → ℕ → Option (Outcome (ResponseSuccess api)))
      → Front N api
      → Front N api
  unfolding active_stream_ids
  stop_all_streams others answer f =
      let stopped = stop_requests others answer (active_stream_ids f) 0 f in
      elim (active_stream_ids f) [
        | [] ↦ f
        | id ∷ ids ↦ record stopped { shared = cleanup_resumable_streams stopped.shared }
      ]

  pub shutdown :
      (ℕ → Front N api → Front N api)
      → (RequestData api → ℕ → Option (Outcome (ResponseSuccess api)))
      → Front N api
      → Front N api
  shutdown others answer f =
      let stopped = stop_all_streams others answer f in
      record stopped {
        cancelled = true;
        states = stopped.states ++ disconnected "Client shutdown" ∷ [];
      }
