-- ===== src/Connection.antt =====
-- src/connection.rs: the state that a connection shares with its streams and their manager, and the
-- operations on it. A stream's shared cells (`effective_id`, `stopped`, `slot_released`) have one
-- place `k`, and the callback `on_end` of that stream is named by `k` too; channels have numbers.
-- Each operation is one critical section of the code; what the code sends on channels is listed in
-- `sent`, whether or not somebody still receives it.
pub mod Slots
pub mod Ends
pub mod Pending
pub mod Resume
pub mod Session
pub mod Reconnect
pub mod Front
pub mod Tame
pub mod Establish
pub mod Scenarios
use titan_rust_client.Base.{
  ℕ, ◌+◌, Bool, true, List, [], ◌∷◌, ◌++◌, Option, none, some, String, set,
}
use titan_rust_client.Base.Map.{Map, lookup, insert, remove}
use titan_rust_client.Base.Outcome.{
  Outcome, TitanClientError, ok, err, connection_closed, server_error,
}
use titan_rust_client.Notify.{Notify}
use titan_rust_client.Manager.{StreamManager, try_release, stream_ended}
use titan_rust_client.Wire.{
  Api, ResponseSuccess, StreamData, ServerMessage, response, error, stream_data, stream_end,
}

pub record ResumableStream (api : Api) : Type 0 where
  pub request : api.SwapQuoteRequest
  pub sender : ℕ
  pub on_end : Option ℕ
  pub effective_id : Option ℕ
  pub stopped : ℕ

-- A message on a channel: the answer to a request, or data for a stream.
pub data Sent (api : Api) : Type 0 where
  answer : (tx : ℕ) → Outcome (ResponseSuccess api) → Sent api
  data_for : (sender : ℕ) → StreamData api → Sent api

-- `pending_requests` and `resumable_streams` of `Connection`, the manager, and the streams' cells
-- (`slot_released` is `manager.released`).
pub record Shared (N : Notify) (api : Api) : Type 0 where
  pub manager : StreamManager N api.SwapQuoteRequest
  pub effective_ids : List ℕ
  pub stopped_flags : List Bool
  pub pending_requests : Map ℕ
  pub resumable_streams : Map (ResumableStream api)
  pub sent : List (Sent api)
  -- Which channels have lost their receiver (`sender.is_closed()`).
  pub closed : ℕ → Bool

-- The CAS guard on `slot_released`, and `stream_ended` if it won.
unfoldable pub release_slot : {N : Notify} {R : Type 0} → StreamManager N R → ℕ → StreamManager N R
release_slot m k = elim (try_release m.released k) [
  | some flags ↦ stream_ended (record m { released = flags })
  | none ↦ m
]

-- The loop of `fail_pending_requests`: one answer to each pending request.
pub fail_all : {api : Api} → TitanClientError → Map ℕ → List (Sent api)
fail_all e [] = []
fail_all e ((id, tx) ∷ rest) = answer tx (err e) ∷ fail_all e rest

module _ {N : Notify} {api : Api} where
  -- The closure `on_end` of `start_stream_internal`.
  pub on_end : ℕ → Shared N api → Shared N api
  on_end k s = record s {
    stopped_flags = set s.stopped_flags k true;
    manager = release_slot s.manager k;
  }

  -- `if let Some(ref on_end) = stream.on_end { on_end(); }`
  pub call_on_end : ResumableStream api → Shared N api → Shared N api
  call_on_end stream s = elim stream.on_end [ none ↦ s | some k ↦ on_end k s ]

  -- `if let Some(stream) = streams.remove(&id) { ... on_end() ... }`
  pub remove_and_end : ℕ → Shared N api → Shared N api
  remove_and_end id s = elim (lookup id s.resumable_streams) [
    | none ↦ s
    | some stream ↦
        call_on_end stream (record s { resumable_streams = remove id s.resumable_streams })
  ]

  unfoldable pub register_stream : ℕ → ResumableStream api → Shared N api → Shared N api
  register_stream stream_id stream s = record s {
    resumable_streams = insert stream_id stream s.resumable_streams;
  }

  unfoldable pub unregister_stream : ℕ → Shared N api → Shared N api
  unregister_stream stream_id s = record s {
    resumable_streams = remove stream_id s.resumable_streams;
  }

  -- `if let Some(tx) = pending.remove(&id) { let _ = tx.send(result); }`
  pub answer_pending : ℕ → Outcome (ResponseSuccess api) → Shared N api → Shared N api
  answer_pending id result s = elim (lookup id s.pending_requests) [
    | none ↦ s
    | some tx ↦ record s {
      pending_requests = remove id s.pending_requests;
      sent = s.sent ++ answer tx result ∷ [];
    }
  ]

  unfoldable pub handle_server_message : ServerMessage api → Shared N api → Shared N api
  handle_server_message (response r) s = answer_pending r.request_id (ok r) s
  handle_server_message (error e) s =
      answer_pending e.request_id (err (server_error e.code e.message)) s
  handle_server_message (stream_data d) s = elim (lookup d.id s.resumable_streams) [
    | none ↦ s
    | some stream ↦ record s { sent = s.sent ++ data_for stream.sender d ∷ [] }
  ]
  handle_server_message (stream_end id) s = remove_and_end id s
  handle_server_message ServerMessage.other s = s

  pub fail_pending_requests : String → Shared N api → Shared N api
  fail_pending_requests reason s = record s {
    pending_requests = [];
    sent = s.sent ++ fail_all (connection_closed reason) s.pending_requests;
  }

  pub cleanup_pending_requests : Shared N api → Shared N api
  cleanup_pending_requests = fail_pending_requests "Connection closed"

  pub end_all : Map (ResumableStream api) → Shared N api → Shared N api
  end_all [] s = s
  end_all ((id, stream) ∷ rest) s = end_all rest (call_on_end stream s)

  -- Also the last part of `stop_all_streams`.
  pub cleanup_resumable_streams : Shared N api → Shared N api
  cleanup_resumable_streams s = end_all s.resumable_streams (record s { resumable_streams = [] })
