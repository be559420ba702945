-- ===== src/Client.antt =====
-- src/client.rs: what `TitanClient` makes of the answers of the connection. The results of
-- `Connection::send_request` and of the stream's channel are arguments here.
pub mod Waiting
pub mod GivenUp
pub mod OneShot
pub mod Methods
pub mod Scenarios
use titan_rust_client.Base.{ℕ, Bool, true, List, [], ◌∷◌, String, if◌then◌else◌}
use titan_rust_client.Base.Outcome.{Outcome, ok, err, connection_failed, unexpected, timeout}
use titan_rust_client.Notify.{Notify}
use titan_rust_client.Wire.{Api, ResponseSuccess, ResponseData}
use titan_rust_client.State.{ConnectionState, connected, reconnecting, disconnected}
use titan_rust_client.Connection.{Shared}
use titan_rust_client.Stream.{QuoteStream, stop, drop}

abbrev pub default_max_concurrent_streams : ℕ
default_max_concurrent_streams = 10

-- `fetch_max_streams`, by the result of the request.
pub fetch_max_streams : {api : Api} → Outcome (ResponseSuccess api) → ℕ
fetch_max_streams {api} (ok r) = elim r.body [
  | ResponseData.get_info info ↦ api.concurrent_streams info
  | _ ↦ default_max_concurrent_streams
]
fetch_max_streams (err e) = default_max_concurrent_streams

-- `wait_for_connected` over the states that the receiver sees, the current one first; their end is the
-- end of the channel. `permanent` is `contains("Max reconnect attempts")`.
pub wait_for_connected : (String → Bool) → List ConnectionState → Outcome (Unit {0})
wait_for_connected permanent [] = err (connection_failed 0 "Connection closed")
wait_for_connected permanent (connected ∷ states) = ok tt
wait_for_connected permanent (disconnected reason ∷ states) =
    let later = wait_for_connected permanent states in
    if permanent reason then err (connection_failed 0 reason) else later
wait_for_connected permanent (reconnecting attempt ∷ states) = wait_for_connected permanent states

-- `tokio::time::timeout(timeout, stream.recv()).await`
pub data Received (api : Api) : Type 0 where
  first_quotes : api.SwapQuotes → Received api
  channel_ended : Received api
  elapsed : Received api

-- `get_swap_price` once it has its stream. The handle is dropped at the end of each branch; the state is
-- that after the clean-up which `drop` spawns.
pub get_swap_price :
    {N : Notify} {api : Api}
    → (ℕ → Shared N api → Shared N api)
    → (timeout_ms : ℕ) → Received api
    → QuoteStream
    → Shared N api
    → Shared N api × Outcome api.SwapQuotes
get_swap_price others timeout_ms (first_quotes quotes) stream s =
    let (stream', s', _) = stop others stream s in ((drop others true stream' s').0, ok quotes)
get_swap_price others timeout_ms channel_ended stream s =
    ((drop others true stream s).0, err (unexpected "Stream ended without sending quotes"))
get_swap_price others timeout_ms elapsed stream s =
    let (stream', s', _) = stop others stream s in
    ((drop others true stream' s').0, err (timeout timeout_ms))
