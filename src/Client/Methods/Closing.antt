-- ===== src/Client/Methods/Closing.antt =====
-- What is left of a client of src/client.rs after `close`.
use titan_rust_client.Base.{ℕ, ◌≡◌, refl, true, [], Option}
use titan_rust_client.Base.Outcome.{Outcome, err, connection_failed}
use titan_rust_client.Notify.{Notify}
use titan_rust_client.Wire.{Api, RequestData, ResponseSuccess, ResponseData}
use titan_rust_client.State.{ConnectionState, disconnected}
use titan_rust_client.Connection.Front.{Front}
use titan_rust_client.Connection.Front.Shutdown.{shutdown_lem}
use titan_rust_client.Client.Methods.{
  TitanClient, close, is_closed, request, get_connection, get_stream_manager, state,
  active_stream_count, queued_stream_count, new_swap_quote_stream,
}

module _ {N : Notify} {api : Api} where
  -- Closing an open client leaves no stream registered, whatever happens while it waits for answers.
  -- A client that was closed says so, and shows no streams; a request fails with `ConnectionFailed` and
  -- hands nothing over, no stream can be asked for, and closing it again changes nothing.
  pub close_lem :
      {A : Type 0} (others : ℕ → Front N api → Front N api)
      (answer : RequestData api → ℕ → Option (Outcome (ResponseSuccess api)))
      (body : RequestData api) (expect : ResponseData api → Outcome A)
      (meanwhile : Front N api → Front N api) (quote_request : api.SwapQuoteRequest)
      (current : ConnectionState) (c : TitanClient N api)
      → c.has_connection ≡ true
      → let t = close others answer c in
        (t.front.shared.resumable_streams ≡ [])
        × (is_closed t ≡ true)
        × (state current t ≡ disconnected "Not connected")
        × (active_stream_count t ≡ 0)
        × (queued_stream_count t ≡ 0)
        × (request body expect meanwhile answer t ≡ (t, err (connection_failed 0 "Not connected")))
        × (new_swap_quote_stream quote_request t ≡ err (connection_failed 0 "Not connected"))
        × (close others answer t ≡ t)
  unfolding close is_closed state active_stream_count queued_stream_count request get_connection
      get_stream_manager new_swap_quote_stream
  close_lem others answer body expect meanwhile quote_request current c here = (
    rw here (shutdown_lem others answer body c.front).0,
    refl,
    refl,
    refl,
    refl,
    refl,
    refl,
    refl,
  )
