-- ===== src/Client/Methods.antt =====
-- The methods of `TitanClient` in src/client.rs over the connection and the stream manager that it holds.
-- `others` is what happens while a request waits, `answer` what comes on its channel.
pub mod Typed
pub mod Closing
use titan_rust_client.Base.{ℕ, Bool, true, false, not, List, Option, if◌then◌else◌}
use titan_rust_client.Base.Outcome.{Outcome, ok, err, connection_failed, unexpected, ◌>>=◌}
use titan_rust_client.Notify.{Notify}
use titan_rust_client.Wire.{Api, RequestData, ResponseSuccess, ResponseData}
use titan_rust_client.State.{ConnectionState, disconnected, is_connected}
use titan_rust_client.Config.{TitanConfig}
use titan_rust_client.Manager.{create, queue_len, Task, requester, RequestPc}
use titan_rust_client.Connection.{Shared}
use titan_rust_client.Connection.Front.{Front, connect, send_request, shutdown}
use titan_rust_client.Client.{fetch_max_streams}

-- The two fields are `Some` or `None`; the connection and the manager, which others share, are `front`
-- and `front.shared.manager`.
pub record TitanClient (N : Notify) (api : Api) : Type 0 where
  pub front : Front N api
  pub has_connection : Bool
  pub has_manager : Bool
  pub config : TitanConfig

abbrev Answers : Api → Type 0
Answers api = RequestData api → ℕ → Option (Outcome (ResponseSuccess api))

module _ {N : Notify} {api : Api} where
  -- `TitanClient::new`; `established` is the result of `establish_connection`.
  pub new :
      (Front N api → Front N api)
      → Answers api
      → TitanConfig
      → Outcome (Unit {0})
      → Outcome (TitanClient N api)
  new others answer config established = connect established >>= λ front.
      let (front', response) = send_request others answer RequestData.get_info front in
      let managed : Shared N api = record (front'.shared) {
        manager = create (fetch_max_streams response);
      } in
      ok (record {
        front = record front' { shared = managed };
        has_connection = true;
        has_manager = true;
        config = config;
      })

  pub get_connection : TitanClient N api → Outcome (Front N api)
  get_connection c =
      if c.has_connection then ok c.front else err (connection_failed 0 "Not connected")

  pub get_stream_manager : TitanClient N api → Outcome (Front N api)
  get_stream_manager c =
      if c.has_manager then ok c.front else err (connection_failed 0 "Not connected")

  -- `new_swap_quote_stream`: the call of `request_stream` that is left to run, at its first access.
  pub new_swap_quote_stream :
      api.SwapQuoteRequest → TitanClient N api → Outcome (Task api.SwapQuoteRequest)
  unfolding get_stream_manager
  new_swap_quote_stream quote_request c =
      get_stream_manager c >>= λ front. ok (requester (RequestPc.load_max quote_request))

  -- `current` is what `state_tx.borrow()` shows.
  unfoldable pub state : (current : ConnectionState) → TitanClient N api → ConnectionState
  state current c = if c.has_connection then current else disconnected "Not connected"

  pub client_is_connected : (current : ConnectionState) → TitanClient N api → Bool
  unfolding state
  client_is_connected current c = is_connected (state current c)

  pub active_stream_count : TitanClient N api → ℕ
  unfolding get_stream_manager
  active_stream_count c = elim (get_stream_manager c) [
    | ok front ↦ front.shared.manager.active_count
    | err e ↦ 0
  ]

  pub queued_stream_count : TitanClient N api → ℕ
  unfolding get_stream_manager
  queued_stream_count c = elim (get_stream_manager c) [
    | ok front ↦ queue_len front.shared.manager
    | err e ↦ 0
  ]

  pub close : (ℕ → Front N api → Front N api) → Answers api → TitanClient N api → TitanClient N api
  close others answer c = record c {
    front = if c.has_connection then shutdown others answer c.front else c.front;
    has_connection = false;
    has_manager = false;
  }

  pub is_closed : TitanClient N api → Bool
  is_closed c = not c.has_connection

  -- A request over the connection, if there is one, and what its method makes of the response.
  pub request :
      {A : Type 0}
      → RequestData api
      → (ResponseData api → Outcome A)
      → (Front N api → Front N api)
      → Answers api
      → TitanClient N api
      → TitanClient N api × Outcome A
  unfolding get_connection
  request body expect others answer c = elim (get_connection c) [
    | err e ↦ (c, err e)
    | ok front ↦
        let (front', response) = send_request others answer body front in
        (record c { front = front' }, response >>= λ r. expect r.body)
  ]

-- The `match response.data` of each method; the message stands without the discriminant that the code
-- appends to it.
pub expect_info : {api : Api} → ResponseData api → Outcome api.ServerInfo
expect_info (ResponseData.get_info info) = ok info
expect_info _ = err (unexpected "Unexpected response type: expected GetInfo")

pub expect_venues : {api : Api} → ResponseData api → Outcome api.VenueInfo
expect_venues (ResponseData.get_venues venues) = ok venues
expect_venues _ = err (unexpected "Unexpected response type: expected GetVenues")

pub expect_providers : {api : Api} → ResponseData api → Outcome (List api.ProviderInfo)
expect_providers (ResponseData.list_providers providers) = ok providers
expect_providers _ = err (unexpected "Unexpected response type: expected ListProviders")

pub expect_price : {api : Api} → ResponseData api → Outcome api.SwapPrice
expect_price (ResponseData.get_swap_price price) = ok price
expect_price _ = err (unexpected "Unexpected response type: expected GetSwapPrice")

-- One-shot methods.
module _ {N : Notify} {api : Api} (others : Front N api → Front N api) (answer : Answers api)
    (c : TitanClient N api) where
  pub get_info : TitanClient N api × Outcome api.ServerInfo
  get_info = request RequestData.get_info expect_info others answer c

  pub get_venues : TitanClient N api × Outcome api.VenueInfo
  get_venues = request RequestData.get_venues expect_venues others answer c

  pub list_providers : TitanClient N api × Outcome (List api.ProviderInfo)
  list_providers = request RequestData.list_providers expect_providers others answer c

  pub get_swap_price_simple : api.SwapPriceRequest → TitanClient N api × Outcome api.SwapPrice
  get_swap_price_simple price_request =
      request (RequestData.get_swap_price price_request) expect_price others answer c
