-- ===== src/Wire.antt =====
-- The messages of the crate titan-api-types, by the fields and cases that src/connection.rs,
-- src/client.rs and src/queue.rs read. What those files only pass on is a type of `Api`.
use titan_rust_client.Base.{ℕ, List, Option, String}

pub record Api : Type 1 where
  pub SwapQuoteRequest : Type 0
  pub SwapQuotes : Type 0
  pub SwapPriceRequest : Type 0
  pub SwapPrice : Type 0
  pub VenueInfo : Type 0
  pub ProviderInfo : Type 0
  pub ServerInfo : Type 0
  -- `info.settings.connection.concurrent_streams`
  pub concurrent_streams : ServerInfo → ℕ

module _ (api : Api) where
  open api use {
    SwapQuoteRequest, SwapQuotes, SwapPriceRequest, SwapPrice, VenueInfo, ProviderInfo, ServerInfo,
  }

  pub data RequestData : Type 0 where
    get_info : RequestData
    get_venues : RequestData
    list_providers : RequestData
    get_swap_price : SwapPriceRequest → RequestData
    new_swap_quote_stream : SwapQuoteRequest → RequestData
    stop_stream : (id : ℕ) → RequestData

  pub record ClientRequest : Type 0 where
    pub id : ℕ
    pub body : RequestData

  pub data ResponseData : Type 0 where
    get_info : ServerInfo → ResponseData
    get_venues : VenueInfo → ResponseData
    list_providers : List ProviderInfo → ResponseData
    get_swap_price : SwapPrice → ResponseData
    other : ResponseData

  -- `stream` is the `id` of the optional stream info.
  pub record ResponseSuccess : Type 0 where
    pub request_id : ℕ
    pub body : ResponseData
    pub stream : Option ℕ

  pub data StreamDataPayload : Type 0 where
    swap_quotes : SwapQuotes → StreamDataPayload
    other : StreamDataPayload

  pub record StreamData : Type 0 where
    pub id : ℕ
    pub payload : StreamDataPayload

pub record ResponseError : Type 0 where
  pub request_id : ℕ
  pub code : ℕ
  pub message : String

pub data ServerMessage (api : Api) : Type 0 where
  response : ResponseSuccess api → ServerMessage api
  error : ResponseError → ServerMessage api
  stream_data : StreamData api → ServerMessage api
  stream_end : (id : ℕ) → ServerMessage api
  other : ServerMessage api
