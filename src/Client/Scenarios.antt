-- ===== src/Client/Scenarios.antt =====
-- Runs of the model of src/client.rs at concrete inputs.
use titan_rust_client.Base.{ℕ, ◌≡◌, refl, ◌↔◌, true, false, List, [], ◌∷◌, ◌++◌, All, some, arith}
use titan_rust_client.Base.Outcome.{ok}
use titan_rust_client.Sample.{numbers}
use titan_rust_client.State.{ConnectionState, connected, reconnecting}
use titan_rust_client.Connection.Slots.{Freed}
use titan_rust_client.Connection.Scenarios.{two_streams}
use titan_rust_client.Stream.{QuoteStream}
use titan_rust_client.Stream.Task.{Background, act_all, resumed}
use titan_rust_client.Client.{first_quotes, wait_for_connected, get_swap_price, Received}
use titan_rust_client.Client.Waiting.{Passing, wait_for_connected_lem}
use titan_rust_client.Client.OneShot.{get_swap_price-Frees}
use titan_rust_client.Manager.Slots.{Counted}
use titan_rust_client.Sample.{permits}
use titan_rust_client.Base.{Option, none}
use titan_rust_client.Base.Outcome.{Outcome, err, connection_failed}
use titan_rust_client.State.{disconnected}
use titan_rust_client.Wire.{RequestData, ResponseData, ResponseSuccess}
use titan_rust_client.Client.Methods.{
  TitanClient, get_info, get_venues, list_providers, get_swap_price_simple, close, is_closed, state,
  active_stream_count, queued_stream_count, request, expect_info, new_swap_quote_stream,
}
use titan_rust_client.Client.Methods.Typed.{Answered, one_shot_exact}
use titan_rust_client.Client.Methods.Closing.{close_lem}
use titan_rust_client.Config.{default}

wait_for_connected_example :
    (wait_for_connected (λ r. true) (reconnecting 1 ∷ connected ∷ []) ≡ ok tt) ↔ (
      (before : List ConnectionState) × (after : List ConnectionState) × (reconnecting 1
          ∷ connected
          ∷ []
        ≡ before ++ connected ∷ after)
      × All (Passing (λ r. true)) before)
wait_for_connected_example = wait_for_connected_lem (λ r. true) (reconnecting 1 ∷ connected ∷ [])

abbrev one_shot : QuoteStream
one_shot = record { stream_id = 10; cell = 0; receiver = 0; managed = true; stopped = false }

-- The first quotes arrive in time.
abbrev quoted : ℕ
quoted = 5

abbrev five : Received numbers
five = first_quotes quoted

-- A reconnect gives the stream the id 30 while `stop` waits.
abbrev moved : ℕ → List (Background numbers)
moved n = resumed 10 (some 30) ∷ []

get_swap_price-Frees_example :
    let (t, result) = get_swap_price (λ i. act_all (moved i)) 10_000 five one_shot two_streams in
    (Freed t.manager.released 0 × Counted 3 t.manager 0) × ((result ≡ ok quoted) ↔ (five ≡ five))
get_swap_price-Frees_example =
    get_swap_price-Frees one_shot 10_000 five two_streams moved quoted refl refl (omega arith)
      (record { small = omega arith; limit = omega arith; capped = omega arith; counted = refl })

-- A client that is connected, with two streams.
abbrev pub client : TitanClient permits numbers
client = record {
  front = record {
    shared = two_streams;
    cancelled = false;
    request_id = 3;
    listening = true;
    outbox = [];
    next_tx = 0;
    states = connected ∷ [];
  };
  has_connection = true;
  has_manager = true;
  config = default;
}

-- A server that answers each request with a payload of its kind, and one about venues with 4.
abbrev payload_for : RequestData numbers → ResponseData numbers
payload_for RequestData.get_venues = ResponseData.get_venues 4
payload_for RequestData.list_providers = ResponseData.list_providers (2 ∷ [])
payload_for (RequestData.get_swap_price r) = ResponseData.get_swap_price 7
payload_for _ = ResponseData.get_info 1

abbrev answers_come : RequestData numbers → ℕ → Option (Outcome (ResponseSuccess numbers))
answers_come body tx = some (ok (record { request_id = 3; body = payload_for body; stream = none }))

one_shot_exact_example :
    (((get_info (λ f. f) answers_come client).1 ≡ ok 1)
      ↔ Answered RequestData.get_info (ResponseData.get_info 1) (λ f. f) answers_come client)
    × (((get_venues (λ f. f) answers_come client).1 ≡ ok 4)
        ↔ Answered RequestData.get_venues (ResponseData.get_venues 4) (λ f. f) answers_come client)
    × (((list_providers (λ f. f) answers_come client).1 ≡ ok (2 ∷ []))
        ↔ Answered RequestData.list_providers
            (ResponseData.list_providers (2 ∷ []))
            (λ f. f)
            answers_come
            client)
    × (((get_swap_price_simple (λ f. f) answers_come client 6).1 ≡ ok 7)
        ↔ Answered
            (RequestData.get_swap_price 6)
            (ResponseData.get_swap_price 7)
            (λ f. f)
            answers_come
            client)
one_shot_exact_example = one_shot_exact (λ f. f) answers_come client 6 1 4 (2 ∷ []) 7

close_example :
    let t = close (λ n f. f) answers_come client in
    (t.front.shared.resumable_streams ≡ [])
    × (is_closed t ≡ true)
    × (state connected t ≡ disconnected "Not connected")
    × (active_stream_count t ≡ 0)
    × (queued_stream_count t ≡ 0)
    × (request RequestData.get_info expect_info (λ f. f) answers_come t
        ≡ (t, err (connection_failed 0 "Not connected")))
    × (new_swap_quote_stream 6 t ≡ err (connection_failed 0 "Not connected"))
    × (close (λ n f. f) answers_come t ≡ t)
close_example =
    close_lem (λ n f. f) answers_come RequestData.get_info expect_info (λ f. f) 6 connected client
      refl
