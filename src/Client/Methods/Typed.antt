-- ===== src/Client/Methods/Typed.antt =====
-- What the one-shot methods of src/client.rs return.
use titan_rust_client.Base.{ℕ, arith, ◌≡◌, refl, ◌↔◌, ◌⊎◌, inl, inr, true, false, List, Option}
use titan_rust_client.Base.Outcome.{Outcome, ok, err, connection_failed, ◌>>=◌}
use titan_rust_client.Notify.{Notify}
use titan_rust_client.Wire.{Api, RequestData, ResponseSuccess, ResponseData}
use titan_rust_client.Connection.Front.{Front, send_request}
use titan_rust_client.Client.Methods.{
  TitanClient, request, get_connection, expect_info, expect_venues, expect_providers, expect_price,
  get_info, get_venues, list_providers, get_swap_price_simple,
}

expect_info-ok :
    {api : Api} {a : api.ServerInfo} (d : ResponseData api)
    → (expect_info d ≡ ok a) ↔ (d ≡ ResponseData.get_info a)
unfolding expect_info
expect_info-ok d = ground arith

expect_venues-ok :
    {api : Api} {a : api.VenueInfo} (d : ResponseData api)
    → (expect_venues d ≡ ok a) ↔ (d ≡ ResponseData.get_venues a)
unfolding expect_venues
expect_venues-ok d = ground arith

expect_providers-ok :
    {api : Api} {a : List api.ProviderInfo} (d : ResponseData api)
    → (expect_providers d ≡ ok a) ↔ (d ≡ ResponseData.list_providers a)
unfolding expect_providers
expect_providers-ok d = ground arith

expect_price-ok :
    {api : Api} {a : api.SwapPrice} (d : ResponseData api)
    → (expect_price d ≡ ok a) ↔ (d ≡ ResponseData.get_swap_price a)
unfolding expect_price
expect_price-ok d = ground arith

answered :
    {api : Api} {A : Type 0} (expect : ResponseData api → Outcome A) (wrap : A → ResponseData api)
    (response : Outcome (ResponseSuccess api)) (a : A)
    → ((d : ResponseData api) → (expect d ≡ ok a) ↔ (d ≡ wrap a))
    → ((response >>= λ r. expect r.body) ≡ ok a)
      ↔ ((r : ResponseSuccess api) × (response ≡ ok r) × (r.body ≡ wrap a))
answered expect wrap (ok r) a h = (λ e. (r, refl, (h r.body).0 e), λ (r', e, x). (h r.body).1 (cc))
answered expect wrap (err x) a h = (λ e. cc, λ (r', e, y). cc)

module _ {N : Notify} {api : Api} where
  -- There is a connection, and the answer to the request has this payload.
  abbrev pub Answered :
      RequestData api
      → ResponseData api
      → (Front N api → Front N api)
      → (RequestData api → ℕ → Option (Outcome (ResponseSuccess api)))
      → TitanClient N api
      → Type 0
  Answered body payload others answer c =
      (c.has_connection ≡ true)
      × ((r : ResponseSuccess api) × ((send_request others answer body c.front).1 ≡ ok r)
          × (r.body ≡ payload))

  connection-cases :
      (c : TitanClient N api)
      → ((get_connection c ≡ ok c.front) × (c.has_connection ≡ true))
        ⊎ ((get_connection c ≡ err (connection_failed 0 "Not connected"))
            × (c.has_connection ≡ false))
  unfolding get_connection
  connection-cases c = ground arith

  request-ok :
      {A : Type 0} (body : RequestData api) (expect : ResponseData api → Outcome A)
      (wrap : A → ResponseData api) (others : Front N api → Front N api)
      (answer : RequestData api → ℕ → Option (Outcome (ResponseSuccess api)))
      (c : TitanClient N api) (a : A)
      → ((d : ResponseData api) → (expect d ≡ ok a) ↔ (d ≡ wrap a))
      → ((request body expect others answer c).1 ≡ ok a) ↔ Answered body (wrap a) others answer c
  unfolding request
  request-ok body expect wrap others answer c a h = elim (connection-cases c) [
    | inl (e, here) ↦
        let law = answered expect wrap (send_request others answer body c.front).1 a h in
        rw (e, request) (λ x. (here, law.0 x), λ (_, x). law.1 x)
    | inr (e, gone) ↦ rw (e, request) (λ x. cc, λ (x, _). cc)
  ]

  -- Each one-shot method returns what the server answered, and nothing else: it succeeds with a value
  -- exactly if there is a connection and the answer to the method's own request has that value as its
  -- payload, of the kind that was asked for.
  pub one_shot_exact :
      (others : Front N api → Front N api)
      (answer : RequestData api → ℕ → Option (Outcome (ResponseSuccess api)))
      (c : TitanClient N api) (price_request : api.SwapPriceRequest) (info : api.ServerInfo)
      (venues : api.VenueInfo) (providers : List api.ProviderInfo) (price : api.SwapPrice)
      → (((get_info others answer c).1 ≡ ok info)
          ↔ Answered RequestData.get_info (ResponseData.get_info info) others answer c)
        × (((get_venues others answer c).1 ≡ ok venues)
            ↔ Answered RequestData.get_venues (ResponseData.get_venues venues) others answer c)
        × (((list_providers others answer c).1 ≡ ok providers)
            ↔ Answered RequestData.list_providers
                (ResponseData.list_providers providers)
                others
                answer
                c)
        × (((get_swap_price_simple others answer c price_request).1 ≡ ok price)
            ↔ Answered
                (RequestData.get_swap_price price_request)
                (ResponseData.get_swap_price price)
                others
                answer
                c)
  unfolding get_info get_venues list_providers get_swap_price_simple
  one_shot_exact others answer c price_request info venues providers price = (
    request-ok _ expect_info ResponseData.get_info others answer c info expect_info-ok,
    request-ok _ expect_venues ResponseData.get_venues others answer c venues expect_venues-ok,
    request-ok _ expect_providers ResponseData.list_providers others answer c providers
        expect_providers-ok,
    request-ok _ expect_price ResponseData.get_swap_price others answer c price expect_price-ok,
  )
