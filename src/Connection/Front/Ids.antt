-- ===== src/Connection/Front/Ids.antt =====
-- The ids that `send_request` of src/connection.rs gives to requests.
use titan_rust_client.Base.{
  ℕ, ◌+◌, ◌%◌, ◌^◌, ◌<◌, ◌≢◌, inl, inr, All, All-append, All-map, arith, Bool-cases, u32_max,
}
use titan_rust_client.Notify.{Notify}
use titan_rust_client.Wire.{Api, RequestData, ClientRequest}
use titan_rust_client.Connection.Front.{Front, submit}

module _ {N : Notify} {api : Api} where
  -- All requests handed over so far have ids below the counter.
  abbrev pub Below : Front N api → Type 0
  Below f = All (λ (p : ClientRequest api × ℕ). p.0.id < f.request_id) f.outbox

  -- Before the counter wraps, no two requests get the same id: the id that the next request gets is none
  -- of those given out, and the ids stay below the counter, on every way out of `send_request`.
  pub submit-Below :
      (body : RequestData api) (f : Front N api)
      → f.request_id < u32_max
      → Below f
      → Below (submit body f).0
        × All (λ (p : ClientRequest api × ℕ). p.0.id ≢ f.request_id) f.outbox
  unfolding submit
  submit-Below body f small h = (after, All-map _ (λ p lt e. omega arith) f.outbox h)
    where
      after : Below (submit body f).0
      after = elim (Bool-cases f.cancelled) [
        | inl x ↦ rw (x, submit) h
        | inr x ↦
            let older : All (λ (p : ClientRequest api × ℕ). p.0.id < (f.request_id + 1) % 2 ^ 32)
                f.outbox =
              All-map _ (λ p lt. omega arith) f.outbox h in
            elim (Bool-cases f.listening) [
              | inl y ↦ rw (x, y, submit) (All-append _ f.outbox _ older (omega arith, tt))
              | inr y ↦ rw (x, y, submit) older
            ]
      ]
