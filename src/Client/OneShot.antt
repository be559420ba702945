-- ===== src/Client/OneShot.antt =====
-- What the one-shot quote of src/client.rs leaves behind.
use titan_rust_client.Base.{ℕ, ◌<◌, ◌≡◌, ◌↔◌, true, false, List, length}
use titan_rust_client.Base.Outcome.{ok}
use titan_rust_client.Notify.{Notify}
use titan_rust_client.Wire.{Api}
use titan_rust_client.Connection.{Shared}
use titan_rust_client.Connection.Slots.{Freed}
use titan_rust_client.Stream.{QuoteStream}
use titan_rust_client.Stream.Task.{Background, act_all}
use titan_rust_client.Stream.Stop.{stop-Frees, drop-stop}
use titan_rust_client.Manager.Slots.{Counted}
use titan_rust_client.Client.{Received, first_quotes, channel_ended, elapsed, get_swap_price}

module _ {N : Notify} {api : Api} where
  -- `get_swap_price` never keeps the slot of its stream, a live and managed one, if the count was exact:
  -- with the first quotes, at the end of the stream or after the timeout, whatever the connection does
  -- while it cleans up, the slot is given back, and `active_count` is still the number of the slots that
  -- are not, with those held besides; and it succeeds exactly with the quotes that came first.
  pub get_swap_price-Frees :
      {bound h : ℕ} (q : QuoteStream) (timeout_ms : ℕ) (got : Received api) (s : Shared N api)
      (script : ℕ → List (Background api)) (quotes : api.SwapQuotes)
      → q.stopped ≡ false
      → q.managed ≡ true
      → q.cell < length s.manager.released
      → Counted bound s.manager h
      → let (t, result) = get_swap_price (λ i. act_all (script i)) timeout_ms got q s in
        (Freed t.manager.released q.cell × Counted bound t.manager h)
        × ((result ≡ ok quotes) ↔ (got ≡ first_quotes quotes))
  unfolding get_swap_price
  get_swap_price-Frees q ms (first_quotes x) s script quotes fresh managed slot c = (
    rw (drop-stop (λ i. act_all (script i)) q s) (stop-Frees q s script fresh managed slot c).0,
    (λ e. cc, λ e. cc),
  )
  get_swap_price-Frees q ms channel_ended s script quotes fresh managed slot c =
      ((stop-Frees q s script fresh managed slot c).1, (λ e. cc, λ e. cc))
  get_swap_price-Frees q ms elapsed s script quotes fresh managed slot c = (
    rw (drop-stop (λ i. act_all (script i)) q s) (stop-Frees q s script fresh managed slot c).0,
    (λ e. cc, λ e. cc),
  )
