-- ===== src/Watch/Shown.antt =====
-- What `state` of src/client.rs shows, and what a subscriber is told.
use titan_rust_client.Base.{
  inl, inr, Bool-cases, ℕ, zero, suc, ◌+◌, ◌-◌, ◌≡◌, refl, ◌∙◌, ap, List, [], ◌∷◌, arith,
  if◌then◌else◌, Bool-cases, ◌<◌,
}
use titan_rust_client.Notify.{Notify}
use titan_rust_client.Wire.{Api}
use titan_rust_client.State.{ConnectionState, connected, disconnected}
use titan_rust_client.Client.Methods.{TitanClient, state}
use titan_rust_client.Watch.{
  Watch, Use, sends, subscribes, drops, use_channel, use_all, all_sent, connect_channel,
  state_receiver, shown,
}

unheard : (vs : List ConnectionState) (v : ConnectionState) → shown 0 v (all_sent vs) ≡ v
unheard [] v = refl
unheard (u ∷ vs) v = unheard vs v

module _ (W : Watch) where
  use_all-shown :
      (us : List Use) (n : ℕ) (w : W.Channel)
      → W.receiver_count w ≡ n
      → W.borrow (use_all W us w) ≡ shown n (W.borrow w) us
  unfolding use_all use_channel
  use_all-shown [] n w e = refl
  use_all-shown (sends v ∷ us) zero w e =
      use_all-shown us zero (W.send v w) (W.receiver_count-send v w ∙ e)
      ∙ ap (λ u. shown zero u us) (W.borrow-send_closed v w e)
  use_all-shown (sends v ∷ us) (suc n) w e =
      use_all-shown us (suc n) (W.send v w) (W.receiver_count-send v w ∙ e)
      ∙ ap (λ u. shown (suc n) u us) (W.borrow-send v w (omega (arith, e)))
  use_all-shown (subscribes ∷ us) n w e =
      use_all-shown us (n + 1) (W.subscribe w) (W.receiver_count-subscribe w ∙ ap (λ k. k + 1) e)
      ∙ ap (λ u. shown (n + 1) u us) (W.borrow-subscribe w)
  use_all-shown (drops ∷ us) n w e =
      use_all-shown us (n - 1) (W.drop_receiver w) (W.receiver_count-drop w ∙ ap (λ k. k - 1) e)
      ∙ ap (λ u. shown (n - 1) u us) (W.borrow-drop w)

  -- With a receiver, what is sent is shown.
  pub sends-shown :
      (us : List Use) (v : ConnectionState) (w : W.Channel)
      → 0 < W.receiver_count w
      → ((n : ℕ) → shown (suc n) (W.borrow w) us ≡ v)
      → W.borrow (use_all W us w) ≡ v
  sends-shown us v w h k = go (W.receiver_count w) refl
    where
      go : (n : ℕ) → W.receiver_count w ≡ n → W.borrow (use_all W us w) ≡ v
      go zero e = absurd (omega (arith, h, e))
      go (suc n) e = use_all-shown us (suc n) w e ∙ k n

  all_sent-count :
      (vs : List ConnectionState) (w : W.Channel)
      → W.receiver_count (use_all W (all_sent vs) w) ≡ W.receiver_count w
  unfolding use_all use_channel
  all_sent-count [] w = refl
  all_sent-count (v ∷ vs) w = all_sent-count vs (W.send v w) ∙ W.receiver_count-send v w

  connect_channel-count :
      (early : List ConnectionState) → W.receiver_count (connect_channel W early) ≡ 1
  unfolding connect_channel
  connect_channel-count early =
      W.receiver_count-send_replace connected _
      ∙ (all_sent-count early (W.channel (disconnected "Connecting..."))
          ∙ W.receiver_count-channel (disconnected "Connecting..."))

  connected_then :
      (us : List Use) (early : List ConnectionState)
      → W.borrow (use_all W us (connect_channel W early)) ≡ shown 1 connected us
  unfolding connect_channel
  connected_then us early =
      use_all-shown us 1 (connect_channel W early) (connect_channel-count early)
      ∙ ap (λ v. shown 1 v us) (W.borrow-send_replace connected _)

  -- What a client and a new subscriber see: the last state that was sent while somebody could receive it, from
  -- `connect` on, which itself says connected, whatever its task sent before; and, when the client is closed,
  -- that it is not connected. So as long as nobody subscribes, what is sent after `connect` has returned is
  -- lost: the client keeps saying connected, though its connection were lost, or given up.
  pub last_heard :
      {N : Notify} {api : Api} (c : TitanClient N api) (early sent : List ConnectionState)
      (us : List Use)
      → let w = use_all W us (connect_channel W early) in
        let expected =
          (if c.has_connection then shown 1 connected us else disconnected "Not connected") in
        (state (W.borrow w) c ≡ expected)
        × (W.borrow (state_receiver W c w).1 ≡ expected)
        × (W.borrow (use_all W (drops ∷ all_sent sent) (connect_channel W early)) ≡ connected)
  unfolding state state_receiver
  last_heard c early sent us =
      let exact = λ (vs : List Use). connected_then vs early in
      elim (Bool-cases c.has_connection) [
        | inl e ↦ (
          rw (e, exact us) refl,
          rw (e, W.borrow-subscribe (use_all W us (connect_channel W early)), exact us) refl,
          exact (drops ∷ all_sent sent) ∙ unheard sent connected,
        )
        | inr e ↦ (
          rw e refl,
          rw (e, W.borrow-channel (disconnected "Not connected")) refl,
          exact (drops ∷ all_sent sent) ∙ unheard sent connected,
        )
      ]
