-- ===== src/Watch.antt =====
-- `state_tx` of src/connection.rs: `tokio::sync::watch`, a part of another crate, by its operations and
-- what its documentation says of them, and what `Connection` does with it.
pub mod Shown
mod Scenarios
use titan_rust_client.Base.{zero, suc, ℕ, ◌+◌, ◌-◌, ◌<◌, ◌≡◌, List, [], ◌∷◌, if◌then◌else◌}
use titan_rust_client.Notify.{Notify}
use titan_rust_client.Wire.{Api}
use titan_rust_client.State.{ConnectionState, connected, disconnected}
use titan_rust_client.Client.Methods.{TitanClient}

pub record Watch : Type 1 where
  pub Channel : Type 0
  -- A channel with one receiver, by its first value.
  pub channel : ConnectionState → Channel
  pub subscribe : Channel → Channel
  pub drop_receiver : Channel → Channel
  pub send : ConnectionState → Channel → Channel
  pub send_replace : ConnectionState → Channel → Channel
  pub borrow : Channel → ConnectionState
  pub receiver_count : Channel → ℕ
  pub receiver_count-channel : (v : ConnectionState) → receiver_count (channel v) ≡ 1
  pub receiver_count-subscribe : (w : Channel) → receiver_count (subscribe w) ≡ receiver_count w + 1
  pub receiver_count-drop : (w : Channel) → receiver_count (drop_receiver w) ≡ receiver_count w - 1
  pub receiver_count-send :
      (v : ConnectionState) (w : Channel) → receiver_count (send v w) ≡ receiver_count w
  pub receiver_count-send_replace :
      (v : ConnectionState) (w : Channel) → receiver_count (send_replace v w) ≡ receiver_count w
  pub borrow-channel : (v : ConnectionState) → borrow (channel v) ≡ v
  pub borrow-subscribe : (w : Channel) → borrow (subscribe w) ≡ borrow w
  pub borrow-drop : (w : Channel) → borrow (drop_receiver w) ≡ borrow w
  -- "This method fails if the channel is closed, which is the case when every receiver has been dropped",
  -- and "the value is not stored".
  pub borrow-send :
      (v : ConnectionState) (w : Channel) → 0 < receiver_count w → borrow (send v w) ≡ v
  pub borrow-send_closed :
      (v : ConnectionState) (w : Channel) → receiver_count w ≡ 0 → borrow (send v w) ≡ borrow w
  -- "Sends a new value even when there are no receivers".
  pub borrow-send_replace : (v : ConnectionState) (w : Channel) → borrow (send_replace v w) ≡ v

-- What happens to the channel after `connect`: the connection's task and `shutdown` send, handles are
-- made and dropped.
pub data Use : Type 0 where
  sends : ConnectionState → Use
  subscribes : Use
  drops : Use

-- What the task sends, as uses of the channel.
abbrev pub all_sent : List ConnectionState → List Use
all_sent [] = []
all_sent (v ∷ vs) = sends v ∷ all_sent vs

module _ (W : Watch) where
  pub use_channel : Use → W.Channel → W.Channel
  use_channel (sends v) w = W.send v w
  use_channel subscribes w = W.subscribe w
  use_channel drops w = W.drop_receiver w

  pub use_all : List Use → W.Channel → W.Channel
  unfolding use_channel
  use_all [] w = w
  use_all (u ∷ us) w = use_all us (use_channel u w)

  -- `connect` up to its last send; its task, already spawned, has sent `early`. The receiver that `connect`
  -- holds is dropped when it returns: one of the uses that follow.
  pub connect_channel : List ConnectionState → W.Channel
  unfolding use_all
  connect_channel early =
      W.send_replace connected (use_all (all_sent early) (W.channel (disconnected "Connecting...")))

  -- `state_receiver` of the client: the channel of `state_tx` afterwards, and the one that the receiver reads.
  pub state_receiver :
      {N : Notify} {api : Api} → TitanClient N api → W.Channel → W.Channel × W.Channel
  state_receiver c w =
      if c.has_connection
      then (let subscribed = W.subscribe w in (subscribed, subscribed))
      else (w, W.channel (disconnected "Not connected"))

-- The value shown when `n` receivers and the value `v` were there before: what is sent counts where
-- somebody can receive it.
abbrev pub shown : ℕ → ConnectionState → List Use → ConnectionState
shown n v [] = v
shown zero v (sends u ∷ us) = shown zero v us
shown (suc n) v (sends u ∷ us) = shown (suc n) u us
shown n v (subscribes ∷ us) = shown (n + 1) v us
shown n v (drops ∷ us) = shown (n - 1) v us
