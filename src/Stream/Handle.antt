-- ===== src/Stream/Handle.antt =====
-- The constructors of `QuoteStream` in src/stream.rs, and `recv` on the channel that its adapter fills:
-- `tokio::sync::mpsc`, a part of another crate, by what its documentation says.
pub mod Received
mod Scenarios
use titan_rust_client.Base.{
  ℕ, ◌≡◌, ◌≢◌, Bool, true, false, List, [], ◌∷◌, ◌++◌, Option, none, some, length,
}
use titan_rust_client.Notify.{Notify}
use titan_rust_client.Wire.{Api}
use titan_rust_client.Connection.{Shared}
use titan_rust_client.Stream.{QuoteStream}

pub record Mpsc (A : Type 0) : Type 1 where
  pub State : Type 0
  pub channel : State
  pub send : A → State → State
  -- The last sender is dropped.
  pub end_senders : State → State
  -- A call of `recv` that completes.
  pub recv : State → Option A × State
  -- What was sent and not received, oldest first, and whether more can come.
  pub waiting : State → List A
  pub ended : State → Bool
  pub waiting-channel : waiting channel ≡ []
  pub waiting-send : (a : A) (s : State) → waiting (send a s) ≡ waiting s ++ a ∷ []
  pub waiting-end : (s : State) → waiting (end_senders s) ≡ waiting s
  pub recv-first :
      (s : State) (a : A) (later : List A)
      → waiting s ≡ a ∷ later
      → ((recv s).0 ≡ some a) × (waiting (recv s).1 ≡ later)
  -- "`None` is returned when the channel is closed and there are no remaining messages".
  pub recv-ended : (s : State) → waiting s ≡ [] → ended s ≡ true → (recv s).0 ≡ none

-- `QuoteStream::recv`
pub recv : {A : Type 0} (M : Mpsc A) → M.State → Option A × M.State
recv M s = M.recv s

-- What happens to the channel of a handle: what was put in, what calls of `recv` gave, and its state. A
-- call completes when there is something to receive.
pub data Exchange {A : Type 0} (M : Mpsc A) : List A → List (Option A) → M.State → Type 0 where
  opened : Exchange M [] [] M.channel
  puts :
      {put : List A} {got : List (Option A)} {s : M.State} (a : A)
      → Exchange M put got s
      → Exchange M (put ++ a ∷ []) got (M.send a s)
  takes :
      {put : List A} {got : List (Option A)} {s : M.State}
      → Exchange M put got s
      → M.waiting s ≢ []
      → Exchange M put (got ++ (recv M s).0 ∷ []) (recv M s).1
  ends :
      {put : List A} {got : List (Option A)} {s : M.State}
      → Exchange M put got s
      → Exchange M put got (M.end_senders s)

module _ {N : Notify} {api : Api} where
  -- `QuoteStream::new`, "unmanaged, for backwards compatibility": cells of its own, and no manager.
  pub new : (stream_id receiver : ℕ) → Shared N api → Shared N api × QuoteStream
  new stream_id receiver s = (
    record s {
      manager = record (s.manager) { released = s.manager.released ++ false ∷ [] };
      effective_ids = s.effective_ids ++ stream_id ∷ [];
      stopped_flags = s.stopped_flags ++ false ∷ [];
    },
    record {
      stream_id = stream_id;
      cell = length s.manager.released;
      receiver = receiver;
      managed = false;
      stopped = false;
    },
  )
