-- ===== src/Client/Waiting.antt =====
-- When `wait_for_connected` of src/client.rs succeeds.
use titan_rust_client.Base.{
  ◌≡◌, refl, ◌↔◌, inl, inr, Bool, false, List, [], ◌∷◌, ◌++◌, All, String, arith, Bool-cases,
}
use titan_rust_client.Base.Outcome.{ok}
use titan_rust_client.State.{ConnectionState, connected, reconnecting, disconnected}
use titan_rust_client.Client.{wait_for_connected}

-- A state that is waited out.
abbrev pub Passing : (String → Bool) → ConnectionState → Type 0
Passing permanent connected = ⊥
Passing permanent (reconnecting attempt) = Unit {0}
Passing permanent (disconnected reason) = permanent reason ≡ false

found :
    (permanent : String → Bool) (states : List ConnectionState)
    → wait_for_connected permanent states ≡ ok tt
    → (before : List ConnectionState) × (after : List ConnectionState) × (states
        ≡ before ++ connected ∷ after)
      × All (Passing permanent) before
unfolding wait_for_connected
found permanent [] h = cc
found permanent (connected ∷ states) h = ([], states, refl, tt)
found permanent (reconnecting n ∷ states) h =
    let (before, after, e, passing) = found permanent states h in
    (reconnecting n ∷ before, after, cc, (tt, passing))
found permanent (disconnected reason ∷ states) h = elim (Bool-cases (permanent reason)) [
  | inl x ↦ absurd (ground arith)
  | inr x ↦
      let (before, after, e, passing) = found permanent states (ground arith) in
      (disconnected reason ∷ before, after, cc, (x, passing))
]

waits :
    (permanent : String → Bool) (before after : List ConnectionState)
    → All (Passing permanent) before
    → wait_for_connected permanent (before ++ connected ∷ after) ≡ ok tt
unfolding wait_for_connected
waits permanent [] after passing = refl
waits permanent (connected ∷ before) after passing = absurd passing.0
waits permanent (reconnecting n ∷ before) after passing = waits permanent before after passing.1
waits permanent (disconnected reason ∷ before) after passing =
    rw (passing.0, wait_for_connected) (waits permanent before after passing.1)

-- Waiting succeeds exactly if a `Connected` is seen, with no permanent disconnection seen before it.
pub wait_for_connected_lem :
    (permanent : String → Bool) (states : List ConnectionState)
    → (wait_for_connected permanent states ≡ ok tt) ↔ (
        (before : List ConnectionState) × (after : List ConnectionState) × (states
          ≡ before ++ connected ∷ after)
        × All (Passing permanent) before)
wait_for_connected_lem permanent states = (
  found permanent states,
  λ (before, after, e, passing). rw e (waits permanent before after passing),
)
