-- ===== src/Client/GivenUp.antt =====
-- `wait_for_connected` of src/client.rs while the task of src/connection.rs gives up.
use Prim.Native.String.{◌++◌ as str_append}
use titan_rust_client.Base.{
  subst, inl, inr, Bool-cases, arith, ℕ, ◌+◌, ◌≤◌, ◌<◌, ◌≡◌, refl, true, false, Bool, List, [], ◌∷◌,
  ◌++◌, some, All, String, u32_max, length,
}
use titan_rust_client.Base.Outcome.{err, connection_failed}
use titan_rust_client.Notify.{Notify}
use titan_rust_client.Wire.{Api}
use titan_rust_client.State.{ConnectionState, connected, reconnecting, disconnected}
use titan_rust_client.Config.{TitanConfig}
use titan_rust_client.Connection.Reconnect.{Round, Loop, run_connection_loop_with_reconnect}
use titan_rust_client.Connection.Reconnect.GivenUp.{
  last_words, Unconnected, Hopeless, gives_last_words,
}
use titan_rust_client.Client.{wait_for_connected}

-- What a receiver sees of the states that are sent: any of them may be replaced before it looks, but the last.
pub data Seen : List ConnectionState → List ConnectionState → Type 0 where
  seen_all : Seen [] []
  sees : {vs us : List ConnectionState} (v : ConnectionState) → Seen vs us → Seen (v ∷ vs) (v ∷ us)
  misses :
      {vs us : List ConnectionState} (v u : ConnectionState)
      → Seen (u ∷ vs) us
      → Seen (v ∷ u ∷ vs) us

abbrev Hopes : List ConnectionState → Type 0
Hopes [] = true ≡ false
Hopes (v ∷ []) = (reason : String) × (v ≡ last_words reason)
Hopes (v ∷ u ∷ vs) = Unconnected v × Hopes (u ∷ vs)

no_hope :
    (before : List ConnectionState) (reason : String)
    → All Unconnected before
    → Hopes (before ++ last_words reason ∷ [])
no_hope [] reason h = (reason, refl)
no_hope (v ∷ []) reason (h, _) = (h, (reason, refl))
no_hope (v ∷ u ∷ vs) reason (h, hs) = (h, no_hope (u ∷ vs) reason hs)

module _ (permanent : String → Bool)
    (final : (reason : String)
      → permanent (str_append "Max reconnect attempts reached. Last error: " reason) ≡ true) where
  -- Whatever comes later, the wait is over.
  abbrev Refused : List ConnectionState → List ConnectionState → Type 0
  Refused us later =
      (reason : String) × (wait_for_connected permanent (us ++ later)
        ≡ err (connection_failed 0 reason))

  passes :
      (v : ConnectionState) (us later : List ConnectionState)
      → Unconnected v
      → Refused us later
      → Refused (v ∷ us) later
  unfolding wait_for_connected
  passes connected us later h r = absurd (h refl)
  passes (reconnecting n) us later h r = r
  passes (disconnected reason) us later h (last, told) = elim (Bool-cases (permanent reason)) [
    | inl e ↦ (reason, rw (e, wait_for_connected) refl)
    | inr e ↦ (last, rw (e, wait_for_connected) told)
  ]

  told :
      {vs us : List ConnectionState} (later : List ConnectionState)
      → Seen vs us
      → Hopes vs
      → Refused us later
  unfolding wait_for_connected
  told later seen_all h = absurd (ground (arith, h))
  told later (sees v seen_all) (reason, same) = (
    str_append "Max reconnect attempts reached. Last error: " reason,
    rw (same, wait_for_connected, final reason) refl,
  )
  told later (sees v (sees {us = us} u s)) h =
      passes v (u ∷ us) later h.0 (told later (sees u s) h.1)
  told later (sees v (misses {us = us} u w s)) h =
      passes v us later h.0 (told later (misses u w s) h.1)
  told later (misses v u s) h = told later s h.1

  -- A client that waits for its connection is not left waiting: if every connection gets lost, none can be
  -- made, nobody shuts down, and neither a state before these turns said connected nor are the attempts used
  -- up, then with a limit on attempts the task has ended once there were more turns than attempts left; and
  -- `wait_for_connected`, which sees these states, but may miss any of them before the last, is an error by
  -- then, whatever might come later. Its test for a permanent loss is taken to find the words that it looks
  -- for where they are.
  pub waiter_told :
      {N : Notify} {api : Api} (c : TitanConfig) (rounds : List (Round N api)) (l : Loop N api)
      (max : ℕ) (seen later : List ConnectionState)
      → c.max_reconnect_attempts ≡ some max
      → max < u32_max
      → l.reconnect_attempt ≤ max
      → All (Hopeless c) rounds
      → max < l.reconnect_attempt + length rounds
      → All Unconnected l.session.states
      → Seen (run_connection_loop_with_reconnect c rounds l).0.session.states seen
      → (reason : String) × ((run_connection_loop_with_reconnect c rounds l).1 ≡ true)
        × (wait_for_connected permanent (seen ++ later) ≡ err (connection_failed 0 reason))
  waiter_told c rounds l max seen later e small le hopeless many h sees_them =
      let (before, reason, ended, states, unconnected) =
        gives_last_words c rounds l max e small le hopeless many h in
      let (text, refused) =
        told later (subst (λ vs. Seen vs seen) states sees_them)
          (no_hope before reason unconnected) in
      (text, ended, refused)
