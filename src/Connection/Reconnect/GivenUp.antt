-- ===== src/Connection/Reconnect/GivenUp.antt =====
-- What the task of src/connection.rs sends when it gives up.
use Prim.Native.String.{◌++◌ as str_append}
use titan_rust_client.Base.{
  subst, All-map, ℕ, ◌+◌, ◌≤◌, ◌<◌, ◌≡◌, ◌≢◌, refl, inl, inr, Bool, true, false, List, [], ◌∷◌,
  ◌++◌, some, All, All-append, arith, Bool-cases, Option-cases, String, u32_max, u32_succ, length,
}
use titan_rust_client.Notify.{Notify}
use titan_rust_client.Wire.{Api}
use titan_rust_client.State.{ConnectionState, connected, disconnected}
use titan_rust_client.Config.{TitanConfig}
use titan_rust_client.Connection.Session.{run_single_connection}
use titan_rust_client.Connection.Session.States.{run_single_connection-states}
use titan_rust_client.Connection.Reconnect.{
  Round, Loop, gives_up, send_state, reconnect, after_connection, connection_loop, final_cleanup,
  run_connection_loop_with_reconnect,
}
use titan_rust_client.Connection.Reconnect.Attempts.{
  Failing, after_connection-fails, connection_loop-ends,
}

abbrev pub last_words : String → ConnectionState
last_words reason = disconnected (str_append "Max reconnect attempts reached. Last error: " reason)

abbrev pub Unconnected : ConnectionState → Type 0
Unconnected v = v ≢ connected

module _ {N : Notify} {api : Api} where
  -- A turn in a world where every connection is lost, none can be made, and nobody shuts down.
  abbrev pub Hopeless : TitanConfig → Round N api → Type 0
  Hopeless c round = Failing c round × (round.is_cancelled ≡ false) × (round.is_closed ≡ false)

  -- It goes on with one attempt announced, or ends with the last words.
  abbrev Outlook : List ConnectionState → String → Loop N api → Bool → Type 0
  Outlook before reason l true = All Unconnected l.session.states
  Outlook before reason l false = l.session.states ≡ before ++ last_words reason ∷ []

  after_connection-Outlook :
      (c : TitanConfig) (round : Round N api) (reason : String) (l : Loop N api)
      → Hopeless c round
      → All Unconnected l.session.states
      → let (l', more) = after_connection c round reason l in
        Outlook l.session.states reason l' more
  unfolding after_connection reconnect send_state
  after_connection-Outlook c round reason l ((failed, ends), uncancelled, open_still) h =
      elim (Bool-cases (gives_up c (u32_succ l.reconnect_attempt))) [
        | inl e ↦ rw (uncancelled, open_still, e, after_connection) refl
        | inr e ↦
            rw (uncancelled, open_still, e, after_connection, failed)
              (All-append Unconnected l.session.states _ h ((λ x. cc), tt))
      ]

  connection_loop-last_words :
      (c : TitanConfig) (rounds : List (Round N api)) (l : Loop N api) (max : ℕ)
      → c.max_reconnect_attempts ≡ some max
      → max < u32_max
      → l.reconnect_attempt ≤ max
      → All (Hopeless c) rounds
      → max < l.reconnect_attempt + length rounds
      → All Unconnected l.session.states
      → (before : List ConnectionState) × (reason : String) × ((connection_loop c rounds
            l).0.session.states
          ≡ before ++ last_words reason ∷ [])
        × All Unconnected before
  unfolding connection_loop
  connection_loop-last_words c [] l max e small le hopeless many h = absurd (omega arith)
  connection_loop-last_words c (round ∷ rounds) l max e small le (now, later) many h =
      let (s, ended) = run_single_connection c round.start round.events l.session in
      let lost : Loop N api = record l { session = s } in
      let quiet =
        run_single_connection-states Unconnected (λ r x. cc) c round.start round.events l.session
          h in
      elim (Option-cases ended) [
        | inl x ↦ absurd (now.0.1 l.session x)
        | inr (reason, x) ↦
            let (l', more) = after_connection c round reason lost in
            let outlook = after_connection-Outlook c round reason lost now quiet in
            elim (Bool-cases more) [
              | inl go ↦
                  let next = after_connection-fails c round reason lost max e small le now.0.0 go in
                  rw (x, connection_loop, go)
                    (connection_loop-last_words c rounds l' max e small
                      (omega (arith, next.0, next.1)) later (omega (arith, next.0, many))
                      (subst (Outlook s.states reason l') go outlook))
              | inr stop ↦
                  rw (x, connection_loop, stop)
                    (s.states, reason, subst (Outlook s.states reason l') stop outlook, quiet)
            ]
      ]

  -- When the task gives up, it says so last, and nothing it has sent before says connected.
  pub gives_last_words :
      (c : TitanConfig) (rounds : List (Round N api)) (l : Loop N api) (max : ℕ)
      → c.max_reconnect_attempts ≡ some max
      → max < u32_max
      → l.reconnect_attempt ≤ max
      → All (Hopeless c) rounds
      → max < l.reconnect_attempt + length rounds
      → All Unconnected l.session.states
      → let (t, ended) = run_connection_loop_with_reconnect c rounds l in
        (before : List ConnectionState) × (reason : String) × (ended ≡ true)
        × (t.session.states ≡ before ++ last_words reason ∷ [])
        × All Unconnected before
  unfolding run_connection_loop_with_reconnect final_cleanup
  gives_last_words c rounds l max e small le hopeless many h =
      let (before, reason, states, unconnected) =
        connection_loop-last_words c rounds l max e small le hopeless many h in
      let left =
        connection_loop-ends c rounds l max e small le
          (All-map (Failing c) (λ round x. x.0) rounds hopeless) many in
      (
        before,
        reason,
        rw (left, run_connection_loop_with_reconnect) refl,
        rw (left, run_connection_loop_with_reconnect) states,
        unconnected,
      )
