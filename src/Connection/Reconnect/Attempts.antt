-- ===== src/Connection/Reconnect/Attempts.antt =====
-- The limits that the connection task of src/connection.rs keeps when it reconnects.
use titan_rust_client.Base.{
  ℕ, ◌+◌, ◌≤◌, ◌<◌, ◌≡◌, ◌≢◌, refl, inl, inr, true, List, [], ◌∷◌, none, some, All, All-append,
  arith, Bool-cases, Option-cases, String, u32_max, u32_succ, length,
}
use titan_rust_client.Connection.Session.States.{run_single_connection-states}
use titan_rust_client.Connection.Reconnect.{final_cleanup}
use titan_rust_client.Notify.{Notify}
use titan_rust_client.Wire.{Api}
use titan_rust_client.State.{ConnectionState, connected, reconnecting}
use titan_rust_client.Config.{TitanConfig}
use titan_rust_client.Backoff.{calculate_backoff, calculate_backoff-le}
use titan_rust_client.Connection.Session.{Session, run_single_connection}
use titan_rust_client.Connection.Reconnect.{
  Round, Loop, gives_up, send_state, reconnect, after_connection, connection_loop,
  run_connection_loop_with_reconnect,
}

-- A state that the client may be told: attempts count from one up to the limit.
abbrev pub Announced : ℕ → ConnectionState → Type 0
Announced max (reconnecting n) = (1 ≤ n) × (n ≤ max)
Announced max _ = Unit

module _ {N : Notify} {api : Api} where
  -- The world in which no attempt succeeds and every connection is lost in the end.
  abbrev pub Failing : TitanConfig → Round N api → Type 0
  Failing c round =
      (round.established ≡ none)
      × ((s : Session N api) → (run_single_connection c round.start round.events s).1 ≢ none)

  pub after_connection-fails :
      (c : TitanConfig) (round : Round N api) (reason : String) (l : Loop N api) (max : ℕ)
      → c.max_reconnect_attempts ≡ some max
      → max < u32_max
      → l.reconnect_attempt ≤ max
      → round.established ≡ none
      → (after_connection c round reason l).1 ≡ true
      → ((after_connection c round reason l).0.reconnect_attempt ≡ l.reconnect_attempt + 1)
        × (l.reconnect_attempt + 1 ≤ max)
  unfolding after_connection gives_up reconnect
  after_connection-fails c round reason l max e small le fails go = ground arith

  pub connection_loop-ends :
      (c : TitanConfig) (rounds : List (Round N api)) (l : Loop N api) (max : ℕ)
      → c.max_reconnect_attempts ≡ some max
      → max < u32_max
      → l.reconnect_attempt ≤ max
      → All (Failing c) rounds
      → max < l.reconnect_attempt + length rounds
      → (connection_loop c rounds l).1 ≡ true
  unfolding connection_loop
  connection_loop-ends c [] l max e small le failing many = absurd (omega arith)
  connection_loop-ends c (round ∷ rounds) l max e small le failing many =
      let (s, ended) = run_single_connection c round.start round.events l.session in
      let lost : Loop N api = record l { session = s } in
      elim (Option-cases ended) [
        | inl x ↦ absurd (failing.0.1 l.session x)
        | inr (reason, er) ↦ elim (Bool-cases (after_connection c round reason lost).1) [
          | inl go ↦
              let next = after_connection-fails c round reason lost max e small le failing.0.0 go in
              rw (er, connection_loop, go)
                (connection_loop-ends c rounds (after_connection c round reason lost).0 max e small
                  (omega (arith, next.0, next.1)) failing.1 (omega (arith, next.0, many)))
          | inr stop ↦ rw (er, connection_loop, stop) refl
        ]
      ]

  -- With a limit on attempts, the connection task gives up: if no attempt to reconnect succeeds and every
  -- connection gets lost, it has ended once there were more turns than the limit leaves attempts.
  pub limit_ends_loop :
      (c : TitanConfig) (rounds : List (Round N api)) (l : Loop N api) (max : ℕ)
      → c.max_reconnect_attempts ≡ some max
      → max < u32_max
      → l.reconnect_attempt ≤ max
      → All (Failing c) rounds
      → max < l.reconnect_attempt + length rounds
      → (run_connection_loop_with_reconnect c rounds l).1 ≡ true
  unfolding run_connection_loop_with_reconnect
  limit_ends_loop c rounds l max e small le failing many =
      rw
        (
          connection_loop-ends c rounds l max e small le failing many,
          run_connection_loop_with_reconnect,
        )
        refl

  abbrev Within : TitanConfig → ℕ → Loop N api → Type 0
  Within c max l =
      All (Announced max) l.session.states × All (λ d. d ≤ c.max_reconnect_delay_ms) l.delays

  after_connection-Within :
      (c : TitanConfig) (round : Round N api) (reason : String) (l : Loop N api) (max : ℕ)
      → c.max_reconnect_attempts ≡ some max
      → max < u32_max
      → l.reconnect_attempt ≤ max
      → Within c max l
      → let (l', more) = after_connection c round reason l in
        Within c max l' × (more ≡ true → l'.reconnect_attempt ≤ max)
  unfolding after_connection gives_up reconnect send_state
  after_connection-Within c round reason l max e small le h =
      let attempt = u32_succ l.reconnect_attempt in
      let delays =
        All-append (λ d. d ≤ c.max_reconnect_delay_ms) l.delays
          (calculate_backoff attempt c.max_reconnect_delay_ms ∷ []) h.1
          (calculate_backoff-le attempt c.max_reconnect_delay_ms, tt) in
      elim (Bool-cases round.is_cancelled) [
        | inl x ↦ rw (x, after_connection) (h, λ y. absurd (ground arith))
        | inr x ↦ elim (Bool-cases round.is_closed) [
          | inl y ↦ rw (x, y, after_connection) (h, λ z. absurd (ground arith))
          | inr y ↦ elim (Bool-cases (gives_up c attempt)) [
            | inl z ↦
                rw (x, y, z, after_connection)
                  ((All-append _ l.session.states _ h.0 (tt, tt), h.1), λ w. absurd (ground arith))
            | inr z ↦
                let few : attempt ≤ max = ground arith in
                let announced =
                  All-append _ l.session.states (reconnecting attempt ∷ []) h.0
                    ((omega arith, few), tt) in
                rw (x, y, z, after_connection)
                  (elim (Option-cases round.established) [
                    | inl w ↦ rw (w, reconnect) ((announced, delays), λ _. few)
                    | inr (socket, w) ↦
                        rw (w, reconnect)
                          (
                            (All-append _ _ (connected ∷ []) announced (tt, tt), delays),
                            λ _. omega arith,
                          )
                  ])
          ]
        ]
      ]

  connection_loop-Within :
      (c : TitanConfig) (rounds : List (Round N api)) (l : Loop N api) (max : ℕ)
      → c.max_reconnect_attempts ≡ some max
      → max < u32_max
      → l.reconnect_attempt ≤ max
      → Within c max l
      → Within c max (connection_loop c rounds l).0
  unfolding connection_loop
  connection_loop-Within c [] l max e small le h = h
  connection_loop-Within c (round ∷ rounds) l max e small le h =
      let (s, ended) = run_single_connection c round.start round.events l.session in
      let lost : Loop N api = record l { session = s } in
      let before =
        run_single_connection-states (Announced max) (λ r. tt) c round.start round.events l.session
          h.0 in
      elim (Option-cases ended) [
        | inl x ↦ rw (x, connection_loop) (before, h.1)
        | inr (reason, x) ↦
            let next = after_connection-Within c round reason lost max e small le (before, h.1) in
            elim (Bool-cases (after_connection c round reason lost).1) [
              | inl y ↦
                  rw (x, connection_loop, y)
                    (connection_loop-Within c rounds _ max e small (next.1 y) next.0)
              | inr y ↦ rw (x, connection_loop, y) next.0
            ]
      ]

  -- With a limit on attempts, every attempt that is announced counts from one up to the limit, and no
  -- back-off is longer than the configured maximum.
  pub reconnects_within_limits :
      (c : TitanConfig) (rounds : List (Round N api)) (l : Loop N api) (max : ℕ)
      → c.max_reconnect_attempts ≡ some max
      → max < u32_max
      → l.reconnect_attempt ≤ max
      → All (Announced max) l.session.states
      → All (λ d. d ≤ c.max_reconnect_delay_ms) l.delays
      → let t = (run_connection_loop_with_reconnect c rounds l).0 in
        All (Announced max) t.session.states × All (λ d. d ≤ c.max_reconnect_delay_ms) t.delays
  unfolding run_connection_loop_with_reconnect final_cleanup
  reconnects_within_limits c rounds l max e small le states delays =
      let h = connection_loop-Within c rounds l max e small le (states, delays) in
      elim (Bool-cases (connection_loop c rounds l).1) [
        | inl x ↦ rw (x, run_connection_loop_with_reconnect) h
        | inr x ↦ rw (x, run_connection_loop_with_reconnect) h
      ]
