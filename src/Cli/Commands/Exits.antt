-- ===== src/Cli/Commands/Exits.antt =====
-- How `run_command` of src/bin/titan_cli.rs ends.
use titan_rust_client.Base.{
  ℕ, ◌+◌, ◌≡◌, refl, inl, inr, List, [], ◌∷◌, ◌++◌, Option, none, some, arith, subst, sym,
}
use titan_rust_client.Base.Outcome.{Outcome, Outcome-cases, ok, err}
use titan_rust_client.Cli.{Done, fine, failed, parse_mint}
use titan_rust_client.Cli.Swap.{Solana, from_outcome}
use titan_rust_client.Cli.Commands.{
  Call, Course, lift, Commands, Server, Turn, ◌>>=◌, connects, Cli, asks_info, asks_venues,
  asks_providers, subscribes, stops_stream, closes, asks_price, opens_stream, swaps, cmd_info,
  cmd_venues, cmd_providers, cmd_price, stream_loop, cmd_stream, cmd_watch, dispatch, finish,
  run_command, quotes, stream_ended, info, venues, providers, watch, price, stream, swap,
  client_config,
}

module _ (w : Solana) where
  -- How often the client is closed.
  abbrev pub closings : List (Call w) → ℕ
  closings [] = 0
  closings (closes ∷ log) = closings log + 1
  closings (_ ∷ log) = closings log

  closings-append : (xs ys : List (Call w)) → closings (xs ++ ys) ≡ closings xs + closings ys
  closings-append [] ys = omega arith
  closings-append (closes ∷ xs) ys = omega (arith, closings-append xs ys)
  closings-append (connects c ∷ xs) ys = closings-append xs ys
  closings-append (asks_info ∷ xs) ys = closings-append xs ys
  closings-append (asks_venues ∷ xs) ys = closings-append xs ys
  closings-append (asks_providers ∷ xs) ys = closings-append xs ys
  closings-append (subscribes ∷ xs) ys = closings-append xs ys
  closings-append (stops_stream ∷ xs) ys = closings-append xs ys
  closings-append (asks_price r ∷ xs) ys = closings-append xs ys
  closings-append (opens_stream r ∷ xs) ys = closings-append xs ys
  closings-append (swaps e ∷ xs) ys = closings-append xs ys

  -- A course that does not close the client.
  abbrev Open : {A : Type 0} → Course w A → Type 0
  Open m = closings m.0 ≡ 0

  Open->>= :
      {A B : Type 0} (m : Course w A) (f : A → Course w B)
      → Open m
      → ((a : A) → Open (f a))
      → Open (m >>= f)
  Open->>= (log, none) f h k = h
  Open->>= (log, some (failed e)) f h k = h
  Open->>= (log, some (fine a)) f h k = omega (arith, closings-append log (f a).0, h, k a)

  stream_loop-Open :
      (stopped : Outcome (Unit {0})) (turns : List (Turn w)) (count : ℕ)
      → Open (stream_loop w stopped turns count)
  unfolding stream_loop
  stream_loop-Open stopped [] count = refl
  stream_loop-Open stopped (quotes q ∷ turns) count = stream_loop-Open stopped turns _
  stream_loop-Open stopped (stream_ended ∷ turns) count = refl
  stream_loop-Open stopped (Turn.interrupted ∷ turns) count =
      Open->>= (lift (from_outcome w stopped)) (λ _. lift (fine count)) refl λ _. refl

  cmd_stream-Open :
      (server : Server w) (input output : _) (amount : ℕ) (user : _)
      → Open (cmd_stream w server input output amount user)
  unfolding cmd_stream
  cmd_stream-Open server input output amount user =
      Open->>= (lift (parse_mint w.texts input)) _ refl λ _.
        Open->>= (lift (parse_mint w.texts output)) _ refl λ _.
          Open->>=
            (lift (
              parse_mint w.texts
                (elim user [ some u ↦ u | none ↦ "11111111111111111111111111111111" ])))
            _ refl
            λ _.
              Open->>= (lift (from_outcome w server.opened)) _ refl
                λ _. stream_loop-Open server.stopped server.turns 0

  dispatch-Open : (server : Server w) (command : Commands w) → Open (dispatch w server command)
  unfolding dispatch cmd_info cmd_venues cmd_providers cmd_price cmd_watch
  dispatch-Open server info = refl
  dispatch-Open server venues = refl
  dispatch-Open server providers = refl
  dispatch-Open server watch = refl
  dispatch-Open server (price input output amount) =
      Open->>= (lift (parse_mint w.texts input)) _ refl
        λ _. Open->>= (lift (parse_mint w.texts output)) _ refl λ _. refl
  dispatch-Open server (stream input output amount user) =
      Open->>= (cmd_stream w server input output amount user) (λ _. lift (fine tt))
        (cmd_stream-Open server input output amount user) λ _. refl
  dispatch-Open server (swap flags) = refl

  -- How the program ends after this course of its command: still waiting, or with this status and so
  -- many times closed.
  abbrev pub EndsAs : Option (Done (Unit {0})) → List (Call w) × Option ℕ → Type 0
  EndsAs none (log, code) = (code ≡ none) × (closings log ≡ 0)
  EndsAs (some (failed e)) (log, code) = (code ≡ some 1) × (closings log ≡ 0)
  EndsAs (some (fine _)) (log, code) = (code ≡ some 0) × (closings log ≡ 1)

  finish-EndsAs : (m : Course w (Unit {0})) → Open m → EndsAs m.1 (finish w m)
  unfolding finish
  finish-EndsAs (log, none) h = (refl, h)
  finish-EndsAs (log, some (failed e)) h = (refl, h)
  finish-EndsAs (log, some (fine _)) h = (refl, omega (arith, closings-append log (closes ∷ []), h))

  connects-EndsAs :
      (course : Option (Done (Unit {0}))) (c : _) (run : List (Call w) × Option ℕ)
      → EndsAs course run
      → EndsAs course (connects c ∷ run.0, run.1)
  connects-EndsAs none c run h = h
  connects-EndsAs (some (failed e)) c run h = h
  connects-EndsAs (some (fine x)) c run h = h

  -- The same, by how the connection was made and by the course of the command.
  abbrev pub RunEndsAs :
      Outcome (Unit {0}) → Option (Done (Unit {0})) → List (Call w) × Option ℕ → Type 0
  RunEndsAs (err e) course (log, code) = (code ≡ some 1) × (closings log ≡ 0)
  RunEndsAs (ok _) course run = EndsAs course run

  run_command-fine :
      (server : Server w) (cli : Cli w) (a : Unit {0})
      → server.connected ≡ ok a
      → let m = finish w (dispatch w server cli.command) in
        run_command w server cli ≡ (connects (client_config w cli) ∷ m.0, m.1)
  unfolding run_command
  run_command-fine server cli a e = rw (e, run_command) refl

  run_command-failed :
      (server : Server w) (cli : Cli w) (x : _)
      → server.connected ≡ err x
      → run_command w server cli ≡ (connects (client_config w cli) ∷ [], some 1)
  unfolding run_command
  run_command-failed server cli x e = rw (e, run_command) refl

  -- If there is no connection, the program exits with status 1 and closes nothing. Otherwise its command
  -- decides: if the command fails, the program exits with status 1 and never closes the client, which
  -- leaves the connection and its streams to the end of the process; if the command succeeds, it closes
  -- the client exactly once and exits with status 0; while the loop of a command still waits, there is no
  -- status and nothing is closed.
  pub run_command-RunEndsAs :
      (server : Server w) (cli : Cli w)
      → RunEndsAs server.connected (dispatch w server cli.command).1 (run_command w server cli)
  run_command-RunEndsAs server cli =
      let course = (dispatch w server cli.command).1 in
      let m = finish w (dispatch w server cli.command) in
      let connecting = connects (client_config w cli) in
      elim (Outcome-cases server.connected) [
        | inl (a, e) ↦ rw (run_command-fine server cli a e) (
            subst (λ r. RunEndsAs r course (connecting ∷ m.0, m.1)) (sym e)
              (connects-EndsAs course (client_config w cli) m
                (finish-EndsAs (dispatch w server cli.command) (dispatch-Open server cli.command))))
        | inr (x, e) ↦
            rw (run_command-failed server cli x e)
              (subst (λ r. RunEndsAs r course (connecting ∷ [], some 1)) (sym e) (refl, refl))
      ]
