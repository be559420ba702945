-- ===== src/Cli/Commands.antt =====
-- `run_command` of src/bin/titan_cli.rs and the commands that it dispatches to: what each asks of the client,
-- in order. What comes back is an argument; the text that the commands print is left out.
pub mod Exits
use titan_rust_client.Base.{ℕ, Bool, List, [], ◌∷◌, ◌++◌, Option, none, some, String, u32_succ}
use titan_rust_client.Base.Outcome.{Outcome, ok, err}
use titan_rust_client.State.{ConnectionState}
use titan_rust_client.Config.{TitanConfig, new, with_danger_accept_invalid_certs}
use titan_rust_client.Cli.{Done, fine, failed, Route, parse_mint}
use titan_rust_client.Cli.Swap.{Solana, Flags, World, Effect, from_outcome, cmd_swap}

-- The subcommands; those of `Swap` are in `Flags`.
pub data Commands (w : Solana) : Type 0 where
  info venues providers watch : Commands w
  price : (input_mint output_mint : String) → (amount : ℕ) → Commands w
  stream : (input_mint output_mint : String) → (amount : ℕ) → (user : Option String) → Commands w
  swap : Flags w → Commands w

-- The arguments of the program.
pub record Cli (w : Solana) : Type 0 where
  pub url : String
  pub token : String
  pub rpc_url : String
  pub danger_accept_invalid_certs : Bool
  pub command : Commands w

module _ (w : Solana) where
  open w use {chain}

  -- `SwapPriceRequest`; its other fields are `None`.
  pub record PriceRequest : Type 0 where
    pub input_mint : chain.TitanPubkey
    pub output_mint : chain.TitanPubkey
    pub amount : ℕ

  -- The `SwapQuoteRequest` of `cmd_stream`; the mode is `ExactIn`, its other fields are the defaults.
  pub record StreamRequest : Type 0 where
    pub input_mint : chain.TitanPubkey
    pub output_mint : chain.TitanPubkey
    pub amount : ℕ
    pub slippage_bps : ℕ
    pub user_public_key : chain.TitanPubkey

  -- The arms of the loop of `cmd_stream`.
  pub data Turn : Type 0 where
    quotes : List (String × Route chain) → Turn
    stream_ended interrupted : Turn

  -- The arms of the loop of `cmd_watch`.
  pub data Change : Type 0 where
    changed : ConnectionState → Change
    closed interrupted : Change

  -- What the client answers, and what the loops receive.
  pub record Server : Type 0 where
    pub connected : Outcome (Unit {0})
    pub info : Outcome (Unit {0})
    pub venues : Outcome (Unit {0})
    pub providers : Outcome (Unit {0})
    pub price : Outcome (Unit {0})
    pub opened : Outcome (Unit {0})
    pub turns : List Turn
    pub stopped : Outcome (Unit {0})
    pub changes : List Change
    pub swap : World w

  -- What the program asks of the client.
  pub data Call : Type 0 where
    connects : TitanConfig → Call
    asks_info asks_venues asks_providers subscribes stops_stream closes : Call
    asks_price : PriceRequest → Call
    opens_stream : StreamRequest → Call
    swaps : List (Effect w) → Call

-- What was asked so far, and the result, if there is one yet.
abbrev pub Course : Solana → Type 0 → Type 0
Course w A = List (Call w) × Option (Done A)

infixl 5 ◌>>=◌ ◌>>◌
abbrev pub ◌>>=◌ : {w : Solana} {A B : Type 0} → Course w A → (A → Course w B) → Course w B
(log, none) >>= f = (log, none)
(log, some (failed e)) >>= f = (log, some (failed e))
(log, some (fine a)) >>= f = (log ++ (f a).0, (f a).1)

abbrev pub ◌>>◌ : {w : Solana} {B : Type 0} → Course w (Unit {0}) → Course w B → Course w B
m >> k = m >>= λ _. k

abbrev pub lift : {w : Solana} {A : Type 0} → Done A → Course w A
lift d = ([], some d)

abbrev pub ask : {w : Solana} → Call w → Course w (Unit {0})
ask c = (c ∷ [], some (fine tt))

module _ (w : Solana) where
  -- One request and its answer.
  pub cmd_info : Server w → Course w (Unit {0})
  cmd_info server = do ask asks_info; lift (from_outcome w server.info)

  pub cmd_venues : Server w → Course w (Unit {0})
  cmd_venues server = do ask asks_venues; lift (from_outcome w server.venues)

  pub cmd_providers : Server w → Course w (Unit {0})
  cmd_providers server = do ask asks_providers; lift (from_outcome w server.providers)

  pub cmd_price : Server w → (input_mint output_mint : String) → ℕ → Course w (Unit {0})
  cmd_price server input_mint output_mint amount = do
    input ← lift (parse_mint w.texts input_mint)
    output ← lift (parse_mint w.texts output_mint)
    ask (
        asks_price (record {
          input_mint = w.from_bytes input;
          output_mint = w.from_bytes output;
          amount = amount;
        }))
    lift (from_outcome w server.price)

  -- The loop, with the number of quotes that it prints.
  pub stream_loop : Outcome (Unit {0}) → List (Turn w) → ℕ → Course w ℕ
  stream_loop stopped [] count = ([], none)
  stream_loop stopped (quotes q ∷ turns) count = stream_loop stopped turns (u32_succ count)
  stream_loop stopped (stream_ended ∷ turns) count = lift (fine count)
  stream_loop stopped (Turn.interrupted ∷ turns) count = do
    ask stops_stream
    lift (from_outcome w stopped)
    lift (fine count)

  pub cmd_stream : Server w → (input_mint output_mint : String) → ℕ → Option String → Course w ℕ
  unfolding stream_loop
  cmd_stream server input_mint output_mint amount user = do
    input ← lift (parse_mint w.texts input_mint)
    output ← lift (parse_mint w.texts output_mint)
    user_pubkey ←
        lift (
          parse_mint w.texts (elim user [ some u ↦ u | none ↦ "11111111111111111111111111111111" ]))
    ask (
        opens_stream (record {
          input_mint = w.from_bytes input;
          output_mint = w.from_bytes output;
          amount = amount;
          slippage_bps = 50;
          user_public_key = w.from_bytes user_pubkey;
        }))
    lift (from_outcome w server.opened)
    stream_loop server.stopped server.turns 0

  -- The states that the loop shows after the first one.
  pub watch_loop : List (Change w) → List ConnectionState × Option (Done (Unit {0}))
  watch_loop [] = ([], none)
  watch_loop (changed state ∷ changes) = let (shown, d) = watch_loop changes in (state ∷ shown, d)
  watch_loop (closed ∷ changes) = ([], some (fine tt))
  watch_loop (Change.interrupted ∷ changes) = ([], some (fine tt))

  pub cmd_watch : Server w → Course w (Unit {0})
  cmd_watch server = (subscribes ∷ [], (watch_loop server.changes).1)

  pub dispatch : Server w → Commands w → Course w (Unit {0})
  unfolding cmd_info cmd_venues cmd_providers cmd_price cmd_stream cmd_watch
  dispatch server info = cmd_info server
  dispatch server venues = cmd_venues server
  dispatch server providers = cmd_providers server
  dispatch server watch = cmd_watch server
  dispatch server (price input output amount) = cmd_price server input output amount
  dispatch server (stream input output amount user) = do
    count ← cmd_stream server input output amount user
    lift (fine tt)
  dispatch server (swap flags) =
      let (effects, done) = cmd_swap w server.swap flags in (swaps effects ∷ [], some done)

  -- After the command: an error exits with status 1, and only success closes the client.
  pub finish : Course w (Unit {0}) → List (Call w) × Option ℕ
  finish (log, none) = (log, none)
  finish (log, some (failed e)) = (log, some 1)
  finish (log, some (fine _)) = (log ++ closes ∷ [], some 0)

  -- The configuration that the client is made with.
  pub client_config : Cli w → TitanConfig
  client_config cli =
      with_danger_accept_invalid_certs (new cli.url cli.token) cli.danger_accept_invalid_certs

  -- What was asked of the client, and the exit status, if the program has ended.
  pub run_command : Server w → Cli w → List (Call w) × Option ℕ
  unfolding dispatch finish
  run_command server cli =
      let connecting = connects (client_config cli) in
      elim server.connected [
        | err e ↦ (connecting ∷ [], some 1)
        | ok _ ↦ let (log, code) = finish (dispatch server cli.command) in (connecting ∷ log, code)
      ]
