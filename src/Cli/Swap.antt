-- ===== src/Cli/Swap.antt =====
-- `cmd_swap` and `load_keypair` of src/bin/titan_cli.rs. The order of what the command does to the
-- outside is a list of effects; what comes back is an argument.
pub mod Safety
use titan_rust_client.Base.{
  ℕ, ◌%◌, ◌^◌, Bool, true, false, not, List, [], ◌∷◌, ◌++◌, Option, none, some, String,
  if◌then◌else◌,
}
use titan_rust_client.Base.Outcome.{Outcome, TitanClientError, ok, err}
use titan_rust_client.Instructions.{
  Chain, Instruction, AddressLookupTableAccount, TitanInstructionsOutput, prepare_instructions,
}
use titan_rust_client.Cli.{
  Done, fine, failed, ◌>>=◌ as bind, Texts, Route, best_route, confirms, parse_mint,
}

-- A message in one of its two forms; `Compiled` is what `V0Message::try_compile` gives.
pub data VersionedMessage (Key Hash Compiled : Type 0) : Type 0 where
  legacy : List (Instruction Key) → (payer : Key) → Hash → VersionedMessage Key Hash Compiled
  v0 : Compiled → VersionedMessage Key Hash Compiled

-- The crates that the command calls.
pub record Solana : Type 1 where
  pub chain : Chain
  pub Keypair : Type 0
  pub Hash : Type 0
  pub Compiled : Type 0
  pub Transaction : Type 0
  pub Signature : Type 0
  pub texts : Texts
  pub is_whitespace : ℕ → Bool
  pub show : TitanClientError → String
  pub read_to_string : String → Done String
  pub from_str : String → Done (List ℕ)
  pub try_from : List ℕ → Done Keypair
  pub pubkey : Keypair → chain.Pubkey
  -- `Pubkey::from(bytes)` and `Pubkey::from(key.to_bytes())` of titan-api-types.
  pub from_bytes : List ℕ → chain.TitanPubkey
  pub to_titan : chain.Pubkey → chain.TitanPubkey
  pub set_compute_unit_limit : ℕ → Instruction chain.Pubkey
  pub try_compile :
      chain.Pubkey
      → List (Instruction chain.Pubkey)
      → List (AddressLookupTableAccount chain)
      → Hash
      → Done Compiled
  pub try_new : VersionedMessage chain.Pubkey Hash Compiled → Keypair → Done Transaction

module _ (w : Solana) where
  open w use {chain, Keypair, Hash, Compiled, Transaction, Signature}

  -- The `SwapQuoteRequest` of the command; its other fields are `None`.
  pub record Order : Type 0 where
    pub input_mint : chain.TitanPubkey
    pub output_mint : chain.TitanPubkey
    pub amount : ℕ
    pub only_direct_routes : Bool
    pub slippage_bps : ℕ
    pub dexes : Option (List String)
    pub user_public_key : chain.TitanPubkey

  pub record Flags : Type 0 where
    pub keypair : String
    pub input_mint : String
    pub output_mint : String
    pub amount : ℕ
    pub slippage_bps : ℕ
    pub dex : List String
    pub allow_multi_hop : Bool
    pub yes : Bool

  -- What the server, the user and the chain answer.
  pub record World : Type 0 where
    pub opened : Outcome (Unit {0})
    pub received : Option (List (String × Route chain))
    pub stopped : Outcome (Unit {0})
    pub input_line : Done (List ℕ)
    pub latest_blockhash : Done Hash
    pub confirmed : Done Signature

  pub data Effect : Type 0 where
    opens : Order → Effect
    stops : Effect
    asks : Effect
    sends : Transaction → Effect

  pub load_keypair : String → Done Keypair
  load_keypair path = bind (bind (w.read_to_string path) w.from_str) w.try_from

-- Commands that can fail, with their effects in order.
abbrev pub Act : Solana → Type 0 → Type 0
Act w A = List (Effect w) × Done A

infixl 5 ◌>>=◌ ◌>>◌
abbrev pub ◌>>=◌ : {w : Solana} {A B : Type 0} → Act w A → (A → Act w B) → Act w B
(log, failed e) >>= f = (log, failed e)
(log, fine a) >>= f = (log ++ (f a).0, (f a).1)

abbrev pub ◌>>◌ : {w : Solana} {B : Type 0} → Act w (Unit {0}) → Act w B → Act w B
m >> k = m >>= λ _. k

abbrev pub lift : {w : Solana} {A : Type 0} → Done A → Act w A
lift d = ([], d)

abbrev pub emit : {w : Solana} → Effect w → Act w (Unit {0})
emit x = (x ∷ [], fine tt)

module _ (w : Solana) where
  open w use {chain, Keypair, Hash, Compiled, Transaction, Signature}

  -- `?` on a result of the library.
  pub from_outcome : {A : Type 0} → Outcome A → Done A
  from_outcome (ok a) = fine a
  from_outcome (err e) = failed (w.show e)

  -- `.ok_or(message)?`
  pub ok_or : {A : Type 0} → String → Option A → Done A
  ok_or message none = failed message
  ok_or message (some a) = fine a

  -- The limit on compute units, `units as u32`, goes first, if the route names one.
  pub build_instructions : TitanInstructionsOutput chain → List (Instruction chain.Pubkey)
  build_instructions prepared = elim prepared.compute_units_safe [
    | some units ↦ w.set_compute_unit_limit (units % 2 ^ 32) ∷ prepared.instructions
    | none ↦ elim prepared.compute_units [
      | some units ↦ w.set_compute_unit_limit (units % 2 ^ 32) ∷ prepared.instructions
      | none ↦ prepared.instructions
    ]
  ]

  pub build_message :
      Keypair
      → TitanInstructionsOutput chain
      → Hash
      → Done (VersionedMessage chain.Pubkey Hash Compiled)
  unfolding build_instructions
  build_message keypair prepared blockhash =
      let instructions = build_instructions prepared in
      elim prepared.address_lookup_table_accounts [
        | [] ↦ fine (legacy instructions (w.pubkey keypair) blockhash)
        | table ∷ tables ↦
            bind (w.try_compile (w.pubkey keypair) instructions (table ∷ tables) blockhash)
              (λ c. fine (v0 c))
      ]

  -- From "Preparing transaction..." on.
  pub execute : World w → Keypair → Route chain → Act w (Unit {0})
  execute world keypair route = do
    prepared ← lift (from_outcome (prepare_instructions chain route.swap))
    blockhash ← lift world.latest_blockhash
    message ← lift (build_message keypair prepared blockhash)
    transaction ← lift (w.try_new message keypair)
    emit (sends transaction)
    signature ← lift world.confirmed
    lift (fine tt)

  -- From "Confirmation prompt" on.
  pub confirm : World w → (skip_confirm : Bool) → Keypair → Route chain → Act w (Unit {0})
  unfolding execute
  confirm world true keypair route = execute world keypair route
  confirm world false keypair route = do
    emit asks
    line ← lift world.input_line
    if confirms w.is_whitespace line then execute world keypair route else lift (fine tt)

  -- From "Find the best route" on.
  pub choose :
      World w → (skip_confirm : Bool) → Keypair → List (String × Route chain) → Act w (Unit {0})
  unfolding confirm
  choose world skip_confirm keypair quotes = do
    best ← lift (ok_or "No routes in quote" (best_route quotes))
    elim best.1.swap.instructions [
      | [] ↦ lift (failed "No instructions in route - cannot execute swap")
      | _ ∷ _ ↦ confirm world skip_confirm keypair best.1
    ]

  pub order : Flags w → Keypair → List ℕ → List ℕ → Order w
  order flags keypair input output = record {
    input_mint = w.from_bytes input;
    output_mint = w.from_bytes output;
    amount = flags.amount;
    only_direct_routes = not flags.allow_multi_hop;
    slippage_bps = flags.slippage_bps;
    dexes = elim flags.dex [ [] ↦ none | d ∷ ds ↦ some (d ∷ ds) ];
    user_public_key = w.to_titan (w.pubkey keypair);
  }

  pub cmd_swap : World w → Flags w → Act w (Unit {0})
  unfolding choose order
  cmd_swap world flags = do
    keypair ← lift (load_keypair w flags.keypair)
    input ← lift (parse_mint w.texts flags.input_mint)
    output ← lift (parse_mint w.texts flags.output_mint)
    emit (opens (order flags keypair input output))
    opened ← lift (from_outcome world.opened)
    quotes ← lift (ok_or "No quotes received" world.received)
    emit stops
    stopped ← lift (from_outcome world.stopped)
    choose world flags.yes keypair quotes
