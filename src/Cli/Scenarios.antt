-- ===== src/Cli/Scenarios.antt =====
-- Runs of the model of src/bin/titan_cli.rs at concrete inputs.
use titan_rust_client.Base.{ℕ, false, List, [], ◌∷◌, none, some, length, ◌==◌}
use titan_rust_client.Base.Outcome.{ok}
use titan_rust_client.Instructions.{Chain, Instruction}
use titan_rust_client.Cli.{Texts, fine, Route}
use titan_rust_client.Cli.Swap.{Solana, Flags, World, legacy, v0, cmd_swap}
use titan_rust_client.Cli.Swap.Safety.{sent, Safe, cmd_swap-Safe}
use titan_rust_client.Cli.Commands.{Cli, Commands, Server, Turn, quotes, run_command, dispatch}
use titan_rust_client.Cli.Commands.Exits.{RunEndsAs, run_command-RunEndsAs}

abbrev zeros : List ℕ
zeros =
    0 ∷ 0 ∷ 0 ∷ 0 ∷ 0 ∷ 0 ∷ 0 ∷ 0 ∷ 0 ∷ 0 ∷ 0 ∷ 0 ∷ 0 ∷ 0 ∷ 0 ∷ 0 ∷ 0 ∷ 0 ∷ 0 ∷ 0 ∷ 0 ∷ 0 ∷ 0 ∷ 0
    ∷ 0 ∷ 0 ∷ 0 ∷ 0 ∷ 0 ∷ 0 ∷ 0 ∷ 0 ∷ []

-- Every text stands for the key of zeros.
abbrev ascii : Texts
ascii = record { to_uppercase = λ s. s; decode = λ s. fine zeros }

abbrev chain : Chain
chain = record {
  TitanPubkey = ℕ;
  Pubkey = ℕ;
  Account = ℕ;
  into = λ k. k;
  get_account = λ k. ok k;
  deserialize = λ a. some (a ∷ []);
}

abbrev instruction : Instruction ℕ
instruction = record { program_id = 1; accounts = []; bytes = 7 ∷ [] }

abbrev pays : ℕ → Route chain
pays out = record {
  in_amount = 5;
  out_amount = out;
  slippage_bps = 50;
  steps = "Raydium" ∷ [];
  swap = record {
    address_lookup_tables = 2 ∷ [];
    instructions = instruction ∷ [];
    compute_units = some 200;
    compute_units_safe = none;
  };
}

-- A message is signed by its number of instructions and tables.
abbrev solana : Solana
solana = record {
  chain = chain;
  Keypair = ℕ;
  Hash = ℕ;
  Compiled = ℕ;
  Transaction = ℕ;
  Signature = ℕ;
  texts = ascii;
  is_whitespace = λ c. c == 10;
  show = λ e. "error";
  read_to_string = λ path. fine "[]";
  from_str = λ text. fine zeros;
  try_from = λ bytes. fine 3;
  pubkey = λ key. key;
  from_bytes = length;
  to_titan = λ key. key;
  set_compute_unit_limit = λ units. record { program_id = 9; accounts = []; bytes = units ∷ [] };
  try_compile = λ payer instructions tables hash. fine (length instructions);
  try_new = λ message key. elim message [ legacy i payer hash ↦ fine 100 | v0 n ↦ fine n ];
}

-- The user types `y`.
abbrev world : World solana
world = record {
  opened = ok tt;
  received = some (("a", pays 4) ∷ ("b", pays 9) ∷ []);
  stopped = ok tt;
  input_line = fine (121 ∷ 10 ∷ []);
  latest_blockhash = fine 6;
  confirmed = fine 8;
}

abbrev flags : Flags solana
flags = record {
  keypair = "id.json";
  input_mint = "SOL";
  output_mint = "USDC";
  amount = 5;
  slippage_bps = 50;
  dex = [];
  allow_multi_hop = false;
  yes = false;
}

cmd_swap-Safe_example : Safe solana world flags (sent solana (cmd_swap solana world flags).0)
cmd_swap-Safe_example = cmd_swap-Safe solana world flags

-- One quote comes, and the user interrupts the stream; the stop succeeds.
abbrev server : Server solana
server = record {
  connected = ok tt;
  info = ok tt;
  venues = ok tt;
  providers = ok tt;
  price = ok tt;
  opened = ok tt;
  turns = quotes (("a", pays 4) ∷ []) ∷ Turn.interrupted ∷ [];
  stopped = ok tt;
  changes = [];
  swap = world;
}

abbrev cli : Cli solana
cli = record {
  url = "wss://x";
  token = "t";
  rpc_url = "https://y";
  danger_accept_invalid_certs = false;
  command = Commands.stream "SOL" "USDC" 5 none;
}

run_command-RunEndsAs_example :
    RunEndsAs solana server.connected
      (dispatch solana server cli.command).1
      (run_command solana server cli)
run_command-RunEndsAs_example = run_command-RunEndsAs solana server cli
