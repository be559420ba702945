-- ===== src/Cli.antt =====
-- src/bin/titan_cli.rs: the commands that do more than print an answer. Output on the terminal is left
-- out; what the other crates do, and the tables of Unicode, are parameters.
pub mod Mint
pub mod Routes
pub mod Swap
pub mod Commands
mod Scenarios
use text.Mathlib.Text.{◌==◌ as same_text}
use titan_rust_client.Base.{
  ℕ, ◌+◌, Bool, true, false, ◌||◌, ◌&&◌, List, [], ◌∷◌, Option, none, some, String, leb,
  if◌then◌else◌, get_elem?, length, ◌==◌,
}
use titan_rust_client.Instructions.{Chain, SwapRoute}

-- `Result<T, Box<dyn Error>>`, an error by its text.
pub data Done {ℓ} (A : Type ℓ) : Type ℓ where
  fine : A → Done A
  failed : String → Done A

infixl 5 ◌>>=◌
abbrev pub ◌>>=◌ {ℓ κ} : {A : Type ℓ} {B : Type κ} → Done A → (A → Done B) → Done B
fine a >>= f = f a
failed e >>= f = failed e

-- `str::to_uppercase`, and `bs58::decode(...).into_vec()`.
pub record Texts : Type 0 where
  pub to_uppercase : String → String
  pub decode : String → Done (List ℕ)

-- "Known token symbols"
unfoldable pub known_symbol : String → Option String
known_symbol t =
    if same_text t "SOL" || same_text t "WSOL"
    then some "So11111111111111111111111111111111111111112"
    else if same_text t "USDC"
    then some "EPjFWdd5AufqSSqeM2qN1xzybapC8G4wEGGkZwyTDt1v"
    else if same_text t "USDT"
    then some "Es9vMFrzaCERmJfrF4H2FYD4KCoNkY11McCe8BenwNYB"
    else none

pub pubkey_str : Texts → String → String
unfolding known_symbol
pubkey_str texts s = elim (known_symbol (texts.to_uppercase s)) [ some key ↦ key | none ↦ s ]

-- `try_into` for `[u8; 32]`
pub to_array : List ℕ → Done (List ℕ)
to_array bytes = if length bytes == 32 then fine bytes else failed "Invalid pubkey length"

-- The bytes of the key.
pub parse_mint : Texts → String → Done (List ℕ)
parse_mint texts s = texts.decode (pubkey_str texts s) >>= to_array

-- A route of a quote, by the fields that the tool reads.
pub record Route (chain : Chain) : Type 0 where
  pub in_amount : ℕ
  pub out_amount : ℕ
  pub slippage_bps : ℕ
  pub steps : List String
  pub swap : SwapRoute chain

module _ {chain : Chain} where
  -- `max_by_key` keeps the later of two with the same key.
  pub better : String × Route chain → String × Route chain → String × Route chain
  better best entry = if leb best.1.out_amount entry.1.out_amount then entry else best

  pub later_if_best : String × Route chain → List (String × Route chain) → String × Route chain
  later_if_best best [] = best
  later_if_best best (entry ∷ entries) = later_if_best (better best entry) entries

  pub best_route : List (String × Route chain) → Option (String × Route chain)
  unfolding later_if_best
  best_route [] = none
  best_route (entry ∷ entries) = some (later_if_best entry entries)

-- The lines of `cmd_venues`: each label with its program id, if there is one.
pub venue_lines : ℕ → List String → Option (List String) → List (String × Option String)
venue_lines i [] program_ids = []
venue_lines i (label ∷ labels) program_ids =
    (label, elim program_ids [ none ↦ none | some ids ↦ get_elem? ids i ])
    ∷ venue_lines (i + 1) labels program_ids

-- `trim().eq_ignore_ascii_case("y")` on the code points of the line.
pub trim_start : (ℕ → Bool) → List ℕ → List ℕ
trim_start is_whitespace [] = []
trim_start is_whitespace (c ∷ line) =
    let rest = trim_start is_whitespace line in if is_whitespace c then rest else c ∷ line

pub blank : (ℕ → Bool) → List ℕ → Bool
blank is_whitespace [] = true
blank is_whitespace (c ∷ line) = is_whitespace c && blank is_whitespace line

pub confirms : (ℕ → Bool) → List ℕ → Bool
unfolding trim_start blank
confirms is_whitespace line = elim (trim_start is_whitespace line) [
  | [] ↦ false
  | c ∷ rest ↦ ((c == 89) || (c == 121)) && blank is_whitespace rest
]
