-- ===== src/Instructions.antt =====
-- src/instructions.rs: instructions and lookup tables of a swap route, for a Solana transaction. What
-- the crates solana-sdk and solana-client do is a parameter.
pub mod Convert
pub mod Tables
mod Scenarios
use titan_rust_client.Base.{ℕ, Bool, List, [], ◌∷◌, ◌++◌, map, Option, none, some}
use titan_rust_client.Base.Outcome.{Outcome, ok, err, ◌>>=◌}

-- The conversion of keys, `RpcClient::get_account`, and the addresses of `AddressLookupTable::deserialize`
-- (`none` where it fails).
pub record Chain : Type 1 where
  pub TitanPubkey : Type 0
  pub Pubkey : Type 0
  pub Account : Type 0
  pub into : TitanPubkey → Pubkey
  pub get_account : Pubkey → Outcome Account
  pub deserialize : Account → Option (List Pubkey)

-- `Instruction` and `AccountMeta`, the same in titan-api-types and in solana-sdk but for the keys.
pub record AccountMeta (Key : Type 0) : Type 0 where
  pub pubkey : Key
  pub is_signer : Bool
  pub is_writable : Bool

pub record Instruction (Key : Type 0) : Type 0 where
  pub program_id : Key
  pub accounts : List (AccountMeta Key)
  pub bytes : List ℕ

module _ (chain : Chain) where
  open chain use {TitanPubkey, Pubkey, into, get_account, deserialize}

  pub record AddressLookupTableAccount : Type 0 where
    pub key : Pubkey
    pub addresses : List Pubkey

  -- The fields of `SwapRoute` that are read.
  pub record SwapRoute : Type 0 where
    pub address_lookup_tables : List TitanPubkey
    pub instructions : List (Instruction TitanPubkey)
    pub compute_units : Option ℕ
    pub compute_units_safe : Option ℕ

  pub record TitanInstructionsOutput : Type 0 where
    pub address_lookup_table_accounts : List AddressLookupTableAccount
    pub instructions : List (Instruction Pubkey)
    pub compute_units : Option ℕ
    pub compute_units_safe : Option ℕ

  pub convert_instruction : Instruction TitanPubkey → Instruction Pubkey
  convert_instruction titan_ix = record {
    program_id = into titan_ix.program_id;
    accounts =
        map
          (λ acc. record {
            pubkey = into acc.pubkey;
            is_signer = acc.is_signer;
            is_writable = acc.is_writable;
          })
          titan_ix.accounts;
    bytes = titan_ix.bytes;
  }

  pub convert_instructions : List (Instruction TitanPubkey) → List (Instruction Pubkey)
  convert_instructions titan_instructions =
      map
        (λ ix. record {
          program_id = into ix.program_id;
          accounts =
              map
                (λ acc. record {
                  pubkey = into acc.pubkey;
                  is_signer = acc.is_signer;
                  is_writable = acc.is_writable;
                })
                ix.accounts;
          bytes = ix.bytes;
        })
        titan_instructions

  -- One turn of the loop; errors are only logged.
  pub fetch_table : TitanPubkey → List AddressLookupTableAccount → List AddressLookupTableAccount
  fetch_table key accounts =
      let solana_key = into key in
      elim (get_account solana_key) [
        | err e ↦ accounts
        | ok account ↦ elim (deserialize account) [
          | none ↦ accounts
          | some addresses ↦ accounts ++ record { key = solana_key; addresses = addresses } ∷ []
        ]
      ]

  pub fetch_tables :
      List TitanPubkey → List AddressLookupTableAccount → List AddressLookupTableAccount
  fetch_tables [] accounts = accounts
  fetch_tables (key ∷ keys) accounts = fetch_tables keys (fetch_table key accounts)

  pub fetch_address_lookup_tables : List TitanPubkey → Outcome (List AddressLookupTableAccount)
  unfolding fetch_tables
  fetch_address_lookup_tables addresses = ok (fetch_tables addresses [])

  pub prepare_instructions : SwapRoute → Outcome TitanInstructionsOutput
  prepare_instructions route =
      fetch_address_lookup_tables route.address_lookup_tables >>= (λ tables. ok (record {
        address_lookup_table_accounts = tables;
        instructions = convert_instructions route.instructions;
        compute_units = route.compute_units;
        compute_units_safe = route.compute_units_safe;
      }))
