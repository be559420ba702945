-- ===== src/Instructions/Scenarios.antt =====
-- Runs of the model of src/instructions.rs at concrete inputs.
use titan_rust_client.Base.{ℕ, ◌≡◌, true, false, [], ◌∷◌, none, some, ◌==◌, if◌then◌else◌}
use titan_rust_client.Base.Outcome.{ok, err, unexpected}
use titan_rust_client.Instructions.{
  Chain, Instruction, SwapRoute, TitanInstructionsOutput, prepare_instructions,
}
use titan_rust_client.Instructions.Tables.{Delivers, SameInstructions, prepare_instructions_lem}

-- Keys are numbers, and key 3 has no account.
abbrev small_chain : Chain
small_chain = record {
  TitanPubkey = ℕ;
  Pubkey = ℕ;
  Account = ℕ;
  into = λ k. k;
  get_account = λ k. if k == 3 then err (unexpected "no account") else ok k;
  deserialize = λ a. some (a ∷ []);
}

abbrev transfer : Instruction ℕ
transfer = record {
  program_id = 1;
  accounts = record { pubkey = 2; is_signer = true; is_writable = false } ∷ [];
  bytes = 7 ∷ [];
}

abbrev two_tables : SwapRoute small_chain
two_tables = record {
  address_lookup_tables = 2 ∷ 3 ∷ [];
  instructions = transfer ∷ [];
  compute_units = some 200;
  compute_units_safe = none;
}

prepare_instructions_example :
    (out : TitanInstructionsOutput small_chain) × (prepare_instructions small_chain two_tables
      ≡ ok out)
    × Delivers small_chain (2 ∷ 3 ∷ []) out.address_lookup_table_accounts
    × SameInstructions small_chain (transfer ∷ []) out.instructions
    × (out.compute_units ≡ some 200)
    × (out.compute_units_safe ≡ none)
prepare_instructions_example = prepare_instructions_lem small_chain two_tables
