-- ===== src/Instructions/Tables.antt =====
-- Which lookup tables `prepare_instructions` of src/instructions.rs delivers.
use mathlib.Core.List.{append_assoc, append-nil}
use titan_rust_client.Base.{
  ◌⊎◌, ap, ◌∙◌, ◌≡◌, refl, inl, inr, List, [], ◌∷◌, some, Option-cases, ◌++◌, subst, sym, map, ap,
}
use titan_rust_client.Base.Outcome.{Outcome-cases, ok}
use titan_rust_client.Instructions.{
  Chain, SwapRoute, TitanInstructionsOutput, fetch_table, fetch_tables, fetch_address_lookup_tables,
  prepare_instructions, convert_instructions, AddressLookupTableAccount, AccountMeta, Instruction,
}

module _ (chain : Chain) where
  open chain use {TitanPubkey, Pubkey, Account, into, get_account, deserialize}

  -- The table of a key can be had: its account is there, and holds a table.
  abbrev pub Available : TitanPubkey → Type 0
  Available key =
      (account : Account) × (addresses : List Pubkey) × (get_account (into key) ≡ ok account)
      × (deserialize account ≡ some addresses)

  -- What is delivered for these keys, in their order: each table that can be had, under its key and with
  -- its addresses, and nothing for a key whose table cannot be had.
  pub data Delivers : List TitanPubkey → List (AddressLookupTableAccount chain) → Type 0 where
    nothing_asked : Delivers [] []
    got :
        {key : TitanPubkey} {keys : List TitanPubkey} {account : Account} {addresses : List Pubkey}
        {tables : List (AddressLookupTableAccount chain)}
        → get_account (into key) ≡ ok account
        → deserialize account ≡ some addresses
        → Delivers keys tables
        → Delivers (key ∷ keys) (record { key = into key; addresses = addresses } ∷ tables)
    passed :
        {key : TitanPubkey} {keys : List TitanPubkey}
        {tables : List (AddressLookupTableAccount chain)}
        → (Available key → ⊥)
        → Delivers keys tables
        → Delivers (key ∷ keys) tables

  fetch_table-cases :
      (key : TitanPubkey) (accounts : List (AddressLookupTableAccount chain))
      → ((account : Account) × (addresses : List Pubkey) × (get_account (into key) ≡ ok account)
          × (deserialize account ≡ some addresses)
          × (fetch_table chain key accounts
              ≡ accounts ++ record { key = into key; addresses = addresses } ∷ []))
        ⊎ ((Available key → ⊥) × (fetch_table chain key accounts ≡ accounts))
  unfolding fetch_table
  fetch_table-cases key accounts = elim (Outcome-cases (get_account (into key))) [
    | inr (e, x) ↦ rw (x, fetch_table) (inr (λ (a, b, y, z). cc, refl))
    | inl (account, x) ↦ elim (Option-cases (deserialize account)) [
      | inl y ↦ rw (x, y, fetch_table) (inr (λ (a, b, z, w). cc, refl))
      | inr (addresses, y) ↦ rw (x, y, fetch_table) (inl (account, addresses, refl, y, refl))
    ]
  ]

  fetch_tables-Delivers :
      (keys : List TitanPubkey) (accounts : List (AddressLookupTableAccount chain))
      → (new : List (AddressLookupTableAccount chain)) × (fetch_tables chain keys accounts
          ≡ accounts ++ new)
        × Delivers keys new
  unfolding fetch_tables
  fetch_tables-Delivers [] accounts = ([], sym (append-nil accounts), nothing_asked)
  fetch_tables-Delivers (key ∷ keys) accounts =
      let (new, law, rest) = fetch_tables-Delivers keys (fetch_table chain key accounts) in
      elim (fetch_table-cases key accounts) [
        | inr (gone, e) ↦ (new, law ∙ ap (λ l. l ++ new) e, passed gone rest)
        | inl (account, addresses, x, y, e) ↦ (
          record { key = into key; addresses = addresses } ∷ new,
          law ∙ (ap (λ l. l ++ new) e ∙ append_assoc accounts _ new),
          got x y rest,
        )
      ]

  -- The same account, under the key of solana-sdk.
  abbrev pub SameAccount : AccountMeta TitanPubkey → AccountMeta Pubkey → Type 0
  SameAccount a b =
      (b.pubkey ≡ into a.pubkey) × (b.is_signer ≡ a.is_signer) × (b.is_writable ≡ a.is_writable)

  abbrev pub SameAccounts : List (AccountMeta TitanPubkey) → List (AccountMeta Pubkey) → Type 0
  SameAccounts [] [] = Unit {0}
  SameAccounts (a ∷ rest) (b ∷ rest') = SameAccount a b × SameAccounts rest rest'
  SameAccounts _ _ = ⊥

  -- The same instructions in the same order, with the same programs, accounts and bytes.
  abbrev pub SameInstructions : List (Instruction TitanPubkey) → List (Instruction Pubkey) → Type 0
  SameInstructions [] [] = Unit {0}
  SameInstructions (x ∷ xs) (y ∷ ys) =
      (y.program_id ≡ into x.program_id)
      × (y.bytes ≡ x.bytes)
      × SameAccounts x.accounts y.accounts
      × SameInstructions xs ys
  SameInstructions _ _ = ⊥

  map-SameAccounts :
      (accounts : List (AccountMeta TitanPubkey))
      → SameAccounts accounts (
          map
            (λ acc. record {
              pubkey = into acc.pubkey;
              is_signer = acc.is_signer;
              is_writable = acc.is_writable;
            })
            accounts)
  map-SameAccounts [] = tt
  map-SameAccounts (a ∷ rest) = ((refl, refl, refl), map-SameAccounts rest)

  convert_instructions-Same :
      (xs : List (Instruction TitanPubkey)) → SameInstructions xs (convert_instructions chain xs)
  unfolding convert_instructions
  convert_instructions-Same [] = tt
  convert_instructions-Same (x ∷ xs) =
      (refl, refl, map-SameAccounts x.accounts, convert_instructions-Same xs)

  -- Preparing a route never fails. Its output has, in the order of the route's keys, exactly the lookup
  -- tables that could be fetched and decoded, each under its key and with the addresses that it holds; a
  -- key whose table cannot be had is passed over. It has the route's instructions in their order, with
  -- the same programs, accounts, flags and bytes, and the route's compute units.
  pub prepare_instructions_lem :
      (route : SwapRoute chain)
      → (out : TitanInstructionsOutput chain) × (prepare_instructions chain route ≡ ok out)
        × Delivers route.address_lookup_tables out.address_lookup_table_accounts
        × SameInstructions route.instructions out.instructions
        × (out.compute_units ≡ route.compute_units)
        × (out.compute_units_safe ≡ route.compute_units_safe)
  unfolding prepare_instructions fetch_address_lookup_tables
  prepare_instructions_lem route =
      let (new, law, d) = fetch_tables-Delivers route.address_lookup_tables [] in
      (
        _,
        refl,
        subst (Delivers route.address_lookup_tables) (sym law) d,
        convert_instructions-Same route.instructions,
        refl,
        refl,
      )
