-- ===== src/Cli/Mint.antt =====
-- Mints on the command line, `parse_mint` of src/bin/titan_cli.rs.
use titan_rust_client.Base.{ℕ, ◌≡◌, refl, ◌↔◌, ◌⊎◌, inl, inr, List, none, String, length, arith}
use titan_rust_client.Cli.{
  Texts, Done, fine, failed, parse_mint, pubkey_str, known_symbol, to_array,
}

Done-cases : {A : Type 0} (d : Done A) → ((a : A) × (d ≡ fine a)) ⊎ ((e : String) × (d ≡ failed e))
Done-cases (fine a) = inl (a, refl)
Done-cases (failed e) = inr (e, refl)

-- What is parsed are exactly the texts whose base58 value has 32 bytes; and the base58 text of such a
-- key, unless it spells a known symbol, is parsed back to the key.
pub parse_mint_roundtrip :
    (texts : Texts) (encode : List ℕ → String) (s : String) (key bytes : List ℕ)
    → texts.decode (encode key) ≡ fine key
    → length key ≡ 32
    → known_symbol (texts.to_uppercase (encode key)) ≡ none
    → ((parse_mint texts s ≡ fine bytes)
        ↔ ((texts.decode (pubkey_str texts s) ≡ fine bytes) × (length bytes ≡ 32)))
      × (parse_mint texts (encode key) ≡ fine key)
unfolding parse_mint pubkey_str to_array
parse_mint_roundtrip texts encode s key bytes law size plain = (
  elim (Done-cases (texts.decode (pubkey_str texts s))) [
    | inl (a, e) ↦ rw (e, parse_mint) (λ h. ground arith, λ (d, n). ground arith)
    | inr (x, e) ↦ rw (e, parse_mint) (λ h. cc, λ (d, n). cc)
  ],
  rw (plain, law, parse_mint, pubkey_str) (ground arith),
)
