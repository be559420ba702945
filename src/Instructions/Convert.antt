-- ===== src/Instructions/Convert.antt =====
-- The two conversions of instructions in src/instructions.rs.
use titan_rust_client.Base.{
  ℕ, zero, suc, ◌≡◌, refl, List, [], ◌∷◌, none, some, get_elem?, length, ap,
}
use titan_rust_client.Instructions.{Chain, Instruction, convert_instruction, convert_instructions}

-- Converting many instructions is converting each: none is lost, added or moved.
pub convert_instructions_each :
    (chain : Chain) (xs : List (Instruction chain.TitanPubkey)) (i : ℕ)
    → (get_elem? (convert_instructions chain xs) i
        ≡ elim (get_elem? xs i) [ none ↦ none | some ix ↦ some (convert_instruction chain ix) ])
      × (length (convert_instructions chain xs) ≡ length xs)
unfolding convert_instructions convert_instruction
convert_instructions_each chain [] i = (refl, refl)
convert_instructions_each chain (x ∷ xs) zero =
    (refl, ap suc (convert_instructions_each chain xs zero).1)
convert_instructions_each chain (x ∷ xs) (suc i) =
    ((convert_instructions_each chain xs i).0, ap suc (convert_instructions_each chain xs i).1)
