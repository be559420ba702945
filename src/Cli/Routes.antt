-- ===== src/Cli/Routes.antt =====
-- Which route `cmd_swap` of src/bin/titan_cli.rs takes.
use mathlib.Core.Option.{some-injective}
use titan_rust_client.Base.{
  subst, sym, ◌∙◌, ℕ, zero, suc, ◌≤◌, ◌≡◌, refl, ◌⊎◌, inl, inr, List, [], ◌∷◌, some, String, All,
  arith, get_elem?,
}
use titan_rust_client.Instructions.{Chain}
use titan_rust_client.Cli.{Route, better, later_if_best, best_route}

module _ {chain : Chain} where
  better_lem :
      (best entry : String × Route chain)
      → ((better best entry ≡ best) ⊎ (better best entry ≡ entry))
        × (best.1.out_amount ≤ (better best entry).1.out_amount)
        × (entry.1.out_amount ≤ (better best entry).1.out_amount)
  unfolding better
  better_lem best entry = ground arith

  -- The winner stands in the list, and is no worse than any that was seen.
  winner :
      (best : String × Route chain) (entries : List (String × Route chain))
      → let w = later_if_best best entries in
        ((i : ℕ) × (get_elem? (best ∷ entries) i ≡ some w))
        × (best.1.out_amount ≤ w.1.out_amount)
        × All (λ (e : String × Route chain). e.1.out_amount ≤ w.1.out_amount) entries
  unfolding later_if_best
  winner best [] = ((0, refl), omega arith, tt)
  winner best (entry ∷ entries) =
      let ((i, at), first, rest) = winner (better best entry) entries in
      let (either, over_best, over_entry) = better_lem best entry in
      (place either i at, omega (arith, over_best, first), (omega (arith, over_entry, first), rest))
    where
      place :
          {w : String × Route chain}
          → (better best entry ≡ best) ⊎ (better best entry ≡ entry)
          → (i : ℕ) → get_elem? (better best entry ∷ entries) i ≡ some w
          → (j : ℕ) × (get_elem? (best ∷ entry ∷ entries) j ≡ some w)
      place (inl e) zero at = (0, cc)
      place (inr e) zero at = (1, cc)
      place e (suc i) at = (suc (suc i), at)

  -- The route that is swapped is one of the quote, and none of the quote pays out more; there is one
  -- unless the quote is empty.
  pub best_route_lem :
      (entry : String × Route chain) (entries : List (String × Route chain))
      → (w : String × Route chain) × (best_route (entry ∷ entries) ≡ some w)
        × ((i : ℕ) × (get_elem? (entry ∷ entries) i ≡ some w))
        × All (λ (e : String × Route chain). e.1.out_amount ≤ w.1.out_amount) (entry ∷ entries)
  unfolding best_route
  best_route_lem entry entries =
      let (mem, first, rest) = winner entry entries in (_, refl, mem, (first, rest))

  -- The same of whatever route is found.
  pub best_route-highest :
      (quotes : List (String × Route chain)) (w : String × Route chain)
      → best_route quotes ≡ some w
      → ((i : ℕ) × (get_elem? quotes i ≡ some w))
        × All (λ (e : String × Route chain). e.1.out_amount ≤ w.1.out_amount) quotes
  unfolding best_route
  best_route-highest [] w e = cc
  best_route-highest (entry ∷ entries) w e =
      let (u, found, member, highest) = best_route_lem entry entries in
      subst
        (λ v.
          ((i : ℕ) × (get_elem? (entry ∷ entries) i ≡ some v))
          × All (λ (e : String × Route chain). e.1.out_amount ≤ v.1.out_amount) (entry ∷ entries))
        (some-injective _ _ (sym found ∙ e)) (member, highest)
