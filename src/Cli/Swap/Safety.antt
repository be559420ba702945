-- ===== src/Cli/Swap/Safety.antt =====
-- When `cmd_swap` of src/bin/titan_cli.rs sends a transaction, and which.
use titan_rust_client.Base.{
  ◌≤◌, All, get_elem?, ℕ, ◌≡◌, ◌≢◌, refl, sym, subst, ◌⊎◌, inl, inr, Bool, true, false, List, [],
  ◌∷◌, ◌++◌, Option, none, some, String, Bool-cases,
}
use titan_rust_client.Base.Outcome.{Outcome, ok, err}
use titan_rust_client.Instructions.{TitanInstructionsOutput, prepare_instructions}
use titan_rust_client.Cli.{Done, fine, failed, Route, best_route, confirms, parse_mint}
use titan_rust_client.Cli.Routes.{best_route-highest}
use titan_rust_client.Cli.Swap.{
  Solana, VersionedMessage, Flags, World, Effect, opens, stops, asks, sends, Act, ◌>>=◌, ◌>>◌, lift,
  emit, from_outcome, ok_or, load_keypair, build_message, execute, confirm, choose, cmd_swap,
}

List-cases : {A : Type 0} (xs : List A) → (xs ≡ []) ⊎ ((y : A) × (ys : List A) × (xs ≡ y ∷ ys))
List-cases [] = inl refl
List-cases (y ∷ ys) = inr (y, ys, refl)

module _ (w : Solana) where
  open w use {chain, Keypair, Hash, Compiled, Transaction}

  -- The transactions that are sent.
  abbrev pub sent : List (Effect w) → List Transaction
  sent [] = []
  sent (sends t ∷ log) = t ∷ sent log
  sent (_ ∷ log) = sent log

  sent-append : (xs ys : List (Effect w)) → sent (xs ++ ys) ≡ sent xs ++ sent ys
  sent-append [] ys = refl
  sent-append (sends t ∷ xs) ys = rw (sent-append xs ys) refl
  sent-append (opens o ∷ xs) ys = sent-append xs ys
  sent-append (stops ∷ xs) ys = sent-append xs ys
  sent-append (asks ∷ xs) ys = sent-append xs ys

  -- What follows a command that sends nothing decides.
  after_quiet :
      {A B : Type 0} (Q : List Transaction → Type 0) (m : Act w A) (k : A → Act w B)
      → sent m.0 ≡ []
      → Q []
      → ((a : A) → m.1 ≡ fine a → Q (sent (k a).0))
      → Q (sent (m >>= k).0)
  after_quiet Q (log, failed e) k quiet none_sent then_ = subst Q (sym quiet) none_sent
  after_quiet Q (log, fine a) k quiet none_sent then_ =
      rw (sent-append log (k a).0, quiet) (then_ a refl)

  -- Why a transaction may be sent.
  pub record Warranted (world : World w) (flags : Flags w) (transaction : Transaction)
      : Type 0 where
    pub keypair : Keypair
    pub loaded : load_keypair w flags.keypair ≡ fine keypair
    pub quotes : List (String × Route chain)
    pub quoted : world.received ≡ some quotes
    pub best : String × Route chain
    pub is_best : best_route quotes ≡ some best
    pub listed : (i : ℕ) × (get_elem? quotes i ≡ some best)
    pub highest : All (λ (e : String × Route chain). e.1.out_amount ≤ best.1.out_amount) quotes
    pub not_empty : best.1.swap.instructions ≢ []
    pub agreed :
        (flags.yes ≡ true)
        ⊎ ((line : List ℕ) × (world.input_line ≡ fine line)
            × (confirms w.is_whitespace line ≡ true))
    pub prepared : TitanInstructionsOutput chain
    pub is_prepared : prepare_instructions chain best.1.swap ≡ ok prepared
    pub blockhash : Hash
    pub is_latest : world.latest_blockhash ≡ fine blockhash
    pub message : VersionedMessage chain.Pubkey Hash Compiled
    pub built : build_message w keypair prepared blockhash ≡ fine message
    pub signed : w.try_new message keypair ≡ fine transaction

  abbrev pub Safe : World w → Flags w → List Transaction → Type 0
  Safe world flags txs = (txs ≡ []) ⊎ ((t : Transaction) × (txs ≡ t ∷ []) × Warranted world flags t)

  from_outcome-ok : {A : Type 0} (r : Outcome A) (a : A) → from_outcome w r ≡ fine a → r ≡ ok a
  unfolding from_outcome
  from_outcome-ok (ok x) a h = cc
  from_outcome-ok (err e) a h = cc

  ok_or-some :
      {A : Type 0} (message : String) (o : Option A) (a : A)
      → ok_or w message o ≡ fine a
      → o ≡ some a
  unfolding ok_or
  ok_or-some message none a h = cc
  ok_or-some message (some x) a h = cc

  sends_one :
      {A : Type 0} (t : Transaction) (d : Done A)
      → sent (emit (sends t) >> (lift d >>= λ _. lift (fine tt))).0 ≡ t ∷ []
  sends_one t (fine a) = refl
  sends_one t (failed e) = refl

  module _ (world : World w) (flags : Flags w) (keypair : Keypair)
      (loaded : load_keypair w flags.keypair ≡ fine keypair) (quotes : List (String × Route chain))
      (quoted : world.received ≡ some quotes) where
    execute-Safe :
        (best : String × Route chain)
        → best_route quotes ≡ some best
        → best.1.swap.instructions ≢ []
        → (flags.yes ≡ true)
          ⊎ ((line : List ℕ) × (world.input_line ≡ fine line)
              × (confirms w.is_whitespace line ≡ true))
        → Safe world flags (sent (execute w world keypair best.1).0)
    unfolding execute
    execute-Safe best is_best not_empty agreed =
        after_quiet (Safe world flags)
          (lift (from_outcome w (prepare_instructions chain best.1.swap))) _ refl (inl refl)
          λ prepared is_prepared.
            after_quiet (Safe world flags) (lift world.latest_blockhash) _ refl (inl refl)
              λ blockhash is_latest.
                after_quiet (Safe world flags) (lift (build_message w keypair prepared blockhash)) _
                  refl (inl refl)
                  λ message built.
                    after_quiet (Safe world flags) (lift (w.try_new message keypair)) _ refl
                      (inl refl)
                      λ transaction signed. inr (
                        transaction,
                        sends_one transaction world.confirmed,
                        record {
                          keypair = keypair;
                          loaded = loaded;
                          quotes = quotes;
                          quoted = quoted;
                          best = best;
                          is_best = is_best;
                          listed = (best_route-highest quotes best is_best).0;
                          highest = (best_route-highest quotes best is_best).1;
                          not_empty = not_empty;
                          agreed = agreed;
                          prepared = prepared;
                          is_prepared = from_outcome-ok _ prepared is_prepared;
                          blockhash = blockhash;
                          is_latest = is_latest;
                          message = message;
                          built = built;
                          signed = signed;
                        },
                      )

    confirm-Safe :
        (skip_confirm : Bool) (best : String × Route chain)
        → flags.yes ≡ skip_confirm
        → best_route quotes ≡ some best
        → best.1.swap.instructions ≢ []
        → Safe world flags (sent (confirm w world skip_confirm keypair best.1).0)
    unfolding confirm
    confirm-Safe true best e is_best not_empty = execute-Safe best is_best not_empty (inl e)
    confirm-Safe false best e is_best not_empty =
        after_quiet (Safe world flags) (lift world.input_line) _ refl (inl refl) λ line read.
          elim (Bool-cases (confirms w.is_whitespace line)) [
            | inl y ↦ rw y (execute-Safe best is_best not_empty (inr (line, read, y)))
            | inr y ↦ rw y (inl refl)
          ]

    choose-Safe : Safe world flags (sent (choose w world flags.yes keypair quotes).0)
    unfolding choose
    choose-Safe =
        after_quiet (Safe world flags) (lift (ok_or w "No routes in quote" (best_route quotes))) _
          refl (inl refl)
          λ best is_best. elim (List-cases best.1.swap.instructions) [
            | inl e ↦ rw e (inl refl)
            | inr (x, xs, e) ↦
                rw e (confirm-Safe flags.yes best refl (ok_or-some _ _ best is_best) (λ h. cc))
          ]

  -- `cmd_swap` sends at most one transaction, and one only if it is warranted: the key was loaded, quotes
  -- came, the route is one of them, no other pays out more, and it has instructions, the user agreed or waived
  -- the question, and the transaction is the signed message of the prepared route and the latest block hash.
  pub cmd_swap-Safe :
      (world : World w) (flags : Flags w) → Safe world flags (sent (cmd_swap w world flags).0)
  unfolding cmd_swap
  cmd_swap-Safe world flags =
      after_quiet (Safe world flags) (lift (load_keypair w flags.keypair)) _ refl (inl refl)
        λ keypair loaded.
          after_quiet (Safe world flags) (lift (parse_mint w.texts flags.input_mint)) _ refl
            (inl refl)
            λ input _.
              after_quiet (Safe world flags) (lift (parse_mint w.texts flags.output_mint)) _ refl
                (inl refl)
                λ output _.
                  after_quiet (Safe world flags) (lift (from_outcome w world.opened)) _ refl
                    (inl refl)
                    λ opened _.
                      after_quiet (Safe world flags)
                        (lift (ok_or w "No quotes received" world.received)) _ refl (inl refl)
                        λ quotes quoted.
                          after_quiet (Safe world flags) (lift (from_outcome w world.stopped)) _
                            refl (inl refl)
                            λ stopped _.
                              choose-Safe world flags keypair loaded quotes
                                (ok_or-some _ _ quotes quoted)
