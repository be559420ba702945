-- ===== src/Stream/Handle/Received.antt =====
-- What calls of `recv` on a handle of src/stream.rs give.
use mathlib.Core.List.{append_assoc, append-nil, map-append}
use titan_rust_client.Base.{
  Bool-cases, false, inl, inr, ◌⊎◌, ℕ, ◌≡◌, ◌∙◌, refl, sym, ap, List, [], ◌∷◌, ◌++◌, map, Option,
  none, some, All,
}
use titan_rust_client.Notify.{Notify}
use titan_rust_client.Wire.{Api}
use titan_rust_client.Connection.{Shared}
use titan_rust_client.Connection.Resume.Sync.{Synced}
use titan_rust_client.Stream.Adapter.{
  Delivery, Calm, adapter, quotes_of, before_refusal, any_refused, Absent, adapter_lem,
}
use titan_rust_client.Stream.Handle.{Mpsc, recv, Exchange, opened, puts, takes, ends}

List-cases : {A : Type 0} (xs : List A) → (xs ≡ []) ⊎ ((y : A) × (ys : List A) × (xs ≡ y ∷ ys))
List-cases [] = inl refl
List-cases (y ∷ ys) = inr (y, ys, refl)

module _ {A : Type 0} (M : Mpsc A) where
  -- What calls gave, and then what waits, is what was put in.
  exchanged :
      {put : List A} {got : List (Option A)} {s : M.State}
      → Exchange M put got s
      → got ++ map some (M.waiting s) ≡ map some put
  unfolding recv
  exchanged opened = ap (map some) M.waiting-channel
  exchanged (puts {put} {got} {s} a e) =
      rw (M.waiting-send a s, map-append some put (a ∷ []), map-append some (M.waiting s) (a ∷ []))
        (sym (append_assoc got _ _) ∙ ap (λ l. l ++ some a ∷ []) (exchanged e))
  exchanged (takes {put} {got} {s} e some_there) = elim (List-cases (M.waiting s)) [
    | inl x ↦ absurd (some_there x)
    | inr (y, ys, x) ↦
        let (gives, rest) = M.recv-first s y ys x in
        rw (gives, rest)
          (append_assoc got _ _ ∙ (ap (λ l. got ++ map some l) (sym x) ∙ exchanged e))
  ]
  exchanged (ends {put} {got} {s} e) = rw (M.waiting-end s) (exchanged e)

module _ {N : Notify} {api : Api} where
  -- The handle of a stream gives every quote of the stream, in order and none twice: what the calls of `recv`
  -- have given, and then what still waits in the channel, are the quotes that arrived for the stream, up to the
  -- first that the handle no longer took. Something still waits, or a sender is left, or all of them have been
  -- given and the next call gives the end. And if a quote was refused, the stream has left the map, under
  -- whatever id it has by then. The tasks that run meanwhile are taken to keep every stream under the id that
  -- its handle reads, and not to give the stream a new id between the adapter's load of it and the removal.
  pub quotes_arrive :
      (M : Mpsc api.SwapQuotes) (deliveries : List (Delivery N api)) (k : ℕ) (s : Shared N api)
      (got : List (Option api.SwapQuotes)) (channel : M.State)
      → All (Calm k) deliveries
      → Synced s
      → Exchange M (adapter deliveries k s).1 got channel
      → (got ++ map some (M.waiting channel) ≡ map some (quotes_of (before_refusal deliveries)))
        × (((q : api.SwapQuotes) × (later : List api.SwapQuotes) × (M.waiting channel ≡ q ∷ later))
            ⊎ ((M.ended channel ≡ false)
                ⊎ (((recv M channel).0 ≡ none)
                    × (got ≡ map some (quotes_of (before_refusal deliveries))))))
        × ((any_refused deliveries ≡ false) ⊎ Absent k (adapter deliveries k s).0)
  unfolding recv
  quotes_arrive M deliveries k s got channel calm v e =
      let (same, synced, gone) = adapter_lem deliveries k s calm v in
      let all = exchanged M e ∙ ap (map some) same in
      let drained = λ (empty : M.waiting channel ≡ []).
        sym (append-nil got) ∙ (ap (λ l. got ++ map some l) (sym empty) ∙ all) in
      (
        all,
        elim (List-cases (M.waiting channel)) [
          | inr there ↦ inl there
          | inl empty ↦ elim (Bool-cases (M.ended channel)) [
            | inl over ↦ inr (inr (M.recv-ended channel empty over, drained empty))
            | inr open_still ↦ inr (inl open_still)
          ]
        ],
        elim (Bool-cases (any_refused deliveries)) [
          | inl refused ↦ inr (gone refused)
          | inr none_refused ↦ inl none_refused
        ],
      )
