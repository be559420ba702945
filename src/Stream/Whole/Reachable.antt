-- ===== src/Stream/Whole/Reachable.antt =====
-- The invariant of all the tasks of src/connection.rs, src/queue.rs and src/stream.rs together.
use titan_rust_client.Base.{ℕ, ◌≤◌, refl, ◌∙◌, sym, Bool, arith, u32_max, ◌≡◌, []}
use titan_rust_client.Base.Map.{lookup}
use titan_rust_client.Notify.{Notify}
use titan_rust_client.Wire.{Api}
use titan_rust_client.Manager.{create, set_max_concurrent}
use titan_rust_client.Connection.{Shared}
use titan_rust_client.Connection.Tame.{Tame}
use titan_rust_client.Stream.Whole.Sections.{Section-Tame}
use titan_rust_client.Stream.Whole.Starts.{
  begins-Good, opens-Good, fails-Good, retunes-Good, claims-Good,
}
use titan_rust_client.Wire.{StreamData, stream_data}
use titan_rust_client.Connection.{handle_server_message, data_for}
use titan_rust_client.Base.{◌⊎◌, inl, inr, get_elem?, ◌++◌, none, Option-cases, some, ◌∷◌}
use titan_rust_client.Stream.Whole.{
  Whole, initial, Step, Reach, Good, section, retunes, claims, begins, opens, fails, start, later,
}

module _ {N : Notify} {api : Api} {bound : ℕ} where
  section-Good :
      (w : Whole N api) (s : Shared N api)
      → Tame w.shared s
      → Good bound w
      → Good bound (record w { shared = s })
  section-Good w s t g = record {
    counted = t.counted g.counted;
    synced = t.synced g.synced;
    ids = t.cells.ids ∙ (g.ids ∙ sym t.cells.slots);
    flags = t.cells.flags ∙ (g.flags ∙ sym t.cells.slots);
    fresh = λ k e.
        let (here, apart) = g.fresh k e in
        (
          omega (arith, t.cells.slots, here),
          λ id stream at. let (old, before) = t.fewer id stream at in apart old stream before,
        );
    routed = λ id stream at. let (old, before) = t.fewer id stream at in g.routed old stream before;
    own = g.own;
  }

  initial-Good :
      (max : ℕ) (closed : ℕ → Bool)
      → bound ≤ u32_max
      → max ≤ bound
      → Good bound (initial N api max closed)
  unfolding create lookup
  initial-Good max closed small limit = record {
    counted = record { small = small; limit = limit; capped = omega arith; counted = refl };
    synced = λ id stream at. ground arith;
    ids = refl;
    flags = refl;
    fresh = λ k e. ground arith;
    routed = λ id stream at. ground arith;
    own = λ j k same some_there. ground arith;
  }

  step-Good : {w v : Whole N api} → Step N api bound w v → Good bound w → Good bound v
  unfolding set_max_concurrent
  step-Good {w} (section s t) g = section-Good w s (Section-Tame t) g
  step-Good {w} (retunes max h) g = retunes-Good w max h g
  step-Good {w} (claims limit within h) g = claims-Good w limit within h g
  step-Good {w} (begins n e) g = begins-Good w n e g
  step-Good {w} (opens id k request channel e some_channel new) g =
      opens-Good w id k request channel e some_channel new g
  step-Good {w} (fails k e) g = fails-Good w k g

  -- In every state that the tasks of a client can reach together, the connection's, the callers' and the
  -- handles', while the limit stays at most `bound`: the number of active streams is at most `bound`, and it
  -- is the number of streams whose slot is not given back, with the claims that have no stream yet; every
  -- registered stream is registered under the id that its handle reads, with the channel that its handle
  -- receives on, which no other handle has; every stream has its three cells; and no stream is registered at
  -- the cell of one that is still being opened.
  pub Reach-Good :
      {max : ℕ} {closed : ℕ → Bool} {w : Whole N api}
      → bound ≤ u32_max
      → max ≤ bound
      → Reach N api bound max closed w
      → Good bound w
  Reach-Good small limit start = initial-Good _ _ small limit
  Reach-Good small limit (later r st) = step-Good st (Reach-Good small limit r)

  -- Quotes are not crossed: whatever a client's tasks have done while the limit stays at most `bound`, quotes that arrive for an id are dropped if no
  -- stream is registered under it, and else sent once, on the channel of a handle that reads just this id,
  -- and nothing else changes.
  pub quotes_routed :
      {max : ℕ} {closed : ℕ → Bool} {w : Whole N api} (d : StreamData api)
      → bound ≤ u32_max
      → max ≤ bound
      → Reach N api bound max closed w
      → let t = handle_server_message (stream_data d) w.shared in
        ((lookup d.id w.shared.resumable_streams ≡ none) × (t ≡ w.shared))
        ⊎ ((k : ℕ) × (get_elem? w.shared.effective_ids k ≡ some d.id)
            × (t ≡ record (w.shared) { sent = w.shared.sent ++ data_for (w.receiver k) d ∷ [] }))
  unfolding handle_server_message
  quotes_routed {w = w} d small limit r =
      elim (Option-cases (lookup d.id w.shared.resumable_streams)) [
        | inl e ↦ inl (e, rw (e, handle_server_message) refl)
        | inr (stream, e) ↦
            let g = Reach-Good small limit r in
            inr (
              stream.stopped,
              (g.synced d.id stream e).1,
              rw (← (g.routed d.id stream e).0, e, handle_server_message) refl,
            )
      ]
