-- ===== src/Stream/Whole/Gone.antt =====
-- A stream that has left the map of src/connection.rs for good.
use titan_rust_client.Base.{
  ℕ, ◌<◌, ◌≤◌, ◌≡◌, ◌≢◌, ◌⊎◌, ◌∙◌, refl, sym, ap, inl, inr, true, false, [], ◌∷◌, ◌++◌, some, arith,
  length, length-append, u32_max, Option-cases, if◌then◌else◌, ◌==◌,
}
use titan_rust_client.Base.Map.{lookup, insert-cases}
use titan_rust_client.Notify.{Notify}
use titan_rust_client.Wire.{Api, StreamData, stream_data}
use titan_rust_client.Manager.{set_max_concurrent}
use titan_rust_client.Connection.{
  Shared, ResumableStream, data_for, handle_server_message, register_stream,
}
use titan_rust_client.Connection.Ends.{release_slot-length}
use titan_rust_client.Connection.Tame.{Tame}
use titan_rust_client.Stream.{new_cells, open_stream}
use titan_rust_client.Stream.Whole.{
  Whole, Step, Reach, Good, section, retunes, claims, begins, opens, fails, later,
}
use titan_rust_client.Stream.Whole.Sections.{Section-Tame}
use titan_rust_client.Stream.Whole.Reachable.{Reach-Good}

-- Some steps, one after the other.
pub data Runs (N : Notify) (api : Api) (bound : ℕ) (w : Whole N api) : Whole N api → Type 0 where
  here : Runs N api bound w w
  next : {v u : Whole N api} → Runs N api bound w v → Step N api bound v u → Runs N api bound w u

-- The stream of cell `k` is opened no more, and registered under no id.
pub record Gone {N : Notify} {api : Api} (k : ℕ) (w : Whole N api) : Type 0 where
  pub made : k < length w.shared.manager.released
  pub not_starting : w.starting k ≡ false
  pub absent :
      (id : ℕ) (stream : ResumableStream api)
      → lookup id w.shared.resumable_streams ≡ some stream
      → stream.stopped ≢ k

module _ {N : Notify} {api : Api} where
  Tame-Gone :
      {k : ℕ} (w : Whole N api) (s : Shared N api)
      → Tame w.shared s
      → Gone k w
      → Gone k (record w { shared = s })
  Tame-Gone w s t g = record {
    made = omega (arith, t.cells.slots, g.made);
    not_starting = g.not_starting;
    absent = λ id stream at. let (old, before) = t.fewer id stream at in g.absent old stream before;
  }

  opens-Gone :
      {k : ℕ} (w : Whole N api) (id j : ℕ) (request : api.SwapQuoteRequest) (channel : ℕ)
      → w.starting j ≡ true
      → Gone k w
      → Gone k (record w {
        shared = open_stream id j request channel w.shared;
        starting = λ i. if i == j then false else w.starting i;
        receiver = λ i. if i == j then channel else w.receiver i;
      })
  unfolding open_stream register_stream
  opens-Gone w id j request channel e g = record {
    made = g.made;
    not_starting = ground (arith, g.not_starting);
    absent = λ i stream at same. elim (insert-cases id i _ stream w.shared.resumable_streams at) [
      | inl (same_id, new) ↦
          ground (arith, ap (λ r. r.stopped) new, g.not_starting, ap w.starting same)
      | inr old ↦ g.absent i stream old same
    ];
  }

module _ {N : Notify} {api : Api} {bound : ℕ} where
  step-Gone :
      {k : ℕ} {w v : Whole N api}
      → Step N api bound w v
      → Gone k w
      → Gone k v × (v.receiver k ≡ w.receiver k)
  unfolding set_max_concurrent new_cells
  step-Gone {w = w} (section s t) g = (Tame-Gone w s (Section-Tame t) g, refl)
  step-Gone (retunes max h) g =
      (record { made = g.made; not_starting = g.not_starting; absent = g.absent }, refl)
  step-Gone (claims limit within h) g =
      (record { made = g.made; not_starting = g.not_starting; absent = g.absent }, refl)
  step-Gone {w = w} (begins n e) g = (
    record {
      made = omega (arith, g.made, length-append w.shared.manager.released (false ∷ []));
      not_starting = ground (arith, g.made, g.not_starting);
      absent = g.absent;
    },
    refl,
  )
  step-Gone {w = w} (opens id j request channel e some_channel new) g =
      (opens-Gone w id j request channel e g, ground (arith, g.not_starting))
  step-Gone {w = w} (fails j e) g = (
    record {
      made = omega (arith, g.made, release_slot-length w.shared.manager j);
      not_starting = ground (arith, g.not_starting);
      absent = g.absent;
    },
    refl,
  )

  Runs-Gone :
      {k : ℕ} {w v : Whole N api}
      → Runs N api bound w v
      → Gone k w
      → Gone k v × (v.receiver k ≡ w.receiver k)
  Runs-Gone here g = (g, refl)
  Runs-Gone (next rs st) g =
      let (between, same) = Runs-Gone rs g in
      let (after, same') = step-Gone st between in (after, same' ∙ same)

  Runs-Reach :
      {max : ℕ} {closed : _} {w v : Whole N api}
      → Runs N api bound w v
      → Reach N api bound max closed w
      → Reach N api bound max closed v
  Runs-Reach here r = r
  Runs-Reach (next rs st) r = later (Runs-Reach rs r) st

  silent :
      {k : ℕ} (w : Whole N api) (d : StreamData api)
      → Good bound w
      → Gone k w
      → let t = handle_server_message (stream_data d) w.shared in
        (t.sent ≡ w.shared.sent)
        ⊎ ((channel : ℕ) × (t.sent ≡ w.shared.sent ++ data_for channel d ∷ [])
            × (channel ≢ w.receiver k))
  unfolding handle_server_message
  silent {k} w d good g = elim (Option-cases (lookup d.id w.shared.resumable_streams)) [
    | inl e ↦ inl (rw (e, handle_server_message) refl)
    | inr (stream, e) ↦
        let (to, some_channel) = good.routed d.id stream e in
        inr (
          stream.sender,
          rw (e, handle_server_message) refl,
          λ same.
              g.absent d.id stream e
                (good.own stream.stopped k (sym to ∙ same) (omega (arith, same, some_channel))),
        )
  ]

  -- What is gone stays gone: in a state that a client's tasks can reach while the limit stays at most `bound`,
  -- once the stream of a cell is in no entry of the map and its start is over, nothing that they do later
  -- registers it again, no resumption included; its handle keeps its channel, and no quotes that arrive are
  -- sent there any more.
  pub left_for_good :
      {max k : ℕ} {closed : _} {w v : Whole N api}
      → bound ≤ u32_max
      → max ≤ bound
      → Reach N api bound max closed w
      → Gone k w
      → Runs N api bound w v
      → Gone k v
        × (v.receiver k ≡ w.receiver k)
        × ((d : StreamData api)
            → let t = handle_server_message (stream_data d) v.shared in
              (t.sent ≡ v.shared.sent)
              ⊎ ((channel : ℕ) × (t.sent ≡ v.shared.sent ++ data_for channel d ∷ [])
                  × (channel ≢ w.receiver k)))
  left_for_good {k = k} {v = v} small limit r g rs =
      let (after, same) = Runs-Gone rs g in
      (after, same, λ d. rw (← same) (silent v d (Reach-Good small limit (Runs-Reach rs r)) after))
