-- ===== src/Stream/Whole/Starts.antt =====
-- The steps of a start in src/queue.rs keep the counts and the ids: the claim of a slot, the stream's new
-- cells, the server's answer; and so does a change of the limit.
use titan_rust_client.Base.{
  ℕ, ◌+◌, ◌<◌, ◌≤◌, ◌≡◌, refl, ◌∙◌, sym, true, false, [], ◌∷◌, some, arith, length, length-set,
  length-append, get_elem?-append, get_elem?-set, get_elem?-lt, ◌==◌, if◌then◌else◌, u32_succ,
  Bool-cases, inl, inr, get_elem?_total, ap, ◌≢◌,
}
use titan_rust_client.Base.Map.{lookup, insert-cases}
use titan_rust_client.Notify.{Notify}
use titan_rust_client.Wire.{Api}
use titan_rust_client.Manager.{set_max_concurrent}
use titan_rust_client.Connection.{ResumableStream, release_slot, register_stream}
use titan_rust_client.Connection.Slots.{release_slot-Counted}
use titan_rust_client.Connection.Ends.{release_slot-length}
use titan_rust_client.Connection.Resume.Sync.{Synced}
use titan_rust_client.Stream.{new_cells, open_stream}
use titan_rust_client.Stream.Start.{new_cells-Counted}
use titan_rust_client.Stream.Whole.{Whole, Fresh, Good}

module _ {N : Notify} {api : Api} {bound : ℕ} where
  below :
      (w : Whole N api) (id : ℕ) (stream : ResumableStream api)
      → Good bound w
      → lookup id w.shared.resumable_streams ≡ some stream
      → stream.stopped < length w.shared.manager.released
  below w id stream g at =
      omega
        (arith, g.ids, get_elem?-lt w.shared.effective_ids stream.stopped (g.synced id stream at).1)

  begins-Fresh :
      (w : Whole N api)
      → Good bound w
      → (k : ℕ) → (if k == length w.shared.manager.released then true else w.starting k) ≡ true
      → Fresh (new_cells w.shared) k
  unfolding new_cells
  begins-Fresh w g k e =
      let longer = length-append w.shared.manager.released (false ∷ []) in
      elim (Bool-cases (k == length w.shared.manager.released)) [
        | inl new ↦ (
          (let last : k ≡ length w.shared.manager.released = ground arith in
              omega (arith, longer, last)),
          λ id stream at same.
              (let last : k ≡ length w.shared.manager.released = ground arith in
                omega (arith, below w id stream g at, last, same)),
        )
        | inr old ↦
            let (here, apart) = g.fresh k (ground arith) in (omega (arith, longer, here), apart)
      ]

  pub begins-Good :
      (w : Whole N api) (n : ℕ)
      → w.claimed ≡ n + 1
      → Good bound w
      → Good bound (record w {
        shared = new_cells w.shared;
        starting = λ k. if k == length w.shared.manager.released then true else w.starting k;
        claimed = n;
      })
  unfolding new_cells
  begins-Good w n e g = record {
    counted = new_cells-Counted w.shared (rw (sym e) g.counted);
    synced = λ id stream at.
        let (same, here) = g.synced id stream at in
        (same, get_elem?-append w.shared.effective_ids (0 ∷ []) stream.stopped here);
    ids = omega (
      arith,
      g.ids,
      length-append w.shared.effective_ids (0 ∷ []),
      length-append w.shared.manager.released (false ∷ []),
    );
    flags = omega (
      arith,
      g.flags,
      length-append w.shared.stopped_flags (false ∷ []),
      length-append w.shared.manager.released (false ∷ []),
    );
    fresh = begins-Fresh w g;
    routed = g.routed;
    own = g.own;
  }

  opens-Synced :
      (w : Whole N api) (id k : ℕ) (request : api.SwapQuoteRequest) (channel : ℕ)
      → w.starting k ≡ true
      → Good bound w
      → Synced (open_stream id k request channel w.shared)
  unfolding open_stream register_stream
  opens-Synced w id k request channel e g j stream at =
      let (here, apart) = g.fresh k e in
      elim (insert-cases id j _ stream w.shared.resumable_streams at) [
        | inl (same, new) ↦
            rw (same, new)
              (
                refl,
                ground (
                  arith,
                  get_elem?_total w.shared.effective_ids k,
                  g.ids,
                  get_elem?-set w.shared.effective_ids k k id,
                ),
              )
        | inr old ↦ (
          (g.synced j stream old).0,
          ground (
            arith,
            get_elem?-set w.shared.effective_ids k stream.stopped id,
            apart j stream old,
            (g.synced j stream old).1,
          ),
        )
      ]

  opens-Fresh :
      (w : Whole N api) (id k : ℕ) (request : api.SwapQuoteRequest) (channel : ℕ)
      → Good bound w
      → (j : ℕ) → (if j == k then false else w.starting j) ≡ true
      → Fresh (open_stream id k request channel w.shared) j
  unfolding open_stream register_stream
  opens-Fresh w id k request channel g j e =
      let (here, apart) = g.fresh j (ground arith) in
      (
        here,
        λ i stream at same. elim (insert-cases id i _ stream w.shared.resumable_streams at) [
          | inl (same_id, new) ↦ ground (arith, new, same, ap (λ r. r.stopped) new)
          | inr old ↦ apart i stream old same
        ],
      )

  opens-routed :
      (w : Whole N api) (id k : ℕ) (request : api.SwapQuoteRequest) (channel : ℕ)
      → w.starting k ≡ true
      → 0 < channel
      → Good bound w
      → (j : ℕ) (stream : ResumableStream api)
      → lookup j (open_stream id k request channel w.shared).resumable_streams ≡ some stream
      → (stream.sender ≡ (if stream.stopped == k then channel else w.receiver stream.stopped))
        × (0 < stream.sender)
  unfolding open_stream register_stream
  opens-routed w id k request channel e some_channel g j stream at =
      let (here, apart) = g.fresh k e in
      elim (insert-cases id j _ stream w.shared.resumable_streams at) [
        | inl (same_id, new) ↦ rw new (ground arith, some_channel)
        | inr old ↦
            (ground (arith, apart j stream old, g.routed j stream old), (g.routed j stream old).1)
      ]

  pub opens-Good :
      (w : Whole N api) (id k : ℕ) (request : api.SwapQuoteRequest) (channel : ℕ)
      → w.starting k ≡ true
      → 0 < channel
      → ((j : ℕ) → w.receiver j ≢ channel)
      → Good bound w
      → Good bound (record w {
        shared = open_stream id k request channel w.shared;
        starting = λ j. if j == k then false else w.starting j;
        receiver = λ j. if j == k then channel else w.receiver j;
      })
  unfolding open_stream register_stream
  opens-Good w id k request channel e some_channel new g = record {
    counted = g.counted;
    synced = opens-Synced w id k request channel e g;
    ids = length-set w.shared.effective_ids k id ∙ g.ids;
    flags = g.flags;
    fresh = opens-Fresh w id k request channel g;
    routed = opens-routed w id k request channel e some_channel g;
    own = λ i j same some_there. ground (arith, g.own i j, new i, new j);
  }

  pub fails-Good :
      (w : Whole N api) (k : ℕ)
      → Good bound w
      → Good bound (record w {
        shared = record (w.shared) { manager = release_slot w.shared.manager k };
        starting = λ j. if j == k then false else w.starting j;
      })
  fails-Good w k g = record {
    counted = release_slot-Counted w.shared.manager k g.counted;
    synced = g.synced;
    ids = g.ids ∙ sym (release_slot-length w.shared.manager k);
    flags = g.flags ∙ sym (release_slot-length w.shared.manager k);
    fresh = λ j e.
        let (here, apart) = g.fresh j (ground arith) in
        (omega (arith, here, release_slot-length w.shared.manager k), apart);
    routed = g.routed;
    own = g.own;
  }

  pub retunes-Good :
      (w : Whole N api) (max : ℕ)
      → max ≤ bound
      → Good bound w
      → Good bound (record w {
        shared = record (w.shared) { manager = set_max_concurrent w.shared.manager max };
      })
  unfolding set_max_concurrent
  retunes-Good w max h g = record {
    counted = record {
      small = g.counted.small;
      limit = h;
      capped = g.counted.capped;
      counted = g.counted.counted;
    };
    synced = g.synced;
    ids = g.ids;
    flags = g.flags;
    fresh = g.fresh;
    routed = g.routed;
    own = g.own;
  }

  pub claims-Good :
      (w : Whole N api) (limit : ℕ)
      → limit ≤ bound
      → w.shared.manager.active_count < limit
      → Good bound w
      → Good bound (record w {
        shared = record (w.shared) {
          manager = record (w.shared.manager) {
            active_count = u32_succ w.shared.manager.active_count;
          };
        };
        claimed = w.claimed + 1;
      })
  claims-Good w limit within h g = record {
    counted = record {
      small = g.counted.small;
      limit = g.counted.limit;
      capped = ground (arith, g.counted);
      counted = ground (arith, g.counted);
    };
    synced = g.synced;
    ids = g.ids;
    flags = g.flags;
    fresh = g.fresh;
    routed = g.routed;
    own = g.own;
  }
