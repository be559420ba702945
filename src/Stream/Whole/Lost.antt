-- ===== src/Stream/Whole/Lost.antt =====
-- No stream is lost by the connection's task of src/connection.rs, whatever the client has done before.
use titan_rust_client.Base.{
  ℕ, ◌<◌, ◌≤◌, sym, ◌∙◌, ap, inl, inr, false, [], ◌∷◌, List, Bool, some, arith, length,
  length-append, u32_max,
}
use titan_rust_client.Base.Map.{lookup, insert-cases}
use titan_rust_client.Notify.{Notify}
use titan_rust_client.Wire.{Api}
use titan_rust_client.Manager.{set_max_concurrent}
use titan_rust_client.Connection.{register_stream}
use titan_rust_client.Connection.Ends.{release_slot-length}
use titan_rust_client.Connection.Resume.Kept.{Held, Wired}
use titan_rust_client.Stream.{new_cells, open_stream}
use titan_rust_client.Stream.Task.{Background, act_all}
use titan_rust_client.Stream.Kept.{Apart, Tame-Wired, act_all-Held}
use titan_rust_client.Stream.Whole.{
  Whole, Step, Reach, Good, section, retunes, claims, begins, opens, fails, start, later,
}
use titan_rust_client.Stream.Whole.Sections.{Section-Tame}
use titan_rust_client.Stream.Whole.Reachable.{Reach-Good}

module _ {N : Notify} {api : Api} where
  opens-Wired :
      (w : Whole N api) (id k : ℕ) (request : api.SwapQuoteRequest) (channel : ℕ)
      → k < length w.shared.manager.released
      → Wired w.shared
      → Wired (open_stream id k request channel w.shared)
  unfolding open_stream register_stream
  opens-Wired w id k request channel here h i stream at =
      elim (insert-cases id i _ stream w.shared.resumable_streams at) [
        | inl (same_id, new) ↦ (
          ap (λ r. r.on_end) new ∙ sym (ap (λ r. some r.stopped) new),
          omega (arith, here, ap (λ r. r.stopped) new),
        )
        | inr old ↦ h i stream old
      ]

module _ {N : Notify} {api : Api} {bound : ℕ} where
  step-Wired :
      {w v : Whole N api} → Step N api bound w v → Good bound w → Wired w.shared → Wired v.shared
  unfolding set_max_concurrent new_cells
  step-Wired {w} (section s t) g h = Tame-Wired w.shared s (Section-Tame t) h
  step-Wired {w} (retunes max limit) g h = h
  step-Wired {w} (claims limit within free) g h = h
  step-Wired {w} (begins n e) g h = λ id stream at.
      let (own, here) = h id stream at in
      (own, omega (arith, here, length-append w.shared.manager.released (false ∷ [])))
  step-Wired {w} (opens id k request channel e some_channel new) g h =
      opens-Wired w id k request channel (g.fresh k e).0 h
  step-Wired {w} (fails k e) g h = λ id stream at.
      let (own, here) = h id stream at in
      (own, omega (arith, here, release_slot-length w.shared.manager k))

  Reach-Wired :
      {max : ℕ} {closed : ℕ → Bool} {w : Whole N api}
      → bound ≤ u32_max
      → max ≤ bound
      → Reach N api bound max closed w
      → Wired w.shared
  unfolding lookup
  Reach-Wired small limit start = λ id stream at. ground arith
  Reach-Wired small limit (later r st) =
      step-Wired st (Reach-Good small limit r) (Reach-Wired small limit r)

  -- No stream is lost by a reconnect or a message: from every state that the tasks of a client can reach, while
  -- the limit stays at most `bound`, if a stream is registered or has given its slot back, so it is after any
  -- messages and resumptions, those that fail and those of streams that were stopped included. It is taken
  -- that the server gives no stream an id that another one, not yet resumed, still has.
  pub no_stream_lost :
      {max k : ℕ} {closed : ℕ → Bool} {w : Whole N api} (bs : List (Background api))
      → bound ≤ u32_max
      → max ≤ bound
      → Reach N api bound max closed w
      → Apart bs w.shared
      → Held k w.shared
      → Held k (act_all bs w.shared)
  no_stream_lost {w = w} bs small limit r apart h =
      (act_all-Held bs w.shared (Reach-Wired small limit r) apart h).1
