-- ===== src/Connection/Tame/Late.antt =====
-- What a resumption of src/connection.rs keeps whose test of `stopped` was made too early.
use titan_rust_client.Base.{ℕ, ◌≡◌, refl, inl, inr, [], some, false, Option-cases}
use titan_rust_client.Base.Map.{lookup}
use titan_rust_client.Notify.{Notify}
use titan_rust_client.Wire.{Api}
use titan_rust_client.Connection.{Shared, register_stream}
use titan_rust_client.Connection.Resume.{is_set, is_abandoned, store_effective, remap, remap_late}
use titan_rust_client.Connection.Resume.Kept.{Held, Wired, Clashless, remap-Held}
use titan_rust_client.Connection.Tame.{Tame}
use titan_rust_client.Connection.Tame.Resumption.{remap-Tame}

module _ {N : Notify} {api : Api} where
  -- The state in which nobody has abandoned a stream.
  abbrev wanted : Shared N api → Shared N api
  wanted s = record s { stopped_flags = []; closed = λ _. false }

  -- A late resumption is one that sees no flag.
  remap_late_lem :
      (old_id new_id : ℕ) (s : Shared N api)
      → remap_late old_id new_id s ≡ record (remap old_id (some new_id) (wanted s)) {
        stopped_flags = s.stopped_flags;
        closed = s.closed;
      }
  unfolding remap remap_late is_abandoned is_set register_stream store_effective
  remap_late_lem old_id new_id s = elim (Option-cases (lookup old_id s.resumable_streams)) [
    | inl e ↦ rw (e, remap, remap_late) refl
    | inr (stream, e) ↦ elim (Option-cases stream.effective_id) [
      | inl x ↦ rw (e, remap, remap_late, x, store_effective) refl
      | inr (k, x) ↦ rw (e, remap, remap_late, x, store_effective) refl
    ]
  ]

  pub remap_late-Tame : (old_id new_id : ℕ) (s : Shared N api) → Tame s (remap_late old_id new_id s)
  remap_late-Tame old_id new_id s =
      let t = remap-Tame old_id (some new_id) (wanted s) in
      rw (remap_late_lem old_id new_id s) (record {
        counted = λ c. t.counted c;
        synced = λ v. t.synced v;
        fewer = t.fewer;
        cells = record { ids = t.cells.ids; flags = refl; slots = t.cells.slots };
      })

  pub remap_late-Held :
      {k : ℕ} (old_id new_id : ℕ) (s : Shared N api)
      → Clashless old_id (some new_id) s
      → Wired s
      → Held k s
      → Held k (remap_late old_id new_id s)
  remap_late-Held {k} old_id new_id s free w h =
      rw (remap_late_lem old_id new_id s)
        (remap-Held {k = k} old_id (some new_id) (wanted s) free w h)
