-- ===== src/Connection/Ends.antt =====
-- What becomes of a stream that src/connection.rs takes out of its map.
use titan_rust_client.Base.{
  ℕ, ◌<◌, ◌≡◌, refl, inl, inr, true, [], ◌∷◌, none, some, arith, get_elem?_total, get_elem?-set,
  length, length-set, Option-cases, ◌==◌, if◌then◌else◌, ◌∙◌, Bool-cases,
}
use titan_rust_client.Base.Map.{Map, lookup, remove, lookup-remove}
use titan_rust_client.Notify.{Notify}
use titan_rust_client.Manager.{StreamManager, stream_ended}
use titan_rust_client.Wire.{Api}
use titan_rust_client.Connection.Slots.{Freed, release_slot-frees, release_slot-keeps}
use titan_rust_client.Connection.{
  Shared, ResumableStream, release_slot, on_end, call_on_end, remove_and_end, end_all,
  cleanup_resumable_streams, handle_server_message, stream_end,
}

-- The cells of stream `k` exist.
abbrev pub HasCells : {N : Notify} {api : Api} → Shared N api → ℕ → Type 0
HasCells s k = (k < length s.manager.released) × (k < length s.stopped_flags)

-- Stream `k` is stopped, and its slot is given back.
abbrev pub Ended : {N : Notify} {api : Api} → Shared N api → ℕ → Type 0
Ended s k = Freed s.manager.released k × Freed s.stopped_flags k

pub release_slot-length :
    {N : Notify} {R : Type 0} (m : StreamManager N R) (k : ℕ)
    → length (release_slot m k).released ≡ length m.released
unfolding release_slot stream_ended
release_slot-length m k = ground (arith, length-set m.released k true)

module _ {N : Notify} {api : Api} where
  on_end-Ended : (k : ℕ) (s : Shared N api) → HasCells s k → Ended (on_end k s) k
  unfolding on_end
  on_end-Ended k s h = ground (
    arith,
    release_slot-frees s.manager k h.0,
    get_elem?_total s.stopped_flags k h.1,
    get_elem?-set s.stopped_flags k k true,
  )

  on_end-keeps : (j k : ℕ) (s : Shared N api) → Ended s k → Ended (on_end j s) k
  unfolding on_end
  on_end-keeps j k s h =
      ground (arith, release_slot-keeps s.manager j k h.0, get_elem?-set s.stopped_flags j k true)

  on_end-HasCells : (j k : ℕ) (s : Shared N api) → HasCells s k → HasCells (on_end j s) k
  unfolding on_end
  on_end-HasCells j k s h =
      omega (arith, h, release_slot-length s.manager j, length-set s.stopped_flags j true)

  on_end-streams : (k : ℕ) (s : Shared N api) → (on_end k s).resumable_streams ≡ s.resumable_streams
  unfolding on_end
  on_end-streams k s = refl

  -- When the server ends a registered stream, or a reconnect gives it up, the stream leaves the map,
  -- its handle sees that it is stopped, its slot is given back, and no other entry changes.
  pub remove_and_end_lem :
      (id k : ℕ) (stream : ResumableStream api) (s : Shared N api)
      → lookup id s.resumable_streams ≡ some stream
      → stream.on_end ≡ some k
      → HasCells s k
      → let t = remove_and_end id s in
        Ended t k
        × ((j : ℕ)
            → lookup j t.resumable_streams
              ≡ (if id == j then none else lookup j s.resumable_streams))
  unfolding remove_and_end call_on_end on_end
  remove_and_end_lem id k stream s at e h =
      rw (at, remove_and_end, e, call_on_end)
        (
          on_end-Ended k (record s { resumable_streams = remove id s.resumable_streams }) h,
          λ j. lookup-remove id j s.resumable_streams,
        )

  call_on_end-Ended :
      (stream : ResumableStream api) (k : ℕ) (s : Shared N api)
      → stream.on_end ≡ some k
      → HasCells s k
      → Ended (call_on_end stream s) k
  unfolding call_on_end
  call_on_end-Ended stream k s e h = rw (e, call_on_end) (on_end-Ended k s h)

  call_on_end-keeps :
      (stream : ResumableStream api) (k : ℕ) (s : Shared N api)
      → (Ended s k → Ended (call_on_end stream s) k)
        × (HasCells s k → HasCells (call_on_end stream s) k)
        × ((call_on_end stream s).resumable_streams ≡ s.resumable_streams)
  unfolding call_on_end
  call_on_end-keeps stream k s = elim (Option-cases stream.on_end) [
    | inl e ↦ rw (e, call_on_end) (λ h. h, λ h. h, refl)
    | inr (j, e) ↦
        rw (e, call_on_end) (on_end-keeps j k s, on_end-HasCells j k s, on_end-streams j s)
  ]

  end_all-keeps :
      (streams : Map (ResumableStream api)) (k : ℕ) (s : Shared N api)
      → Ended s k
      → Ended (end_all streams s) k
  unfolding end_all
  end_all-keeps [] k s h = h
  end_all-keeps ((id, stream) ∷ rest) k s h =
      end_all-keeps rest k (call_on_end stream s) ((call_on_end-keeps stream k s).0 h)

  end_all-Ended :
      (streams : Map (ResumableStream api)) (id k : ℕ) (stream : ResumableStream api)
      (s : Shared N api)
      → lookup id streams ≡ some stream
      → stream.on_end ≡ some k
      → HasCells s k
      → Ended (end_all streams s) k
  unfolding end_all lookup
  end_all-Ended [] id k stream s at e h = cc
  end_all-Ended ((j, first) ∷ rest) id k stream s at e h = elim (Bool-cases (j == id)) [
    | inl hit ↦
        end_all-keeps rest k (call_on_end first s) (call_on_end-Ended first k s (ground arith) h)
    | inr miss ↦
        end_all-Ended rest id k stream (call_on_end first s) (ground arith) e
          ((call_on_end-keeps first k s).1 h)
  ]

  pub end_all-streams :
      (streams : Map (ResumableStream api)) (s : Shared N api)
      → (end_all streams s).resumable_streams ≡ s.resumable_streams
  unfolding end_all
  end_all-streams [] s = refl
  end_all-streams ((id, stream) ∷ rest) s =
      end_all-streams rest (call_on_end stream s) ∙ (call_on_end-keeps stream id s).2

  -- At the end of the connection task (and of `stop_all_streams`) no stream is left registered, and
  -- every stream that was has been stopped and has given its slot back.
  pub cleanup_ends_all :
      (id k : ℕ) (stream : ResumableStream api) (s : Shared N api)
      → lookup id s.resumable_streams ≡ some stream
      → stream.on_end ≡ some k
      → HasCells s k
      → ((cleanup_resumable_streams s).resumable_streams ≡ [])
        × Ended (cleanup_resumable_streams s) k
  unfolding cleanup_resumable_streams
  cleanup_ends_all id k stream s at e h = (
    end_all-streams s.resumable_streams _,
    end_all-Ended s.resumable_streams id k stream _ at e h,
  )

  -- The end of a stream that is not registered changes nothing.
  pub stream_end_unknown :
      (id : ℕ) (s : Shared N api)
      → lookup id s.resumable_streams ≡ none
      → handle_server_message (stream_end id) s ≡ s
  unfolding handle_server_message remove_and_end
  stream_end_unknown id s e = rw (e, remove_and_end)
