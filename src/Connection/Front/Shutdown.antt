-- ===== src/Connection/Front/Shutdown.antt =====
-- What `shutdown` of src/connection.rs leaves behind.
use titan_rust_client.Base.{ℕ, ◌≡◌, refl, inl, inr, ◌⊎◌, List, [], ◌∷◌, Option}
use titan_rust_client.Base.Map.{Map, keys}
use titan_rust_client.Base.Outcome.{Outcome, err, connection_closed}
use titan_rust_client.Notify.{Notify}
use titan_rust_client.Wire.{Api, RequestData, ResponseSuccess}
use titan_rust_client.Connection.{cleanup_resumable_streams}
use titan_rust_client.Connection.Ends.{end_all-streams}
use titan_rust_client.Connection.Front.{
  Front, submit, active_stream_ids, stop_all_streams, shutdown,
}

keys-cases : {V : Type 0} (m : Map V) → (m ≡ []) ⊎ ((id : ℕ) × (ids : List ℕ) × (keys m ≡ id ∷ ids))
unfolding keys
keys-cases [] = inl refl
keys-cases ((k, v) ∷ m) = inr (k, keys m, refl)

module _ {N : Notify} {api : Api} where
  stop_all_streams-empty :
      (others : ℕ → Front N api → Front N api)
      (answer : RequestData api → ℕ → Option (Outcome (ResponseSuccess api))) (f : Front N api)
      → (stop_all_streams others answer f).shared.resumable_streams ≡ []
  unfolding stop_all_streams active_stream_ids cleanup_resumable_streams keys
  stop_all_streams-empty others answer f = elim (keys-cases f.shared.resumable_streams) [
    | inl e ↦ rw (e, stop_all_streams) e
    | inr (id, ids, e) ↦ rw (e, stop_all_streams) (end_all-streams _ _)
  ]

  -- After `shutdown` no stream is registered any more, whatever happens while it waits for answers; every
  -- later request fails at once with `ConnectionClosed`, and takes no id.
  pub shutdown_lem :
      (others : ℕ → Front N api → Front N api)
      (answer : RequestData api → ℕ → Option (Outcome (ResponseSuccess api)))
      (body : RequestData api) (f : Front N api)
      → let t = shutdown others answer f in
        (t.shared.resumable_streams ≡ [])
        × (submit body t ≡ (t, err (connection_closed "Client shutdown")))
  unfolding shutdown submit
  shutdown_lem others answer body f = (stop_all_streams-empty others answer f, refl)
