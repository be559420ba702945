-- ===== src/Connection/Reconnect/Clean.antt =====
-- What the connection task of src/connection.rs leaves behind, and what it keeps.
use titan_rust_client.Base.{
  ◌≡◌, refl, inl, inr, true, List, [], ◌∷◌, arith, Bool-cases, Option-cases,
}
use titan_rust_client.Base.Map.{Map}
use titan_rust_client.Notify.{Notify}
use titan_rust_client.Wire.{Api}
use titan_rust_client.Config.{TitanConfig}
use titan_rust_client.Connection.Reconnect.{
  Round, Loop, connection_loop, final_cleanup, run_connection_loop_with_reconnect,
}
use titan_rust_client.Connection.{
  Shared, ResumableStream, end_all, call_on_end, on_end, cleanup_pending_requests,
  cleanup_resumable_streams, fail_pending_requests,
}
use titan_rust_client.Connection.Ends.{end_all-streams}

module _ {N : Notify} {api : Api} where
  end_all-pending :
      (entries : Map (ResumableStream api)) (s : Shared N api)
      → (end_all entries s).pending_requests ≡ s.pending_requests
  unfolding end_all call_on_end on_end
  end_all-pending [] s = refl
  end_all-pending ((id, stream) ∷ rest) s = elim (Option-cases stream.on_end) [
    | inl e ↦ rw (e, end_all) (end_all-pending rest s)
    | inr (k, e) ↦ rw (e, end_all) (end_all-pending rest _)
  ]

  final_cleanup-clean :
      (l : Loop N api)
      → ((final_cleanup l).session.shared.pending_requests ≡ [])
        × ((final_cleanup l).session.shared.resumable_streams ≡ [])
  unfolding final_cleanup cleanup_resumable_streams cleanup_pending_requests fail_pending_requests
  final_cleanup-clean l =
      let s = cleanup_pending_requests l.session.shared in
      (end_all-pending s.resumable_streams _, end_all-streams s.resumable_streams _)

  -- Once the connection task has ended, no request waits for an answer and no stream is registered,
  -- whatever happened before.
  pub loop_leaves_nothing :
      (c : TitanConfig) (rounds : List (Round N api)) (l : Loop N api)
      → (run_connection_loop_with_reconnect c rounds l).1 ≡ true
      → let t = (run_connection_loop_with_reconnect c rounds l).0.session.shared in
        (t.pending_requests ≡ []) × (t.resumable_streams ≡ [])
  unfolding run_connection_loop_with_reconnect
  loop_leaves_nothing c rounds l h = elim (Bool-cases (connection_loop c rounds l).1) [
    | inl e ↦
        rw (e, run_connection_loop_with_reconnect)
          (final_cleanup-clean (connection_loop c rounds l).0)
    | inr e ↦ absurd (ground arith)
  ]
