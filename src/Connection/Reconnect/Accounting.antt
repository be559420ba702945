-- ===== src/Connection/Reconnect/Accounting.antt =====
-- What stays true of streams and slots through the life of the connection task of src/connection.rs.
use titan_rust_client.Base.{
  ◌⊎◌, inl, inr, ◌≡◌, refl, some, false, Bool-cases, ℕ, List, [], All, ap, arith,
}
use titan_rust_client.Base.Map.{lookup}
use titan_rust_client.Notify.{Notify}
use titan_rust_client.Wire.{Api}
use titan_rust_client.Config.{TitanConfig}
use titan_rust_client.Manager.Slots.{Counted}
use titan_rust_client.Connection.Slots.{
  remove_and_end-Counted, handle_server_message-Counted, cleanup_resumable_streams-Counted,
}
use titan_rust_client.Connection.Resume.Remap.{remap-Counted}
use titan_rust_client.Connection.Resume.Sync.{
  Synced, remove_and_end-Synced, handle_server_message-Synced, remap-Synced,
}
use titan_rust_client.Connection.Reconnect.Keeps.{CalmRound, run_connection_loop-keeps}
use titan_rust_client.Connection.Ends.{HasCells, Ended, cleanup_ends_all}
use titan_rust_client.Connection.Reconnect.{
  Round, Loop, connection_loop, final_cleanup, run_connection_loop_with_reconnect,
}
use titan_rust_client.Connection.{
  Shared, ResumableStream, cleanup_pending_requests, fail_pending_requests,
  cleanup_resumable_streams,
}
use titan_rust_client.Connection.Ends.{end_all-streams}

module _ {N : Notify} {api : Api} where
  -- Every stream that is registered in `s` and has its cells is ended in `t`.
  abbrev pub EndsAll : Shared N api → Shared N api → Type 0
  EndsAll s t =
      (id k : ℕ) (stream : ResumableStream api)
      → lookup id s.resumable_streams ≡ some stream
      → stream.on_end ≡ some k
      → HasCells s k
      → Ended t k

  final_cleanup-EndsAll :
      (l : Loop N api) → EndsAll l.session.shared (final_cleanup l).session.shared
  unfolding final_cleanup cleanup_pending_requests fail_pending_requests
  final_cleanup-EndsAll l id k stream at owns cells =
      (cleanup_ends_all id k stream (cleanup_pending_requests l.session.shared) at owns cells).1

  -- Through any number of connections, losses, reconnects, resumptions and messages, and the clean-up at
  -- the end, `active_count` is the number of streams whose slot is not given back and of the slots held
  -- besides, if the tasks that run meanwhile keep it so: the connection never gives a slot back twice,
  -- nor takes one. And once the loop has been left, every stream that was still registered then, with
  -- its callback and its cells, is stopped and its slot is given back.
  pub loop-Counted :
      {bound h : ℕ} (c : TitanConfig) (rounds : List (Round N api)) (l : Loop N api)
      → All (CalmRound (λ s. Counted bound s.manager h)) rounds
      → Counted bound l.session.shared.manager h
      → let (t, left) = run_connection_loop_with_reconnect c rounds l in
        Counted bound t.session.shared.manager h
        × ((left ≡ false) ⊎ EndsAll (connection_loop c rounds l).0.session.shared t.session.shared)
  unfolding run_connection_loop_with_reconnect
  loop-Counted {bound} {h} c rounds l calm v = (
    run_connection_loop-keeps (λ s. Counted bound s.manager h)
        (λ id s w. remove_and_end-Counted id s w) (λ msg s w. handle_server_message-Counted msg s w)
        (λ o n s w. remap-Counted o n s w) (λ s w. cleanup_resumable_streams-Counted s w)
        (λ s p m w. w) c rounds l calm v,
    elim (Bool-cases (connection_loop c rounds l).1) [
      | inl e ↦
          rw (e, run_connection_loop_with_reconnect)
            (inr (final_cleanup-EndsAll (connection_loop c rounds l).0))
      | inr e ↦ rw (e, run_connection_loop_with_reconnect) (inl refl)
    ],
  )

  pub cleanup-Synced : (s : Shared N api) → Synced s → Synced (cleanup_resumable_streams s)
  unfolding cleanup_resumable_streams lookup
  cleanup-Synced s v id stream at =
      let emptied : Shared N api = record s { resumable_streams = [] } in
      absurd (ground (arith, ap (lookup id) (end_all-streams s.resumable_streams emptied)))

  -- Through the whole life of the connection task, every stream that is registered is registered under
  -- the id that its handle reads, if the tasks that run besides keep it so.
  pub loop-Synced :
      (c : TitanConfig) (rounds : List (Round N api)) (l : Loop N api)
      → All (CalmRound Synced) rounds
      → Synced l.session.shared
      → Synced (run_connection_loop_with_reconnect c rounds l).0.session.shared
  loop-Synced c rounds l calm v =
      run_connection_loop-keeps Synced remove_and_end-Synced handle_server_message-Synced
        remap-Synced cleanup-Synced (λ s p m w. w) c rounds l calm v
