-- ===== src/Connection/Slots.antt =====
-- The slots of the manager under the operations of src/connection.rs: a stream that leaves the map on
-- the server's or the connection's account gives its slot back, and gives it back once.
use titan_rust_client.Base.{
  ℕ, ◌<◌, ◌≡◌, inl, inr, Bool, true, List, [], ◌∷◌, some, arith, get_elem?, get_elem?_total,
  get_elem?-set, length, Option-cases,
}
use titan_rust_client.Base.Map.{Map, lookup}
use titan_rust_client.Notify.{Notify}
use titan_rust_client.Manager.{StreamManager, stream_ended}
use titan_rust_client.Manager.Slots.{Counted, try_release-live}
use titan_rust_client.Wire.{Api, ServerMessage, response, error, stream_data, stream_end}
use titan_rust_client.Connection.{
  Shared, ResumableStream, release_slot, on_end, call_on_end, remove_and_end, answer_pending,
  handle_server_message, end_all, cleanup_resumable_streams,
}

pub release_slot-Counted :
    {N : Notify} {R : Type 0} {bound h : ℕ} (m : StreamManager N R) (k : ℕ)
    → Counted bound m h
    → Counted bound (release_slot m k) h
unfolding release_slot stream_ended
release_slot-Counted m k c = ground (arith, try_release-live m.released k)

-- The flag of slot `k` is up.
abbrev pub Freed : List Bool → ℕ → Type 0
Freed flags k = get_elem? flags k ≡ some true

module _ {N : Notify} {R : Type 0} where
  pub release_slot-frees :
      (m : StreamManager N R) (k : ℕ) → k < length m.released → Freed (release_slot m k).released k
  unfolding release_slot stream_ended
  release_slot-frees m k h =
      ground (arith, get_elem?_total m.released k, get_elem?-set m.released k k true)

  pub release_slot-keeps :
      (m : StreamManager N R) (j k : ℕ) → Freed m.released k → Freed (release_slot m j).released k
  unfolding release_slot stream_ended
  release_slot-keeps m j k h = ground (arith, get_elem?-set m.released j k true)

module _ {N : Notify} {api : Api} where
  pub call_on_end-Counted :
      {bound h : ℕ} (stream : ResumableStream api) (s : Shared N api)
      → Counted bound s.manager h
      → Counted bound (call_on_end stream s).manager h
  unfolding call_on_end on_end
  call_on_end-Counted stream s c = elim (Option-cases stream.on_end) [
    | inl e ↦ rw (e, call_on_end) c
    | inr (k, e) ↦ rw (e, call_on_end) (release_slot-Counted s.manager k c)
  ]

  end_all-Counted :
      {bound h : ℕ} (streams : Map (ResumableStream api)) (s : Shared N api)
      → Counted bound s.manager h
      → Counted bound (end_all streams s).manager h
  unfolding end_all
  end_all-Counted [] s c = c
  end_all-Counted ((id, stream) ∷ rest) s c =
      end_all-Counted rest (call_on_end stream s) (call_on_end-Counted stream s c)

  pub remove_and_end-Counted :
      {bound h : ℕ} (id : ℕ) (s : Shared N api)
      → Counted bound s.manager h
      → Counted bound (remove_and_end id s).manager h
  unfolding remove_and_end
  remove_and_end-Counted id s c = elim (Option-cases (lookup id s.resumable_streams)) [
    | inl e ↦ rw (e, remove_and_end) c
    | inr (stream, e) ↦ rw (e, remove_and_end) (call_on_end-Counted stream _ c)
  ]

  answer_pending-manager :
      (id : ℕ) (result : _) (s : Shared N api) → (answer_pending id result s).manager ≡ s.manager
  unfolding answer_pending
  answer_pending-manager id result s = ground arith

  -- Whatever the server sends, the count of slots stays exact.
  pub handle_server_message-Counted :
      {bound h : ℕ} (msg : ServerMessage api) (s : Shared N api)
      → Counted bound s.manager h
      → Counted bound (handle_server_message msg s).manager h
  unfolding handle_server_message
  handle_server_message-Counted (response r) s c = rw answer_pending-manager c
  handle_server_message-Counted (error e) s c = rw answer_pending-manager c
  handle_server_message-Counted (stream_data d) s c = ground arith
  handle_server_message-Counted (stream_end id) s c = remove_and_end-Counted id s c
  handle_server_message-Counted ServerMessage.other s c = c

  pub cleanup_resumable_streams-Counted :
      {bound h : ℕ} (s : Shared N api)
      → Counted bound s.manager h
      → Counted bound (cleanup_resumable_streams s).manager h
  unfolding cleanup_resumable_streams
  cleanup_resumable_streams-Counted s c = end_all-Counted s.resumable_streams _ c
