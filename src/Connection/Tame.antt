-- ===== src/Connection/Tame.antt =====
-- What every critical section of src/connection.rs keeps, together: the count of slots, the ids that the
-- handles read, and the cells; and it registers no stream that was not registered.
pub mod Resumption
pub mod Late
use titan_rust_client.Base.{
  ℕ, ◌≡◌, refl, ◌∙◌, ap, inl, inr, true, List, none, some, arith, length, length-set, Option-cases,
  String, ◌==◌, if◌then◌else◌,
}
use titan_rust_client.Base.Map.{Map, lookup, remove, lookup-remove}
use titan_rust_client.Notify.{Notify}
use titan_rust_client.Wire.{Api, ServerMessage, response, error, stream_data, stream_end}
use titan_rust_client.Manager.Slots.{Counted}
use titan_rust_client.Connection.Slots.{remove_and_end-Counted}
use titan_rust_client.Connection.Ends.{release_slot-length}
use titan_rust_client.Connection.Resume.Sync.{Synced, remove_and_end-Synced}
use titan_rust_client.Connection.{
  Shared, ResumableStream, Sent, on_end, call_on_end, remove_and_end, answer_pending,
  handle_server_message, fail_pending_requests,
}

-- The three cells of each stream.
pub record SameCells {N : Notify} {api : Api} (s t : Shared N api) : Type 0 where
  pub ids : length t.effective_ids ≡ length s.effective_ids
  pub flags : length t.stopped_flags ≡ length s.stopped_flags
  pub slots : length t.manager.released ≡ length s.manager.released

-- A stream that is registered afterwards was registered before, under some id.
abbrev pub Fewer : {N : Notify} {api : Api} → Shared N api → Shared N api → Type 0
Fewer {api = api} s t =
    (id : ℕ) (stream : ResumableStream api)
    → lookup id t.resumable_streams ≡ some stream
    → (old_id : ℕ) × (lookup old_id s.resumable_streams ≡ some stream)

pub record Tame {N : Notify} {api : Api} (s t : Shared N api) : Type 0 where
  pub counted : {bound h : ℕ} → Counted bound s.manager h → Counted bound t.manager h
  pub synced : Synced s → Synced t
  pub fewer : Fewer s t
  pub cells : SameCells s t

module _ {N : Notify} {api : Api} where
  SameCells-on_end : (k : ℕ) (s : Shared N api) → SameCells s (on_end k s)
  unfolding on_end
  SameCells-on_end k s = record {
    ids = refl;
    flags = length-set s.stopped_flags k true;
    slots = release_slot-length s.manager k;
  }

  pub SameCells-trans : {s t u : Shared N api} → SameCells s t → SameCells t u → SameCells s u
  SameCells-trans a b = record {
    ids = b.ids ∙ a.ids;
    flags = b.flags ∙ a.flags;
    slots = b.slots ∙ a.slots;
  }

  pub SameCells-call_on_end :
      (stream : ResumableStream api) (s : Shared N api) → SameCells s (call_on_end stream s)
  unfolding call_on_end
  SameCells-call_on_end stream s = elim (Option-cases stream.on_end) [
    | inl e ↦ rw (e, call_on_end) (record { ids = refl; flags = refl; slots = refl })
    | inr (k, e) ↦ rw (e, call_on_end) (SameCells-on_end k s)
  ]

  pub call_on_end-streams :
      (stream : ResumableStream api) (s : Shared N api)
      → (call_on_end stream s).resumable_streams ≡ s.resumable_streams
  unfolding call_on_end on_end
  call_on_end-streams stream s = ground arith

  pub SameCells-remove_and_end : (id : ℕ) (s : Shared N api) → SameCells s (remove_and_end id s)
  unfolding remove_and_end
  SameCells-remove_and_end id s = elim (Option-cases (lookup id s.resumable_streams)) [
    | inl e ↦ rw (e, remove_and_end) (record { ids = refl; flags = refl; slots = refl })
    | inr (stream, e) ↦
        let removed : Shared N api = record s {
          resumable_streams = remove id s.resumable_streams;
        } in
        let c = SameCells-call_on_end stream removed in
        rw (e, remove_and_end) (record { ids = c.ids; flags = c.flags; slots = c.slots })
  ]

  remove_and_end-lookup :
      (id j : ℕ) (s : Shared N api)
      → lookup j (remove_and_end id s).resumable_streams
        ≡ (if id == j then none else lookup j s.resumable_streams)
  unfolding remove_and_end
  remove_and_end-lookup id j s = elim (Option-cases (lookup id s.resumable_streams)) [
    | inl e ↦ rw (e, remove_and_end) (ground (arith, ap (λ x. lookup x s.resumable_streams)))
    | inr (gone, e) ↦
        let removed : Shared N api = record s {
          resumable_streams = remove id s.resumable_streams;
        } in
        rw (e, remove_and_end, call_on_end-streams gone removed)
          (lookup-remove id j s.resumable_streams)
  ]

  pub Fewer-remove_and_end : (id : ℕ) (s : Shared N api) → Fewer s (remove_and_end id s)
  Fewer-remove_and_end id s j stream at = (j, ground (arith, remove_and_end-lookup id j s))

  pub remove_and_end-Tame : (id : ℕ) (s : Shared N api) → Tame s (remove_and_end id s)
  remove_and_end-Tame id s = record {
    counted = λ c. remove_and_end-Counted id s c;
    synced = remove_and_end-Synced id s;
    fewer = Fewer-remove_and_end id s;
    cells = SameCells-remove_and_end id s;
  }

  pub SameCells-refl : (s : Shared N api) → SameCells s s
  SameCells-refl s = record { ids = refl; flags = refl; slots = refl }

  pub Tame-quiet :
      (s : Shared N api) (p : Map ℕ) (m : List (Sent api))
      → Tame s (record s { pending_requests = p; sent = m })
  Tame-quiet s p m = record {
    counted = λ c. c;
    synced = λ v. v;
    fewer = λ id stream at. (id, at);
    cells = record { ids = refl; flags = refl; slots = refl };
  }

  answer_pending-Tame :
      (id : ℕ) (result : _) (s : Shared N api) → Tame s (answer_pending id result s)
  unfolding answer_pending
  answer_pending-Tame id result s = elim (Option-cases (lookup id s.pending_requests)) [
    | inl e ↦ rw (e, answer_pending) (Tame-quiet s s.pending_requests s.sent)
    | inr (tx, e) ↦ rw (e, answer_pending) (Tame-quiet s _ _)
  ]

  pub handle_server_message-Tame :
      (msg : ServerMessage api) (s : Shared N api) → Tame s (handle_server_message msg s)
  unfolding handle_server_message
  handle_server_message-Tame (response r) s = answer_pending-Tame r.request_id _ s
  handle_server_message-Tame (error e) s = answer_pending-Tame e.request_id _ s
  handle_server_message-Tame (stream_data d) s =
      elim (Option-cases (lookup d.id s.resumable_streams)) [
        | inl e ↦ rw (e, handle_server_message) (Tame-quiet s s.pending_requests s.sent)
        | inr (stream, e) ↦ rw (e, handle_server_message) (Tame-quiet s s.pending_requests _)
      ]
  handle_server_message-Tame (stream_end id) s = remove_and_end-Tame id s
  handle_server_message-Tame ServerMessage.other s = Tame-quiet s s.pending_requests s.sent

  pub fail_pending_requests-Tame :
      (reason : String) (s : Shared N api) → Tame s (fail_pending_requests reason s)
  unfolding fail_pending_requests
  fail_pending_requests-Tame reason s = Tame-quiet s _ _
