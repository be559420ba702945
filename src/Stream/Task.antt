-- ===== src/Stream/Task.antt =====
-- The connection's task of src/connection.rs, as far as a handle of src/stream.rs meets it.
use titan_rust_client.Base.{ℕ, ◌≡◌, refl, true, List, [], ◌∷◌, Option, arith, ◌+◌}
use titan_rust_client.Base.Map.{lookup-remove}
use titan_rust_client.Notify.{Notify}
use titan_rust_client.Wire.{Api, ServerMessage}
use titan_rust_client.Connection.{Shared, handle_server_message, unregister_stream, remove_and_end}
use titan_rust_client.Connection.Resume.{remap, remap_late}
use titan_rust_client.Connection.Slots.{release_slot-Counted}
use titan_rust_client.Connection.Ends.{release_slot-length}
use titan_rust_client.Connection.Tame.{
  Tame, SameCells-trans, SameCells-refl, handle_server_message-Tame, remove_and_end-Tame,
}
use titan_rust_client.Connection.Tame.Late.{remap_late-Tame}
use titan_rust_client.Connection.Tame.Resumption.{remap-Tame}
use titan_rust_client.Stream.{QuoteStream, release_handle, stop_each}

-- What the connection's task does to the shared state: it handles a message of the server, or finishes
-- the resumption of a stream, `resumed_late` with a test of `stopped` that is out of date; or a
-- resumption fails.
pub data Background (api : Api) : Type 0 where
  message : ServerMessage api → Background api
  resumed : (old_id : ℕ) → (new_id : Option ℕ) → Background api
  resumed_late : (old_id new_id : ℕ) → Background api
  gives_up : (old_id : ℕ) → Background api

module _ {N : Notify} {api : Api} where
  unfoldable pub act : Background api → Shared N api → Shared N api
  act (message m) s = handle_server_message m s
  act (resumed old_id new_id) s = remap old_id new_id s
  act (resumed_late old_id new_id) s = remap_late old_id new_id s
  act (gives_up old_id) s = remove_and_end old_id s

  unfoldable pub act_all : List (Background api) → Shared N api → Shared N api
  unfolding act
  act_all [] s = s
  act_all (b ∷ bs) s = act_all bs (act b s)

  pub act-Tame : (b : Background api) (s : Shared N api) → Tame s (act b s)
  unfolding act
  act-Tame (message m) s = handle_server_message-Tame m s
  act-Tame (resumed o n) s = remap-Tame o n s
  act-Tame (resumed_late o n) s = remap_late-Tame o n s
  act-Tame (Background.gives_up o) s = remove_and_end-Tame o s

  pub unregister-Tame : (id : ℕ) (s : Shared N api) → Tame s (unregister_stream id s)
  unfolding unregister_stream
  unregister-Tame id s = record {
    counted = λ c. c;
    synced = λ v j stream at. v j stream (ground (arith, lookup-remove id j s.resumable_streams));
    fewer = λ j stream at. (j, ground (arith, lookup-remove id j s.resumable_streams));
    cells = record { ids = refl; flags = refl; slots = refl };
  }

  pub release_handle-Tame :
      (q : QuoteStream) (s : Shared N api)
      → q.managed ≡ true
      → Tame s (record s { manager = release_handle q s.manager })
  unfolding release_handle
  release_handle-Tame q s e =
      rw (e, release_handle)
        (record {
          counted = λ c. release_slot-Counted s.manager q.cell c;
          synced = λ v. v;
          fewer = λ j stream at. (j, at);
          cells = record { ids = refl; flags = refl; slots = release_slot-length s.manager q.cell };
        })

  pub Tame-trans : {s t u : Shared N api} → Tame s t → Tame t u → Tame s u
  Tame-trans a b = record {
    counted = λ c. b.counted (a.counted c);
    synced = λ v. b.synced (a.synced v);
    fewer = λ id stream at. let (mid, there) = b.fewer id stream at in a.fewer mid stream there;
    cells = SameCells-trans a.cells b.cells;
  }

  Tame-refl : (s : Shared N api) → Tame s s
  Tame-refl s = record {
    counted = λ c. c;
    synced = λ v. v;
    fewer = λ id stream at. (id, at);
    cells = SameCells-refl s;
  }

  pub act_all-Tame : (bs : List (Background api)) (s : Shared N api) → Tame s (act_all bs s)
  unfolding act_all
  act_all-Tame [] s = Tame-refl s
  act_all-Tame (b ∷ bs) s = Tame-trans (act-Tame b s) (act_all-Tame bs (act b s))

  pub stop_each-Tame :
      (script : ℕ → List (Background api)) (ids : List ℕ) (n : ℕ) (s : Shared N api)
      → Tame s (stop_each (λ i. act_all (script i)) ids n s)
  unfolding stop_each
  stop_each-Tame script [] n s = Tame-refl s
  stop_each-Tame script (id ∷ ids) n s =
      Tame-trans (act_all-Tame (script n) s) (
        Tame-trans (unregister-Tame id (act_all (script n) s))
          (stop_each-Tame script ids (n + 1) _))
