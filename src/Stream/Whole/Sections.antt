-- ===== src/Stream/Whole/Sections.antt =====
-- No critical section of src/connection.rs or src/stream.rs disturbs the counts, the ids or the cells.
use titan_rust_client.Base.{refl, true, length-set}
use titan_rust_client.Notify.{Notify}
use titan_rust_client.Wire.{Api}
use titan_rust_client.Connection.{Shared}
use titan_rust_client.Connection.Tame.Resumption.{cleanup-Tame}
use titan_rust_client.Connection.Tame.{Tame, Tame-quiet, fail_pending_requests-Tame}
use titan_rust_client.Stream.{set_stopped}
use titan_rust_client.Stream.Task.{act-Tame, unregister-Tame, release_handle-Tame}
use titan_rust_client.Stream.Whole.{
  Section, background, fails_pending, gives_up_all, queues, stops, unregisters, releases,
}

module _ {N : Notify} {api : Api} where
  pub Section-Tame : {s t : Shared N api} → Section N api s t → Tame s t
  unfolding set_stopped
  Section-Tame (background b) = act-Tame b _
  Section-Tame (fails_pending reason) = fail_pending_requests-Tame reason _
  Section-Tame gives_up_all = cleanup-Tame _
  Section-Tame {s} (queues p m) = Tame-quiet s p m
  Section-Tame {s} (stops q) = record {
    counted = λ c. c;
    synced = λ v. v;
    fewer = λ j stream at. (j, at);
    cells = record { ids = refl; flags = length-set s.stopped_flags q.cell true; slots = refl };
  }
  Section-Tame (unregisters id) = unregister-Tame id _
  Section-Tame (releases q e) = release_handle-Tame q _ e
