-- ===== src/Stream/Whole.antt =====
-- The shared state of src/connection.rs, src/queue.rs and src/stream.rs under all their tasks at once: each
-- step is one critical section of some task, and they come in any order.
pub mod Sections
pub mod Starts
pub mod Reachable
pub mod Gone
pub mod Lost
use titan_rust_client.Base.{
  ℕ, ◌+◌, ◌<◌, ◌≤◌, ◌≡◌, ◌≢◌, Bool, true, false, List, [], some, length, ◌==◌, if◌then◌else◌,
  u32_succ, String,
}
use titan_rust_client.Base.Map.{Map, lookup}
use titan_rust_client.Notify.{Notify}
use titan_rust_client.Wire.{Api}
use titan_rust_client.Manager.{create, set_max_concurrent}
use titan_rust_client.Manager.Slots.{Counted}
use titan_rust_client.Connection.{
  Shared, ResumableStream, Sent, release_slot, unregister_stream, fail_pending_requests,
  cleanup_resumable_streams,
}
use titan_rust_client.Connection.Resume.Sync.{Synced}
use titan_rust_client.Stream.{QuoteStream, new_cells, open_stream, set_stopped, release_handle}
use titan_rust_client.Stream.Task.{Background, act}

-- The state, the cells whose stream the server has not yet confirmed, how many slots are claimed by starts
-- that have not made their cells, and the channel that the handle of each cell receives on, which is 0
-- before there is one; a channel is made anew for each stream.
pub record Whole (N : Notify) (api : Api) : Type 0 where
  pub shared : Shared N api
  pub starting : ℕ → Bool
  pub claimed : ℕ
  pub receiver : ℕ → ℕ

abbrev pub initial : (N : Notify) (api : Api) → ℕ → (ℕ → Bool) → Whole N api
initial N api max closed = record {
  shared = record {
    manager = create max;
    effective_ids = [];
    stopped_flags = [];
    pending_requests = [];
    resumable_streams = [];
    sent = [];
    closed = closed;
  };
  starting = λ k. false;
  claimed = 0;
  receiver = λ k. 0;
}

-- A section of the connection's task or of a caller that neither starts nor ends a start.
pub data Section (N : Notify) (api : Api) (s : Shared N api) : Shared N api → Type 0 where
  background : (b : Background api) → Section N api s (act b s)
  fails_pending : (reason : String) → Section N api s (fail_pending_requests reason s)
  gives_up_all : Section N api s (cleanup_resumable_streams s)
  queues :
      (p : Map ℕ) (m : List (Sent api))
      → Section N api s (record s { pending_requests = p; sent = m })
  stops : (q : QuoteStream) → Section N api s (set_stopped q s)
  unregisters : (id : ℕ) → Section N api s (unregister_stream id s)
  releases :
      (q : QuoteStream)
      → q.managed ≡ true
      → Section N api s (record s { manager = release_handle q s.manager })

pub data Step (N : Notify) (api : Api) (bound : ℕ) (w : Whole N api) : Whole N api → Type 0 where
  section :
      (s : Shared N api) → Section N api w.shared s → Step N api bound w (record w { shared = s })
  retunes :
      (max : ℕ)
      → max ≤ bound
      → Step N api bound w (record w {
        shared = record (w.shared) { manager = set_max_concurrent w.shared.manager max };
      })
  -- The compare-and-swap succeeds on a count that was found below a limit read before; the limit may have
  -- been changed since.
  claims :
      (limit : ℕ)
      → limit ≤ bound
      → w.shared.manager.active_count < limit
      → Step N api bound w (record w {
        shared = record (w.shared) {
          manager = record (w.shared.manager) {
            active_count = u32_succ w.shared.manager.active_count;
          };
        };
        claimed = w.claimed + 1;
      })
  begins :
      (n : ℕ)
      → w.claimed ≡ n + 1
      → Step N api bound w (record w {
        shared = new_cells w.shared;
        starting = λ k. if k == length w.shared.manager.released then true else w.starting k;
        claimed = n;
      })
  opens :
      (id k : ℕ) (request : api.SwapQuoteRequest) (channel : ℕ)
      → w.starting k ≡ true
      → 0 < channel
      → ((j : ℕ) → w.receiver j ≢ channel)
      → Step N api bound w (record w {
        shared = open_stream id k request channel w.shared;
        starting = λ j. if j == k then false else w.starting j;
        receiver = λ j. if j == k then channel else w.receiver j;
      })
  fails :
      (k : ℕ)
      → w.starting k ≡ true
      → Step N api bound w (record w {
        shared = record (w.shared) { manager = release_slot w.shared.manager k };
        starting = λ j. if j == k then false else w.starting j;
      })

pub data Reach (N : Notify) (api : Api) (bound max : ℕ) (closed : ℕ → Bool)
    : Whole N api → Type 0 where
  start : Reach N api bound max closed (initial N api max closed)
  later :
      {w v : Whole N api}
      → Reach N api bound max closed w
      → Step N api bound w v
      → Reach N api bound max closed v

-- The cell of a start in progress exists, and no registered stream has it.
abbrev pub Fresh : {N : Notify} {api : Api} → Shared N api → ℕ → Type 0
Fresh {api = api} s k =
    (k < length s.manager.released)
    × ((id : ℕ) (stream : ResumableStream api)
        → lookup id s.resumable_streams ≡ some stream
        → stream.stopped ≢ k)

-- Every count and every id is right.
pub record Good {N : Notify} {api : Api} (bound : ℕ) (w : Whole N api) : Type 0 where
  pub counted : Counted bound w.shared.manager w.claimed
  pub synced : Synced w.shared
  pub ids : length w.shared.effective_ids ≡ length w.shared.manager.released
  pub flags : length w.shared.stopped_flags ≡ length w.shared.manager.released
  pub fresh : (k : ℕ) → w.starting k ≡ true → Fresh w.shared k
  -- What arrives for a registered stream goes to its own handle.
  pub routed :
      (id : ℕ) (stream : ResumableStream api)
      → lookup id w.shared.resumable_streams ≡ some stream
      → (stream.sender ≡ w.receiver stream.stopped) × (0 < stream.sender)
  pub own : (j k : ℕ) → w.receiver j ≡ w.receiver k → 0 < w.receiver k → j ≡ k
