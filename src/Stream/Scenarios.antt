-- ===== src/Stream/Scenarios.antt =====
-- Runs of the model of src/stream.rs at concrete inputs.
use titan_rust_client.Base.{
  inr, if◌then◌else◌, ◌==◌, ℕ, ◌≡◌, ◌≢◌, refl, true, false, List, [], ◌∷◌, arith, some, length,
  u32_succ, All, Bool-cases,
}
use titan_rust_client.Base.Map.{lookup}
use titan_rust_client.Sample.{permits, numbers}
use titan_rust_client.Wire.{stream_end}
use titan_rust_client.Connection.{Shared, handle_server_message}
use titan_rust_client.Connection.Slots.{Freed}
use titan_rust_client.Connection.Resume.Sync.{Synced}
use titan_rust_client.Stream.{QuoteStream, open_stream, stop}
use titan_rust_client.Stream.Start.{early_end_lost}
use titan_rust_client.Stream.Task.{Background, act_all, resumed}
use titan_rust_client.Manager.Slots.{Counted}
use titan_rust_client.Stream.Adapter.{Absent}
use titan_rust_client.Stream.Race.{late_at_first, stop_race}
use titan_rust_client.Stream.Stop.{OnTime, stop_completes}
use titan_rust_client.Manager.{create}
use titan_rust_client.Stream.{new_cells}
use titan_rust_client.Stream.Whole.{Whole, Good, initial, start, later, claims, begins, opens}
use titan_rust_client.Stream.Whole.{retunes, fails}
use titan_rust_client.Manager.{set_max_concurrent}
use titan_rust_client.Stream.Whole.Gone.{Gone, here, next, left_for_good}
use titan_rust_client.Base.{inl}
use titan_rust_client.Base.Map.{insert, remove}
use titan_rust_client.Stream.Task.{message}
use titan_rust_client.Connection.Resume.Kept.{Held}
use titan_rust_client.Stream.Whole.Lost.{no_stream_lost}
use titan_rust_client.Connection.{register_stream}
use titan_rust_client.Stream.Whole.Reachable.{Reach-Good, quotes_routed}
use titan_rust_client.Wire.{StreamData, stream_data}
use titan_rust_client.Connection.{data_for}
use titan_rust_client.Base.{◌⊎◌, ◌++◌, get_elem?}
use titan_rust_client.Base.{none}
use titan_rust_client.Connection.{release_slot}
use titan_rust_client.Manager.{Env, StartPc, EndPc, start_step}
use titan_rust_client.Wire.{swap_quotes}

-- One stream, with the id 10, and one slot more that a start has claimed.
abbrev pub one_stream : Shared permits numbers
one_stream = record {
  manager = record {
    max_concurrent = 3;
    active_count = 2;
    queue = [];
    slot_available = permits.new;
    queue_worker_active = false;
    released = false ∷ [];
    next_tx = 0;
    replies = [];
  };
  effective_ids = 10 ∷ [];
  stopped_flags = false ∷ [];
  pending_requests = [];
  resumable_streams =
      (10, record { request = 7; sender = 0; on_end = some 0; effective_id = some 0; stopped = 0 })
      ∷ [];
  sent = [];
  closed = λ _. false;
}

early_end_lost_example :
    let t = open_stream 12 1 8 1 (handle_server_message (stream_end 12) one_stream) in
    (lookup 12 t.resumable_streams
      ≡ some
          (record { request = 8; sender = 1; on_end = some 1; effective_id = some 1; stopped = 1 }))
    × (t.manager ≡ one_stream.manager)
    × (t.stopped_flags ≡ one_stream.stopped_flags)
unfolding lookup
early_end_lost_example = early_end_lost 12 1 1 8 one_stream refl

abbrev handle : QuoteStream
handle = record { stream_id = 10; cell = 0; receiver = 0; managed = true; stopped = false }

-- While `stop` waits for the first time, a reconnect gives the stream the id 30.
abbrev meanwhile : ℕ → List (Background numbers)
meanwhile n = if n == 0 then resumed 10 (some 30) ∷ [] else []

pub one_stream-Synced : Synced one_stream
unfolding lookup
one_stream-Synced id stream at = ground arith

meanwhile-OnTime : (n : ℕ) → All OnTime (meanwhile n)
meanwhile-OnTime n = elim (Bool-cases (n == 0)) [ inl e ↦ rw e (tt, tt) | inr e ↦ rw e tt ]

stop_completes_example :
    let others : ℕ → Shared permits numbers → Shared permits numbers = λ i. act_all (meanwhile i) in
    let (q', s', _) = stop others handle one_stream in
    (Freed s'.manager.released 0 × Counted 3 s'.manager 1)
    × Absent 0 s'
    × (stop others q' s' ≡ (q', s', []))
stop_completes_example =
    stop_completes handle 10 one_stream meanwhile meanwhile-OnTime refl refl one_stream-Synced refl
      (omega arith) (omega arith)
      (record { small = omega arith; limit = omega arith; capped = omega arith; counted = refl })

stop_race_example :
    let (q', t, ids) = stop (late_at_first 10 30) handle one_stream in
    (lookup 30 t.resumable_streams
      ≡ some
          (record { request = 7; sender = 0; on_end = some 0; effective_id = some 0; stopped = 0 }))
    × (ids ≡ 10 ∷ [])
unfolding lookup
stop_race_example =
    stop_race handle 30
      (record { request = 7; sender = 0; on_end = some 0; effective_id = some 0; stopped = 0 })
      one_stream refl refl refl refl

-- A slot is claimed under limit 2, the cells of its stream are made, and the server names the stream 12.
abbrev two_free : Whole permits numbers
two_free = initial permits numbers 2 (λ channel. false)

abbrev claimed_one : Whole permits numbers
claimed_one = record two_free {
  shared = record (two_free.shared) {
    manager = record (two_free.shared.manager) {
      active_count = u32_succ two_free.shared.manager.active_count;
    };
  };
  claimed = 1;
}

abbrev begun : Whole permits numbers
begun = record claimed_one {
  shared = new_cells claimed_one.shared;
  starting = λ k. if k == length claimed_one.shared.manager.released then true else false;
  claimed = 0;
}

abbrev running : Whole permits numbers
running = record begun {
  receiver = λ j. if j == 0 then 1 else begun.receiver j;
  shared = open_stream 12 0 8 1 begun.shared;
  starting = λ j. if j == 0 then false else begun.starting j;
}

Reach-Good_example : Good 3 running
unfolding create
Reach-Good_example =
    Reach-Good {N = permits} {api = numbers} {bound = 3} {max = 2} {closed = λ channel. false}
      {w = running} (omega arith) (omega arith)
      (later (later (later start (claims 1 (omega arith) (omega arith))) (begins 0 refl))
        (opens 12 0 8 1 refl (omega arith) (λ j. ground arith)))

quotes_routed_example :
    let d : StreamData numbers = record { id = 12; payload = swap_quotes 5 } in
    let t = handle_server_message (stream_data d) running.shared in
    ((lookup 12 running.shared.resumable_streams ≡ none) × (t ≡ running.shared))
    ⊎ ((k : ℕ) × (get_elem? running.shared.effective_ids k ≡ some 12)
        × (t ≡ record (running.shared) {
          sent = running.shared.sent ++ data_for (running.receiver k) d ∷ [];
        }))
unfolding create
quotes_routed_example =
    quotes_routed {N = permits} {api = numbers} {bound = 3} {max = 2} {closed = λ channel. false}
      {w = running} (record { id = 12; payload = swap_quotes 5 }) (omega arith) (omega arith)
      (later (later (later start (claims 1 (omega arith) (omega arith))) (begins 0 refl))
        (opens 12 0 8 1 refl (omega arith) (λ j. ground arith)))

-- The first start fails, and another stream begins.
abbrev failed : Whole permits numbers
failed = record begun {
  shared = record (begun.shared) { manager = release_slot begun.shared.manager 0 };
  starting = λ j. if j == 0 then false else begun.starting j;
}

abbrev retuned : Whole permits numbers
retuned = record failed {
  shared = record (failed.shared) { manager = set_max_concurrent failed.shared.manager 3 };
}

failed-Gone : Gone 0 failed
unfolding create new_cells release_slot lookup titan_rust_client.Manager.stream_ended
failed-Gone = record {
  made = omega arith;
  not_starting = refl;
  absent = λ id stream at. ground arith;
}

left_for_good_example :
    Gone 0 retuned
    × (retuned.receiver 0 ≡ failed.receiver 0)
    × ((d : StreamData numbers)
        → let t = handle_server_message (stream_data d) retuned.shared in
          (t.sent ≡ retuned.shared.sent)
          ⊎ ((channel : ℕ) × (t.sent ≡ retuned.shared.sent ++ data_for channel d ∷ [])
              × (channel ≢ failed.receiver 0)))
unfolding create
left_for_good_example =
    left_for_good {N = permits} {api = numbers} {bound = 3} {max = 2} {k = 0}
      {closed = λ channel. false} {w = failed} {v = retuned} (omega arith) (omega arith)
      (later (later (later start (claims 1 (omega arith) (omega arith))) (begins 0 refl))
        (fails 0 refl))
      failed-Gone (next here (retunes 3 (omega arith)))

no_stream_lost_example :
    Held 0 (act_all (resumed 12 (some 30) ∷ message (stream_end 30) ∷ []) running.shared)
unfolding create new_cells open_stream register_stream lookup remove insert
no_stream_lost_example =
    no_stream_lost {N = permits} {api = numbers} {bound = 3} {max = 2} {k = 0}
      {closed = λ channel. false} {w = running}
      (resumed 12 (some 30) ∷ message (stream_end 30) ∷ []) (omega arith) (omega arith)
      (later (later (later start (claims 1 (omega arith) (omega arith))) (begins 0 refl))
        (opens 12 0 8 1 refl (omega arith) (λ j. ground arith)))
      (refl, tt)
      (inl (
        12,
        record { request = 8; sender = 1; on_end = some 0; effective_id = some 0; stopped = 0 },
        refl,
        refl,
      ))
