-- ===== src/Connection/Scenarios.antt =====
-- Runs of the model of src/connection.rs at concrete inputs.
use titan_rust_client.Base.{
  ℕ, ◌≡◌, refl, true, false, [], ◌∷◌, arith, Option, some, none, if◌then◌else◌, ◌==◌,
}
use titan_rust_client.Base.Map.{lookup}
use titan_rust_client.Sample.{permits, numbers}
use titan_rust_client.Wire.{ResponseSuccess, ResponseError, response, error, other}
use titan_rust_client.Connection.{Shared, ResumableStream}
use titan_rust_client.Connection.Resume.{is_set, Socket, is_abandoned, remap, binary}
use titan_rust_client.Connection.Resume.Remap.{resume_collision}
use titan_rust_client.Wire.{ClientRequest, get_info}
use titan_rust_client.State.{connected}
use titan_rust_client.Connection.Session.{Session, arrived}
use titan_rust_client.Connection.Resume.Sync.{Synced}
use titan_rust_client.Base.{List}
use titan_rust_client.Wire.{swap_quotes, ClientRequest, stream_data}
use titan_rust_client.Connection.Session.{Event}

abbrev pub quote : ℕ → ResumableStream numbers
quote k = record { request = 7; sender = k; on_end = some k; effective_id = some k; stopped = k }

-- Two streams with the ids 10 and 11, and a request 5 that waits.
abbrev pub two_streams : Shared permits numbers
two_streams = record {
  manager = record {
    max_concurrent = 3;
    active_count = 2;
    queue = [];
    slot_available = permits.new;
    queue_worker_active = false;
    released = false ∷ false ∷ [];
    next_tx = 0;
    replies = [];
  };
  effective_ids = 10 ∷ 11 ∷ [];
  stopped_flags = false ∷ false ∷ [];
  pending_requests = (5, 0) ∷ [];
  resumable_streams = (10, quote 0) ∷ (11, quote 1) ∷ [];
  sent = [];
  closed = λ _. false;
}

abbrev pub reply_to : ℕ → Option ℕ → ResponseSuccess numbers
reply_to id stream = record { request_id = id; body = other; stream = stream }

abbrev pub refusal : ℕ → ResponseError
refusal id = record { request_id = id; code = 400; message = "no" }

-- The new connection takes all requests, and answers the first two.
abbrev pub reconnected : Socket permits numbers
reconnected = record {
  encodes = λ _. true;
  sends = λ _. true;
  frames =
      record { meanwhile = λ u. u; frame = binary (some (response (reply_to 20 (some 30)))) }
      ∷ record { meanwhile = λ u. u; frame = binary (some (error (refusal 21))) }
      ∷ [];
}

pub two_streams-Synced : Synced two_streams
unfolding lookup
two_streams-Synced id stream at = ground arith

-- The first stream comes back under the old id of the second.
resume_collision_example :
    let t = remap 10 (some 11) two_streams in
    let u = remap 11 (some 31) t in
    ((j : ℕ)
      → lookup j t.resumable_streams ≡ (
          if 11 == j
          then some (quote 0)
          else if 10 == j
          then none
          else lookup j two_streams.resumable_streams))
    × (t.manager ≡ two_streams.manager)
    × (t.stopped_flags ≡ two_streams.stopped_flags)
    × (lookup 31 u.resumable_streams ≡ some (quote 0))
    × (lookup 11 u.resumable_streams ≡ none)
    × (u.manager ≡ two_streams.manager)
unfolding lookup is_abandoned is_set
resume_collision_example =
    resume_collision 10 11 31 0 (quote 0) (quote 1) two_streams refl refl refl refl (omega arith)
      (λ e. omega arith)

-- The task of the connection at time 20 000, with a ping out since time 5 000.
abbrev pub session : Session permits numbers
session = record {
  shared = two_streams;
  request_id_counter = 6;
  awaiting_pong = true;
  last_ping = 5_000;
  states = connected ∷ [];
}

abbrev ask : ClientRequest numbers
ask = record { id = 9; body = get_info }

-- A quote of a stream and the response to request 5 come first.
abbrev others_first : List (Event permits numbers)
others_first =
    arrived (binary (some (stream_data (record { id = 10; payload = swap_quotes 3 })))) ""
    ∷ arrived (binary (some (response (reply_to 5 none)))) ""
    ∷ []
