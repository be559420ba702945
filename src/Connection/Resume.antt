-- ===== src/Connection/Resume.antt =====
-- `resume_streams` of src/connection.rs: after a reconnect, each registered stream is requested anew.
-- While the code waits for a frame, other tasks run: `meanwhile` is what they do to the shared state.
pub mod Keeps
pub mod Remap
pub mod Sync
pub mod Kept
pub mod Closing
use titan_rust_client.Base.{
  ℕ, Bool, true, false, ◌||◌, List, [], ◌∷◌, Option, none, some, set, get_elem?, ◌==◌,
  if◌then◌else◌, u32_succ, String,
}
use titan_rust_client.Base.Map.{Map, lookup, remove}
use titan_rust_client.Notify.{Notify}
use titan_rust_client.Wire.{
  Api, ServerMessage, ClientRequest, response, error, new_swap_quote_stream,
}
use titan_rust_client.Connection.{
  Shared, ResumableStream, call_on_end, remove_and_end, register_stream, handle_server_message,
}

-- What `ws_stream.next().await` can give; a binary frame with what the decoder makes of it.
pub data Frame (api : Api) : Type 0 where
  binary : Option (ServerMessage api) → Frame api
  ping pong unknown failure : Frame api
  close : Option String → Frame api

pub record Arrival (N : Notify) (api : Api) : Type 0 where
  pub meanwhile : Shared N api → Shared N api
  pub frame : Frame api

-- The new socket: what the encoder and the sink say to a request, and the frames to come. The end of
-- `frames` is the end of the stream (`None`).
pub record Socket (N : Notify) (api : Api) : Type 0 where
  pub encodes : ClientRequest api → Bool
  pub sends : ClientRequest api → Bool
  pub frames : List (Arrival N api)

-- `flag.load()`; every flag that the code reads has a place.
unfoldable pub is_set : List Bool → ℕ → Bool
is_set flags k = elim (get_elem? flags k) [ none ↦ false | some b ↦ b ]

module _ {N : Notify} {api : Api} where
  -- `stopped.load() || sender.is_closed()`
  unfoldable pub is_abandoned : Shared N api → ResumableStream api → Bool
  unfolding is_set
  is_abandoned s stream = is_set s.stopped_flags stream.stopped || s.closed stream.sender

  -- `if let Some(ref effective_id) = stream.effective_id { effective_id.store(id) }`
  unfoldable pub store_effective : ResumableStream api → ℕ → Shared N api → Shared N api
  store_effective stream id s = elim stream.effective_id [
    | none ↦ s
    | some k ↦ record s { effective_ids = set s.effective_ids k id }
  ]

  -- The response for the stream that was `old_id`, with its new id if it has one.
  unfoldable pub remap : ℕ → Option ℕ → Shared N api → Shared N api
  remap old_id none s = remove_and_end old_id s
  remap old_id (some new_id) s = elim (lookup old_id s.resumable_streams) [
    | none ↦ s
    | some stream ↦
        let removed = record s { resumable_streams = remove old_id s.resumable_streams } in
        if is_abandoned s stream
        then call_on_end stream removed
        else register_stream new_id stream (store_effective stream new_id removed)
  ]

  -- `remap` with a test of `stopped` that was made before the handle raised that flag, which takes no lock:
  -- whatever the flags are by now, the stream goes on under its new id.
  unfoldable pub remap_late : ℕ → ℕ → Shared N api → Shared N api
  remap_late old_id new_id s = elim (lookup old_id s.resumable_streams) [
    | none ↦ s
    | some stream ↦
        let removed = record s { resumable_streams = remove old_id s.resumable_streams } in
        register_stream new_id stream (store_effective stream new_id removed)
  ]

  -- One frame of the wait loop; the flag says whether the loop goes on.
  pub wait_frame : ℕ → ℕ → Frame api → Shared N api → Shared N api × Bool
  wait_frame old_id request_id (binary (some (response r))) s =
      if r.request_id == request_id
      then (remap old_id r.stream s, false)
      else (handle_server_message (response r) s, true)
  wait_frame old_id request_id (binary (some (error e))) s =
      if e.request_id == request_id
      then (remove_and_end old_id s, false)
      else (handle_server_message (error e) s, true)
  wait_frame old_id request_id (binary (some msg)) s = (handle_server_message msg s, true)
  wait_frame old_id request_id (binary none) s = (s, true)
  wait_frame old_id request_id (close reason) s = (s, false)
  wait_frame old_id request_id failure s = (s, false)
  wait_frame old_id request_id frame s = (s, true)

  -- "Wait for response to get new stream ID": the state, and the frames that are left.
  pub wait_response :
      ℕ → ℕ → List (Arrival N api) → Shared N api → Shared N api × List (Arrival N api)
  wait_response old_id request_id [] s = (s, [])
  wait_response old_id request_id (a ∷ frames) s =
      let (s', more) = wait_frame old_id request_id a.frame (a.meanwhile s) in
      elim more [ true ↦ wait_response old_id request_id frames s' | false ↦ (s', frames) ]

  -- The body of the loop over the streams; the last component is `request_id_counter`.
  pub resume_stream :
      Socket N api
      → ℕ
      → ResumableStream api
      → ℕ
      → Shared N api
      → Shared N api × List (Arrival N api) × ℕ
  resume_stream socket old_id stream request_id s =
      if is_abandoned s stream
      then (remove_and_end old_id s, socket.frames, request_id)
      else let request : ClientRequest api = record {
        id = request_id;
        body = new_swap_quote_stream stream.request;
      } in
        let (s', frames) = wait_response old_id request_id socket.frames s in
        (if socket.encodes request
          then (if socket.sends request
              then (s', frames, u32_succ request_id)
              else (remove_and_end old_id s, socket.frames, u32_succ request_id))
          else (remove_and_end old_id s, socket.frames, u32_succ request_id))

  pub resume_each : Socket N api → Map (ResumableStream api) → ℕ → Shared N api → Shared N api × ℕ
  resume_each socket [] counter s = (s, counter)
  resume_each socket ((old_id, stream) ∷ rest) counter s =
      let (s', frames, counter') = resume_stream socket old_id stream counter s in
      resume_each (record socket { frames = frames }) rest counter' s'

  pub resume_streams : Socket N api → ℕ → Shared N api → Shared N api × ℕ
  resume_streams socket counter s = resume_each socket s.resumable_streams counter s
