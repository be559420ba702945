-- ===== src/Connection/Resume/Keeps.antt =====
-- What `resume_streams` of src/connection.rs keeps, and what it does to one stream.
use titan_rust_client.Base.{ℕ, inl, inr, List, [], ◌∷◌, Option, some, arith, All, Bool-cases, ◌==◌}
use titan_rust_client.Base.Map.{Map}
use titan_rust_client.Notify.{Notify}
use titan_rust_client.Wire.{Api, ServerMessage, response, error}
use titan_rust_client.Connection.Resume.{
  Frame, Arrival, Socket, binary, remap, wait_frame, wait_response, resume_stream, resume_each,
  resume_streams,
}
use titan_rust_client.Connection.{Shared, ResumableStream, remove_and_end, handle_server_message}

-- The rule for `resume_streams`: what ends, messages and remaps keep, and what other tasks keep while
-- it waits, it keeps.
module _ {N : Notify} {api : Api} (P : Shared N api → Type 0)
    (ends : (id : ℕ) (s : Shared N api) → P s → P (remove_and_end id s))
    (messages : (msg : ServerMessage api) (s : Shared N api)
      → P s
      → P (handle_server_message msg s))
    (remaps : (old_id : ℕ) (new_id : Option ℕ) (s : Shared N api)
      → P s
      → P (remap old_id new_id s)) where
  abbrev Calm : List (Arrival N api) → Type 0
  Calm = All (λ a. (s : Shared N api) → P s → P (a.meanwhile s))

  wait_frame-keeps :
      (old_id request_id : ℕ) (frame : Frame api) (s : Shared N api)
      → P s
      → P (wait_frame old_id request_id frame s).0
  unfolding wait_frame
  wait_frame-keeps old_id request_id (binary (some (response r))) s h =
      elim (Bool-cases (r.request_id == request_id)) [
        | inl e ↦ rw e (remaps old_id r.stream s h)
        | inr e ↦ rw e (messages (response r) s h)
      ]
  wait_frame-keeps old_id request_id (binary (some (error r))) s h =
      elim (Bool-cases (r.request_id == request_id)) [
        | inl e ↦ rw e (ends old_id s h)
        | inr e ↦ rw e (messages (error r) s h)
      ]
  wait_frame-keeps old_id request_id (binary (some msg)) s h = messages msg s h
  wait_frame-keeps old_id request_id frame s h = h

  wait_response-keeps :
      (old_id request_id : ℕ) (frames : List (Arrival N api)) (s : Shared N api)
      → Calm frames
      → P s
      → P (wait_response old_id request_id frames s).0
        × Calm (wait_response old_id request_id frames s).1
  unfolding wait_response
  wait_response-keeps old_id request_id [] s calm h = (h, tt)
  wait_response-keeps old_id request_id (a ∷ frames) s calm h =
      elim (Bool-cases (wait_frame old_id request_id a.frame (a.meanwhile s)).1) [
        | inl e ↦
            rw (e, wait_response) (wait_response-keeps old_id request_id frames _ calm.1 after)
        | inr e ↦ rw (e, wait_response) (after, calm.1)
      ]
    where
      after : P (wait_frame old_id request_id a.frame (a.meanwhile s)).0
      after = wait_frame-keeps old_id request_id a.frame (a.meanwhile s) (calm.0 s h)

  resume_stream-keeps :
      (socket : Socket N api) (old_id : ℕ) (stream : ResumableStream api) (counter : ℕ)
      (s : Shared N api)
      → Calm socket.frames
      → P s
      → P (resume_stream socket old_id stream counter s).0
        × Calm (resume_stream socket old_id stream counter s).1
  unfolding resume_stream
  resume_stream-keeps socket old_id stream counter s calm h =
      ground (arith, ends old_id s h, wait_response-keeps old_id counter socket.frames s calm h)

  resume_each-keeps :
      (socket : Socket N api) (streams : Map (ResumableStream api)) (counter : ℕ) (s : Shared N api)
      → Calm socket.frames
      → P s
      → P (resume_each socket streams counter s).0
  unfolding resume_each
  resume_each-keeps socket [] counter s calm h = h
  resume_each-keeps socket ((old_id, stream) ∷ rest) counter s calm h =
      let (s', frames, counter') = resume_stream socket old_id stream counter s in
      let (h', calm') = resume_stream-keeps socket old_id stream counter s calm h in
      resume_each-keeps (record socket { frames = frames }) rest counter' s' calm' h'

  pub resume_streams-keeps :
      (socket : Socket N api) (counter : ℕ) (s : Shared N api)
      → Calm socket.frames
      → P s
      → P (resume_streams socket counter s).0
  unfolding resume_streams
  resume_streams-keeps socket counter s calm h =
      resume_each-keeps socket s.resumable_streams counter s calm h
