-- ===== src/Lib.antt =====
-- A model of titan-rust-client, the client library for the Titan swap-quote WebSocket API.
--
-- The program: a `Connection` (src/connection.rs) owns a background task that runs one WebSocket
-- connection after another, hands the server's messages to the requests and streams that wait for
-- them, and asks for every stream again after a reconnect. A `StreamManager` (src/queue.rs) bounds the
-- number of streams: it starts a stream while a slot is free and queues the request otherwise, for one
-- worker task that is woken when a slot is given back. A `QuoteStream` (src/stream.rs) is the handle of a
-- stream; `stop`, `drop` and the callback `on_end` race to give its slot back, behind one flag.
--
-- The files:
--   Base, Base/*: shared names; Boolean tests, machine words and lists over the native numbers;
--     association lists for `HashMap`; `TitanClientError` and `Result` (src/error.rs).
--   Notify: `tokio::sync::Notify`, a parameter with the laws that the code relies on.
--   Wire: the messages of the crate titan-api-types; what the code only passes on is a parameter.
--   Manager: src/queue.rs as tasks that make one atomic access at a time (`request_step` for
--     `request_stream`, `worker_step` for `process_queue`, `start_step` for `start_stream_internal`,
--     `end_step` for `stream_ended` behind its guard). Manager/System has the interleavings: `Reach` is
--     every state that calls, steps of tasks and ends of streams can lead to. Manager/Weights, Slots and
--     Safety are about the count of slots; Wakeups, Live and Progress about the worker; Order about the
--     queue. Manager/Spec is what the manager promises, an office with a counter of taken places and a
--     line, which Manager/Spec/* relates to the tasks; Manager/Cancel drops a caller's future.
--     Manager/Settle measures the work that the tasks have left; Manager/Settle/Rest is about runs of the
--     tasks in which no new call or end of a stream begins.
--   Connection: the shared maps of src/connection.rs and each critical section on them
--     (`handle_server_message`, `fail_pending_requests`, `cleanup_resumable_streams` and so on).
--     Connection/Resume is `resume_streams`, Connection/Session `run_single_connection`,
--     Connection/Reconnect `run_connection_loop_with_reconnect`; Connection/Front is what callers use:
--     `connect`, `send_request`, `stop_all_streams`, `shutdown`; Front/Answered joins `send_request` with
--     `run_single_connection`. Connection/Tame gathers what every one of these sections keeps;
--     Reconnect/Lost is about a turn of the loop that loses its connection. Connection/Establish is `establish_connection` with src/tls.rs, over the
--     crates rustls and tokio-tungstenite as parameters.
--   Stream: src/stream.rs, and the part of `start_stream_internal` that makes a stream. Stream/Runs relates
--     it to the tasks of Manager; Stream/Whole interleaves all critical sections of the connection, the
--     starts and the handles on one state, with the channel that each handle receives on; Whole/Gone is
--     about streams that have left it, Whole/Lost about those that have not. Stream/Task is the connection's
--     task as a handle meets it, Stream/Stop and Stream/Race are about `stop` and `drop` besides it. Stream/Adapter is the task between a stream's two channels,
--     Stream/Handle the constructors of handles and `recv`, over `tokio::sync::mpsc` as a parameter.
--   Watch: `state_tx`, over `tokio::sync::watch` as a parameter: `connect`, `state_receiver`, what is shown.
--   Client: `wait_for_connected`, `get_swap_price` and `fetch_max_streams` of src/client.rs;
--     Client/Methods has `new`, the one-shot methods, the queries and `close`; Client/GivenUp joins
--     `wait_for_connected` with the connection's task.
--   Instructions: src/instructions.rs, with keys, RPC and table decoding as a parameter.
--   Cli: `parse_mint` and the choice of the best route in src/bin/titan_cli.rs; Cli/Swap is `cmd_swap`, its
--     effects in order, with the Solana crates as a parameter; Cli/Commands has the other commands and
--     `run_command`, by what they ask of the client.
--   Backoff: `calculate_backoff`. Config: src/config.rs. State: src/state.rs.
--   Sample, Settings, and the modules named Scenarios: concrete parameters and runs.
--
-- State and operations: an `Arc` that a stream shares with its handle, its callback and the connection's
-- map is a place in a list (`effective_ids`, `stopped_flags`, `released`), and all of a stream's cells
-- have one place. Channels have numbers; what is sent is recorded, whether or not somebody still
-- receives it. Where the code awaits, what other tasks do meanwhile is an argument of the model. A map
-- is drained or iterated in the order of the list, which no result depends on but by its hypotheses.
-- `u32` wraps as in a release build (`u32_succ`, `u32_pred`, the product in `calculate_backoff`).
--
-- The steps: in Manager each atomic access is a step. In Connection and Stream a step is a critical
-- section, and the guard of a slot with `stream_ended` (`release_slot`) is one step too, whose accesses
-- Manager takes apart. The flag `stopped` and the effective id are read and written without the lock: a
-- test of the flag in `resume_streams` that is out of date by the time of the store is `remap_late`, and
-- the adapter's load of the id and its removal are two steps.
--
-- Bounds: nothing runs on fuel. The loops of the connection are recursions on the events, frames and
-- turns that the world gives them, and a flag says whether the loop has ended when these are used up;
-- the manager's loops are steps of a task.
--
-- Not modelled: argument parsing, which clap derives, and terminal output of src/bin/titan_cli.rs; in Stream/Whole, handles that
-- `QuoteStream::new` makes without a manager, which nothing in the crate does; the back-pressure of bounded
-- channels; memory orders weaker than the sequentially consistent one that the code asks for everywhere.
pub mod Base
pub mod Notify
pub mod Watch
pub mod Wire
pub mod Sample
pub mod State
pub mod Config
pub mod Backoff
pub mod Manager
pub mod Connection
pub mod Stream
pub mod Client
pub mod Instructions
pub mod Cli
pub mod Settings
