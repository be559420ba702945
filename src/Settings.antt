-- ===== src/Settings.antt =====
-- Runs of src/state.rs, src/config.rs and `calculate_backoff` at concrete inputs.
use titan_rust_client.Base.{◌*◌, ◌^◌, ◌≡◌, min, arith}
use titan_rust_client.Backoff.{calculate_backoff, calculate_backoff_lem, backoff_collapses}

calculate_backoff_example : calculate_backoff 5 30_000 ≡ min (100 * 2 ^ 4) 30_000
calculate_backoff_example = calculate_backoff_lem 5 30_000 (omega arith) (omega arith)

backoff_collapses_example : calculate_backoff 63 30_000 ≡ 0
backoff_collapses_example = backoff_collapses 63 30_000 (omega arith) (omega arith)
