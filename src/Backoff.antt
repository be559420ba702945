-- ===== src/Backoff.antt =====
-- `calculate_backoff` of src/connection.rs, with the wrap of `*` on `u64` in a release build.
use titan_rust_client.Base.{
  ℕ, zero, suc, ◌-◌, ◌*◌, ◌%◌, ◌^◌, ◌≤◌, ◌<◌, ◌≡◌, ◌⊎◌, inl, inr, Bool, true, false, ltb,
  if◌then◌else◌, min, arith,
}

abbrev pub initial_backoff_ms : ℕ
initial_backoff_ms = 100

-- `2u64.saturating_pow(n)`
pub saturating_pow2 : ℕ → ℕ
saturating_pow2 n = if ltb n 64 then 2 ^ n else 2 ^ 64 - 1

pub calculate_backoff : ℕ → ℕ → ℕ
calculate_backoff attempt max_delay_ms =
    min ((initial_backoff_ms * saturating_pow2 (attempt - 1)) % 2 ^ 64) max_delay_ms

-- No product of the first `attempts` attempts overflows.
no_overflow : ℕ → Bool
no_overflow zero = true
no_overflow (suc attempts) =
    if ltb (initial_backoff_ms * 2 ^ attempts) (2 ^ 64) then no_overflow attempts else false

no_overflow-below :
    (attempts k : ℕ)
    → no_overflow attempts ≡ true
    → k < attempts
    → initial_backoff_ms * 2 ^ k < 2 ^ 64
unfolding no_overflow
no_overflow-below zero k fits small = absurd (omega arith)
no_overflow-below (suc attempts) k fits small = ground (arith, no_overflow-below attempts k)

pub calculate_backoff-le :
    (attempt max_delay_ms : ℕ) → calculate_backoff attempt max_delay_ms ≤ max_delay_ms
unfolding calculate_backoff
calculate_backoff-le attempt max_delay_ms = omega arith

-- Up to attempt 58 the delay is the doubling that is meant, 100 ms at first, capped at the maximum.
pub calculate_backoff_lem :
    (attempt max_delay_ms : ℕ)
    → 1 ≤ attempt
    → attempt ≤ 58
    → calculate_backoff attempt max_delay_ms ≡ min (100 * 2 ^ (attempt - 1)) max_delay_ms
unfolding calculate_backoff saturating_pow2 no_overflow
calculate_backoff_lem attempt cap lo hi = ground (arith, no_overflow-below 58 (attempt - 1))

-- At attempts 63 and 64 the product wraps to zero: the client reconnects without any delay.
pub backoff_collapses :
    (attempt max_delay_ms : ℕ)
    → 63 ≤ attempt
    → attempt ≤ 64
    → calculate_backoff attempt max_delay_ms ≡ 0
unfolding calculate_backoff saturating_pow2
backoff_collapses attempt cap lo hi =
    let either : (attempt ≡ 63) ⊎ (attempt ≡ 64) = omega arith in
    elim either [ inl e ↦ rw e (omega arith) | inr e ↦ rw e (omega arith) ]
