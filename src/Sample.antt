-- ===== src/Sample.antt =====
-- Concrete parameters for runs of the model: a `Notify` with one permit, and an API whose types are
-- numbers.
use titan_rust_client.Base.{ℕ, ◌<◌, ◌≡◌, refl, Bool, true, false, ◌||◌, arith}
use titan_rust_client.Notify.{Notify}
use titan_rust_client.Wire.{Api}

-- One permit and one waiting task, as src/queue.rs uses it.
pub record Permit : Type 0 where
  pub stored : Bool
  pub waits : Bool

pub or_left : (a b : Bool) → a ≡ true → (a || b) ≡ true
or_left a b h = ground arith

pub or_none : (a b : Bool) → a ≡ false → b ≡ false → (a || b) ≡ false
or_none a b h k = ground arith

abbrev pub flag : Bool → ℕ
flag true = 1
flag false = 0

pub flag_up : (b : Bool) → b ≡ true → 0 < flag b
flag_up b h = ground arith

abbrev pub permits : Notify
permits = record {
  State = Permit;
  new = record { stored = false; waits = false };
  notify_one = λ s. record { stored = true; waits = false };
  notify_waiters = λ s. record { stored = s.stored || s.waits; waits = false };
  ready = λ s. s.stored;
  consume = λ s. record { stored = false; waits = false };
  register = λ s. record { stored = s.stored; waits = true };
  waiting = λ s. s.waits;
  ready-notify_one = λ s. refl;
  ready-notify_waiters = λ s. or_left s.stored s.waits;
  ready-register = λ s h. h;
  ready-notify_waiters_idle = λ s. or_none s.stored s.waits;
  wake_ups = λ s. flag s.stored;
  wake_ups-consume = λ s h. flag_up s.stored h;
  wake_ups-notify_one = λ s. omega arith;
  wake_ups-register = λ s. omega arith;
  new_idle = (refl, refl);
}

abbrev pub numbers : Api
numbers = record {
  SwapQuoteRequest = ℕ;
  SwapQuotes = ℕ;
  SwapPriceRequest = ℕ;
  SwapPrice = ℕ;
  VenueInfo = ℕ;
  ProviderInfo = ℕ;
  ServerInfo = ℕ;
  concurrent_streams = λ n. n;
}
