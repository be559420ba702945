-- ===== src/Base/Outcome.antt =====
-- `Result<T, TitanClientError>` (src/error.rs), with its monad.
use Prim.Native.Nat.{ℕ}
use Prim.Native.String.{String}
use mathlib.Core.Path.{◌≡◌, refl}
use mathlib.Core.Logic.{◌⊎◌, inl, inr}

-- The payloads of `WebSocket`, `Serialization`, `Deserialization` and `Unexpected` are values of
-- other crates, kept here as their message.
pub data TitanClientError : Type 0 where
  authentication_failed : String → TitanClientError
  rate_limited : (retry_after_ms : ℕ) → TitanClientError
  stream_limit_exceeded : TitanClientError
  connection_failed : (attempts : ℕ) → (reason : String) → TitanClientError
  connection_closed : (reason : String) → TitanClientError
  server_error : (code : ℕ) → (message : String) → TitanClientError
  web_socket : String → TitanClientError
  serialization : String → TitanClientError
  deserialization : String → TitanClientError
  timeout : (duration_ms : ℕ) → TitanClientError
  unexpected : String → TitanClientError

pub data Outcome {ℓ} (A : Type ℓ) : Type ℓ where
  ok : A → Outcome A
  err : TitanClientError → Outcome A

pub Outcome-cases {ℓ} :
    {A : Type ℓ} (r : Outcome A) → ((a : A) × (r ≡ ok a)) ⊎ ((e : TitanClientError) × (r ≡ err e))
Outcome-cases (ok a) = inl (a, refl)
Outcome-cases (err e) = inr (e, refl)

infixl 5 ◌>>=◌
abbrev pub ◌>>=◌ {ℓ κ} : {A : Type ℓ} {B : Type κ} → Outcome A → (A → Outcome B) → Outcome B
ok a >>= f = f a
err e >>= f = err e
