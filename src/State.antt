-- ===== src/State.antt =====
-- src/state.rs: the observable state of a connection.
use Prim.Native.String.{◌++◌ as str_append}
use titan_rust_client.Base.{ℕ, ◌≡◌, refl, ◌↔◌, Bool, true, false, Option, none, some, String}

pub data ConnectionState : Type 0 where
  connected : ConnectionState
  reconnecting : (attempt : ℕ) → ConnectionState
  disconnected : (reason : String) → ConnectionState

pub is_connected : ConnectionState → Bool
is_connected connected = true
is_connected _ = false

pub is_reconnecting : ConnectionState → Bool
is_reconnecting (reconnecting _) = true
is_reconnecting _ = false

pub is_disconnected : ConnectionState → Bool
is_disconnected (disconnected _) = true
is_disconnected _ = false

pub reconnect_attempt : ConnectionState → Option ℕ
reconnect_attempt (reconnecting attempt) = some attempt
reconnect_attempt _ = none

pub disconnect_reason : ConnectionState → Option String
disconnect_reason (disconnected reason) = some reason
disconnect_reason _ = none

pub default : ConnectionState
default = disconnected "Not connected"

-- `Display`; `show` writes an attempt number in decimal.
pub fmt : (ℕ → String) → ConnectionState → String
fmt show connected = "Connected"
fmt show (reconnecting attempt) =
    str_append "Reconnecting (attempt " (str_append (show attempt) ")")
fmt show (disconnected reason) = str_append "Disconnected: " reason

-- The queries determine the state: each of the five says exactly which state it is, with its attempt
-- number or reason.
pub queries_determine :
    (s : ConnectionState) (attempt : ℕ) (reason : String)
    → ((is_connected s ≡ true) ↔ (s ≡ connected))
      × ((is_reconnecting s ≡ true) ↔ ((n : ℕ) × (s ≡ reconnecting n)))
      × ((is_disconnected s ≡ true) ↔ ((r : String) × (s ≡ disconnected r)))
      × ((reconnect_attempt s ≡ some attempt) ↔ (s ≡ reconnecting attempt))
      × ((disconnect_reason s ≡ some reason) ↔ (s ≡ disconnected reason))
unfolding is_connected is_reconnecting is_disconnected reconnect_attempt disconnect_reason
queries_determine connected attempt reason = (
  (λ _. refl, λ _. refl),
  (λ e. cc, λ e. cc e.1),
  (λ e. cc, λ e. cc e.1),
  (λ e. cc, λ e. cc),
  (λ e. cc, λ e. cc),
)
queries_determine (reconnecting n) attempt reason = (
  (λ e. cc, λ e. cc),
  (λ _. (n, refl), λ _. refl),
  (λ e. cc, λ e. cc e.1),
  (λ e. cc, λ e. cc),
  (λ e. cc, λ e. cc),
)
queries_determine (disconnected r) attempt reason = (
  (λ e. cc, λ e. cc),
  (λ e. cc, λ e. cc e.1),
  (λ _. (r, refl), λ _. refl),
  (λ e. cc, λ e. cc),
  (λ e. cc, λ e. cc),
)
