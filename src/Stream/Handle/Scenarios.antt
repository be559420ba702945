-- ===== src/Stream/Handle/Scenarios.antt =====
-- Runs of the model of `recv` in src/stream.rs at concrete inputs.
use titan_rust_client.Base.{ℕ, ◌≡◌, refl, true, false, List, [], ◌∷◌, some}
use titan_rust_client.Sample.{permits, numbers}
use titan_rust_client.Base.{◌⊎◌, ◌++◌}
use titan_rust_client.Base.{none}
use titan_rust_client.Wire.{StreamDataPayload, swap_quotes}
use titan_rust_client.Stream.Handle.{Mpsc, recv, Exchange, opened, puts, takes, ends}
use titan_rust_client.Stream.Handle.Received.{quotes_arrive}
use titan_rust_client.Base.{Bool, All, map, Option, subst, sym}
use titan_rust_client.Stream.Adapter.{
  Calm, Delivery, received, adapter, quotes_of, before_refusal, any_refused, Absent, adapter_lem,
}
use titan_rust_client.Stream.Scenarios.{one_stream, one_stream-Synced}

-- Two quotes come, and the handle is dropped between them.
abbrev dropped : List (Delivery permits numbers)
dropped =
    received (λ u. u) (swap_quotes 5) true (λ u. u)
    ∷ received (λ u. u) StreamDataPayload.other true (λ u. u)
    ∷ received (λ u. u) (swap_quotes 6) false (λ u. u)
    ∷ []

dropped-Calm : All (Calm 0) dropped
dropped-Calm = (
  (λ u v. v, λ u v. (v, refl)),
  ((λ u v. v, λ u v. (v, refl)), ((λ u v. v, λ u v. (v, refl)), tt)),
)

-- A queue, and whether its senders are gone.
record Queue : Type 0 where
  messages : List ℕ
  over : Bool

fifo_recv : Queue → Option ℕ × Queue
fifo_recv c = elim c.messages [
  | [] ↦ (none, c)
  | a ∷ later ↦ (some a, record c { messages = later })
]

fifo_recv-first :
    (c : Queue) (a : ℕ) (later : List ℕ)
    → c.messages ≡ a ∷ later
    → ((fifo_recv c).0 ≡ some a) × ((fifo_recv c).1.messages ≡ later)
unfolding fifo_recv
fifo_recv-first c a later e = rw (e, fifo_recv) (refl, refl)

fifo_recv-ended : (c : Queue) → c.messages ≡ [] → (fifo_recv c).0 ≡ none
unfolding fifo_recv
fifo_recv-ended c e = rw (e, fifo_recv) refl

abbrev fifo : Mpsc ℕ
fifo = record {
  State = Queue;
  channel = record { messages = []; over = false };
  send = λ a c. record c { messages = c.messages ++ a ∷ [] };
  end_senders = λ c. record c { over = true };
  recv = fifo_recv;
  waiting = λ c. c.messages;
  ended = λ c. c.over;
  waiting-channel = refl;
  waiting-send = λ a c. refl;
  waiting-end = λ c. refl;
  recv-first = fifo_recv-first;
  recv-ended = λ c e over. fifo_recv-ended c e;
}

-- The first quotes are received, and then the adapter ends.
abbrev drained : Queue
drained = record { messages = []; over = true }

drained-Exchange : Exchange fifo (adapter dropped 0 one_stream).1 (some 5 ∷ []) drained
unfolding recv fifo_recv
drained-Exchange =
    subst (λ put. Exchange fifo put (some 5 ∷ []) drained)
      (sym (adapter_lem dropped 0 one_stream dropped-Calm one_stream-Synced).0)
      (ends (takes (puts 5 opened) (λ e. cc)))

quotes_arrive_example :
    (some 5 ∷ map some drained.messages ≡ map some (quotes_of (before_refusal dropped)))
    × (((q : ℕ) × (later : List ℕ) × (drained.messages ≡ q ∷ later))
        ⊎ ((drained.over ≡ false)
            ⊎ (((recv fifo drained).0 ≡ none)
                × (some 5 ∷ [] ≡ map some (quotes_of (before_refusal dropped))))))
    × ((any_refused dropped ≡ false) ⊎ Absent 0 (adapter dropped 0 one_stream).0)
quotes_arrive_example =
    quotes_arrive fifo dropped 0 one_stream (some 5 ∷ []) drained dropped-Calm one_stream-Synced
      drained-Exchange
