-- ===== src/Connection/Front/Distinct.antt =====
-- The ids and channels that `send_request` of src/connection.rs gives out are all different.
use titan_rust_client.Base.{
  ◌∙◌, ℕ, ◌+◌, ◌≤◌, ◌<◌, ◌≡◌, ◌≢◌, sym, ap, inl, inr, [], ◌∷◌, ◌++◌, some, arith, Bool-cases,
  get_elem?, get_elem?-snoc, u32_max, u32_succ,
}
use titan_rust_client.Base.Outcome.{Outcome, ok, err}
use titan_rust_client.Notify.{Notify}
use titan_rust_client.Wire.{Api, RequestData, ClientRequest}
use titan_rust_client.Connection.{Shared}
use titan_rust_client.Connection.Front.{Front, connect, submit}

-- Calls of `send_request` after `connect`, at most `n`, and whatever else becomes of the connection: it
-- may be cancelled, or its task may end.
pub data Calls {N : Notify} {api : Api} (f : Front N api) : ℕ → Front N api → Type 0 where
  none_yet : Calls f 0 f
  submits :
      {n : ℕ} {g : Front N api} (body : RequestData api)
      → Calls f n g
      → Calls f (n + 1) (submit body g).0
  elsewise :
      {n : ℕ} {g : Front N api} (shared : Shared N api) (cancelled listening : _)
      → Calls f n g
      → Calls f n (record g { shared = shared; cancelled = cancelled; listening = listening })

-- No two requests handed over share their id or their channel.
pub record Distinct {N : Notify} {api : Api} (n : ℕ) (f : Front N api) : Type 0 where
  pub counted : f.request_id ≤ n + 1
  pub below :
      (i : ℕ) (p : ClientRequest api × ℕ)
      → get_elem? f.outbox i ≡ some p
      → (p.0.id < f.request_id) × (p.1 < f.next_tx)
  pub apart :
      (i j : ℕ) (p q : ClientRequest api × ℕ)
      → get_elem? f.outbox i ≡ some p
      → get_elem? f.outbox j ≡ some q
      → i ≢ j
      → (p.0.id ≢ q.0.id) × (p.1 ≢ q.1)

module _ {N : Notify} {api : Api} where
  empty-Distinct : (f : Front N api) → [] ≡ f.outbox → 1 ≡ f.request_id → Distinct 0 f
  empty-Distinct f none_out first = record {
    counted = omega (arith, first);
    below = λ i p at. absurd (ground (arith, ap (λ o. get_elem? o i) none_out));
    apart = λ i j p q at at' other. absurd (ground (arith, ap (λ o. get_elem? o i) none_out));
  }

  pub connect-Distinct :
      (established : Outcome (Unit {0})) (f : Front N api)
      → connect established ≡ ok f
      → Distinct 0 f
  unfolding connect
  connect-Distinct (err e) f h = cc
  connect-Distinct (ok u) f h =
      empty-Distinct f (ap (λ o. elim o [ ok g ↦ g.outbox | err e ↦ [] ]) h)
        (ap (λ o. elim o [ ok g ↦ g.request_id | err e ↦ 1 ]) h)

  -- A request with the number of the counter, and a fresh channel.
  handed-Distinct :
      (n : ℕ) (body : RequestData api) (f : Front N api)
      → n + 1 < u32_max
      → Distinct n f
      → Distinct (n + 1) (record f {
        request_id = u32_succ f.request_id;
        next_tx = f.next_tx + 1;
        outbox = f.outbox ++ (record { id = f.request_id; body = body }, f.next_tx) ∷ [];
      })
  handed-Distinct n body f small d =
      let new : ClientRequest api × ℕ = (record { id = f.request_id; body = body }, f.next_tx) in
      record {
        counted = omega (arith, d.counted);
        below = λ i p at. elim (get_elem?-snoc f.outbox new i at) [
          | inl old ↦ let b = d.below i p old in (omega (arith, d.counted, b.0), omega (arith, b.1))
          | inr (last, same) ↦
              (omega (arith, d.counted, ap (λ r. r.0.id) same), omega (arith, ap (λ r. r.1) same))
        ];
        apart = λ i j p q at at' other. elim (get_elem?-snoc f.outbox new i at) [
          | inl old ↦ elim (get_elem?-snoc f.outbox new j at') [
            | inl old' ↦ d.apart i j p q old old' other
            | inr (last, same) ↦
                let b = d.below i p old in
                (
                  λ e. omega (arith, b.0, e, ap (λ r. r.0.id) same),
                  λ e. omega (arith, b.1, e, ap (λ r. r.1) same),
                )
          ]
          | inr (last, same) ↦ elim (get_elem?-snoc f.outbox new j at') [
            | inl old' ↦
                let b = d.below j q old' in
                (
                  λ e. omega (arith, b.0, e, ap (λ r. r.0.id) same),
                  λ e. omega (arith, b.1, e, ap (λ r. r.1) same),
                )
            | inr (last', same') ↦ absurd (other (last ∙ sym last'))
          ]
        ];
      }

  submit-Distinct :
      (n : ℕ) (body : RequestData api) (f : Front N api)
      → n + 1 < u32_max
      → Distinct n f
      → Distinct (n + 1) (submit body f).0
  unfolding submit
  submit-Distinct n body f small d = elim (Bool-cases f.cancelled) [
    | inl x ↦
        rw (x, submit)
          (record { counted = omega (arith, d.counted); below = d.below; apart = d.apart })
    | inr x ↦ elim (Bool-cases f.listening) [
      | inl y ↦
          let h = handed-Distinct n body f small d in
          rw (x, y, submit) (record { counted = h.counted; below = h.below; apart = h.apart })
      | inr y ↦
          rw (x, y, submit)
            (record {
              counted = omega (arith, d.counted);
              below = λ i p at.
                  let b = d.below i p at in (omega (arith, d.counted, b.0), omega (arith, b.1));
              apart = d.apart;
            })
    ]
  ]

  pub Calls-Distinct :
      {f : Front N api} {n : ℕ} {g : Front N api}
      → Calls f n g
      → n < u32_max
      → Distinct 0 f
      → Distinct n g
  Calls-Distinct none_yet small d = d
  Calls-Distinct (submits body calls) small d =
      submit-Distinct _ body _ small (Calls-Distinct calls (omega arith) d)
  Calls-Distinct (elsewise shared cancelled listening calls) small d =
      let e = Calls-Distinct calls small d in
      record { counted = e.counted; below = e.below; apart = e.apart }
