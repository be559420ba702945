-- ===== src/Connection/Establish/Certificates.antt =====
-- Which servers `establish_connection` of src/connection.rs accepts, with the configurations of src/tls.rs.
use titan_rust_client.Base.{◌≡◌, refl, inl, inr, ◌⊎◌, Bool, true, false, String, if◌then◌else◌}
use titan_rust_client.Base.Outcome.{Outcome, ok, err, ◌>>=◌}
use titan_rust_client.Config.{TitanConfig}
use titan_rust_client.Connection.Establish.{
  Try, good, bad, Rustls, Tungstenite, add_all, build_default_tls_config,
  build_dangerous_tls_config, dangerous_accept_all_certs_verifier, socket_url, explain,
  establish_connection,
}

>>=-ok :
    {A B : Type 0} (m : Outcome A) (f : A → Outcome B) (b : B)
    → (m >>= f) ≡ ok b
    → (a : A) × (m ≡ ok a) × (f a ≡ ok b)
>>=-ok (ok a) f b h = (a, refl, h)
>>=-ok (err e) f b h = cc

explain-ok :
    {A : Type 0} (context : String) (r : Try A) (a : A) → explain context r ≡ ok a → r ≡ good a
unfolding explain
explain-ok context (good x) a h = cc
explain-ok context (bad e) a h = cc

Try-cases : {A : Type 0} (r : Try A) → ((a : A) × (r ≡ good a)) ⊎ ((e : String) × (r ≡ bad e))
Try-cases (good a) = inl (a, refl)
Try-cases (bad e) = inr (e, refl)

module _ (w : Rustls) where
  open w use {Certificate, Signed, ClientConfig}

  -- How the configuration checks a server: certificates by the store unless `dangerous`, signatures always.
  abbrev pub Checks : Bool → ClientConfig → Type 0
  Checks dangerous config =
      ((cert : Certificate)
        → w.accepts config cert
          ≡ (if dangerous then true else w.trusts (add_all w w.native_certs w.empty) cert))
      × ((s : Signed)
          → w.signature_ok config s
            ≡ (if w.is_tls13 s then w.verify_tls13_signature s else w.verify_tls12_signature s))

  build_default-Checks :
      (config : ClientConfig) → build_default_tls_config w ≡ good config → Checks false config
  unfolding build_default_tls_config
  build_default-Checks config h = elim (Try-cases w.builder) [
    | inl (b, e) ↦
        let store = add_all w w.native_certs w.empty in
        let same : w.with_root_certificates store b ≡ config =
          (let h' = rw (e, build_default_tls_config) at h in cc) in
        rw (← same) (w.accepts-roots store b, w.signature_ok-roots store b)
    | inr (x, e) ↦ (let h' = rw (e, build_default_tls_config) at h in cc)
  ]

  build_dangerous-Checks :
      (config : ClientConfig) → build_dangerous_tls_config w ≡ good config → Checks true config
  unfolding build_dangerous_tls_config dangerous_accept_all_certs_verifier
  build_dangerous-Checks config h = elim (Try-cases w.builder) [
    | inl (b, e) ↦
        let v = dangerous_accept_all_certs_verifier w in
        let same : w.with_custom_certificate_verifier v b ≡ config =
          (let h' = rw (e, build_dangerous_tls_config) at h in cc) in
        rw (← same) (w.accepts-custom v b, w.signature_ok-custom v b)
    | inr (x, e) ↦ (let h' = rw (e, build_dangerous_tls_config) at h in cc)
  ]

  chosen-Checks :
      (dangerous : Bool) (config : ClientConfig)
      → (if dangerous then build_dangerous_tls_config w else build_default_tls_config w)
        ≡ good config
      → Checks dangerous config
  chosen-Checks true config h = build_dangerous-Checks config h
  chosen-Checks false config h = build_default-Checks config h

  -- A connection is only made with a configuration that checks the server's certificate against the store
  -- of the native ones, or, exactly if `danger_accept_invalid_certs` is set, accepts every certificate; the
  -- signatures of the handshake are verified either way.
  pub established-Checks :
      (t : Tungstenite ClientConfig) (c : TitanConfig) (ws : t.WsStream)
      → establish_connection w t c ≡ ok ws
      → (request : t.Request) × (config : ClientConfig) × (t.connect_async request config ≡ ok ws)
        × Checks c.danger_accept_invalid_certs config
  unfolding establish_connection
  established-Checks t c ws h =
      let (request, _, h1) =
        >>=-ok (explain "Failed to build request: " (t.into_client_request (socket_url c))) _ ws
          h in
      let (request', _, h2) =
        >>=-ok (explain "Sec-WebSocket-Protocol fail: " (t.with_subprotocol request)) _ ws h1 in
      let built =
        (if c.danger_accept_invalid_certs
          then build_dangerous_tls_config w
          else build_default_tls_config w) in
      let (config, made, h3) = >>=-ok (explain "TLS config failed: " built) _ ws h2 in
      (
        request',
        config,
        h3,
        chosen-Checks c.danger_accept_invalid_certs config (explain-ok _ built config made),
      )
