-- ===== src/Connection/Establish.antt =====
-- `establish_connection` of src/connection.rs, and the TLS configurations of src/tls.rs. The crates rustls,
-- rustls-native-certs and tokio-tungstenite are parameters.
pub mod Certificates
mod Scenarios
use Prim.Native.String.{◌++◌ as str_append, len, slice}
use text.Mathlib.Text.{◌==◌ as same_text, find?}
use titan_rust_client.Base.{
  ◌-◌, ◌≡◌, Bool, true, false, ◌||◌, List, [], ◌∷◌, Option, none, some, String, if◌then◌else◌,
}
use titan_rust_client.Base.Outcome.{◌>>=◌, Outcome, ok, err, unexpected}
use titan_rust_client.Config.{TitanConfig}

-- `Result` with the text of the error.
pub data Try (A : Type 0) : Type 0 where
  good : A → Try A
  bad : String → Try A

-- A `ServerCertVerifier`.
pub record Verifier (Certificate Signed Scheme : Type 0) : Type 0 where
  pub verify_server_cert : Certificate → Bool
  pub verify_tls12_signature : Signed → Bool
  pub verify_tls13_signature : Signed → Bool
  pub supported_verify_schemes : List Scheme

-- What src/tls.rs calls. `accepts config cert` and `signature_ok config` are what a handshake under the
-- configuration makes of a server's certificate and of its signature.
pub record Rustls : Type 1 where
  pub Certificate : Type 0
  pub Signed : Type 0
  pub Scheme : Type 0
  pub Store : Type 0
  pub Builder : Type 0
  pub ClientConfig : Type 0
  pub is_tls13 : Signed → Bool
  pub empty : Store
  pub add : Store → Certificate → Option Store
  pub native_certs : List Certificate
  -- `builder_with_provider(...).with_safe_default_protocol_versions()`
  pub builder : Try Builder
  pub with_root_certificates : Store → Builder → ClientConfig
  pub with_custom_certificate_verifier : Verifier Certificate Signed Scheme → Builder → ClientConfig
  -- `rustls::crypto::verify_tls12_signature` and `verify_tls13_signature` with the provider's algorithms.
  pub verify_tls12_signature : Signed → Bool
  pub verify_tls13_signature : Signed → Bool
  pub supported_schemes : List Scheme
  pub trusts : Store → Certificate → Bool
  pub accepts : ClientConfig → Certificate → Bool
  pub signature_ok : ClientConfig → Signed → Bool
  pub accepts-roots :
      (store : Store) (b : Builder) (cert : Certificate)
      → accepts (with_root_certificates store b) cert ≡ trusts store cert
  pub accepts-custom :
      (v : Verifier Certificate Signed Scheme) (b : Builder) (cert : Certificate)
      → accepts (with_custom_certificate_verifier v b) cert ≡ v.verify_server_cert cert
  pub signature_ok-roots :
      (store : Store) (b : Builder) (s : Signed)
      → signature_ok (with_root_certificates store b) s
        ≡ (if is_tls13 s then verify_tls13_signature s else verify_tls12_signature s)
  pub signature_ok-custom :
      (v : Verifier Certificate Signed Scheme) (b : Builder) (s : Signed)
      → signature_ok (with_custom_certificate_verifier v b) s
        ≡ (if is_tls13 s then v.verify_tls13_signature s else v.verify_tls12_signature s)

module _ (w : Rustls) where
  open w use {Certificate, Signed, Scheme, Store, Builder, ClientConfig}

  -- `DangerousAcceptAllCertsVerifier`
  pub dangerous_accept_all_certs_verifier : Verifier Certificate Signed Scheme
  dangerous_accept_all_certs_verifier = record {
    verify_server_cert = λ cert. true;
    verify_tls12_signature = w.verify_tls12_signature;
    verify_tls13_signature = w.verify_tls13_signature;
    supported_verify_schemes = w.supported_schemes;
  }

  -- The loop over the native certificates; one that the store refuses is left out.
  pub add_all : List Certificate → Store → Store
  add_all [] store = store
  add_all (cert ∷ certs) store =
      add_all certs (elim (w.add store cert) [ some s ↦ s | none ↦ store ])

  pub build_default_tls_config : Try ClientConfig
  unfolding add_all
  build_default_tls_config = elim w.builder [
    | bad e ↦ bad e
    | good b ↦ good (w.with_root_certificates (add_all w.native_certs w.empty) b)
  ]

  pub build_dangerous_tls_config : Try ClientConfig
  unfolding dangerous_accept_all_certs_verifier
  build_dangerous_tls_config = elim w.builder [
    | bad e ↦ bad e
    | good b ↦ good (w.with_custom_certificate_verifier dangerous_accept_all_certs_verifier b)
  ]

-- `str::contains` and `ends_with('/')`
contains : String → String → Bool
contains s t = elim (find? s t) [ some i ↦ true | none ↦ false ]

ends_with_slash : String → Bool
ends_with_slash s = same_text (slice s (len s - 1) (len s)) "/"

pub socket_url : TitanConfig → String
unfolding contains ends_with_slash
socket_url c =
    if contains c.url "/ws" || ends_with_slash c.url
    then str_append c.url (str_append "?auth=" c.token)
    else str_append c.url (str_append "/?auth=" c.token)

-- `map_err(|e| Unexpected(format!("{context}{e}")))`
pub explain : {A : Type 0} → String → Try A → Outcome A
explain context (good a) = ok a
explain context (bad e) = err (unexpected (str_append context e))

-- What `establish_connection` calls: `into_client_request`, the header with the subprotocol, and
-- `connect_async_tls_with_config`, whose error is already wrapped.
pub record Tungstenite (ClientConfig : Type 0) : Type 1 where
  pub Request : Type 0
  pub WsStream : Type 0
  pub into_client_request : String → Try Request
  pub with_subprotocol : Request → Try Request
  pub connect_async : Request → ClientConfig → Outcome WsStream

pub establish_connection :
    (w : Rustls) (t : Tungstenite w.ClientConfig) → TitanConfig → Outcome t.WsStream
unfolding socket_url explain
establish_connection w t c = do
  request ← explain "Failed to build request: " (t.into_client_request (socket_url c))
  request' ← explain "Sec-WebSocket-Protocol fail: " (t.with_subprotocol request)
  tls_config ← explain "TLS config failed: " (
      if c.danger_accept_invalid_certs
      then build_dangerous_tls_config w
      else build_default_tls_config w)
  t.connect_async request' tls_config
