-- ===== src/Connection/Establish/Scenarios.antt =====
-- A run of the model of `establish_connection` at concrete inputs.
use titan_rust_client.Base.{
  if◌then◌else◌, ℕ, ◌≡◌, refl, Bool, true, false, ◌==◌, List, [], ◌∷◌, some, String,
}
use titan_rust_client.Base.Outcome.{ok}
use titan_rust_client.Config.{TitanConfig, new}
use titan_rust_client.Connection.Establish.{
  good, Rustls, Tungstenite, establish_connection, build_default_tls_config,
}
use titan_rust_client.Connection.Establish.Certificates.{Checks, established-Checks}

-- Certificates are numbers; a configuration is how it checks them; a signature is good if it is 1.
record Checker : Type 0 where
  certificate : ℕ → Bool
  signature : ℕ → Bool

among : ℕ → List ℕ → Bool
among n [] = false
among n (k ∷ ks) = let rest = among n ks in if k == n then true else rest

abbrev rustls : Rustls
rustls = record {
  Certificate = ℕ;
  Signed = ℕ;
  Scheme = ℕ;
  Store = List ℕ;
  Builder = Unit {0};
  ClientConfig = Checker;
  is_tls13 = λ s. true;
  empty = [];
  add = λ store cert. some (cert ∷ store);
  native_certs = 4 ∷ 5 ∷ [];
  builder = good tt;
  with_root_certificates =
      λ store b. record { certificate = λ c. among c store; signature = λ s. s == 1 };
  with_custom_certificate_verifier =
      λ v b. record { certificate = v.verify_server_cert; signature = v.verify_tls13_signature };
  verify_tls12_signature = λ s. s == 1;
  verify_tls13_signature = λ s. s == 1;
  supported_schemes = [];
  trusts = λ store c. among c store;
  accepts = λ config c. config.certificate c;
  signature_ok = λ config s. config.signature s;
  accepts-roots = λ store b cert. refl;
  accepts-custom = λ v b cert. refl;
  signature_ok-roots = λ store b s. refl;
  signature_ok-custom = λ v b s. refl;
}

-- The socket is the URL that was asked for.
abbrev tungstenite : Tungstenite Checker
tungstenite = record {
  Request = String;
  WsStream = String;
  into_client_request = λ url. good url;
  with_subprotocol = λ request. good request;
  connect_async = λ request config. ok request;
}

abbrev config : TitanConfig
config = new "wss://api.titan.ag/api/v1/ws" "t"

established-Checks_example :
    (request : String) × (checker : Checker) × (tungstenite.connect_async request checker
      ≡ ok "wss://api.titan.ag/api/v1/ws?auth=t")
    × Checks rustls config.danger_accept_invalid_certs checker
unfolding establish_connection new build_default_tls_config
established-Checks_example =
    established-Checks rustls tungstenite config "wss://api.titan.ag/api/v1/ws?auth=t" refl
