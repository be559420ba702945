-- ===== src/Config.antt =====
-- src/config.rs: the configuration and its builder methods.
use titan_rust_client.Base.{ℕ, ◌≡◌, refl, Bool, false, Option, none, some, String, sym}

abbrev pub default_ping_interval_ms : ℕ
default_ping_interval_ms = 25_000

abbrev pub default_pong_timeout_ms : ℕ
default_pong_timeout_ms = 10_000

pub record TitanConfig : Type 0 where
  pub url : String
  pub token : String
  pub max_reconnect_delay_ms : ℕ
  pub max_reconnect_attempts : Option ℕ
  pub auto_wrap_sol : Bool
  pub danger_accept_invalid_certs : Bool
  pub ping_interval_ms : ℕ
  pub pong_timeout_ms : ℕ
  pub one_shot_timeout_ms : ℕ

unfoldable pub new : String → String → TitanConfig
new url token = record {
  url = url;
  token = token;
  max_reconnect_delay_ms = 30_000;
  max_reconnect_attempts = none;
  auto_wrap_sol = false;
  danger_accept_invalid_certs = false;
  ping_interval_ms = default_ping_interval_ms;
  pong_timeout_ms = default_pong_timeout_ms;
  one_shot_timeout_ms = 10_000;
}

pub default : TitanConfig
default = record {
  url = "wss://api.titan.ag/api/v1/ws";
  token = "";
  max_reconnect_delay_ms = 30_000;
  max_reconnect_attempts = none;
  auto_wrap_sol = false;
  danger_accept_invalid_certs = false;
  ping_interval_ms = default_ping_interval_ms;
  pong_timeout_ms = default_pong_timeout_ms;
  one_shot_timeout_ms = 10_000;
}

pub with_max_reconnect_delay_ms : TitanConfig → ℕ → TitanConfig
with_max_reconnect_delay_ms c ms = record c { max_reconnect_delay_ms = ms }

pub with_max_reconnect_attempts : TitanConfig → ℕ → TitanConfig
with_max_reconnect_attempts c attempts = record c { max_reconnect_attempts = some attempts }

pub with_auto_wrap_sol : TitanConfig → Bool → TitanConfig
with_auto_wrap_sol c enabled = record c { auto_wrap_sol = enabled }

pub with_danger_accept_invalid_certs : TitanConfig → Bool → TitanConfig
with_danger_accept_invalid_certs c accept = record c { danger_accept_invalid_certs = accept }

pub with_ping_interval_ms : TitanConfig → ℕ → TitanConfig
with_ping_interval_ms c ms = record c { ping_interval_ms = ms }

pub with_pong_timeout_ms : TitanConfig → ℕ → TitanConfig
with_pong_timeout_ms c ms = record c { pong_timeout_ms = ms }

pub with_one_shot_timeout_ms : TitanConfig → ℕ → TitanConfig
with_one_shot_timeout_ms c ms = record c { one_shot_timeout_ms = ms }

-- `Default` is `new` at the public address without a token, and the builder methods reach every
-- configuration with a limit on attempts: all seven in a row, from any configuration with the address
-- and the token, give exactly the values that they were given.
pub builders_reach :
    (c start : TitanConfig) (attempts : ℕ)
    → c.max_reconnect_attempts ≡ some attempts
    → start.url ≡ c.url
    → start.token ≡ c.token
    → (default ≡ new "wss://api.titan.ag/api/v1/ws" "")
      × (with_one_shot_timeout_ms
            (with_pong_timeout_ms
              (with_ping_interval_ms
                (with_danger_accept_invalid_certs
                  (with_auto_wrap_sol
                    (with_max_reconnect_attempts
                      (with_max_reconnect_delay_ms start c.max_reconnect_delay_ms)
                      attempts)
                    c.auto_wrap_sol)
                  c.danger_accept_invalid_certs)
                c.ping_interval_ms)
              c.pong_timeout_ms)
            c.one_shot_timeout_ms
          ≡ c)
unfolding new default with_max_reconnect_delay_ms with_max_reconnect_attempts with_auto_wrap_sol
    with_danger_accept_invalid_certs with_ping_interval_ms with_pong_timeout_ms
    with_one_shot_timeout_ms
builders_reach c start attempts e u t = (
  refl,
  λ i. record {
    url = u i;
    token = t i;
    max_reconnect_delay_ms = c.max_reconnect_delay_ms;
    max_reconnect_attempts = sym e i;
    auto_wrap_sol = c.auto_wrap_sol;
    danger_accept_invalid_certs = c.danger_accept_invalid_certs;
    ping_interval_ms = c.ping_interval_ms;
    pong_timeout_ms = c.pong_timeout_ms;
    one_shot_timeout_ms = c.one_shot_timeout_ms;
  },
)
