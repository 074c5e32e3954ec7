-- ===== src/Server.antt =====
-- cmd/atoha-server/main.go: the configuration from the environment, and the admitter. The standard
-- library's parsers are parameters.
pub mod Startup
use atoha.Prelude.{
  ℕ, ◌*◌, ◌^◌, String, Bool, true, false, ◌&&◌, ◌||◌, not, Option, none, some, List, [], ◌∷◌,
  str_eq, ltb, if◌then◌else◌,
}
use atoha.Instant.{Duration, nanoseconds, negative}
use atoha.Errors.{Result, ok, err, Error, message, described}
use atoha.Context.{Context}
use atoha.Core.Action.{Action}
use atoha.Core.Outcome.{AdmissionStatus}

-- The environment, os.Getenv, with what parses its values: encoding/json, time.ParseDuration,
-- net.SplitHostPort, whose port is not used, and net.ParseIP with IsLoopback.
pub record Environment : Type 0 where
  pub getenv : String → String
  pub unmarshal_bindings : String → Result (List (String × List ℕ))
  pub parse_duration : String → Result Duration
  pub split_host_port : String → Result String
  pub parse_ip : String → Option Bool

pub record Config : Type 0 where
  pub listen_address : String
  pub database_path : String
  pub api_token : String
  pub home_assistant_url : String
  pub home_assistant_token : String
  pub bindings : List (String × List ℕ)
  pub provider_timeout : ℕ
  pub verification_max_age : ℕ

abbrev pub second : ℕ
second = 10 ^ 9

-- `if value := …; value != ""`
unfoldable pub value_or : String → String → String
value_or value fallback = if str_eq value "" then fallback else value

-- `err != nil || duration <= 0`
unfoldable pub positive : String → Result Duration → Result ℕ
positive name (err e) = err (message name [])
positive name (ok (negative n)) = err (message name [])
positive name (ok (nanoseconds n)) = if ltb 0 n then ok n else err (message name [])

-- `len(result.bindings) == 0`; an error that is nil prints as such.
unfoldable pub checked_bindings : Result (List (String × List ℕ)) → Result (List (String × List ℕ))
checked_bindings (err e) =
    err (described e (message "ATOHA_HOME_ASSISTANT_BINDINGS must be a non-empty JSON object" []))
checked_bindings (ok []) =
    err (message "ATOHA_HOME_ASSISTANT_BINDINGS must be a non-empty JSON object" [])
checked_bindings (ok (b ∷ bs)) = ok (b ∷ bs)

unfoldable pub is_loopback : Option Bool → Bool
is_loopback none = false
is_loopback (some b) = b

module _ (V : Environment) where
  unfoldable pub env_or : String → String → String
  unfolding value_or
  env_or name fallback = value_or (V.getenv name) fallback

  unfoldable pub loopback_host : Result String → Bool
  unfolding is_loopback
  loopback_host (err e) = false
  loopback_host (ok host) = if str_eq host "localhost" then true else is_loopback (V.parse_ip host)

  unfoldable pub loopback_address : String → Bool
  unfolding loopback_host
  loopback_address address = loopback_host (V.split_host_port address)

  -- A duration from the environment, or the one that is set already.
  unfoldable pub duration_or : String → ℕ → String → Result ℕ
  unfolding positive
  duration_or value fallback name =
      if str_eq value "" then ok fallback else positive name (V.parse_duration value)

  unfoldable pub check_token : Config → Result Config
  unfolding loopback_address
  check_token c =
      if str_eq c.api_token "" && not (loopback_address c.listen_address)
      then err (message "ATOHA_API_TOKEN is required when ATOHA_LISTEN is not loopback" [])
      else ok c

  unfoldable pub with_age : Config → Result ℕ → Result Config
  unfolding check_token
  with_age c (err e) = err e
  with_age c (ok age) = check_token (record c { verification_max_age = age })

  unfoldable pub with_timeout : Config → Result ℕ → Result Config
  unfolding with_age duration_or
  with_timeout c (err e) = err e
  with_timeout c (ok timeout) =
      with_age (record c { provider_timeout = timeout })
        (duration_or (V.getenv "ATOHA_VERIFICATION_MAX_AGE") c.verification_max_age
          "ATOHA_VERIFICATION_MAX_AGE must be a positive duration")

  unfoldable pub with_bindings : Config → Result (List (String × List ℕ)) → Result Config
  unfolding with_timeout duration_or
  with_bindings c (err e) = err e
  with_bindings c (ok bindings) =
      with_timeout (record c { bindings = bindings })
        (duration_or (V.getenv "ATOHA_PROVIDER_TIMEOUT") c.provider_timeout
          "ATOHA_PROVIDER_TIMEOUT must be a positive duration")

  -- The value of `result` before the checks.
  unfoldable pub initial : Config
  unfolding env_or
  initial = record {
    listen_address = env_or "ATOHA_LISTEN" "127.0.0.1:8080";
    database_path = env_or "ATOHA_DATABASE" "atoha.db";
    api_token = V.getenv "ATOHA_API_TOKEN";
    home_assistant_url = V.getenv "ATOHA_HOME_ASSISTANT_URL";
    home_assistant_token = V.getenv "ATOHA_HOME_ASSISTANT_TOKEN";
    bindings = [];
    provider_timeout = 10 * second;
    verification_max_age = 30 * second;
  }

  unfoldable pub checked_home : Config → Result Config
  unfolding with_bindings checked_bindings
  checked_home c =
      if str_eq c.home_assistant_url "" || str_eq c.home_assistant_token ""
      then err (message "ATOHA_HOME_ASSISTANT_URL and ATOHA_HOME_ASSISTANT_TOKEN are required" [])
      else with_bindings c
          (checked_bindings (V.unmarshal_bindings (V.getenv "ATOHA_HOME_ASSISTANT_BINDINGS")))

  unfoldable pub load_config : Result Config
  unfolding checked_home initial
  load_config = checked_home initial

-- allowAll.Admit
unfoldable pub admit : Context → Action → AdmissionStatus × Option Error
admit ctx action = (AdmissionStatus.admitted, none)
