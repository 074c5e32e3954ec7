-- ===== src/Checks/Server.antt =====
-- A start of the server command (cmd/atoha-server/main.go) with a small environment.
use atoha.Prelude.{String, ◌≡◌, refl, some, [], ◌∷◌, str_eq, if◌then◌else◌}
use atoha.Prelude.Text.{codes}
use atoha.Errors.{ok, err, message}
use atoha.Instant.{nanoseconds}
use atoha.Server.{Environment, Config, load_config}
use atoha.Server.Startup.{IsSafe, load_config-IsSafe}

abbrev in_env : String → String → String
in_env listen name =
    if str_eq name "ATOHA_LISTEN"
    then listen
    else if str_eq name "ATOHA_HOME_ASSISTANT_URL"
    then "http://ha.local"
    else if str_eq name "ATOHA_HOME_ASSISTANT_TOKEN"
    then "secret"
    else if str_eq name "ATOHA_VERIFICATION_MAX_AGE"
    then "1m"
    else ""

abbrev env : String → Environment
env listen = record {
  getenv = in_env listen;
  unmarshal_bindings = λ text. ok (("lamp", codes "light.desk") ∷ []);
  parse_duration = λ text. ok (nanoseconds 60000000000);
  split_host_port =
      λ address. if str_eq address "127.0.0.1:8080" then ok "127.0.0.1" else ok "0.0.0.0";
  parse_ip = λ host. some (str_eq host "127.0.0.1");
}

abbrev local_config : Config
local_config = record {
  listen_address = "127.0.0.1:8080";
  database_path = "atoha.db";
  api_token = "";
  home_assistant_url = "http://ha.local";
  home_assistant_token = "secret";
  bindings = ("lamp", codes "light.desk") ∷ [];
  provider_timeout = 10000000000;
  verification_max_age = 60000000000;
}

local_loaded : load_config (env "") ≡ ok local_config
unfolding load_config
local_loaded = refl

open_refused :
    load_config (env "0.0.0.0:80")
    ≡ err (message "ATOHA_API_TOKEN is required when ATOHA_LISTEN is not loopback" [])
unfolding load_config
open_refused = refl

load_config-IsSafe_example : IsSafe (env "") local_config
unfolding load_config
load_config-IsSafe_example = load_config-IsSafe (env "") refl
