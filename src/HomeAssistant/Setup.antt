-- ===== src/HomeAssistant/Setup.antt =====
-- New of provider/homeassistant/provider.go. The default client and clock, for nil ones, are not told
-- from those of the configuration here.
use Prim.Native.Char.{Char, code}
use atoha.Prelude.{ℕ, String, ◌||◌, not, List, [], str_eq, ◌==◌, if◌then◌else◌}
use atoha.Prelude.Text.{trim_space}
use atoha.Errors.{Result, ok, err, message}
use atoha.HomeAssistant.Translator.{Translator, new_translator, config_error}

-- url.URL, as far as it is looked at.
pub record Url : Type 0 where
  pub scheme : String
  pub host : String
  pub raw_query : String
  pub fragment : String
  pub path : String

pub record ProviderConfig : Type 0 where
  pub base_url : String
  pub token : String
  pub bindings : List (String × List ℕ)

pub record Provider : Type 0 where
  pub translator : Translator
  pub base_url : Url
  pub token : String

-- strings.TrimRight(path, "/")
unfoldable pub before_slashes : Char → String → String
before_slashes c String.[] = if code c == 47 then String.[] else String.◌∷◌ c String.[]
before_slashes c (String.◌∷◌ d s) = String.◌∷◌ c (String.◌∷◌ d s)

unfoldable pub trim_slashes : String → String
unfolding before_slashes
trim_slashes String.[] = String.[]
trim_slashes (String.◌∷◌ c s) = before_slashes c (trim_slashes s)

unfoldable pub provider_of : ProviderConfig → Url → Result Translator → Result Provider
unfolding trim_slashes
provider_of config url (err e) = err e
provider_of config url (ok translation) = ok (record {
  translator = translation;
  base_url = record url { path = trim_slashes url.path };
  token = config.token;
})

unfoldable pub with_url : ProviderConfig → Result Url → Result Provider
unfolding provider_of new_translator trim_space
with_url config (err e) = err (config_error (message "base URL must be absolute HTTP(S)" []))
with_url config (ok url) =
    if not (str_eq url.scheme "http" || str_eq url.scheme "https") || str_eq url.host ""
    then err (config_error (message "base URL must be absolute HTTP(S)" []))
    else if not (str_eq url.raw_query "") || not (str_eq url.fragment "")
    then err (config_error (message "base URL cannot contain query or fragment" []))
    else if str_eq (trim_space config.token) ""
    then err (config_error (message "token is required" []))
    else provider_of config url (new_translator config.bindings)

-- New, with url.Parse as an argument.
unfoldable pub new_provider : (String → Result Url) → ProviderConfig → Result Provider
unfolding with_url
new_provider parse config = with_url config (parse config.base_url)
