-- ===== src/Http/Serving.antt =====
-- adapter/httpapi/handler.go: New, ServeHTTP and decode. encoding/json is a parameter, and the paths
-- are clean: net/http redirects a request whose path is not.
use atoha.Prelude.{
  ℕ, ◌^◌, String, Bool, true, false, ◌&&◌, ◌||◌, not, Option, none, some, List, [], ◌∷◌, str_eq,
  ◌==◌, ltb, if◌then◌else◌,
}
use atoha.Prelude.Lists.{length, all}
use Prim.Native.String.{◌++◌ as ◌+++◌}
use atoha.Context.{Context}
use atoha.Errors.{Result, ok, err, Error, message, described}
use atoha.Streams.{Stream, take}
use atoha.Execution.Ports.{Journal, Ports}
use atoha.Execution.Execute.{World}
use atoha.Execution.Attempt.{PortCall}
use atoha.Execution.Verify.{VerifyWorld}
use atoha.Execution.Assessing.{VerifyPorts, VerifyCall}
use atoha.Http.{
  ExecuteRequest, RecoverRequest, Response, Body, unauthorized, health, not_routed, is_authorized,
  execute_handler, recover_handler, verify_handler, get_handler, scan_handler,
}

abbrev pub max_request_size : ℕ
max_request_size = 2 ^ 20

-- http.MaxBytesReader
unfoldable pub max_bytes : Stream → Stream
max_bytes body =
    if ltb max_request_size (length body.bytes)
    then record {
      bytes = take max_request_size body.bytes;
      failure = some (message "http: request body too large" []);
    }
    else body

-- The white space of JSON.
abbrev pub is_json_space : ℕ → Bool
is_json_space c = c == 32 || c == 9 || c == 10 || c == 13

unfoldable pub is_none : Option Error → Bool
is_none none = true
is_none (some e) = false

-- Whether the next Decode is io.EOF: of what is left, white space, and the end of the file.
unfoldable pub at_end : List ℕ → Option Error → Bool
unfolding is_none
at_end rest failure = all is_json_space rest && is_none failure

unfoldable pub on_first {ℓ} : {A : Type ℓ} → Option Error → Result (A × List ℕ) → Result A
on_first failure (err e) = err (described (message "invalid JSON request" []) e)
on_first failure (ok (request, rest)) =
    if at_end rest failure
    then ok request
    else err (message "request must contain one JSON value" [])

-- `parse` is Decode of a decoder that does not allow unknown fields: the value, and the bytes of the
-- stream behind it.
unfoldable pub decode {ℓ} : {A : Type ℓ} → (Stream → Result (A × List ℕ)) → Stream → Result A
unfolding on_first
decode parse body = on_first (max_bytes body).failure (parse (max_bytes body))

-- A request: its path is given by the parts between the slashes, as r.URL.Path has them.
pub record Request : Type 0 where
  pub method : String
  pub path : List String
  pub authorization : String
  pub body : Stream

unfoldable pub url_path : List String → String
url_path [] = ""
url_path (part ∷ parts) = "/" +++ (part +++ url_path parts)

-- The patterns that New registers, and what net/http does with a request that matches none.
pub data Route : Type 0 where
  to_execute to_verify to_recover to_scan to_health : Route
  to_get : String → Route
  method_not_allowed not_found : Route

unfoldable pub posted : String → Route → Route
posted method route = if str_eq method "POST" then route else method_not_allowed

-- A pattern for GET is one for HEAD too.
unfoldable pub gotten : String → Route → Route
gotten method route =
    if str_eq method "GET" || str_eq method "HEAD" then route else method_not_allowed

unfoldable pub route_v1 : String → String → String → Route
route_v1 method a b =
    if str_eq a "actions" && str_eq b "execute"
    then posted method to_execute
    else if str_eq a "actions" && str_eq b "verify"
    then posted method to_verify
    else if str_eq a "actions" && str_eq b "recover"
    then posted method to_recover
    else if str_eq a "attempts" && not (str_eq b "")
    then gotten method (to_get b)
    else if str_eq a "recovery" && str_eq b "incomplete"
    then gotten method to_scan
    else not_found

unfoldable pub route : String → List String → Route
route method [] = not_found
route method (a ∷ []) = if str_eq a "healthz" then gotten method to_health else not_found
route method (a ∷ b ∷ []) = not_found
route method (a ∷ b ∷ c ∷ []) = if str_eq a "v1" then route_v1 method b c else not_found
route method (a ∷ b ∷ c ∷ d ∷ parts) = not_found

-- The use cases share the journal; each has the calls of its ports.
pub record Site (J : Journal) : Type 0 where
  pub state : J.State
  pub ticks : ℕ
  pub calls : List PortCall
  pub verify_calls : List VerifyCall

-- Handler: what the use cases are made of, the token, and encoding/json for the two requests.
pub record Handler : Type 0 where
  pub ports : Ports
  pub verify_ports : VerifyPorts
  pub api_token : String
  pub parse_execute : Stream → Result (ExecuteRequest × List ℕ)
  pub parse_recover : Stream → Result (RecoverRequest × List ℕ)

abbrev pub plain : ℕ → Body → Response
plain status body = record { status = status; body = body }

module _ (J : Journal) where
  unfoldable pub on_world : Site J → Response × World J → Response × Site J
  on_world s (response, w) =
      (response, record s { state = w.state; ticks = w.ticks; calls = w.calls })

  unfoldable pub on_verify_world : Site J → Response × VerifyWorld J → Response × Site J
  on_verify_world s (response, w) =
      (response, record s { state = w.state; ticks = w.ticks; verify_calls = w.calls })

  abbrev pub world_of : Site J → World J
  world_of s = record { state = s.state; ticks = s.ticks; calls = s.calls }

  abbrev pub verify_world_of : Site J → VerifyWorld J
  verify_world_of s = record { state = s.state; ticks = s.ticks; calls = s.verify_calls }

  unfoldable pub routed : Handler → Context → Stream → Route → Site J → Response × Site J
  routed h ctx body to_execute s =
      on_world s (execute_handler J h.ports ctx (decode h.parse_execute body) (world_of s))
  routed h ctx body to_verify s =
      on_verify_world s
        (verify_handler J h.verify_ports ctx (decode h.parse_execute body) (verify_world_of s))
  routed h ctx body to_recover s =
      on_world s (recover_handler J h.ports ctx (decode h.parse_recover body) (world_of s))
  routed h ctx body to_scan s = (scan_handler J ctx s.state, s)
  routed h ctx body to_health s = (plain 200 health, s)
  routed h ctx body (to_get id) s = (get_handler J ctx id s.state, s)
  routed h ctx body method_not_allowed s = (plain 405 (not_routed "Method Not Allowed"), s)
  routed h ctx body not_found s = (plain 404 (not_routed "404 page not found"), s)

  -- Handler.ServeHTTP
  unfoldable pub serve : Handler → Context → Request → Site J → Response × Site J
  unfolding route routed
  serve h ctx r s =
      let answer = routed h ctx r.body (route r.method r.path) s in
      if is_authorized h.api_token (url_path r.path) r.authorization
      then answer
      else (plain 401 unauthorized, s)
