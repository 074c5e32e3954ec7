-- ===== src/Checks/HomeAssistant.antt =====
-- Runs of the Home Assistant provider and verifier (provider/homeassistant) on small values.
use atoha.Instant.{is_zero}
use atoha.Core.Contracts.{is_name}
use atoha.Prelude.Text.{trim_space}
use atoha.Prelude.{
  ℕ, ◌≤◌, ◌<◌, ◌^◌, String, ◌≡◌, refl, true, false, Option, none, some, List, [], ◌∷◌, ◌++◌, arith,
}
use atoha.Prelude.Lists.{length}
use atoha.Prelude.Text.{codes}
use atoha.Errors.{Error, ok, err, message, sentinel, response_too_large}
use atoha.Core.Action.{Action}
use atoha.Core.Observation.{Observation}
use atoha.Core.Provider.{ResolvedTarget}
use atoha.Core.Outcome.{DispatchStatus}
use atoha.Core.Verification.{VerificationStatus}
use atoha.Execution.Attempt.{normalize_dispatch}
use atoha.HomeAssistant.Translator.{
  Json, Translator, ServiceRequest, new_translator, resolve, dispatch_request, lookup,
}
use atoha.HomeAssistant.Requests.{IsRequest, dispatch_request-bound}
use atoha.Streams.{Stream}
use atoha.HomeAssistant.Client.{ServiceResponse, no_response, no_state, read_limited, read_within}
use atoha.HomeAssistant.Provider.{Ports, dispatch}
use atoha.HomeAssistant.Verifier.{Decoders, StateVerifier, verify}
use atoha.HomeAssistant.Bounds.{read_limited_lem}
use atoha.HomeAssistant.Dispatching.{dispatch-Tells, normalize_dispatch-dispatch}
use atoha.HomeAssistant.Telling.{Tells, Fits}
use atoha.HomeAssistant.Selection.{IsFreshest}
use atoha.HomeAssistant.Freshness.{IsFresh, verify-IsFresh}
use atoha.Checks.Data.{at, live, first_try}

abbrev turn_on : Action
turn_on = record { id = "a-1"; target = "lamp"; name = "turn_on"; input = []; requested_at = at 0 }

abbrev fields_text : List (String × List ℕ) → List ℕ
fields_text [] = 125 ∷ []
fields_text ((k, v) ∷ rest) = codes k ++ v ++ fields_text rest

-- A JSON of which the objects are their keys and values in a row.
abbrev json : Json
json = record {
  unmarshal_object = λ bytes. err (message "unexpected end of JSON input" []);
  marshal_text = λ bytes. 34 ∷ bytes ++ 34 ∷ [];
  marshal_object = λ fields. ok (123 ∷ fields_text fields);
}

abbrev lamps : Translator
lamps = record { bindings = ("lamp", codes "light.desk") ∷ [] }

lamps_built : new_translator (("lamp", codes "light.desk") ∷ []) ≡ ok lamps
unfolding new_translator trim_space
lamps_built = refl

abbrev desk : ResolvedTarget
desk = record { provider = "homeassistant"; endpoint = codes "light.desk" }

desk_resolved : resolve lamps turn_on ≡ ok desk
unfolding resolve trim_space
desk_resolved = refl

abbrev answering : ServiceResponse × Option Error → Ports
answering answer = record {
  call_service = λ ctx r. answer;
  get_state = λ ctx e. (no_state, none);
  now = at 5;
  json = json;
  digest = λ bytes. "00";
}

abbrev success : Ports
success =
    answering (record { received = true; status_code = 200; status = "200 OK"; body = [] }, none)

abbrev failure : Ports
failure = answering (record { received = true; status_code = 503; status = "503"; body = [] }, none)

abbrev silence : Ports
silence = answering (no_response, some (message "connection refused" []))

success_status :
    (dispatch success lamps live first_try turn_on desk).result.status ≡ DispatchStatus.acknowledged
unfolding dispatch trim_space
success_status = refl

failure_status :
    (dispatch failure lamps live first_try turn_on desk).result.status ≡ DispatchStatus.dispatched
unfolding dispatch trim_space
failure_status = refl

silence_status :
    (dispatch silence lamps live first_try turn_on desk).result.status ≡ DispatchStatus.unknown
unfolding dispatch trim_space
silence_status = refl

dispatch-Tells_example :
    Tells success live (dispatch success lamps live first_try turn_on desk)
    × Fits "t-1" (dispatch success lamps live first_try turn_on desk).result
unfolding is_name trim_space is_zero
dispatch-Tells_example = dispatch-Tells success lamps live first_try turn_on desk refl refl

normalize_dispatch-dispatch_example :
    normalize_dispatch
      (dispatch failure lamps live first_try turn_on desk).result
      "homeassistant"
      "t-1"
    ≡ ((dispatch failure lamps live first_try turn_on desk).result, none)
unfolding is_name trim_space is_zero resolve
normalize_dispatch-dispatch_example =
    normalize_dispatch-dispatch failure lamps live first_try turn_on desk refl refl refl

abbrev desk_request : ServiceRequest
desk_request = record {
  domain = codes "light";
  service = "turn_on";
  body = 123 ∷ codes "entity_id" ++ 34 ∷ codes "light.desk" ++ 34 ∷ 125 ∷ [];
}

dispatch_request-bound_example :
    (e : List ℕ) × (lookup "lamp" lamps.bindings ≡ some e) × IsRequest json turn_on e desk_request
unfolding dispatch_request
dispatch_request-bound_example = dispatch_request-bound json lamps turn_on desk refl

abbrev body_of : List ℕ → Stream
body_of bytes = record { bytes = bytes; failure = none }

abbrev small_body : Stream
small_body = record { bytes = 123 ∷ 125 ∷ []; failure = none }

read_limited_run :
    (length (read_limited small_body).0 ≤ 2 ^ 20)
    × ((read_limited small_body).1 ≡ none
        → ((read_limited small_body).0 ≡ small_body.bytes) × (small_body.failure ≡ none))
    × (2 ^ 20 < length small_body.bytes
        → (read_limited small_body).1 ≡ some (sentinel response_too_large))
read_limited_run = read_limited_lem small_body

-- Three bytes where two are the most.
too_large_cut :
    read_within 2 (body_of (1 ∷ 2 ∷ 3 ∷ 4 ∷ [])) ≡ (1 ∷ 2 ∷ [], some (sentinel response_too_large))
unfolding read_within
too_large_cut = refl

abbrev decoders : Decoders
decoders = record {
  unmarshal_state = λ bytes. ok (record { state = "on"; attributes = λ k. [] });
  decode_desired = λ bytes. ok "";
  decode_number = λ bytes. ok "";
  Rat = ℕ;
  set_string = λ s. none;
  rat_eq = λ a b. false;
}

abbrev seen_at : ℕ → Observation
seen_at n = record {
  id = "o-1";
  source = "homeassistant/rest";
  target = "lamp";
  value = [];
  evidence = [];
  observed_at = at n;
  recorded_at = at n;
}

abbrev patient : StateVerifier
patient = record { max_age = 10 }

lamp_verified :
    (verify decoders patient turn_on (seen_at 3 ∷ seen_at 7 ∷ []) (at 9)).0.status
    ≡ VerificationStatus.verified
unfolding verify trim_space
lamp_verified = refl

lamp_stale :
    (verify decoders patient turn_on (seen_at 3 ∷ []) (at 14)).0.status
    ≡ VerificationStatus.inconclusive
unfolding verify trim_space
lamp_stale = refl

verify-IsFresh_example :
    (o : Observation) × IsFreshest turn_on (seen_at 3 ∷ seen_at 7 ∷ []) o
    × IsFresh decoders patient turn_on
        (at 9)
        o
        (verify decoders patient turn_on (seen_at 3 ∷ seen_at 7 ∷ []) (at 9)).0
unfolding verify trim_space
verify-IsFresh_example =
    verify-IsFresh decoders patient turn_on (seen_at 3 ∷ seen_at 7 ∷ []) (at 9) (omega arith) refl
