-- ===== src/HomeAssistant/Client.antt =====
-- provider/homeassistant/client.go: the REST client, over net/http as a parameter.
use atoha.Prelude.{
  ℕ, ◌+◌, ◌^◌, String, Bool, ◌||◌, Option, none, some, List, [], ◌∷◌, leb, ltb, if◌then◌else◌,
}
use atoha.Prelude.Lists.{length}
use atoha.Instant.{Time, zero_time}
use atoha.Errors.{
  Result, ok, err, Error, sentinel, message, described, text, unexpected_status, response_too_large,
}
use atoha.Context.{Context}
use atoha.Streams.{Stream, take}
use atoha.HomeAssistant.Translator.{ServiceRequest}

abbrev pub max_response_size : ℕ
max_response_size = 2 ^ 20

-- io.ReadAll(io.LimitReader(reader, n)): an error behind the limit is not met.
unfoldable pub read_up_to : ℕ → Stream → List ℕ × Option Error
read_up_to n s = if leb n (length s.bytes) then (take n s.bytes, none) else (s.bytes, s.failure)

unfoldable pub limited : ℕ → List ℕ × Option Error → List ℕ × Option Error
limited most (body, some e) = (body, some e)
limited most (body, none) =
    if ltb most (length body)
    then (take most body, some (sentinel response_too_large))
    else (body, none)

-- readLimited, with maxResponseSize as an argument.
unfoldable pub read_within : ℕ → Stream → List ℕ × Option Error
unfolding read_up_to limited
read_within most reader = limited most (read_up_to (most + 1) reader)

unfoldable pub read_limited : Stream → List ℕ × Option Error
unfolding read_within
read_limited reader = read_within max_response_size reader

-- What the client asks of net/http: the request, and its response. The path is that of the base URL
-- and its parts, each escaped; the headers are the bearer token and the content type.
pub data Method : Type 0 where
  get post : Method

pub record HttpRequest : Type 0 where
  pub method : Method
  pub path : List (List ℕ)
  pub token : String
  pub body : List ℕ

pub record HttpResponse : Type 0 where
  pub status_code : ℕ
  pub status : String
  pub body : Stream

pub record Transport : Type 0 where
  -- http.NewRequestWithContext
  pub request_error : Context → HttpRequest → Option Error
  -- Client.Do
  pub send : Context → HttpRequest → Result HttpResponse
  -- The bytes of the names in the paths.
  pub bytes_of : String → List ℕ
  -- encoding/json on a state: `entity_id` and `last_updated`
  pub unmarshal_state : List ℕ → Result (List ℕ × Time)

-- serviceResponse
pub record ServiceResponse : Type 0 where
  pub received : Bool
  pub status_code : ℕ
  pub status : String
  pub body : List ℕ

abbrev pub no_response : ServiceResponse
no_response = record { received = Bool.false; status_code = 0; status = ""; body = [] }

-- externalState
pub record ExternalState : Type 0 where
  pub entity_id : List ℕ
  pub last_updated : Time
  pub raw : List ℕ

abbrev pub no_state : ExternalState
no_state = record { entity_id = []; last_updated = zero_time; raw = [] }

-- `resp.StatusCode < http.StatusOK || resp.StatusCode >= http.StatusMultipleChoices`
unfoldable pub outside_success : ℕ → Bool
outside_success code = ltb code 200 || leb 300 code

unfoldable pub status_error : String → Error
status_error status = described (sentinel unexpected_status) (message "%s" (text status ∷ []))

unfoldable pub service_response : Result HttpResponse → ServiceResponse × Option Error
unfolding read_limited
service_response (err e) = (no_response, some e)
service_response (ok resp) =
    let (body, read_err) = read_limited resp.body in
    (
      record {
        received = Bool.true;
        status_code = resp.status_code;
        status = resp.status;
        body = body;
      },
      read_err,
    )

module _ (H : Transport) where
  unfoldable pub decoded_state : List ℕ → Result (List ℕ × Time) → ExternalState × Option Error
  decoded_state body (err e) =
      (no_state, some (described e (message "homeassistant: decode state" [])))
  decoded_state body (ok (entity_id, last_updated)) =
      (record { entity_id = entity_id; last_updated = last_updated; raw = body }, none)

  unfoldable pub state_of : HttpResponse → List ℕ × Option Error → ExternalState × Option Error
  unfolding outside_success status_error decoded_state
  state_of resp (body, some e) = (no_state, some e)
  state_of resp (body, none) =
      if outside_success resp.status_code
      then (no_state, some (status_error resp.status))
      else decoded_state body (H.unmarshal_state body)

  unfoldable pub state_response : Result HttpResponse → ExternalState × Option Error
  unfolding read_limited state_of
  state_response (err e) = (no_state, some e)
  state_response (ok resp) = state_of resp (read_limited resp.body)

  abbrev service_path : ServiceRequest → List (List ℕ)
  service_path request = H.bytes_of "services" ∷ request.domain ∷ H.bytes_of request.service ∷ []

  unfoldable pub send_service :
      Context → HttpRequest → Option Error → ServiceResponse × Option Error
  unfolding service_response
  send_service ctx req (some e) = (no_response, some e)
  send_service ctx req none = service_response (H.send ctx req)

  -- restClient.callService
  unfoldable pub call_service : String → Context → ServiceRequest → ServiceResponse × Option Error
  unfolding send_service
  call_service token ctx request =
      let req : HttpRequest = record {
        method = Method.post;
        path = service_path request;
        token = token;
        body = request.body;
      } in
      send_service ctx req (H.request_error ctx req)

  unfoldable pub send_state : Context → HttpRequest → Option Error → ExternalState × Option Error
  unfolding state_response
  send_state ctx req (some e) = (no_state, some e)
  send_state ctx req none = state_response (H.send ctx req)

  -- restClient.getState
  unfoldable pub get_state : String → Context → List ℕ → ExternalState × Option Error
  unfolding send_state
  get_state token ctx entity_id =
      let req : HttpRequest = record {
        method = Method.get;
        path = H.bytes_of "states" ∷ entity_id ∷ [];
        token = token;
        body = [];
      } in
      send_state ctx req (H.request_error ctx req)
