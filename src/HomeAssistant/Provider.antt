-- ===== src/HomeAssistant/Provider.antt =====
-- provider/homeassistant/provider.go: the facade over the translator and the client. A run of Dispatch
-- holds the requests that the client was called with.
use atoha.Prelude.{ℕ, String, not, Option, none, some, List, [], ◌∷◌, ◌++◌, str_eq, if◌then◌else◌}
use Prim.Native.String.{◌++◌ as str_append}
use atoha.Prelude.Lists.{bytes_eq}
use atoha.Instant.{Time, is_zero}
use atoha.Errors.{
  Result, ok, err, Error, sentinel, message, described, text, join, attempt_mismatch,
}
use atoha.Context.{Context}
use atoha.Core.Action.{Action, ExecutionAttempt}
use atoha.Core.Observation.{Observation, new_observation}
use atoha.Core.Outcome.{DispatchStatus}
use atoha.Core.Provider.{
  Receipt, ResolvedTarget, DispatchResult, zero_dispatch, new_receipt, new_dispatch_result,
}
use atoha.HomeAssistant.Translator.{
  Json, Translator, ServiceRequest, provider_id, dispatch_request, entity_for,
}
use atoha.HomeAssistant.Client.{ServiceResponse, ExternalState, outside_success, status_error}

-- haClient, the clock, encoding/json and, as `digest`, the hex text of SHA-256.
pub record Ports : Type 0 where
  pub call_service : Context → ServiceRequest → ServiceResponse × Option Error
  pub get_state : Context → List ℕ → ExternalState × Option Error
  pub now : Time
  pub json : Json
  pub digest : List ℕ → String

-- Dispatch with the calls of the client that it made.
pub record Dispatched : Type 0 where
  pub result : DispatchResult
  pub failure : Option Error
  pub calls : List ServiceRequest

unfoldable pub result_with : Option Error → Result DispatchResult → DispatchResult × Option Error
result_with operation_err (err e) = (zero_dispatch, some e)
result_with operation_err (ok r) = (r, operation_err)

-- Provider.result
unfoldable pub provider_result :
    String → DispatchStatus → Option Receipt → Option Error → DispatchResult × Option Error
unfolding result_with new_dispatch_result
provider_result attempt_id status receipt operation_err = result_with operation_err (
    new_dispatch_result (record {
      provider = provider_id;
      attempt_id = attempt_id;
      status = status;
      receipt = receipt;
    }))

unfoldable pub ended : DispatchResult × Option Error → List ServiceRequest → Dispatched
ended (r, e) calls = record { result = r; failure = e; calls = calls }

unfoldable pub acknowledged : String → Option Error → Result Receipt → DispatchResult × Option Error
unfolding provider_result
acknowledged attempt_id call_err (err e) = (zero_dispatch, some e)
acknowledged attempt_id call_err (ok receipt) =
    provider_result attempt_id DispatchStatus.acknowledged (some receipt) call_err

module _ (P : Ports) where
  -- What follows a response.
  unfoldable pub on_received :
      String → ServiceResponse → Option Error → DispatchResult × Option Error
  unfolding provider_result acknowledged new_receipt outside_success status_error
  on_received attempt_id response call_err =
      if outside_success response.status_code
      then provider_result attempt_id DispatchStatus.dispatched none
          (join (some (status_error response.status) ∷ call_err ∷ []))
      else acknowledged attempt_id call_err (
          new_receipt (record {
            provider = provider_id;
            attempt_id = attempt_id;
            received_at = P.now;
            evidence = response.body;
          }))

  -- `if err != nil && !response.received`
  unfoldable pub on_response :
      String → ServiceResponse × Option Error → DispatchResult × Option Error
  unfolding provider_result on_received
  on_response attempt_id (response, none) = on_received attempt_id response none
  on_response attempt_id (response, some e) =
      if not response.received
      then provider_result attempt_id DispatchStatus.unknown none (some e)
      else on_received attempt_id response (some e)

  unfoldable pub on_request : Context → String → Result ServiceRequest → Dispatched
  unfolding provider_result ended on_response
  on_request ctx attempt_id (err e) =
      ended (provider_result attempt_id DispatchStatus.not_dispatched none (some e)) []
  on_request ctx attempt_id (ok request) =
      ended (on_response attempt_id (P.call_service ctx request)) (request ∷ [])

  -- Provider.Dispatch
  unfoldable pub dispatch :
      Translator → Context → ExecutionAttempt → Action → ResolvedTarget → Dispatched
  unfolding provider_result ended on_request dispatch_request
  dispatch t ctx attempt action target =
      if not (str_eq attempt.action_id action.id)
      then ended
          (provider_result attempt.id DispatchStatus.not_dispatched none (
            some (
              described (sentinel attempt_mismatch) (
                message "attempt action %q, action %q"
                  (text attempt.action_id ∷ text action.id ∷ [])))))
          []
      else on_request ctx attempt.id (dispatch_request P.json t action target)

  unfoldable pub one_observation : Result Observation → List Observation × Option Error
  one_observation (err e) = ([], some e)
  one_observation (ok o) = (o ∷ [], none)

  unfoldable pub on_state :
      Action → List ℕ → ExternalState × Option Error → List Observation × Option Error
  unfolding one_observation new_observation
  on_state action entity_id (state, some e) = ([], some e)
  on_state action entity_id (state, none) =
      if not (bytes_eq state.entity_id entity_id)
      then ([], some (message "homeassistant: state entity %q does not match %q" []))
      else if is_zero state.last_updated
      then ([], some (message "homeassistant: state has no last_updated time" []))
      else one_observation (
          new_observation (record {
            id = str_append "ha-" (P.digest (entity_id ++ 0 ∷ state.raw));
            source = "homeassistant/rest";
            target = action.target;
            value = state.raw;
            evidence = [];
            observed_at = state.last_updated;
            recorded_at = P.now;
          }))

  unfoldable pub on_entity : Context → Action → Result (List ℕ) → List Observation × Option Error
  unfolding on_state
  on_entity ctx action (err e) = ([], some e)
  on_entity ctx action (ok entity_id) = on_state action entity_id (P.get_state ctx entity_id)

  -- Provider.Observe
  unfoldable pub observe :
      Translator → Context → Action → ResolvedTarget → List Observation × Option Error
  unfolding on_entity entity_for
  observe t ctx action target = on_entity ctx action (entity_for t action target)
