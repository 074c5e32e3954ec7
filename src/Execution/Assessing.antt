-- ===== src/Execution/Assessing.antt =====
-- execution/verify.go: what Verify takes and returns, its tests, and the facts that it builds.
use atoha.Prelude.{ℕ, String, Option, none, some, List, [], ◌∷◌, ◌++◌, str_eq, if◌then◌else◌}
use atoha.Prelude.Lists.{all}
use atoha.Instant.{Time}
use atoha.Errors.{
  Result, ok, err, Error, sentinel, join, attempt_not_found, action_mismatch,
  action_identity_conflict, verification_unknown,
}
use atoha.Context.{Context}
use atoha.Core.Action.{Action}
use atoha.Core.Observation.{Observation}
use atoha.Core.Provider.{ResolvedTarget, zero_target}
use atoha.Core.Verification.{VerificationStatus, VerificationResult, zero_verification}
use atoha.Core.Event.{ExecutionEvent}
use atoha.Eventlog.Fact.{same_action}
use atoha.Execution.Payload.{Codec}
use atoha.Execution.Evidence.{observation_event, verification_events}

-- Resolver, Observer and Verifier, the clock and the codec.
pub record VerifyPorts : Type 0 where
  pub resolve : Context → Action → ResolvedTarget × Option Error
  pub observe : Context → Action → ResolvedTarget → List Observation × Option Error
  pub verify : Context → Action → List Observation → Time → VerificationResult × Option Error
  -- The reading of the clock, by how often it has been read.
  pub now : ℕ → Time
  pub codec : Codec

pub record VerifyInput : Type 0 where
  pub action : Action
  pub attempt_id : String

pub record VerifyResult : Type 0 where
  pub action_id : String
  pub attempt_id : String
  pub target : ResolvedTarget
  pub observations : List Observation
  pub verification : VerificationResult

-- VerifyResult{}
abbrev pub zero_verify : VerifyResult
zero_verify = record {
  action_id = "";
  attempt_id = "";
  target = zero_target;
  observations = [];
  verification = zero_verification;
}

-- The result before anything has been resolved.
abbrev pub begun_verify : VerifyInput → VerifyResult
begun_verify input = record zero_verify {
  action_id = input.action.id;
  attempt_id = input.attempt_id;
}

-- A call of a port, with what it returned that matters later.
pub data VerifyCall : Type 0 where
  resolve_call : Option Error → VerifyCall
  observe_call : Option Error → VerifyCall
  verify_call : VerificationStatus → Option Error → VerifyCall
  append_call : List ExecutionEvent → Option Error → VerifyCall

-- The tests on the facts of the attempt.
unfoldable pub facts_error : Action → List ExecutionEvent → Option Error
facts_error action [] = some (sentinel attempt_not_found)
facts_error action (e ∷ es) =
    if all (λ (f : ExecutionEvent). str_eq f.action_id action.id) (e ∷ es)
    then none
    else some (sentinel action_mismatch)

-- `!found`, and then `!sameAction(storedAction, input.Action)`
unfoldable pub intent_error : Action → Option Action → Option Error
intent_error action none = some (sentinel attempt_not_found)
intent_error action (some stored) =
    if same_action stored action then none else some (sentinel action_identity_conflict)

-- `if verification.Status() == VerificationUnknown && verifyErr == nil`
unfoldable pub assessed_error : VerificationStatus → Option Error → Option Error
assessed_error VerificationStatus.unknown none = some (sentinel verification_unknown)
assessed_error s e = e

-- One round of the loop over the observations: the error is joined, or the fact appended.
unfoldable pub add_fact :
    Option Error × List ExecutionEvent → Result ExecutionEvent → Option Error × List ExecutionEvent
add_fact (build_err, facts) (err e) = (join (build_err ∷ some e ∷ []), facts)
add_fact (build_err, facts) (ok event) = (build_err, facts ++ event ∷ [])

unfoldable pub observation_facts :
    Codec
    → Action
    → String
    → List Observation
    → Option Error × List ExecutionEvent
    → Option Error × List ExecutionEvent
observation_facts codec action attempt_id [] built = built
observation_facts codec action attempt_id (o ∷ os) built =
    observation_facts codec action attempt_id os
      (add_fact built (observation_event codec action attempt_id o))

-- The facts of the assessment put after those of the observations.
unfoldable pub add_assessment :
    Option Error × List ExecutionEvent
    → Result (List ExecutionEvent)
    → Option Error × List ExecutionEvent
add_assessment (build_err, facts) (err e) = (join (build_err ∷ some e ∷ []), facts)
add_assessment (build_err, facts) (ok events) = (join (build_err ∷ none ∷ []), facts ++ events)

unfoldable pub verify_facts :
    Codec
    → VerifyInput
    → List Observation
    → VerificationResult
    → Option Error
    → Time
    → Option Error × List ExecutionEvent
verify_facts codec input observations verification verify_err checked_at =
    add_assessment (observation_facts codec input.action input.attempt_id observations (none, []))
      (verification_events codec input.action input.attempt_id verification verify_err checked_at)
