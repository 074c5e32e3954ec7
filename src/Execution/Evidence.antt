-- ===== src/Execution/Evidence.antt =====
-- observationEvent and verificationEvents of execution/events.go.
use atoha.Prelude.{String, List, [], ◌∷◌, ◌++◌, Option, ℕ, if◌then◌else◌}
use atoha.Prelude.Text.{codes}
use atoha.Instant.{Time}
use atoha.Errors.{Result, ok, Error}
use atoha.Core.Action.{Action}
use atoha.Core.Observation.{Observation}
use atoha.Core.Verification.{
  VerificationStatus, VerificationResult, verification_text, same_verification,
}
use atoha.Core.Event.{EventKind, ExecutionEvent}
use atoha.Execution.Payload.{Payload, Codec, event_data_schema_v1}
use atoha.Execution.Events.{◌>>=◌, new_event}

unfoldable pub observation_event : Codec → Action → String → Observation → Result ExecutionEvent
observation_event codec action attempt_id o = do
  bytes ← codec.marshal (
      Payload.observation (record {
        schema = event_data_schema_v1;
        id = o.id;
        source = o.source;
        target = o.target;
        value = o.value;
        evidence = o.evidence;
        observed_at = o.observed_at;
        recorded_at = o.recorded_at;
      }))
  new_event codec action.id attempt_id EventKind.observation_recorded (codes o.id) o.observed_at
      o.recorded_at bytes

unfoldable pub verification_kind : VerificationStatus → EventKind
verification_kind VerificationStatus.verified = EventKind.verification_verified
verification_kind VerificationStatus.unsatisfied = EventKind.verification_unsatisfied
verification_kind s = EventKind.verification_inconclusive

unfoldable pub effect_kind : VerificationStatus → EventKind
effect_kind VerificationStatus.verified = EventKind.effect_observed_satisfied
effect_kind VerificationStatus.unsatisfied = EventKind.effect_observed_unsatisfied
effect_kind s = EventKind.effect_unverified

-- result.Verifier() + "\x00" + result.CheckedAt().Format(time.RFC3339Nano)
unfoldable pub assessment_qualifier : Codec → VerificationResult → List ℕ
assessment_qualifier codec result =
    codes result.verifier ++ (0 ∷ codec.format_time result.checked_at)

-- The facts of an assessment that is not unknown.
unfoldable pub assessment_events :
    Codec
    → Action
    → String
    → VerificationResult
    → Option Error
    → Time
    → Result (List ExecutionEvent)
assessment_events codec action attempt_id result operation_err recorded_at = do
  effect_event ←
      new_event codec action.id attempt_id (effect_kind result.status)
        (assessment_qualifier codec result) result.checked_at recorded_at []
  bytes ← codec.marshal (
      Payload.verification (record {
        schema = event_data_schema_v1;
        status = verification_text result.status;
        verifier = result.verifier;
        checked_at = result.checked_at;
        observation_ids = result.observation_ids;
        reason = result.reason;
        error = operation_err;
      }))
  verification_event ←
      new_event codec action.id attempt_id (verification_kind result.status)
        (assessment_qualifier codec result) result.checked_at recorded_at bytes
  ok (effect_event ∷ verification_event ∷ [])

unfoldable pub verification_events :
    Codec
    → Action
    → String
    → VerificationResult
    → Option Error
    → Time
    → Result (List ExecutionEvent)
verification_events codec action attempt_id result operation_err recorded_at =
    if same_verification result.status VerificationStatus.unknown
    then ok []
    else assessment_events codec action attempt_id result operation_err recorded_at
