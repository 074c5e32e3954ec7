-- ===== src/Core/Event.antt =====
-- event.go: immutable execution facts.
use atoha.Prelude.{ℕ, String, Bool, true, false, Option, none, List, [], ◌∷◌, str_eq, if◌then◌else◌}
use atoha.Instant.{Time, is_zero}
use atoha.Errors.{
  Result, ok, err, Error, sentinel, message, described, text, invalid_execution_event,
}
use atoha.Core.Identity.{validate_identity, clone_bytes}
use atoha.Core.Action.{check}

-- EventKind is a string: `other s` is one that is none of the constants.
pub data EventKind : Type 0 where
  action_requested attempt_started recovery_authorized action_admitted action_rejected : EventKind
  dispatch_unknown not_dispatched action_dispatched provider_acknowledged : EventKind
  observation_recorded effect_unknown effect_unverified effect_observed_satisfied : EventKind
  effect_observed_unsatisfied verification_verified verification_unsatisfied : EventKind
  verification_inconclusive : EventKind
  other : String → EventKind

unfoldable pub kind_text : EventKind → String
kind_text action_requested = "action-requested"
kind_text attempt_started = "attempt-started"
kind_text recovery_authorized = "recovery-authorized"
kind_text action_admitted = "action-admitted"
kind_text action_rejected = "action-rejected"
kind_text dispatch_unknown = "dispatch-unknown"
kind_text not_dispatched = "not-dispatched"
kind_text action_dispatched = "action-dispatched"
kind_text provider_acknowledged = "provider-acknowledged"
kind_text observation_recorded = "observation-recorded"
kind_text effect_unknown = "effect-unknown"
kind_text effect_unverified = "effect-unverified"
kind_text effect_observed_satisfied = "effect-observed-satisfied"
kind_text effect_observed_unsatisfied = "effect-observed-unsatisfied"
kind_text verification_verified = "verification-verified"
kind_text verification_unsatisfied = "verification-unsatisfied"
kind_text verification_inconclusive = "verification-inconclusive"
kind_text (other s) = s

unfoldable pub kind_eq : EventKind → EventKind → Bool
kind_eq a b = str_eq (kind_text a) (kind_text b)

-- EventKind.valid
unfoldable pub valid_kind : EventKind → Bool
valid_kind (other s) = false
valid_kind k = true

-- `spec.Kind != EventActionRequested`, negated
unfoldable pub is_requested : EventKind → Bool
is_requested action_requested = true
is_requested k = false

-- The field `data` of the source is `bytes` here.
pub record ExecutionEventSpec : Type 0 where
  pub id : String
  pub action_id : String
  pub attempt_id : String
  pub kind : EventKind
  pub occurred_at : Time
  pub recorded_at : Time
  pub bytes : List ℕ

pub record ExecutionEvent : Type 0 where
  pub id : String
  pub action_id : String
  pub attempt_id : String
  pub kind : EventKind
  pub occurred_at : Time
  pub recorded_at : Time
  pub bytes : List ℕ

abbrev event_error : Error → Error
event_error e = described (sentinel invalid_execution_event) e

-- Only a request may come before its attempt.
unfoldable pub check_attempt : ExecutionEventSpec → Option Error
unfolding validate_identity is_requested
check_attempt spec = elim (is_requested spec.kind) [
  | false ↦ validate_identity "attempt ID" spec.attempt_id
  | true ↦
      if str_eq spec.attempt_id "" then none else validate_identity "attempt ID" spec.attempt_id
]

unfoldable pub new_execution_event : ExecutionEventSpec → Result ExecutionEvent
unfolding validate_identity valid_kind check_attempt is_zero clone_bytes
new_execution_event spec = check (validate_identity "event ID" spec.id) event_error (
    check (validate_identity "action ID" spec.action_id) event_error (
      if valid_kind spec.kind
      then check (check_attempt spec) event_error (
          if is_zero spec.occurred_at
          then err (event_error (message "occurrence time is required" []))
          else if is_zero spec.recorded_at
          then err (event_error (message "recorded time is required" []))
          else ok (record {
            id = spec.id;
            action_id = spec.action_id;
            attempt_id = spec.attempt_id;
            kind = spec.kind;
            occurred_at = spec.occurred_at;
            recorded_at = spec.recorded_at;
            bytes = clone_bytes spec.bytes;
          }))
      else err (event_error (message "unsupported kind %q" (text (kind_text spec.kind) ∷ [])))))
