-- ===== src/Execution/Attempt.antt =====
-- execution/execute.go: what `execute` takes and returns, and the steps of it that call no port.
use atoha.Prelude.{String, Bool, ◌&&◌, Option, none, some, List, [], ◌∷◌, str_eq, if◌then◌else◌}
use atoha.Instant.{Time}
use atoha.Errors.{
  Result, ok, err, Error, sentinel, message, described, text, number, join, admission_unknown,
  invalid_provider_result,
}
use atoha.Core.Action.{Action, ExecutionAttempt, ExecutionAttemptSpec, zero_action, zero_attempt}
use atoha.Core.Outcome.{
  AdmissionStatus, DispatchStatus, EffectStatus, Outcome, zero_outcome, new_outcome,
  outcome_or_zero, admission_code,
}
use atoha.Core.Event.{ExecutionEvent}
use atoha.Core.Provider.{
  ResolvedTarget, DispatchResult, zero_target, zero_dispatch, new_dispatch_result,
}
use atoha.Execution.Authorization.{RecoveryAuthorization}
use atoha.Execution.Ports.{Ports}
use atoha.Execution.Events.{
  ◌>>=◌, action_requested_event, attempt_started_event, recovery_authorized_event, was_sent,
}

pub record ExecuteInput : Type 0 where
  pub action : Action
  pub attempt_id : String

pub record ExecuteResult : Type 0 where
  pub action : Action
  pub attempt : ExecutionAttempt
  pub target : ResolvedTarget
  pub admission : AdmissionStatus
  pub dispatch : DispatchResult
  pub outcome : Outcome

-- ExecuteResult{}
abbrev pub zero_result : ExecuteResult
zero_result = record {
  action = zero_action;
  attempt = zero_attempt;
  target = zero_target;
  admission = AdmissionStatus.unknown;
  dispatch = zero_dispatch;
  outcome = zero_outcome;
}

-- A call of a port, with what it returned that the code goes on by.
pub data PortCall : Type 0 where
  begin_call : List ExecutionEvent → Bool → Option Error → PortCall
  admit_call : AdmissionStatus → Option Error → PortCall
  resolve_call : Option Error → PortCall
  dispatch_call : ExecutionAttempt → ResolvedTarget → PortCall
  append_call : List ExecutionEvent → Option Error → PortCall

-- outcome of execute.go
unfoldable pub outcome_of : AdmissionStatus → DispatchStatus → EffectStatus → Outcome
unfolding new_outcome outcome_or_zero
outcome_of a d e =
    outcome_or_zero (new_outcome (record { admission = a; dispatch = d; effect = e }))

-- What takes the place of a result of another provider or attempt.
unfoldable pub replaced : String → String → Result DispatchResult → DispatchResult × Option Error
replaced provider attempt_id (err e) =
    (zero_dispatch, join (some (sentinel invalid_provider_result) ∷ some e ∷ []))
replaced provider attempt_id (ok unknown) = (
  unknown,
  some (
      described (sentinel invalid_provider_result)
        (message "expected provider %q and attempt %q" (text provider ∷ text attempt_id ∷ []))),
)

unfoldable pub normalize_dispatch : DispatchResult → String → String → DispatchResult × Option Error
normalize_dispatch result provider attempt_id =
    if str_eq result.provider provider && str_eq result.attempt_id attempt_id
    then (result, none)
    else replaced provider attempt_id (
        new_dispatch_result (record {
          provider = provider;
          attempt_id = attempt_id;
          status = DispatchStatus.unknown;
          receipt = none;
        }))

-- The status that Admit returned, checked: an invalid one counts as unknown, with an error.
unfoldable pub checked_admission : AdmissionStatus × Option Error → AdmissionStatus × Option Error
unfolding join
checked_admission (AdmissionStatus.invalid n, e) = (
  AdmissionStatus.unknown,
  join (
      e
      ∷ some (
          described (sentinel admission_unknown) (
            message "invalid status %d" (number (admission_code (AdmissionStatus.invalid n)) ∷ [])))
      ∷ []),
)
checked_admission (s, e) = (s, e)

-- `cause := admitErr; if cause == nil && admission != AdmissionRejected { cause = ErrAdmissionUnknown }`
unfoldable pub admission_cause : AdmissionStatus → Option Error → Option Error
admission_cause s (some e) = some e
admission_cause AdmissionStatus.rejected none = none
admission_cause s none = some (sentinel admission_unknown)

-- The initial facts of an attempt.
unfoldable pub initial_events :
    Ports
    → Action
    → ExecutionAttempt
    → Option RecoveryAuthorization
    → Time
    → Result (List ExecutionEvent)
initial_events u action attempt authorization started_at = do
  requested ← action_requested_event u.codec action attempt.id started_at
  started ← attempt_started_event u.codec action attempt started_at
  elim authorization [
    | none ↦ ok (requested ∷ started ∷ [])
    | some a ↦
        recovery_authorized_event u.codec action attempt a started_at
        >>= (λ authorized. ok (requested ∷ started ∷ authorized ∷ []))
  ]

-- The attempt's specification.
unfoldable pub attempt_spec :
    ExecuteInput → Option RecoveryAuthorization → Time → ExecutionAttemptSpec
attempt_spec input authorization started_at = record {
  id = input.attempt_id;
  action_id = input.action.id;
  started_at = started_at;
  recovery_of = elim authorization [ none ↦ "" | some a ↦ a.previous_attempt_id ];
}

-- The effect that is known once the provider has returned.
unfoldable pub effect_after : DispatchStatus → EffectStatus
unfolding was_sent
effect_after s = if was_sent s then EffectStatus.unverified else EffectStatus.unknown
