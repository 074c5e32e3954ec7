-- ===== src/Execution/Events.antt =====
-- execution/events.go: the facts that the use cases record.
use atoha.Prelude.{
  ◌≡◌, refl, ℕ, String, Bool, Option, none, some, List, [], ◌∷◌, ◌++◌, if◌then◌else◌, ◌||◌,
}
use Prim.Native.String.{◌++◌ as ◌+++◌}
use atoha.Prelude.Text.{codes}
use atoha.Instant.{Time}
use atoha.Errors.{Result, ok, err, Error}
use atoha.Core.Action.{Action, ExecutionAttempt}
use atoha.Core.Outcome.{
  AdmissionStatus, DispatchStatus, same_dispatch, admission_text, dispatch_text,
}
use atoha.Core.Event.{EventKind, ExecutionEvent, ExecutionEventSpec, new_execution_event, kind_text}
use atoha.Core.Provider.{ResolvedTarget, Receipt, DispatchResult}
use atoha.Execution.Authorization.{RecoveryAuthorization}
use atoha.Execution.Payload.{Payload, Codec, ReceiptPayload, event_data_schema_v1}

-- The text that is hashed: the four parts, with a NUL between each two.
unfoldable pub preimage : String → String → EventKind → List ℕ → List ℕ
unfolding kind_text
preimage action_id attempt_id kind qualifier =
    codes action_id ++ (0 ∷ (codes attempt_id ++ (0 ∷ (codes (kind_text kind) ++ (0 ∷ qualifier)))))

unfoldable pub deterministic_event_id : Codec → String → String → EventKind → List ℕ → String
unfolding preimage
deterministic_event_id codec action_id attempt_id kind qualifier =
    "event-" +++ codec.digest (preimage action_id attempt_id kind qualifier)

abbrev pub event_spec :
    Codec → String → String → EventKind → List ℕ → Time → Time → List ℕ → ExecutionEventSpec
event_spec codec action_id attempt_id kind qualifier occurred_at recorded_at bytes = record {
  id = deterministic_event_id codec action_id attempt_id kind qualifier;
  action_id = action_id;
  attempt_id = attempt_id;
  kind = kind;
  occurred_at = occurred_at;
  recorded_at = recorded_at;
  bytes = bytes;
}

unfoldable pub new_event :
    Codec → String → String → EventKind → List ℕ → Time → Time → List ℕ → Result ExecutionEvent
new_event codec action_id attempt_id kind qualifier occurred_at recorded_at bytes =
    new_execution_event
      (event_spec codec action_id attempt_id kind qualifier occurred_at recorded_at bytes)

-- `data, err := …; if err != nil { return …, err }`
infixl 10 ◌>>=◌
unfoldable pub ◌>>=◌ : {A B : Type 0} → Result A → (A → Result B) → Result B
err failure >>= rest = err failure
ok value >>= rest = rest value

-- A chain that returns a value had one to go on from.
pub bound_value :
    {A B : Type 0} (first : Result A) (rest : A → Result B) {made : B}
    → (first >>= rest) ≡ ok made
    → (value : A) × (first ≡ ok value) × (rest value ≡ ok made)
unfolding ◌>>=◌
bound_value (err failure) rest made = cc
bound_value (ok value) rest made = (value, refl, made)

unfoldable pub action_requested_event : Codec → Action → String → Time → Result ExecutionEvent
action_requested_event codec action attempt_id recorded_at = do
  bytes ← codec.marshal (
      Payload.action_requested (record {
        schema = event_data_schema_v1;
        target = action.target;
        name = action.name;
        input = action.input;
        requested_at = action.requested_at;
      }))
  new_event codec action.id attempt_id EventKind.action_requested (codes attempt_id)
      action.requested_at recorded_at bytes

unfoldable pub attempt_started_event :
    Codec → Action → ExecutionAttempt → Time → Result ExecutionEvent
attempt_started_event codec action attempt recorded_at = do
  bytes ← codec.marshal (
      Payload.attempt_started (record {
        schema = event_data_schema_v1;
        started_at = attempt.started_at;
        recovery_of = attempt.recovery_of;
      }))
  new_event codec action.id attempt.id EventKind.attempt_started [] attempt.started_at recorded_at
      bytes

unfoldable pub recovery_authorized_event :
    Codec → Action → ExecutionAttempt → RecoveryAuthorization → Time → Result ExecutionEvent
recovery_authorized_event codec action attempt authorization recorded_at = do
  bytes ← codec.marshal (
      Payload.recovery_authorized (record {
        schema = event_data_schema_v1;
        previous_attempt_id = authorization.previous_attempt_id;
        authorized_by = authorization.authorized_by;
        authorized_at = authorization.authorized_at;
        reason = authorization.reason;
      }))
  new_event codec action.id attempt.id EventKind.recovery_authorized [] authorization.authorized_at
      recorded_at bytes

unfoldable pub admission_kind : AdmissionStatus → EventKind
admission_kind AdmissionStatus.rejected = EventKind.action_rejected
admission_kind s = EventKind.action_admitted

unfoldable pub admission_event :
    Codec
    → Action
    → ExecutionAttempt
    → AdmissionStatus
    → Option Error
    → Time
    → Result ExecutionEvent
admission_event codec action attempt status operation_err recorded_at = do
  bytes ← codec.marshal (
      Payload.admission (record {
        schema = event_data_schema_v1;
        status = admission_text status;
        error = operation_err;
      }))
  new_event codec action.id attempt.id (admission_kind status) [] recorded_at recorded_at bytes

unfoldable pub not_dispatched_event :
    Codec → Action → ExecutionAttempt → Option Error → Time → Result ExecutionEvent
not_dispatched_event codec action attempt cause recorded_at = do
  bytes ← codec.marshal (
      Payload.dispatch (record {
        schema = event_data_schema_v1;
        provider = "";
        status = dispatch_text DispatchStatus.not_dispatched;
        target_provider = "";
        target_endpoint = [];
        receipt = none;
        error = cause;
      }))
  new_event codec action.id attempt.id EventKind.not_dispatched [] recorded_at recorded_at bytes

unfoldable pub dispatch_kind : DispatchStatus → EventKind
dispatch_kind DispatchStatus.not_dispatched = EventKind.not_dispatched
dispatch_kind DispatchStatus.dispatched = EventKind.action_dispatched
dispatch_kind DispatchStatus.acknowledged = EventKind.provider_acknowledged
dispatch_kind s = EventKind.dispatch_unknown

-- `result.Status() == DispatchDispatched || result.Status() == DispatchAcknowledged`
unfoldable pub was_sent : DispatchStatus → Bool
was_sent s =
    same_dispatch s DispatchStatus.dispatched || same_dispatch s DispatchStatus.acknowledged

unfoldable pub receipt_payload : Option Receipt → Option ReceiptPayload
receipt_payload none = none
receipt_payload (some r) =
    some (record { provider = r.provider; received_at = r.received_at; evidence = r.evidence })

-- The facts of a dispatch: what became of it, and the unverified effect of one that was sent.
unfoldable pub effect_facts :
    Codec
    → Action
    → ExecutionAttempt
    → DispatchStatus
    → Time
    → ExecutionEvent
    → Result (List ExecutionEvent)
effect_facts codec action attempt status recorded_at dispatch_event =
    if was_sent status
    then new_event codec action.id attempt.id EventKind.effect_unverified (codes "dispatch")
        recorded_at recorded_at []
      >>= (λ effect_event. ok (dispatch_event ∷ effect_event ∷ []))
    else ok (dispatch_event ∷ [])

unfoldable pub dispatch_events :
    Codec
    → Action
    → ExecutionAttempt
    → ResolvedTarget
    → DispatchResult
    → Option Error
    → Time
    → Result (List ExecutionEvent)
dispatch_events codec action attempt target result operation_err recorded_at = do
  bytes ← codec.marshal (
      Payload.dispatch (record {
        schema = event_data_schema_v1;
        provider = result.provider;
        status = dispatch_text result.status;
        target_provider = target.provider;
        target_endpoint = target.endpoint;
        receipt = receipt_payload result.receipt;
        error = operation_err;
      }))
  dispatch_event ←
      new_event codec action.id attempt.id (dispatch_kind result.status) [] recorded_at recorded_at
        bytes
  effect_facts codec action attempt result.status recorded_at dispatch_event
