-- ===== src/Execution/Execute.antt =====
-- execution/execute.go: one attempt, from its claim to the record of its dispatch. Each early
-- return of `execute` ends a function of its own here; the functions call one another in the
-- order of the code. The world holds what the calls change and the calls made so far.
use atoha.Prelude.{
  ℕ, ◌+◌, Bool, true, false, ◌||◌, Option, none, some, List, [], ◌∷◌, ◌++◌, if◌then◌else◌,
}
use atoha.Instant.{Time, utc}
use atoha.Errors.{
  Result, ok, err, Error, sentinel, join, stage_error, validate, record_stage, admit, resolve,
  dispatch, invalid_input, attempt_already_started,
}
use atoha.Context.{Context, detached}
use atoha.Core.Action.{ExecutionAttempt, new_execution_attempt}
use atoha.Core.Outcome.{AdmissionStatus, DispatchStatus, EffectStatus, same_admission}
use atoha.Core.Event.{ExecutionEvent}
use atoha.Core.Provider.{DispatchResult}
use atoha.Execution.Authorization.{RecoveryAuthorization}
use atoha.Execution.Ports.{Journal, Ports}
use atoha.Execution.Events.{◌>>=◌, admission_event, not_dispatched_event, dispatch_events}
use atoha.Execution.Attempt.{
  ExecuteInput, ExecuteResult, zero_result, PortCall, outcome_of, normalize_dispatch,
  checked_admission, admission_cause, initial_events, attempt_spec, effect_after, begin_call,
  admit_call, resolve_call, dispatch_call, append_call,
}

pub record World (J : Journal) : Type 0 where
  pub state : J.State
  pub ticks : ℕ
  pub calls : List PortCall

module _ (J : Journal) (u : Ports) where
  -- What a function of this file returns: the result, the error and the world after.
  abbrev pub Done : Type 0
  Done = ExecuteResult × Option Error × World J

  -- u.now().UTC()
  unfoldable pub clock : World J → Time
  clock w = utc (u.now w.ticks)

  abbrev pub tick : World J → World J
  tick w = record w { ticks = w.ticks + 1 }

  abbrev pub noted : PortCall → World J → World J
  noted c w = record w { calls = w.calls ++ c ∷ [] }

  -- The context's deadline lies ahead and its parent's cancellation does not reach it.
  unfoldable pub append_after_io : Context → List ExecutionEvent → World J → Option Error × World J
  unfolding detached
  append_after_io ctx events w =
      let (e, s) = J.append_all (detached ctx) events w.state in
      (e, record w { state = s; calls = w.calls ++ append_call events e ∷ [] })

  -- `if eventErr == nil { eventErr = u.appendAfterIO(ctx, …) }`
  unfoldable pub append_built :
      Context → Result (List ExecutionEvent) → World J → Option Error × World J
  append_built ctx (err e) w = (some e, w)
  append_built ctx (ok events) w = append_after_io ctx events w

  -- The returns that record that nothing was dispatched.
  unfoldable pub finish_not_dispatched :
      Context → ExecuteResult → Option Error → Option Error → World J → Done
  finish_not_dispatched ctx result cause staged_cause w =
      let event = not_dispatched_event u.codec result.action result.attempt cause (clock w) in
      let (event_err, w') = append_built ctx (event >>= (λ e. ok (e ∷ []))) (tick w) in
      (
        record result {
          outcome = outcome_of result.admission DispatchStatus.not_dispatched EffectStatus.unknown;
        },
        join (staged_cause ∷ stage_error record_stage event_err ∷ []),
        w',
      )

  -- What follows Dispatch, from its result, normalized, and its errors, joined.
  unfoldable pub on_dispatched :
      Context → ExecuteResult → DispatchResult → Option Error → World J → Done
  on_dispatched ctx result dispatched dispatch_err w =
      let facts =
        dispatch_events u.codec result.action result.attempt result.target dispatched dispatch_err
          (clock w) in
      let (event_err, w') = append_built ctx facts (tick w) in
      (
        record result {
          dispatch = dispatched;
          outcome = outcome_of result.admission dispatched.status (effect_after dispatched.status);
        },
        join (stage_error dispatch dispatch_err ∷ stage_error record_stage event_err ∷ []),
        w',
      )

  unfoldable pub dispatch_stage : Context → ExecuteResult → World J → Done
  dispatch_stage ctx result w =
      let (returned, io_err) = u.dispatch ctx result.attempt result.action result.target in
      let (dispatched, validation_err) =
        normalize_dispatch returned result.target.provider result.attempt.id in
      on_dispatched ctx result dispatched (join (io_err ∷ validation_err ∷ []))
        (noted (dispatch_call result.attempt result.target) w)

  -- `if resolveErr != nil`
  unfoldable pub on_resolved : Context → ExecuteResult → Option Error → World J → Done
  on_resolved ctx result (some e) w =
      finish_not_dispatched ctx result (some e) (stage_error resolve (some e)) w
  on_resolved ctx result none w = dispatch_stage ctx result w

  unfoldable pub resolve_stage : Context → ExecuteResult → World J → Done
  resolve_stage ctx result w =
      let (target, resolve_err) = u.resolve ctx result.action in
      on_resolved ctx (record result { target = target }) resolve_err
        (noted (resolve_call resolve_err) w)

  -- `if admission != AdmissionAdmitted || admitErr != nil`, from the admission, checked, and the
  -- error.
  unfoldable pub after_admission :
      Context → ExecuteResult → AdmissionStatus → Option Error → World J → Done
  after_admission ctx result AdmissionStatus.admitted none w = resolve_stage ctx result w
  after_admission ctx result s e w =
      finish_not_dispatched ctx result (admission_cause s e)
        (stage_error admit (admission_cause s e)) w

  -- `if eventErr = u.appendAfterIO(ctx, event); eventErr != nil`
  unfoldable pub on_admission_recorded :
      Context → ExecuteResult → AdmissionStatus → Option Error → Option Error → World J → Done
  on_admission_recorded ctx result admission admit_err (some e) w =
      (result, join (stage_error admit admit_err ∷ stage_error record_stage (some e) ∷ []), w)
  on_admission_recorded ctx result admission admit_err none w =
      after_admission ctx result admission admit_err w

  -- `if eventErr != nil`, for the admission's event
  unfoldable pub on_admission_event :
      Context
      → ExecuteResult
      → AdmissionStatus
      → Option Error
      → Result ExecutionEvent
      → World J
      → Done
  on_admission_event ctx result admission admit_err (err e) w =
      (result, stage_error record_stage (some e), w)
  on_admission_event ctx result admission admit_err (ok event) w =
      let (event_err, w') = append_after_io ctx (event ∷ []) w in
      on_admission_recorded ctx result admission admit_err event_err w'

  -- `if admission == AdmissionAdmitted || admission == AdmissionRejected`, from the admission and
  -- the error, checked
  unfoldable pub on_admission :
      Context → ExecuteResult → AdmissionStatus → Option Error → World J → Done
  on_admission ctx result admission admit_err w =
      if same_admission admission AdmissionStatus.admitted
        || same_admission admission AdmissionStatus.rejected
      then on_admission_event ctx result admission admit_err
          (admission_event u.codec result.action result.attempt admission admit_err (clock w))
          (tick w)
      else after_admission ctx result admission admit_err w

  unfoldable pub admit_stage : Context → ExecuteResult → World J → Done
  admit_stage ctx result w =
      let (returned, returned_err) = u.admit ctx result.action in
      let (admission, admit_err) = checked_admission (returned, returned_err) in
      on_admission ctx (record result { admission = admission }) admission admit_err
        (noted (admit_call returned returned_err) w)

  -- `if err != nil` and `if !claimed`, after BeginAttempt
  unfoldable pub on_begun : Context → ExecuteResult → Bool → Option Error → World J → Done
  on_begun ctx result claimed (some e) w = (result, stage_error record_stage (some e), w)
  on_begun ctx result true none w = admit_stage ctx result w
  on_begun ctx result false none w =
      (result, stage_error validate (some (sentinel attempt_already_started)), w)

  unfoldable pub claim_stage : Context → ExecuteResult → List ExecutionEvent → World J → Done
  claim_stage ctx result initial w =
      let (claimed, begin_err, s) =
        J.begin_attempt ctx result.action result.attempt initial w.state in
      on_begun ctx result claimed begin_err
        (record w { state = s; calls = w.calls ++ begin_call initial claimed begin_err ∷ [] })

  -- The returns where an initial event cannot be built.
  unfoldable pub on_initial :
      Context → ExecuteResult → Result (List ExecutionEvent) → World J → Done
  on_initial ctx result (err e) w = (result, stage_error record_stage (some e), w)
  on_initial ctx result (ok initial) w = claim_stage ctx result initial w

  -- The return where the attempt is not valid.
  unfoldable pub on_attempt :
      Context
      → ExecuteInput
      → Option RecoveryAuthorization
      → Time
      → Result ExecutionAttempt
      → World J
      → Done
  on_attempt ctx input authorization started_at (err e) w =
      (zero_result, stage_error validate (join (some (sentinel invalid_input) ∷ some e ∷ [])), w)
  on_attempt ctx input authorization started_at (ok attempt) w =
      on_initial ctx (record zero_result { action = input.action; attempt = attempt })
        (initial_events u input.action attempt authorization started_at) w

  -- execute: with an authorization for a recovery, with none for an initial attempt.
  unfoldable pub execute : Context → ExecuteInput → Option RecoveryAuthorization → World J → Done
  execute ctx input authorization w =
      on_attempt ctx input authorization (clock w)
        (new_execution_attempt (attempt_spec input authorization (clock w))) (tick w)
