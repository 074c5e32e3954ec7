-- ===== src/Execution/Recovery.antt =====
-- RecoverAttempt of execution/recovery.go.
use atoha.Prelude.{String, ◌||◌, not, Option, none, some, List, [], ◌∷◌, str_eq, if◌then◌else◌}
use atoha.Prelude.Lists.{all}
use atoha.Errors.{
  Error, Sentinel, sentinel, join, stage_error, recover, attempt_not_found, action_mismatch,
  recovery_not_authorized, action_identity_conflict,
}
use atoha.Context.{Context}
use atoha.Core.Action.{Action}
use atoha.Core.Event.{ExecutionEvent}
use atoha.Eventlog.Fact.{same_action}
use atoha.Execution.Authorization.{RecoveryAuthorization}
use atoha.Execution.Ports.{Journal, Ports}
use atoha.Execution.Execute.{World, Done, execute}
use atoha.Execution.Attempt.{zero_result}

pub record RecoverInput : Type 0 where
  pub action : Action
  pub attempt_id : String
  pub authorization : RecoveryAuthorization

-- errors.Join(e, ErrRecoveryNotAuthorized)
abbrev not_authorized : Sentinel → Option Error
not_authorized e = join (some (sentinel e) ∷ some (sentinel recovery_not_authorized) ∷ [])

-- The tests on the facts of the previous attempt.
unfoldable pub previous_error : Action → List ExecutionEvent → Option Error
previous_error action [] = not_authorized attempt_not_found
previous_error action (e ∷ es) =
    if all (λ (f : ExecutionEvent). str_eq f.action_id action.id) (e ∷ es)
    then none
    else not_authorized action_mismatch

-- `!found || !sameAction(storedAction, input.Action)`
unfoldable pub stored_error : Action → Option Action → Option Error
stored_error action none = not_authorized action_identity_conflict
stored_error action (some stored) =
    if same_action stored action then none else not_authorized action_identity_conflict

-- `if err != nil` after a read, and then the test on what was read.
unfoldable pub first_error : Option Error → Option Error → Option Error
first_error (some e) later = some e
first_error none later = later

module _ (J : Journal) (u : Ports) where
  -- The reasons for which a recovery is refused, in the order of the code.
  unfoldable pub recovery_error : Context → RecoverInput → J.State → Option Error
  unfolding previous_error stored_error first_error
  recovery_error ctx input s =
      let (previous, previous_err) =
        J.events_by_attempt ctx input.authorization.previous_attempt_id s in
      let (stored, stored_err) = J.action_by_id ctx input.action.id s in
      if not (str_eq input.authorization.action_id input.action.id)
        || str_eq input.authorization.previous_attempt_id ""
      then some (sentinel recovery_not_authorized)
      else first_error previous_err (
          first_error (previous_error input.action previous)
            (first_error stored_err (stored_error input.action stored)))

  -- Recover: a refusal returns the zero result at the stage recover.
  unfoldable pub on_checked : Context → RecoverInput → Option Error → World J → Done J u
  on_checked ctx input (some e) w = (zero_result, stage_error recover (some e), w)
  on_checked ctx input none w =
      execute J u ctx (record { action = input.action; attempt_id = input.attempt_id })
        (some input.authorization) w

  unfoldable pub recover_attempt : Context → RecoverInput → World J → Done J u
  recover_attempt ctx input w = on_checked ctx input (recovery_error ctx input w.state) w
