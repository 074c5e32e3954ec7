-- ===== src/Core/Action.antt =====
-- action.go: Action and ExecutionAttempt, built by their validating constructors.
use atoha.Prelude.{ℕ, String, Bool, Option, none, some, List, [], not, str_eq, if◌then◌else◌}
use atoha.Instant.{Time, zero_time, is_zero}
use atoha.Errors.{
  Result, ok, err, Error, sentinel, message, described, invalid_action, invalid_execution_attempt,
}
use atoha.Core.Identity.{validate_text, validate_identity, clone_bytes}

pub record ActionSpec : Type 0 where
  pub id : String
  pub target : String
  pub name : String
  pub input : List ℕ
  pub requested_at : Time

pub record Action : Type 0 where
  pub id : String
  pub target : String
  pub name : String
  pub input : List ℕ
  pub requested_at : Time

-- fmt.Errorf("%w: %v", ErrInvalidAction, e)
abbrev action_error : Error → Error
action_error e = described (sentinel invalid_action) e

-- The checks of one `if err := …; err != nil` after another.
abbrev pub check : Option Error → (Error → Error) → {A : Type 0} → Result A → Result A
check none wrap rest = rest
check (some e) wrap rest = err (wrap e)

unfoldable pub new_action : ActionSpec → Result Action
unfolding validate_identity validate_text clone_bytes is_zero
new_action spec = check (validate_identity "action ID" spec.id) action_error (
    check (validate_text "target" spec.target) action_error (
      check (validate_text "name" spec.name) action_error (
        if is_zero spec.requested_at
        then err (action_error (message "requested time is required" []))
        else ok (record {
          id = spec.id;
          target = spec.target;
          name = spec.name;
          input = clone_bytes spec.input;
          requested_at = spec.requested_at;
        }))))

pub record ExecutionAttemptSpec : Type 0 where
  pub id : String
  pub action_id : String
  pub started_at : Time
  pub recovery_of : String

pub record ExecutionAttempt : Type 0 where
  pub id : String
  pub action_id : String
  pub started_at : Time
  pub recovery_of : String

abbrev attempt_error : Error → Error
attempt_error e = described (sentinel invalid_execution_attempt) e

-- RecoveryOf is optional: only a value that is not empty is checked.
unfoldable pub check_recovery : ExecutionAttemptSpec → Option Error
unfolding validate_identity
check_recovery spec =
    if str_eq spec.recovery_of ""
    then none
    else elim (validate_identity "recovery attempt ID" spec.recovery_of) [
      | some e ↦ some e
      | none ↦
          if str_eq spec.recovery_of spec.id
          then some (message "an attempt cannot recover itself" [])
          else none
    ]

unfoldable pub new_execution_attempt : ExecutionAttemptSpec → Result ExecutionAttempt
unfolding validate_identity check_recovery is_zero
new_execution_attempt spec = check (validate_identity "attempt ID" spec.id) attempt_error (
    check (validate_identity "action ID" spec.action_id) attempt_error (
      if is_zero spec.started_at
      then err (attempt_error (message "start time is required" []))
      else check (check_recovery spec) attempt_error (
          ok (record {
            id = spec.id;
            action_id = spec.action_id;
            started_at = spec.started_at;
            recovery_of = spec.recovery_of;
          }))))

-- ExecutionAttempt.RecoveryOf: the identity, and whether there is one.
unfoldable pub recovery_of : ExecutionAttempt → String × Bool
recovery_of a = (a.recovery_of, not (str_eq a.recovery_of ""))

-- Action{} and ExecutionAttempt{}
abbrev pub zero_action : Action
zero_action = record { id = ""; target = ""; name = ""; input = []; requested_at = zero_time }

abbrev pub zero_attempt : ExecutionAttempt
zero_attempt = record { id = ""; action_id = ""; started_at = zero_time; recovery_of = "" }
