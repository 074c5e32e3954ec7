-- ===== src/Execution/Authorization.antt =====
-- RecoveryAuthorization of execution/recovery.go.
use atoha.Prelude.{String, Bool, ◌||◌, not, [], str_eq, if◌then◌else◌}
use atoha.Prelude.Text.{trim_space}
use atoha.Instant.{Time, is_zero}
use atoha.Errors.{Result, ok, err, Error, sentinel, message, described, recovery_not_authorized}

pub record RecoveryAuthorizationSpec : Type 0 where
  pub action_id : String
  pub previous_attempt_id : String
  pub authorized_by : String
  pub authorized_at : Time
  pub reason : String

pub record RecoveryAuthorization : Type 0 where
  pub action_id : String
  pub previous_attempt_id : String
  pub authorized_by : String
  pub authorized_at : Time
  pub reason : String

-- strings.TrimSpace(s) == ""
unfoldable pub is_blank : String → Bool
unfolding trim_space
is_blank s = str_eq (trim_space s) ""

-- s != strings.TrimSpace(s)
unfoldable pub has_margin : String → Bool
unfolding trim_space
has_margin s = not (str_eq s (trim_space s))

abbrev authorization_error : Error → Error
authorization_error e = described (sentinel recovery_not_authorized) e

unfoldable pub new_recovery_authorization : RecoveryAuthorizationSpec → Result RecoveryAuthorization
unfolding is_blank has_margin is_zero
new_recovery_authorization spec =
    if is_blank spec.action_id
      || is_blank spec.previous_attempt_id
      || is_blank spec.authorized_by
      || is_blank spec.reason
      || is_zero spec.authorized_at
    then err (authorization_error (message "all recovery authorization fields are required" []))
    else if has_margin spec.action_id
        || has_margin spec.previous_attempt_id
        || has_margin spec.authorized_by
        || has_margin spec.reason
    then err (authorization_error (message "fields must not have surrounding whitespace" []))
    else ok (record {
      action_id = spec.action_id;
      previous_attempt_id = spec.previous_attempt_id;
      authorized_by = spec.authorized_by;
      authorized_at = spec.authorized_at;
      reason = spec.reason;
    })
