-- ===== src/Eventlog/Rows.antt =====
-- eventlog/sqlite/log.go: the rows of the three tables, how facts and actions are written to them,
-- and how they are read back.
use atoha.Prelude.{
  ℕ, String, Bool, true, false, ◌&&◌, Option, none, some, List, [], ◌∷◌, str_eq, if◌then◌else◌,
}
use atoha.Prelude.Lists.{bytes_eq}
use atoha.Instant.{Time, utc, time_eq}
use atoha.Errors.{
  Result, ok, err, Error, sentinel, message, described, text, action_identity_conflict,
  corrupt_data,
}
use atoha.Core.Action.{Action, ExecutionAttempt, new_action, recovery_of}
use atoha.Core.Event.{EventKind, kind_text, ExecutionEvent, new_execution_event}

-- What the log takes from package time: RFC3339Nano, written and parsed.
pub record TimeText : Type 0 where
  pub format : Time → String
  pub parse : String → Result Time

-- The table `actions`
pub record ActionRow : Type 0 where
  pub action_id : String
  pub target : String
  pub name : String
  pub input : List ℕ
  pub requested_at : String

-- The table `attempts`; its column `sequence` is the place in the table. NULL is `none`.
pub record AttemptRow : Type 0 where
  pub attempt_id : String
  pub action_id : String
  pub started_at : String
  pub recovery_of : Option String

-- The table `events`
pub record EventRow : Type 0 where
  pub event_id : String
  pub action_id : String
  pub attempt_id : String
  pub kind : String
  pub occurred_at : String
  pub recorded_at : String
  pub bytes : List ℕ

-- EventKind(kind)
unfoldable pub kind_of : String → EventKind
kind_of s =
    if str_eq s "action-requested"
    then EventKind.action_requested
    else if str_eq s "attempt-started"
    then EventKind.attempt_started
    else if str_eq s "recovery-authorized"
    then EventKind.recovery_authorized
    else if str_eq s "action-admitted"
    then EventKind.action_admitted
    else if str_eq s "action-rejected"
    then EventKind.action_rejected
    else if str_eq s "dispatch-unknown"
    then EventKind.dispatch_unknown
    else if str_eq s "not-dispatched"
    then EventKind.not_dispatched
    else if str_eq s "action-dispatched"
    then EventKind.action_dispatched
    else if str_eq s "provider-acknowledged"
    then EventKind.provider_acknowledged
    else if str_eq s "observation-recorded"
    then EventKind.observation_recorded
    else if str_eq s "effect-unknown"
    then EventKind.effect_unknown
    else if str_eq s "effect-unverified"
    then EventKind.effect_unverified
    else if str_eq s "effect-observed-satisfied"
    then EventKind.effect_observed_satisfied
    else if str_eq s "effect-observed-unsatisfied"
    then EventKind.effect_observed_unsatisfied
    else if str_eq s "verification-verified"
    then EventKind.verification_verified
    else if str_eq s "verification-unsatisfied"
    then EventKind.verification_unsatisfied
    else if str_eq s "verification-inconclusive"
    then EventKind.verification_inconclusive
    else EventKind.other s

-- fmt.Errorf("%w: …: %v", ErrCorruptData, …, err)
abbrev pub corrupt : String → Error → Error
corrupt field e = described (sentinel corrupt_data) (described (message field []) e)

-- `var recovery any`, set if there is a recovered attempt
unfoldable pub recovery_column : String × Bool → Option String
recovery_column (id, false) = none
recovery_column (id, true) = some id

module _ (T : TimeText) where
  unfoldable pub format_time : Time → String
  format_time value = T.format (utc value)

  -- The values of the three INSERT statements.
  unfoldable pub action_row : Action → ActionRow
  unfolding format_time
  action_row a = record {
    action_id = a.id;
    target = a.target;
    name = a.name;
    input = a.input;
    requested_at = format_time a.requested_at;
  }

  unfoldable pub attempt_row : ExecutionAttempt → AttemptRow
  unfolding format_time recovery_of recovery_column
  attempt_row t = record {
    attempt_id = t.id;
    action_id = t.action_id;
    started_at = format_time t.started_at;
    recovery_of = recovery_column (recovery_of t);
  }

  unfoldable pub event_row : ExecutionEvent → EventRow
  unfolding format_time
  event_row e = record {
    event_id = e.id;
    action_id = e.action_id;
    attempt_id = e.attempt_id;
    kind = kind_text e.kind;
    occurred_at = format_time e.occurred_at;
    recorded_at = format_time e.recorded_at;
    bytes = e.bytes;
  }

  -- NewExecutionEvent on what was read
  unfoldable pub checked_event : Result ExecutionEvent → Result ExecutionEvent
  checked_event (err e) = err (described (sentinel corrupt_data) e)
  checked_event (ok event) = ok event

  unfoldable pub parsed_event : EventRow → Result Time → Result Time → Result ExecutionEvent
  unfolding kind_of checked_event
  parsed_event row (err e) recorded = err (corrupt "occurred_at" e)
  parsed_event row (ok occurred_at) (err e) = err (corrupt "recorded_at" e)
  parsed_event row (ok occurred_at) (ok recorded_at) = checked_event (
      new_execution_event (record {
        id = row.event_id;
        action_id = row.action_id;
        attempt_id = row.attempt_id;
        kind = kind_of row.kind;
        occurred_at = occurred_at;
        recorded_at = recorded_at;
        bytes = row.bytes;
      }))

  -- readEvent, on what Scan returns
  unfoldable pub read_event : Result EventRow → Result ExecutionEvent
  unfolding parsed_event
  read_event (err e) = err e
  read_event (ok row) = parsed_event row (T.parse row.occurred_at) (T.parse row.recorded_at)

  -- NewAction on the row that ActionByID read
  unfoldable pub checked_action : Result Action → Option Action × Option Error
  checked_action (err e) = (none, some (described (sentinel corrupt_data) e))
  checked_action (ok action) = (some action, none)

  unfoldable pub parsed_action : ActionRow → Result Time → Option Action × Option Error
  unfolding checked_action
  parsed_action row (err e) = (none, some (corrupt "requested_at" e))
  parsed_action row (ok requested_at) = checked_action (
      new_action (record {
        id = row.action_id;
        target = row.target;
        name = row.name;
        input = row.input;
        requested_at = requested_at;
      }))

  -- The comparison of BeginAttempt with the stored action, once its time is parsed.
  unfoldable pub compare_intent : Action → ActionRow → Result Time → Option Error
  unfolding time_eq
  compare_intent action row (err e) = some (corrupt "requested_at" e)
  compare_intent action row (ok stored_at) =
      if str_eq row.action_id action.id
        && str_eq row.target action.target
        && str_eq row.name action.name
        && bytes_eq row.input action.input
        && time_eq stored_at action.requested_at
      then none
      else some (described (sentinel action_identity_conflict) (message "%s" (text action.id ∷ [])))
