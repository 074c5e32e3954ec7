-- ===== src/Eventlog/Sqlite/Reading.antt =====
-- EventsByAttempt, ActionByID and AttemptIDs of eventlog/sqlite/log.go.
use atoha.Prelude.{String, Option, none, some, List, [], ◌∷◌, ◌++◌, if◌then◌else◌}
use atoha.Errors.{Result, ok, err, Error, error_is, no_rows}
use atoha.Context.{Context}
use atoha.Core.Action.{Action}
use atoha.Core.Event.{ExecutionEvent}
use atoha.Eventlog.Rows.{TimeText, ActionRow, EventRow, read_event, parsed_action}
use atoha.Eventlog.Database.{Engine, Rows}
use atoha.Eventlog.Sqlite.Opening.{nil_log}

module _ (E : Engine) (T : TimeText) where
  unfoldable pub read_rows :
      List (Result EventRow) → List ExecutionEvent → Result (List ExecutionEvent)
  read_rows [] events = ok events
  read_rows (r ∷ rs) events = elim (read_event T r) [
    | err e ↦ err e
    | ok event ↦ read_rows rs (events ++ event ∷ [])
  ]

  unfoldable pub events_read :
      Option Error → Result (List ExecutionEvent) → List ExecutionEvent × Option Error
  events_read failure (err e) = ([], some e)
  events_read failure (ok events) = (events, failure)

  unfoldable pub on_rows : Result (Rows EventRow) → List ExecutionEvent × Option Error
  unfolding read_rows events_read
  on_rows (err e) = ([], some e)
  on_rows (ok rows) = events_read rows.failure (read_rows rows.scanned [])

  unfoldable pub events_by_attempt :
      Context → String → Option E.State → List ExecutionEvent × Option Error
  unfolding on_rows
  events_by_attempt ctx attempt_id none = ([], nil_log)
  events_by_attempt ctx attempt_id (some s) = on_rows (E.query_events ctx attempt_id s)

  unfoldable pub on_action_row : Result ActionRow → Option Action × Option Error
  unfolding parsed_action
  on_action_row (err e) = if error_is no_rows (some e) then (none, none) else (none, some e)
  on_action_row (ok row) = parsed_action T row (T.parse row.requested_at)

  unfoldable pub action_by_id : Context → String → Option E.State → Option Action × Option Error
  unfolding on_action_row
  action_by_id ctx action_id none = (none, nil_log)
  action_by_id ctx action_id (some s) = on_action_row (E.select_action ctx action_id s)

  unfoldable pub read_ids : List (Result String) → List String → Result (List String)
  read_ids [] ids = ok ids
  read_ids (err e ∷ rs) ids = err e
  read_ids (ok id ∷ rs) ids = read_ids rs (ids ++ id ∷ [])

  unfoldable pub ids_read : Option Error → Result (List String) → List String × Option Error
  ids_read failure (err e) = ([], some e)
  ids_read failure (ok ids) = (ids, failure)

  unfoldable pub on_id_rows : Result (Rows String) → List String × Option Error
  unfolding read_ids ids_read
  on_id_rows (err e) = ([], some e)
  on_id_rows (ok rows) = ids_read rows.failure (read_ids rows.scanned [])

  unfoldable pub attempt_ids : Context → Option E.State → List String × Option Error
  unfolding on_id_rows
  attempt_ids ctx none = ([], nil_log)
  attempt_ids ctx (some s) = on_id_rows (E.query_attempt_ids ctx s)
