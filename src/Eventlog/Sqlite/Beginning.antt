-- ===== src/Eventlog/Sqlite/Beginning.antt =====
-- BeginAttempt of eventlog/sqlite/log.go.
use atoha.Prelude.{
  ℕ, zero, suc, Bool, true, false, not, Option, none, some, List, [], str_eq, if◌then◌else◌,
}
use atoha.Prelude.Lists.{all}
use atoha.Errors.{Result, ok, err, Error, sentinel, message, described, action_identity_conflict}
use atoha.Context.{Context}
use atoha.Core.Action.{Action, ExecutionAttempt}
use atoha.Core.Event.{ExecutionEvent}
use atoha.Eventlog.Memory.{matches_attempt}
use atoha.Eventlog.Rows.{TimeText, ActionRow, action_row, attempt_row, compare_intent}
use atoha.Eventlog.Database.{Engine, insert_action, insert_attempt}
use atoha.Eventlog.Sqlite.Opening.{config_error, nil_log, Done}
use atoha.Eventlog.Sqlite.Appending.{append_events}

-- The checks of BeginAttempt before the transaction.
unfoldable pub begin_error : Action → ExecutionAttempt → List ExecutionEvent → Option Error
unfolding matches_attempt
begin_error action attempt events =
    if not (str_eq attempt.action_id action.id)
    then some
        (described (sentinel action_identity_conflict) (message "attempt does not match action" []))
    else if not (all (matches_attempt attempt) events)
    then some (config_error "initial event does not match claimed attempt")
    else none

module _ (E : Engine) (T : TimeText) where
  -- BeginAttempt: the claimed flag, the error and the state after.

  abbrev pub Begun : Type 0
  Begun = Bool × Option Error × E.State

  unfoldable pub fail_tx : Error → E.State → Begun
  fail_tx e s = (false, some e, (E.rollback s).1)

  unfoldable pub on_commit : Done E → Begun
  unfolding fail_tx
  on_commit (some e, s) = fail_tx e s
  on_commit (none, s) = (true, none, s)

  unfoldable pub on_facts : Done E → Begun
  unfolding fail_tx on_commit
  on_facts (some e, s) = fail_tx e s
  on_facts (none, s) = on_commit (E.commit s)

  -- `if err := tx.Rollback(); err != nil`
  unfoldable pub on_duplicate : Done E → Begun
  unfolding fail_tx
  on_duplicate (some e, s) = fail_tx e s
  on_duplicate (none, s) = (false, none, s)

  unfoldable pub on_attempt : Context → List ExecutionEvent → Result ℕ × E.State → Begun
  unfolding fail_tx on_duplicate append_events on_facts
  on_attempt ctx events (err e, s) = fail_tx e s
  on_attempt ctx events (ok zero, s) = on_duplicate (E.rollback s)
  on_attempt ctx events (ok (suc n), s) = on_facts (append_events E T ctx events s)

  unfoldable pub claim_attempt : Context → ExecutionAttempt → List ExecutionEvent → E.State → Begun
  unfolding on_attempt
  claim_attempt ctx attempt events s =
      on_attempt ctx events (E.exec ctx (insert_attempt (attempt_row T attempt)) s)

  unfoldable pub on_intent :
      Context → ExecutionAttempt → List ExecutionEvent → Option Error → E.State → Begun
  unfolding claim_attempt fail_tx
  on_intent ctx attempt events (some e) s = fail_tx e s
  on_intent ctx attempt events none s = claim_attempt ctx attempt events s

  -- The stored action against the one of the call.
  unfoldable pub stored_intent : Action → Result ActionRow → Option Error
  unfolding compare_intent
  stored_intent action (err e) = some e
  stored_intent action (ok row) = compare_intent T action row (T.parse row.requested_at)

  unfoldable pub on_action :
      Context → Action → ExecutionAttempt → List ExecutionEvent → Result ℕ × E.State → Begun
  unfolding fail_tx on_intent stored_intent claim_attempt
  on_action ctx action attempt events (err e, s) = fail_tx e s
  on_action ctx action attempt events (ok zero, s) =
      on_intent ctx attempt events (stored_intent action (E.select_action ctx action.id s)) s
  on_action ctx action attempt events (ok (suc n), s) = claim_attempt ctx attempt events s

  unfoldable pub begin_in_tx :
      Context → Action → ExecutionAttempt → List ExecutionEvent → Done E → Begun
  unfolding on_action
  begin_in_tx ctx action attempt events (some e, s) = (false, some e, s)
  begin_in_tx ctx action attempt events (none, s) =
      on_action ctx action attempt events (E.exec ctx (insert_action (action_row T action)) s)

  unfoldable pub on_checked :
      Context → Action → ExecutionAttempt → List ExecutionEvent → Option Error → E.State → Begun
  unfolding begin_in_tx
  on_checked ctx action attempt events (some e) s = (false, some e, s)
  on_checked ctx action attempt events none s =
      begin_in_tx ctx action attempt events (E.begin_tx ctx s)

  unfoldable pub begin_open :
      Context → Action → ExecutionAttempt → List ExecutionEvent → E.State → Begun
  unfolding on_checked begin_error
  begin_open ctx action attempt events s =
      on_checked ctx action attempt events (begin_error action attempt events) s

  unfoldable pub begin_attempt :
      Context
      → Action
      → ExecutionAttempt
      → List ExecutionEvent
      → Option E.State
      → Bool × Option Error × Option E.State
  unfolding begin_open
  begin_attempt ctx action attempt events none = (false, nil_log, none)
  begin_attempt ctx action attempt events (some s) =
      let (claimed, e, s') = begin_open ctx action attempt events s in (claimed, e, some s')
