-- ===== src/Eventlog/Sqlite/Appending.antt =====
-- AppendAll, Append and appendEvents of eventlog/sqlite/log.go.
use atoha.Prelude.{zero, suc, Option, none, some, List, [], ◌∷◌, if◌then◌else◌}
use atoha.Errors.{Result, ok, err, Error, sentinel, message, described, text, sqlite_event_conflict}
use atoha.Context.{Context}
use atoha.Core.Event.{ExecutionEvent}
use atoha.Eventlog.Fact.{equal}
use atoha.Eventlog.Rows.{TimeText, event_row, read_event}
use atoha.Eventlog.Database.{Engine, insert_event}
use atoha.Eventlog.Sqlite.Opening.{nil_log, Done}

-- `!equal(existing, event)`, after readEvent
unfoldable pub stored_conflict : ExecutionEvent → Result ExecutionEvent → Option Error
stored_conflict event (err e) = some e
stored_conflict event (ok existing) =
    if equal existing event
    then none
    else some (described (sentinel sqlite_event_conflict) (message "%s" (text event.id ∷ [])))

module _ (E : Engine) (T : TimeText) where
  unfoldable pub append_events : Context → List ExecutionEvent → E.State → Done E
  unfolding stored_conflict
  append_events ctx [] s = (none, s)
  append_events ctx (e ∷ es) s =
      let (r, s') = E.exec ctx (insert_event (event_row T e)) s in
      let rest = append_events ctx es s' in
      elim r [
        | err f ↦ (some f, s')
        | ok (suc n) ↦ rest
        | ok zero ↦ elim (stored_conflict e (read_event T (E.select_event ctx e.id s'))) [
          | some f ↦ (some f, s')
          | none ↦ rest
        ]
      ]

  -- AppendAll. What a deferred Rollback returns is dropped.

  unfoldable pub committed : Done E → Done E
  committed (none, s) = (none, s)
  committed (some e, s) = (some e, (E.rollback s).1)

  unfoldable pub finish_append : Done E → Done E
  unfolding committed
  finish_append (some e, s) = (some e, (E.rollback s).1)
  finish_append (none, s) = committed (E.commit s)

  unfoldable pub append_in_tx : Context → List ExecutionEvent → Done E → Done E
  unfolding append_events finish_append
  append_in_tx ctx events (some e, s) = (some e, s)
  append_in_tx ctx events (none, s) = finish_append (append_events ctx events s)

  unfoldable pub append_open : Context → List ExecutionEvent → E.State → Done E
  unfolding append_in_tx
  append_open ctx events s = append_in_tx ctx events (E.begin_tx ctx s)

  unfoldable pub append_all :
      Context → List ExecutionEvent → Option E.State → Option Error × Option E.State
  append_all ctx events none = (nil_log, none)
  append_all ctx events (some s) = let (e, s') = append_open ctx events s in (e, some s')

  unfoldable pub append : Context → ExecutionEvent → Option E.State → Option Error × Option E.State
  unfolding append_all
  append ctx event l = append_all ctx (event ∷ []) l
