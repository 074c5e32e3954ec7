-- ===== src/Eventlog/Database.antt =====
-- What eventlog/sqlite/log.go takes from database/sql and its driver, as a parameter, and what it
-- relies on there: the meaning of its statements on the three tables of `initialize`.
use atoha.Prelude.{
  ℕ, String, ◌≡◌, Bool, true, false, ◌||◌, Option, none, some, List, [], ◌∷◌, ◌++◌, str_eq,
  if◌then◌else◌,
}
use atoha.Prelude.Lists.{keep}
use atoha.Errors.{Error, Result, err, ok, no_rows, error_is}
use atoha.Context.{Context}
use atoha.Eventlog.Rows.{ActionRow, AttemptRow, EventRow}

-- The statements that Exec runs.
pub data Statement : Type 0 where
  pragma_foreign_keys pragma_busy_timeout : Statement
  create_actions create_attempts create_events create_index : Statement
  insert_action : ActionRow → Statement
  insert_attempt : AttemptRow → Statement
  insert_event : EventRow → Statement

-- sql.Rows: what Scan returns row by row, and Err() after the last.
pub record Rows (A : Type 0) : Type 0 where
  pub scanned : List (Result A)
  pub failure : Option Error

-- sql.DB with the one transaction that may be open. An Exec is one with RowsAffected, since the
-- code returns the error of either.
pub record Engine : Type 1 where
  pub State : Type 0
  pub open_path : String → Result State
  pub close : State → Option Error
  pub exec : Context → Statement → State → Result ℕ × State
  pub begin_tx : Context → State → Option Error × State
  pub commit : State → Option Error × State
  pub rollback : State → Option Error × State
  -- QueryRow with Scan; sql.ErrNoRows where there is no row
  pub select_action : Context → String → State → Result ActionRow
  pub select_event : Context → String → State → Result EventRow
  pub query_events : Context → String → State → Result (Rows EventRow)
  pub query_attempt_ids : Context → State → Result (Rows String)

-- The rows of the tables, in the order of `sequence`.
pub record Tables : Type 0 where
  pub actions : List ActionRow
  pub attempts : List AttemptRow
  pub events : List EventRow

abbrev pub no_tables : Tables
no_tables = record { actions = []; attempts = []; events = [] }

-- WHERE action_id = ?
abbrev pub find_action : String → List ActionRow → Option ActionRow
find_action k [] = none
find_action k (r ∷ rs) = if str_eq r.action_id k then some r else find_action k rs

abbrev pub has_attempt : String → List AttemptRow → Bool
has_attempt k [] = false
has_attempt k (r ∷ rs) = str_eq r.attempt_id k || has_attempt k rs

-- WHERE event_id = ?
abbrev pub find_row : String → List EventRow → Option EventRow
find_row k [] = none
find_row k (r ∷ rs) = if str_eq r.event_id k then some r else find_row k rs

abbrev pub attempt_names : List AttemptRow → List String
attempt_names [] = []
attempt_names (r ∷ rs) = r.attempt_id ∷ attempt_names rs

-- INSERT OR IGNORE: the rows affected, and the tables after.
unfoldable pub insert_new_action : Option ActionRow → ActionRow → Tables → ℕ × Tables
insert_new_action (some _) row t = (0, t)
insert_new_action none row t = (1, record t { actions = t.actions ++ row ∷ [] })

unfoldable pub insert_new_attempt : Bool → AttemptRow → Tables → ℕ × Tables
insert_new_attempt true row t = (0, t)
insert_new_attempt false row t = (1, record t { attempts = t.attempts ++ row ∷ [] })

unfoldable pub insert_new_event : Option EventRow → EventRow → Tables → ℕ × Tables
insert_new_event (some _) row t = (0, t)
insert_new_event none row t = (1, record t { events = t.events ++ row ∷ [] })

unfoldable pub carry_out : Statement → Tables → ℕ × Tables
unfolding insert_new_action insert_new_attempt insert_new_event
carry_out (insert_action row) t = insert_new_action (find_action row.action_id t.actions) row t
carry_out (insert_attempt row) t = insert_new_attempt (has_attempt row.attempt_id t.attempts) row t
carry_out (insert_event row) t = insert_new_event (find_row row.event_id t.events) row t
carry_out st t = (0, t)

-- The values of the rows, if each Scan returned one.
unfoldable pub collect : {A : Type 0} → List (Result A) → Option (List A)
collect [] = some []
collect (err e ∷ rs) = none
collect (ok x ∷ rs) = elim (collect rs) [ none ↦ none | some xs ↦ some (x ∷ xs) ]

-- The documented behaviour: `tables` is what a statement reads, `saved` what ROLLBACK returns to.
-- Nothing is assumed of when a call fails, nor of what a statement that fails has changed. A
-- transaction that could not be committed is as one that is rolled back.
pub record IsDatabase (E : Engine) : Type 0 where
  pub tables : E.State → Tables
  pub saved : E.State → Tables
  pub tables-begin : (ctx : Context) (s : E.State) → tables (E.begin_tx ctx s).1 ≡ tables s
  pub saved-begin :
      (ctx : Context) (s : E.State)
      → (E.begin_tx ctx s).0 ≡ none
      → saved (E.begin_tx ctx s).1 ≡ tables s
  pub exec_ok :
      (ctx : Context) (st : Statement) (s : E.State) (n : ℕ)
      → (E.exec ctx st s).0 ≡ ok n
      → carry_out st (tables s) ≡ (n, tables (E.exec ctx st s).1)
  pub saved-exec :
      (ctx : Context) (st : Statement) (s : E.State) → saved (E.exec ctx st s).1 ≡ saved s
  pub tables-rollback : (s : E.State) → tables (E.rollback s).1 ≡ saved s
  pub saved-rollback : (s : E.State) → saved (E.rollback s).1 ≡ saved s
  pub tables-commit : (s : E.State) → (E.commit s).0 ≡ none → tables (E.commit s).1 ≡ tables s
  pub saved-commit :
      (s : E.State) {e : Error} → (E.commit s).0 ≡ some e → saved (E.commit s).1 ≡ saved s
  pub select_action_ok :
      (ctx : Context) (k : String) (s : E.State) {r : ActionRow}
      → E.select_action ctx k s ≡ ok r
      → find_action k (tables s).actions ≡ some r
  pub select_action_missing :
      (ctx : Context) (k : String) (s : E.State) {e : Error}
      → E.select_action ctx k s ≡ err e
      → error_is no_rows (some e) ≡ true
      → find_action k (tables s).actions ≡ none
  pub select_event_ok :
      (ctx : Context) (k : String) (s : E.State) {r : EventRow}
      → E.select_event ctx k s ≡ ok r
      → find_row k (tables s).events ≡ some r
  pub query_events_ok :
      (ctx : Context) (k : String) (s : E.State) (rows : Rows EventRow) {rs : List EventRow}
      → E.query_events ctx k s ≡ ok rows
      → rows.failure ≡ none
      → collect rows.scanned ≡ some rs
      → rs ≡ keep (λ r. str_eq r.attempt_id k) (tables s).events
  pub query_attempt_ids_ok :
      (ctx : Context) (s : E.State) (rows : Rows String) {ids : List String}
      → E.query_attempt_ids ctx s ≡ ok rows
      → rows.failure ≡ none
      → collect rows.scanned ≡ some ids
      → ids ≡ attempt_names (tables s).attempts
