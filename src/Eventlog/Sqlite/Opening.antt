-- ===== src/Eventlog/Sqlite/Opening.antt =====
-- Open, Close and initialize of eventlog/sqlite/log.go, and the guard of every method. Each early
-- return of a method ends a function of its own; the functions call one another in the order of
-- the code.
use atoha.Prelude.{String, ◌||◌, not, Option, none, some, List, [], ◌∷◌, str_eq, if◌then◌else◌}
use atoha.Prelude.Text.{trim_space}
use atoha.Errors.{Result, ok, err, Error, sentinel, message, described, sqlite_invalid_config}
use atoha.Context.{Context}
use atoha.Eventlog.Database.{
  Engine, Statement, pragma_foreign_keys, pragma_busy_timeout, create_actions, create_attempts,
  create_events, create_index,
}

abbrev pub config_error : String → Error
config_error reason = described (sentinel sqlite_invalid_config) (message reason [])

-- `l == nil || l.db == nil`
abbrev pub nil_log : Option Error
nil_log = some (config_error "log is nil")

abbrev background : Context
background = record { err = none }

-- A method with an error and no other result.
abbrev pub Done : Engine → Type 0
Done E = Option Error × E.State

module _ (E : Engine) where
  unfoldable pub run_statements : Context → List Statement → E.State → Done E
  run_statements ctx [] s = (none, s)
  run_statements ctx (st ∷ sts) s =
      let (r, s') = E.exec ctx st s in
      let rest = run_statements ctx sts s' in
      elim r [
        | err e ↦ (some (described e (message "atoha sqlite event log: initialize" [])), s')
        | ok n ↦ rest
      ]

  unfoldable pub initialize : Context → E.State → Done E
  unfolding run_statements
  initialize ctx s =
      run_statements ctx
        (pragma_foreign_keys ∷ pragma_busy_timeout ∷ create_actions ∷ create_attempts
          ∷ create_events ∷ create_index ∷ [])
        s

  unfoldable pub opened : Done E → Result E.State
  opened (none, s) = ok s
  opened (some e, s) = err e

  unfoldable pub on_handle : Result E.State → Result E.State
  unfolding initialize opened
  on_handle (err e) = err e
  on_handle (ok s) = opened (initialize background s)

  unfoldable pub open_log : String → Result E.State
  unfolding on_handle
  open_log path =
      if str_eq (trim_space path) "" || not (str_eq path (trim_space path))
      then err (config_error "database path is required")
      else on_handle (E.open_path path)

  unfoldable pub close : Option E.State → Option Error
  close none = none
  close (some s) = E.close s
