-- ===== src/Checks/Sqlite.antt =====
-- Runs of the SQLite log (eventlog/sqlite/log.go) on the database of lists.
use atoha.Eventlog.Sqlite.Beginning.{begin_error}
use atoha.Eventlog.Rows.{attempt_row}
use atoha.Instant.{utc}
use atoha.Checks.Engine.{bits}
use atoha.Checks.Engine.{from_bits}
use atoha.Eventlog.Rows.{action_row}
use atoha.Eventlog.Database.{carry_out}
use atoha.Core.Event.{new_execution_event}
use atoha.Prelude.Text.{trim_space}
use atoha.Core.Action.{new_action}
use atoha.Prelude.{◌≤◌, ◌≡◌, refl, true, false, none, List, [], ◌∷◌, map}
use atoha.Prelude.Lists.{All}
use atoha.Errors.{Error, is, error_is, sqlite_invalid_config, action_identity_conflict, ok, err}
use atoha.Core.Event.{new_execution_event, kind_text}
use atoha.Eventlog.Memory
use atoha.Eventlog.Memory.{new}
use atoha.Eventlog.Memory.Runs
use atoha.Eventlog.Memory.Runs.{Call, begin, record_facts}
use atoha.Instant.{utc}
use atoha.Eventlog.Database.{carry_out}
use atoha.Eventlog.Rows.{action_row, attempt_row, event_row, read_event}
use atoha.Eventlog.Sqlite.RoundTrip.{
  IsStorable, IsStorableAction, representable, in_utc, read_event-event_row,
}
use atoha.Eventlog.Sqlite.Represents.{Represents, no_tables-Represents}
use atoha.Eventlog.Sqlite.Opening.{open_log}
use atoha.Eventlog.Sqlite.Beginning.{begin_open}
use atoha.Eventlog.Sqlite.Reading.{events_by_attempt}
use atoha.Eventlog.Sqlite.BeginAtomic.{begin_open_atomic}
use atoha.Eventlog.Sqlite.Readers.{events_by_attempt-Represents}
use atoha.Eventlog.Sqlite.Runs.{run, succeeded, claim_count, CanStore, run-Represents, claimed_once}
use atoha.Eventlog.Sqlite.ReliableBegin.{begin_open_succeeds}
use atoha.Checks.Data.{
  live, lamp_on, lamp_off, first_try, second_try, requested, started, sent, accepted, withheld,
  initial_facts,
}
use atoha.Checks.Engine.{
  lists, lists-IsDatabase, lists-IsReliable, empty, Kept, bit_times, bit_times-IsTimeText,
}

abbrev sql_calls : List Call
sql_calls =
    begin live lamp_on first_try initial_facts
    ∷ record_facts live (sent ∷ [])
    ∷ begin live lamp_on first_try initial_facts
    ∷ record_facts live (accepted ∷ withheld ∷ [])
    ∷ begin live lamp_off second_try []
    ∷ []

abbrev claimed_tables : Kept
claimed_tables = (begin_open lists bit_times live lamp_on first_try initial_facts empty).2

-- The claim succeeds, and again, with the same answer but for the claim; another intent is refused.
first_claimed : (begin_open lists bit_times live lamp_on first_try initial_facts empty).0 ≡ true
unfolding begin_open carry_out event_row
first_claimed = refl

claimed_again :
    (begin_open lists bit_times live lamp_on first_try initial_facts claimed_tables).0 ≡ false
unfolding begin_open carry_out event_row action_row from_bits bits utc attempt_row
claimed_again = refl

other_refused :
    error_is action_identity_conflict
      (begin_open lists bit_times live lamp_off second_try [] claimed_tables).1
    ≡ true
unfolding error_is begin_open carry_out event_row action_row
other_refused = refl

path_refused :
    (e : Error) × (open_log lists " atoha.db" ≡ err e) × (is sqlite_invalid_config e ≡ true)
unfolding open_log trim_space is
path_refused = (_, refl, refl)

path_taken : open_log lists "atoha.db" ≡ ok empty
unfolding open_log trim_space carry_out
path_taken = refl

lamp_on-IsStorable : IsStorableAction lamp_on
unfolding new_action trim_space representable
lamp_on-IsStorable = record { built = refl; requested = refl }

lamp_off-IsStorable : IsStorableAction lamp_off
unfolding new_action trim_space representable
lamp_off-IsStorable = record { built = refl; requested = refl }

requested-IsStorable : IsStorable requested
unfolding new_execution_event trim_space representable
requested-IsStorable = record { built = refl; occurred = refl; recorded = refl }

started-IsStorable : IsStorable started
unfolding new_execution_event trim_space representable
started-IsStorable = record { built = refl; occurred = refl; recorded = refl }

sent-IsStorable : IsStorable sent
unfolding new_execution_event trim_space representable
sent-IsStorable = record { built = refl; occurred = refl; recorded = refl }

accepted-IsStorable : IsStorable accepted
unfolding new_execution_event trim_space representable
accepted-IsStorable = record { built = refl; occurred = refl; recorded = refl }

withheld-IsStorable : IsStorable withheld
unfolding new_execution_event trim_space representable
withheld-IsStorable = record { built = refl; occurred = refl; recorded = refl }

initial-IsStorable : All IsStorable initial_facts
initial-IsStorable = (requested-IsStorable, (started-IsStorable, tt))

calls-CanStore : All CanStore sql_calls
calls-CanStore = (
  (initial-IsStorable, lamp_on-IsStorable),
  (
    (sent-IsStorable, tt),
    (
      (initial-IsStorable, lamp_on-IsStorable),
      ((accepted-IsStorable, (withheld-IsStorable, tt)), ((tt, lamp_off-IsStorable), tt)),
    ),
  ),
)

run-Represents_example :
    Represents bit_times
      (run lists bit_times empty sql_calls).now
      (Runs.run new (succeeded lists bit_times empty sql_calls))
unfolding lists-IsDatabase
run-Represents_example =
    run-Represents lists-IsDatabase bit_times-IsTimeText sql_calls empty new
      (no_tables-Represents bit_times) calls-CanStore

claimed_once_example : claim_count lists bit_times "t-1" empty sql_calls ≤ 1
unfolding lists-IsDatabase
claimed_once_example =
    claimed_once lists-IsDatabase bit_times-IsTimeText "t-1" sql_calls empty new
      (no_tables-Represents bit_times) calls-CanStore

begin_open_atomic_example :
    (begin_open lists bit_times live lamp_off second_try [] claimed_tables).2.now
    ≡ claimed_tables.now
unfolding begin_open carry_out event_row action_row lists-IsDatabase
begin_open_atomic_example =
    begin_open_atomic lists-IsDatabase bit_times live lamp_off second_try [] claimed_tables refl

read_event-event_row_example :
    read_event bit_times (ok (event_row bit_times sent)) ≡ ok (in_utc sent)
read_event-event_row_example =
    read_event-event_row bit_times bit_times-IsTimeText sent sent-IsStorable

events_by_attempt-Represents_example :
    initial_facts
    ≡ map in_utc
        (Memory.events_by_attempt live "t-1"
          (Memory.begin_attempt live lamp_on first_try initial_facts new).log).0
unfolding lists-IsDatabase run Runs.run events_by_attempt begin_open carry_out event_row read_event
    new_execution_event trim_space kind_text from_bits bits utc Memory.begin_attempt
    Memory.events_by_attempt Memory.put succeeded
events_by_attempt-Represents_example =
    events_by_attempt-Represents lists-IsDatabase bit_times-IsTimeText live claimed_tables _
      (run-Represents lists-IsDatabase bit_times-IsTimeText
        (begin live lamp_on first_try initial_facts ∷ []) empty new (no_tables-Represents bit_times)
        ((initial-IsStorable, lamp_on-IsStorable), tt))
      "t-1" refl

begin_open_succeeds_example :
    (begin_open lists bit_times live lamp_on first_try initial_facts empty).1 ≡ none
unfolding lists-IsDatabase begin_error Memory.begin_attempt Memory.put
begin_open_succeeds_example =
    begin_open_succeeds lists-IsDatabase lists-IsReliable bit_times-IsTimeText lamp_on first_try
      initial_facts empty new (no_tables-Represents bit_times) initial-IsStorable lamp_on-IsStorable
      refl refl
