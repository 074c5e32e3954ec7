-- ===== src/Eventlog/Sqlite/Represents.antt =====
-- When the tables of the SQLite log hold what a memory log does (eventlog/sqlite/log.go and
-- eventlog/memory/log.go).
use atoha.Prelude.{
  String, ◌≡◌, refl, sym, ap, ◌∙◌, Option, none, some, List, [], ◌∷◌, map, arith, subst, Bool-cases,
  inl, inr, str_eq,
}
use atoha.Prelude.Lists.{All}
use atoha.Core.Action.{Action}
use atoha.Core.Event.{ExecutionEvent}
use atoha.Eventlog.Memory.{Log, new}
use atoha.Eventlog.Memory.Invariant.{IsConsistent, new-IsConsistent, find_event, contains}
use atoha.Eventlog.Rows.{TimeText, AttemptRow, event_row, action_row}
use atoha.Eventlog.Database.{Tables, no_tables, find_action, has_attempt, find_row, attempt_names}
use atoha.Eventlog.Sqlite.RoundTrip.{IsStorable, IsStorableAction}

abbrev pub row_of : {A B : Type 0} → (A → B) → Option A → Option B
row_of f none = none
row_of f (some a) = some (f a)

-- The rows are those of the facts, of the claims and of the actions of a consistent log, all of
-- which can be read back.
pub record Represents (T : TimeText) (db : Tables) (l : Log) : Type 0 where
  pub events : db.events ≡ map (event_row T) l.events
  pub attempts : attempt_names db.attempts ≡ l.attempt_order
  pub actions : (k : String) → find_action k db.actions ≡ row_of (action_row T) (l.actions k)
  pub consistent : IsConsistent l
  pub storable : All IsStorable l.events
  pub storable_actions : (k : String) (a : Action) → l.actions k ≡ some a → IsStorableAction a

-- The tables that `initialize` creates represent the empty log.
pub no_tables-Represents : (T : TimeText) → Represents T no_tables new
no_tables-Represents T = record {
  events = refl;
  attempts = refl;
  actions = λ k. refl;
  consistent = new-IsConsistent;
  storable = tt;
  storable_actions = λ k a h. cc;
}

find_row-map :
    (T : TimeText) (k : String) (es : List ExecutionEvent)
    → find_row k (map (event_row T) es) ≡ row_of (event_row T) (find_event k es)
unfolding event_row
find_row-map T k [] = refl
find_row-map T k (e ∷ es) = ground (arith, find_row-map T k es)

has_attempt-contains :
    (k : String) (rs : List AttemptRow) → has_attempt k rs ≡ contains k (attempt_names rs)
has_attempt-contains k [] = refl
has_attempt-contains k (r ∷ rs) = ground (arith, has_attempt-contains k rs)

pub find_event-IsStorable :
    (k : String) (es : List ExecutionEvent) {e : ExecutionEvent}
    → All IsStorable es
    → find_event k es ≡ some e
    → IsStorable e
find_event-IsStorable k [] s h = cc
find_event-IsStorable k (x ∷ es) s h = elim (Bool-cases (str_eq x.id k)) [
  | inl p ↦ subst IsStorable (ground arith) s.0
  | inr p ↦ find_event-IsStorable k es s.1 (ground arith)
]

module _ {T : TimeText} {db : Tables} {l : Log} (r : Represents T db l) where
  -- The index of the memory log finds the event whose row the table has.
  pub find_row-Represents : (k : String) → find_row k db.events ≡ row_of (event_row T) (l.by_id k)
  find_row-Represents k = rw (r.events, r.consistent.index k) (find_row-map T k l.events)

  pub by_id-IsStorable : (k : String) {e : ExecutionEvent} → l.by_id k ≡ some e → IsStorable e
  by_id-IsStorable k h =
      find_event-IsStorable k l.events r.storable (sym (r.consistent.index k) ∙ h)

  pub has_attempt-Represents : (k : String) → has_attempt k db.attempts ≡ contains k l.attempt_order
  has_attempt-Represents k = has_attempt-contains k db.attempts ∙ ap (contains k) r.attempts
