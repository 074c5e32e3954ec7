-- ===== src/Eventlog/Sqlite/Kept.antt =====
-- eventlog/sqlite/log.go: the tables after one row, and the memory log after one event.
use atoha.Prelude.{
  ◌≡◌, refl, sym, ap, ◌∙◌, subst, true, none, some, List, [], ◌∷◌, ◌++◌, map, arith, str_eq_refl,
}
use atoha.Prelude.Lists.{All}
use atoha.Errors.{Error, ok, err}
use atoha.Core.Event.{ExecutionEvent}
use atoha.Eventlog.Fact.{equal, equal_refl}
use atoha.Eventlog.Memory.{Log, put, append_one}
use atoha.Eventlog.Memory.Holding.{Holds, append_one_new}
use atoha.Eventlog.Memory.Invariant.{IsConsistent, append_one-IsConsistent}
use atoha.Eventlog.Rows.{TimeText, event_row, read_event}
use atoha.Eventlog.Database.{Tables, insert_event, insert_new_event, carry_out}
use atoha.Eventlog.Sqlite.RoundTrip.{IsStorable, in_utc, equal-in_utc}
use atoha.Eventlog.Sqlite.Represents.{Represents, find_row-Represents}
use atoha.Eventlog.Sqlite.Appending.{stored_conflict}

map-snoc :
    {A B : Type 0} (f : A → B) (xs : List A) (x : A) → map f (xs ++ x ∷ []) ≡ map f xs ++ f x ∷ []
map-snoc f [] x = refl
map-snoc f (y ∷ xs) x = ap (λ z. f y ∷ z) (map-snoc f xs x)

All-snoc :
    (xs : List ExecutionEvent) (x : ExecutionEvent)
    → All IsStorable xs
    → IsStorable x
    → All IsStorable (xs ++ x ∷ [])
All-snoc [] x h p = (p, tt)
All-snoc (y ∷ xs) x h p = (h.0, All-snoc xs x h.1 p)

pub no_conflict-equal :
    (x e : ExecutionEvent) → stored_conflict e (ok (in_utc x)) ≡ none → equal x e ≡ true
unfolding stored_conflict
no_conflict-equal x e h = ground (arith, equal-in_utc x e)

pub conflict_of_error :
    (T : TimeText) (e : ExecutionEvent) (f : Error)
    → stored_conflict e (read_event T (err f)) ≡ some f
unfolding stored_conflict read_event
conflict_of_error T e f = refl

pub Holds-new : (m : Log) (e : ExecutionEvent) → m.by_id e.id ≡ none → Holds (append_one m e) e
unfolding put
Holds-new m e q =
    rw (append_one_new m e q)
      (record { stored = e; found = rw (str_eq_refl e.id) refl; same = equal_refl e })

module _ {T : TimeText} {db : Tables} {l : Log} (r : Represents T db l) (e : ExecutionEvent) where
  -- A fact whose identity is new, in the table and in the log.
  pub Represents-new :
      l.by_id e.id ≡ none
      → IsStorable e
      → Represents T (record db { events = db.events ++ event_row T e ∷ [] }) (append_one l e)
  Represents-new h s = rw (append_one_new l e h) (record {
    events = ap (λ z. z ++ event_row T e ∷ []) r.events ∙ sym (map-snoc (event_row T) l.events e);
    attempts = r.attempts;
    actions = r.actions;
    consistent =
        subst IsConsistent (append_one_new l e h) (append_one-IsConsistent l e r.consistent);
    storable = All-snoc l.events e r.storable s;
    storable_actions = r.storable_actions;
  })

  -- What an INSERT OR IGNORE of the row of a fact that is new does.
  pub carry_out_new :
      l.by_id e.id ≡ none
      → carry_out (insert_event (event_row T e)) db
        ≡ (1, record db { events = db.events ++ event_row T e ∷ [] })
  unfolding carry_out insert_new_event event_row
  carry_out_new h = rw (find_row-Represents r e.id, h) refl

  pub carry_out_stored :
      {x : ExecutionEvent}
      → l.by_id e.id ≡ some x
      → carry_out (insert_event (event_row T e)) db ≡ (0, db)
  unfolding carry_out insert_new_event event_row
  carry_out_stored h = rw (find_row-Represents r e.id, h) refl
