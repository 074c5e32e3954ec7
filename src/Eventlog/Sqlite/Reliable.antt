-- ===== src/Eventlog/Sqlite/Reliable.antt =====
-- The log of eventlog/sqlite/log.go on a database that does not fail by itself: where the memory log
-- takes a batch, it does too.
use atoha.Prelude.{
  ℕ, zero, suc, String, ◌≡◌, refl, sym, ap, ◌∙◌, subst, true, Option, none, some, ◌⊎◌, inl, inr,
  List, [], ◌∷◌, arith, some_eq,
}
use atoha.Prelude.Lists.{All}
use atoha.Errors.{Error, Result, ok}
use atoha.Core.Event.{ExecutionEvent}
use atoha.Eventlog.Fact.{equal}
use atoha.Eventlog.Memory
use atoha.Eventlog.Memory.{Log, append_one, append_prepared}
use atoha.Eventlog.Memory.Holding.{
  Holds, by_id-append_prepared, append_one_stored, append_prepared-Holds,
}
use atoha.Eventlog.Memory.Atomic.{append_all_ok}
use atoha.Eventlog.Rows.{TimeText, ActionRow, EventRow, event_row, read_event}
use atoha.Eventlog.Database.{Engine, Statement, IsDatabase, insert_event, find_action, find_row}
use atoha.Eventlog.Sqlite.RoundTrip.{
  IsTimeText, IsStorable, in_utc, read_event-event_row, equal-in_utc,
}
use atoha.Eventlog.Sqlite.Represents.{Represents, row_of, find_row-Represents, by_id-IsStorable}
use atoha.Eventlog.Sqlite.Appending.{
  stored_conflict, append_events, committed, finish_append, append_in_tx, append_open,
}
use atoha.Eventlog.Sqlite.Appends.{Taken, after_insert, inserted_none, Taken-new, Taken-none}
use atoha.Eventlog.Sqlite.AppendAll.{live}

-- With a context that is not done, no call fails, and a row that is there is found.
pub record IsReliable (E : Engine) (D : IsDatabase E) : Type 0 where
  pub begins : (s : E.State) → (E.begin_tx live s).0 ≡ none
  pub executes : (st : Statement) (s : E.State) → (n : ℕ) × ((E.exec live st s).0 ≡ ok n)
  pub commits : (s : E.State) → (E.commit s).0 ≡ none
  pub rolls_back : (s : E.State) → (E.rollback s).0 ≡ none
  pub finds_action :
      (k : String) (s : E.State) {r : ActionRow}
      → find_action k (D.tables s).actions ≡ some r
      → E.select_action live k s ≡ ok r
  pub finds_event :
      (k : String) (s : E.State) {r : EventRow}
      → find_row k (D.tables s).events ≡ some r
      → E.select_event live k s ≡ ok r

pub by_count : {r : Result ℕ} → (n : ℕ) × (r ≡ ok n) → (r ≡ ok 0) ⊎ ((n : ℕ) × (r ≡ ok (suc n)))
by_count (zero, h) = inl h
by_count (suc n, h) = inr (n, h)

equal-no_conflict :
    (x e : ExecutionEvent) → equal x e ≡ true → stored_conflict e (ok (in_utc x)) ≡ none
unfolding stored_conflict
equal-no_conflict x e h = ground (arith, equal-in_utc x e)

module _ {E : Engine} (D : IsDatabase E) (R : IsReliable E D) {T : TimeText}
    (p : IsTimeText T) where
  -- The row that is there of a fact that is on record in the end does not conflict.
  no_conflict :
      (e : ExecutionEvent) (es : List ExecutionEvent) (s : E.State) (m : Log) {x : ExecutionEvent}
      → Represents T (D.tables s) m
      → m.by_id e.id ≡ some x
      → Holds (append_prepared (append_one m e) es) e
      → stored_conflict e (read_event T (E.select_event live e.id s)) ≡ none
  no_conflict e es s m {x} r q h =
      let row = R.finds_event e.id s (find_row-Represents r e.id ∙ ap (row_of (event_row T)) q) in
      let stays =
        by_id-append_prepared (append_one m e) es e.id
          (ap (λ (z : Log). z.by_id e.id) (append_one_stored m e q) ∙ q) in
      let same = subst (λ z. equal z e ≡ true) (some_eq (sym h.found ∙ stays)) h.same in
      ap (λ z. stored_conflict e (read_event T z)) row
      ∙ ap (stored_conflict e) (read_event-event_row T p x (by_id-IsStorable r e.id q))
      ∙ equal-no_conflict x e same

  pub append_events_succeeds :
      (es : List ExecutionEvent) (s : E.State) (m : Log)
      → Represents T (D.tables s) m
      → All IsStorable es
      → All (Holds (append_prepared m es)) es
      → (append_events E T live es s).0 ≡ none
  unfolding append_events append_prepared
  append_events_succeeds [] s m r st h = refl
  append_events_succeeds (e ∷ es) s m r st h =
      let go = λ (t : Taken D p live e s m).
        append_events_succeeds es (after_insert D p live e s) (append_one m e) t.now st.1 h.1 in
      elim (by_count (R.executes (insert_event (event_row T e)) s)) [
        | inr (n, g) ↦ rw (g, append_events) (go (Taken-new D p live e s m r st.0 g))
        | inl g ↦
            let ((x, q), same) = inserted_none D p live e s m r g in
            let c =
              no_conflict e es (after_insert D p live e s) m
                (subst (λ t. Represents T t m) (sym same) r) q h.0 in
            rw (g, append_events, c) (go (Taken-none D p live e s m r g c))
      ]

  finish_succeeds : (r : Option Error × E.State) → r.0 ≡ none → (finish_append E T r).0 ≡ none
  unfolding finish_append committed
  finish_succeeds (none, s) h = rw (R.commits s, committed) refl
  finish_succeeds (some e, s) h = cc

  -- On a database that does not fail by itself, whose tables represent a memory log, a call of
  -- AppendAll with facts that can be stored succeeds if it does on the memory log.
  pub append_open_succeeds :
      (es : List ExecutionEvent) (s : E.State) (l : Log)
      → Represents T (D.tables s) l
      → All IsStorable es
      → (Memory.append_all live es l).0 ≡ none
      → (append_open E T live es s).0 ≡ none
  unfolding append_open append_in_tx
  append_open_succeeds es s l r st h =
      let s1 = (E.begin_tx live s).1 in
      let held = append_prepared-Holds l es (append_all_ok live es l h).1 in
      rw (R.begins s, append_in_tx)
        (finish_succeeds (append_events E T live es s1) (
          append_events_succeeds es s1 l
            (subst (λ t. Represents T t l) (sym (D.tables-begin live s)) r) st held))
