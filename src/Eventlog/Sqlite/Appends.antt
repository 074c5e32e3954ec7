-- ===== src/Eventlog/Sqlite/Appends.antt =====
-- What appendEvents and AppendAll of eventlog/sqlite/log.go leave in the tables.
use atoha.Prelude.{
  ℕ, zero, suc, ◌≡◌, refl, sym, ap, ◌∙◌, subst, true, none, some, Option-cases, inl, inr, List, [],
  ◌∷◌, some_eq,
}
use atoha.Prelude.Lists.{All}
use atoha.Errors.{ok, Result-cases}
use atoha.Context.{Context}
use atoha.Core.Event.{ExecutionEvent}
use atoha.Eventlog.Fact.{equal}
use atoha.Eventlog.Memory.{Log, append_one, append_prepared}
use atoha.Eventlog.Memory.Holding.{Holds, Holds-append_prepared, append_one_stored}
use atoha.Eventlog.Rows.{TimeText, event_row, read_event}
use atoha.Eventlog.Database.{Engine, Tables, IsDatabase, insert_event}
use atoha.Eventlog.Sqlite.RoundTrip.{IsTimeText, IsStorable, read_event-event_row}
use atoha.Eventlog.Sqlite.Represents.{Represents, row_of, find_row-Represents, by_id-IsStorable}
use atoha.Eventlog.Sqlite.Appending.{stored_conflict, append_events}
use atoha.Eventlog.Sqlite.Kept.{
  no_conflict-equal, conflict_of_error, Holds-new, Represents-new, carry_out_new, carry_out_stored,
}

module _ {E : Engine} (D : IsDatabase E) (T : TimeText) (ctx : Context) where
  -- What ROLLBACK returns to is left alone.
  pub saved-append_events :
      (es : List ExecutionEvent) (s : E.State) → D.saved (append_events E T ctx es s).1 ≡ D.saved s
  unfolding append_events
  saved-append_events [] s = refl
  saved-append_events (e ∷ es) s =
      let one = D.saved-exec ctx (insert_event (event_row T e)) s in
      let more = saved-append_events es ((E.exec ctx (insert_event (event_row T e)) s).1) ∙ one in
      elim (Result-cases (E.exec ctx (insert_event (event_row T e)) s).0) [
        | inl (f, g) ↦ rw (g, append_events) one
        | inr (zero, g) ↦
            elim (Option-cases (
              stored_conflict e (
                read_event T
                  (E.select_event ctx e.id ((E.exec ctx (insert_event (event_row T e)) s).1))))) [
                    | inr (f, c) ↦ rw (g, c, append_events) one
                    | inl c ↦ rw (g, c, append_events) more
                  ]
        | inr (suc n, g) ↦ rw (g, append_events) more
      ]

module _ {E : Engine} (D : IsDatabase E) {T : TimeText} (p : IsTimeText T) (ctx : Context) where
  abbrev pub after_insert : ExecutionEvent → E.State → E.State
  after_insert e s = (E.exec ctx (insert_event (event_row T e)) s).1

  -- The row count tells whether the identity was new, and the tables represent the log with the
  -- fact, if they do not conflict.
  inserted_new :
      (e : ExecutionEvent) (s : E.State) (m : Log) {n : ℕ}
      → Represents T (D.tables s) m
      → IsStorable e
      → (E.exec ctx (insert_event (event_row T e)) s).0 ≡ ok (suc n)
      → (m.by_id e.id ≡ none) × Represents T (D.tables (after_insert e s)) (append_one m e)
  inserted_new e s m {n} r st h =
      let a = D.exec_ok ctx (insert_event (event_row T e)) s (suc n) h in
      elim (Option-cases (m.by_id e.id)) [
        | inl q ↦
            let b = sym (carry_out_new r e q) ∙ a in
            (
              q,
              subst (λ t. Represents T t (append_one m e)) (ap (λ z. z.1) b)
                  (Represents-new r e q st),
            )
        | inr (x, q) ↦ let b = ap (λ (z : ℕ × Tables). z.0) (sym (carry_out_stored r e q) ∙ a) in cc
      ]

  pub inserted_none :
      (e : ExecutionEvent) (s : E.State) (m : Log)
      → Represents T (D.tables s) m
      → (E.exec ctx (insert_event (event_row T e)) s).0 ≡ ok 0
      → ((x : ExecutionEvent) × (m.by_id e.id ≡ some x))
        × (D.tables (after_insert e s) ≡ D.tables s)
  inserted_none e s m r h =
      let a = D.exec_ok ctx (insert_event (event_row T e)) s 0 h in
      elim (Option-cases (m.by_id e.id)) [
        | inl q ↦ let b = ap (λ (z : ℕ × Tables). z.0) (sym (carry_out_new r e q) ∙ a) in cc
        | inr (x, q) ↦ ((x, q), ap (λ z. z.1) (sym a ∙ carry_out_stored r e q))
      ]

  -- The row that is there is of a fact equal to the event, or there is an error.
  stored_equal :
      (e : ExecutionEvent) (s : E.State) (m : Log) {x : ExecutionEvent}
      → Represents T (D.tables s) m
      → m.by_id e.id ≡ some x
      → stored_conflict e (read_event T (E.select_event ctx e.id s)) ≡ none
      → equal x e ≡ true
  stored_equal e s m {x} r q h = elim (Result-cases (E.select_event ctx e.id s)) [
    | inl (f, g) ↦
        let c =
          sym (conflict_of_error T e f)
          ∙ ap (λ z. stored_conflict e (read_event T z)) (sym g)
          ∙ h in
        cc
    | inr (row, g) ↦
        let found =
          sym (D.select_event_ok ctx e.id s g)
          ∙ find_row-Represents r e.id
          ∙ ap (row_of (event_row T)) q in
        let read =
          ap (λ z. read_event T (ok z)) (some_eq found)
          ∙ read_event-event_row T p x (by_id-IsStorable r e.id q) in
        no_conflict-equal x e (sym (ap (stored_conflict e) (ap (read_event T) g ∙ read)) ∙ h)
  ]

  -- One round of the loop that goes on.
  pub record Taken (e : ExecutionEvent) (s : E.State) (m : Log) : Type 0 where
    pub now : Represents T (D.tables (after_insert e s)) (append_one m e)
    pub holds : Holds (append_one m e) e

  pub Taken-new :
      (e : ExecutionEvent) (s : E.State) (m : Log) {n : ℕ}
      → Represents T (D.tables s) m
      → IsStorable e
      → (E.exec ctx (insert_event (event_row T e)) s).0 ≡ ok (suc n)
      → Taken e s m
  Taken-new e s m r st h =
      let (q, now) = inserted_new e s m r st h in record { now = now; holds = Holds-new m e q }

  pub Taken-none :
      (e : ExecutionEvent) (s : E.State) (m : Log)
      → Represents T (D.tables s) m
      → (E.exec ctx (insert_event (event_row T e)) s).0 ≡ ok 0
      → stored_conflict e (read_event T (E.select_event ctx e.id (after_insert e s))) ≡ none
      → Taken e s m
  Taken-none e s m r h c =
      let ((x, q), same) = inserted_none e s m r h in
      let r' = subst (λ t. Represents T t m) (sym same) r in
      let eq = stored_equal e (after_insert e s) m r' q c in
      let stays = sym (append_one_stored m e q) in
      record {
        now = subst (λ k. Represents T (D.tables (after_insert e s)) k) stays r';
        holds = subst (λ k. Holds k e) stays (record { stored = x; found = q; same = eq });
      }

  together :
      (e : ExecutionEvent) (es : List ExecutionEvent) {s : E.State} {m : Log} {db : Tables}
      → Taken e s m
      → Represents T db (append_prepared (append_one m e) es)
        × All (Holds (append_prepared (append_one m e) es)) es
      → Represents T db (append_prepared m (e ∷ es))
        × All (Holds (append_prepared m (e ∷ es))) (e ∷ es)
  unfolding append_prepared
  together e es {s} {m} t ih = (ih.0, (Holds-append_prepared (append_one m e) es t.holds, ih.1))

  -- From tables that represent a log, appendEvents without an error leaves tables that represent
  -- it with the facts, all of which are then on record.
  pub append_events-Represents :
      (es : List ExecutionEvent) (s : E.State) (m : Log)
      → Represents T (D.tables s) m
      → All IsStorable es
      → (append_events E T ctx es s).0 ≡ none
      → Represents T (D.tables (append_events E T ctx es s).1) (append_prepared m es)
        × All (Holds (append_prepared m es)) es
  unfolding append_events append_prepared
  append_events-Represents [] s m r st h = (r, tt)
  append_events-Represents (e ∷ es) s m r st h =
      let go = λ (t : Taken e s m) (k : (append_events E T ctx es (after_insert e s)).0 ≡ none).
        together e es t
          (append_events-Represents es (after_insert e s) (append_one m e) t.now st.1 k) in
      elim (Result-cases (E.exec ctx (insert_event (event_row T e)) s).0) [
        | inl (f, g) ↦ let k = rw (g, append_events) at h in cc
        | inr (zero, g) ↦
            elim (Option-cases
              (stored_conflict e (read_event T (E.select_event ctx e.id (after_insert e s))))) [
                | inr (f, c) ↦ let k = rw (g, c, append_events) at h in cc
                | inl c ↦
                    rw (g, c, append_events)
                      (go (Taken-none e s m r g c) (rw (g, c, append_events) at h))
              ]
        | inr (suc n, g) ↦
            rw (g, append_events) (go (Taken-new e s m r st.0 g) (rw (g, append_events) at h))
      ]
