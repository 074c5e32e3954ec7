-- ===== src/Eventlog/Sqlite/BeginAtomic.antt =====
-- What a call of BeginAttempt (eventlog/sqlite/log.go) that does not claim leaves in the tables.
use atoha.Prelude.{
  ℕ, zero, suc, ◌≡◌, refl, ◌∙◌, false, Option, none, some, Option-cases, inl, inr, List, arith,
}
use atoha.Errors.{Error, Result, ok, err}
use atoha.Context.{Context}
use atoha.Core.Action.{Action, ExecutionAttempt}
use atoha.Core.Event.{ExecutionEvent}
use atoha.Eventlog.Rows.{TimeText, action_row, attempt_row}
use atoha.Eventlog.Database.{Engine, IsDatabase, insert_action, insert_attempt}
use atoha.Eventlog.Sqlite.Opening.{Done}
use atoha.Eventlog.Sqlite.Appending.{append_events}
use atoha.Eventlog.Sqlite.Appends.{saved-append_events}
use atoha.Eventlog.Sqlite.Beginning.{
  Begun, fail_tx, on_commit, on_facts, on_duplicate, on_attempt, claim_attempt, on_intent,
  on_action, begin_in_tx, on_checked, begin_error, begin_open,
}

module _ {E : Engine} (D : IsDatabase E) (T : TimeText) (ctx : Context) where
  -- The tables are those of a state.
  abbrev Left : Begun E T → E.State → Type 0
  Left b s = D.tables b.2 ≡ D.saved s

  Left-on_facts : (r : Done E) → (on_facts E T r).0 ≡ false → Left (on_facts E T r) r.1
  unfolding on_facts on_commit fail_tx
  Left-on_facts (some e, s) h = D.tables-rollback s
  Left-on_facts (none, s) h = elim (Option-cases (E.commit s).0) [
    | inl p ↦ let k = rw (p, on_commit) at h in cc
    | inr (e, p) ↦ rw (p, on_commit) (D.tables-rollback (E.commit s).1 ∙ D.saved-commit s p)
  ]

  Left-on_duplicate : (s : E.State) → Left (on_duplicate E T (E.rollback s)) s
  unfolding on_duplicate fail_tx
  Left-on_duplicate s = elim (Option-cases (E.rollback s).0) [
    | inl p ↦ rw (p, on_duplicate) (D.tables-rollback s)
    | inr (e, p) ↦ rw (p, on_duplicate) (D.tables-rollback (E.rollback s).1 ∙ D.saved-rollback s)
  ]

  Left-on_attempt :
      (es : List ExecutionEvent) (r : Result ℕ × E.State)
      → (on_attempt E T ctx es r).0 ≡ false
      → Left (on_attempt E T ctx es r) r.1
  unfolding on_attempt fail_tx
  Left-on_attempt es (err e, s) h = D.tables-rollback s
  Left-on_attempt es (ok zero, s) h = Left-on_duplicate s
  Left-on_attempt es (ok (suc n), s) h =
      Left-on_facts (append_events E T ctx es s) h ∙ saved-append_events D T ctx es s

  Left-claim_attempt :
      (attempt : ExecutionAttempt) (es : List ExecutionEvent) (s : E.State)
      → (claim_attempt E T ctx attempt es s).0 ≡ false
      → Left (claim_attempt E T ctx attempt es s) s
  unfolding claim_attempt
  Left-claim_attempt attempt es s h =
      let st = insert_attempt (attempt_row T attempt) in
      Left-on_attempt es (E.exec ctx st s) h ∙ D.saved-exec ctx st s

  Left-on_intent :
      (attempt : ExecutionAttempt) (es : List ExecutionEvent) (o : Option Error) (s : E.State)
      → (on_intent E T ctx attempt es o s).0 ≡ false
      → Left (on_intent E T ctx attempt es o s) s
  unfolding on_intent fail_tx
  Left-on_intent attempt es none s h = Left-claim_attempt attempt es s h
  Left-on_intent attempt es (some e) s h = D.tables-rollback s

  Left-on_action :
      (action : Action) (attempt : ExecutionAttempt) (es : List ExecutionEvent)
      (r : Result ℕ × E.State)
      → (on_action E T ctx action attempt es r).0 ≡ false
      → Left (on_action E T ctx action attempt es r) r.1
  unfolding on_action fail_tx
  Left-on_action action attempt es (err e, s) h = D.tables-rollback s
  Left-on_action action attempt es (ok zero, s) h = Left-on_intent attempt es _ s h
  Left-on_action action attempt es (ok (suc n), s) h = Left-claim_attempt attempt es s h

  Left-begin_in_tx :
      (action : Action) (attempt : ExecutionAttempt) (es : List ExecutionEvent) (s : E.State)
      → (begin_in_tx E T ctx action attempt es (E.begin_tx ctx s)).0 ≡ false
      → D.tables (begin_in_tx E T ctx action attempt es (E.begin_tx ctx s)).2 ≡ D.tables s
  unfolding begin_in_tx
  Left-begin_in_tx action attempt es s h = elim (Option-cases (E.begin_tx ctx s).0) [
    | inr (e, p) ↦ rw (p, begin_in_tx) (D.tables-begin ctx s)
    | inl p ↦
        let s1 = (E.begin_tx ctx s).1 in
        let st = insert_action (action_row T action) in
        rw (p, begin_in_tx)
          (Left-on_action action attempt es (E.exec ctx st s1) (rw (p, begin_in_tx) at h)
            ∙ D.saved-exec ctx st s1
            ∙ D.saved-begin ctx s p)
  ]

  -- A call of BeginAttempt that does not claim, whether it fails or finds the attempt claimed,
  -- leaves the tables as they were.
  pub begin_open_atomic :
      (action : Action) (attempt : ExecutionAttempt) (es : List ExecutionEvent) (s : E.State)
      → (begin_open E T ctx action attempt es s).0 ≡ false
      → D.tables (begin_open E T ctx action attempt es s).2 ≡ D.tables s
  unfolding begin_open on_checked
  begin_open_atomic action attempt es s h = elim (Option-cases (begin_error action attempt es)) [
    | inl p ↦ rw (p, on_checked) (Left-begin_in_tx action attempt es s (rw (p, on_checked) at h))
    | inr (e, p) ↦ rw (p, on_checked) refl
  ]

  -- A call that returns an error does not claim.
  pub begin_open_error :
      (action : Action) (attempt : ExecutionAttempt) (es : List ExecutionEvent) (s : E.State)
      {e : Error}
      → (begin_open E T ctx action attempt es s).1 ≡ some e
      → (begin_open E T ctx action attempt es s).0 ≡ false
  unfolding begin_open on_checked begin_in_tx on_action on_intent claim_attempt on_attempt on_facts
      on_commit on_duplicate fail_tx
  begin_open_error action attempt es s h = ground arith
