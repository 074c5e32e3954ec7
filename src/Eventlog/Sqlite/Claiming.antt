-- ===== src/Eventlog/Sqlite/Claiming.antt =====
-- A call of BeginAttempt (eventlog/sqlite/log.go) that returns no error: which statements it ran,
-- and what they did.
use atoha.Prelude.{
  ℕ, zero, suc, ◌≡◌, refl, true, false, none, some, Option-cases, ◌⊎◌, inl, inr, List,
}
use atoha.Errors.{Result, ok, err}
use atoha.Context.{Context}
use atoha.Core.Action.{Action, ExecutionAttempt}
use atoha.Core.Event.{ExecutionEvent}
use atoha.Eventlog.Rows.{TimeText, action_row, attempt_row}
use atoha.Eventlog.Database.{Engine, IsDatabase, insert_action, insert_attempt}
use atoha.Eventlog.Sqlite.Opening.{Done}
use atoha.Eventlog.Sqlite.Appending.{append_events}
use atoha.Eventlog.Sqlite.Beginning.{
  Begun, fail_tx, on_commit, on_facts, on_duplicate, on_attempt, claim_attempt, on_intent,
  stored_intent, on_action, begin_in_tx, on_checked, begin_error, begin_open,
}

module _ {E : Engine} (D : IsDatabase E) (T : TimeText) (ctx : Context) where
  on_facts-none :
      (r : Done E)
      → (on_facts E T r).1 ≡ none
      → (r.0 ≡ none) × ((on_facts E T r).0 ≡ true) × (D.tables (on_facts E T r).2 ≡ D.tables r.1)
  unfolding on_facts on_commit fail_tx
  on_facts-none (some e, s) h = cc
  on_facts-none (none, s) h = elim (Option-cases (E.commit s).0) [
    | inl p ↦ (refl, rw (p, on_commit) refl, rw (p, on_commit) (D.tables-commit s p))
    | inr (e, p) ↦ let k = rw (p, on_commit) at h in cc
  ]

  on_duplicate-unclaimed : (r : Done E) → (on_duplicate E T r).0 ≡ false
  unfolding on_duplicate fail_tx
  on_duplicate-unclaimed (none, s) = refl
  on_duplicate-unclaimed (some e, s) = refl

  -- The row of the attempt was new, and its facts were appended and committed.
  pub record Claims (b : Begun E T) (r : Result ℕ × E.State) (es : List ExecutionEvent)
      : Type 0 where
    pub count : ℕ
    pub inserted : r.0 ≡ ok (suc count)
    pub appended : (append_events E T ctx es r.1).0 ≡ none
    pub claimed : b.0 ≡ true
    pub left : D.tables b.2 ≡ D.tables (append_events E T ctx es r.1).1

  -- There was such a row.
  pub record Repeats (b : Begun E T) (r : Result ℕ × E.State) : Type 0 where
    pub ignored : r.0 ≡ ok 0
    pub unclaimed : b.0 ≡ false

  on_attempt-none :
      (es : List ExecutionEvent) (r : Result ℕ × E.State)
      → (on_attempt E T ctx es r).1 ≡ none
      → Claims (on_attempt E T ctx es r) r es ⊎ Repeats (on_attempt E T ctx es r) r
  unfolding on_attempt fail_tx
  on_attempt-none es (err e, s) h = cc
  on_attempt-none es (ok zero, s) h =
      inr (record { ignored = refl; unclaimed = on_duplicate-unclaimed (E.rollback s) })
  on_attempt-none es (ok (suc n), s) h =
      let (appended, claimed, left) = on_facts-none (append_events E T ctx es s) h in
      inl
        (record { count = n; inserted = refl; appended = appended; claimed = claimed; left = left })

  abbrev pub after_attempt : ExecutionAttempt → E.State → Result ℕ × E.State
  after_attempt attempt s = E.exec ctx (insert_attempt (attempt_row T attempt)) s

  abbrev pub Ended : Begun E T → ExecutionAttempt → List ExecutionEvent → E.State → Type 0
  Ended b attempt es s = Claims b (after_attempt attempt s) es ⊎ Repeats b (after_attempt attempt s)

  claim_attempt-none :
      (attempt : ExecutionAttempt) (es : List ExecutionEvent) (s : E.State)
      → (claim_attempt E T ctx attempt es s).1 ≡ none
      → Ended (claim_attempt E T ctx attempt es s) attempt es s
  unfolding claim_attempt
  claim_attempt-none attempt es s h = on_attempt-none es (after_attempt attempt s) h

  -- The row of the action was new, or that of the same intent.
  pub data Intent (action : Action) (r : Result ℕ × E.State) : Type 0 where
    fresh : (n : ℕ) → r.0 ≡ ok (suc n) → Intent action r
    known :
        r.0 ≡ ok 0
        → stored_intent E T action (E.select_action ctx action.id r.1) ≡ none
        → Intent action r

  on_action-none :
      (action : Action) (attempt : ExecutionAttempt) (es : List ExecutionEvent)
      (r : Result ℕ × E.State)
      → (on_action E T ctx action attempt es r).1 ≡ none
      → Intent action r × Ended (on_action E T ctx action attempt es r) attempt es r.1
  unfolding on_action on_intent fail_tx
  on_action-none action attempt es (err e, s) h = cc
  on_action-none action attempt es (ok (suc n), s) h =
      (fresh n refl, claim_attempt-none attempt es s h)
  on_action-none action attempt es (ok zero, s) h =
      elim (Option-cases (stored_intent E T action (E.select_action ctx action.id s))) [
        | inr (e, p) ↦ let k = rw (p, on_intent) at h in cc
        | inl p ↦ (
          known refl p,
          rw (p, on_intent) (claim_attempt-none attempt es s (rw (p, on_intent) at h)),
        )
      ]

  abbrev pub after_action : Action → E.State → Result ℕ × E.State
  after_action action s = E.exec ctx (insert_action (action_row T action)) (E.begin_tx ctx s).1

  pub record Ran (action : Action) (attempt : ExecutionAttempt) (es : List ExecutionEvent)
      (s : E.State) : Type 0 where
    pub checked : begin_error action attempt es ≡ none
    pub intent : Intent action (after_action action s)
    pub ended : Ended (begin_open E T ctx action attempt es s) attempt es (after_action action s).1

  pub begin_open-Ran :
      (action : Action) (attempt : ExecutionAttempt) (es : List ExecutionEvent) (s : E.State)
      → (begin_open E T ctx action attempt es s).1 ≡ none
      → Ran action attempt es s
  unfolding begin_open on_checked begin_in_tx
  begin_open-Ran action attempt es s h = elim (Option-cases (begin_error action attempt es)) [
    | inr (e, p) ↦ let k = rw (p, on_checked) at h in cc
    | inl p ↦ elim (Option-cases (E.begin_tx ctx s).0) [
      | inr (e, q) ↦ let k = rw (p, on_checked, q, begin_in_tx) at h in cc
      | inl q ↦
          let (i, e) =
            on_action-none action attempt es (after_action action s)
              (rw (p, on_checked, q, begin_in_tx) at h) in
          record { checked = p; intent = i; ended = rw (p, on_checked, q, begin_in_tx) e }
    ]
  ]
