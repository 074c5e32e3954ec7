-- ===== src/Eventlog/Sqlite/ReliableBegin.antt =====
-- BeginAttempt of eventlog/sqlite/log.go on a database that does not fail by itself: where the memory
-- log returns no error, it does not either.
use atoha.Prelude.{
  ℕ, zero, suc, ◌≡◌, refl, sym, ap, ◌∙◌, subst, true, false, none, some, inl, inr, List, arith, ◌⊎◌,
}
use atoha.Prelude.Lists.{All}
use atoha.Errors.{Result, ok, err}
use atoha.Instant.{utc}
use atoha.Core.Action.{Action, ExecutionAttempt}
use atoha.Core.Event.{ExecutionEvent}
use atoha.Eventlog.Fact.{same_action}
use atoha.Eventlog.Memory
use atoha.Eventlog.Memory.{Log, claim, preflight, append_prepared, action_conflicts}
use atoha.Eventlog.Memory.Append.{preflight-none_iff}
use atoha.Eventlog.Memory.Invariant.{contains, as_set}
use atoha.Eventlog.Rows.{TimeText, action_row, compare_intent, format_time}
use atoha.Eventlog.Database.{Engine, IsDatabase, insert_action}
use atoha.Eventlog.Sqlite.RoundTrip.{IsTimeText, IsStorable, IsStorableAction}
use atoha.Eventlog.Sqlite.Represents.{Represents, row_of}
use atoha.Eventlog.Sqlite.Opening.{Done}
use atoha.Eventlog.Sqlite.Appending.{append_events}
use atoha.Eventlog.Sqlite.AppendAll.{live}
use atoha.Eventlog.Sqlite.Beginning.{
  begin_error, on_commit, on_facts, on_duplicate, on_attempt, claim_attempt, on_intent,
  stored_intent, on_action, begin_in_tx, on_checked, begin_open,
}
use atoha.Eventlog.Sqlite.Claiming.{Intent, fresh, known, after_action}
use atoha.Eventlog.Sqlite.Intents.{Registers, Intent-Registers, inserted_known}
use atoha.Eventlog.Sqlite.Claimed.{claimed_log, preflight_loop-index, inserted_claim}
use atoha.Eventlog.Sqlite.Reliable.{IsReliable, by_count, append_events_succeeds}

compare_intent_same :
    (T : TimeText)
    → IsTimeText T
    → (a action : Action) → IsStorableAction a
    → same_action a action ≡ true
    → compare_intent T action (action_row T a) (T.parse (action_row T a).requested_at) ≡ none
unfolding compare_intent action_row format_time same_action utc
compare_intent_same T p a action s h =
    rw (p.parse-format a.requested_at s.requested, compare_intent) (ground arith)

begin_attempt-agrees :
    (action : Action) (attempt : ExecutionAttempt) (es : List ExecutionEvent) (l : Log)
    → (Memory.begin_attempt live action attempt es l).failure ≡ none
    → action_conflicts (l.actions action.id) action ≡ false
unfolding Memory.begin_attempt
begin_attempt-agrees action attempt es l h = ground arith

begin_attempt-passes :
    (action : Action) (attempt : ExecutionAttempt) (es : List ExecutionEvent) (l : Log)
    → (Memory.begin_attempt live action attempt es l).failure ≡ none
    → l.attempts attempt.id ≡ none
    → preflight l es ≡ none
unfolding Memory.begin_attempt
begin_attempt-passes action attempt es l h free = ground arith

module _ {E : Engine} (D : IsDatabase E) (R : IsReliable E D) {T : TimeText}
    (p : IsTimeText T) where
  on_facts_succeeds : (r : Done E) → r.0 ≡ none → (on_facts E T r).1 ≡ none
  unfolding on_facts on_commit
  on_facts_succeeds (none, s) h = rw (R.commits s, on_commit) refl
  on_facts_succeeds (some e, s) h = cc

  on_attempt_succeeds :
      (es : List ExecutionEvent) (r : Result ℕ × E.State)
      → ((r.0 ≡ ok 0) ⊎ ((n : ℕ) × (r.0 ≡ ok (suc n))))
      → ((n : ℕ) → r.0 ≡ ok (suc n) → (append_events E T live es r.1).0 ≡ none)
      → (on_attempt E T live es r).1 ≡ none
  unfolding on_attempt on_duplicate
  on_attempt_succeeds es (err e, s) (inl q) h = cc
  on_attempt_succeeds es (err e, s) (inr (n, q)) h = cc
  on_attempt_succeeds es (ok zero, s) c h = rw (R.rolls_back s, on_duplicate) refl
  on_attempt_succeeds es (ok (suc n), s) c h =
      on_facts_succeeds (append_events E T live es s) (h n refl)

  stored_intent_same :
      (action : Action) (s : E.State) (l : Log) {a : Action}
      → Represents T (D.tables s) l
      → l.actions action.id ≡ some a
      → same_action a action ≡ true
      → stored_intent E T action (E.select_action live action.id s) ≡ none
  unfolding stored_intent
  stored_intent_same action s l {a} r q h =
      let row = R.finds_action action.id s (r.actions action.id ∙ ap (row_of (action_row T)) q) in
      rw (row, stored_intent)
        (compare_intent_same T p a action (r.storable_actions action.id a q) h)

  agreeing :
      (action a : Action) (l : Log)
      → l.actions action.id ≡ some a
      → action_conflicts (l.actions action.id) action ≡ false
      → same_action a action ≡ true
  unfolding action_conflicts
  agreeing action a l q h = let k = rw (q, action_conflicts) at h in ground arith

  module _ (action : Action) (attempt : ExecutionAttempt) (es : List ExecutionEvent) (s : E.State)
      (l : Log) (r : Represents T (D.tables s) l) (st : All IsStorable es)
      (sa : IsStorableAction action)
      (agrees : action_conflicts (l.actions action.id) action ≡ false) where
    abbrev began : E.State
    began = (E.begin_tx live s).1

    start : Represents T (D.tables began) l
    start = subst (λ t. Represents T t l) (sym (D.tables-begin live s)) r

    -- The action is new, or known as the same intent.
    intent_holds : Intent D T live action (after_action D T live action s)
    intent_holds = elim (by_count (R.executes (insert_action (action_row T action)) began)) [
      | inr (n, g) ↦ fresh n g
      | inl g ↦
          let (a, q, same) = inserted_known D p live action began l start g in
          known g (
            stored_intent_same action _ l (subst (λ t. Represents T t l) same start) q
              (agreeing action a l q agrees))
    ]

    registered : Registers T (D.tables s) (D.tables (after_action D T live action s).1) l action
    registered = Intent-Registers D p live action s l r intent_holds

    claim_attempt_succeeds :
        (contains attempt.id l.attempt_order ≡ false → preflight l es ≡ none)
        → (claim_attempt E T live attempt es (after_action D T live action s).1).1 ≡ none
    unfolding claim_attempt preflight append_prepared
    claim_attempt_succeeds passes = on_attempt_succeeds es _ (by_count (R.executes _ _)) λ n g.
        let (free, now) = inserted_claim D live r attempt _ registered sa g in
        let passes' = preflight_loop-index l (claimed_log action attempt l) (λ k. none) es refl in
        append_events_succeeds D R p es _ (claimed_log action attempt l) now st
          ((preflight-none_iff (claimed_log action attempt l) es).0 (sym passes' ∙ passes free))

    on_action_succeeds :
        (contains attempt.id l.attempt_order ≡ false → preflight l es ≡ none)
        → (on_action E T live action attempt es (after_action D T live action s)).1 ≡ none
    unfolding on_action on_intent
    on_action_succeeds passes = elim intent_holds [
      | fresh n g ↦ rw (g, on_action) (claim_attempt_succeeds passes)
      | known g c ↦ rw (g, on_action, c, on_intent) (claim_attempt_succeeds passes)
    ]

  -- On a database that does not fail by itself, whose tables represent a memory log, a call of
  -- BeginAttempt with an action and facts that can be stored, the facts being of the attempt and
  -- the attempt of the action, returns no error if the memory log returns none.
  pub begin_open_succeeds :
      (action : Action) (attempt : ExecutionAttempt) (es : List ExecutionEvent) (s : E.State)
      (l : Log)
      → Represents T (D.tables s) l
      → All IsStorable es
      → IsStorableAction action
      → begin_error action attempt es ≡ none
      → (Memory.begin_attempt live action attempt es l).failure ≡ none
      → (begin_open E T live action attempt es s).1 ≡ none
  unfolding begin_open on_checked begin_in_tx
  begin_open_succeeds action attempt es s l r st sa checked h =
      let agrees = begin_attempt-agrees action attempt es l h in
      rw (checked, on_checked, R.begins s, begin_in_tx)
        (on_action_succeeds action attempt es s l r st sa agrees λ free.
          begin_attempt-passes action attempt es l h
            (r.consistent.claims attempt.id ∙ ap as_set free))
