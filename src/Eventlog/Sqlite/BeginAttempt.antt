-- ===== src/Eventlog/Sqlite/BeginAttempt.antt =====
-- BeginAttempt of eventlog/sqlite/log.go against that of the memory log.
use atoha.Prelude.{
  ◌≡◌, refl, sym, ap, ◌∙◌, subst, Bool, true, false, Option, none, some, inl, inr, List, arith,
  str_eq_iff, if◌then◌else◌,
}
use atoha.Prelude.Lists.{All, all}
use atoha.Errors.{Error}
use atoha.Context.{Context}
use atoha.Core.Action.{Action, ExecutionAttempt}
use atoha.Core.Event.{ExecutionEvent}
use atoha.Eventlog.Memory
use atoha.Eventlog.Memory.{
  Map, Log, put, action_conflicts, claim, preflight, preflight_loop, append_prepared,
  matches_attempt,
}
use atoha.Eventlog.Memory.Append.{preflight-none_iff}
use atoha.Eventlog.Memory.Atomic.{MayBegin, MayBegin→claimed, begin_attempt_log}
use atoha.Eventlog.Memory.Invariant.{contains, as_set}
use atoha.Eventlog.Rows.{TimeText}
use atoha.Eventlog.Database.{Engine, Tables, IsDatabase}
use atoha.Eventlog.Sqlite.RoundTrip.{IsTimeText, IsStorable, IsStorableAction}
use atoha.Eventlog.Sqlite.Represents.{Represents}
use atoha.Eventlog.Sqlite.Appends.{append_events-Represents}
use atoha.Eventlog.Sqlite.AppendAll.{live}
use atoha.Eventlog.Sqlite.BeginAtomic.{begin_open_atomic}
use atoha.Eventlog.Sqlite.Beginning.{begin_error, begin_open}
use atoha.Eventlog.Sqlite.Claiming.{
  Claims, Repeats, Ran, after_action, after_attempt, begin_open-Ran,
}
use atoha.Eventlog.Sqlite.Intents.{Registers, Intent-Registers}
use atoha.Eventlog.Sqlite.Claimed.{
  preflight_loop-index, claimed_log, unclaimed, inserted_claim, inserted_repeat,
}

pub begin_error-none :
    (action : Action) (attempt : ExecutionAttempt) (es : List ExecutionEvent)
    → begin_error action attempt es ≡ none
    → (attempt.action_id ≡ action.id) × (all (matches_attempt attempt) es ≡ true)
unfolding begin_error
begin_error-none action attempt es h = ground (arith, str_eq_iff attempt.action_id action.id)

-- The memory log finds the attempt claimed, and changes nothing.
begin_attempt_repeat :
    (action : Action) (attempt : ExecutionAttempt) (es : List ExecutionEvent) (l : Log)
    → attempt.action_id ≡ action.id
    → action_conflicts (l.actions action.id) action ≡ false
    → l.attempts attempt.id ≡ some tt
    → Memory.begin_attempt live action attempt es l
      ≡ record { claimed = false; failure = none; log = l }
unfolding Memory.begin_attempt
begin_attempt_repeat action attempt es l same agrees h =
    ground (arith, str_eq_iff attempt.action_id action.id)

module _ {E : Engine} (D : IsDatabase E) {T : TimeText} (p : IsTimeText T) (ctx : Context)
    (action : Action) (attempt : ExecutionAttempt) (es : List ExecutionEvent) (s : E.State)
    (l : Log) where
  abbrev answered : Bool × Option Error × E.State
  answered = begin_open E T ctx action attempt es s

  abbrev inserted : E.State
  inserted = (after_action D T ctx action s).1

  -- The claim as the memory log makes it.
  record Agrees (n : Bool) (t : Tables) : Type 0 where
    no_failure : (Memory.begin_attempt live action attempt es l).failure ≡ none
    same_claim : (Memory.begin_attempt live action attempt es l).claimed ≡ n
    represents : Represents T t (Memory.begin_attempt live action attempt es l).log

  agreed :
      {n : Bool} {t : Tables}
      → Agrees n t
      → ((Memory.begin_attempt live action attempt es l).failure ≡ none)
        × ((Memory.begin_attempt live action attempt es l).claimed ≡ n)
        × Represents T t (Memory.begin_attempt live action attempt es l).log
  agreed a = (a.no_failure, a.same_claim, a.represents)

  module _ (r : Represents T (D.tables s) l) (st : All IsStorable es) (sa : IsStorableAction action)
      (ran : Ran D T ctx action attempt es s) where
    registers : Registers T (D.tables s) (D.tables inserted) l action
    registers = Intent-Registers D p ctx action s l r ran.intent

    may_begin :
        contains attempt.id l.attempt_order ≡ false
        → preflight l es ≡ none
        → MayBegin live action attempt es l
    may_begin free passes =
        let (same, all_match) = begin_error-none action attempt es ran.checked in
        record {
          live = refl;
          same_action_id = same;
          same_intent = registers.agrees;
          unclaimed = unclaimed r registers attempt free;
          all_match = all_match;
          passes = passes;
        }

    -- The claim of the engine is one of the memory log.
    Claims-Agrees :
        Claims D T ctx answered (after_attempt D T ctx attempt inserted) es
        → Agrees answered.0 (D.tables answered.2)
    unfolding claim preflight
    Claims-Agrees c =
        let (free, start) = inserted_claim D ctx r attempt inserted registers sa c.inserted in
        let (now, held) = append_events-Represents D p ctx es _ _ start st c.appended in
        let passes =
          preflight_loop-index l (claimed_log action attempt l) (λ k. none) es refl
          ∙ (preflight-none_iff (claimed_log action attempt l) es).1 held in
        let (claimed, no_failure) =
          MayBegin→claimed live action attempt es l (may_begin free passes) in
        let log =
          begin_attempt_log live action attempt es l
          ∙ ap (λ b. if b then claim action attempt es l else l) claimed in
        record {
          no_failure = no_failure;
          same_claim = claimed ∙ sym c.claimed;
          represents =
              subst (Represents T _) (sym log)
                (subst (λ t. Represents T t (claim action attempt es l)) (sym c.left) now);
        }

    Repeats-Agrees :
        Repeats D T ctx answered (after_attempt D T ctx attempt inserted)
        → Agrees answered.0 (D.tables answered.2)
    Repeats-Agrees c =
        let h = inserted_repeat D ctx r attempt inserted registers c.ignored in
        let again =
          begin_attempt_repeat action attempt es l
            ((begin_error-none action attempt es ran.checked).0) registers.agrees
            (r.consistent.claims attempt.id ∙ ap as_set h) in
        record {
          no_failure = ap (λ (b : Memory.Begun). b.failure) again;
          same_claim = ap (λ (b : Memory.Begun). b.claimed) again ∙ sym c.unclaimed;
          represents = subst (Represents T _) (sym (ap (λ (b : Memory.Begun). b.log) again)) (
              subst (λ t. Represents T t l)
                (sym (begin_open_atomic D T ctx action attempt es s c.unclaimed)) r);
        }

  -- From tables that represent a memory log, a call of BeginAttempt that returns no error claims
  -- exactly if the memory log does, which returns no error either, and leaves tables that represent
  -- the log that the memory log is left with. It is asked that the facts and the action are such
  -- that can be stored.
  pub begin_open-Represents :
      Represents T (D.tables s) l
      → All IsStorable es
      → IsStorableAction action
      → (begin_open E T ctx action attempt es s).1 ≡ none
      → ((Memory.begin_attempt live action attempt es l).failure ≡ none)
        × ((Memory.begin_attempt live action attempt es l).claimed
            ≡ (begin_open E T ctx action attempt es s).0)
        × Represents T
            (D.tables (begin_open E T ctx action attempt es s).2)
            (Memory.begin_attempt live action attempt es l).log
  begin_open-Represents r st sa h =
      let ran = begin_open-Ran D T ctx action attempt es s h in
      elim ran.ended [
        | inl c ↦ agreed (Claims-Agrees r st sa ran c)
        | inr c ↦ agreed (Repeats-Agrees r st sa ran c)
      ]
