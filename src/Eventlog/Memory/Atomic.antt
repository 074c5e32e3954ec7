-- ===== src/Eventlog/Memory/Atomic.antt =====
-- AppendAll and BeginAttempt on each of their branches.
use atoha.Prelude.{
  ◌∙◌, if◌then◌else◌, ◌≡◌, ap, ◌↔◌, refl, true, false, Option, none, some, some_eq, List, [], ◌∷◌,
  arith, str_eq_iff,
}
use atoha.Prelude.Lists.{All, all}
use atoha.Errors.{Error}
use atoha.Context.{Context}
use atoha.Core.Action.{Action, ExecutionAttempt}
use atoha.Core.Event.{ExecutionEvent}
use atoha.Eventlog.Memory.{
  Log, preflight, append_prepared, append_all, action_conflicts, matches_attempt, claim,
  begin_attempt,
}
use atoha.Eventlog.Fact.{SameIntent, same_action→SameIntent, SameIntent→same_action}
use atoha.Eventlog.Memory.Append.{preflight-none_iff, append_prepared_of_Holds, preflight_of_Holds}
use atoha.Eventlog.Memory.Holding.{Holds, append_prepared-Holds}

-- An append that fails has changed nothing.
pub append_all_error :
    (ctx : Context) (es : List ExecutionEvent) (l : Log) {e : Error}
    → (append_all ctx es l).0 ≡ some e
    → (append_all ctx es l).1 ≡ l
unfolding append_all
append_all_error ctx es l h = ground arith

-- An append that returns no error has passed the check, and leaves the log with the batch.
pub append_all_ok :
    (ctx : Context) (es : List ExecutionEvent) (l : Log)
    → (append_all ctx es l).0 ≡ none
    → (ctx.err ≡ none) × (preflight l es ≡ none) × ((append_all ctx es l).1 ≡ append_prepared l es)
unfolding append_all
append_all_ok ctx es l h = ground arith

pub append_all_passes :
    (ctx : Context) (es : List ExecutionEvent) (l : Log)
    → ctx.err ≡ none
    → preflight l es ≡ none
    → append_all ctx es l ≡ (none, append_prepared l es)
unfolding append_all
append_all_passes ctx es l p q = rw (p, append_all) (rw q)

-- An append that succeeds puts each fact of its batch on record, and the same append once more
-- succeeds again and changes nothing.
pub append_all_idempotent :
    (ctx : Context) (es : List ExecutionEvent) (l : Log)
    → (append_all ctx es l).0 ≡ none
    → All (Holds (append_all ctx es l).1) es
      × (append_all ctx es (append_all ctx es l).1 ≡ (none, (append_all ctx es l).1))
append_all_idempotent ctx es l h =
    let (live, passed, after) = append_all_ok ctx es l h in
    let held = append_prepared-Holds l es passed in
    rw after (
      held,
      append_all_passes ctx es (append_prepared l es) live (preflight_of_Holds _ es held)
          ∙ ap (λ (m : Log). (none, m)) (append_prepared_of_Holds _ es held),
    )

-- What BeginAttempt asks for before it claims.
pub record MayBegin (ctx : Context) (action : Action) (attempt : ExecutionAttempt)
    (es : List ExecutionEvent) (l : Log) : Type 0 where
  pub live : ctx.err ≡ none
  pub same_action_id : attempt.action_id ≡ action.id
  pub same_intent : action_conflicts (l.actions action.id) action ≡ false
  pub unclaimed : l.attempts attempt.id ≡ none
  pub all_match : all (matches_attempt attempt) es ≡ true
  pub passes : preflight l es ≡ none

-- When an attempt may be claimed, in terms of the intents and the facts.
pub record IsClaimable (ctx : Context) (action : Action) (attempt : ExecutionAttempt)
    (es : List ExecutionEvent) (l : Log) : Type 0 where
  pub live : ctx.err ≡ none
  pub same_action_id : attempt.action_id ≡ action.id
  pub same_intent : (stored : Action) → l.actions action.id ≡ some stored → SameIntent stored action
  pub unclaimed : l.attempts attempt.id ≡ none
  pub of_attempt :
      All
        (λ (e : ExecutionEvent). (e.attempt_id ≡ attempt.id) × (e.action_id ≡ attempt.action_id))
        es
  -- No two of them, and none of them and the log, have one identity for two facts.
  pub agree : All (Holds (append_prepared l es)) es

no_conflict-SameIntent :
    (a : Action) (o : Option Action)
    → action_conflicts o a ≡ false
    → (stored : Action) → o ≡ some stored
    → SameIntent stored a
unfolding action_conflicts
no_conflict-SameIntent a none h stored q = cc
no_conflict-SameIntent a (some b) h stored q =
    same_action→SameIntent stored a (ground (arith, some_eq q))

SameIntent-no_conflict :
    (a : Action) (o : Option Action)
    → ((stored : Action) → o ≡ some stored → SameIntent stored a)
    → action_conflicts o a ≡ false
unfolding action_conflicts
SameIntent-no_conflict a none h = refl
SameIntent-no_conflict a (some b) h = rw (SameIntent→same_action b a (h b refl)) refl

all_match_iff :
    (attempt : ExecutionAttempt) (es : List ExecutionEvent)
    → (all (matches_attempt attempt) es ≡ true)
      ↔ All
          (λ (e : ExecutionEvent). (e.attempt_id ≡ attempt.id) × (e.action_id ≡ attempt.action_id))
          es
unfolding matches_attempt
all_match_iff attempt [] = (λ h. tt, λ h. refl)
all_match_iff attempt (e ∷ es) =
    let (to, from) = all_match_iff attempt es in
    let p = str_eq_iff e.attempt_id attempt.id in
    let q = str_eq_iff e.action_id attempt.action_id in
    (
      λ h. ((p.0 (ground arith), q.0 (ground arith)), to (ground arith)),
      λ h. rw (p.1 h.0.0, q.1 h.0.1, from h.1) refl,
    )

-- A claim changes the log by the claim, and a call that does not claim changes nothing.
pub begin_attempt_log :
    (ctx : Context) (action : Action) (attempt : ExecutionAttempt) (es : List ExecutionEvent)
    (l : Log)
    → (begin_attempt ctx action attempt es l).log
      ≡ (if (begin_attempt ctx action attempt es l).claimed then claim action attempt es l else l)
unfolding begin_attempt
begin_attempt_log ctx action attempt es l = ground arith

module _ (ctx : Context) (action : Action) (attempt : ExecutionAttempt) (es : List ExecutionEvent)
    (l : Log) where
  claimed→MayBegin :
      (begin_attempt ctx action attempt es l).claimed ≡ true → MayBegin ctx action attempt es l
  unfolding begin_attempt
  claimed→MayBegin h = ground (arith, str_eq_iff attempt.action_id action.id)

  pub MayBegin→claimed :
      MayBegin ctx action attempt es l
      → ((begin_attempt ctx action attempt es l).claimed ≡ true)
        × ((begin_attempt ctx action attempt es l).failure ≡ none)
  unfolding begin_attempt
  MayBegin→claimed h = ground (arith, str_eq_iff attempt.action_id action.id)

  MayBegin→IsClaimable : MayBegin ctx action attempt es l → IsClaimable ctx action attempt es l
  MayBegin→IsClaimable m = record {
    live = m.live;
    same_action_id = m.same_action_id;
    same_intent = no_conflict-SameIntent action (l.actions action.id) m.same_intent;
    unclaimed = m.unclaimed;
    of_attempt = (all_match_iff attempt es).0 m.all_match;
    agree = (preflight-none_iff l es).0 m.passes;
  }

  IsClaimable→MayBegin : IsClaimable ctx action attempt es l → MayBegin ctx action attempt es l
  IsClaimable→MayBegin c = record {
    live = c.live;
    same_action_id = c.same_action_id;
    same_intent = SameIntent-no_conflict action (l.actions action.id) c.same_intent;
    unclaimed = c.unclaimed;
    all_match = (all_match_iff attempt es).1 c.of_attempt;
    passes = (preflight-none_iff l es).1 c.agree;
  }

  -- BeginAttempt claims exactly if the context is live, the attempt is for the action, the
  -- action's identity stands for no other intent, the attempt is not claimed, the events are of
  -- the attempt and its action, and the log with them would have each of them under its identity.
  -- A call that claims returns no error, and one that does not claim changes nothing.
  pub begin_attempt-claimed_iff :
      (((begin_attempt ctx action attempt es l).claimed ≡ true)
        ↔ IsClaimable ctx action attempt es l)
      × ((begin_attempt ctx action attempt es l).claimed ≡ true
          → (begin_attempt ctx action attempt es l).failure ≡ none)
      × ((begin_attempt ctx action attempt es l).claimed ≡ false
          → (begin_attempt ctx action attempt es l).log ≡ l)
  begin_attempt-claimed_iff = (
    (
      λ h. MayBegin→IsClaimable (claimed→MayBegin h),
      λ c. (MayBegin→claimed (IsClaimable→MayBegin c)).0,
    ),
    λ h. (MayBegin→claimed (claimed→MayBegin h)).1,
    λ h. begin_attempt_log ctx action attempt es l ∙ rw h refl,
  )

  pub begin_attempt-MayBegin :
      (begin_attempt ctx action attempt es l).claimed ≡ true → MayBegin ctx action attempt es l
  begin_attempt-MayBegin = claimed→MayBegin

  pub begin_attempt_again :
      ctx.err ≡ none
      → {u : Unit} → l.attempts attempt.id ≡ some u
      → (begin_attempt ctx action attempt es l).claimed ≡ false
  unfolding begin_attempt
  begin_attempt_again c h = ground arith
