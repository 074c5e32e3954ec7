-- ===== src/Eventlog/Memory/Intents.antt =====
-- The actions that are registered with the claims (eventlog/memory/log.go).
use atoha.Prelude.{
  ◌≡◌, sym, true, false, Option, none, some, Bool-cases, inl, inr, List, [], ◌∷◌, arith, str_eq,
  str_eq_iff, str_eq_refl, subst,
}
use atoha.Errors.{error_is, action_identity_conflict}
use atoha.Context.{Context}
use atoha.Core.Action.{Action, ExecutionAttempt}
use atoha.Core.Event.{ExecutionEvent}
use atoha.Eventlog.Fact.{same_action_join, same_action, same_action_refl}
use atoha.Eventlog.Memory.{Log, put, action_conflicts, begin_attempt}
use atoha.Eventlog.Memory.Atomic.{begin_attempt-MayBegin}
use atoha.Eventlog.Memory.Maps.{actions-begin, actions-append_all}
use atoha.Eventlog.Memory.Runs.{Call, begin, record_facts, step, run}

-- The log has the intent of `a` under its identity.
pub record Registered (l : Log) (a : Action) : Type 0 where
  pub stored : Action
  pub found : l.actions a.id ≡ some stored
  pub same : same_action stored a ≡ true

same_of_conflicts :
    {o : Option Action} (b : Action) {s : Action}
    → action_conflicts o b ≡ false
    → o ≡ some s
    → same_action s b ≡ true
unfolding action_conflicts
same_of_conflicts b c h = ground arith

module _ (ctx : Context) (b : Action) (attempt : ExecutionAttempt) (es : List ExecutionEvent)
    (l : Log) where
  begin-Registered :
      (a : Action) → Registered l a → Registered (begin_attempt ctx b attempt es l).log a
  unfolding put
  begin-Registered a r = elim (Bool-cases (begin_attempt ctx b attempt es l).claimed) [
    | inr p ↦ record {
      stored = r.stored;
      found = rw (actions-begin ctx b attempt es l, p) r.found;
      same = r.same;
    }
    | inl p ↦ elim (Bool-cases (str_eq b.id a.id)) [
      | inr other ↦ record {
        stored = r.stored;
        found = rw (actions-begin ctx b attempt es l, p) (ground (arith, r.found));
        same = r.same;
      }
      | inl eq ↦
          let i = (str_eq_iff b.id a.id).0 eq in
          let sb =
            same_of_conflicts b (begin_attempt-MayBegin ctx b attempt es l p).same_intent
              (subst (λ k. l.actions k ≡ some r.stored) (sym i) r.found) in
          record {
            stored = b;
            found = rw (actions-begin ctx b attempt es l, p) (ground arith);
            same = same_action_join r.stored b a sb r.same;
          }
    ]
  ]

  claim-Registered :
      (begin_attempt ctx b attempt es l).claimed ≡ true
      → Registered (begin_attempt ctx b attempt es l).log b
  unfolding put
  claim-Registered p = record {
    stored = b;
    found = rw (actions-begin ctx b attempt es l, p) (ground (arith, str_eq_refl b.id));
    same = same_action_refl b;
  }

step-Registered : (l : Log) (c : Call) (a : Action) → Registered l a → Registered (step l c) a
unfolding step
step-Registered l (begin ctx b attempt es) a r = begin-Registered ctx b attempt es l a r
step-Registered l (record_facts ctx es) a r = record {
  stored = r.stored;
  found = rw (actions-append_all ctx es l) r.found;
  same = r.same;
}

run-Registered : (l : Log) (cs : List Call) (a : Action) → Registered l a → Registered (run l cs) a
unfolding run
run-Registered l [] a r = r
run-Registered l (c ∷ cs) a r = run-Registered (step l c) cs a (step-Registered l c a r)

begin_conflict :
    (ctx : Context) (b : Action) (next : ExecutionAttempt) (es : List ExecutionEvent) (m : Log)
    → ctx.err ≡ none
    → next.action_id ≡ b.id
    → action_conflicts (m.actions b.id) b ≡ true
    → (error_is action_identity_conflict (begin_attempt ctx b next es m).failure ≡ true)
      × ((begin_attempt ctx b next es m).log ≡ m)
unfolding begin_attempt error_is
begin_conflict ctx b next es m live same c = ground (arith, str_eq_iff next.action_id b.id)

conflict_of_Registered :
    (m : Log) (a b : Action)
    → Registered m a
    → b.id ≡ a.id
    → same_action b a ≡ false
    → action_conflicts (m.actions b.id) b ≡ true
unfolding action_conflicts
conflict_of_Registered m a b r i d =
    rw (i, r.found) (ground (arith, same_action_join r.stored b a, r.same))

-- Once an attempt on an action is claimed, the log keeps the action's intent under its identity,
-- whatever calls follow.
pub claimed-Registered :
    (ctx : Context) (a : Action) (attempt : ExecutionAttempt) (es : List ExecutionEvent) (l : Log)
    (cs : List Call)
    → (begin_attempt ctx a attempt es l).claimed ≡ true
    → Registered (run (begin_attempt ctx a attempt es l).log cs) a
claimed-Registered ctx a attempt es l cs h =
    run-Registered (begin_attempt ctx a attempt es l).log cs a
      (claim-Registered ctx a attempt es l h)

-- Once an attempt on an action is claimed, and whatever calls follow, BeginAttempt with a live
-- context and an attempt that names the presented action refuses another intent under the
-- action's identity: the error is the identity conflict, and the log is unchanged.
pub other_intent_refused :
    (ctx : Context) (a : Action) (attempt : ExecutionAttempt) (es : List ExecutionEvent) (l : Log)
    (cs : List Call) (live : Context) (b : Action) (next : ExecutionAttempt)
    (fs : List ExecutionEvent)
    → (begin_attempt ctx a attempt es l).claimed ≡ true
    → live.err ≡ none
    → b.id ≡ a.id
    → same_action b a ≡ false
    → next.action_id ≡ b.id
    → let m = run (begin_attempt ctx a attempt es l).log cs in
      (error_is action_identity_conflict (begin_attempt live b next fs m).failure ≡ true)
      × ((begin_attempt live b next fs m).log ≡ m)
other_intent_refused ctx a attempt es l cs live b next fs h c i d n =
    let m = run (begin_attempt ctx a attempt es l).log cs in
    begin_conflict live b next fs m c n
      (conflict_of_Registered m a b (claimed-Registered ctx a attempt es l cs h) i d)
