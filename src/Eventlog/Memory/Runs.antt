-- ===== src/Eventlog/Memory/Runs.antt =====
-- Any sequence of calls. The mutex makes each call one step, so that concurrent callers are some
-- order of their calls.
use atoha.Prelude.{◌≡◌, sym, ap, ◌∙◌, Option-cases, Bool-cases, inl, inr, List, [], ◌∷◌, ◌++◌}
use mathlib.Core.List.{append_assoc, append-nil}
use atoha.Context.{Context}
use atoha.Core.Action.{Action, ExecutionAttempt}
use atoha.Core.Event.{ExecutionEvent}
use atoha.Eventlog.Memory.{Log, new, append_all, claim, begin_attempt}
use atoha.Eventlog.Memory.Append.{events-append_prepared}
use atoha.Eventlog.Memory.Atomic.{append_all_error, append_all_ok, begin_attempt_log}
use atoha.Eventlog.Memory.Invariant.{
  IsConsistent, new-IsConsistent, append_all-IsConsistent, begin_attempt-IsConsistent,
}

-- A call that may change the log.
pub data Call : Type 0 where
  begin : Context → Action → ExecutionAttempt → List ExecutionEvent → Call
  record_facts : Context → List ExecutionEvent → Call

unfoldable pub step : Log → Call → Log
step l (begin ctx action attempt es) = (begin_attempt ctx action attempt es l).log
step l (record_facts ctx es) = (append_all ctx es l).1

unfoldable pub run : Log → List Call → Log
unfolding step
run l [] = l
run l (c ∷ cs) = run (step l c) cs

step-IsConsistent : (l : Log) (c : Call) → IsConsistent l → IsConsistent (step l c)
unfolding step
step-IsConsistent l (begin ctx action attempt es) h =
    begin_attempt-IsConsistent ctx action attempt es l h
step-IsConsistent l (record_facts ctx es) h = append_all-IsConsistent ctx es l h

run_from-IsConsistent : (l : Log) (cs : List Call) → IsConsistent l → IsConsistent (run l cs)
unfolding run
run_from-IsConsistent l [] h = h
run_from-IsConsistent l (c ∷ cs) h = run_from-IsConsistent (step l c) cs (step-IsConsistent l c h)

-- After any calls on a new log, its index is that of its events, no two of which share an
-- identity, its set of claims is that of the claim order, which names none twice, and each action
-- stands at its identity.
pub run-IsConsistent : (cs : List Call) → IsConsistent (run new cs)
run-IsConsistent cs = run_from-IsConsistent new cs new-IsConsistent

-- The events of a log only grow at the end.
abbrev pub Extends : List ExecutionEvent → List ExecutionEvent → Type 0
Extends old now = (suffix : List ExecutionEvent) × (now ≡ old ++ suffix)

Extends-refl : (es : List ExecutionEvent) → Extends es es
Extends-refl es = ([], sym (append-nil es))

Extends-trans : (a b c : List ExecutionEvent) → Extends a b → Extends b c → Extends a c
Extends-trans a b c (s, p) (t, q) = (s ++ t, q ∙ ap (λ z. z ++ t) p ∙ append_assoc a s t)

events-claim :
    (action : Action) (attempt : ExecutionAttempt) (es : List ExecutionEvent) (l : Log)
    → Extends l.events (claim action attempt es l).events
unfolding claim
events-claim action attempt es l = events-append_prepared _ es

events-step : (l : Log) (c : Call) → Extends l.events (step l c).events
unfolding step
events-step l (begin ctx action attempt es) =
    elim (Bool-cases (begin_attempt ctx action attempt es l).claimed) [
      | inl p ↦ rw (begin_attempt_log ctx action attempt es l, p) (events-claim action attempt es l)
      | inr p ↦ rw (begin_attempt_log ctx action attempt es l, p) (Extends-refl l.events)
    ]
events-step l (record_facts ctx es) = elim (Option-cases (append_all ctx es l).0) [
  | inr (e, h) ↦ rw (append_all_error ctx es l h) (Extends-refl l.events)
  | inl h ↦ rw ((append_all_ok ctx es l h).2) (events-append_prepared l es)
]

-- Whatever calls follow, the events that were in the log stay at its front, unchanged and in
-- order.
pub run_append_only : (l : Log) (cs : List Call) → Extends l.events (run l cs).events
unfolding run
run_append_only l [] = Extends-refl l.events
run_append_only l (c ∷ cs) =
    Extends-trans l.events (step l c).events (run (step l c) cs).events (events-step l c)
      (run_append_only (step l c) cs)
