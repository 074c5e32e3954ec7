-- ===== src/Eventlog/Memory/Maps.antt =====
-- What the calls do to the claims and to the registered actions.
use atoha.Prelude.{
  ◌≡◌, refl, ap, ◌∙◌, Option-cases, Bool-cases, inl, inr, List, [], ◌∷◌, if◌then◌else◌,
}
use atoha.Context.{Context}
use atoha.Core.Action.{Action, ExecutionAttempt}
use atoha.Core.Event.{ExecutionEvent}
use atoha.Eventlog.Memory.{Log, put, append_one, append_prepared, append_all, claim, begin_attempt}
use atoha.Eventlog.Memory.Holding.{append_one_stored, append_one_new}
use atoha.Eventlog.Memory.Atomic.{append_all_error, append_all_ok, begin_attempt_log}

attempts-append_prepared :
    (l : Log) (es : List ExecutionEvent) → (append_prepared l es).attempts ≡ l.attempts
unfolding append_prepared
attempts-append_prepared l [] = refl
attempts-append_prepared l (e ∷ es) = elim (Option-cases (l.by_id e.id)) [
  | inl p ↦
      attempts-append_prepared (append_one l e) es
      ∙ ap (λ (z : Log). z.attempts) (append_one_new l e p)
  | inr (x, p) ↦
      attempts-append_prepared (append_one l e) es
      ∙ ap (λ (z : Log). z.attempts) (append_one_stored l e p)
]

actions-append_prepared :
    (l : Log) (es : List ExecutionEvent) → (append_prepared l es).actions ≡ l.actions
unfolding append_prepared
actions-append_prepared l [] = refl
actions-append_prepared l (e ∷ es) = elim (Option-cases (l.by_id e.id)) [
  | inl p ↦
      actions-append_prepared (append_one l e) es
      ∙ ap (λ (z : Log). z.actions) (append_one_new l e p)
  | inr (x, p) ↦
      actions-append_prepared (append_one l e) es
      ∙ ap (λ (z : Log). z.actions) (append_one_stored l e p)
]

-- The attempts and the actions after a call.
pub attempts-begin :
    (ctx : Context) (action : Action) (attempt : ExecutionAttempt) (es : List ExecutionEvent)
    (l : Log)
    → (begin_attempt ctx action attempt es l).log.attempts ≡ (
        if (begin_attempt ctx action attempt es l).claimed
        then put attempt.id tt l.attempts
        else l.attempts)
attempts-begin ctx action attempt es l =
    elim (Bool-cases (begin_attempt ctx action attempt es l).claimed) [
      | inl p ↦
          rw (begin_attempt_log ctx action attempt es l, p)
            (unfold claim in attempts-append_prepared _ es)
      | inr p ↦ rw (begin_attempt_log ctx action attempt es l, p) refl
    ]

pub actions-begin :
    (ctx : Context) (action : Action) (attempt : ExecutionAttempt) (es : List ExecutionEvent)
    (l : Log)
    → (begin_attempt ctx action attempt es l).log.actions ≡ (
        if (begin_attempt ctx action attempt es l).claimed
        then put action.id action l.actions
        else l.actions)
actions-begin ctx action attempt es l =
    elim (Bool-cases (begin_attempt ctx action attempt es l).claimed) [
      | inl p ↦
          rw (begin_attempt_log ctx action attempt es l, p)
            (unfold claim in actions-append_prepared _ es)
      | inr p ↦ rw (begin_attempt_log ctx action attempt es l, p) refl
    ]

pub attempts-append_all :
    (ctx : Context) (es : List ExecutionEvent) (l : Log)
    → (append_all ctx es l).1.attempts ≡ l.attempts
attempts-append_all ctx es l = elim (Option-cases (append_all ctx es l).0) [
  | inr (e, h) ↦ ap (λ (z : Log). z.attempts) (append_all_error ctx es l h)
  | inl h ↦
      ap (λ (z : Log). z.attempts) (append_all_ok ctx es l h).2 ∙ attempts-append_prepared l es
]

pub actions-append_all :
    (ctx : Context) (es : List ExecutionEvent) (l : Log)
    → (append_all ctx es l).1.actions ≡ l.actions
actions-append_all ctx es l = elim (Option-cases (append_all ctx es l).0) [
  | inr (e, h) ↦ ap (λ (z : Log). z.actions) (append_all_error ctx es l h)
  | inl h ↦ ap (λ (z : Log). z.actions) (append_all_ok ctx es l h).2 ∙ actions-append_prepared l es
]
