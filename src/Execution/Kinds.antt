-- ===== src/Execution/Kinds.antt =====
-- The kinds of the facts that the builders of execution/events.go make.
use atoha.Prelude.{
  Bool-cases, inl, inr, ◌∙◌, ◌≡◌, ap, String, ℕ, Option, none, some, List, [], ◌∷◌, map, arith,
  if◌then◌else◌,
}
use atoha.Prelude.Text.{codes}
use atoha.Instant.{Time}
use atoha.Errors.{ok, Error}
use atoha.Core.Action.{Action, ExecutionAttempt}
use atoha.Core.Outcome.{AdmissionStatus, DispatchStatus}
use atoha.Core.Event.{EventKind, ExecutionEvent, ExecutionEventSpec, new_execution_event}
use atoha.Core.Provider.{ResolvedTarget, DispatchResult}
use atoha.Execution.Authorization.{RecoveryAuthorization}
use atoha.Execution.Payload.{Codec}
use atoha.Execution.Ports.{Ports}
use atoha.Execution.Events.{
  ◌>>=◌, bound_value, new_event, event_spec, action_requested_event, attempt_started_event,
  recovery_authorized_event, admission_kind, admission_event, not_dispatched_event, dispatch_kind,
  was_sent, effect_facts, dispatch_events,
}
use atoha.Execution.Attempt.{initial_events}

abbrev pub kinds : List ExecutionEvent → List EventKind
kinds = map (λ (e : ExecutionEvent). e.kind)

-- An event has the kind of its specification.
pub kind-new_execution_event :
    (spec : ExecutionEventSpec) {e : ExecutionEvent}
    → new_execution_event spec ≡ ok e
    → e.kind ≡ spec.kind
unfolding new_execution_event
kind-new_execution_event spec h = ground arith

pub kind-new_event :
    (codec : Codec) (action_id attempt_id : String) (kind : EventKind) (qualifier : List ℕ)
    (occurred_at recorded_at : Time) (bytes : List ℕ) {e : ExecutionEvent}
    → new_event codec action_id attempt_id kind qualifier occurred_at recorded_at bytes ≡ ok e
    → e.kind ≡ kind
unfolding new_event
kind-new_event codec action_id attempt_id kind qualifier occurred_at recorded_at bytes h =
    kind-new_execution_event
      (event_spec codec action_id attempt_id kind qualifier occurred_at recorded_at bytes) h

module _ (codec : Codec) (action : Action) (attempt : ExecutionAttempt) (t : Time) where
  kind-requested :
      (id : String) {e : ExecutionEvent}
      → action_requested_event codec action id t ≡ ok e
      → e.kind ≡ EventKind.action_requested
  unfolding action_requested_event
  kind-requested id h =
      let (bytes, m, n) = bound_value _ _ h in kind-new_event codec _ _ _ _ _ _ _ n

  kind-started :
      {e : ExecutionEvent}
      → attempt_started_event codec action attempt t ≡ ok e
      → e.kind ≡ EventKind.attempt_started
  unfolding attempt_started_event
  kind-started h = let (bytes, m, n) = bound_value _ _ h in kind-new_event codec _ _ _ _ _ _ _ n

  kind-authorized :
      (a : RecoveryAuthorization) {e : ExecutionEvent}
      → recovery_authorized_event codec action attempt a t ≡ ok e
      → e.kind ≡ EventKind.recovery_authorized
  unfolding recovery_authorized_event
  kind-authorized a h =
      let (bytes, m, n) = bound_value _ _ h in kind-new_event codec _ _ _ _ _ _ _ n

  pub kind-admission :
      (s : AdmissionStatus) (x : Option Error) {e : ExecutionEvent}
      → admission_event codec action attempt s x t ≡ ok e
      → e.kind ≡ admission_kind s
  unfolding admission_event
  kind-admission s x h =
      let (bytes, m, n) = bound_value _ _ h in kind-new_event codec _ _ _ _ _ _ _ n

  pub kinds-not_dispatched :
      (x : Option Error) {es : List ExecutionEvent}
      → (not_dispatched_event codec action attempt x t >>= (λ e. ok (e ∷ []))) ≡ ok es
      → kinds es ≡ EventKind.not_dispatched ∷ []
  unfolding not_dispatched_event
  kinds-not_dispatched x h =
      let (e, p, q) = bound_value _ _ h in
      let (bytes, m, n) = bound_value _ _ p in
      let k = kind-new_event codec _ _ _ _ _ _ _ n in ground (arith, k)

  kind-effect :
      {e : ExecutionEvent}
      → new_event codec action.id attempt.id EventKind.effect_unverified (codes "dispatch") t t []
        ≡ ok e
      → e.kind ≡ EventKind.effect_unverified
  kind-effect h = kind-new_event codec _ _ _ _ _ _ _ h

  kinds-effect :
      (s : DispatchStatus) (d : ExecutionEvent) {es : List ExecutionEvent}
      → effect_facts codec action attempt s t d ≡ ok es
      → kinds es ≡ d.kind ∷ (if was_sent s then EventKind.effect_unverified ∷ [] else [])
  unfolding effect_facts
  kinds-effect s d h = elim (Bool-cases (was_sent s)) [
    | inl p ↦
        let (e, m, n) = bound_value _ _ (rw p at h) in
        let k = kind-effect m in rw p (ground (arith, k, n))
    | inr p ↦ rw p (ground arith)
  ]

  pub kinds-dispatch :
      (target : ResolvedTarget) (r : DispatchResult) (x : Option Error) {es : List ExecutionEvent}
      → dispatch_events codec action attempt target r x t ≡ ok es
      → kinds es
        ≡ dispatch_kind r.status
          ∷ (if was_sent r.status then EventKind.effect_unverified ∷ [] else [])
  unfolding dispatch_events
  kinds-dispatch target r x h =
      let (bytes, m, n) = bound_value _ _ h in
      let (d, m', n') = bound_value _ _ n in
      let k = kind-new_event codec _ _ _ _ _ _ _ m' in
      kinds-effect r.status d n'
      ∙ ap (λ z. z ∷ (if was_sent r.status then EventKind.effect_unverified ∷ [] else [])) k

-- The kinds of the initial facts: none of them bears on the outcome.
pub kinds-initial :
    (u : Ports) (action : Action) (attempt : ExecutionAttempt) (a : Option RecoveryAuthorization)
    (t : Time) {es : List ExecutionEvent}
    → initial_events u action attempt a t ≡ ok es
    → kinds es ≡ (
        EventKind.action_requested
        ∷ EventKind.attempt_started
        ∷ (elim a [ none ↦ [] | some x ↦ EventKind.recovery_authorized ∷ [] ]))
unfolding initial_events
kinds-initial u action attempt none t h =
    let (r, m, n) = bound_value _ _ h in
    let (s, m', n') = bound_value _ _ n in
    let k = kind-requested u.codec action attempt t _ m in
    let k' = kind-started u.codec action attempt t m' in ground (arith, k, k', n')
kinds-initial u action attempt (some x) t h =
    let (r, m, n) = bound_value _ _ h in
    let (s, m', n') = bound_value _ _ n in
    let (z, m2, n2) = bound_value _ _ n' in
    let k = kind-requested u.codec action attempt t _ m in
    let k' = kind-started u.codec action attempt t m' in
    let k2 = kind-authorized u.codec action attempt t x m2 in ground (arith, k, k', k2, n2)
