-- ===== src/Execution/Filed.antt =====
-- Under which identities the builders of execution/events.go file their facts.
use atoha.Prelude.{
  String, ◌≡◌, refl, ℕ, true, Option, none, some, List, [], ◌∷◌, ◌++◌, arith, Bool-cases, inl, inr,
  str_eq_refl, subst,
}
use atoha.Prelude.Lists.{all}
use atoha.Instant.{Time}
use atoha.Errors.{ok, Error, ok_eq}
use atoha.Core.Action.{Action, ExecutionAttempt}
use atoha.Core.Outcome.{AdmissionStatus, DispatchStatus}
use atoha.Core.Event.{EventKind, ExecutionEvent, ExecutionEventSpec, new_execution_event}
use atoha.Core.Observation.{Observation}
use atoha.Core.Verification.{VerificationStatus, VerificationResult, same_verification}
use atoha.Core.Provider.{ResolvedTarget, DispatchResult}
use atoha.Projection.Replay.{related}
use atoha.Execution.Authorization.{RecoveryAuthorization}
use atoha.Execution.Payload.{Codec}
use atoha.Execution.Ports.{Ports}
use atoha.Execution.Events.{
  ◌>>=◌, bound_value, new_event, event_spec, action_requested_event, attempt_started_event,
  recovery_authorized_event, admission_event, not_dispatched_event, was_sent, effect_facts,
  dispatch_events,
}
use atoha.Execution.Evidence.{observation_event, assessment_events, verification_events}
use atoha.Execution.Attempt.{initial_events}

-- All facts are of the action, and of the attempt or none.
abbrev pub Filed : String → String → List ExecutionEvent → Type 0
Filed a t es = all (related a t) es ≡ true

pub Filed-append :
    (a t : String) (es fs : List ExecutionEvent)
    → Filed a t es
    → Filed a t fs
    → Filed a t (es ++ fs)
Filed-append a t [] fs h k = k
Filed-append a t (e ∷ es) fs h k = ground (arith, Filed-append a t es fs)

ids-new_execution_event :
    (spec : ExecutionEventSpec) {e : ExecutionEvent}
    → new_execution_event spec ≡ ok e
    → (e.action_id ≡ spec.action_id) × (e.attempt_id ≡ spec.attempt_id)
unfolding new_execution_event
ids-new_execution_event spec h = (ground arith, ground arith)

related-new_event :
    (codec : Codec) (a t : String) (kind : EventKind) (qualifier : List ℕ)
    (occurred_at recorded_at : Time) (bytes : List ℕ) {e : ExecutionEvent}
    → new_event codec a t kind qualifier occurred_at recorded_at bytes ≡ ok e
    → related a t e ≡ true
unfolding new_event related
related-new_event codec a t kind qualifier occurred_at recorded_at bytes h =
    let (p, q) =
      ids-new_execution_event (event_spec codec a t kind qualifier occurred_at recorded_at bytes)
        h in
    rw (p, q) (ground (arith, str_eq_refl a, str_eq_refl t))

module _ (codec : Codec) (action : Action) where
  module _ (attempt : ExecutionAttempt) (t : Time) where
    related-requested :
        {e : ExecutionEvent}
        → action_requested_event codec action attempt.id t ≡ ok e
        → related action.id attempt.id e ≡ true
    unfolding action_requested_event
    related-requested h =
        let (bytes, m, n) = bound_value _ _ h in related-new_event codec _ _ _ _ _ _ _ n

    related-started :
        {e : ExecutionEvent}
        → attempt_started_event codec action attempt t ≡ ok e
        → related action.id attempt.id e ≡ true
    unfolding attempt_started_event
    related-started h =
        let (bytes, m, n) = bound_value _ _ h in related-new_event codec _ _ _ _ _ _ _ n

    related-authorized :
        (a : RecoveryAuthorization) {e : ExecutionEvent}
        → recovery_authorized_event codec action attempt a t ≡ ok e
        → related action.id attempt.id e ≡ true
    unfolding recovery_authorized_event
    related-authorized a h =
        let (bytes, m, n) = bound_value _ _ h in related-new_event codec _ _ _ _ _ _ _ n

    pub Filed-admission :
        (s : AdmissionStatus) (x : Option Error) {e : ExecutionEvent}
        → admission_event codec action attempt s x t ≡ ok e
        → Filed action.id attempt.id (e ∷ [])
    unfolding admission_event
    Filed-admission s x h =
        let (bytes, m, n) = bound_value _ _ h in rw (related-new_event codec _ _ _ _ _ _ _ n) refl

    pub Filed-not_dispatched :
        (x : Option Error) {es : List ExecutionEvent}
        → (not_dispatched_event codec action attempt x t >>= (λ e. ok (e ∷ []))) ≡ ok es
        → Filed action.id attempt.id es
    unfolding not_dispatched_event
    Filed-not_dispatched x h =
        let (e, p, q) = bound_value _ _ h in
        let (bytes, m, n) = bound_value _ _ p in
        subst (Filed action.id attempt.id) (ok_eq q)
          (rw (related-new_event codec _ _ _ _ _ _ _ n) refl)

    Filed-effect :
        (s : DispatchStatus) (d : ExecutionEvent) {es : List ExecutionEvent}
        → related action.id attempt.id d ≡ true
        → effect_facts codec action attempt s t d ≡ ok es
        → Filed action.id attempt.id es
    unfolding effect_facts
    Filed-effect s d k h = elim (Bool-cases (was_sent s)) [
      | inl p ↦
          let (e, m, n) = bound_value _ _ (rw p at h) in
          subst (Filed action.id attempt.id) (ok_eq n)
            (rw (k, related-new_event codec _ _ _ _ _ _ _ m) refl)
      | inr p ↦ subst (Filed action.id attempt.id) (ok_eq (rw p at h)) (rw k refl)
    ]

    pub Filed-dispatch :
        (target : ResolvedTarget) (r : DispatchResult) (x : Option Error) {es : List ExecutionEvent}
        → dispatch_events codec action attempt target r x t ≡ ok es
        → Filed action.id attempt.id es
    unfolding dispatch_events
    Filed-dispatch target r x h =
        let (bytes, m, n) = bound_value _ _ h in
        let (d, m', n') = bound_value _ _ n in
        Filed-effect r.status d (related-new_event codec _ _ _ _ _ _ _ m') n'

  module _ (attempt_id : String) where
    pub related-observation :
        (o : Observation) {e : ExecutionEvent}
        → observation_event codec action attempt_id o ≡ ok e
        → related action.id attempt_id e ≡ true
    unfolding observation_event
    related-observation o h =
        let (bytes, m, n) = bound_value _ _ h in related-new_event codec _ _ _ _ _ _ _ n

    Filed-assessment :
        (r : VerificationResult) (x : Option Error) (t : Time) {es : List ExecutionEvent}
        → assessment_events codec action attempt_id r x t ≡ ok es
        → Filed action.id attempt_id es
    unfolding assessment_events
    Filed-assessment r x t h =
        let (e, m, n) = bound_value _ _ h in
        let (bytes, m', n') = bound_value _ _ n in
        let (f, m2, n2) = bound_value _ _ n' in
        subst (Filed action.id attempt_id) (ok_eq n2) (
          rw (related-new_event codec _ _ _ _ _ _ _ m, related-new_event codec _ _ _ _ _ _ _ m2)
            refl)

    pub Filed-verification :
        (r : VerificationResult) (x : Option Error) (t : Time) {es : List ExecutionEvent}
        → verification_events codec action attempt_id r x t ≡ ok es
        → Filed action.id attempt_id es
    unfolding verification_events
    Filed-verification r x t h =
        elim (Bool-cases (same_verification r.status VerificationStatus.unknown)) [
          | inr n ↦ Filed-assessment r x t (rw n at h)
          | inl y ↦ subst (Filed action.id attempt_id) (ok_eq (rw y at h)) refl
        ]

pub Filed-initial :
    (u : Ports) (action : Action) (attempt : ExecutionAttempt) (a : Option RecoveryAuthorization)
    (t : Time) {es : List ExecutionEvent}
    → initial_events u action attempt a t ≡ ok es
    → Filed action.id attempt.id es
unfolding initial_events
Filed-initial u action attempt none t h =
    let (r, m, n) = bound_value _ _ h in
    let (s, m', n') = bound_value _ _ n in
    subst (Filed action.id attempt.id) (ok_eq n') (
      rw (related-requested u.codec action attempt t m, related-started u.codec action attempt t m')
        refl)
Filed-initial u action attempt (some x) t h =
    let (r, m, n) = bound_value _ _ h in
    let (s, m', n') = bound_value _ _ n in
    let (z, m2, n2) = bound_value _ _ n' in
    subst (Filed action.id attempt.id) (ok_eq n2) (
      rw
        (
          related-requested u.codec action attempt t m,
          related-started u.codec action attempt t m',
          related-authorized u.codec action attempt t x m2,
        )
        refl)
