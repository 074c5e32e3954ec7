-- ===== src/Projection.antt =====
-- projection/attempt.go: the view of one attempt, rebuilt from its facts.
pub mod Claims
pub mod Replay
pub mod Order
pub mod Verdict
use atoha.Prelude.{
  String, Bool, true, false, ◌&&◌, ◌||◌, not, Option, none, some, List, [], ◌∷◌, str_eq,
  if◌then◌else◌,
}
use atoha.Errors.{
  Result, ok, err, Error, sentinel, message, described, text, invalid_identity, unrelated_event,
}
use atoha.Core.Outcome.{
  AdmissionStatus, DispatchStatus, EffectStatus, same_admission, same_dispatch, same_effect,
  Outcome, new_outcome, outcome_or_zero,
}
use atoha.Core.Verification.{VerificationStatus, same_verification}
use atoha.Core.Event.{
  EventKind, ExecutionEvent, action_requested, attempt_started, recovery_authorized,
  action_admitted, action_rejected, dispatch_unknown, not_dispatched, action_dispatched,
  provider_acknowledged, observation_recorded, effect_unknown, effect_unverified,
  effect_observed_satisfied, effect_observed_unsatisfied, verification_verified,
  verification_unsatisfied, verification_inconclusive, other,
}

pub record Attempt : Type 0 where
  pub action_id : String
  pub attempt_id : String
  pub admission : AdmissionStatus
  pub dispatch : DispatchStatus
  pub effect : EffectStatus
  pub verification : VerificationStatus
  pub admission_conflicted : Bool
  pub dispatch_conflicted : Bool
  pub effect_conflicted : Bool

-- The fully unknown view.
abbrev pub blank : String → String → Attempt
blank action_id attempt_id = record {
  action_id = action_id;
  attempt_id = attempt_id;
  admission = AdmissionStatus.unknown;
  dispatch = DispatchStatus.unknown;
  effect = EffectStatus.unknown;
  verification = VerificationStatus.unknown;
  admission_conflicted = false;
  dispatch_conflicted = false;
  effect_conflicted = false;
}

unfoldable pub new_attempt : String → String → Result Attempt
new_attempt action_id attempt_id =
    if str_eq action_id "" || str_eq attempt_id ""
    then err (sentinel invalid_identity)
    else ok (blank action_id attempt_id)

unfoldable pub merge_admission : AdmissionStatus → Attempt → Attempt
merge_admission next p =
    if p.admission_conflicted
    then p
    else if same_admission p.admission AdmissionStatus.unknown || same_admission p.admission next
    then record p { admission = next }
    else record p { admission = AdmissionStatus.unknown; admission_conflicted = true }

unfoldable pub merge_dispatch : DispatchStatus → Attempt → Attempt
merge_dispatch next p =
    if p.dispatch_conflicted
    then p
    else if same_dispatch p.dispatch DispatchStatus.unknown || same_dispatch p.dispatch next
    then record p { dispatch = next }
    else if same_dispatch p.dispatch DispatchStatus.dispatched
        && same_dispatch next DispatchStatus.acknowledged
    then record p { dispatch = next }
    else if same_dispatch p.dispatch DispatchStatus.acknowledged
        && same_dispatch next DispatchStatus.dispatched
    then p
    else record p { dispatch = DispatchStatus.unknown; dispatch_conflicted = true }

unfoldable pub merge_effect : EffectStatus → Attempt → Attempt
merge_effect next p =
    if p.effect_conflicted
    then p
    else if same_effect p.effect EffectStatus.unknown
        || same_effect p.effect next
        || same_effect p.effect EffectStatus.unverified
    then record p { effect = next }
    else if same_effect next EffectStatus.unverified
    then p
    else record p { effect = EffectStatus.unknown; effect_conflicted = true }

-- The `switch` of Apply. No case has the kind of `other`.
unfoldable pub apply_kind : EventKind → Attempt → Attempt
unfolding merge_admission merge_dispatch merge_effect
apply_kind action_requested p = p
apply_kind attempt_started p = p
apply_kind recovery_authorized p = p
apply_kind observation_recorded p = p
apply_kind action_admitted p = merge_admission AdmissionStatus.admitted p
apply_kind action_rejected p =
    merge_dispatch DispatchStatus.not_dispatched (merge_admission AdmissionStatus.rejected p)
apply_kind dispatch_unknown p = p
apply_kind not_dispatched p = merge_dispatch DispatchStatus.not_dispatched p
apply_kind action_dispatched p = merge_dispatch DispatchStatus.dispatched p
apply_kind provider_acknowledged p = merge_dispatch DispatchStatus.acknowledged p
apply_kind effect_unknown p = p
apply_kind effect_unverified p = merge_effect EffectStatus.unverified p
apply_kind effect_observed_satisfied p = merge_effect EffectStatus.observed_satisfied p
apply_kind effect_observed_unsatisfied p = merge_effect EffectStatus.observed_unsatisfied p
apply_kind verification_verified p = record p { verification = VerificationStatus.verified }
apply_kind verification_unsatisfied p = record p { verification = VerificationStatus.unsatisfied }
apply_kind verification_inconclusive p =
    if same_verification p.verification VerificationStatus.unknown
    then record p { verification = VerificationStatus.inconclusive }
    else p
apply_kind (other s) p = p

-- Apply: the error, and the view after.
unfoldable pub apply : ExecutionEvent → Attempt → Option Error × Attempt
unfolding apply_kind
apply e p =
    if not (str_eq e.action_id p.action_id)
    then (
      some (described (sentinel unrelated_event) (message "action %s" (text e.action_id ∷ []))),
      p,
    )
    else if not (str_eq e.attempt_id "") && not (str_eq e.attempt_id p.attempt_id)
    then (
      some (described (sentinel unrelated_event) (message "attempt %s" (text e.attempt_id ∷ []))),
      p,
    )
    else (none, apply_kind e.kind p)

-- Attempt.Outcome
unfoldable pub outcome : Attempt → Outcome
unfolding new_outcome outcome_or_zero
outcome p =
    outcome_or_zero
      (new_outcome (record { admission = p.admission; dispatch = p.dispatch; effect = p.effect }))

-- Attempt.Conflicted
unfoldable pub conflicted : Attempt → Bool
conflicted p = p.admission_conflicted || p.dispatch_conflicted || p.effect_conflicted
