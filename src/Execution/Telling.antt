-- ===== src/Execution/Telling.antt =====
-- execution/events.go: what the facts of an assessment tell.
use atoha.Prelude.{◌≡◌, refl, ap, ◌∙◌, Bool, true, false, List, [], ◌∷◌, ◌++◌, arith}
use atoha.Prelude.Lists.{all}
use atoha.Core.Outcome.{EffectStatus}
use atoha.Core.Verification.{VerificationStatus, valid_verification, same_verification}
use atoha.Core.Event.{EventKind, ExecutionEvent, observation_recorded}
use atoha.Projection.Claims.{no_claims, add, union, claims_of, claims_of-cons, effect_view}
use atoha.Projection.Verdict.{last_verdict, is_inconclusive, settled}
use atoha.Execution.Evidence.{verification_kind, effect_kind}

-- The effect that an assessment establishes.
unfoldable pub effect_of : VerificationStatus → EffectStatus
effect_of VerificationStatus.verified = EffectStatus.observed_satisfied
effect_of VerificationStatus.unsatisfied = EffectStatus.observed_unsatisfied
effect_of VerificationStatus.inconclusive = EffectStatus.unverified
effect_of s = EffectStatus.unknown

-- The claims of the facts, and the last assessment among them, tell the assessment.
pub record Tells (es : List ExecutionEvent) (s : VerificationStatus) : Type 0 where
  pub verification : settled VerificationStatus.unknown es ≡ s
  pub effect : effect_view (claims_of es) ≡ effect_of s

unfoldable pub of_kind : EventKind → Bool
of_kind observation_recorded = true
of_kind k = false

abbrev pub is_observation : ExecutionEvent → Bool
is_observation e = of_kind e.kind

of_kind_eq : (k : EventKind) → of_kind k ≡ true → k ≡ EventKind.observation_recorded
unfolding of_kind
of_kind_eq observation_recorded h = refl
of_kind_eq k h = cc

settled-observation :
    (e : ExecutionEvent) (es : List ExecutionEvent)
    → e.kind ≡ EventKind.observation_recorded
    → settled VerificationStatus.unknown (e ∷ es) ≡ settled VerificationStatus.unknown es
unfolding last_verdict is_inconclusive
settled-observation e es k = ground (arith, k)

claims-observation :
    (e : ExecutionEvent) (es : List ExecutionEvent)
    → e.kind ≡ EventKind.observation_recorded
    → claims_of (e ∷ es) ≡ claims_of es
unfolding add
claims-observation e es k =
    claims_of-cons no_claims e es ∙ ap (λ z. union (add z no_claims) (claims_of es)) k

-- Observations before the facts change nothing of what these tell.
pub Tells-observations :
    (es fs : List ExecutionEvent) {s : VerificationStatus}
    → all is_observation es ≡ true
    → Tells fs s
    → Tells (es ++ fs) s
Tells-observations [] fs h t = t
Tells-observations (e ∷ es) fs h t =
    let k = of_kind_eq e.kind (ground arith) in
    let r = Tells-observations es fs (ground arith) t in
    record {
      verification = settled-observation e (es ++ fs) k ∙ r.verification;
      effect = ap effect_view (claims-observation e (es ++ fs) k) ∙ r.effect;
    }

pub all-append :
    (es : List ExecutionEvent) (e : ExecutionEvent)
    → all is_observation es ≡ true
    → is_observation e ≡ true
    → all is_observation (es ++ e ∷ []) ≡ true
all-append [] e h k = ground arith
all-append (x ∷ es) e h k = ground (arith, all-append es e)

-- Two facts of the kinds of an assessment tell it.
pub Tells-pair :
    (e f : ExecutionEvent) (s : VerificationStatus)
    → valid_verification s ≡ true
    → same_verification s VerificationStatus.unknown ≡ false
    → e.kind ≡ effect_kind s
    → f.kind ≡ verification_kind s
    → Tells (e ∷ f ∷ []) s
unfolding last_verdict is_inconclusive claims_of add effect_kind verification_kind effect_of
    valid_verification
Tells-pair e f VerificationStatus.verified v n k k' = record {
  verification = rw (k, k') refl;
  effect = rw (k, k') refl;
}
Tells-pair e f VerificationStatus.unsatisfied v n k k' = record {
  verification = rw (k, k') refl;
  effect = rw (k, k') refl;
}
Tells-pair e f VerificationStatus.inconclusive v n k k' = record {
  verification = rw (k, k') refl;
  effect = rw (k, k') refl;
}
Tells-pair e f VerificationStatus.unknown v n k k' = ground arith
Tells-pair e f (VerificationStatus.invalid m) v n k k' = cc

pub Tells-nothing :
    (s : VerificationStatus) → same_verification s VerificationStatus.unknown ≡ true → Tells [] s
unfolding last_verdict claims_of add effect_of
Tells-nothing VerificationStatus.unknown h = record { verification = refl; effect = refl }
Tells-nothing (VerificationStatus.invalid m) h = ground arith
Tells-nothing s h = cc
