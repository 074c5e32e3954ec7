-- ===== src/Execution/VerifyNeutral.antt =====
-- What Verify (execution/verify.go) records, beside admission and dispatch.
use atoha.Prelude.{
  String, ◌≡◌, refl, subst, true, ◌||◌, Option, none, some, List, [], ◌∷◌, ◌++◌, arith, Bool-cases,
  inl, inr, str_eq,
}
use atoha.Prelude.Lists.{all}
use atoha.Instant.{Time}
use atoha.Errors.{Result, ok, err, Error, ok_eq}
use atoha.Context.{Context}
use atoha.Core.Action.{Action}
use atoha.Core.Observation.{Observation}
use atoha.Core.Verification.{VerificationStatus, VerificationResult, same_verification}
use atoha.Core.Event.{ExecutionEvent}
use atoha.Projection.Claims.{
  claims_of, claims_of-append, admission_view, dispatch_view, admission_clash, dispatch_clash,
}
use atoha.Execution.Ports.{Journal}
use atoha.Execution.Payload.{Codec}
use atoha.Execution.Events.{bound_value}
use atoha.Execution.Kinds.{kind-new_event}
use atoha.Execution.Evidence.{
  observation_event, verification_kind, effect_kind, assessment_events, verification_events,
}
use atoha.Execution.Assessed.{put_by, assessed_facts, assessed_facts-append}
use atoha.Execution.Verify.{
  VerifyWorld, called, record_facts, assess_stage, verify_stage, observe_stage, on_target,
  target_stage, on_verifiable, verify_attempt,
}
use atoha.Execution.Assessing.{
  VerifyPorts, VerifyInput, VerifyResult, VerifyCall, append_call, resolve_call, add_fact,
  observation_facts, add_assessment, verify_facts,
}
use atoha.Execution.Silence.{
  evidence_kind, is_evidence, union-Silent, Silent-claims_of, all_evidence-append,
}

module _ (codec : Codec) (action : Action) (attempt_id : String) where
  evidence-observation :
      (o : Observation) {e : ExecutionEvent}
      → observation_event codec action attempt_id o ≡ ok e
      → is_evidence e ≡ true
  unfolding observation_event evidence_kind
  evidence-observation o h =
      let (bytes, m, n) = bound_value _ _ h in rw (kind-new_event codec _ _ _ _ _ _ _ n) refl

  evidence-add_fact :
      (built : Option Error × List ExecutionEvent) (r : Result ExecutionEvent)
      → ((e : ExecutionEvent) → r ≡ ok e → is_evidence e ≡ true)
      → all is_evidence built.1 ≡ true
      → all is_evidence (add_fact built r).1 ≡ true
  unfolding add_fact
  evidence-add_fact built (err e) k h = h
  evidence-add_fact built (ok e) k h =
      all_evidence-append built.1 (e ∷ []) h (ground (arith, k e refl))

  evidence-observation_facts :
      (os : List Observation) (built : Option Error × List ExecutionEvent)
      → all is_evidence built.1 ≡ true
      → all is_evidence (observation_facts codec action attempt_id os built).1 ≡ true
  unfolding observation_facts
  evidence-observation_facts [] built h = h
  evidence-observation_facts (o ∷ os) built h = evidence-observation_facts os _ (
      evidence-add_fact built (observation_event codec action attempt_id o)
        (λ e. evidence-observation o) h)

  evidence-kinds :
      (s : VerificationStatus)
      → (evidence_kind (effect_kind s) ≡ true) × (evidence_kind (verification_kind s) ≡ true)
  unfolding evidence_kind effect_kind verification_kind
  evidence-kinds VerificationStatus.verified = (refl, refl)
  evidence-kinds VerificationStatus.unsatisfied = (refl, refl)
  evidence-kinds s = (refl, refl)

  evidence-assessment :
      (r : VerificationResult) (x : Option Error) (t : Time) {es : List ExecutionEvent}
      → assessment_events codec action attempt_id r x t ≡ ok es
      → all is_evidence es ≡ true
  unfolding assessment_events
  evidence-assessment r x t h =
      let (e, m, n') = bound_value _ _ h in
      let (bytes, m2, n2) = bound_value _ _ n' in
      let (f, m3, n3) = bound_value _ _ n2 in
      let k = kind-new_event codec _ _ _ _ _ _ _ m in
      let k' = kind-new_event codec _ _ _ _ _ _ _ m3 in
      let both = evidence-kinds r.status in
      subst (λ z. all is_evidence z ≡ true) (ok_eq n3) (rw (k, k', both.0, both.1) refl)

  evidence-verification :
      (r : VerificationResult) (x : Option Error) (t : Time) (es : List ExecutionEvent)
      → verification_events codec action attempt_id r x t ≡ ok es
      → all is_evidence es ≡ true
  unfolding verification_events
  evidence-verification r x t es h =
      elim (Bool-cases (same_verification r.status VerificationStatus.unknown)) [
        | inr n ↦ evidence-assessment r x t (rw n at h)
        | inl y ↦ subst (λ z. all is_evidence z ≡ true) (ok_eq (rw y at h)) refl
      ]

evidence-add_assessment :
    (built : Option Error × List ExecutionEvent) (r : Result (List ExecutionEvent))
    → all is_evidence built.1 ≡ true
    → ((es : List ExecutionEvent) → r ≡ ok es → all is_evidence es ≡ true)
    → all is_evidence (add_assessment built r).1 ≡ true
unfolding add_assessment
evidence-add_assessment built (err e) h k = h
evidence-add_assessment built (ok es) h k = all_evidence-append built.1 es h (k es refl)

evidence-put_by :
    (es : List ExecutionEvent) (e : Option Error)
    → all is_evidence es ≡ true
    → all is_evidence (put_by (append_call es e)) ≡ true
unfolding put_by
evidence-put_by es none h = h
evidence-put_by es (some e) h = refl

module _ (J : Journal) (u : VerifyPorts) (ctx : Context) (input : VerifyInput) where
  abbrev OnlyEvidence : VerifyWorld J → Type 0
  OnlyEvidence w = all is_evidence (assessed_facts w.calls) ≡ true

  OnlyEvidence-call :
      (cs : List VerifyCall) (c : VerifyCall)
      → all is_evidence (assessed_facts cs) ≡ true
      → all is_evidence (put_by c) ≡ true
      → all is_evidence (assessed_facts (cs ++ c ∷ [])) ≡ true
  OnlyEvidence-call cs c h k =
      rw (assessed_facts-append cs c) (all_evidence-append (assessed_facts cs) (put_by c) h k)

  OnlyEvidence-record_facts :
      (built : Option Error × List ExecutionEvent) (w : VerifyWorld J)
      → all is_evidence built.1 ≡ true
      → OnlyEvidence w
      → OnlyEvidence (record_facts J u ctx built w).1
  unfolding record_facts
  OnlyEvidence-record_facts (some e, facts) w b h = h
  OnlyEvidence-record_facts (none, []) w b h = h
  OnlyEvidence-record_facts (none, f ∷ fs) w b h =
      OnlyEvidence-call w.calls _ h (evidence-put_by (f ∷ fs) _ b)

  OnlyEvidence-observe_stage :
      (result : VerifyResult) (w : VerifyWorld J)
      → OnlyEvidence w
      → OnlyEvidence (observe_stage J u ctx input result w).2
  unfolding observe_stage verify_stage assess_stage verify_facts put_by
  OnlyEvidence-observe_stage result w h =
      OnlyEvidence-record_facts _ _
        (evidence-add_assessment _ _
          (evidence-observation_facts u.codec input.action input.attempt_id _ (none, []) refl)
          (evidence-verification u.codec input.action input.attempt_id _ _ _))
        (OnlyEvidence-call _ _ (OnlyEvidence-call w.calls _ h refl) refl)

  OnlyEvidence-on_target :
      (result : VerifyResult) (e : Option Error) (w : VerifyWorld J)
      → OnlyEvidence w
      → OnlyEvidence (on_target J u ctx input result e w).2
  unfolding on_target
  OnlyEvidence-on_target result (some e) w h = h
  OnlyEvidence-on_target result none w h = OnlyEvidence-observe_stage result w h

  OnlyEvidence-on_verifiable :
      (e : Option Error) (w : VerifyWorld J)
      → OnlyEvidence w
      → OnlyEvidence (on_verifiable J u ctx input e w).2
  unfolding on_verifiable target_stage put_by
  OnlyEvidence-on_verifiable (some e) w h = h
  OnlyEvidence-on_verifiable none w h =
      OnlyEvidence-on_target _ _ (called J u (resolve_call (u.resolve ctx input.action).1) w)
        (OnlyEvidence-call w.calls _ h refl)

  OnlyEvidence-verify_attempt :
      (w : VerifyWorld J) → OnlyEvidence w → OnlyEvidence (verify_attempt J u ctx input w).2
  unfolding verify_attempt
  OnlyEvidence-verify_attempt w h =
      elim (Bool-cases (str_eq input.attempt_id "" || str_eq input.action.id "")) [
        | inl p ↦ rw p h
        | inr p ↦ rw p (OnlyEvidence-on_verifiable _ w h)
      ]

  -- Whatever its ports return, the facts that Verify, begun with no call made, puts into the
  -- journal leave what any facts before them claim of admission and dispatch as it is.
  pub verify_attempt_keeps_dispatch :
      (w : VerifyWorld J) (before : List ExecutionEvent)
      → w.calls ≡ []
      → let c = claims_of before in
        let d = claims_of (before ++ assessed_facts (verify_attempt J u ctx input w).2.calls) in
        (admission_view d ≡ admission_view c)
        × (dispatch_view d ≡ dispatch_view c)
        × (admission_clash d ≡ admission_clash c)
        × (dispatch_clash d ≡ dispatch_clash c)
  unfolding assessed_facts
  verify_attempt_keeps_dispatch w before start =
      let fs = assessed_facts (verify_attempt J u ctx input w).2.calls in
      let s = Silent-claims_of fs (OnlyEvidence-verify_attempt w (rw start refl)) in
      rw (claims_of-append before fs) (union-Silent (claims_of before) (claims_of fs) s)
