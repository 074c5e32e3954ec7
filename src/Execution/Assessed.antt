-- ===== src/Execution/Assessed.antt =====
-- What the facts that Verify (execution/verify.go) builds tell of the assessment.
use atoha.Prelude.{
  String, ◌≡◌, refl, sym, ap, subst, ◌∙◌, true, false, Option, none, some, List, [], ◌∷◌, ◌++◌,
  Bool-cases, inl, inr,
}
use mathlib.Core.List.{append_assoc, append-nil}
use atoha.Prelude.Lists.{all}
use atoha.Instant.{Time}
use atoha.Errors.{Result, ok, err, Error, join, ok_eq}
use atoha.Core.Action.{Action}
use atoha.Core.Observation.{Observation}
use atoha.Core.Verification.{
  VerificationStatus, VerificationResult, valid_verification, same_verification,
}
use atoha.Core.Event.{ExecutionEvent}
use atoha.Execution.Payload.{Codec}
use atoha.Execution.Events.{bound_value}
use atoha.Execution.Kinds.{kind-new_event}
use atoha.Execution.Evidence.{observation_event, assessment_events, verification_events}
use atoha.Execution.Assessing.{
  VerifyInput, VerifyCall, append_call, add_fact, observation_facts, add_assessment, verify_facts,
}
use atoha.Execution.Telling.{
  Tells, of_kind, is_observation, Tells-observations, all-append, Tells-pair, Tells-nothing,
}

module _ (codec : Codec) (action : Action) (attempt_id : String) where
  kind-observation :
      (o : Observation) {e : ExecutionEvent}
      → observation_event codec action attempt_id o ≡ ok e
      → is_observation e ≡ true
  unfolding observation_event of_kind
  kind-observation o h =
      let (bytes, m, n) = bound_value _ _ h in
      let k = kind-new_event codec _ _ _ _ _ _ _ n in rw k refl

  add_fact-observation :
      (built : Option Error × List ExecutionEvent) (r : Result ExecutionEvent)
      → ((e : ExecutionEvent) → r ≡ ok e → is_observation e ≡ true)
      → all is_observation built.1 ≡ true
      → all is_observation (add_fact built r).1 ≡ true
  unfolding add_fact
  add_fact-observation built (err e) k h = h
  add_fact-observation built (ok e) k h = all-append built.1 e h (k e refl)

  observation_facts-observation :
      (os : List Observation) (built : Option Error × List ExecutionEvent)
      → all is_observation built.1 ≡ true
      → all is_observation (observation_facts codec action attempt_id os built).1 ≡ true
  unfolding observation_facts
  observation_facts-observation [] built h = h
  observation_facts-observation (o ∷ os) built h = observation_facts-observation os _ (
      add_fact-observation built (observation_event codec action attempt_id o)
        (λ e. kind-observation o) h)

  Tells-assessment :
      (r : VerificationResult) (x : Option Error) (t : Time) {es : List ExecutionEvent}
      → valid_verification r.status ≡ true
      → same_verification r.status VerificationStatus.unknown ≡ false
      → assessment_events codec action attempt_id r x t ≡ ok es
      → Tells es r.status
  unfolding assessment_events
  Tells-assessment r x t v n h =
      let (e, m, n') = bound_value _ _ h in
      let (bytes, m2, n2) = bound_value _ _ n' in
      let (f, m3, n3) = bound_value _ _ n2 in
      let k = kind-new_event codec _ _ _ _ _ _ _ m in
      let k' = kind-new_event codec _ _ _ _ _ _ _ m3 in
      subst (λ z. Tells z r.status) (ok_eq n3) (Tells-pair e f r.status v n k k')

  -- The facts of an assessment tell it.
  Tells-verification :
      (r : VerificationResult) (x : Option Error) (t : Time) {es : List ExecutionEvent}
      → valid_verification r.status ≡ true
      → verification_events codec action attempt_id r x t ≡ ok es
      → Tells es r.status
  unfolding verification_events
  Tells-verification r x t v h =
      elim (Bool-cases (same_verification r.status VerificationStatus.unknown)) [
        | inr n ↦ Tells-assessment r x t v n (rw n at h)
        | inl y ↦ subst (λ z. Tells z r.status) (ok_eq (rw y at h)) (Tells-nothing r.status y)
      ]

-- Where the facts are built without an error, they tell the assessment.
Tells-add_assessment :
    (built : Option Error × List ExecutionEvent) (r : Result (List ExecutionEvent))
    {s : VerificationStatus}
    → all is_observation built.1 ≡ true
    → ((es : List ExecutionEvent) → r ≡ ok es → Tells es s)
    → (add_assessment built r).0 ≡ none
    → Tells (add_assessment built r).1 s
unfolding add_assessment join
Tells-add_assessment (some x, facts) (err e) h t n = cc
Tells-add_assessment (none, facts) (err e) h t n = cc
Tells-add_assessment built (ok es) h t n = Tells-observations built.1 es h (t es refl)

pub Tells-verify_facts :
    (codec : Codec) (input : VerifyInput) (os : List Observation) (r : VerificationResult)
    (x : Option Error) (t : Time)
    → valid_verification r.status ≡ true
    → (verify_facts codec input os r x t).0 ≡ none
    → Tells (verify_facts codec input os r x t).1 r.status
unfolding verify_facts
Tells-verify_facts codec input os r x t v n =
    Tells-add_assessment _ _
      (observation_facts-observation codec input.action input.attempt_id os (none, []) refl)
      (λ es. Tells-verification codec input.action input.attempt_id r x t v) n

-- The facts that a call put into the journal.
unfoldable pub put_by : VerifyCall → List ExecutionEvent
put_by (append_call es none) = es
put_by c = []

unfoldable pub assessed_facts : List VerifyCall → List ExecutionEvent
unfolding put_by
assessed_facts [] = []
assessed_facts (c ∷ cs) = put_by c ++ assessed_facts cs

pub assessed_facts-append :
    (cs : List VerifyCall) (c : VerifyCall)
    → assessed_facts (cs ++ c ∷ []) ≡ assessed_facts cs ++ put_by c
unfolding assessed_facts
assessed_facts-append [] c = append-nil (put_by c)
assessed_facts-append (d ∷ cs) c =
    ap (λ z. put_by d ++ z) (assessed_facts-append cs c)
    ∙ sym (append_assoc (put_by d) (assessed_facts cs) (put_by c))
