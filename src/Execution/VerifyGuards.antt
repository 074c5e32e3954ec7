-- ===== src/Execution/VerifyGuards.antt =====
-- When Verify (execution/verify.go) asks its ports, and what a return without an error says.
use atoha.Prelude.{
  ◌≡◌, ◌≢◌, refl, true, false, ◌||◌, Option, none, some, List, [], ◌∷◌, arith, Bool-cases,
  Option-cases, inl, inr, str_eq,
}
use atoha.Errors.{Error, join, stage_error, verify, record_stage, validate}
use atoha.Context.{Context}
use atoha.Core.Action.{Action}
use atoha.Core.Verification.{VerificationStatus, same_verification}
use atoha.Core.Event.{ExecutionEvent}
use atoha.Eventlog.Fact.{same_action}
use atoha.Execution.Ports.{Journal}
use atoha.Execution.Reading.{all_of_action}
use atoha.Execution.Recovery.{first_error}
use atoha.Execution.Verify.{
  VerifyWorld, assess_stage, verify_stage, observe_stage, on_target, target_stage, verify_error,
  on_verifiable, verify_attempt,
}
use atoha.Execution.Assessing.{
  VerifyPorts, VerifyInput, VerifyResult, facts_error, intent_error, assessed_error,
}

-- What Verify asks for before it resolves the target.
pub record MayVerify (J : Journal) (ctx : Context) (input : VerifyInput) (s : J.State)
    : Type 0 where
  pub named : str_eq input.attempt_id "" ≡ false
  pub of_an_action : str_eq input.action.id "" ≡ false
  -- The attempt has facts, all of the action.
  pub fact : ExecutionEvent
  pub facts : List ExecutionEvent
  pub events : J.events_by_attempt ctx input.attempt_id s ≡ (fact ∷ facts, none)
  pub of_action : all_of_action input.action.id (fact ∷ facts) ≡ true
  -- The journal has the same intent for the action.
  pub stored : Action
  pub found : J.action_by_id ctx input.action.id s ≡ (some stored, none)
  pub same : same_action stored input.action ≡ true

third-none : (a b c : Option Error) → join (a ∷ b ∷ c ∷ []) ≡ none → b ≡ none
unfolding join
third-none a none c h = refl
third-none none (some b) none h = cc
third-none none (some b) (some c) h = cc
third-none (some a) (some b) none h = cc
third-none (some a) (some b) (some c) h = cc

some-none : {e : Error} → some e ≡ none → ⊥
some-none h = cc

stage_error-none : (e : Option Error) → stage_error verify e ≡ none → e ≡ none
unfolding stage_error
stage_error-none none h = refl
stage_error-none (some e) h = cc

assessed_error-none :
    (s : VerificationStatus) (e : Option Error)
    → assessed_error s e ≡ none
    → same_verification s VerificationStatus.unknown ≡ false
unfolding assessed_error
assessed_error-none VerificationStatus.unknown none h = cc
assessed_error-none VerificationStatus.unknown (some e) h = cc
assessed_error-none VerificationStatus.verified e h = refl
assessed_error-none VerificationStatus.unsatisfied e h = refl
assessed_error-none VerificationStatus.inconclusive e h = refl
assessed_error-none (VerificationStatus.invalid n) e h = ground arith

module _ (J : Journal) (u : VerifyPorts) (ctx : Context) (input : VerifyInput) where
  observe_stage_assessed :
      (result : VerifyResult) (w : VerifyWorld J)
      → (observe_stage J u ctx input result w).1 ≡ none
      → same_verification
          (observe_stage J u ctx input result w).0.verification.status
          VerificationStatus.unknown
        ≡ false
  unfolding observe_stage verify_stage assess_stage
  observe_stage_assessed result w h =
      assessed_error-none _ _ (stage_error-none _ (third-none _ _ _ h))

  on_target_assessed :
      (result : VerifyResult) (e : Option Error) (w : VerifyWorld J)
      → (on_target J u ctx input result e w).1 ≡ none
      → same_verification
          (on_target J u ctx input result e w).0.verification.status
          VerificationStatus.unknown
        ≡ false
  unfolding on_target stage_error
  on_target_assessed result (some e) w h = cc
  on_target_assessed result none w h = observe_stage_assessed result w h

  on_verifiable_assessed :
      (e : Option Error) (w : VerifyWorld J)
      → (on_verifiable J u ctx input e w).1 ≡ none
      → same_verification
          (on_verifiable J u ctx input e w).0.verification.status
          VerificationStatus.unknown
        ≡ false
  unfolding on_verifiable target_stage
  on_verifiable_assessed (some e) w h = cc
  on_verifiable_assessed none w h = on_target_assessed _ _ _ h

  -- If Verify returns no error, it returns an assessment: its status is not unknown.
  pub verify_attempt_assessed :
      (w : VerifyWorld J)
      → (verify_attempt J u ctx input w).1 ≡ none
      → same_verification
          (verify_attempt J u ctx input w).0.verification.status
          VerificationStatus.unknown
        ≡ false
  unfolding verify_attempt stage_error
  verify_attempt_assessed w h =
      elim (Bool-cases (str_eq input.attempt_id "" || str_eq input.action.id "")) [
        | inl p ↦ absurd (some-none (rw p at h))
        | inr p ↦ rw p (on_verifiable_assessed _ w (rw p at h))
      ]

  may_verify :
      (s : J.State) (p : List ExecutionEvent × Option Error) (q : Option Action × Option Error)
      → str_eq input.attempt_id "" ≡ false
      → str_eq input.action.id "" ≡ false
      → J.events_by_attempt ctx input.attempt_id s ≡ p
      → J.action_by_id ctx input.action.id s ≡ q
      → first_error (stage_error record_stage p.1) (
          first_error (stage_error validate (facts_error input.action p.0)) (
            first_error
              (stage_error record_stage q.1)
              (stage_error validate (intent_error input.action q.0))))
        ≡ none
      → MayVerify J ctx input s
  unfolding first_error stage_error facts_error intent_error
  may_verify s (es, some e) q m n hp hq h = cc
  may_verify s ([], none) q m n hp hq h = cc
  may_verify s (e ∷ es, none) (o, some x) m n hp hq h = ground arith
  may_verify s (e ∷ es, none) (none, none) m n hp hq h = ground arith
  may_verify s (e ∷ es, none) (some a, none) m n hp hq h = record {
    named = m;
    of_an_action = n;
    fact = e;
    facts = es;
    events = hp;
    of_action = ground arith;
    stored = a;
    found = hq;
    same = ground arith;
  }

  -- Unless both identities are given, the attempt has facts, all of the action, the journal has the
  -- same intent for it, and both reads have no error, Verify returns an error and an unknown
  -- assessment, without a call of a port, a write or a reading of the clock.
  pub verify_attempt_refused :
      (w : VerifyWorld J)
      → ¬ MayVerify J ctx input w.state
      → ((verify_attempt J u ctx input w).1 ≢ none)
        × ((verify_attempt J u ctx input w).0.verification.status ≡ VerificationStatus.unknown)
        × ((verify_attempt J u ctx input w).2 ≡ w)
  unfolding verify_attempt stage_error verify_error on_verifiable
  verify_attempt_refused w n =
      elim (Bool-cases (str_eq input.attempt_id "" || str_eq input.action.id "")) [
        | inl p ↦ (rw p (λ h. cc), rw p refl, rw p refl)
        | inr p ↦ elim (Option-cases (verify_error J u ctx input w.state)) [
          | inl q ↦ absurd (n (may_verify w.state _ _ (ground arith) (ground arith) refl refl q))
          | inr (e, q) ↦ (rw (p, q) (λ h. cc), rw (p, q) refl, rw (p, q) refl)
        ]
      ]
