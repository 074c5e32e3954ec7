-- ===== src/Execution/VerifyRecords.antt =====
-- What Verify (execution/verify.go) returns, beside what it records.
use atoha.Prelude.{
  ◌+◌, ◌≡◌, refl, sym, ap, subst, ◌∙◌, true, false, ◌||◌, Option, none, some, List, [], ◌∷◌, ◌++◌,
  Bool-cases, inl, inr, str_eq,
}
use mathlib.Core.List.{append-nil}
use atoha.Instant.{Time}
use atoha.Errors.{Error, reports, record_stage, reports-join_third, join-none}
use atoha.Context.{Context}
use atoha.Core.Action.{Action}
use atoha.Core.Observation.{Observation}
use atoha.Core.Verification.{VerificationStatus, valid_verification}
use atoha.Core.Event.{ExecutionEvent}
use atoha.Core.Outcome.{Outcome}
use atoha.Projection.{blank, outcome}
use atoha.Projection.Replay.{replay, replay-claims}
use atoha.Execution.VerifyFiling.{Filed-verify_attempt}
use atoha.Projection.Verdict.{replay-settled}
use atoha.Execution.Ports.{Journal}
use atoha.Execution.Assessed.{Tells-verify_facts, put_by, assessed_facts, assessed_facts-append}
use atoha.Execution.Telling.{effect_of, Tells, Tells-nothing}
use atoha.Execution.Verify.{
  VerifyWorld, Verified, called, record_facts, assess_stage, verify_stage, observe_stage, on_target,
  target_stage, on_verifiable, verify_attempt,
}
use atoha.Execution.Assessing.{
  VerifyPorts, VerifyInput, VerifyResult, VerifyCall, observe_call, append_call,
}

-- The verifier's result has a status among the constants, as NewVerificationResult makes sure.
unfoldable pub AssessesValid : VerifyPorts → Type 0
AssessesValid u =
    (ctx : Context) (action : Action) (os : List Observation) (t : Time)
    → valid_verification (u.verify ctx action os t).0.status ≡ true

put_by-append_call :
    (es : List ExecutionEvent) (e : Option Error) → e ≡ none → put_by (append_call es e) ≡ es
unfolding put_by
put_by-append_call es e h = rw h refl

module _ (J : Journal) (u : VerifyPorts) where
  -- Nothing has been put on record before.
  abbrev Clean : VerifyWorld J → Type 0
  Clean w = assessed_facts w.calls ≡ []

  abbrev Told : Verified J u → Type 0
  Told d = Tells (assessed_facts d.2.calls) d.0.verification.status

  Clean-called :
      (c : VerifyCall) (w : VerifyWorld J) → put_by c ≡ [] → Clean w → Clean (called J u c w)
  Clean-called c w p h = assessed_facts-append w.calls c ∙ rw (h, p) refl

  calls-record_facts :
      (ctx : Context) (built : Option Error × List ExecutionEvent) (w : VerifyWorld J)
      → built.0 ≡ none
      → (record_facts J u ctx built w).0 ≡ none
      → assessed_facts (record_facts J u ctx built w).1.calls ≡ assessed_facts w.calls ++ built.1
  unfolding record_facts
  calls-record_facts ctx (some e, facts) w b r = cc
  calls-record_facts ctx (none, []) w b r = sym (append-nil (assessed_facts w.calls))
  calls-record_facts ctx (none, f ∷ fs) w b r =
      assessed_facts-append w.calls _
      ∙ ap (λ z. assessed_facts w.calls ++ z) (put_by-append_call (f ∷ fs) _ r)

  Told-assess_stage :
      (ctx : Context) (result : VerifyResult) (observe_err verify_err : Option Error)
      (built : Option Error × List ExecutionEvent) (w : VerifyWorld J)
      → Clean w
      → (built.0 ≡ none → Tells built.1 result.verification.status)
      → reports record_stage (assess_stage J u ctx result observe_err verify_err built w).1 ≡ false
      → Told (assess_stage J u ctx result observe_err verify_err built w)
  unfolding assess_stage
  Told-assess_stage ctx result observe_err verify_err built w clean tells h =
      let j = reports-join_third _ _ _ h in
      let (b, r) = join-none _ _ j in
      subst (λ z. Tells z result.verification.status)
        (sym (calls-record_facts ctx built w b r ∙ ap (λ z. z ++ built.1) clean)) (tells b)

  module _ (valid : AssessesValid u) where
    Told-observe_stage :
        (ctx : Context) (input : VerifyInput) (result : VerifyResult) (w : VerifyWorld J)
        → Clean w
        → reports record_stage (observe_stage J u ctx input result w).1 ≡ false
        → Told (observe_stage J u ctx input result w)
    unfolding observe_stage verify_stage put_by AssessesValid
    Told-observe_stage ctx input result w clean h =
        let observe_err = (u.observe ctx input.action result.target).1 in
        let w' : VerifyWorld J = record w { ticks = w.ticks + 1 } in
        let seen : VerifyWorld J = called J u (observe_call observe_err) w' in
        Told-assess_stage ctx _ _ _ _ _
          (Clean-called _ seen refl (Clean-called (observe_call observe_err) w' refl clean))
          (Tells-verify_facts u.codec input _ _ _ _ (valid ctx input.action _ _)) h

    Told-on_target :
        (ctx : Context) (input : VerifyInput) (result : VerifyResult) (e : Option Error)
        (w : VerifyWorld J)
        → result.verification.status ≡ VerificationStatus.unknown
        → Clean w
        → reports record_stage (on_target J u ctx input result e w).1 ≡ false
        → Told (on_target J u ctx input result e w)
    unfolding on_target
    Told-on_target ctx input result (some e) w k clean h = rw (clean, k) (Tells-nothing _ refl)
    Told-on_target ctx input result none w k clean h = Told-observe_stage ctx input result w clean h

    Told-on_verifiable :
        (ctx : Context) (input : VerifyInput) (e : Option Error) (w : VerifyWorld J)
        → Clean w
        → reports record_stage (on_verifiable J u ctx input e w).1 ≡ false
        → Told (on_verifiable J u ctx input e w)
    unfolding on_verifiable target_stage put_by
    Told-on_verifiable ctx input (some e) w clean h = rw clean (Tells-nothing _ refl)
    Told-on_verifiable ctx input none w clean h =
        Told-on_target ctx input _ _ _ refl (Clean-called _ w refl clean) h

    Told-verify_attempt :
        (ctx : Context) (input : VerifyInput) (w : VerifyWorld J)
        → Clean w
        → reports record_stage (verify_attempt J u ctx input w).1 ≡ false
        → Told (verify_attempt J u ctx input w)
    unfolding verify_attempt
    Told-verify_attempt ctx input w clean h =
        elim (Bool-cases (str_eq input.attempt_id "" || str_eq input.action.id "")) [
          | inl p ↦ rw (p, clean) (Tells-nothing _ refl)
          | inr p ↦ rw p (Told-on_verifiable ctx input _ w clean (rw p at h))
        ]

-- Whatever the journal, the resolver and the observer return, and whatever a verifier returns with
-- a status among the constants: unless the error of Verify, begun with no call made, reports
-- that a record failed, the facts that it put into the journal, replayed on the blank view of its
-- action and attempt, fail nowhere and give just the verification status that it returns, and the
-- effect that this status establishes.
pub verify_attempt_recorded :
    (J : Journal) (u : VerifyPorts)
    → AssessesValid u
    → (ctx : Context) (input : VerifyInput) (w : VerifyWorld J) → w.calls ≡ []
    → reports record_stage (verify_attempt J u ctx input w).1 ≡ false
    → let r =
        replay
          (assessed_facts (verify_attempt J u ctx input w).2.calls)
          (blank input.action.id input.attempt_id) in
      let status = (verify_attempt J u ctx input w).0.verification.status in
      (r.0 ≡ none) × (r.1.verification ≡ status) × ((outcome r.1).effect ≡ effect_of status)
unfolding assessed_facts
verify_attempt_recorded J u valid ctx input w start h =
    let t = Told-verify_attempt J u valid ctx input w (rw start refl) h in
    let filed = Filed-verify_attempt J u input ctx w start in
    let c = replay-claims input.action.id input.attempt_id _ filed in
    (
      c.0,
      replay-settled _ (blank input.action.id input.attempt_id) filed ∙ t.verification,
      ap (λ (o : Outcome). o.effect) c.1 ∙ t.effect,
    )
