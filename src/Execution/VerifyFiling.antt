-- ===== src/Execution/VerifyFiling.antt =====
-- Under which identities Verify (execution/verify.go) files what it records.
use atoha.Prelude.{
  ◌≡◌, refl, subst, sym, ◌||◌, Option, none, some, List, [], ◌∷◌, ◌++◌, Bool-cases, inl, inr,
  str_eq,
}
use atoha.Instant.{Time}
use atoha.Errors.{Result, ok, err, Error}
use atoha.Context.{Context}
use atoha.Core.Observation.{Observation}
use atoha.Core.Verification.{VerificationResult}
use atoha.Core.Event.{ExecutionEvent}
use atoha.Execution.Payload.{Codec}
use atoha.Execution.Ports.{Journal}
use atoha.Execution.Evidence.{observation_event}
use atoha.Execution.Assessed.{put_by, assessed_facts, assessed_facts-append}
use atoha.Execution.Filed.{Filed, Filed-append, related-observation, Filed-verification}
use atoha.Execution.Verify.{
  VerifyWorld, record_facts, assess_stage, verify_stage, observe_stage, on_target, target_stage,
  on_verifiable, verify_attempt,
}
use atoha.Execution.Assessing.{
  VerifyPorts, VerifyInput, VerifyResult, VerifyCall, append_call, add_fact, observation_facts,
  add_assessment, verify_facts,
}

module _ (codec : Codec) (input : VerifyInput) where
  -- All facts are of the action and the attempt that are verified.
  abbrev pub OfInput : List ExecutionEvent → Type 0
  OfInput es = Filed input.action.id input.attempt_id es

  OfInput-add_fact :
      (built : Option Error × List ExecutionEvent) (r : Result ExecutionEvent)
      → ((e : ExecutionEvent) → r ≡ ok e → OfInput (e ∷ []))
      → OfInput built.1
      → OfInput (add_fact built r).1
  unfolding add_fact
  OfInput-add_fact built (err e) k h = h
  OfInput-add_fact built (ok e) k h = Filed-append _ _ built.1 (e ∷ []) h (k e refl)

  OfInput-observation_facts :
      (os : List Observation) (built : Option Error × List ExecutionEvent)
      → OfInput built.1
      → OfInput (observation_facts codec input.action input.attempt_id os built).1
  unfolding observation_facts
  OfInput-observation_facts [] built h = h
  OfInput-observation_facts (o ∷ os) built h = OfInput-observation_facts os _ (
      OfInput-add_fact built (observation_event codec input.action input.attempt_id o)
        (λ e q. rw (related-observation codec input.action input.attempt_id o q) refl) h)

  OfInput-add_assessment :
      (built : Option Error × List ExecutionEvent) (r : Result (List ExecutionEvent))
      → OfInput built.1
      → ((es : List ExecutionEvent) → r ≡ ok es → OfInput es)
      → OfInput (add_assessment built r).1
  unfolding add_assessment
  OfInput-add_assessment built (err e) h k = h
  OfInput-add_assessment built (ok es) h k = Filed-append _ _ built.1 es h (k es refl)

  pub OfInput-verify_facts :
      (os : List Observation) (r : VerificationResult) (x : Option Error) (t : Time)
      → OfInput (verify_facts codec input os r x t).1
  unfolding verify_facts
  OfInput-verify_facts os r x t =
      OfInput-add_assessment _ _ (OfInput-observation_facts os (none, []) refl)
        (λ es q. Filed-verification codec input.action input.attempt_id r x t q)

module _ (J : Journal) (u : VerifyPorts) (input : VerifyInput) where
  -- What has been put into the journal is all of the action and the attempt.
  abbrev Keeps : List VerifyCall → Type 0
  Keeps cs = Filed input.action.id input.attempt_id (assessed_facts cs)

  Keeps-call :
      (c : VerifyCall) (cs : List VerifyCall)
      → Keeps cs
      → Filed input.action.id input.attempt_id (put_by c)
      → Keeps (cs ++ c ∷ [])
  Keeps-call c cs h k =
      subst (Filed input.action.id input.attempt_id) (sym (assessed_facts-append cs c))
        (Filed-append _ _ (assessed_facts cs) (put_by c) h k)

  put_by-Filed :
      (es : List ExecutionEvent) (r : Option Error)
      → Filed input.action.id input.attempt_id es
      → Filed input.action.id input.attempt_id (put_by (append_call es r))
  unfolding put_by
  put_by-Filed es none h = h
  put_by-Filed es (some e) h = refl

  Keeps-record_facts :
      (ctx : Context) (built : Option Error × List ExecutionEvent) (w : VerifyWorld J)
      → Filed input.action.id input.attempt_id built.1
      → Keeps w.calls
      → Keeps (record_facts J u ctx built w).1.calls
  unfolding record_facts
  Keeps-record_facts ctx (some e, facts) w k h = h
  Keeps-record_facts ctx (none, []) w k h = h
  Keeps-record_facts ctx (none, f ∷ fs) w k h =
      Keeps-call (append_call (f ∷ fs) _) w.calls h (put_by-Filed (f ∷ fs) _ k)

  Keeps-on_target :
      (ctx : Context) (result : VerifyResult) (e : Option Error) (w : VerifyWorld J)
      → Keeps w.calls
      → Keeps (on_target J u ctx input result e w).2.calls
  unfolding on_target observe_stage verify_stage assess_stage put_by
  Keeps-on_target ctx result (some e) w h = h
  Keeps-on_target ctx result none w h =
      Keeps-record_facts ctx _ _ (OfInput-verify_facts u.codec input _ _ _ _)
        (Keeps-call _ _ (Keeps-call _ _ h refl) refl)

  Keeps-on_verifiable :
      (ctx : Context) (e : Option Error) (w : VerifyWorld J)
      → Keeps w.calls
      → Keeps (on_verifiable J u ctx input e w).2.calls
  unfolding on_verifiable target_stage put_by
  Keeps-on_verifiable ctx (some e) w h = h
  Keeps-on_verifiable ctx none w h = Keeps-on_target ctx _ _ _ (Keeps-call _ w.calls h refl)

  -- Whatever the ports return, begun with no call made.
  pub Filed-verify_attempt :
      (ctx : Context) (w : VerifyWorld J)
      → w.calls ≡ []
      → Filed input.action.id input.attempt_id
          (assessed_facts (verify_attempt J u ctx input w).2.calls)
  unfolding verify_attempt assessed_facts
  Filed-verify_attempt ctx w h =
      elim (Bool-cases (str_eq input.attempt_id "" || str_eq input.action.id "")) [
        | inl p ↦ rw (p, h) refl
        | inr p ↦ rw p (Keeps-on_verifiable ctx _ w (rw h refl))
      ]
