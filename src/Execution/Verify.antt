-- ===== src/Execution/Verify.antt =====
-- execution/verify.go: observe and assess an attempt that exists.
use atoha.Prelude.{ℕ, ◌+◌, ◌||◌, Option, none, some, List, [], ◌∷◌, ◌++◌, str_eq, if◌then◌else◌}
use atoha.Instant.{Time, utc}
use atoha.Errors.{
  Error, sentinel, join, stage_error, validate, record_stage, resolve, observe, verify,
  invalid_input,
}
use atoha.Context.{Context, detached}
use atoha.Core.Observation.{Observation}
use atoha.Core.Event.{ExecutionEvent}
use atoha.Execution.Ports.{Journal}
use atoha.Execution.Recovery.{first_error}
use atoha.Execution.Assessing.{
  VerifyPorts, VerifyInput, VerifyResult, zero_verify, begun_verify, VerifyCall, facts_error,
  intent_error, assessed_error, verify_facts, resolve_call, observe_call, verify_call, append_call,
}

pub record VerifyWorld (J : Journal) : Type 0 where
  pub state : J.State
  pub ticks : ℕ
  pub calls : List VerifyCall

module _ (J : Journal) (u : VerifyPorts) where
  abbrev pub Verified : Type 0
  Verified = VerifyResult × Option Error × VerifyWorld J

  abbrev pub called : VerifyCall → VerifyWorld J → VerifyWorld J
  called c w = record w { calls = w.calls ++ c ∷ [] }

  -- `if buildErr == nil && len(facts) != 0`
  unfoldable pub record_facts :
      Context → Option Error × List ExecutionEvent → VerifyWorld J → Option Error × VerifyWorld J
  unfolding detached
  record_facts ctx (some e, facts) w = (none, w)
  record_facts ctx (none, []) w = (none, w)
  record_facts ctx (none, f ∷ fs) w =
      let (e, s) = J.append_all (detached ctx) (f ∷ fs) w.state in
      (e, record w { state = s; calls = w.calls ++ append_call (f ∷ fs) e ∷ [] })

  -- What follows Verify of the verifier: the facts are built and recorded.
  unfoldable pub assess_stage :
      Context
      → VerifyResult
      → Option Error
      → Option Error
      → Option Error × List ExecutionEvent
      → VerifyWorld J
      → Verified
  assess_stage ctx result observe_err verify_err built w =
      let (record_err, w') = record_facts ctx built w in
      (
        result,
        join (
            stage_error observe observe_err
            ∷ stage_error verify verify_err
            ∷ stage_error record_stage (join (built.0 ∷ record_err ∷ []))
            ∷ []),
        w',
      )

  -- The call of the verifier on what was observed.
  unfoldable pub verify_stage :
      Context
      → VerifyInput
      → VerifyResult
      → List Observation
      → Option Error
      → Time
      → VerifyWorld J
      → Verified
  verify_stage ctx input result observations observe_err checked_at w =
      let (verification, returned) = u.verify ctx input.action observations checked_at in
      let verify_err = assessed_error verification.status returned in
      assess_stage ctx
        (record result { observations = [] ++ observations; verification = verification })
        observe_err verify_err
        (verify_facts u.codec input observations verification verify_err checked_at)
        (called (verify_call verification.status returned) w)

  unfoldable pub observe_stage : Context → VerifyInput → VerifyResult → VerifyWorld J → Verified
  observe_stage ctx input result w =
      let (observations, observe_err) = u.observe ctx input.action result.target in
      verify_stage ctx input result observations observe_err (utc (u.now w.ticks))
        (called (observe_call observe_err) (record w { ticks = w.ticks + 1 }))

  -- `if err != nil`, after Resolve
  unfoldable pub on_target :
      Context → VerifyInput → VerifyResult → Option Error → VerifyWorld J → Verified
  on_target ctx input result (some e) w = (result, stage_error resolve (some e), w)
  on_target ctx input result none w = observe_stage ctx input result w

  unfoldable pub target_stage : Context → VerifyInput → VerifyWorld J → Verified
  target_stage ctx input w =
      let (target, resolve_err) = u.resolve ctx input.action in
      on_target ctx input (record (begun_verify input) { target = target }) resolve_err
        (called (resolve_call resolve_err) w)

  -- The reasons to return before the target is resolved, in the order of the code.
  unfoldable pub verify_error : Context → VerifyInput → J.State → Option Error
  verify_error ctx input s =
      let (events, events_err) = J.events_by_attempt ctx input.attempt_id s in
      let (stored, stored_err) = J.action_by_id ctx input.action.id s in
      first_error (stage_error record_stage events_err) (
        first_error (stage_error validate (facts_error input.action events)) (
          first_error (stage_error record_stage stored_err)
            (stage_error validate (intent_error input.action stored))))

  unfoldable pub on_verifiable : Context → VerifyInput → Option Error → VerifyWorld J → Verified
  on_verifiable ctx input (some e) w = (begun_verify input, some e, w)
  on_verifiable ctx input none w = target_stage ctx input w

  -- VerifyAttempt.Verify
  unfoldable pub verify_attempt : Context → VerifyInput → VerifyWorld J → Verified
  verify_attempt ctx input w =
      if str_eq input.attempt_id "" || str_eq input.action.id ""
      then (zero_verify, stage_error validate (some (sentinel invalid_input)), w)
      else on_verifiable ctx input (verify_error ctx input w.state) w
