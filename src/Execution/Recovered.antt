-- ===== src/Execution/Recovered.antt =====
-- What RecoverAttempt (execution/recovery.go) returns: a new attempt at the action, of the previous one,
-- or nothing.
use atoha.Prelude.{
  String, ◌≡◌, ◌≢◌, refl, sym, ap, ◌∙◌, false, ◌⊎◌, none, some, arith, Option-cases, inl, inr,
  str_eq, str_eq_iff,
}
use atoha.Errors.{Result, ok, err, Error, stage_error, join}
use atoha.Context.{Context}
use atoha.Core.Action.{
  ExecutionAttempt, ExecutionAttemptSpec, new_execution_attempt, check_recovery,
}
use atoha.Execution.Ports.{Journal, Ports}
use atoha.Execution.Execute.{World, Done, clock, tick, on_attempt, execute}
use atoha.Execution.Attempt.{ExecuteInput, ExecuteResult, zero_result, attempt_spec}
use atoha.Execution.Naming.{SameAttempt-on_initial}
use atoha.Execution.Recovery.{RecoverInput, recovery_error, on_checked, recover_attempt}
use atoha.Execution.Recovering.{MayRecover, recovery_error-none_iff}

abbrev input_of : RecoverInput → ExecuteInput
input_of input = record { action = input.action; attempt_id = input.attempt_id }

-- The result is of a new attempt at the action, which names the previous attempt.
pub record IsRecovery (J : Journal) (ctx : Context) (input : RecoverInput) (s : J.State)
    (result : ExecuteResult) : Type 0 where
  pub may_recover : MayRecover J ctx input s
  pub action : result.action ≡ input.action
  pub id : result.attempt.id ≡ input.attempt_id
  pub of_action : result.attempt.action_id ≡ input.action.id
  pub recovery_of : result.attempt.recovery_of ≡ input.authorization.previous_attempt_id
  pub another : result.attempt.id ≢ input.authorization.previous_attempt_id

-- Nothing is done, and an error returned, for a recovery that may not be or an attempt that is not
-- valid.
pub record IsRefused (J : Journal) (u : Ports) (ctx : Context) (input : RecoverInput) (w : World J)
    (done : Done J u) : Type 0 where
  pub result : done.0 ≡ zero_result
  pub failure : done.1 ≢ none
  pub calls : done.2.calls ≡ w.calls
  pub state : done.2.state ≡ w.state
  pub reason :
      (¬ MayRecover J ctx input w.state)
      ⊎ ((e : Error) × (new_execution_attempt
              (attempt_spec (input_of input) (some input.authorization) (clock J u w))
            ≡ err e))

-- A valid attempt that recovers another is the one specified, and not that other one.
pub record IsValidRecovery (spec : ExecutionAttemptSpec) (attempt : ExecutionAttempt) : Type 0 where
  pub id : attempt.id ≡ spec.id
  pub action_id : attempt.action_id ≡ spec.action_id
  pub recovery_of : attempt.recovery_of ≡ spec.recovery_of
  pub another : str_eq spec.recovery_of spec.id ≡ false

check_recovery-another :
    (spec : ExecutionAttemptSpec)
    → str_eq spec.recovery_of "" ≡ false
    → check_recovery spec ≡ none
    → str_eq spec.recovery_of spec.id ≡ false
unfolding check_recovery
check_recovery-another spec n h = ground arith

new_execution_attempt-IsValidRecovery :
    (spec : ExecutionAttemptSpec) {attempt : ExecutionAttempt}
    → str_eq spec.recovery_of "" ≡ false
    → new_execution_attempt spec ≡ ok attempt
    → IsValidRecovery spec attempt
unfolding new_execution_attempt
new_execution_attempt-IsValidRecovery spec n h =
    let c : check_recovery spec ≡ none = ground arith in
    record {
      id = ground arith;
      action_id = ground arith;
      recovery_of = ground arith;
      another = check_recovery-another spec n c;
    }

differs : (a b : String) → str_eq a b ≡ false → b ≢ a
differs a b h q = let k = (str_eq_iff a b).1 (sym q) in cc

module _ (J : Journal) (u : Ports) (ctx : Context) (input : RecoverInput) (w : World J) where
  on_attempt-IsRecovery :
      (m : MayRecover J ctx input w.state) (r : Result ExecutionAttempt)
      → new_execution_attempt
          (attempt_spec (input_of input) (some input.authorization) (clock J u w))
        ≡ r
      → let done =
          on_attempt J u ctx
            (input_of input)
            (some input.authorization)
            (clock J u w)
            r
            (tick J u w) in
        IsRefused J u ctx input w done ⊎ IsRecovery J ctx input w.state done.0
  unfolding on_attempt stage_error join attempt_spec
  on_attempt-IsRecovery m (err e) q =
      inl (record {
        result = refl;
        failure = λ h. cc;
        calls = refl;
        state = refl;
        reason = inr (e, q);
      })
  on_attempt-IsRecovery m (ok attempt) q =
      let spec = attempt_spec (input_of input) (some input.authorization) (clock J u w) in
      let v = new_execution_attempt-IsValidRecovery spec m.names_previous q in
      let n =
        SameAttempt-on_initial J u ctx
          (record zero_result { action = input.action; attempt = attempt }) _ (tick J u w) in
      inr (record {
        may_recover = m;
        action = n.action;
        id = ap (λ (a : ExecutionAttempt). a.id) n.attempt ∙ v.id;
        of_action = ap (λ (a : ExecutionAttempt). a.action_id) n.attempt ∙ v.action_id;
        recovery_of = ap (λ (a : ExecutionAttempt). a.recovery_of) n.attempt ∙ v.recovery_of;
        another = λ h.
            differs _ _ v.another (sym (ap (λ (a : ExecutionAttempt). a.id) n.attempt ∙ v.id) ∙ h);
      })

  -- Recover either returns the zero result and an error, without a call of a port or a write, since
  -- what it asks for does not hold or the attempt to start is not valid; or what it asks for holds,
  -- and the result is of an attempt of the identity and the action asked for, which names the
  -- previous attempt as the one that it recovers and is another one.
  pub recover_attempt-IsRecovery :
      IsRefused J u ctx input w (recover_attempt J u ctx input w)
      ⊎ IsRecovery J ctx input w.state (recover_attempt J u ctx input w).0
  unfolding recover_attempt on_checked execute stage_error
  recover_attempt-IsRecovery = elim (Option-cases (recovery_error J u ctx input w.state)) [
    | inl p ↦
        rw p (on_attempt-IsRecovery ((recovery_error-none_iff J u ctx input w.state).0 p) _ refl)
    | inr (e, p) ↦ inl (record {
      result = rw p refl;
      failure = rw p (λ h. cc);
      calls = rw p refl;
      state = rw p refl;
      reason = inl (λ m. cc ((recovery_error-none_iff J u ctx input w.state).1 m));
    })
  ]
