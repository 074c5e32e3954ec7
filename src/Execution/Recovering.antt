-- ===== src/Execution/Recovering.antt =====
-- When RecoverAttempt (execution/recovery.go) starts an attempt.
use atoha.Prelude.{
  ◌≡◌, ◌↔◌, refl, true, false, ◌||◌, not, Option, none, some, List, [], ◌∷◌, arith, str_eq,
  str_eq_iff, Option-cases, inl, inr, if◌then◌else◌,
}
use atoha.Errors.{Error, join, sentinel, recovery_not_authorized, recover, reports, stage_error}
use atoha.Context.{Context}
use atoha.Core.Action.{Action}
use atoha.Core.Event.{ExecutionEvent}
use atoha.Eventlog.Fact.{same_action}
use atoha.Execution.Ports.{Journal, Ports}
use atoha.Execution.Execute.{World}
use atoha.Execution.Attempt.{zero_result}
use atoha.Execution.Reading.{all_of_action}
use atoha.Execution.Recovery.{
  RecoverInput, previous_error, stored_error, first_error, recovery_error, on_checked,
  recover_attempt,
}

-- What Recover asks for before it starts an attempt.
pub record MayRecover (J : Journal) (ctx : Context) (input : RecoverInput) (s : J.State)
    : Type 0 where
  pub names_action : input.authorization.action_id ≡ input.action.id
  pub names_previous : str_eq input.authorization.previous_attempt_id "" ≡ false
  -- The previous attempt has facts, all of the action.
  pub fact : ExecutionEvent
  pub facts : List ExecutionEvent
  pub previous :
      J.events_by_attempt ctx input.authorization.previous_attempt_id s ≡ (fact ∷ facts, none)
  pub of_action : all_of_action input.action.id (fact ∷ facts) ≡ true
  -- The journal has the same intent for the action.
  pub stored : Action
  pub found : J.action_by_id ctx input.action.id s ≡ (some stored, none)
  pub same : same_action stored input.action ≡ true

-- The reason for a refusal, from what the two reads returned.
refusal :
    RecoverInput → List ExecutionEvent × Option Error → Option Action × Option Error → Option Error
unfolding first_error previous_error stored_error
refusal input (previous, previous_err) (stored, stored_err) =
    if not (str_eq input.authorization.action_id input.action.id)
      || str_eq input.authorization.previous_attempt_id ""
    then some (sentinel recovery_not_authorized)
    else first_error previous_err (
        first_error (previous_error input.action previous)
          (first_error stored_err (stored_error input.action stored)))

module _ (J : Journal) (u : Ports) (ctx : Context) (input : RecoverInput) where
  may_recover :
      (s : J.State) (p : List ExecutionEvent × Option Error) (q : Option Action × Option Error)
      → J.events_by_attempt ctx input.authorization.previous_attempt_id s ≡ p
      → J.action_by_id ctx input.action.id s ≡ q
      → refusal input p q ≡ none
      → MayRecover J ctx input s
  unfolding refusal join
  may_recover s (es, some e) q hp hq h = ground arith
  may_recover s ([], none) q hp hq h = ground arith
  may_recover s (e ∷ es, none) (o, some x) hp hq h = ground arith
  may_recover s (e ∷ es, none) (none, none) hp hq h = ground arith
  may_recover s (e ∷ es, none) (some a, none) hp hq h = record {
    names_action = ground (arith, str_eq_iff input.authorization.action_id input.action.id);
    names_previous = ground arith;
    fact = e;
    facts = es;
    previous = hp;
    of_action = ground arith;
    stored = a;
    found = hq;
    same = ground arith;
  }

  recovery_error-may :
      (s : J.State) → MayRecover J ctx input s → recovery_error J u ctx input s ≡ none
  unfolding recovery_error
  recovery_error-may s m =
      rw (m.previous, m.found)
        (ground (
          arith,
          m.names_previous,
          m.of_action,
          m.same,
          (str_eq_iff input.authorization.action_id input.action.id).1 m.names_action,
        ))

  pub recovery_error-none_iff :
      (s : J.State) → (recovery_error J u ctx input s ≡ none) ↔ MayRecover J ctx input s
  unfolding recovery_error refusal
  recovery_error-none_iff s = (λ h. may_recover s _ _ refl refl h, recovery_error-may s)

  -- Unless the authorization is for the action and names a previous attempt, that attempt has
  -- facts, all of the action, the journal has the same intent for the action, and both reads have
  -- no error, Recover returns the zero result with an error of the stage recover,
  -- without a call of a port, a write or a reading of the clock.
  pub recover_attempt_refused :
      (w : World J)
      → ¬ MayRecover J ctx input w.state
      → ((recover_attempt J u ctx input w).0 ≡ zero_result)
        × (reports recover (recover_attempt J u ctx input w).1 ≡ true)
        × ((recover_attempt J u ctx input w).2 ≡ w)
  unfolding recover_attempt on_checked reports stage_error
  recover_attempt_refused w n = elim (Option-cases (recovery_error J u ctx input w.state)) [
    | inl p ↦ absurd (n ((recovery_error-none_iff w.state).0 p))
    | inr (e, p) ↦ (rw p refl, rw p refl, rw p refl)
  ]
