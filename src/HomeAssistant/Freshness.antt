-- ===== src/HomeAssistant/Freshness.antt =====
-- On what evidence the verifier of provider/homeassistant/verifier.go concludes.
use atoha.Prelude.{
  ◌+◌, ◌≤◌, ◌<◌, ◌≡◌, sym, ◌∙◌, true, none, some, Option-cases, Bool-cases, inl, inr, List, arith,
  ltb,
}
use atoha.Instant.{Time}
use atoha.Errors.{ok, Result-cases}
use atoha.Core.Action.{Action}
use atoha.Core.Observation.{Observation}
use atoha.Core.Verification.{VerificationResult}
use atoha.Core.Contracts.{is_conclusive}
use atoha.HomeAssistant.Verifier.{
  Decoders, State, StateVerifier, max_duration, sub, select, on_state_read, on_selected, verify,
}
use atoha.HomeAssistant.Selection.{IsFreshest, select-IsFreshest}
use atoha.HomeAssistant.Verdict.{Concludes, Conclusive, not_conclusive, on_state_read-Concludes}

-- The observation is fresh, it decodes to a state, and the assessment cites it and is what the state
-- shows.
pub record IsFresh (J : Decoders) (v : StateVerifier) (action : Action) (as_of : Time)
    (o : Observation) (r : VerificationResult) : Type 0 where
  pub not_later : o.observed_at.instant ≤ as_of.instant
  pub not_stale : as_of.instant ≤ o.observed_at.instant + v.max_age
  pub state : State
  pub decoded : J.unmarshal_state o.value ≡ ok state
  pub concludes : Concludes J action state as_of o r

module _ (J : Decoders) where
  -- A state that does not decode leads to no conclusion.
  state_read :
      (action : Action) (as_of : Time) (o : Observation)
      → Conclusive (on_state_read J action (J.unmarshal_state o.value) as_of o)
      → (s : State) × (J.unmarshal_state o.value ≡ ok s)
        × Concludes J action s as_of o
            (on_state_read J action (J.unmarshal_state o.value) as_of o).0
  unfolding on_state_read
  state_read action as_of o h = elim (Result-cases (J.unmarshal_state o.value)) [
    | inl (e, p) ↦
        let k = sym (rw (p, on_state_read) at h) ∙ not_conclusive as_of (some o) _ _ in cc
    | inr (s, p) ↦ (s, p, rw p (on_state_read-Concludes J action s as_of o (rw p at h)))
  ]

  on_selected-IsFresh :
      (v : StateVerifier) (action : Action) (as_of : Time) (o : Observation)
      → v.max_age < max_duration
      → Conclusive (on_selected J v action as_of (some o))
      → IsFresh J v action as_of o (on_selected J v action as_of (some o)).0
  unfolding on_selected sub
  on_selected-IsFresh v action as_of o small h =
      elim (Bool-cases (ltb as_of.instant o.observed_at.instant)) [
        | inl p ↦ let k = sym (rw p at h) ∙ not_conclusive as_of (some o) _ _ in cc
        | inr p ↦ elim (Bool-cases (ltb v.max_age (sub as_of o.observed_at))) [
          | inl q ↦ let k = sym (rw (p, q) at h) ∙ not_conclusive as_of (some o) _ _ in cc
          | inr q ↦
              let (s, decoded, concludes) = state_read action as_of o (rw (p, q) at h) in
              record {
                not_later = ground arith;
                not_stale = ground arith;
                state = s;
                decoded = decoded;
                concludes = rw (p, q) concludes;
              }
        ]
      ]

  -- A verification is conclusive only on an observation among those given, of the action's target,
  -- that none of that target is later than, and that is neither after the time of the check nor
  -- older than the maximum age. The observation decodes to a state, the result cites it alone, and
  -- the result is `verified` exactly if the state shows the effect of the action, which is one of
  -- turn_on, turn_off and set_temperature. The maximum age is one that is less than the longest
  -- Duration, past which Time.Sub does not count.
  pub verify-IsFresh :
      (v : StateVerifier) (action : Action) (os : List Observation) (as_of : Time)
      → v.max_age < max_duration
      → is_conclusive (verify J v action os as_of).0.status ≡ true
      → (o : Observation) × IsFreshest action os o
        × IsFresh J v action as_of o (verify J v action os as_of).0
  unfolding verify on_selected
  verify-IsFresh v action os as_of small h = elim (Option-cases (select action os none)) [
    | inl p ↦ let k = sym (rw (p, on_selected) at h) ∙ not_conclusive as_of none _ _ in cc
    | inr (o, p) ↦ (
      o,
      select-IsFreshest action os p,
      rw p (on_selected-IsFresh v action as_of o small (rw p at h)),
    )
  ]
