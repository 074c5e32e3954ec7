-- ===== src/HomeAssistant/Verdict.antt =====
-- What a conclusive verification of provider/homeassistant/verifier.go rests on.
use atoha.Prelude.{
  String, ◌≡◌, refl, sym, ◌∙◌, Bool, true, false, Option, none, some, Bool-cases, inl, inr, [], ◌∷◌,
  arith, str_eq, str_eq_iff,
}
use atoha.Instant.{Time}
use atoha.Errors.{Error, Result, ok, err}
use atoha.Core.Action.{Action}
use atoha.Core.Observation.{Observation}
use atoha.Core.Verification.{
  VerificationStatus, VerificationResult, same_verification, new_verification_result,
}
use atoha.Core.Contracts.{is_conclusive}
use atoha.HomeAssistant.Verifier.{
  Decoders, State, ids_of, verifier_result, returned, assessed, inconclusive, compare_state,
  compare_temperature, equal_number, against, on_desired, on_state_read,
}

-- A conclusive verification cites one observation, and no other, and is `verified` or not.
pub record Cites (r : VerificationResult) (as_of : Time) (o : Observation) (b : Bool) : Type 0 where
  pub observation_ids : r.observation_ids ≡ o.id ∷ []
  pub checked_at : r.checked_at ≡ as_of
  pub verdict : same_verification r.status VerificationStatus.verified ≡ b

-- Whether the state shows what the action is to do.
pub data Shows (J : Decoders) (action : Action) (s : State) (b : Bool) : Type 0 where
  turned_on : action.name ≡ "turn_on" → b ≡ str_eq s.state "on" → Shows J action s b
  turned_off : action.name ≡ "turn_off" → b ≡ str_eq s.state "off" → Shows J action s b
  -- Both temperatures are numbers, and compared as such.
  set_to :
      (desired actual : String)
      → action.name ≡ "set_temperature"
      → J.decode_desired action.input ≡ ok desired
      → J.decode_number (s.attributes "temperature") ≡ ok actual
      → b ≡ equal_number J desired actual
      → Shows J action s b

verifier_result-Cites :
    (status : VerificationStatus) (as_of : Time) (o : Observation) (reason : String)
    (e : Option Error)
    → is_conclusive (returned (verifier_result status as_of (some o) reason) e).0.status ≡ true
    → Cites
        (returned (verifier_result status as_of (some o) reason) e).0
        as_of
        o
        (same_verification status VerificationStatus.verified)
unfolding returned verifier_result ids_of new_verification_result
verifier_result-Cites status as_of o reason e h = record {
  observation_ids = ground arith;
  checked_at = ground arith;
  verdict = ground arith;
}

pub not_conclusive :
    (as_of : Time) (o : Option Observation) (reason : String) (e : Option Error)
    → is_conclusive (inconclusive as_of o reason e).0.status ≡ false
unfolding inconclusive returned verifier_result new_verification_result
not_conclusive as_of o reason e = ground arith

assessed-Cites :
    (b : Bool) (as_of : Time) (o : Observation) (x y : String)
    → is_conclusive (assessed b as_of o x y).0.status ≡ true
    → Cites (assessed b as_of o x y).0 as_of o b
unfolding assessed
assessed-Cites true as_of o x y h =
    verifier_result-Cites VerificationStatus.verified as_of o x none h
assessed-Cites false as_of o x y h =
    verifier_result-Cites VerificationStatus.unsatisfied as_of o y none h

abbrev pub Conclusive : VerificationResult × Option Error → Type 0
Conclusive p = is_conclusive p.0.status ≡ true

module _ (J : Decoders) (action : Action) (s : State) (as_of : Time) (o : Observation) where
  -- The observation is cited, and the verdict is what the state shows.
  pub record Concludes (r : VerificationResult) : Type 0 where
    pub shown : Bool
    pub cites : Cites r as_of o shown
    pub shows : Shows J action s shown

  against-Concludes :
      (desired : String) (n : Result String)
      → action.name ≡ "set_temperature"
      → J.decode_desired action.input ≡ ok desired
      → J.decode_number (s.attributes "temperature") ≡ n
      → Conclusive (against J desired n as_of o)
      → Concludes (against J desired n as_of o).0
  unfolding against
  against-Concludes desired (err e) name d q h =
      let k = sym h ∙ not_conclusive as_of (some o) _ _ in cc
  against-Concludes desired (ok actual) name d q h = elim (Bool-cases (str_eq actual "")) [
    | inl p ↦ let k = sym (rw p at h) ∙ not_conclusive as_of (some o) _ _ in cc
    | inr p ↦ rw p (record {
      shown = equal_number J desired actual;
      cites = assessed-Cites (equal_number J desired actual) as_of o _ _ (rw p at h);
      shows = set_to desired actual name d q refl;
    })
  ]

  on_desired-Concludes :
      (d : Result String)
      → action.name ≡ "set_temperature"
      → J.decode_desired action.input ≡ d
      → Conclusive (on_desired J d (s.attributes "temperature") as_of o)
      → Concludes (on_desired J d (s.attributes "temperature") as_of o).0
  unfolding on_desired
  on_desired-Concludes (err e) name q h = cc
  on_desired-Concludes (ok desired) name q h = elim (Bool-cases (str_eq desired "")) [
    | inl p ↦ let k = rw p at h in cc
    | inr p ↦ rw p (
        against-Concludes desired (J.decode_number (s.attributes "temperature")) name q refl
          (rw p at h))
  ]

  pub on_state_read-Concludes :
      Conclusive (on_state_read J action (ok s) as_of o)
      → Concludes (on_state_read J action (ok s) as_of o).0
  unfolding on_state_read compare_state compare_temperature
  on_state_read-Concludes h = elim (Bool-cases (str_eq action.name "turn_on")) [
    | inl p ↦ rw p (record {
      shown = str_eq s.state "on";
      cites = assessed-Cites (str_eq s.state "on") as_of o _ _ (rw p at h);
      shows = turned_on ((str_eq_iff action.name "turn_on").0 p) refl;
    })
    | inr p ↦ elim (Bool-cases (str_eq action.name "turn_off")) [
      | inl q ↦
          rw (p, q)
            (record {
              shown = str_eq s.state "off";
              cites = assessed-Cites (str_eq s.state "off") as_of o _ _ (rw (p, q) at h);
              shows = turned_off ((str_eq_iff action.name "turn_off").0 q) refl;
            })
      | inr q ↦ elim (Bool-cases (str_eq action.name "set_temperature")) [
        | inl n ↦
            rw (p, q, n)
              (on_desired-Concludes (J.decode_desired action.input)
                ((str_eq_iff action.name "set_temperature").0 n) refl (rw (p, q, n) at h))
        | inr n ↦ let k = sym (rw (p, q, n) at h) ∙ not_conclusive as_of (some o) _ _ in cc
      ]
    ]
  ]
