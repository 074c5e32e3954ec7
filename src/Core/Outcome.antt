-- ===== src/Core/Outcome.antt =====
-- outcome.go: what is known of admission, dispatch and effect.
use atoha.Prelude.{ℕ, ◌+◌, Bool, true, false, ◌&&◌, [], ◌∷◌, ◌==◌}
use atoha.Prelude.{String}
use atoha.Prelude.Text.{labelled}
use atoha.Errors.{Result, ok, err, Error, sentinel, message, described, number, invalid_outcome}

-- The types are uint8: `invalid n` is the value n past the last constant.
pub data AdmissionStatus : Type 0 where
  unknown rejected admitted : AdmissionStatus
  invalid : ℕ → AdmissionStatus

pub data DispatchStatus : Type 0 where
  unknown not_dispatched dispatched acknowledged : DispatchStatus
  invalid : ℕ → DispatchStatus

pub data EffectStatus : Type 0 where
  unknown unverified observed_satisfied observed_unsatisfied : EffectStatus
  invalid : ℕ → EffectStatus

-- The number that stands for a status.
abbrev pub admission_code : AdmissionStatus → ℕ
admission_code AdmissionStatus.unknown = 0
admission_code AdmissionStatus.rejected = 1
admission_code AdmissionStatus.admitted = 2
admission_code (AdmissionStatus.invalid n) = n + 3

abbrev pub dispatch_code : DispatchStatus → ℕ
dispatch_code DispatchStatus.unknown = 0
dispatch_code DispatchStatus.not_dispatched = 1
dispatch_code DispatchStatus.dispatched = 2
dispatch_code DispatchStatus.acknowledged = 3
dispatch_code (DispatchStatus.invalid n) = n + 4

abbrev pub effect_code : EffectStatus → ℕ
effect_code EffectStatus.unknown = 0
effect_code EffectStatus.unverified = 1
effect_code EffectStatus.observed_satisfied = 2
effect_code EffectStatus.observed_unsatisfied = 3
effect_code (EffectStatus.invalid n) = n + 4

-- ==
abbrev pub same_admission : AdmissionStatus → AdmissionStatus → Bool
same_admission a b = admission_code a == admission_code b

abbrev pub same_dispatch : DispatchStatus → DispatchStatus → Bool
same_dispatch a b = dispatch_code a == dispatch_code b

abbrev pub same_effect : EffectStatus → EffectStatus → Bool
same_effect a b = effect_code a == effect_code b

-- The three `valid` methods.
unfoldable pub valid_admission : AdmissionStatus → Bool
valid_admission (AdmissionStatus.invalid n) = false
valid_admission s = true

unfoldable pub valid_dispatch : DispatchStatus → Bool
valid_dispatch (DispatchStatus.invalid n) = false
valid_dispatch s = true

unfoldable pub valid_effect : EffectStatus → Bool
valid_effect (EffectStatus.invalid n) = false
valid_effect s = true

-- OutcomeSpec and Outcome have the same three fields.
pub record OutcomeSpec : Type 0 where
  pub admission : AdmissionStatus
  pub dispatch : DispatchStatus
  pub effect : EffectStatus

pub record Outcome : Type 0 where
  pub admission : AdmissionStatus
  pub dispatch : DispatchStatus
  pub effect : EffectStatus

abbrev outcome_error : Error → Error
outcome_error e = described (sentinel invalid_outcome) e

unfoldable pub new_outcome : OutcomeSpec → Result Outcome
unfolding valid_admission valid_dispatch valid_effect
new_outcome spec = elim (valid_admission spec.admission) [
  | false ↦
      err (
        outcome_error (message "admission status %d" (number (admission_code spec.admission) ∷ [])))
  | true ↦ elim (valid_dispatch spec.dispatch) [
    | false ↦
        err
          (outcome_error (message "dispatch status %d" (number (dispatch_code spec.dispatch) ∷ [])))
    | true ↦ elim (valid_effect spec.effect) [
      | false ↦
          err (outcome_error (message "effect status %d" (number (effect_code spec.effect) ∷ [])))
      | true ↦
          ok (record { admission = spec.admission; dispatch = spec.dispatch; effect = spec.effect })
    ]
  ]
]

-- The zero Outcome: all three unknown.
abbrev pub zero_outcome : Outcome
zero_outcome = record {
  admission = AdmissionStatus.unknown;
  dispatch = DispatchStatus.unknown;
  effect = EffectStatus.unknown;
}

-- Where the error is dropped, `value, _ := NewOutcome(…)`, the zero Outcome is left.
unfoldable pub outcome_or_zero : Result Outcome → Outcome
outcome_or_zero (ok o) = o
outcome_or_zero (err e) = zero_outcome

-- Outcome.IsUnknown
unfoldable pub is_unknown : Outcome → Bool
is_unknown o =
    same_admission o.admission AdmissionStatus.unknown
    && same_dispatch o.dispatch DispatchStatus.unknown
    && same_effect o.effect EffectStatus.unknown

-- The three `String` methods.
unfoldable pub admission_text : AdmissionStatus → String
unfolding labelled
admission_text AdmissionStatus.unknown = "unknown"
admission_text AdmissionStatus.rejected = "rejected"
admission_text AdmissionStatus.admitted = "admitted"
admission_text (AdmissionStatus.invalid n) = labelled "AdmissionStatus" (n + 3)

unfoldable pub dispatch_text : DispatchStatus → String
unfolding labelled
dispatch_text DispatchStatus.unknown = "unknown"
dispatch_text DispatchStatus.not_dispatched = "not-dispatched"
dispatch_text DispatchStatus.dispatched = "dispatched"
dispatch_text DispatchStatus.acknowledged = "acknowledged"
dispatch_text (DispatchStatus.invalid n) = labelled "DispatchStatus" (n + 4)

unfoldable pub effect_text : EffectStatus → String
unfolding labelled
effect_text EffectStatus.unknown = "unknown"
effect_text EffectStatus.unverified = "unverified"
effect_text EffectStatus.observed_satisfied = "observed-satisfied"
effect_text EffectStatus.observed_unsatisfied = "observed-unsatisfied"
effect_text (EffectStatus.invalid n) = labelled "EffectStatus" (n + 4)
