-- ===== src/Core/Observation.antt =====
-- observation.go: immutable evidence.
use atoha.Prelude.{ℕ, String, List, [], if◌then◌else◌}
use atoha.Instant.{Time, is_zero}
use atoha.Errors.{Result, ok, err, Error, sentinel, message, described, invalid_observation}
use atoha.Core.Identity.{validate_identity, validate_text, clone_bytes}
use atoha.Core.Action.{check}

pub record ObservationSpec : Type 0 where
  pub id : String
  pub source : String
  pub target : String
  pub value : List ℕ
  pub evidence : List ℕ
  pub observed_at : Time
  pub recorded_at : Time

pub record Observation : Type 0 where
  pub id : String
  pub source : String
  pub target : String
  pub value : List ℕ
  pub evidence : List ℕ
  pub observed_at : Time
  pub recorded_at : Time

abbrev observation_error : Error → Error
observation_error e = described (sentinel invalid_observation) e

unfoldable pub new_observation : ObservationSpec → Result Observation
unfolding validate_identity validate_text is_zero clone_bytes
new_observation spec = check (validate_identity "observation ID" spec.id) observation_error (
    check (validate_text "source" spec.source) observation_error (
      check (validate_text "target" spec.target) observation_error (
        if is_zero spec.observed_at
        then err (observation_error (message "observed time is required" []))
        else if is_zero spec.recorded_at
        then err (observation_error (message "recorded time is required" []))
        else ok (record {
          id = spec.id;
          source = spec.source;
          target = spec.target;
          value = clone_bytes spec.value;
          evidence = clone_bytes spec.evidence;
          observed_at = spec.observed_at;
          recorded_at = spec.recorded_at;
        }))))
