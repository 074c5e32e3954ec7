-- ===== src/HomeAssistant/Verifier.antt =====
-- provider/homeassistant/verifier.go: the verifier of the three actions against a recorded state.
use atoha.Prelude.{
  ℕ, ◌-◌, ◌^◌, String, Bool, true, false, not, Option, none, some, List, [], ◌∷◌, str_eq, ltb,
  if◌then◌else◌,
}
use atoha.Instant.{Time, after}
use atoha.Errors.{Result, ok, err, Error, message, described}
use atoha.Core.Action.{Action}
use atoha.Core.Observation.{Observation}
use atoha.Core.Verification.{
  VerificationStatus, VerificationResult, zero_verification, new_verification_result,
}

-- The struct that Verify decodes a state into; `attributes` gives the nil message for a missing key.
pub record State : Type 0 where
  pub state : String
  pub attributes : String → List ℕ

-- What the verifier takes from encoding/json and math/big.
pub record Decoders : Type 1 where
  pub unmarshal_state : List ℕ → Result State
  -- `temperature` of the input; "" where it is missing
  pub decode_desired : List ℕ → Result String
  pub decode_number : List ℕ → Result String
  pub Rat : Type 0
  pub set_string : String → Option Rat
  pub rat_eq : Rat → Rat → Bool

abbrev pub state_verifier_id : String
state_verifier_id = "homeassistant/state-v1"

abbrev pub max_duration : ℕ
max_duration = 2 ^ 63 - 1

-- time.Time.Sub of a time that is not before the other, in nanoseconds: it does not go past the
-- largest Duration.
unfoldable pub sub : Time → Time → ℕ
sub a b = if ltb max_duration (a.instant - b.instant) then max_duration else a.instant - b.instant

-- StateVerifier; a Duration that is positive is its nanoseconds.
pub record StateVerifier : Type 0 where
  pub max_age : ℕ

-- NewStateVerifier; a negative Duration is 0 here.
unfoldable pub new_state_verifier : ℕ → Result StateVerifier
new_state_verifier max_age =
    if ltb 0 max_age
    then ok (record { max_age = max_age })
    else err (message "homeassistant: verifier max age must be positive" [])

-- `if selected == nil || observations[i].ObservedAt().After(selected.ObservedAt())`
unfoldable pub fresher : Observation → Option Observation → Option Observation
unfolding after
fresher o none = some o
fresher o (some selected) =
    if after o.observed_at selected.observed_at then some o else some selected

-- The loop of Verify over the observations.
unfoldable pub select : Action → List Observation → Option Observation → Option Observation
unfolding fresher
select action [] selected = selected
select action (o ∷ os) selected =
    if not (str_eq o.target action.target)
    then select action os selected
    else select action os (fresher o selected)

unfoldable pub ids_of : Option Observation → List String
ids_of none = []
ids_of (some o) = o.id ∷ []

-- StateVerifier.result
unfoldable pub verifier_result :
    VerificationStatus → Time → Option Observation → String → Result VerificationResult
unfolding ids_of new_verification_result
verifier_result status as_of observation reason = new_verification_result (record {
  status = status;
  verifier = state_verifier_id;
  checked_at = as_of;
  observation_ids = ids_of observation;
  reason = reason;
})

-- `return v.result(…)`, and the verifier_result beside an error of its own.
unfoldable pub returned :
    Result VerificationResult → Option Error → VerificationResult × Option Error
returned (err e) operation_err = (zero_verification, some e)
returned (ok r) operation_err = (r, operation_err)

unfoldable pub assessed :
    Bool → Time → Observation → String → String → VerificationResult × Option Error
unfolding returned verifier_result
assessed true as_of o verified unsatisfied =
    returned (verifier_result VerificationStatus.verified as_of (some o) verified) none
assessed false as_of o verified unsatisfied =
    returned (verifier_result VerificationStatus.unsatisfied as_of (some o) unsatisfied) none

unfoldable pub inconclusive :
    Time → Option Observation → String → Option Error → VerificationResult × Option Error
unfolding returned verifier_result
inconclusive as_of o reason e =
    returned (verifier_result VerificationStatus.inconclusive as_of o reason) e

-- StateVerifier.compareState
unfoldable pub compare_state :
    String → String → Time → Observation → VerificationResult × Option Error
unfolding assessed
compare_state got want as_of o =
    assessed (str_eq got want) as_of o "fresh state matches desired effect"
      "fresh state contradicts desired effect"

module _ (J : Decoders) where
  unfoldable pub same_rat : Option J.Rat → Option J.Rat → Bool
  same_rat none right = false
  same_rat (some left) none = false
  same_rat (some left) (some right) = J.rat_eq left right

  -- equalNumber
  unfoldable pub equal_number : String → String → Bool
  unfolding same_rat
  equal_number a b = same_rat (J.set_string a) (J.set_string b)

  -- `err != nil || actual == ""`
  unfoldable pub against :
      String → Result String → Time → Observation → VerificationResult × Option Error
  unfolding inconclusive assessed equal_number
  against desired (err e) as_of o =
      inconclusive as_of (some o) "temperature attribute unavailable" (some e)
  against desired (ok actual) as_of o =
      if str_eq actual ""
      then inconclusive as_of (some o) "temperature attribute unavailable" none
      else assessed (equal_number desired actual) as_of o "fresh setpoint matches desired value"
          "fresh setpoint contradicts desired value"

  unfoldable pub on_desired :
      Result String → List ℕ → Time → Observation → VerificationResult × Option Error
  unfolding against
  on_desired (err e) observed as_of o = (
    zero_verification,
    some (described e (message "homeassistant: decode desired temperature" [])),
  )
  on_desired (ok desired) observed as_of o =
      if str_eq desired ""
      then (zero_verification, some (message "homeassistant: desired temperature is required" []))
      else against desired (J.decode_number observed) as_of o

  -- StateVerifier.compareTemperature
  unfoldable pub compare_temperature :
      List ℕ → List ℕ → Time → Observation → VerificationResult × Option Error
  unfolding on_desired
  compare_temperature input observed as_of o = on_desired (J.decode_desired input) observed as_of o

  -- The switch on the action's name.
  unfoldable pub on_state_read :
      Action → Result State → Time → Observation → VerificationResult × Option Error
  unfolding inconclusive compare_state compare_temperature
  on_state_read action (err e) as_of o =
      inconclusive as_of (some o) "malformed Home Assistant state"
        (some (described e (message "homeassistant: decode observation" [])))
  on_state_read action (ok state) as_of o =
      if str_eq action.name "turn_on"
      then compare_state state.state "on" as_of o
      else if str_eq action.name "turn_off"
      then compare_state state.state "off" as_of o
      else if str_eq action.name "set_temperature"
      then compare_temperature action.input (state.attributes "temperature") as_of o
      else inconclusive as_of (some o) "unsupported proof-of-concept action" none

  unfoldable pub on_selected :
      StateVerifier → Action → Time → Option Observation → VerificationResult × Option Error
  unfolding inconclusive on_state_read sub
  on_selected v action as_of none = inconclusive as_of none "no matching observation" none
  on_selected v action as_of (some o) =
      if ltb as_of.instant o.observed_at.instant
      then inconclusive as_of (some o) "observation is in the future" none
      else if ltb v.max_age (sub as_of o.observed_at)
      then inconclusive as_of (some o) "observation is stale" none
      else on_state_read action (J.unmarshal_state o.value) as_of o

  -- StateVerifier.Verify
  unfoldable pub verify :
      StateVerifier → Action → List Observation → Time → VerificationResult × Option Error
  unfolding select on_selected
  verify v action observations as_of = on_selected v action as_of (select action observations none)
