-- ===== src/Core/Verification.antt =====
-- verification.go: a named verifier's assessment.
use atoha.Prelude.{
  ℕ, ◌+◌, String, Bool, true, false, ◌&&◌, ◌||◌, not, Option, none, some, List, [], ◌∷◌, ◌++◌,
  str_eq, ◌==◌, if◌then◌else◌,
}
use atoha.Instant.{Time, zero_time, is_zero}
use atoha.Prelude.Text.{labelled}
use atoha.Errors.{
  Result, ok, err, Error, sentinel, message, described, text, number, invalid_verification,
}
use atoha.Core.Identity.{validate_identity, validate_text}
use atoha.Core.Action.{check}

pub data VerificationStatus : Type 0 where
  unknown verified unsatisfied inconclusive : VerificationStatus
  invalid : ℕ → VerificationStatus

abbrev pub verification_code : VerificationStatus → ℕ
verification_code unknown = 0
verification_code verified = 1
verification_code unsatisfied = 2
verification_code inconclusive = 3
verification_code (invalid n) = n + 4

abbrev pub same_verification : VerificationStatus → VerificationStatus → Bool
same_verification a b = verification_code a == verification_code b

unfoldable pub valid_verification : VerificationStatus → Bool
valid_verification (invalid n) = false
valid_verification s = true

pub record VerificationResultSpec : Type 0 where
  pub status : VerificationStatus
  pub verifier : String
  pub checked_at : Time
  pub observation_ids : List String
  pub reason : String

pub record VerificationResult : Type 0 where
  pub status : VerificationStatus
  pub verifier : String
  pub checked_at : Time
  pub observation_ids : List String
  pub reason : String

-- VerificationResult{}: no assessment has been recorded.
abbrev pub zero_verification : VerificationResult
zero_verification = record {
  status = unknown;
  verifier = "";
  checked_at = zero_time;
  observation_ids = [];
  reason = "";
}

abbrev verification_error : Error → Error
verification_error e = described (sentinel invalid_verification) e

-- len(ids) == 0
abbrev pub no_ids : List String → Bool
no_ids [] = true
no_ids (id ∷ ids) = false

-- The loop over the observation identities stops at the first that is not valid.
unfoldable pub check_ids : List String → Option Error
unfolding validate_identity
check_ids [] = none
check_ids (id ∷ ids) = elim (validate_identity "observation ID" id) [
  | some e ↦ some e
  | none ↦ check_ids ids
]

-- VerificationStatus.String
unfoldable pub verification_text : VerificationStatus → String
unfolding labelled
verification_text unknown = "unknown"
verification_text verified = "verified"
verification_text unsatisfied = "unsatisfied"
verification_text inconclusive = "inconclusive"
verification_text (invalid n) = labelled "VerificationStatus" (n + 4)

unfoldable pub new_verification_result : VerificationResultSpec → Result VerificationResult
unfolding valid_verification validate_text is_zero check_ids verification_text
new_verification_result spec =
    if not (valid_verification spec.status)
    then err
        (verification_error (message "status %d" (number (verification_code spec.status) ∷ [])))
    else if same_verification spec.status unknown
    then if not (str_eq spec.verifier "")
        || not (is_zero spec.checked_at)
        || not (no_ids spec.observation_ids)
        || not (str_eq spec.reason "")
      then err (verification_error (message "unknown result cannot claim an assessment" []))
      else ok zero_verification
    else check (validate_text "verifier" spec.verifier) verification_error (
        if is_zero spec.checked_at
        then err (verification_error (message "checked time is required" []))
        else if (same_verification spec.status verified
              || same_verification spec.status unsatisfied)
            && no_ids spec.observation_ids
        then err (
            verification_error (
              message "%s result requires observation evidence"
                (text (verification_text spec.status) ∷ [])))
        else check (check_ids spec.observation_ids) verification_error (
            ok (record {
              status = spec.status;
              verifier = spec.verifier;
              checked_at = spec.checked_at;
              observation_ids = [] ++ spec.observation_ids;
              reason = spec.reason;
            })))
