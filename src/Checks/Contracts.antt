-- ===== src/Checks/Contracts.antt =====
-- A dispatch result and a verification result that their constructors return.

use atoha.Core.Contracts.{
  is_name, has_its_receipt, new_dispatch_result_lem, new_verification_result_lem,
}
use atoha.Core.Provider.{Receipt, DispatchResultSpec, DispatchResult, new_dispatch_result}
use atoha.Core.Verification.{
  VerificationResult, VerificationResultSpec, no_ids, new_verification_result,
}
use atoha.Core.Outcome.{DispatchStatus, valid_dispatch}
use atoha.Prelude.Lists.{all}
use atoha.Prelude.Text.{trim_space}
use atoha.Instant.{is_zero}
use atoha.Prelude.{◌≡◌, refl, true, false, some, [], ◌∷◌}
use atoha.Errors.{ok}
use atoha.Core.Verification.{VerificationStatus}
use atoha.Checks.Data.{at}

-- An acknowledgement.
abbrev receipt_of_hub : Receipt
receipt_of_hub = record { provider = "hub"; attempt_id = "t-1"; received_at = at 9; evidence = [] }

abbrev acknowledgement : DispatchResult
acknowledgement = record {
  provider = "hub";
  attempt_id = "t-1";
  status = DispatchStatus.acknowledged;
  receipt = some receipt_of_hub;
}

abbrev acknowledgement_spec : DispatchResultSpec
acknowledgement_spec = record {
  provider = "hub";
  attempt_id = "t-1";
  status = DispatchStatus.acknowledged;
  receipt = some receipt_of_hub;
}

acknowledgement_ok : new_dispatch_result acknowledgement_spec ≡ ok acknowledgement
unfolding new_dispatch_result trim_space
acknowledgement_ok = refl

new_dispatch_result_lem_example :
    (is_name acknowledgement.provider ≡ true)
    × (is_name acknowledgement.attempt_id ≡ true)
    × (valid_dispatch acknowledgement.status ≡ true)
    × (has_its_receipt acknowledgement ≡ true)
new_dispatch_result_lem_example = new_dispatch_result_lem acknowledgement_spec acknowledgement_ok

abbrev assessment : VerificationResult
assessment = record {
  status = VerificationStatus.verified;
  verifier = "state";
  checked_at = at 40;
  observation_ids = "o-1" ∷ [];
  reason = "";
}

abbrev assessment_spec : VerificationResultSpec
assessment_spec = record {
  status = VerificationStatus.verified;
  verifier = "state";
  checked_at = at 40;
  observation_ids = "o-1" ∷ [];
  reason = "";
}

assessment_ok : new_verification_result assessment_spec ≡ ok assessment
unfolding new_verification_result trim_space
assessment_ok = refl

new_verification_result_lem_example :
    (is_name assessment.verifier ≡ true)
    × (is_zero assessment.checked_at ≡ false)
    × (no_ids assessment.observation_ids ≡ false)
    × (all is_name assessment.observation_ids ≡ true)
new_verification_result_lem_example = new_verification_result_lem assessment_spec assessment_ok refl
