-- ===== src/Core/Contracts.antt =====
-- What a value that a constructor of provider.go or verification.go returned is known to be.
use atoha.Prelude.{
  String, ◌≡◌, refl, Bool, true, false, ◌&&◌, ◌||◌, not, none, some, List, [], ◌∷◌, arith, str_eq,
}
use atoha.Prelude.Lists.{all}
use atoha.Prelude.Text.{trim_space}
use atoha.Errors.{ok}
use atoha.Instant.{is_zero}
use atoha.Core.Identity.{validate_text, validate_identity}
use atoha.Core.Outcome.{valid_dispatch}
use atoha.Core.Provider.{
  DispatchResultSpec, DispatchResult, is_acknowledged, check_receipt, new_dispatch_result,
}
use atoha.Core.Verification.{
  VerificationStatus, VerificationResultSpec, VerificationResult, same_verification, check_ids,
  no_ids, new_verification_result,
}

-- A text that names something: not empty, and without space at its ends.
unfoldable pub is_name : String → Bool
is_name s = not (str_eq s "") && str_eq s (trim_space s)

-- An acknowledged result has the receipt of its provider and attempt, and no other has one.
unfoldable pub has_its_receipt : DispatchResult → Bool
has_its_receipt d = elim d.receipt [
  | none ↦ not (is_acknowledged d.status)
  | some r ↦
      is_acknowledged d.status && str_eq r.provider d.provider && str_eq r.attempt_id d.attempt_id
]

-- A dispatch result that NewDispatchResult returns names its provider and its attempt, has a
-- status among the constants, and has a receipt exactly if it is acknowledged, which is then of its
-- provider and its attempt.
pub new_dispatch_result_lem :
    (spec : DispatchResultSpec) {d : DispatchResult}
    → new_dispatch_result spec ≡ ok d
    → (is_name d.provider ≡ true)
      × (is_name d.attempt_id ≡ true)
      × (valid_dispatch d.status ≡ true)
      × (has_its_receipt d ≡ true)
unfolding new_dispatch_result is_name has_its_receipt validate_identity validate_text check_receipt
new_dispatch_result_lem spec h = (ground arith, ground arith, ground arith, ground arith)

check_ids-names : (ids : List String) → check_ids ids ≡ none → all is_name ids ≡ true
unfolding check_ids validate_identity validate_text is_name
check_ids-names [] h = refl
check_ids-names (id ∷ ids) h = ground (arith, check_ids-names ids)

abbrev pub is_conclusive : VerificationStatus → Bool
is_conclusive s =
    same_verification s VerificationStatus.verified
    || same_verification s VerificationStatus.unsatisfied

-- A conclusive verification that NewVerificationResult returns names its verifier, says when it was
-- checked, and cites observations, at least one, each by a name.
pub new_verification_result_lem :
    (spec : VerificationResultSpec) {r : VerificationResult}
    → new_verification_result spec ≡ ok r
    → is_conclusive r.status ≡ true
    → (is_name r.verifier ≡ true)
      × (is_zero r.checked_at ≡ false)
      × (no_ids r.observation_ids ≡ false)
      × (all is_name r.observation_ids ≡ true)
unfolding new_verification_result is_name validate_text
new_verification_result_lem spec h c =
    (ground arith, ground arith, ground arith, ground (arith, check_ids-names spec.observation_ids))
