-- ===== src/Core/Provider.antt =====
-- provider.go: resolved targets, receipts and dispatch results.
use atoha.Prelude.{ℕ, String, Bool, not, Option, none, some, List, [], ◌∷◌, str_eq, if◌then◌else◌}
use atoha.Instant.{Time, is_zero}
use atoha.Errors.{
  Result, ok, err, Error, sentinel, message, described, number, invalid_resolved_target,
  invalid_receipt, invalid_dispatch_result,
}
use atoha.Core.Identity.{validate_identity, validate_text, clone_bytes}
use atoha.Core.Action.{check}
use atoha.Core.Outcome.{DispatchStatus, dispatch_code, same_dispatch, valid_dispatch}

pub record ResolvedTarget : Type 0 where
  pub provider : String
  pub endpoint : List ℕ

unfoldable pub new_resolved_target : String → List ℕ → Result ResolvedTarget
unfolding validate_text clone_bytes
new_resolved_target provider endpoint =
    check (validate_text "provider" provider) (λ e. described (sentinel invalid_resolved_target) e)
      (ok (record { provider = provider; endpoint = clone_bytes endpoint }))

pub record ReceiptSpec : Type 0 where
  pub provider : String
  pub attempt_id : String
  pub received_at : Time
  pub evidence : List ℕ

pub record Receipt : Type 0 where
  pub provider : String
  pub attempt_id : String
  pub received_at : Time
  pub evidence : List ℕ

abbrev receipt_error : Error → Error
receipt_error e = described (sentinel invalid_receipt) e

unfoldable pub new_receipt : ReceiptSpec → Result Receipt
unfolding validate_identity validate_text is_zero clone_bytes
new_receipt spec = check (validate_text "provider" spec.provider) receipt_error (
    check (validate_identity "attempt ID" spec.attempt_id) receipt_error (
      if is_zero spec.received_at
      then err (receipt_error (message "received time is required" []))
      else ok (record {
        provider = spec.provider;
        attempt_id = spec.attempt_id;
        received_at = spec.received_at;
        evidence = clone_bytes spec.evidence;
      })))

-- A nil pointer to a receipt is `none`.
pub record DispatchResultSpec : Type 0 where
  pub provider : String
  pub attempt_id : String
  pub status : DispatchStatus
  pub receipt : Option Receipt

-- The fields `receipt` and `hasReceipt` are one optional value, read together by `Receipt()`.
pub record DispatchResult : Type 0 where
  pub provider : String
  pub attempt_id : String
  pub status : DispatchStatus
  pub receipt : Option Receipt

-- DispatchResult{}
abbrev pub zero_dispatch : DispatchResult
zero_dispatch = record {
  provider = "";
  attempt_id = "";
  status = DispatchStatus.unknown;
  receipt = none;
}

abbrev dispatch_error : Error → Error
dispatch_error e = described (sentinel invalid_dispatch_result) e

abbrev pub is_acknowledged : DispatchStatus → Bool
is_acknowledged s = same_dispatch s DispatchStatus.acknowledged

-- The checks on the receipt: present exactly when acknowledged, and of this provider and attempt.
unfoldable pub check_receipt : DispatchResultSpec → Option Error
check_receipt spec = elim spec.receipt [
  | none ↦
      if is_acknowledged spec.status
      then some (message "acknowledged status requires a receipt" [])
      else none
  | some r ↦
      if not (is_acknowledged spec.status)
      then some (message "receipt requires acknowledged status" [])
      else if not (str_eq r.provider spec.provider)
      then some (message "receipt provider does not match result" [])
      else if not (str_eq r.attempt_id spec.attempt_id)
      then some (message "receipt attempt does not match result" [])
      else none
]

unfoldable pub new_dispatch_result : DispatchResultSpec → Result DispatchResult
unfolding validate_identity validate_text valid_dispatch check_receipt
new_dispatch_result spec = check (validate_text "provider" spec.provider) dispatch_error (
    check (validate_identity "attempt ID" spec.attempt_id) dispatch_error (
      if not (valid_dispatch spec.status)
      then err
          (dispatch_error (message "dispatch status %d" (number (dispatch_code spec.status) ∷ [])))
      else check (check_receipt spec) dispatch_error (
          ok (record {
            provider = spec.provider;
            attempt_id = spec.attempt_id;
            status = spec.status;
            receipt = spec.receipt;
          }))))

-- ResolvedTarget{}
abbrev pub zero_target : ResolvedTarget
zero_target = record { provider = ""; endpoint = [] }
