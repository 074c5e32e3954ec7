-- ===== src/HomeAssistant/Telling.antt =====
-- provider/homeassistant/provider.go: what each step of Dispatch tells of the exchange.
use atoha.Prelude.{
  ℕ, String, ◌≡◌, refl, sym, true, false, Option, none, some, Option-cases, Bool-cases, inl, inr,
  List, [], ◌∷◌, arith, str_eq_refl,
}
use atoha.Prelude.Text.{trim_space}
use atoha.Instant.{is_zero}
use atoha.Errors.{Error, Result, ok, err, join}
use atoha.Context.{Context}
use atoha.Core.Contracts.{is_name, has_its_receipt}
use atoha.Core.Identity.{validate_text, validate_identity, clone_bytes}
use atoha.Core.Outcome.{DispatchStatus, valid_dispatch}
use atoha.Core.Provider.{
  Receipt, DispatchResult, new_receipt, new_dispatch_result, check_receipt, is_acknowledged,
}
use atoha.HomeAssistant.Translator.{ServiceRequest, provider_id}
use atoha.HomeAssistant.Client.{ServiceResponse, outside_success, status_error}
use atoha.HomeAssistant.Provider.{
  Ports, Dispatched, result_with, provider_result, ended, acknowledged, on_received, on_response,
  on_request,
}

-- What is known of the call, and the status that says so.
pub data Tells (P : Ports) (ctx : Context) : Dispatched → Type 0 where
  -- Nothing was sent, and there is an error.
  unsent :
      {d : Dispatched} {e : Error}
      → d.result.status ≡ DispatchStatus.not_dispatched
      → d.failure ≡ some e
      → d.calls ≡ []
      → Tells P ctx d
  -- The one request that was made got no response.
  unanswered :
      {d : Dispatched} {e : Error} (r : ServiceRequest)
      → d.result.status ≡ DispatchStatus.unknown
      → d.failure ≡ some e
      → d.calls ≡ r ∷ []
      → ((P.call_service ctx r).0.received ≡ false) × ((P.call_service ctx r).1 ≡ some e)
      → Tells P ctx d
  -- It got one that is no success.
  refused :
      {d : Dispatched} {e : Error} (r : ServiceRequest)
      → d.result.status ≡ DispatchStatus.dispatched
      → d.failure ≡ some e
      → d.calls ≡ r ∷ []
      → outside_success (P.call_service ctx r).0.status_code ≡ true
      → Tells P ctx d
  -- It got a success; an error is one of reading its body.
  accepted :
      {d : Dispatched} (r : ServiceRequest) (receipt : Receipt)
      → d.result.status ≡ DispatchStatus.acknowledged
      → d.failure ≡ (P.call_service ctx r).1
      → d.calls ≡ r ∷ []
      → outside_success (P.call_service ctx r).0.status_code ≡ false
      → d.result.receipt ≡ some receipt
      → receipt.evidence ≡ (P.call_service ctx r).0.body
      → Tells P ctx d

-- The result is of this provider and attempt, and has a receipt exactly if it is acknowledged.
abbrev pub Fits : String → DispatchResult → Type 0
Fits attempt_id r =
    (r.provider ≡ provider_id) × (r.attempt_id ≡ attempt_id) × (has_its_receipt r ≡ true)

module _ (P : Ports) (attempt_id : String) (named : is_name attempt_id ≡ true)
    (timed : is_zero P.now ≡ false) where
  -- A result without a receipt is valid unless it is acknowledged.
  plain_result :
      (status : DispatchStatus) (e : Option Error)
      → valid_dispatch status ≡ true
      → is_acknowledged status ≡ false
      → provider_result attempt_id status none e ≡ (
        record { provider = provider_id; attempt_id = attempt_id; status = status; receipt = none },
        e,
      )
  unfolding provider_result result_with new_dispatch_result validate_identity validate_text
      check_receipt is_name trim_space
  plain_result status e v a = ground arith

  abbrev its_receipt : List ℕ → Receipt
  its_receipt evidence = record {
    provider = provider_id;
    attempt_id = attempt_id;
    received_at = P.now;
    evidence = evidence;
  }

  acknowledged_result :
      (evidence : List ℕ) (e : Option Error)
      → acknowledged attempt_id e (
          new_receipt (record {
            provider = provider_id;
            attempt_id = attempt_id;
            received_at = P.now;
            evidence = evidence;
          }))
        ≡ (
          record {
            provider = provider_id;
            attempt_id = attempt_id;
            status = DispatchStatus.acknowledged;
            receipt = some (its_receipt evidence);
          },
          e,
        )
  unfolding acknowledged provider_result result_with new_dispatch_result new_receipt
      validate_identity validate_text check_receipt is_name trim_space clone_bytes valid_dispatch
  acknowledged_result evidence e = ground (arith, str_eq_refl attempt_id)

  plain-Fits :
      (status : DispatchStatus)
      → is_acknowledged status ≡ false
      → Fits attempt_id (record {
        provider = provider_id;
        attempt_id = attempt_id;
        status = status;
        receipt = none;
      })
  unfolding has_its_receipt
  plain-Fits status a = (refl, refl, ground arith)

  acknowledged-Fits :
      (evidence : List ℕ)
      → Fits attempt_id (record {
        provider = provider_id;
        attempt_id = attempt_id;
        status = DispatchStatus.acknowledged;
        receipt = some (its_receipt evidence);
      })
  unfolding has_its_receipt
  acknowledged-Fits evidence = (refl, refl, ground (arith, str_eq_refl attempt_id))

  join_first : (a : Error) (b : Option Error) → (e : Error) × (join (some a ∷ b ∷ []) ≡ some e)
  unfolding join
  join_first a none = (_, refl)
  join_first a (some b) = (_, refl)

  module _ (ctx : Context) (r : ServiceRequest) where
    abbrev response : ServiceResponse
    response = (P.call_service ctx r).0

    on_received-Tells :
        (e : Option Error)
        → (P.call_service ctx r).1 ≡ e
        → Tells P ctx (ended (on_received P attempt_id response e) (r ∷ []))
          × Fits attempt_id (ended (on_received P attempt_id response e) (r ∷ [])).result
    unfolding on_received ended valid_dispatch
    on_received-Tells e h = elim (Bool-cases (outside_success response.status_code)) [
      | inl p ↦
          let (f, j) = join_first (status_error response.status) e in
          rw
            (
              p,
              on_received,
              plain_result DispatchStatus.dispatched
                  (join (some (status_error response.status) ∷ e ∷ [])) refl refl,
            )
            (refused r refl j refl p, plain-Fits DispatchStatus.dispatched refl)
      | inr p ↦
          rw (p, on_received, acknowledged_result response.body e)
            (
              accepted r (its_receipt response.body) refl (sym h) refl p refl refl,
              acknowledged-Fits response.body,
            )
    ]

    on_response-Tells :
        Tells P ctx (ended (on_response P attempt_id (P.call_service ctx r)) (r ∷ []))
        × Fits attempt_id (ended (on_response P attempt_id (P.call_service ctx r)) (r ∷ [])).result
    unfolding on_response ended valid_dispatch
    on_response-Tells = elim (Option-cases (P.call_service ctx r).1) [
      | inl p ↦ rw (p, on_response) (on_received-Tells none p)
      | inr (e, p) ↦ elim (Bool-cases response.received) [
        | inl q ↦ rw (p, on_response, q) (on_received-Tells (some e) p)
        | inr q ↦
            rw (p, on_response, q, plain_result DispatchStatus.unknown (some e) refl refl)
              (unanswered r refl refl refl (q, p), plain-Fits DispatchStatus.unknown refl)
      ]
    ]

  pub unsent-Tells :
      (ctx : Context) (e : Error)
      → Tells P ctx
          (ended (provider_result attempt_id DispatchStatus.not_dispatched none (some e)) [])
        × Fits attempt_id
            (ended
              (provider_result attempt_id DispatchStatus.not_dispatched none (some e))
              []).result
  unfolding ended valid_dispatch
  unsent-Tells ctx e =
      rw (plain_result DispatchStatus.not_dispatched (some e) refl refl)
        (unsent refl refl refl, plain-Fits DispatchStatus.not_dispatched refl)

  pub on_request-Tells :
      (ctx : Context) (r : Result ServiceRequest)
      → Tells P ctx (on_request P ctx attempt_id r)
        × Fits attempt_id (on_request P ctx attempt_id r).result
  unfolding on_request
  on_request-Tells ctx (err e) = unsent-Tells ctx e
  on_request-Tells ctx (ok r) = on_response-Tells ctx r
