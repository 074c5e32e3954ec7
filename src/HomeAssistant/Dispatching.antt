-- ===== src/HomeAssistant/Dispatching.antt =====
-- What the result of Dispatch (provider/homeassistant/provider.go) tells of the call of the client.
use atoha.Prelude.{
  String, ◌≡◌, sym, ◌∙◌, true, false, none, Bool-cases, inl, inr, arith, str_eq, str_eq_iff,
}
use atoha.Instant.{is_zero}
use atoha.Errors.{ok}
use atoha.Context.{Context}
use atoha.Core.Action.{Action, ExecutionAttempt}
use atoha.Core.Contracts.{is_name}
use atoha.Core.Provider.{ResolvedTarget, DispatchResult}
use atoha.HomeAssistant.Translator.{Translator, resolve, dispatch_request}
use atoha.Execution.Attempt.{normalize_dispatch}
use atoha.HomeAssistant.Bindings.{resolve-bound}
use atoha.HomeAssistant.Provider.{Ports, dispatch}
use atoha.HomeAssistant.Telling.{Tells, Fits, unsent-Tells, on_request-Tells}

-- For an attempt with a name, at a time that is set, the status that Dispatch returns tells what is
-- known of the call: not dispatched, that no request was made; unknown, that the one request that was
-- made got no response; dispatched, that its response was no success; acknowledged, that it was one,
-- whose body is the evidence of the receipt. There is an error beside the first three. The result is
-- of this provider and this attempt, and has a receipt of theirs exactly if it is acknowledged.
pub dispatch-Tells :
    (P : Ports) (t : Translator) (ctx : Context) (attempt : ExecutionAttempt) (action : Action)
    (target : ResolvedTarget)
    → is_name attempt.id ≡ true
    → is_zero P.now ≡ false
    → Tells P ctx (dispatch P t ctx attempt action target)
      × Fits attempt.id (dispatch P t ctx attempt action target).result
unfolding dispatch
dispatch-Tells P t ctx attempt action target named timed =
    elim (Bool-cases (str_eq attempt.action_id action.id)) [
      | inl p ↦
          rw p (
            on_request-Tells P attempt.id named timed ctx (dispatch_request P.json t action target))
      | inr p ↦ rw p (unsent-Tells P attempt.id named timed ctx _)
    ]

normalize_same :
    (r : DispatchResult) (provider attempt_id : String)
    → r.provider ≡ provider
    → r.attempt_id ≡ attempt_id
    → normalize_dispatch r provider attempt_id ≡ (r, none)
unfolding normalize_dispatch
normalize_same r provider attempt_id p a =
    ground (arith, str_eq_iff r.provider provider, str_eq_iff r.attempt_id attempt_id)

-- On a target that the provider has resolved itself, what Dispatch returns for an attempt with a name,
-- at a time that is set, passes the use case's check of results unchanged and without an error.
pub normalize_dispatch-dispatch :
    (P : Ports) (t : Translator) (ctx : Context) (attempt : ExecutionAttempt) (action : Action)
    (target : ResolvedTarget)
    → is_name attempt.id ≡ true
    → is_zero P.now ≡ false
    → resolve t action ≡ ok target
    → normalize_dispatch (dispatch P t ctx attempt action target).result target.provider attempt.id
      ≡ ((dispatch P t ctx attempt action target).result, none)
normalize_dispatch-dispatch P t ctx attempt action target named timed h =
    let (_, (of_us, of_attempt, _)) = dispatch-Tells P t ctx attempt action target named timed in
    normalize_same _ target.provider attempt.id (of_us ∙ sym (resolve-bound t action h).0)
      of_attempt
