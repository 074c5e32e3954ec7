-- ===== src/Execution/Agreeing.antt =====
-- What the returns of `execute` (execution/execute.go) that record a dispatch, or that there was none,
-- agree with.
use atoha.Prelude.{◌≡◌, refl, sym, ap, ◌∙◌, true, false, Option, none, List, [], ◌∷◌, ◌++◌}
use atoha.Errors.{Result, ok, err, Error, reports, reports-join_second, record_stage}
use atoha.Context.{Context}
use atoha.Core.Outcome.{
  AdmissionStatus, DispatchStatus, EffectStatus, valid_admission, valid_dispatch,
}
use atoha.Core.Event.{ExecutionEvent}
use atoha.Core.Provider.{DispatchResult}
use atoha.Projection.Claims.{Claims, union, claims_of, claims_of-kinds, outcome_view}
use atoha.Execution.Ports.{Journal, Ports}
use atoha.Execution.Kinds.{kinds-not_dispatched, kinds-dispatch}
use atoha.Execution.Execute.{
  World, Done, append_after_io, append_built, finish_not_dispatched, on_dispatched,
}
use atoha.Execution.Attempt.{ExecuteResult, PortCall, outcome_of, effect_after}
use atoha.Execution.Told.{
  written, told, told-append, told-nothing, claims-append_call, admission_claims, withheld_claims,
  dispatch_claims, outcome_withheld, outcome_dispatched,
}

module _ (J : Journal) (u : Ports) where
  -- A return agrees with the record: unless the error reports that a record failed, the claims of the
  -- facts recorded give the outcome returned.
  unfoldable pub Agrees : Done J u → Type 0
  Agrees (result, e, w) =
      reports record_stage e ≡ false → outcome_view (told w.calls) ≡ result.outcome

  told-append_built :
      (ctx : Context) (r : Result (List ExecutionEvent)) (w : World J) (c : Claims)
      → ((es : List ExecutionEvent) → r ≡ ok es → claims_of es ≡ c)
      → (append_built J u ctx r w).0 ≡ none
      → told (append_built J u ctx r w).1.calls ≡ union (told w.calls) c
  unfolding append_built append_after_io
  told-append_built ctx (err e) w c k h = cc
  told-append_built ctx (ok es) w c k h =
      told-append w.calls _ (claims-append_call es _ h (k es refl))

  pub finish_not_dispatched-Agrees :
      (ctx : Context) (result : ExecuteResult) (cause staged : Option Error) (w : World J)
      (s : AdmissionStatus)
      → valid_admission s ≡ true
      → result.admission ≡ s
      → told w.calls ≡ admission_claims s
      → Agrees (finish_not_dispatched J u ctx result cause staged w)
  unfolding finish_not_dispatched Agrees
  finish_not_dispatched-Agrees ctx result cause staged w s v p t h =
      let e = reports-join_second staged _ h in
      ap (λ (z : Claims). outcome_view z)
        (told-append_built ctx _ _ withheld_claims
          (λ es q.
            claims_of-kinds es
              (kinds-not_dispatched u.codec result.action result.attempt _ cause q))
          e)
      ∙ ap (λ (z : Claims). outcome_view (union z withheld_claims)) t
      ∙ outcome_withheld s v
      ∙ ap (λ z. outcome_of z DispatchStatus.not_dispatched EffectStatus.unknown) (sym p)

  pub on_dispatched-Agrees :
      (ctx : Context) (result : ExecuteResult) (d : DispatchResult) (x : Option Error) (w : World J)
      → valid_dispatch d.status ≡ true
      → result.admission ≡ AdmissionStatus.admitted
      → told w.calls ≡ admission_claims AdmissionStatus.admitted
      → Agrees (on_dispatched J u ctx result d x w)
  unfolding on_dispatched Agrees
  on_dispatched-Agrees ctx result d x w v p t h =
      let e = reports-join_second _ _ h in
      ap (λ (z : Claims). outcome_view z)
        (told-append_built ctx _ _ (dispatch_claims d.status)
          (λ es q.
            claims_of-kinds es
              (kinds-dispatch u.codec result.action result.attempt _ result.target d x q))
          e)
      ∙ ap (λ (z : Claims). outcome_view (union z (dispatch_claims d.status))) t
      ∙ outcome_dispatched d.status v
      ∙ ap (λ z. outcome_of z d.status (effect_after d.status)) (sym p)

  pub told-call :
      (c : PortCall) (w : World J) {k : Claims}
      → written c ≡ []
      → told w.calls ≡ k
      → told (w.calls ++ c ∷ []) ≡ k
  told-call c w h t = told-nothing w.calls c h ∙ t
