-- ===== src/Execution/Agreement.antt =====
-- What `execute` (execution/execute.go) returns, beside what it records.
use atoha.Prelude.{◌≡◌, refl, sym, ap, ◌∙◌, Bool, true, false, Option, none, some, List, [], ◌∷◌}
use atoha.Instant.{Time}
use atoha.Errors.{Result, ok, err, Error, reports, reports-join_second, record_stage, stage_error}
use atoha.Context.{Context}
use atoha.Core.Action.{ExecutionAttempt}
use atoha.Core.Outcome.{AdmissionStatus, zero_outcome, valid_admission}
use atoha.Core.Event.{ExecutionEvent}
use atoha.Projection.{blank, outcome}
use atoha.Projection.Replay.{replay, replay-claims}
use atoha.Execution.Filing.{Filed-execute}
use atoha.Projection.Claims.{Claims, no_claims, union, claims_of, claims_of-kinds, outcome_view}
use atoha.Execution.Authorization.{RecoveryAuthorization}
use atoha.Execution.Ports.{Journal, Ports}
use atoha.Execution.Events.{admission_kind}
use atoha.Execution.Kinds.{kinds-initial, kind-admission}
use atoha.Execution.Execute.{
  World, append_after_io, dispatch_stage, on_resolved, resolve_stage, after_admission,
  on_admission_recorded, on_admission_event, on_admission, admit_stage, on_begun, claim_stage,
  on_initial, on_attempt, execute,
}
use atoha.Execution.Attempt.{ExecuteInput, ExecuteResult, admit_call, resolve_call, dispatch_call}
use atoha.Execution.Agreeing.{Agrees, finish_not_dispatched-Agrees, on_dispatched-Agrees, told-call}
use atoha.Execution.Told.{
  written, recorded_facts, told, told-append, claims-append_call, admission_claims, ReturnsValid,
  valid-normalize_dispatch, valid_invalid, valid-checked_admission, claims-begin, claims-initial,
  told-no_calls,
}

module _ (J : Journal) (u : Ports) where
  module _ (returns : ReturnsValid u) where
    dispatch_stage-Agrees :
        (ctx : Context) (result : ExecuteResult) (w : World J)
        → result.admission ≡ AdmissionStatus.admitted
        → told w.calls ≡ admission_claims AdmissionStatus.admitted
        → Agrees J u (dispatch_stage J u ctx result w)
    unfolding dispatch_stage ReturnsValid written
    dispatch_stage-Agrees ctx result w p t =
        on_dispatched-Agrees J u ctx result _ _ _
          (valid-normalize_dispatch _ _ _ (returns ctx result.attempt result.action result.target))
          p (told-call J u (dispatch_call _ _) w refl t)

    on_resolved-Agrees :
        (ctx : Context) (result : ExecuteResult) (e : Option Error) (w : World J)
        → result.admission ≡ AdmissionStatus.admitted
        → told w.calls ≡ admission_claims AdmissionStatus.admitted
        → Agrees J u (on_resolved J u ctx result e w)
    unfolding on_resolved valid_admission
    on_resolved-Agrees ctx result none w p t = dispatch_stage-Agrees ctx result w p t
    on_resolved-Agrees ctx result (some e) w p t =
        finish_not_dispatched-Agrees J u ctx result _ _ w AdmissionStatus.admitted refl p t

    resolve_stage-Agrees :
        (ctx : Context) (result : ExecuteResult) (w : World J)
        → result.admission ≡ AdmissionStatus.admitted
        → told w.calls ≡ admission_claims AdmissionStatus.admitted
        → Agrees J u (resolve_stage J u ctx result w)
    unfolding resolve_stage written
    resolve_stage-Agrees ctx result w p t =
        on_resolved-Agrees ctx _ _ _ p (told-call J u (resolve_call _) w refl t)

    after_admission-Agrees :
        (ctx : Context) (result : ExecuteResult) (s : AdmissionStatus) (e : Option Error)
        (w : World J)
        → valid_admission s ≡ true
        → result.admission ≡ s
        → told w.calls ≡ admission_claims s
        → Agrees J u (after_admission J u ctx result s e w)
    unfolding after_admission
    after_admission-Agrees ctx result AdmissionStatus.admitted none w v p t =
        resolve_stage-Agrees ctx result w p t
    after_admission-Agrees ctx result s e w v p t =
        finish_not_dispatched-Agrees J u ctx result _ _ w _ v p t

    on_admission_recorded-Agrees :
        (ctx : Context) (result : ExecuteResult) (s : AdmissionStatus) (e r : Option Error)
        (w : World J)
        → valid_admission s ≡ true
        → result.admission ≡ s
        → (r ≡ none → told w.calls ≡ admission_claims s)
        → Agrees J u (on_admission_recorded J u ctx result s e r w)
    unfolding on_admission_recorded Agrees
    on_admission_recorded-Agrees ctx result s e none w v p t =
        after_admission-Agrees ctx result s e w v p (t refl)
    on_admission_recorded-Agrees ctx result s e (some x) w v p t =
        λ h. cc (reports-join_second _ _ h)

    on_admission_event-Agrees :
        (ctx : Context) (result : ExecuteResult) (s : AdmissionStatus) (e : Option Error)
        (event : Result ExecutionEvent) (w : World J)
        → valid_admission s ≡ true
        → result.admission ≡ s
        → told w.calls ≡ no_claims
        → ((d : ExecutionEvent) → event ≡ ok d → claims_of (d ∷ []) ≡ admission_claims s)
        → Agrees J u (on_admission_event J u ctx result s e event w)
    unfolding on_admission_event append_after_io Agrees reports stage_error
    on_admission_event-Agrees ctx result s e (err x) w v p t k = λ h. cc
    on_admission_event-Agrees ctx result s e (ok d) w v p t k =
        on_admission_recorded-Agrees ctx result s e _ _ v p (λ r.
          told-append w.calls _ (claims-append_call (d ∷ []) _ r (k d refl))
          ∙ ap (λ (z : Claims). union z (admission_claims s)) t)

    on_admission-Agrees :
        (ctx : Context) (result : ExecuteResult) (s : AdmissionStatus) (e : Option Error)
        (w : World J)
        → valid_admission s ≡ true
        → result.admission ≡ s
        → told w.calls ≡ no_claims
        → Agrees J u (on_admission J u ctx result s e w)
    unfolding on_admission admission_kind
    on_admission-Agrees ctx result AdmissionStatus.admitted e w v p t =
        on_admission_event-Agrees ctx result _ e _ _ v p t (λ d q.
          claims_of-kinds (d ∷ [])
            (ap (λ k. k ∷ []) (kind-admission u.codec result.action result.attempt _ _ e q)))
    on_admission-Agrees ctx result AdmissionStatus.rejected e w v p t =
        on_admission_event-Agrees ctx result _ e _ _ v p t (λ d q.
          claims_of-kinds (d ∷ [])
            (ap (λ k. k ∷ []) (kind-admission u.codec result.action result.attempt _ _ e q)))
    on_admission-Agrees ctx result AdmissionStatus.unknown e w v p t =
        after_admission-Agrees ctx result _ e w v p t
    on_admission-Agrees ctx result (AdmissionStatus.invalid n) e w v p t =
        absurd (valid_invalid n v)

    admit_stage-Agrees :
        (ctx : Context) (result : ExecuteResult) (w : World J)
        → told w.calls ≡ no_claims
        → Agrees J u (admit_stage J u ctx result w)
    unfolding admit_stage written
    admit_stage-Agrees ctx result w t =
        on_admission-Agrees ctx _ _ _ _ (valid-checked_admission (u.admit ctx result.action)) refl
          (told-call J u (admit_call _ _) w refl t)

    on_begun-Agrees :
        (ctx : Context) (result : ExecuteResult) (c : Bool) (e : Option Error) (w : World J)
        → result.outcome ≡ zero_outcome
        → told w.calls ≡ no_claims
        → Agrees J u (on_begun J u ctx result c e w)
    unfolding on_begun Agrees
    on_begun-Agrees ctx result true none w p t = admit_stage-Agrees ctx result w t
    on_begun-Agrees ctx result false none w p t = λ h. ap (λ (z : Claims). outcome_view z) t ∙ sym p
    on_begun-Agrees ctx result c (some e) w p t = λ h. ap (λ (z : Claims). outcome_view z) t ∙ sym p

    claim_stage-Agrees :
        (ctx : Context) (result : ExecuteResult) (es : List ExecutionEvent) (w : World J)
        → result.outcome ≡ zero_outcome
        → claims_of es ≡ no_claims
        → told w.calls ≡ no_claims
        → Agrees J u (claim_stage J u ctx result es w)
    unfolding claim_stage
    claim_stage-Agrees ctx result es w p k t =
        on_begun-Agrees ctx result _ _ _ p
          (told-append w.calls _ (claims-begin es _ _ k) ∙ ap (λ (z : Claims). union z no_claims) t)

    on_initial-Agrees :
        (ctx : Context) (result : ExecuteResult) (r : Result (List ExecutionEvent)) (w : World J)
        → result.outcome ≡ zero_outcome
        → ((es : List ExecutionEvent) → r ≡ ok es → claims_of es ≡ no_claims)
        → told w.calls ≡ no_claims
        → Agrees J u (on_initial J u ctx result r w)
    unfolding on_initial Agrees
    on_initial-Agrees ctx result (err e) w p k t =
        λ h. ap (λ (z : Claims). outcome_view z) t ∙ sym p
    on_initial-Agrees ctx result (ok es) w p k t =
        claim_stage-Agrees ctx result es w p (k es refl) t

    on_attempt-Agrees :
        (ctx : Context) (input : ExecuteInput) (a : Option RecoveryAuthorization) (time : Time)
        (r : Result ExecutionAttempt) (w : World J)
        → told w.calls ≡ no_claims
        → Agrees J u (on_attempt J u ctx input a time r w)
    unfolding on_attempt Agrees
    on_attempt-Agrees ctx input a time (err e) w t = λ h. ap (λ (z : Claims). outcome_view z) t
    on_attempt-Agrees ctx input a time (ok attempt) w t =
        on_initial-Agrees ctx _ _ w refl
          (λ es q.
            claims_of-kinds es (kinds-initial u input.action attempt a time q) ∙ claims-initial a)
          t

execute-Agrees :
    (J : Journal) (u : Ports)
    → ReturnsValid u
    → (ctx : Context) (input : ExecuteInput) (a : Option RecoveryAuthorization) (w : World J)
    → w.calls ≡ []
    → Agrees J u (execute J u ctx input a w)
unfolding execute
execute-Agrees J u returns ctx input a w empty =
    on_attempt-Agrees J u returns ctx input a _ _ _ (ap told empty ∙ told-no_calls)

-- Whatever the admitter, the resolver and the journal return, and whatever a provider returns with
-- a status among the constants: unless the error of `execute`, begun with no call made, reports
-- that a record failed, the facts that it put into the journal, replayed on the blank view of its
-- action and attempt, fail nowhere and give just the outcome that it returns.
pub execute_outcome_recorded :
    (J : Journal) (u : Ports)
    → ReturnsValid u
    → (ctx : Context) (input : ExecuteInput) (a : Option RecoveryAuthorization) (w : World J)
    → w.calls ≡ []
    → reports record_stage (execute J u ctx input a w).1 ≡ false
    → let r =
        replay
          (recorded_facts (execute J u ctx input a w).2.calls)
          (blank input.action.id input.attempt_id) in
      (r.0 ≡ none) × (outcome r.1 ≡ (execute J u ctx input a w).0.outcome)
unfolding told Agrees
execute_outcome_recorded J u returns ctx input a w empty h =
    let c =
      replay-claims input.action.id input.attempt_id _ (Filed-execute J u ctx input a w empty) in
    (c.0, c.1 ∙ execute-Agrees J u returns ctx input a w empty h)
