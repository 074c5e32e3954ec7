-- ===== src/Execution/Filing.antt =====
-- Under which identities `execute` (execution/execute.go) files what it records.
use atoha.Prelude.{
  String, ◌≡◌, refl, subst, sym, Bool, true, false, ◌||◌, Option, none, some, List, [], ◌∷◌, ◌++◌,
  arith, Bool-cases, inl, inr,
}
use atoha.Instant.{Time}
use atoha.Errors.{Result, ok, err, Error}
use atoha.Context.{Context}
use atoha.Core.Action.{ExecutionAttempt, ExecutionAttemptSpec, new_execution_attempt}
use atoha.Core.Outcome.{AdmissionStatus, same_admission}
use atoha.Core.Event.{ExecutionEvent}
use atoha.Core.Provider.{DispatchResult}
use atoha.Execution.Authorization.{RecoveryAuthorization}
use atoha.Execution.Ports.{Journal, Ports}
use atoha.Execution.Execute.{
  World, Done, append_after_io, append_built, finish_not_dispatched, on_dispatched, dispatch_stage,
  on_resolved, resolve_stage, after_admission, on_admission_recorded, on_admission_event,
  on_admission, admit_stage, on_begun, claim_stage, on_initial, on_attempt, execute,
}
use atoha.Execution.Attempt.{
  ExecuteInput, ExecuteResult, PortCall, begin_call, append_call, admit_call, resolve_call,
  dispatch_call, attempt_spec,
}
use atoha.Execution.Told.{written, recorded_facts, recorded_facts-append}
use atoha.Execution.Filed.{
  Filed, Filed-append, Filed-admission, Filed-not_dispatched, Filed-dispatch, Filed-initial,
}

-- What has been put into the journal is all of the result's action and attempt.
abbrev Keeps : ExecuteResult → List PortCall → Type 0
Keeps result cs = Filed result.action.id result.attempt.id (recorded_facts cs)

Keeps-call :
    (result : ExecuteResult) (cs : List PortCall) (c : PortCall)
    → Keeps result cs
    → Filed result.action.id result.attempt.id (written c)
    → Keeps result (cs ++ c ∷ [])
Keeps-call result cs c h k =
    subst (Filed result.action.id result.attempt.id) (sym (recorded_facts-append cs c))
      (Filed-append _ _ (recorded_facts cs) (written c) h k)

Filed-written :
    (a t : String) (es : List ExecutionEvent) (r : Option Error)
    → Filed a t es
    → Filed a t (written (append_call es r))
unfolding written
Filed-written a t es none h = h
Filed-written a t es (some e) h = refl

Filed-begin :
    (a t : String) (es : List ExecutionEvent) (c : Bool) (r : Option Error)
    → Filed a t es
    → Filed a t (written (begin_call es c r))
unfolding written
Filed-begin a t es true none h = h
Filed-begin a t es false none h = refl
Filed-begin a t es true (some e) h = refl
Filed-begin a t es false (some e) h = refl

id-new_execution_attempt :
    (spec : ExecutionAttemptSpec) {attempt : ExecutionAttempt}
    → new_execution_attempt spec ≡ ok attempt
    → attempt.id ≡ spec.id
unfolding new_execution_attempt
id-new_execution_attempt spec h = ground arith

module _ (J : Journal) (u : Ports) where
  -- A return has filed all under its result's identities, if all was before.
  abbrev Files : ExecuteResult → Done J u → Type 0
  Files result d = Keeps result d.2.calls

  Files-append_built :
      (ctx : Context) (result : ExecuteResult) (r : Result (List ExecutionEvent)) (w : World J)
      → Keeps result w.calls
      → ((es : List ExecutionEvent) → r ≡ ok es → Filed result.action.id result.attempt.id es)
      → Keeps result (append_built J u ctx r w).1.calls
  unfolding append_built append_after_io
  Files-append_built ctx result (err e) w h k = h
  Files-append_built ctx result (ok es) w h k =
      Keeps-call result w.calls _ h (Filed-written _ _ es _ (k es refl))

  Files-not_dispatched :
      (ctx : Context) (result : ExecuteResult) (cause staged : Option Error) (w : World J)
      → Keeps result w.calls
      → Files result (finish_not_dispatched J u ctx result cause staged w)
  unfolding finish_not_dispatched
  Files-not_dispatched ctx result cause staged w h =
      Files-append_built ctx result _ _ h
        (λ es q. Filed-not_dispatched u.codec result.action result.attempt _ cause q)

  Files-on_dispatched :
      (ctx : Context) (result : ExecuteResult) (d : DispatchResult) (x : Option Error) (w : World J)
      → Keeps result w.calls
      → Files result (on_dispatched J u ctx result d x w)
  unfolding on_dispatched
  Files-on_dispatched ctx result d x w h =
      Files-append_built ctx result _ _ h
        (λ es q. Filed-dispatch u.codec result.action result.attempt _ result.target d x q)

  Files-on_resolved :
      (ctx : Context) (result : ExecuteResult) (e : Option Error) (w : World J)
      → Keeps result w.calls
      → Files result (on_resolved J u ctx result e w)
  unfolding on_resolved dispatch_stage written
  Files-on_resolved ctx result none w h =
      Files-on_dispatched ctx result _ _ _ (Keeps-call result w.calls (dispatch_call _ _) h refl)
  Files-on_resolved ctx result (some e) w h = Files-not_dispatched ctx result _ _ w h

  Files-after_admission :
      (ctx : Context) (result : ExecuteResult) (s : AdmissionStatus) (e : Option Error)
      (w : World J)
      → Keeps result w.calls
      → Files result (after_admission J u ctx result s e w)
  unfolding after_admission resolve_stage written
  Files-after_admission ctx result AdmissionStatus.admitted none w h =
      Files-on_resolved ctx (record result { target = (u.resolve ctx result.action).0 }) _ _
        (Keeps-call result w.calls (resolve_call _) h refl)
  Files-after_admission ctx result s e w h = Files-not_dispatched ctx result _ _ w h

  Files-on_recorded :
      (ctx : Context) (result : ExecuteResult) (s : AdmissionStatus) (e r : Option Error)
      (w : World J)
      → Keeps result w.calls
      → Files result (on_admission_recorded J u ctx result s e r w)
  unfolding on_admission_recorded
  Files-on_recorded ctx result s e none w h = Files-after_admission ctx result s e w h
  Files-on_recorded ctx result s e (some x) w h = h

  Files-on_admission_event :
      (ctx : Context) (result : ExecuteResult) (s : AdmissionStatus) (e : Option Error)
      (event : Result ExecutionEvent) (w : World J)
      → Keeps result w.calls
      → ((d : ExecutionEvent) → event ≡ ok d → Filed result.action.id result.attempt.id (d ∷ []))
      → Files result (on_admission_event J u ctx result s e event w)
  unfolding on_admission_event append_after_io
  Files-on_admission_event ctx result s e (err x) w h k = h
  Files-on_admission_event ctx result s e (ok d) w h k =
      Files-on_recorded ctx result s e _ _
        (Keeps-call result w.calls _ h (Filed-written _ _ (d ∷ []) _ (k d refl)))

  Files-on_admission :
      (ctx : Context) (result : ExecuteResult) (s : AdmissionStatus) (e : Option Error)
      (w : World J)
      → Keeps result w.calls
      → Files result (on_admission J u ctx result s e w)
  unfolding on_admission
  Files-on_admission ctx result s e w h =
      elim (Bool-cases
        (same_admission s AdmissionStatus.admitted || same_admission s AdmissionStatus.rejected)) [
          | inl p ↦ rw p (
              Files-on_admission_event ctx result s e _ _ h
                (λ d q. Filed-admission u.codec result.action result.attempt _ s e q))
          | inr p ↦ rw p (Files-after_admission ctx result s e w h)
        ]

  Files-on_begun :
      (ctx : Context) (result : ExecuteResult) (c : Bool) (e : Option Error) (w : World J)
      → Keeps result w.calls
      → Files result (on_begun J u ctx result c e w)
  unfolding on_begun admit_stage written
  Files-on_begun ctx result true none w h =
      Files-on_admission ctx _ _ _ _ (Keeps-call result w.calls (admit_call _ _) h refl)
  Files-on_begun ctx result false none w h = h
  Files-on_begun ctx result c (some e) w h = h

  Files-on_initial :
      (ctx : Context) (result : ExecuteResult) (r : Result (List ExecutionEvent)) (w : World J)
      → Keeps result w.calls
      → ((es : List ExecutionEvent) → r ≡ ok es → Filed result.action.id result.attempt.id es)
      → Files result (on_initial J u ctx result r w)
  unfolding on_initial claim_stage
  Files-on_initial ctx result (err e) w h k = h
  Files-on_initial ctx result (ok es) w h k =
      Files-on_begun ctx result _ _ _
        (Keeps-call result w.calls _ h (Filed-begin _ _ es _ _ (k es refl)))

  Filed-on_attempt :
      (ctx : Context) (input : ExecuteInput) (a : Option RecoveryAuthorization) (time : Time)
      (r : Result ExecutionAttempt) (w : World J)
      → w.calls ≡ []
      → ((attempt : ExecutionAttempt) → r ≡ ok attempt → attempt.id ≡ input.attempt_id)
      → Filed input.action.id input.attempt_id
          (recorded_facts (on_attempt J u ctx input a time r w).2.calls)
  unfolding on_attempt recorded_facts
  Filed-on_attempt ctx input a time (err e) w h k = rw h refl
  Filed-on_attempt ctx input a time (ok attempt) w h k =
      subst
        (λ z.
          Filed input.action.id z
            (recorded_facts (on_attempt J u ctx input a time (ok attempt) w).2.calls))
        (k attempt refl)
        (Files-on_initial ctx _ _ w (rw h refl)
          (λ es q. Filed-initial u input.action attempt a time q))

  -- Whatever the ports return, begun with no call made.
  pub Filed-execute :
      (ctx : Context) (input : ExecuteInput) (a : Option RecoveryAuthorization) (w : World J)
      → w.calls ≡ []
      → Filed input.action.id input.attempt_id (recorded_facts (execute J u ctx input a w).2.calls)
  unfolding execute attempt_spec
  Filed-execute ctx input a w h =
      Filed-on_attempt ctx input a _ _ _ h
        (λ attempt q. id-new_execution_attempt (attempt_spec input a _) q)
