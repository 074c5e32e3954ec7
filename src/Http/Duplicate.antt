-- ===== src/Http/Duplicate.antt =====
-- A request to execute an attempt whose identity is claimed already.
use atoha.Prelude.{
  ◌+◌, ◌≡◌, refl, sym, ◌∙◌, subst, Bool, true, false, ◌||◌, Option, none, some, List, [], ◌∷◌, ◌++◌,
  arith, str_eq, Bool-cases, inl, inr,
}
use atoha.Context.{Context}
use atoha.Errors.{
  ok, Error, error_is, stage_error, record_stage, validate, sentinel, attempt_already_started,
  action_identity_conflict,
}
use atoha.Core.Action.{Action, ExecutionAttempt, ExecutionAttemptSpec, new_execution_attempt}
use atoha.Core.Event.{ExecutionEvent}
use atoha.Eventlog.Memory.{Log, begin_attempt, action_conflicts}
use atoha.Eventlog.Memory.Atomic.{begin_attempt_log}
use atoha.Execution.Ports.{Ports}
use atoha.Execution.MemoryJournal.{memory_journal}
use atoha.Execution.Execute.{World, clock, on_begun, claim_stage, on_initial, on_attempt, execute}
use atoha.Execution.Attempt.{ExecuteResult, zero_result, begin_call, attempt_spec, initial_events}
use atoha.Http.{
  ExecuteRequest, action_of, use_case_status, use_case_error, write_execution, on_execute,
  execute_handler,
}

-- What on_begun makes of a refused claim.
abbrev refusal : Option Error → Option Error
refusal none = stage_error validate (some (sentinel attempt_already_started))
refusal (some e) = stage_error record_stage (some e)

module _ (ctx : Context) (action : Action) (attempt : ExecutionAttempt) (es : List ExecutionEvent)
    (l : Log) {x : Unit {0}} where
  begin_taken :
      ctx.err ≡ none
      → l.attempts attempt.id ≡ some x
      → ((begin_attempt ctx action attempt es l).claimed ≡ false)
        × (use_case_status (refusal (begin_attempt ctx action attempt es l).failure) ≡ 409)
        × ((error_is attempt_already_started
                (refusal (begin_attempt ctx action attempt es l).failure)
              || error_is action_identity_conflict
                  (refusal (begin_attempt ctx action attempt es l).failure))
            ≡ true)
  unfolding begin_attempt use_case_status error_is stage_error
  begin_taken live taken = elim (Bool-cases (str_eq attempt.action_id action.id)) [
    | inr p ↦ rw (live, p) (refl, refl, refl)
    | inl p ↦ elim (Bool-cases (action_conflicts (l.actions action.id) action)) [
      | inl q ↦ rw (live, p, q) (refl, refl, refl)
      | inr q ↦ rw (live, p, q, taken) (refl, refl, refl)
    ]
  ]

on_begun-refused :
    (u : Ports) (ctx : Context) (result : ExecuteResult) (claimed : Bool) (e : Option Error)
    (w : World memory_journal)
    → claimed ≡ false
    → on_begun memory_journal u ctx result claimed e w ≡ (result, refusal e, w)
unfolding on_begun
on_begun-refused u ctx result claimed (some e) w h = refl
on_begun-refused u ctx result true none w h = cc
on_begun-refused u ctx result false none w h = refl

write_conflict :
    (result : ExecuteResult) (e : Option Error)
    → use_case_status e ≡ 409
    → (error_is attempt_already_started e || error_is action_identity_conflict e) ≡ true
    → (write_execution result e).status ≡ 409
unfolding write_execution use_case_error
write_conflict result e s h = ground arith

id-new_execution_attempt :
    (spec : ExecutionAttemptSpec) {attempt : ExecutionAttempt}
    → new_execution_attempt spec ≡ ok attempt
    → attempt.id ≡ spec.id
unfolding new_execution_attempt
id-new_execution_attempt spec h = ground arith

log_kept :
    (ctx : Context) (action : Action) (attempt : ExecutionAttempt) (es : List ExecutionEvent)
    (l : Log)
    → (begin_attempt ctx action attempt es l).claimed ≡ false
    → (begin_attempt ctx action attempt es l).log ≡ l
log_kept ctx action attempt es l h = begin_attempt_log ctx action attempt es l ∙ rw h refl

-- The world after a claim that was refused, where `e` is its error.
abbrev pub after_refusal :
    List ExecutionEvent → Option Error → World memory_journal → World memory_journal
after_refusal es e w = record w { calls = w.calls ++ begin_call es false e ∷ [] }

claim_stage-taken :
    (u : Ports) (ctx : Context) (result : ExecuteResult) (es : List ExecutionEvent)
    (w : World memory_journal) {x : Unit {0}}
    → ctx.err ≡ none
    → w.state.attempts result.attempt.id ≡ some x
    → let e = (begin_attempt ctx result.action result.attempt es w.state).failure in
      claim_stage memory_journal u ctx result es w ≡ (result, refusal e, after_refusal es e w)
unfolding claim_stage
claim_stage-taken u ctx result es w live taken =
    let t = begin_taken ctx result.action result.attempt es w.state live taken in
    let kept = log_kept ctx result.action result.attempt es w.state t.0 in
    let e = (begin_attempt ctx result.action result.attempt es w.state).failure in
    on_begun-refused u ctx result _ e _ t.0 ∙ (λ i. (
      result,
      refusal e,
      record w { state = kept i; calls = w.calls ++ begin_call es (t.0 i) e ∷ [] },
    ))

-- A request to execute an attempt whose identity the memory log has claimed already is answered by
-- 409, with a live context, if the action, the attempt and the initial facts can be built: the only
-- call is that of BeginAttempt, which claims nothing, and the log stays as it is.
pub duplicate_conflict :
    (u : Ports) (ctx : Context) (r : ExecuteRequest) (w : World memory_journal) (action : Action)
    (attempt : ExecutionAttempt) (es : List ExecutionEvent) {x : Unit {0}}
    → ctx.err ≡ none
    → action_of r.action ≡ ok action
    → new_execution_attempt (
        attempt_spec
          (record { action = action; attempt_id = r.attempt_id })
          none
          (clock memory_journal u w))
      ≡ ok attempt
    → initial_events u action attempt none (clock memory_journal u w) ≡ ok es
    → w.state.attempts r.attempt_id ≡ some x
    → let e = (begin_attempt ctx action attempt es w.state).failure in
      let (response, w') = execute_handler memory_journal u ctx (ok r) w in
      (response.status ≡ 409)
      × (w' ≡ record w { ticks = w.ticks + 1; calls = w.calls ++ begin_call es false e ∷ [] })
unfolding execute_handler on_execute execute on_attempt on_initial attempt_spec
duplicate_conflict u ctx r w action attempt es {x} live valid built facts taken =
    let i : attempt.id ≡ r.attempt_id = id-new_execution_attempt _ built in
    let t =
      begin_taken ctx action attempt es w.state live
        (subst (λ k. w.state.attempts k ≡ some x) (sym i) taken) in
    let result : ExecuteResult = record zero_result { action = action; attempt = attempt } in
    let w1 : World memory_journal = record w { ticks = w.ticks + 1 } in
    let c =
      claim_stage-taken u ctx result es w1 live
        (subst (λ k. w.state.attempts k ≡ some x) (sym i) taken) in
    rw (valid, built, facts) (rw c (write_conflict result _ t.1 t.2, refl))
