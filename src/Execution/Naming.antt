-- ===== src/Execution/Naming.antt =====
-- What action and attempt `execute` (execution/execute.go) returns a result of.
use atoha.Prelude.{
  ◌≡◌, refl, Bool, true, false, ◌||◌, Option, none, some, List, Bool-cases, inl, inr,
}
use atoha.Errors.{Result, ok, err, Error}
use atoha.Context.{Context}
use atoha.Core.Outcome.{AdmissionStatus, same_admission}
use atoha.Core.Event.{ExecutionEvent}
use atoha.Execution.Ports.{Journal, Ports}
use atoha.Execution.Execute.{
  World, append_after_io, finish_not_dispatched, on_dispatched, dispatch_stage, on_resolved,
  resolve_stage, after_admission, on_admission_recorded, on_admission_event, on_admission,
  admit_stage, on_begun, claim_stage, on_initial,
}
use atoha.Execution.Attempt.{ExecuteResult}

-- One result is of the other's action and attempt.
pub record SameAttempt (r s : ExecuteResult) : Type 0 where
  pub action : r.action ≡ s.action
  pub attempt : r.attempt ≡ s.attempt

abbrev same : (r : ExecuteResult) → SameAttempt r r
same r = record { action = refl; attempt = refl }

module _ (J : Journal) (u : Ports) where
  SameAttempt-on_resolved :
      (ctx : Context) (result : ExecuteResult) (e : Option Error) (w : World J)
      → SameAttempt (on_resolved J u ctx result e w).0 result
  unfolding on_resolved dispatch_stage on_dispatched finish_not_dispatched
  SameAttempt-on_resolved ctx result none w = record { action = refl; attempt = refl }
  SameAttempt-on_resolved ctx result (some e) w = record { action = refl; attempt = refl }

  SameAttempt-after_admission :
      (ctx : Context) (result : ExecuteResult) (s : AdmissionStatus) (e : Option Error)
      (w : World J)
      → SameAttempt (after_admission J u ctx result s e w).0 result
  unfolding after_admission resolve_stage finish_not_dispatched
  SameAttempt-after_admission ctx result AdmissionStatus.admitted none w =
      let n =
        SameAttempt-on_resolved ctx (record result { target = (u.resolve ctx result.action).0 })
          (u.resolve ctx result.action).1 _ in
      record { action = n.action; attempt = n.attempt }
  SameAttempt-after_admission ctx result s e w = record { action = refl; attempt = refl }

  SameAttempt-on_admission_recorded :
      (ctx : Context) (result : ExecuteResult) (s : AdmissionStatus) (e r : Option Error)
      (w : World J)
      → SameAttempt (on_admission_recorded J u ctx result s e r w).0 result
  unfolding on_admission_recorded
  SameAttempt-on_admission_recorded ctx result s e none w =
      SameAttempt-after_admission ctx result s e w
  SameAttempt-on_admission_recorded ctx result s e (some x) w = same result

  SameAttempt-on_admission_event :
      (ctx : Context) (result : ExecuteResult) (s : AdmissionStatus) (e : Option Error)
      (event : Result ExecutionEvent) (w : World J)
      → SameAttempt (on_admission_event J u ctx result s e event w).0 result
  unfolding on_admission_event append_after_io
  SameAttempt-on_admission_event ctx result s e (err x) w = same result
  SameAttempt-on_admission_event ctx result s e (ok d) w =
      SameAttempt-on_admission_recorded ctx result s e _ _

  SameAttempt-on_admission :
      (ctx : Context) (result : ExecuteResult) (s : AdmissionStatus) (e : Option Error)
      (w : World J)
      → SameAttempt (on_admission J u ctx result s e w).0 result
  unfolding on_admission
  SameAttempt-on_admission ctx result s e w =
      elim (Bool-cases
        (same_admission s AdmissionStatus.admitted || same_admission s AdmissionStatus.rejected)) [
          | inl p ↦ rw p (SameAttempt-on_admission_event ctx result s e _ _)
          | inr p ↦ rw p (SameAttempt-after_admission ctx result s e w)
        ]

  SameAttempt-on_begun :
      (ctx : Context) (result : ExecuteResult) (c : Bool) (e : Option Error) (w : World J)
      → SameAttempt (on_begun J u ctx result c e w).0 result
  unfolding on_begun admit_stage
  SameAttempt-on_begun ctx result true none w =
      let n = SameAttempt-on_admission ctx _ _ _ _ in
      record { action = n.action; attempt = n.attempt }
  SameAttempt-on_begun ctx result false none w = same result
  SameAttempt-on_begun ctx result true (some e) w = same result
  SameAttempt-on_begun ctx result false (some e) w = same result

  pub SameAttempt-on_initial :
      (ctx : Context) (result : ExecuteResult) (r : Result (List ExecutionEvent)) (w : World J)
      → SameAttempt (on_initial J u ctx result r w).0 result
  unfolding on_initial claim_stage
  SameAttempt-on_initial ctx result (err e) w = same result
  SameAttempt-on_initial ctx result (ok es) w = SameAttempt-on_begun ctx result _ _ _
