-- ===== src/Execution/Protocol.antt =====
-- The order of the calls that `execute` makes.
use atoha.Prelude.{
  ℕ, ◌≡◌, refl, sym, ap, ◌∙◌, Bool, true, false, Option, none, some, List, [], ◌∷◌, ◌++◌, arith,
}
use mathlib.Core.List.{append_assoc, append-nil}
use atoha.Errors.{Result, ok, err, Error}
use atoha.Context.{Context}
use atoha.Core.Outcome.{AdmissionStatus, same_admission}
use atoha.Instant.{Time}
use atoha.Core.Action.{ExecutionAttempt}
use atoha.Core.Provider.{DispatchResult}
use atoha.Core.Event.{ExecutionEvent}
use atoha.Execution.Authorization.{RecoveryAuthorization}
use atoha.Execution.Ports.{Journal, Ports}
use atoha.Execution.Execute.{
  World, append_after_io, append_built, finish_not_dispatched, dispatch_stage, resolve_stage,
  after_admission, admit_stage, claim_stage, execute, on_dispatched, on_resolved,
  on_admission_recorded, on_admission_event, on_admission, on_begun, on_initial, on_attempt,
}
use atoha.Execution.Attempt.{
  ExecuteInput, ExecuteResult, PortCall, begin_call, admit_call, resolve_call, dispatch_call,
  append_call, checked_admission,
}

-- How far an attempt has come: only records may follow `barred`.
pub data Phase : Type 0 where
  start claimed cleared recorded resolved barred : Phase

-- The phase after a call, where the call is allowed.
pub next : Phase → PortCall → Option Phase
next start (begin_call es true none) = some claimed
next start (begin_call es c e) = some barred
next claimed (admit_call AdmissionStatus.admitted none) = some cleared
next claimed (admit_call s e) = some barred
next cleared (append_call es none) = some recorded
next cleared (append_call es (some e)) = some barred
next recorded (resolve_call none) = some resolved
next recorded (resolve_call (some e)) = some barred
next resolved (dispatch_call attempt target) = some barred
next barred (append_call es e) = some barred
next phase call = none

continue : Option Phase → (Phase → Bool) → Bool
continue none f = false
continue (some phase) f = f phase

pub allows : Phase → List PortCall → Bool
unfolding next continue
allows phase [] = true
allows phase (c ∷ cs) = let rest = λ (p : Phase). allows p cs in continue (next phase c) rest

pub invalid_ne_admitted :
    (n : ℕ) → same_admission (AdmissionStatus.invalid n) AdmissionStatus.admitted ≡ false
invalid_ne_admitted n = ground arith

pub invalid_ne_rejected :
    (n : ℕ) → same_admission (AdmissionStatus.invalid n) AdmissionStatus.rejected ≡ false
invalid_ne_rejected n = ground arith

module _ (J : Journal) (u : Ports) where
  -- The calls between two worlds are allowed from the phase on.
  pub record Follows (phase : Phase) (w w' : World J) : Type 0 where
    pub calls : List PortCall
    pub made : w'.calls ≡ w.calls ++ calls
    pub allowed : allows phase calls ≡ true

  append_built-Follows :
      (ctx : Context) (facts : Result (List ExecutionEvent)) (w : World J)
      → Follows barred w (append_built J u ctx facts w).1
  unfolding append_built append_after_io allows
  append_built-Follows ctx (err e) w = record {
    calls = [];
    made = sym (append-nil w.calls);
    allowed = refl;
  }
  append_built-Follows ctx (ok es) w = record { calls = _; made = refl; allowed = refl }

  Follows-call :
      {phase : Phase} (c : PortCall) {q : Phase} {w w1 w' : World J}
      → w1.calls ≡ w.calls ++ c ∷ []
      → next phase c ≡ some q
      → Follows q w1 w'
      → Follows phase w w'
  unfolding allows
  Follows-call c {w = w} m n f = record {
    calls = c ∷ f.calls;
    made = f.made ∙ ap (λ z. z ++ f.calls) m ∙ append_assoc w.calls (c ∷ []) f.calls;
    allowed = rw n f.allowed;
  }

  -- Reading the clock is no call.
  Follows-same :
      {phase : Phase} {w w1 w' : World J}
      → w1.calls ≡ w.calls
      → Follows phase w1 w'
      → Follows phase w w'
  Follows-same m f = record {
    calls = f.calls;
    made = f.made ∙ ap (λ z. z ++ f.calls) m;
    allowed = f.allowed;
  }

  Follows-none : {phase : Phase} {w w' : World J} → w'.calls ≡ w.calls → Follows phase w w'
  unfolding allows
  Follows-none {w = w} m = record {
    calls = [];
    made = m ∙ sym (append-nil w.calls);
    allowed = refl;
  }

  finish_not_dispatched-Follows :
      (ctx : Context) (result : ExecuteResult) (cause staged : Option Error) (w : World J)
      → Follows barred w (finish_not_dispatched J u ctx result cause staged w).2
  unfolding finish_not_dispatched
  finish_not_dispatched-Follows ctx result cause staged w =
      Follows-same refl (append_built-Follows ctx _ _)

  on_dispatched-Follows :
      (ctx : Context) (result : ExecuteResult) (d : DispatchResult) (e : Option Error) (w : World J)
      → Follows barred w (on_dispatched J u ctx result d e w).2
  unfolding on_dispatched
  on_dispatched-Follows ctx result d e w = Follows-same refl (append_built-Follows ctx _ _)

  dispatch_stage-Follows :
      (ctx : Context) (result : ExecuteResult) (w : World J)
      → Follows resolved w (dispatch_stage J u ctx result w).2
  unfolding dispatch_stage next
  dispatch_stage-Follows ctx result w =
      Follows-call (dispatch_call result.attempt result.target) refl refl
        (on_dispatched-Follows ctx _ _ _ _)

  abbrev resolve_phase : Option Error → Phase
  resolve_phase none = resolved
  resolve_phase (some e) = barred

  on_resolved-Follows :
      (ctx : Context) (result : ExecuteResult) (e : Option Error) (w : World J)
      → Follows (resolve_phase e) w (on_resolved J u ctx result e w).2
  unfolding on_resolved
  on_resolved-Follows ctx result none w = dispatch_stage-Follows ctx result w
  on_resolved-Follows ctx result (some e) w = finish_not_dispatched-Follows ctx result _ _ w

  next-resolve : (e : Option Error) → next recorded (resolve_call e) ≡ some (resolve_phase e)
  unfolding next
  next-resolve none = refl
  next-resolve (some e) = refl

  resolve_stage-Follows :
      (ctx : Context) (result : ExecuteResult) (w : World J)
      → Follows recorded w (resolve_stage J u ctx result w).2
  unfolding resolve_stage
  resolve_stage-Follows ctx result w =
      Follows-call (resolve_call (u.resolve ctx result.action).1) refl (next-resolve _)
        (on_resolved-Follows ctx _ _ _)

  -- The phases of an admission, checked, before and after its record.
  abbrev admission_phase : Phase → AdmissionStatus → Option Error → Phase
  admission_phase good AdmissionStatus.admitted none = good
  admission_phase good s e = barred

  after_admission-Follows :
      (ctx : Context) (result : ExecuteResult) (s : AdmissionStatus) (e : Option Error)
      (w : World J)
      → Follows (admission_phase recorded s e) w (after_admission J u ctx result s e w).2
  unfolding after_admission
  after_admission-Follows ctx result AdmissionStatus.admitted none w =
      resolve_stage-Follows ctx result w
  after_admission-Follows ctx result s e w = finish_not_dispatched-Follows ctx result _ _ w

  on_admission_recorded-Follows :
      (ctx : Context) (result : ExecuteResult) (s : AdmissionStatus) (e r : Option Error)
      (w : World J)
      → Follows
          (elim r [ none ↦ admission_phase recorded s e | some x ↦ barred ])
          w
          (on_admission_recorded J u ctx result s e r w).2
  unfolding on_admission_recorded
  on_admission_recorded-Follows ctx result s e none w = after_admission-Follows ctx result s e w
  on_admission_recorded-Follows ctx result s e (some x) w = Follows-none refl

  next-append :
      (s : AdmissionStatus) (e r : Option Error) (es : List ExecutionEvent)
      → next (admission_phase cleared s e) (append_call es r)
        ≡ some (elim r [ none ↦ admission_phase recorded s e | some x ↦ barred ])
  unfolding next
  next-append AdmissionStatus.admitted e r es = ground arith
  next-append s e r es = ground arith

  on_admission_event-Follows :
      (ctx : Context) (result : ExecuteResult) (s : AdmissionStatus) (e : Option Error)
      (event : Result ExecutionEvent) (w : World J)
      → Follows (admission_phase cleared s e) w (on_admission_event J u ctx result s e event w).2
  unfolding on_admission_event append_after_io
  on_admission_event-Follows ctx result s e (err x) w = Follows-none refl
  on_admission_event-Follows ctx result s e (ok event) w =
      Follows-call (append_call (event ∷ []) _) refl (next-append s e _ _)
        (on_admission_recorded-Follows ctx result s e _ _)

  on_admission-Follows :
      (ctx : Context) (result : ExecuteResult) (s : AdmissionStatus) (e : Option Error)
      (w : World J)
      → Follows (admission_phase cleared s e) w (on_admission J u ctx result s e w).2
  unfolding on_admission
  on_admission-Follows ctx result AdmissionStatus.admitted e w =
      Follows-same refl (on_admission_event-Follows ctx result _ e _ _)
  on_admission-Follows ctx result AdmissionStatus.rejected e w =
      Follows-same refl (on_admission_event-Follows ctx result _ e _ _)
  on_admission-Follows ctx result AdmissionStatus.unknown e w =
      after_admission-Follows ctx result _ e w
  on_admission-Follows ctx result (AdmissionStatus.invalid n) e w =
      rw (invalid_ne_admitted n, invalid_ne_rejected n) (after_admission-Follows ctx result _ e w)

  next-admit :
      (r : AdmissionStatus × Option Error)
      → next claimed (admit_call r.0 r.1)
        ≡ some (admission_phase cleared (checked_admission r).0 (checked_admission r).1)
  unfolding next checked_admission
  next-admit (AdmissionStatus.admitted, e) = ground arith
  next-admit (s, e) = ground arith

  admit_stage-Follows :
      (ctx : Context) (result : ExecuteResult) (w : World J)
      → Follows claimed w (admit_stage J u ctx result w).2
  unfolding admit_stage
  admit_stage-Follows ctx result w =
      Follows-call (admit_call (u.admit ctx result.action).0 (u.admit ctx result.action).1) refl
        (next-admit (u.admit ctx result.action)) (on_admission-Follows ctx _ _ _ _)

  abbrev begun_phase : Bool → Option Error → Phase
  begun_phase true none = claimed
  begun_phase c e = barred

  next-begin :
      (es : List ExecutionEvent) (c : Bool) (e : Option Error)
      → next start (begin_call es c e) ≡ some (begun_phase c e)
  unfolding next
  next-begin es true e = ground arith
  next-begin es c e = ground arith

  on_begun-Follows :
      (ctx : Context) (result : ExecuteResult) (c : Bool) (e : Option Error) (w : World J)
      → Follows (begun_phase c e) w (on_begun J u ctx result c e w).2
  unfolding on_begun
  on_begun-Follows ctx result true none w = admit_stage-Follows ctx result w
  on_begun-Follows ctx result false none w = Follows-none refl
  on_begun-Follows ctx result c (some e) w = Follows-none refl

  claim_stage-Follows :
      (ctx : Context) (result : ExecuteResult) (es : List ExecutionEvent) (w : World J)
      → Follows start w (claim_stage J u ctx result es w).2
  unfolding claim_stage
  claim_stage-Follows ctx result es w =
      Follows-call (begin_call es _ _) refl (next-begin es _ _) (on_begun-Follows ctx result _ _ _)

  on_initial-Follows :
      (ctx : Context) (result : ExecuteResult) (r : Result (List ExecutionEvent)) (w : World J)
      → Follows start w (on_initial J u ctx result r w).2
  unfolding on_initial
  on_initial-Follows ctx result (err e) w = Follows-none refl
  on_initial-Follows ctx result (ok es) w = claim_stage-Follows ctx result es w

  on_attempt-Follows :
      (ctx : Context) (input : ExecuteInput) (a : Option RecoveryAuthorization) (t : Time)
      (r : Result ExecutionAttempt) (w : World J)
      → Follows start w (on_attempt J u ctx input a t r w).2
  unfolding on_attempt
  on_attempt-Follows ctx input a t (err e) w = Follows-none refl
  on_attempt-Follows ctx input a t (ok attempt) w = on_initial-Follows ctx _ _ w

  -- The calls of an attempt, whatever the ports return, follow the protocol: the journal is asked
  -- for the claim first; only if it grants it without an error is the admitter asked; only if the
  -- answer is admitted, without an error, and that is recorded without an error, is the target
  -- resolved; only if that has no error is the provider called, and then once; and any other call
  -- is a record in the journal.
  pub execute-Follows :
      (ctx : Context) (input : ExecuteInput) (a : Option RecoveryAuthorization) (w : World J)
      → Follows start w (execute J u ctx input a w).2
  unfolding execute
  execute-Follows ctx input a w = Follows-same refl (on_attempt-Follows ctx input a _ _ _)
