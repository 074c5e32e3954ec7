-- ===== src/Execution/Told.antt =====
-- What the facts that `execute` has recorded claim.
use atoha.Prelude.{
  str_eq, ◌&&◌, ℕ, String, ◌≡◌, refl, sym, ap, ◌∙◌, Bool, true, false, Option, none, some, List, [],
  ◌∷◌, ◌++◌, arith, Bool-cases, inl, inr, if◌then◌else◌,
}
use mathlib.Core.List.{append_assoc, append-nil}
use atoha.Errors.{Result, ok, err, Error}
use atoha.Context.{Context}
use atoha.Core.Action.{Action, ExecutionAttempt}
use atoha.Core.Outcome.{
  AdmissionStatus, DispatchStatus, EffectStatus, valid_admission, valid_dispatch,
}
use atoha.Core.Event.{EventKind, ExecutionEvent}
use atoha.Core.Provider.{DispatchResult, DispatchResultSpec, ResolvedTarget, new_dispatch_result}
use atoha.Projection.Claims.{
  Claims, no_claims, add, union, claims_of, claims_of-append, claims_of-nil, kinds_claims,
  outcome_view,
}
use atoha.Execution.Authorization.{RecoveryAuthorization}
use atoha.Execution.Ports.{Ports}
use atoha.Execution.Events.{dispatch_kind, was_sent}
use atoha.Execution.Attempt.{
  PortCall, begin_call, append_call, outcome_of, effect_after, normalize_dispatch, replaced,
  checked_admission,
}

-- The facts that a call put into the journal: those of a claim that was granted, and those of an
-- append that returned no error.
unfoldable pub written : PortCall → List ExecutionEvent
written (begin_call es true none) = es
written (append_call es none) = es
written call = []

unfoldable pub recorded_facts : List PortCall → List ExecutionEvent
unfolding written
recorded_facts [] = []
recorded_facts (c ∷ cs) = written c ++ recorded_facts cs

-- The claims of the facts recorded so far.
unfoldable pub told : List PortCall → Claims
told cs = claims_of (recorded_facts cs)

pub recorded_facts-append :
    (cs : List PortCall) (c : PortCall)
    → recorded_facts (cs ++ c ∷ []) ≡ recorded_facts cs ++ written c
unfolding recorded_facts
recorded_facts-append [] c = append-nil (written c)
recorded_facts-append (d ∷ cs) c =
    ap (λ z. written d ++ z) (recorded_facts-append cs c)
    ∙ sym (append_assoc (written d) (recorded_facts cs) (written c))

pub told-append :
    (cs : List PortCall) (c : PortCall) {k : Claims}
    → claims_of (written c) ≡ k
    → told (cs ++ c ∷ []) ≡ union (told cs) k
unfolding told
told-append cs c h =
    ap claims_of (recorded_facts-append cs c)
    ∙ claims_of-append (recorded_facts cs) (written c)
    ∙ ap (λ (z : Claims). union (claims_of (recorded_facts cs)) z) h

-- A call that writes nothing tells nothing.
pub told-nothing :
    (cs : List PortCall) (c : PortCall) → written c ≡ [] → told (cs ++ c ∷ []) ≡ told cs
told-nothing cs c h = told-append cs c (ap claims_of h) ∙ claims_of-nil (told cs)

pub claims-append_call :
    (es : List ExecutionEvent) (r : Option Error) {k : Claims}
    → r ≡ none
    → claims_of es ≡ k
    → claims_of (written (append_call es r)) ≡ k
unfolding written
claims-append_call es r p h = rw p h

-- The claims of an admission that is recorded.
abbrev pub admission_claims : AdmissionStatus → Claims
admission_claims AdmissionStatus.admitted =
    union (add EventKind.action_admitted no_claims) no_claims
admission_claims AdmissionStatus.rejected =
    union (add EventKind.action_rejected no_claims) no_claims
admission_claims s = no_claims

abbrev pub withheld_claims : Claims
withheld_claims = kinds_claims (EventKind.not_dispatched ∷ [])

abbrev pub dispatch_claims : DispatchStatus → Claims
dispatch_claims s =
    kinds_claims (dispatch_kind s ∷ (if was_sent s then EventKind.effect_unverified ∷ [] else []))

-- The outcome that the code states after each record is the view of what has been told.
pub outcome_withheld :
    (s : AdmissionStatus)
    → valid_admission s ≡ true
    → outcome_view (union (admission_claims s) withheld_claims)
      ≡ outcome_of s DispatchStatus.not_dispatched EffectStatus.unknown
unfolding outcome_of add valid_admission
outcome_withheld AdmissionStatus.unknown h = refl
outcome_withheld AdmissionStatus.rejected h = refl
outcome_withheld AdmissionStatus.admitted h = refl
outcome_withheld (AdmissionStatus.invalid n) h = cc

pub outcome_dispatched :
    (s : DispatchStatus)
    → valid_dispatch s ≡ true
    → outcome_view (union (admission_claims AdmissionStatus.admitted) (dispatch_claims s))
      ≡ outcome_of AdmissionStatus.admitted s (effect_after s)
unfolding outcome_of add effect_after dispatch_kind valid_dispatch
outcome_dispatched DispatchStatus.unknown h = refl
outcome_dispatched DispatchStatus.not_dispatched h = refl
outcome_dispatched DispatchStatus.dispatched h = refl
outcome_dispatched DispatchStatus.acknowledged h = refl
outcome_dispatched (DispatchStatus.invalid n) h = cc

-- The provider's result has a status among the constants, as NewDispatchResult makes sure.
unfoldable pub ReturnsValid : Ports → Type 0
ReturnsValid u =
    (ctx : Context) (attempt : ExecutionAttempt) (action : Action) (target : ResolvedTarget)
    → valid_dispatch (u.dispatch ctx attempt action target).0.status ≡ true

pub status-new_dispatch_result :
    (spec : DispatchResultSpec) {d : DispatchResult}
    → valid_dispatch spec.status ≡ true
    → new_dispatch_result spec ≡ ok d
    → valid_dispatch d.status ≡ true
unfolding new_dispatch_result
status-new_dispatch_result spec v h = ground arith

pub valid-replaced :
    (provider attempt_id : String) (r : Result DispatchResult)
    → ((d : DispatchResult) → r ≡ ok d → valid_dispatch d.status ≡ true)
    → valid_dispatch (replaced provider attempt_id r).0.status ≡ true
unfolding replaced valid_dispatch
valid-replaced provider attempt_id (err e) h = refl
valid-replaced provider attempt_id (ok d) h = h d refl

pub valid-normalize_dispatch :
    (r : DispatchResult) (provider attempt_id : String)
    → valid_dispatch r.status ≡ true
    → valid_dispatch (normalize_dispatch r provider attempt_id).0.status ≡ true
unfolding normalize_dispatch valid_dispatch
valid-normalize_dispatch r provider attempt_id h =
    elim (Bool-cases (str_eq r.provider provider && str_eq r.attempt_id attempt_id)) [
      | inl p ↦ rw p h
      | inr p ↦
          rw p (valid-replaced provider attempt_id _ (λ d q. status-new_dispatch_result _ refl q))
    ]

pub valid_invalid : (n : ℕ) → valid_admission (AdmissionStatus.invalid n) ≡ true → ⊥
unfolding valid_admission
valid_invalid n h = cc

pub valid-checked_admission :
    (r : AdmissionStatus × Option Error) → valid_admission (checked_admission r).0 ≡ true
unfolding checked_admission valid_admission
valid-checked_admission (AdmissionStatus.admitted, e) = refl
valid-checked_admission (s, e) = refl

pub claims-begin :
    (es : List ExecutionEvent) (c : Bool) (e : Option Error)
    → claims_of es ≡ no_claims
    → claims_of (written (begin_call es c e)) ≡ no_claims
unfolding written claims_of
claims-begin es true none h = h
claims-begin es false e h = refl
claims-begin es c (some e) h = refl

pub claims-initial :
    (a : Option RecoveryAuthorization)
    → kinds_claims (
        EventKind.action_requested
        ∷ EventKind.attempt_started
        ∷ (elim a [ none ↦ [] | some x ↦ EventKind.recovery_authorized ∷ [] ]))
      ≡ no_claims
unfolding add
claims-initial none = refl
claims-initial (some a) = refl

pub told-no_calls : told [] ≡ no_claims
unfolding told recorded_facts claims_of
told-no_calls = refl
