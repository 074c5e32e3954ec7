-- ===== src/Execution/Spending.antt =====
-- How many calls of the provider each part of `execute` (execution/execute.go) may make for an
-- attempt, over a memory log.
use atoha.Prelude.{
  ℕ, ◌+◌, ◌≤◌, String, ◌≡◌, refl, ap, ◌∙◌, subst, Bool, true, false, ◌||◌, Option, none, some, List,
  [], ◌∷◌, ◌++◌, arith, str_eq, str_eq_iff, Bool-cases, Option-cases, inl, inr, if◌then◌else◌,
}
use atoha.Instant.{Time}
use atoha.Errors.{Result, ok, err, Error}
use atoha.Context.{Context, detached}
use atoha.Core.Action.{Action, ExecutionAttempt}
use atoha.Core.Outcome.{AdmissionStatus, same_admission}
use atoha.Core.Event.{ExecutionEvent}
use atoha.Core.Provider.{DispatchResult}
use atoha.Eventlog.Memory.{Log, put, begin_attempt}
use atoha.Eventlog.Memory.Atomic.{begin_attempt-MayBegin}
use atoha.Eventlog.Memory.Maps.{attempts-begin, attempts-append_all}
use atoha.Execution.Authorization.{RecoveryAuthorization}
use atoha.Execution.Ports.{Ports}
use atoha.Execution.MemoryJournal.{memory_journal}
use atoha.Execution.Execute.{
  World, append_after_io, append_built, finish_not_dispatched, on_dispatched, dispatch_stage,
  on_resolved, resolve_stage, after_admission, on_admission_recorded, on_admission_event,
  on_admission, admit_stage, on_begun, claim_stage, on_initial, on_attempt, execute, tick,
}
use atoha.Execution.Attempt.{
  ExecuteInput, ExecuteResult, PortCall, begin_call, admit_call, resolve_call, dispatch_call,
}
use atoha.Execution.Recovery.{RecoverInput, recovery_error, on_checked, recover_attempt}

abbrev pub one_if : Bool → ℕ
one_if true = 1
one_if false = 0

-- Whether a call hands the attempt `a` to the provider.
unfoldable pub sends : String → PortCall → Bool
sends a (dispatch_call attempt target) = str_eq attempt.id a
sends a c = false

-- How often the attempt `a` was handed to the provider.
unfoldable pub dispatches : String → List PortCall → ℕ
dispatches a [] = 0
dispatches a (c ∷ cs) = one_if (sends a c) + dispatches a cs

dispatches-append :
    (a : String) (cs : List PortCall) (c : PortCall)
    → dispatches a (cs ++ c ∷ []) ≡ dispatches a cs + one_if (sends a c)
unfolding dispatches
dispatches-append a [] c = omega arith
dispatches-append a (d ∷ cs) c = omega (arith, dispatches-append a cs c)

-- One if the log has claimed the attempt.
unfoldable pub flag_of : Option (Unit {0}) → ℕ
flag_of none = 0
flag_of (some x) = 1

abbrev pub flag : String → Log → ℕ
flag a l = flag_of (l.attempts a)

abbrev pub Use : Type 0
Use = World memory_journal

-- Between two worlds, the calls of the provider for `a` grow by no more than the claims of `a`, and
-- `n`.
abbrev pub Spends : String → ℕ → Use → Use → Type 0
Spends a n w w' =
    dispatches a w'.calls + flag a w.state ≤ dispatches a w.calls + flag a w'.state + n

Spends-call :
    (a : String) (c : PortCall) (w : Use)
    → Spends a (one_if (sends a c)) w (record w { calls = w.calls ++ c ∷ [] })
Spends-call a c w = omega (arith, dispatches-append a w.calls c)

module _ (u : Ports) (a : String) where
  Spends-append_after_io :
      (ctx : Context) (es : List ExecutionEvent) (w : Use)
      → Spends a 0 w (append_after_io memory_journal u ctx es w).1
  unfolding append_after_io sends
  Spends-append_after_io ctx es w =
      let f = ap (λ m. flag_of (m a)) (attempts-append_all (detached ctx) es w.state) in
      omega (arith, f, dispatches-append a w.calls _)

  Spends-append_built :
      (ctx : Context) (r : Result (List ExecutionEvent)) (w : Use)
      → Spends a 0 w (append_built memory_journal u ctx r w).1
  unfolding append_built
  Spends-append_built ctx (err e) w = omega arith
  Spends-append_built ctx (ok es) w = Spends-append_after_io ctx es w

  Spends-finish_not_dispatched :
      (ctx : Context) (result : ExecuteResult) (x y : Option Error) (w : Use)
      → Spends a 0 w (finish_not_dispatched memory_journal u ctx result x y w).2
  unfolding finish_not_dispatched
  Spends-finish_not_dispatched ctx result x y w =
      Spends-append_built ctx _ (tick memory_journal u w)

  Spends-on_dispatched :
      (ctx : Context) (result : ExecuteResult) (d : DispatchResult) (x : Option Error) (w : Use)
      → Spends a 0 w (on_dispatched memory_journal u ctx result d x w).2
  unfolding on_dispatched
  Spends-on_dispatched ctx result d x w = Spends-append_built ctx _ (tick memory_journal u w)

  -- What a stage after the claim may spend.
  abbrev due : ExecuteResult → ℕ
  due result = one_if (str_eq result.attempt.id a)

  Spends-dispatch_stage :
      (ctx : Context) (result : ExecuteResult) (w : Use)
      → Spends a (due result) w (dispatch_stage memory_journal u ctx result w).2
  unfolding dispatch_stage sends
  Spends-dispatch_stage ctx result w = omega (
    arith,
    Spends-call a (dispatch_call result.attempt result.target) w,
    Spends-on_dispatched ctx result _ _ _,
  )

  Spends-on_resolved :
      (ctx : Context) (result : ExecuteResult) (e : Option Error) (w : Use)
      → Spends a (due result) w (on_resolved memory_journal u ctx result e w).2
  unfolding on_resolved
  Spends-on_resolved ctx result (some e) w =
      omega (arith, Spends-finish_not_dispatched ctx result _ _ w)
  Spends-on_resolved ctx result none w = Spends-dispatch_stage ctx result w

  Spends-resolve_stage :
      (ctx : Context) (result : ExecuteResult) (w : Use)
      → Spends a (due result) w (resolve_stage memory_journal u ctx result w).2
  unfolding resolve_stage sends
  Spends-resolve_stage ctx result w =
      let e = (u.resolve ctx result.action).1 in
      omega (arith, Spends-call a (resolve_call e) w, Spends-on_resolved ctx _ e _)

  Spends-after_admission :
      (ctx : Context) (result : ExecuteResult) (s : AdmissionStatus) (e : Option Error) (w : Use)
      → Spends a (due result) w (after_admission memory_journal u ctx result s e w).2
  unfolding after_admission
  Spends-after_admission ctx result AdmissionStatus.admitted none w =
      Spends-resolve_stage ctx result w
  Spends-after_admission ctx result AdmissionStatus.admitted (some e) w =
      omega (arith, Spends-finish_not_dispatched ctx result _ _ w)
  Spends-after_admission ctx result s e w =
      omega (arith, Spends-finish_not_dispatched ctx result _ _ w)

  Spends-on_admission_recorded :
      (ctx : Context) (result : ExecuteResult) (s : AdmissionStatus) (e r : Option Error) (w : Use)
      → Spends a (due result) w (on_admission_recorded memory_journal u ctx result s e r w).2
  unfolding on_admission_recorded
  Spends-on_admission_recorded ctx result s e (some r) w = omega arith
  Spends-on_admission_recorded ctx result s e none w = Spends-after_admission ctx result s e w

  Spends-on_admission_event :
      (ctx : Context) (result : ExecuteResult) (s : AdmissionStatus) (e : Option Error)
      (event : Result ExecutionEvent) (w : Use)
      → Spends a (due result) w (on_admission_event memory_journal u ctx result s e event w).2
  unfolding on_admission_event
  Spends-on_admission_event ctx result s e (err x) w = omega arith
  Spends-on_admission_event ctx result s e (ok event) w = omega (
    arith,
    Spends-append_after_io ctx (event ∷ []) w,
    Spends-on_admission_recorded ctx result s e
        (append_after_io memory_journal u ctx (event ∷ []) w).0
        (append_after_io memory_journal u ctx (event ∷ []) w).1,
  )

  Spends-on_admission :
      (ctx : Context) (result : ExecuteResult) (s : AdmissionStatus) (e : Option Error) (w : Use)
      → Spends a (due result) w (on_admission memory_journal u ctx result s e w).2
  unfolding on_admission
  Spends-on_admission ctx result s e w =
      elim (Bool-cases
        (same_admission s AdmissionStatus.admitted || same_admission s AdmissionStatus.rejected)) [
          | inl p ↦ rw p (Spends-on_admission_event ctx result s e _ (tick memory_journal u w))
          | inr p ↦ rw p (Spends-after_admission ctx result s e w)
        ]

  Spends-admit_stage :
      (ctx : Context) (result : ExecuteResult) (w : Use)
      → Spends a (due result) w (admit_stage memory_journal u ctx result w).2
  unfolding admit_stage sends
  Spends-admit_stage ctx result w =
      let s = (u.admit ctx result.action).0 in
      let e = (u.admit ctx result.action).1 in
      omega (arith, Spends-call a (admit_call s e) w, Spends-on_admission ctx _ _ _ _)

  granted :
      (id : String) (l : Log)
      → l.attempts id ≡ none
      → flag_of (put id tt l.attempts a) ≡ flag a l + one_if (str_eq id a)
  unfolding put flag_of
  granted id l free = elim (Bool-cases (str_eq id a)) [
    | inr p ↦ rw p (omega arith)
    | inl p ↦ rw (p, subst (λ k. l.attempts k ≡ none) ((str_eq_iff id a).0 p) free) refl
  ]

  -- The claim of an attempt that was granted pays for one call of the provider.
  flag-begin :
      (ctx : Context) (action : Action) (attempt : ExecutionAttempt) (es : List ExecutionEvent)
      (l : Log)
      → flag a (begin_attempt ctx action attempt es l).log
        ≡ flag a l
          + (if (begin_attempt ctx action attempt es l).claimed
              then one_if (str_eq attempt.id a)
              else 0)
  unfolding put flag_of
  flag-begin ctx action attempt es l =
      let moved = ap (λ m. flag_of (m a)) (attempts-begin ctx action attempt es l) in
      elim (Bool-cases (begin_attempt ctx action attempt es l).claimed) [
        | inr p ↦ moved ∙ rw p (omega arith)
        | inl p ↦
            let free = (begin_attempt-MayBegin ctx action attempt es l p).unclaimed in
            moved ∙ rw p (granted attempt.id l free)
      ]

  Spends-on_begun :
      (ctx : Context) (result : ExecuteResult) (claimed : Bool) (e : Option Error) (w : Use)
      → Spends a
          (if claimed then due result else 0)
          w
          (on_begun memory_journal u ctx result claimed e w).2
  unfolding on_begun
  Spends-on_begun ctx result claimed (some e) w = omega arith
  Spends-on_begun ctx result true none w = Spends-admit_stage ctx result w
  Spends-on_begun ctx result false none w = omega arith

  Spends-claim_stage :
      (ctx : Context) (result : ExecuteResult) (es : List ExecutionEvent) (w : Use)
      → Spends a 0 w (claim_stage memory_journal u ctx result es w).2
  unfolding claim_stage sends
  Spends-claim_stage ctx result es w =
      let b = begin_attempt ctx result.action result.attempt es w.state in
      omega (
        arith,
        flag-begin ctx result.action result.attempt es w.state,
        dispatches-append a w.calls (begin_call es b.claimed b.failure),
        Spends-on_begun ctx result b.claimed b.failure _,
      )

  Spends-on_initial :
      (ctx : Context) (result : ExecuteResult) (r : Result (List ExecutionEvent)) (w : Use)
      → Spends a 0 w (on_initial memory_journal u ctx result r w).2
  unfolding on_initial
  Spends-on_initial ctx result (err e) w = omega arith
  Spends-on_initial ctx result (ok es) w = Spends-claim_stage ctx result es w

  Spends-on_attempt :
      (ctx : Context) (input : ExecuteInput) (x : Option RecoveryAuthorization) (t : Time)
      (r : Result ExecutionAttempt) (w : Use)
      → Spends a 0 w (on_attempt memory_journal u ctx input x t r w).2
  unfolding on_attempt
  Spends-on_attempt ctx input x t (err e) w = omega arith
  Spends-on_attempt ctx input x t (ok attempt) w = Spends-on_initial ctx _ _ w

  pub Spends-execute :
      (ctx : Context) (input : ExecuteInput) (x : Option RecoveryAuthorization) (w : Use)
      → Spends a 0 w (execute memory_journal u ctx input x w).2
  unfolding execute
  Spends-execute ctx input x w = Spends-on_attempt ctx input x _ _ (tick memory_journal u w)

  pub Spends-recover_attempt :
      (ctx : Context) (input : RecoverInput) (w : Use)
      → Spends a 0 w (recover_attempt memory_journal u ctx input w).2
  unfolding recover_attempt on_checked
  Spends-recover_attempt ctx input w =
      elim (Option-cases (recovery_error memory_journal u ctx input w.state)) [
        | inl p ↦ rw p (Spends-execute ctx _ _ w)
        | inr (e, p) ↦ rw p (omega arith)
      ]
