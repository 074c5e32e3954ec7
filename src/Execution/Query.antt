-- ===== src/Execution/Query.antt =====
-- execution/query.go: the view of one attempt, and the attempts that need inspection.
use atoha.Prelude.{
  String, Bool, true, false, ◌&&◌, not, Option, none, some, List, [], ◌∷◌, ◌++◌, str_eq,
  if◌then◌else◌,
}
use atoha.Errors.{
  Result, ok, err, Error, sentinel, staged, validate, record_stage, invalid_input,
  attempt_not_found,
}
use atoha.Context.{Context}
use atoha.Core.Outcome.{Outcome}
use atoha.Core.Verification.{VerificationStatus}
use atoha.Core.Event.{
  EventKind, ExecutionEvent, attempt_started, action_rejected, not_dispatched, dispatch_unknown,
  action_dispatched, provider_acknowledged,
}
use atoha.Projection.{Attempt, new_attempt, outcome}
use atoha.Projection.Replay.{replay}
use atoha.Execution.Ports.{Journal}

pub record AttemptView : Type 0 where
  pub action_id : String
  pub attempt_id : String
  pub outcome : Outcome
  pub verification : VerificationStatus
  pub admission_conflicted : Bool
  pub dispatch_conflicted : Bool
  pub effect_conflicted : Bool

unfoldable pub view_of : String → String → Attempt → AttemptView
view_of action_id attempt_id view = record {
  action_id = action_id;
  attempt_id = attempt_id;
  outcome = outcome view;
  verification = view.verification;
  admission_conflicted = view.admission_conflicted;
  dispatch_conflicted = view.dispatch_conflicted;
  effect_conflicted = view.effect_conflicted;
}

-- What follows the loop over Apply.
unfoldable pub on_replayed : String → String → Option Error × Attempt → Result AttemptView
unfolding view_of
on_replayed action_id attempt_id (some e, view) = err (staged record_stage e)
on_replayed action_id attempt_id (none, view) = ok (view_of action_id attempt_id view)

unfoldable pub on_view : String → String → List ExecutionEvent → Result Attempt → Result AttemptView
on_view action_id attempt_id events (err e) = err (staged validate e)
on_view action_id attempt_id events (ok view) =
    on_replayed action_id attempt_id (replay events view)

-- The tests on what EventsByAttempt returned.
unfoldable pub on_events : String → List ExecutionEvent × Option Error → Result AttemptView
on_events attempt_id (events, some e) = err (staged record_stage e)
on_events attempt_id ([], none) = err (staged validate (sentinel attempt_not_found))
on_events attempt_id (e ∷ es, none) =
    on_view e.action_id attempt_id (e ∷ es) (new_attempt e.action_id attempt_id)

pub record IncompleteAttempt : Type 0 where
  pub action_id : String
  pub attempt_id : String

-- The `switch` of incomplete, as two tests on the kind.
unfoldable pub starts : EventKind → Bool
starts attempt_started = true
starts k = false

unfoldable pub finishes : EventKind → Bool
finishes action_rejected = true
finishes not_dispatched = true
finishes dispatch_unknown = true
finishes action_dispatched = true
finishes provider_acknowledged = true
finishes k = false

-- The variables of the loop of incomplete.
pub record Progress : Type 0 where
  pub action_id : String
  pub started : Bool
  pub finished : Bool

unfoldable pub progress : Progress → List ExecutionEvent → Progress
unfolding starts finishes
progress p [] = p
progress p (e ∷ es) =
    progress
      (record {
        action_id = e.action_id;
        started = if starts e.kind then true else p.started;
        finished = if finishes e.kind then true else p.finished;
      })
      es

unfoldable pub incomplete : List ExecutionEvent → String × Bool
unfolding progress
incomplete events =
    let p = progress (record { action_id = ""; started = false; finished = false }) events in
    (p.action_id, p.started && not p.finished)

module _ (J : Journal) where
  -- GetAttempt.Get
  unfoldable pub get : Context → String → J.State → Result AttemptView
  get ctx attempt_id s =
      if str_eq attempt_id ""
      then err (staged validate (sentinel invalid_input))
      else on_events attempt_id (J.events_by_attempt ctx attempt_id s)

  -- The loop of Scan over the identities left, with the result so far.
  unfoldable pub scan_loop :
      Context → List IncompleteAttempt → List String → J.State → Result (List IncompleteAttempt)
  unfolding incomplete
  scan_loop ctx found [] s = ok found
  scan_loop ctx found (id ∷ ids) s =
      let (events, read_err) = J.events_by_attempt ctx id s in
      let (action_id, is_incomplete) = incomplete events in
      let rest =
        scan_loop ctx
          (if is_incomplete
            then found ++ record { action_id = action_id; attempt_id = id } ∷ []
            else found)
          ids s in
      elim read_err [ some e ↦ err (staged record_stage e) | none ↦ rest ]

  -- ScanIncompleteAttempts.Scan
  unfoldable pub scan : Context → J.State → Result (List IncompleteAttempt)
  unfolding scan_loop
  scan ctx s =
      let (ids, list_err) = J.attempt_ids ctx s in
      elim list_err [ some e ↦ err (staged record_stage e) | none ↦ scan_loop ctx [] ids s ]
