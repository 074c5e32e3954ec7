-- ===== src/Checks/Execution.antt =====
-- Runs of the use cases over the memory log.
use atoha.Eventlog.Fact.{same_action}
use atoha.Prelude.{◌≤◌, List}
use atoha.Execution.Spending.{dispatches, sends}
use atoha.Execution.Once.{Request, execute_request, serve_all, dispatched_at_most_once}
use atoha.Prelude.{◌≡◌, refl, false, none, some, [], ◌∷◌}
use atoha.Errors.{reports, record_stage, join, stage_error}
use atoha.Prelude.Text.{trim_space, decimal}
use atoha.Instant.{utc, is_zero}
use atoha.Context.{detached}
use atoha.Core.Identity.{validate_identity}
use atoha.Core.Action.{new_execution_attempt}
use atoha.Core.Event.{kind_text, valid_kind, is_requested, check_attempt, new_execution_event}
use atoha.Eventlog.Fact.{equal}
use atoha.Core.Outcome.{AdmissionStatus, DispatchStatus, EffectStatus, valid_dispatch}
use atoha.Eventlog.Memory.{new, put, begin_attempt, append_all}
use atoha.Execution.Events.{
  ◌>>=◌, action_requested_event, attempt_started_event, new_event, admission_event, admission_kind,
  dispatch_events, effect_facts, dispatch_kind, was_sent, deterministic_event_id,
}
use atoha.Execution.Ports.{Ports}
use atoha.Execution.MemoryJournal.{memory_journal}
use atoha.Execution.Execute.{
  World, execute, on_attempt, clock, on_initial, claim_stage, on_begun, admit_stage, on_admission,
  on_admission_event, append_after_io, append_built, on_admission_recorded, after_admission,
  resolve_stage, on_resolved, dispatch_stage, on_dispatched,
}
use atoha.Execution.Attempt.{
  ExecuteInput, attempt_spec, initial_events, checked_admission, normalize_dispatch, outcome_of,
  effect_after,
}
use atoha.Execution.Protocol.{start, Follows, execute-Follows}
use atoha.Projection.{blank, outcome}
use atoha.Projection.Replay.{replay}
use atoha.Execution.Told.{recorded_facts, ReturnsValid}
use atoha.Execution.Agreement.{execute_outcome_recorded}
use atoha.Checks.Data.{checksum, at, live, lamp_on, codec}

-- A provider that acknowledges whatever it is sent.
abbrev pub accepting : Ports
accepting = record {
  admit = λ ctx action. (AdmissionStatus.admitted, none);
  resolve = λ ctx action. (record { provider = "hub"; endpoint = 1 ∷ [] }, none);
  dispatch = λ ctx attempt action target. (
    record {
      provider = target.provider;
      attempt_id = attempt.id;
      status = DispatchStatus.acknowledged;
      receipt = some (record {
        provider = target.provider;
        attempt_id = attempt.id;
        received_at = at 9;
        evidence = [];
      });
    },
    none,
  );
  now = λ n. at n;
  codec = codec;
}

abbrev input : ExecuteInput
input = record { action = lamp_on; attempt_id = "t-1" }

abbrev fresh : World memory_journal
fresh = record { state = new; ticks = 0; calls = [] }

run_outcome :
    let r = execute memory_journal accepting live input none fresh in
    (r.0.outcome ≡ record {
      admission = AdmissionStatus.admitted;
      dispatch = DispatchStatus.acknowledged;
      effect = EffectStatus.unverified;
    })
    × (reports record_stage r.1 ≡ false)
unfolding execute reports on_attempt new_execution_attempt attempt_spec validate_identity trim_space
    clock utc on_initial initial_events ◌>>=◌ action_requested_event checksum new_event
    attempt_started_event new_execution_event claim_stage begin_attempt put on_begun admit_stage
    checked_admission on_admission admission_event on_admission_event append_after_io append_all
    detached on_admission_recorded after_admission resolve_stage on_resolved dispatch_stage
    normalize_dispatch on_dispatched dispatch_events effect_facts append_built join stage_error
    outcome_of equal kind_text is_zero deterministic_event_id decimal was_sent effect_after
    dispatch_kind admission_kind valid_kind is_requested check_attempt
run_outcome = (refl, refl)

accepting_valid : ReturnsValid accepting
unfolding ReturnsValid valid_dispatch
accepting_valid ctx attempt action target = refl

execute-Follows_example :
    Follows memory_journal accepting start fresh
      (execute memory_journal accepting live input none fresh).2
execute-Follows_example = execute-Follows memory_journal accepting live input none fresh

execute_outcome_recorded_example :
    let done = execute memory_journal accepting live input none fresh in
    let r = replay (recorded_facts done.2.calls) (blank input.action.id input.attempt_id) in
    (r.0 ≡ none) × (outcome r.1 ≡ done.0.outcome)
execute_outcome_recorded_example =
    execute_outcome_recorded memory_journal accepting accepting_valid live input none fresh refl
      run_outcome.1

-- The same attempt requested twice.
abbrev twice : List Request
twice = execute_request accepting live input none ∷ execute_request accepting live input none ∷ []

dispatched_at_most_once_example : dispatches "t-1" (serve_all twice fresh).calls ≤ 1
dispatched_at_most_once_example = dispatched_at_most_once "t-1" twice fresh refl

-- The first of the two requests reaches the provider.
sent_once : dispatches "t-1" (serve_all twice fresh).calls ≡ 1
unfolding serve_all dispatches sends execute reports on_attempt new_execution_attempt attempt_spec
    validate_identity trim_space clock utc on_initial initial_events ◌>>=◌ action_requested_event
    checksum new_event attempt_started_event new_execution_event claim_stage begin_attempt put
    on_begun admit_stage checked_admission on_admission admission_event on_admission_event
    append_after_io append_all detached on_admission_recorded after_admission resolve_stage
    on_resolved dispatch_stage normalize_dispatch on_dispatched dispatch_events effect_facts
    append_built join stage_error outcome_of equal kind_text is_zero deterministic_event_id decimal
    was_sent effect_after dispatch_kind admission_kind valid_kind is_requested check_attempt
    same_action
sent_once = refl
