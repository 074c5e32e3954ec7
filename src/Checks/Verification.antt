-- ===== src/Checks/Verification.antt =====
-- Runs of a verification over the memory log.
use atoha.Execution.VerifyNeutral.{verify_attempt_keeps_dispatch}
use atoha.Projection.Claims.{admission_view, dispatch_view, admission_clash, dispatch_clash}
use atoha.Prelude.{◌++◌}
use atoha.Core.Verification.{valid_verification}
use atoha.Execution.Verify.{
  on_verifiable, verify_error, target_stage, on_target, observe_stage, verify_stage, assess_stage,
  record_facts,
}
use atoha.Execution.Assessing.{
  facts_error, intent_error, verify_facts, add_assessment, observation_facts, add_fact,
  assessed_error,
}
use atoha.Execution.Evidence.{
  observation_event, verification_events, assessment_events, verification_kind, effect_kind,
  assessment_qualifier,
}
use atoha.Execution.Recovery.{first_error}
use atoha.Execution.Events.{◌>>=◌, new_event, deterministic_event_id}
use atoha.Errors.{stage_error, join}
use atoha.Core.Event.{new_execution_event, kind_text, valid_kind, is_requested, check_attempt}
use atoha.Core.Identity.{validate_identity}
use atoha.Prelude.Text.{trim_space, decimal}
use atoha.Instant.{is_zero, utc}
use atoha.Context.{detached}
use atoha.Eventlog.Fact.{equal}
use atoha.Checks.Data.{checksum}
use atoha.Eventlog.Fact.{same_action}
use atoha.Prelude.{◌+◌, ap, ◌≡◌, ◌≢◌, refl, false, Option, none, List, [], ◌∷◌}
use atoha.Errors.{Error, reports, record_stage}
use atoha.Core.Event.{ExecutionEvent}
use atoha.Core.Observation.{Observation}
use atoha.Core.Verification.{VerificationStatus, same_verification}
use atoha.Eventlog.Memory.{
  Log, new, begin_attempt, append_all, put, events_by_attempt, action_by_id,
}
use atoha.Execution.MemoryJournal.{memory_journal}
use atoha.Execution.Verify.{VerifyWorld, verify_attempt}
use atoha.Execution.Assessing.{VerifyPorts, VerifyInput}
use atoha.Execution.Assessed.{assessed_facts}
use atoha.Execution.Telling.{effect_of}
use atoha.Projection.{blank, outcome}
use atoha.Projection.Replay.{replay}
use atoha.Execution.VerifyRecords.{AssessesValid, verify_attempt_recorded}
use atoha.Execution.VerifyGuards.{MayVerify, verify_attempt_assessed, verify_attempt_refused}
use atoha.Projection.Claims.{claims_of}
use atoha.Checks.Data.{at, live, lamp_on, requested, started, sent, codec}
use atoha.Checks.Memory.{sent_log}
use atoha.Checks.Execution.{accepting}
use atoha.Checks.Inspection.{nothing}

-- The lamp is seen to be on.
abbrev seen : Observation
seen = record {
  id = "o-1";
  source = "sensor";
  target = "lamp";
  value = 1 ∷ [];
  evidence = [];
  observed_at = at 30;
  recorded_at = at 31;
}

abbrev pub checking : VerifyPorts
checking = record {
  resolve = accepting.resolve;
  observe = λ ctx action target. (seen ∷ [], none);
  verify = λ ctx action observations t. (
    record {
      status = VerificationStatus.verified;
      verifier = "state";
      checked_at = t;
      observation_ids = "o-1" ∷ [];
      reason = "";
    },
    none,
  );
  now = λ n. at (32 + n);
  codec = codec;
}

abbrev question : VerifyInput
question = record { action = lamp_on; attempt_id = "t-1" }

abbrev verify_at : Log → VerifyWorld memory_journal
verify_at l = record { state = l; ticks = 0; calls = [] }

checking_valid : AssessesValid checking
unfolding AssessesValid valid_verification
checking_valid ctx action observations t = refl

verify_run :
    let r = verify_attempt memory_journal checking live question (verify_at sent_log) in
    (r.1 ≡ none) × (r.0.verification.status ≡ VerificationStatus.verified)
unfolding verify_attempt on_verifiable verify_error first_error stage_error events_by_attempt
    facts_error append_all begin_attempt put action_by_id intent_error same_action target_stage
    on_target observe_stage verify_stage assess_stage record_facts verify_facts add_assessment
    observation_facts add_fact observation_event verification_events assessment_events new_event
    new_execution_event ◌>>=◌ checksum join assessed_error detached kind_text equal
    validate_identity trim_space is_zero deterministic_event_id decimal valid_kind is_requested
    check_attempt utc verification_kind effect_kind assessment_qualifier
verify_run = (refl, refl)

verify_attempt_assessed_example :
    same_verification
      (verify_attempt memory_journal checking live question
        (verify_at sent_log)).0.verification.status
      VerificationStatus.unknown
    ≡ false
verify_attempt_assessed_example =
    verify_attempt_assessed memory_journal checking live question (verify_at sent_log) verify_run.0

verify_recorded :
    reports record_stage
      (verify_attempt memory_journal checking live question (verify_at sent_log)).1
    ≡ false
unfolding reports
verify_recorded = rw verify_run.0 refl

verify_attempt_recorded_example :
    let done = verify_attempt memory_journal checking live question (verify_at sent_log) in
    let r = replay (assessed_facts done.2.calls) (blank question.action.id question.attempt_id) in
    (r.0 ≡ none)
    × (r.1.verification ≡ done.0.verification.status)
    × ((outcome r.1).effect ≡ effect_of done.0.verification.status)
verify_attempt_recorded_example =
    verify_attempt_recorded memory_journal checking checking_valid live question
      (verify_at sent_log) refl verify_recorded

unverifiable : ¬ MayVerify memory_journal live question new
unfolding events_by_attempt
unverifiable m = nothing (ap (λ (z : List ExecutionEvent × Option Error). z.0) m.events)

verify_attempt_refused_example :
    ((verify_attempt memory_journal checking live question (verify_at new)).1 ≢ none)
    × ((verify_attempt memory_journal checking live question (verify_at new)).0.verification.status
        ≡ VerificationStatus.unknown)
    × ((verify_attempt memory_journal checking live question (verify_at new)).2 ≡ verify_at new)
verify_attempt_refused_example =
    verify_attempt_refused memory_journal checking live question (verify_at new) unverifiable

verify_attempt_keeps_dispatch_example :
    let c = claims_of (requested ∷ started ∷ sent ∷ []) in
    let d = claims_of (
      (requested ∷ started ∷ sent ∷ [])
      ++ assessed_facts
          (verify_attempt memory_journal checking live question (verify_at sent_log)).2.calls) in
    (admission_view d ≡ admission_view c)
    × (dispatch_view d ≡ dispatch_view c)
    × (admission_clash d ≡ admission_clash c)
    × (dispatch_clash d ≡ dispatch_clash c)
verify_attempt_keeps_dispatch_example =
    verify_attempt_keeps_dispatch memory_journal checking live question (verify_at sent_log)
      (requested ∷ started ∷ sent ∷ []) refl
