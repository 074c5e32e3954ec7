-- ===== src/Checks/Inspection.antt =====
-- Runs of the scan, of Get and of a recovery over the memory log.

use atoha.Eventlog.Fact.{same_action}
use atoha.Eventlog.Memory.{attempt_ids}
use atoha.Prelude.{ap, ◌≡◌, refl, true, false, ◌&&◌, Option, List, [], ◌∷◌, map, str_eq}
use atoha.Prelude.Lists.{any, keep}
use atoha.Errors.{Error, ok, reports, recover}
use atoha.Core.Event.{EventKind, ExecutionEvent}
use atoha.Eventlog.Memory.{
  Log, new, begin_attempt, append_all, put, events_by_attempt, action_by_id,
}
use atoha.Execution.MemoryJournal.{memory_journal}
use atoha.Execution.Execute.{World}
use atoha.Execution.Attempt.{zero_result}
use atoha.Execution.Query.{get, scan}
use atoha.Execution.Inspect.{
  facts_of, is_unfinished, entry, names, is_unknown_dispatch, scan_lists, unknown_dispatch_unlisted,
}
use atoha.Execution.Reading.{claimed_view, get_shows}
use atoha.Prelude.{◌⊎◌}
use atoha.Execution.Recovered.{IsRefused, IsRecovery, recover_attempt-IsRecovery}
use atoha.Execution.Recovery.{RecoverInput, recover_attempt}
use atoha.Execution.Recovering.{MayRecover, recover_attempt_refused}
use atoha.Checks.Data.{at, live, lamp_on, fact_of, requested, started, sent}
use atoha.Checks.Memory.{claimed_log, sent_log}
use atoha.Checks.Execution.{accepting}

-- The attempt is claimed, and a timeout left its dispatch unknown.
abbrev lost : ExecutionEvent
lost = fact_of "e-9" "t-1" EventKind.dispatch_unknown

abbrev lost_log : Log
lost_log = (append_all live (lost ∷ []) claimed_log).1

scan_lists_example :
    scan memory_journal live claimed_log
    ≡ ok (map (entry claimed_log) (keep (is_unfinished claimed_log) claimed_log.attempt_order))
scan_lists_example = scan_lists live claimed_log refl

lost_scan : scan memory_journal live lost_log ≡ ok []
unfolding scan begin_attempt append_all attempt_ids put events_by_attempt
lost_scan = refl

lost_unknown :
    any
      (λ (e : ExecutionEvent). str_eq e.attempt_id "t-1" && is_unknown_dispatch e.kind)
      lost_log.events
    ≡ true
unfolding begin_attempt append_all put
lost_unknown = refl

unknown_dispatch_unlisted_example : names "t-1" [] ≡ false
unknown_dispatch_unlisted_example =
    unknown_dispatch_unlisted live lost_log "t-1" refl lost_unknown lost_scan

sent_facts : facts_of sent_log "t-1" ≡ requested ∷ started ∷ sent ∷ []
unfolding begin_attempt append_all put
sent_facts = refl

get_shows_example :
    get memory_journal live "t-1" sent_log
    ≡ ok (claimed_view "a-1" "t-1" (requested ∷ started ∷ sent ∷ []))
get_shows_example =
    get_shows live sent_log "t-1" requested (started ∷ sent ∷ []) refl refl refl sent_facts refl

abbrev recovery : RecoverInput
recovery = record {
  action = lamp_on;
  attempt_id = "t-2";
  authorization = record {
    action_id = "a-1";
    previous_attempt_id = "t-1";
    authorized_by = "operator";
    authorized_at = at 20;
    reason = "lamp still off";
  };
}

abbrev at_log : Log → World memory_journal
at_log l = record { state = l; ticks = 20; calls = [] }

may_recover : MayRecover memory_journal live recovery sent_log
unfolding begin_attempt append_all events_by_attempt put action_by_id same_action
may_recover = record {
  names_action = refl;
  names_previous = refl;
  fact = requested;
  facts = started ∷ sent ∷ [];
  previous = refl;
  of_action = refl;
  stored = lamp_on;
  found = refl;
  same = refl;
}

recover_attempt-IsRecovery_example :
    let done = recover_attempt memory_journal accepting live recovery (at_log sent_log) in
    IsRefused memory_journal accepting live recovery (at_log sent_log) done
    ⊎ IsRecovery memory_journal live recovery sent_log done.0
recover_attempt-IsRecovery_example =
    recover_attempt-IsRecovery memory_journal accepting live recovery (at_log sent_log)

pub nothing : {e : ExecutionEvent} {es : List ExecutionEvent} → [] ≡ e ∷ es → ⊥
nothing h = cc

-- Nothing is on record of the previous attempt.
no_previous : ¬ MayRecover memory_journal live recovery new
unfolding events_by_attempt
no_previous m = nothing (ap (λ (z : List ExecutionEvent × Option Error). z.0) m.previous)

recover_attempt_refused_example :
    ((recover_attempt memory_journal accepting live recovery (at_log new)).0 ≡ zero_result)
    × (reports recover (recover_attempt memory_journal accepting live recovery (at_log new)).1
        ≡ true)
    × ((recover_attempt memory_journal accepting live recovery (at_log new)).2 ≡ at_log new)
recover_attempt_refused_example =
    recover_attempt_refused memory_journal accepting live recovery (at_log new) no_previous
