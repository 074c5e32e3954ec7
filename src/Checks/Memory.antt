-- ===== src/Checks/Memory.antt =====
-- Runs of the memory log, with an attempt claimed, claimed again, and another intent presented.
use atoha.Prelude.{◌≤◌, ◌≡◌, ◌↔◌, refl, true, false, none, some, List, [], ◌∷◌, ◌++◌}
use atoha.Prelude.{if◌then◌else◌}
use atoha.Prelude.Lists.{All}
use atoha.Errors.{Error, error_is, action_identity_conflict}
use atoha.Core.Event.{kind_text}
use atoha.Eventlog.Fact.{equal, same_action}
use atoha.Eventlog.Memory.{
  Log, new, preflight, append_prepared, append_all, claim, begin_attempt, put,
}
use atoha.Eventlog.Memory.Append.{preflight-none_iff}
use atoha.Eventlog.Memory.Holding.{Holds}
use atoha.Eventlog.Memory.Atomic.{
  append_all_error, append_all_idempotent, begin_attempt_log, IsClaimable,
  begin_attempt-claimed_iff,
}
use atoha.Eventlog.Memory.Invariant.{IsConsistent}
use atoha.Eventlog.Memory.Runs.{
  Call, begin, record_facts, run, run-IsConsistent, Extends, run_append_only,
}
use atoha.Eventlog.Memory.Claims.{claims, claimed_at_most_once}
use atoha.Eventlog.Memory.Intents.{Registered, claimed-Registered, other_intent_refused}
use atoha.Checks.Data.{
  live, lamp_on, lamp_off, first_try, second_try, sent, accepted, withheld, initial_facts,
}

abbrev calls : List Call
calls =
    begin live lamp_on first_try initial_facts
    ∷ record_facts live (sent ∷ [])
    ∷ begin live lamp_on first_try initial_facts
    ∷ record_facts live (accepted ∷ withheld ∷ [])
    ∷ record_facts live (accepted ∷ sent ∷ accepted ∷ [])
    ∷ begin live lamp_off second_try []
    ∷ []

-- What the calls leave: the facts of the claim, and those of the appends that did not conflict.
calls_events : (run new calls).events ≡ initial_facts ++ sent ∷ accepted ∷ []
unfolding run append_all begin_attempt put equal kind_text same_action
calls_events = refl

calls_claims : claims "t-1" new calls ≡ 1
unfolding claims begin_attempt append_all put same_action
calls_claims = refl

abbrev pub claimed_log : Log
claimed_log = (begin_attempt live lamp_on first_try initial_facts new).log

first_claimed : (begin_attempt live lamp_on first_try initial_facts new).claimed ≡ true
unfolding begin_attempt put
first_claimed = refl

abbrev pub sent_log : Log
sent_log = (append_all live (sent ∷ []) claimed_log).1

-- The append of `withheld` fails: its identity stands for `sent`.
conflict : (e : Error) × ((append_all live (accepted ∷ withheld ∷ []) sent_log).0 ≡ some e)
unfolding append_all begin_attempt put equal kind_text
conflict = (_, refl)

preflight-none_iff_example :
    (preflight sent_log (accepted ∷ sent ∷ []) ≡ none)
    ↔ All (Holds (append_prepared sent_log (accepted ∷ sent ∷ []))) (accepted ∷ sent ∷ [])
preflight-none_iff_example = preflight-none_iff sent_log (accepted ∷ sent ∷ [])

conflict_keeps_log : (append_all live (accepted ∷ withheld ∷ []) sent_log).1 ≡ sent_log
conflict_keeps_log = append_all_error live (accepted ∷ withheld ∷ []) sent_log conflict.1

appended : (append_all live (accepted ∷ sent ∷ accepted ∷ []) sent_log).0 ≡ none
unfolding append_all begin_attempt put equal kind_text
appended = refl

append_all_idempotent_example :
    let batch = accepted ∷ sent ∷ accepted ∷ [] in
    let after = (append_all live batch sent_log).1 in
    All (Holds after) batch × (append_all live batch after ≡ (none, after))
append_all_idempotent_example =
    append_all_idempotent live (accepted ∷ sent ∷ accepted ∷ []) sent_log appended

second_try_log : (begin_attempt live lamp_on second_try [] sent_log).log ≡ (
    if (begin_attempt live lamp_on second_try [] sent_log).claimed
    then claim lamp_on second_try [] sent_log
    else sent_log)
second_try_log = begin_attempt_log live lamp_on second_try [] sent_log

begin_attempt-claimed_iff_example :
    let begun = begin_attempt live lamp_on second_try [] sent_log in
    ((begun.claimed ≡ true) ↔ IsClaimable live lamp_on second_try [] sent_log)
    × (begun.claimed ≡ true → begun.failure ≡ none)
    × (begun.claimed ≡ false → begun.log ≡ sent_log)
begin_attempt-claimed_iff_example = begin_attempt-claimed_iff live lamp_on second_try [] sent_log

run-IsConsistent_example : IsConsistent (run new calls)
run-IsConsistent_example = run-IsConsistent calls

run_append_only_example : Extends claimed_log.events (run claimed_log calls).events
run_append_only_example = run_append_only claimed_log calls

claimed_at_most_once_example : claims "t-1" new calls ≤ 1
claimed_at_most_once_example = claimed_at_most_once "t-1" new calls

claimed-Registered_example : Registered (run claimed_log calls) lamp_on
claimed-Registered_example =
    claimed-Registered live lamp_on first_try initial_facts new calls first_claimed

other : same_action lamp_off lamp_on ≡ false
unfolding same_action
other = refl

other_intent_refused_example :
    let m = run claimed_log calls in
    (error_is action_identity_conflict (begin_attempt live lamp_off second_try [] m).failure ≡ true)
    × ((begin_attempt live lamp_off second_try [] m).log ≡ m)
other_intent_refused_example =
    other_intent_refused live lamp_on first_try initial_facts new calls live lamp_off second_try []
      first_claimed refl refl other refl
