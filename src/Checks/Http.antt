-- ===== src/Checks/Http.antt =====
-- Requests to the HTTP handlers over the memory log.
use atoha.Http.Serving.{posted}
use atoha.Http.Serving.{route_v1}
use atoha.Http.{is_authorized}
use atoha.Eventlog.Memory.{put}
use atoha.Execution.Events.{attempt_started_event}
use atoha.Checks.Data.{checksum}
use atoha.Prelude.Text.{decimal}
use atoha.Execution.Events.{deterministic_event_id}
use atoha.Core.Event.{new_execution_event}
use atoha.Execution.Events.{new_event}
use atoha.Execution.Events.{action_requested_event}
use atoha.Execution.Events.{◌>>=◌}
use atoha.Instant.{utc}
use atoha.Prelude.Text.{trim_space}
use atoha.Prelude.{◌+◌, ◌≡◌, refl, none, some, false, List, [], ◌∷◌, ◌++◌}
use atoha.Errors.{Result, ok, err}
use atoha.Core.Action.{ExecutionAttempt, new_execution_attempt, new_action}
use atoha.Core.Event.{ExecutionEvent}
use atoha.Eventlog.Memory.{new, begin_attempt, events_by_attempt}
use atoha.Execution.MemoryJournal.{memory_journal}
use atoha.Execution.Execute.{World, clock}
use atoha.Execution.Attempt.{begin_call, initial_events, attempt_spec}
use atoha.Execution.Verify.{VerifyWorld}
use atoha.Http.{
  ActionRequest, ExecuteRequest, action_of, execute_handler, verify_handler, get_handler,
}
use atoha.Http.Duplicate.{duplicate_conflict}
use atoha.Http.Missing.{missing_attempt}
use atoha.Prelude.{if◌then◌else◌, ◌&&◌, ◌==◌}
use atoha.Prelude.{ℕ, String, ◌⊎◌}
use atoha.Http.{RecoverRequest}
use atoha.Http.Serving.{
  Request, Handler, Site, serve, url_path, decode, max_bytes, at_end, on_world,
}
use atoha.Http.Access.{MayChange, serve-MayChange}
use atoha.Errors.{message}
use atoha.Checks.Data.{at, live, lamp_on}
use atoha.Checks.Memory.{claimed_log}
use atoha.Checks.Execution.{accepting}
use atoha.Checks.Verification.{checking}

abbrev turn_on : ActionRequest
turn_on = record { id = "a-1"; target = "lamp"; name = "on"; input = []; requested_at = at 0 }

abbrev again : ExecuteRequest
again = record { action = turn_on; attempt_id = "t-1" }

turn_on_ok : action_of turn_on ≡ ok lamp_on
unfolding action_of new_action trim_space
turn_on_ok = refl

abbrev later : World memory_journal
later = record { state = claimed_log; ticks = 50; calls = [] }

abbrev built : ExecutionAttempt
built = record { id = "t-1"; action_id = "a-1"; started_at = at 50; recovery_of = "" }

built_ok :
    new_execution_attempt (
      attempt_spec
        (record { action = lamp_on; attempt_id = "t-1" })
        none
        (clock memory_journal accepting later))
    ≡ ok built
unfolding new_execution_attempt attempt_spec clock trim_space utc
built_ok = refl

value_of : Result (List ExecutionEvent) → List ExecutionEvent
value_of (ok es) = es
value_of (err e) = []

abbrev facts : List ExecutionEvent
unfolding value_of
facts =
    value_of (initial_events accepting lamp_on built none (clock memory_journal accepting later))

facts_ok :
    initial_events accepting lamp_on built none (clock memory_journal accepting later) ≡ ok facts
unfolding value_of initial_events clock ◌>>=◌ action_requested_event new_event new_execution_event
    deterministic_event_id decimal checksum trim_space utc attempt_started_event
facts_ok = refl

taken : claimed_log.attempts "t-1" ≡ some tt
unfolding begin_attempt put
taken = refl

duplicate_conflict_example :
    let e = (begin_attempt live lamp_on built facts claimed_log).failure in
    let (response, w') = execute_handler memory_journal accepting live (ok again) later in
    (response.status ≡ 409)
    × (w' ≡ record later { ticks = 50 + 1; calls = [] ++ begin_call facts false e ∷ [] })
duplicate_conflict_example =
    duplicate_conflict accepting live again later lamp_on built facts refl turn_on_ok built_ok
      facts_ok taken

abbrev idle : VerifyWorld memory_journal
idle = record { state = new; ticks = 0; calls = [] }

nothing_recorded : events_by_attempt live "t-1" new ≡ ([], none)
unfolding events_by_attempt
nothing_recorded = refl

missing_attempt_example :
    ((get_handler memory_journal live "t-1" new).status ≡ 404)
    × ((verify_handler memory_journal checking live (ok again) idle).0.status ≡ 200)
    × ((verify_handler memory_journal checking live (ok again) idle).1 ≡ idle)
missing_attempt_example =
    missing_attempt memory_journal checking live again idle lamp_on turn_on_ok refl refl
      nothing_recorded

-- A decoder that knows the value `{}`, in place of encoding/json.
parse {ℓ} : {A : Type ℓ} → A → List ℕ → Result (A × List ℕ)
parse x (a ∷ b ∷ rest) =
    if a == 123 && b == 125 then ok (x, rest) else err (message "invalid character" [])
parse x bytes = err (message "unexpected end of JSON input" [])

abbrev once_more : RecoverRequest
once_more = record {
  action = turn_on;
  attempt_id = "t-2";
  previous = "t-1";
  authorized_by = "operator";
  authorized_at = at 9;
  reason = "no answer";
}

abbrev handler : Handler
unfolding parse
handler = record {
  ports = accepting;
  verify_ports = checking;
  api_token = "secret";
  parse_execute = λ s. parse again s.bytes;
  parse_recover = λ s. parse once_more s.bytes;
}

abbrev site : Site memory_journal
site = record { state = new; ticks = 0; calls = []; verify_calls = [] }

abbrev requested : String → String → String → List ℕ → Request
requested method name authorization bytes = record {
  method = method;
  path = "v1" ∷ "actions" ∷ name ∷ [];
  authorization = authorization;
  body = record { bytes = bytes; failure = none };
}

status_of : Request → ℕ
unfolding parse
status_of r = (serve memory_journal handler live r site).0.status

without_token : status_of (requested "POST" "execute" "" (123 ∷ 125 ∷ [])) ≡ 401
unfolding status_of serve is_authorized url_path
without_token = refl

two_values :
    status_of (requested "POST" "execute" "Bearer secret" (123 ∷ 125 ∷ 32 ∷ 123 ∷ 125 ∷ [])) ≡ 400
unfolding status_of serve is_authorized url_path route_v1 posted on_world execute_handler decode
    max_bytes at_end
two_values = refl

wrong_method : status_of (requested "GET" "recover" "Bearer secret" []) ≡ 405
unfolding status_of serve is_authorized url_path route_v1 posted
wrong_method = refl

unknown_path : status_of (requested "POST" "cancel" "Bearer secret" []) ≡ 404
unfolding status_of serve is_authorized url_path route_v1
unknown_path = refl

serve-MayChange_example :
    let r = requested "POST" "execute" "Bearer secret" (123 ∷ 125 ∷ 10 ∷ []) in
    ((serve memory_journal handler live r site).1 ≡ site) ⊎ MayChange handler r
serve-MayChange_example =
    serve-MayChange memory_journal handler live
      (requested "POST" "execute" "Bearer secret" (123 ∷ 125 ∷ 10 ∷ [])) site
