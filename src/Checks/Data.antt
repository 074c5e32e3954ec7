-- ===== src/Checks/Data.antt =====
-- The actions, attempts and facts that the runs use.
use atoha.Prelude.{ℕ, ◌+◌, ◌*◌, ◌%◌, ◌^◌, String, none, some, List, [], ◌∷◌}
use atoha.Prelude.Text.{decimal}
use atoha.Instant.{Time, zero_instant}
use atoha.Errors.{message, ok}
use atoha.Context.{Context}
use atoha.Core.Action.{Action, ExecutionAttempt}
use atoha.Core.Event.{EventKind, ExecutionEvent}
use atoha.Execution.Payload.{Codec}

abbrev pub at : ℕ → Time
at n = record { instant = zero_instant + 1 + n; location = "UTC" }

abbrev pub live : Context
live = record { err = none }

abbrev pub cancelled : Context
cancelled = record { err = some (message "context canceled" []) }

abbrev pub lamp_on : Action
lamp_on = record { id = "a-1"; target = "lamp"; name = "on"; input = []; requested_at = at 0 }

abbrev pub lamp_off : Action
lamp_off = record { id = "a-1"; target = "lamp"; name = "off"; input = []; requested_at = at 0 }

abbrev pub first_try : ExecutionAttempt
first_try = record { id = "t-1"; action_id = "a-1"; started_at = at 1; recovery_of = "" }

abbrev pub second_try : ExecutionAttempt
second_try = record { id = "t-2"; action_id = "a-1"; started_at = at 2; recovery_of = "" }

abbrev pub fact_of : String → String → EventKind → ExecutionEvent
fact_of id attempt_id kind = record {
  id = id;
  action_id = "a-1";
  attempt_id = attempt_id;
  kind = kind;
  occurred_at = at 3;
  recorded_at = at 3;
  bytes = [];
}

abbrev pub requested : ExecutionEvent
requested = fact_of "e-1" "t-1" EventKind.action_requested

abbrev pub started : ExecutionEvent
started = fact_of "e-2" "t-1" EventKind.attempt_started

abbrev pub sent : ExecutionEvent
sent = fact_of "e-3" "t-1" EventKind.action_dispatched

abbrev pub accepted : ExecutionEvent
accepted = fact_of "e-4" "t-1" EventKind.provider_acknowledged

abbrev pub admitted : ExecutionEvent
admitted = fact_of "e-5" "t-1" EventKind.action_admitted

abbrev pub verified : ExecutionEvent
verified = fact_of "e-6" "t-1" EventKind.verification_verified

abbrev pub doubted : ExecutionEvent
doubted = fact_of "e-7" "t-1" EventKind.verification_inconclusive

-- Another fact under the identity of `sent`.
abbrev pub withheld : ExecutionEvent
withheld = fact_of "e-3" "t-1" EventKind.not_dispatched

-- Another fact, which contradicts `sent`.
abbrev pub not_sent : ExecutionEvent
not_sent = fact_of "e-8" "t-1" EventKind.not_dispatched

abbrev pub initial_facts : List ExecutionEvent
initial_facts = requested ∷ started ∷ []

-- A small hash in place of SHA-256.
unfoldable pub checksum : List ℕ → ℕ
checksum [] = 7
checksum (b ∷ bytes) = (b + 257 * checksum bytes) % 2 ^ 64

abbrev pub codec : Codec
codec = record {
  digest = λ bytes. decimal (checksum bytes);
  marshal = λ payload. ok (123 ∷ 125 ∷ []);
  format_time = λ t. t.instant ∷ [];
}
