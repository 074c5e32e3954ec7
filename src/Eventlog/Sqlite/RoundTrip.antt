-- ===== src/Eventlog/Sqlite/RoundTrip.antt =====
-- A fact or an action that is written to a row (eventlog/sqlite/log.go) and read back.
use atoha.Prelude.{◌+◌, ◌-◌, ◌*◌, ◌^◌, ◌≡◌, refl, Bool, true, ◌&&◌, none, some, arith, ltb, leb, ap}
use atoha.Instant.{Time, zero_instant, utc, is_zero, time_eq}
use atoha.Errors.{ok}
use atoha.Core.Identity.{clone_bytes}
use atoha.Core.Action.{Action, ActionSpec, new_action}
use atoha.Core.Event.{
  EventKind, valid_kind, kind_text, ExecutionEvent, ExecutionEventSpec, new_execution_event,
  check_attempt,
}
use atoha.Eventlog.Fact.{equal}
use atoha.Eventlog.Rows.{
  TimeText, kind_of, format_time, event_row, action_row, read_event, parsed_event, checked_event,
  parsed_action, checked_action,
}

-- The years that RFC3339 can write, 0000 to 9999.
unfoldable pub representable : Time → Bool
representable t =
    leb (zero_instant - 366 * 86400 * 10 ^ 9) t.instant
    && ltb t.instant (zero_instant + 3652059 * 86400 * 10 ^ 9)

-- The documented behaviour of package time: what is written in UTC is parsed as it was.
pub record IsTimeText (T : TimeText) : Type 0 where
  pub parse-format : (t : Time) → representable t ≡ true → T.parse (T.format (utc t)) ≡ ok (utc t)

abbrev spec_of : ExecutionEvent → ExecutionEventSpec
spec_of e = record {
  id = e.id;
  action_id = e.action_id;
  attempt_id = e.attempt_id;
  kind = e.kind;
  occurred_at = e.occurred_at;
  recorded_at = e.recorded_at;
  bytes = e.bytes;
}

-- A fact that NewExecutionEvent returns, with times that can be written.
pub record IsStorable (e : ExecutionEvent) : Type 0 where
  pub built : new_execution_event (spec_of e) ≡ ok e
  pub occurred : representable e.occurred_at ≡ true
  pub recorded : representable e.recorded_at ≡ true

abbrev action_spec : Action → ActionSpec
action_spec a = record {
  id = a.id;
  target = a.target;
  name = a.name;
  input = a.input;
  requested_at = a.requested_at;
}

pub record IsStorableAction (a : Action) : Type 0 where
  pub built : new_action (action_spec a) ≡ ok a
  pub requested : representable a.requested_at ≡ true

-- The same fact with its times in UTC.
unfoldable pub in_utc : ExecutionEvent → ExecutionEvent
in_utc e = record e { occurred_at = utc e.occurred_at; recorded_at = utc e.recorded_at }

unfoldable pub action_in_utc : Action → Action
action_in_utc a = record a { requested_at = utc a.requested_at }

kind_of-kind_text : (k : EventKind) → valid_kind k ≡ true → kind_of (kind_text k) ≡ k
unfolding kind_of kind_text valid_kind
kind_of-kind_text EventKind.action_requested h = refl
kind_of-kind_text EventKind.attempt_started h = refl
kind_of-kind_text EventKind.recovery_authorized h = refl
kind_of-kind_text EventKind.action_admitted h = refl
kind_of-kind_text EventKind.action_rejected h = refl
kind_of-kind_text EventKind.dispatch_unknown h = refl
kind_of-kind_text EventKind.not_dispatched h = refl
kind_of-kind_text EventKind.action_dispatched h = refl
kind_of-kind_text EventKind.provider_acknowledged h = refl
kind_of-kind_text EventKind.observation_recorded h = refl
kind_of-kind_text EventKind.effect_unknown h = refl
kind_of-kind_text EventKind.effect_unverified h = refl
kind_of-kind_text EventKind.effect_observed_satisfied h = refl
kind_of-kind_text EventKind.effect_observed_unsatisfied h = refl
kind_of-kind_text EventKind.verification_verified h = refl
kind_of-kind_text EventKind.verification_unsatisfied h = refl
kind_of-kind_text EventKind.verification_inconclusive h = refl
kind_of-kind_text (EventKind.other s) h = cc

built-valid_kind :
    (e : ExecutionEvent) → new_execution_event (spec_of e) ≡ ok e → valid_kind e.kind ≡ true
unfolding new_execution_event
built-valid_kind e h = ground arith

built-in_utc :
    (e : ExecutionEvent)
    → new_execution_event (spec_of e) ≡ ok e
    → new_execution_event (spec_of (in_utc e)) ≡ ok (in_utc e)
unfolding new_execution_event in_utc clone_bytes is_zero utc check_attempt
built-in_utc e h = ground arith

built-action_in_utc :
    (a : Action)
    → new_action (action_spec a) ≡ ok a
    → new_action (action_spec (action_in_utc a)) ≡ ok (action_in_utc a)
unfolding new_action action_in_utc clone_bytes is_zero utc
built-action_in_utc a h = ground arith

pub equal-in_utc : (e f : ExecutionEvent) → equal (in_utc e) f ≡ equal e f
unfolding equal in_utc utc time_eq
equal-in_utc e f = refl

module _ (T : TimeText) (p : IsTimeText T) where
  -- A fact that NewExecutionEvent returns, with times in the years 0 to 9999, is read back from its
  -- row as it was, its times in UTC.
  pub read_event-event_row :
      (e : ExecutionEvent) → IsStorable e → read_event T (ok (event_row T e)) ≡ ok (in_utc e)
  unfolding read_event event_row format_time parsed_event checked_event in_utc
  read_event-event_row e s =
      rw
        (
          p.parse-format e.occurred_at s.occurred,
          p.parse-format e.recorded_at s.recorded,
          kind_of-kind_text e.kind (built-valid_kind e s.built),
        )
        (ap (checked_event T) (built-in_utc e s.built))

  -- An action that NewAction returns, with a time in the years 0 to 9999, is read back from its row
  -- as it was, its time in UTC.
  pub parsed_action-action_row :
      (a : Action)
      → IsStorableAction a
      → parsed_action T (action_row T a) (T.parse (action_row T a).requested_at)
        ≡ (some (action_in_utc a), none)
  unfolding parsed_action action_row format_time checked_action action_in_utc
  parsed_action-action_row a s =
      rw (p.parse-format a.requested_at s.requested)
        (ap (checked_action T) (built-action_in_utc a s.built))
