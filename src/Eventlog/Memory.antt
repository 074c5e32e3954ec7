-- ===== src/Eventlog/Memory.antt =====
-- eventlog/memory/log.go: the reference log. A method under the mutex is one step on the state.
pub mod Holding
pub mod Append
pub mod Atomic
pub mod Invariant
pub mod Runs
pub mod Maps
pub mod Claims
pub mod Intents
use atoha.Prelude.{
  String, Bool, true, false, ◌&&◌, not, Option, none, some, List, [], ◌∷◌, ◌++◌, str_eq,
  if◌then◌else◌,
}
use atoha.Prelude.Lists.{keep, all}
use atoha.Errors.{
  Error, sentinel, message, described, text, action_identity_conflict, event_conflict,
}
use atoha.Context.{Context}
use atoha.Core.Action.{Action, ExecutionAttempt}
use atoha.Core.Event.{ExecutionEvent}
use atoha.Eventlog.Fact.{equal, same_action}

-- A Go map from identities: what is stored at each key.
abbrev pub Map : Type 0 → Type 0
Map V = String → Option V

unfoldable pub put : {V : Type 0} → String → V → Map V → Map V
put k v m j = if str_eq k j then some v else m j

-- `attempts` is a set: a map to the empty struct.
pub record Log : Type 0 where
  pub events : List ExecutionEvent
  pub by_id : Map ExecutionEvent
  pub actions : Map Action
  pub attempts : Map Unit
  pub attempt_order : List String

-- New; `initialize` makes the maps of the zero Log into these.
abbrev pub new : Log
new = record {
  events = [];
  by_id = λ k. none;
  actions = λ k. none;
  attempts = λ k. none;
  attempt_order = [];
}

abbrev conflict_error : ExecutionEvent → Error
conflict_error e = described (sentinel event_conflict) (message "%s" (text e.id ∷ []))

-- `if existing, ok := m[event.ID()]; ok && !equal(existing, event)`
unfoldable pub conflicts : Option ExecutionEvent → ExecutionEvent → Bool
conflicts none e = false
conflicts (some existing) e = not (equal existing e)

-- The loop of `preflight`, over the events left.
unfoldable pub preflight_loop : Log → Map ExecutionEvent → List ExecutionEvent → Option Error
unfolding conflicts
preflight_loop l batch [] = none
preflight_loop l batch (e ∷ es) =
    let rest = preflight_loop l (put e.id e batch) es in
    if conflicts (l.by_id e.id) e
    then some (conflict_error e)
    else if conflicts (batch e.id) e
    then some (conflict_error e)
    else rest

unfoldable pub preflight : Log → List ExecutionEvent → Option Error
unfolding preflight_loop
preflight l events = preflight_loop l (λ k. none) events

-- One round of `appendPrepared`: an identity that is stored is skipped.
unfoldable pub append_one : Log → ExecutionEvent → Log
append_one l e = elim (l.by_id e.id) [
  | some existing ↦ l
  | none ↦ record l { by_id = put e.id e l.by_id; events = l.events ++ e ∷ [] }
]

unfoldable pub append_prepared : Log → List ExecutionEvent → Log
unfolding append_one
append_prepared l [] = l
append_prepared l (e ∷ es) = append_prepared (append_one l e) es

unfoldable pub append_all : Context → List ExecutionEvent → Log → Option Error × Log
unfolding preflight append_prepared
append_all ctx events l = elim ctx.err [
  | some e ↦ (some e, l)
  | none ↦ elim (preflight l events) [
    | some e ↦ (some e, l)
    | none ↦ (none, append_prepared l events)
  ]
]

-- Append
unfoldable pub append : Context → ExecutionEvent → Log → Option Error × Log
unfolding append_all
append ctx event l = append_all ctx (event ∷ []) l

-- `if existing, ok := l.actions[action.ID()]; ok && !equalAction(existing, action)`
unfoldable pub action_conflicts : Option Action → Action → Bool
action_conflicts none a = false
action_conflicts (some existing) a = not (same_action existing a)

-- The test on an initial event, negated.
unfoldable pub matches_attempt : ExecutionAttempt → ExecutionEvent → Bool
matches_attempt attempt e = str_eq e.attempt_id attempt.id && str_eq e.action_id attempt.action_id

-- The state that a successful claim leaves.
unfoldable pub claim : Action → ExecutionAttempt → List ExecutionEvent → Log → Log
unfolding append_prepared
claim action attempt events l =
    append_prepared
      (record l {
        attempts = put attempt.id tt l.attempts;
        actions = put action.id action l.actions;
        attempt_order = l.attempt_order ++ attempt.id ∷ [];
      })
      events

-- The claimed flag, the error and the state after.
pub record Begun : Type 0 where
  pub claimed : Bool
  pub failure : Option Error
  pub log : Log

-- No claim, with this error, and nothing changed.
abbrev pub refused : Option Error → Log → Begun
refused e l = record { claimed = false; failure = e; log = l }

unfoldable pub begin_attempt :
    Context → Action → ExecutionAttempt → List ExecutionEvent → Log → Begun
unfolding preflight action_conflicts matches_attempt claim
begin_attempt ctx action attempt events l = elim ctx.err [
  | some e ↦ refused (some e) l
  | none ↦
      if not (str_eq attempt.action_id action.id)
      then refused
          (some (
            described (sentinel action_identity_conflict)
              (message "attempt does not match action" [])))
          l
      else if action_conflicts (l.actions action.id) action
      then refused
          (some
            (described (sentinel action_identity_conflict) (message "%s" (text action.id ∷ []))))
          l
      else elim (l.attempts attempt.id) [
        | some _ ↦ refused none l
        | none ↦
            if not (all (matches_attempt attempt) events)
            then refused
                (some (
                  message "atoha memory event log: initial event does not match claimed attempt"
                    []))
                l
            else elim (preflight l events) [
              | some e ↦ refused (some e) l
              | none ↦ record {
                claimed = true;
                failure = none;
                log = claim action attempt events l;
              }
            ]
      ]
]

-- The readers; `AttemptIDs` and `Events` copy the slice that they return.
unfoldable pub events_by_attempt : Context → String → Log → List ExecutionEvent × Option Error
events_by_attempt ctx attempt_id l = elim ctx.err [
  | some e ↦ ([], some e)
  | none ↦ (keep (λ e. str_eq e.attempt_id attempt_id) l.events, none)
]

-- `none` stands for the zero Action and `false`.
unfoldable pub action_by_id : Context → String → Log → Option Action × Option Error
action_by_id ctx action_id l = elim ctx.err [
  | some e ↦ (none, some e)
  | none ↦ (l.actions action_id, none)
]

unfoldable pub attempt_ids : Context → Log → List String × Option Error
attempt_ids ctx l = elim ctx.err [ some e ↦ ([], some e) | none ↦ (l.attempt_order, none) ]
