-- ===== src/Execution/Reading.antt =====
-- What GetAttempt (execution/query.go) shows of the facts in the memory log.
use atoha.Prelude.{
  String, ◌≡◌, refl, ◌∙◌, ap, Bool, true, false, Option, none, some, List, [], ◌∷◌, arith, str_eq,
  subst, sym,
}
use atoha.Prelude.Lists.{all, keep}
use atoha.Errors.{Error, ok}
use atoha.Context.{Context}
use atoha.Core.Verification.{VerificationStatus}
use atoha.Core.Event.{ExecutionEvent}
use atoha.Eventlog.Memory.{Log, events_by_attempt}
use atoha.Projection.{Attempt, blank, new_attempt}
use atoha.Projection.Claims.{claims_of, outcome_view, admission_clash, dispatch_clash, effect_clash}
use atoha.Projection.Replay.{replay, related, replay-claims}
use atoha.Projection.Verdict.{settled, replay-settled}
use atoha.Execution.MemoryJournal.{memory_journal}
use atoha.Execution.Query.{AttemptView, get, on_events, on_view, on_replayed, view_of}
use atoha.Execution.Inspect.{facts_of}

-- All facts are of the action.
abbrev pub all_of_action : String → List ExecutionEvent → Bool
all_of_action action_id es = all (λ (f : ExecutionEvent). str_eq f.action_id action_id) es

-- The view that the facts of an attempt claim.
abbrev pub claimed_view : String → String → List ExecutionEvent → AttemptView
claimed_view action_id attempt_id es = record {
  action_id = action_id;
  attempt_id = attempt_id;
  outcome = outcome_view (claims_of es);
  verification = settled VerificationStatus.unknown es;
  admission_conflicted = admission_clash (claims_of es);
  dispatch_conflicted = dispatch_clash (claims_of es);
  effect_conflicted = effect_clash (claims_of es);
}

kept-related :
    (action_id a : String) (es : List ExecutionEvent)
    → all_of_action action_id (keep (λ (e : ExecutionEvent). str_eq e.attempt_id a) es) ≡ true
    → all (related action_id a) (keep (λ (e : ExecutionEvent). str_eq e.attempt_id a) es) ≡ true
unfolding related
kept-related action_id a [] h = refl
kept-related action_id a (e ∷ es) h = ground (arith, kept-related action_id a es)

on_replayed-ok :
    (action_id a : String) (r : Option Error × Attempt) {v : AttemptView}
    → r.0 ≡ none
    → view_of action_id a r.1 ≡ v
    → on_replayed action_id a r ≡ ok v
unfolding on_replayed
on_replayed-ok action_id a (some e, p) h q = cc
on_replayed-ok action_id a (none, p) h q = ap ok q

on_view-claimed :
    (action_id a : String) (es : List ExecutionEvent)
    → str_eq action_id "" ≡ false
    → str_eq a "" ≡ false
    → all (related action_id a) es ≡ true
    → on_view action_id a es (new_attempt action_id a) ≡ ok (claimed_view action_id a es)
unfolding on_view new_attempt view_of
on_view-claimed action_id a es n m r =
    let c = replay-claims action_id a es r in
    let v = replay-settled es (blank action_id a) r in
    rw (n, m)
      (on_replayed-ok action_id a (replay es (blank action_id a)) c.0 (λ i. record {
        action_id = action_id;
        attempt_id = a;
        outcome = c.1 i;
        verification = v i;
        admission_conflicted = c.2 i;
        dispatch_conflicted = c.3 i;
        effect_conflicted = c.4 i;
      }))

get-events :
    (ctx : Context) (l : Log) (a : String)
    → ctx.err ≡ none
    → str_eq a "" ≡ false
    → get memory_journal ctx a l ≡ on_events a (facts_of l a, none)
unfolding get events_by_attempt
get-events ctx l a live m = rw (m, live) refl

-- With a live context and an attempt of which the memory log has facts, all of one action, Get
-- returns the view of what the facts claim: in each dimension the strongest claim, or unknown and
-- conflicted if two claims cannot both be true, and the last conclusive assessment.
pub get_shows :
    (ctx : Context) (l : Log) (a : String) (e : ExecutionEvent) (es : List ExecutionEvent)
    → ctx.err ≡ none
    → str_eq a "" ≡ false
    → str_eq e.action_id "" ≡ false
    → facts_of l a ≡ e ∷ es
    → all_of_action e.action_id (e ∷ es) ≡ true
    → get memory_journal ctx a l ≡ ok (claimed_view e.action_id a (e ∷ es))
unfolding on_events
get_shows ctx l a e es live m n f h =
    get-events ctx l a live m
    ∙ rw f (
        on_view-claimed e.action_id a (e ∷ es) n m (
          subst (λ z. all (related e.action_id a) z ≡ true) f
            (kept-related e.action_id a l.events
              (subst (λ z. all_of_action e.action_id z ≡ true) (sym f) h))))
