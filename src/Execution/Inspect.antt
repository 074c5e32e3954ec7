-- ===== src/Execution/Inspect.antt =====
-- What ScanIncompleteAttempts (execution/query.go) lists, over the memory log.
use atoha.Prelude.{
  String, ◌≡◌, refl, sym, ap, ◌∙◌, Bool, true, false, ◌&&◌, ◌||◌, not, none, List, [], ◌∷◌, ◌++◌,
  map, arith, str_eq, str_eq_iff, Bool-cases, inl, inr, if◌then◌else◌,
}
use mathlib.Core.List.{append_assoc, append-nil}
use atoha.Prelude.Lists.{any, keep, keep-cons, keep-cons_not}
use atoha.Errors.{ok, ok_eq}
use atoha.Context.{Context}
use atoha.Core.Event.{EventKind, ExecutionEvent, dispatch_unknown, attempt_started}
use atoha.Projection.Claims.{no_claims, add}
use atoha.Eventlog.Memory.{Log, events_by_attempt, attempt_ids}
use atoha.Eventlog.Memory.Invariant.{contains}
use atoha.Execution.MemoryJournal.{memory_journal}
use atoha.Execution.Query.{
  IncompleteAttempt, starts, finishes, Progress, progress, incomplete, scan_loop, scan,
}

-- The facts of an attempt, in the order of the log.
abbrev pub facts_of : Log → String → List ExecutionEvent
facts_of l a = keep (λ (e : ExecutionEvent). str_eq e.attempt_id a) l.events

abbrev pub is_unknown_dispatch : EventKind → Bool
is_unknown_dispatch dispatch_unknown = true
is_unknown_dispatch k = false

abbrev pub is_start : EventKind → Bool
is_start attempt_started = true
is_start k = false

-- A fact of this kind says what became of the dispatch: it claims something of it, as a rejection
-- does too, or says that it is unknown.
unfoldable pub settles : EventKind → Bool
unfolding add
settles k = let c = add k no_claims in is_unknown_dispatch k || c.withheld || c.sent || c.accepted

unfoldable pub has_started : List ExecutionEvent → Bool
has_started es = any (λ (e : ExecutionEvent). is_start e.kind) es

unfoldable pub has_finished : List ExecutionEvent → Bool
has_finished es = any (λ (e : ExecutionEvent). settles e.kind) es

-- A fact says that the attempt started, and none says what became of its dispatch.
unfoldable pub is_unfinished : Log → String → Bool
is_unfinished l a = has_started (facts_of l a) && not (has_finished (facts_of l a))

-- The action of the last fact.
abbrev pub last_action : List ExecutionEvent → String
last_action [] = ""
last_action (e ∷ []) = e.action_id
last_action (e ∷ f ∷ es) = last_action (f ∷ es)

-- What the scan says of an attempt that it lists.
abbrev pub entry : Log → String → IncompleteAttempt
entry l a = record { action_id = last_action (facts_of l a); attempt_id = a }

starts-is_start : (k : EventKind) → starts k ≡ is_start k
unfolding starts
starts-is_start attempt_started = refl
starts-is_start k = refl

finishes-settles : (k : EventKind) → finishes k ≡ settles k
unfolding finishes settles add
finishes-settles dispatch_unknown = refl
finishes-settles k = refl

progress-started :
    (p : Progress) (es : List ExecutionEvent)
    → (progress p es).started ≡ (has_started es || p.started)
unfolding progress has_started
progress-started p [] = refl
progress-started p (e ∷ es) = ground (
  arith,
  starts-is_start e.kind,
  progress-started
      (record {
        action_id = e.action_id;
        started = if starts e.kind then true else p.started;
        finished = if finishes e.kind then true else p.finished;
      })
      es,
)

progress-finished :
    (p : Progress) (es : List ExecutionEvent)
    → (progress p es).finished ≡ (has_finished es || p.finished)
unfolding progress has_finished
progress-finished p [] = refl
progress-finished p (e ∷ es) = ground (
  arith,
  finishes-settles e.kind,
  progress-finished
      (record {
        action_id = e.action_id;
        started = if starts e.kind then true else p.started;
        finished = if finishes e.kind then true else p.finished;
      })
      es,
)

pub incomplete-facts :
    (es : List ExecutionEvent) → (incomplete es).1 ≡ (has_started es && not (has_finished es))
unfolding incomplete
incomplete-facts es =
    let p : Progress = record { action_id = ""; started = false; finished = false } in
    rw (progress-started p es, progress-finished p es) (ground arith)

incomplete_of : (l : Log) (a : String) → (incomplete (facts_of l a)).1 ≡ is_unfinished l a
unfolding is_unfinished
incomplete_of l a = incomplete-facts (facts_of l a)

progress-action :
    (p : Progress) (e : ExecutionEvent) (es : List ExecutionEvent)
    → (progress p (e ∷ es)).action_id ≡ last_action (e ∷ es)
unfolding progress
progress-action p e [] = refl
progress-action p e (f ∷ es) =
    progress-action
      (record {
        action_id = e.action_id;
        started = if starts e.kind then true else p.started;
        finished = if finishes e.kind then true else p.finished;
      })
      f es

incomplete-action : (es : List ExecutionEvent) → (incomplete es).0 ≡ last_action es
unfolding incomplete progress
incomplete-action [] = refl
incomplete-action (e ∷ es) =
    progress-action (record { action_id = ""; started = false; finished = false }) e es

-- The list after one more identity.
with_entry : Log → String → List IncompleteAttempt → List IncompleteAttempt
with_entry l a found = if (incomplete (facts_of l a)).1 then found ++ entry l a ∷ [] else found

scan_loop-cons :
    (ctx : Context) (l : Log) (found : List IncompleteAttempt) (a : String) (ids : List String)
    → ctx.err ≡ none
    → scan_loop memory_journal ctx found (a ∷ ids) l
      ≡ scan_loop memory_journal ctx (with_entry l a found) ids l
unfolding scan_loop events_by_attempt with_entry
scan_loop-cons ctx l found a ids live = rw (live, incomplete-action (facts_of l a)) refl

scan_loop-found :
    (ctx : Context) (l : Log) (found : List IncompleteAttempt) (ids : List String)
    → ctx.err ≡ none
    → scan_loop memory_journal ctx found ids l
      ≡ ok (found ++ map (entry l) (keep (is_unfinished l) ids))
unfolding with_entry
scan_loop-found ctx l found [] live = unfold scan_loop in ap ok (sym (append-nil found))
scan_loop-found ctx l found (a ∷ ids) live = elim (Bool-cases (is_unfinished l a)) [
  | inl p ↦
      scan_loop-cons ctx l found a ids live
      ∙ rw (incomplete_of l a, p, keep-cons (is_unfinished l) a ids p)
          (scan_loop-found ctx l (found ++ entry l a ∷ []) ids live
            ∙ ap ok
                (append_assoc found (entry l a ∷ []) (map (entry l) (keep (is_unfinished l) ids))))
  | inr p ↦
      scan_loop-cons ctx l found a ids live
      ∙ rw (incomplete_of l a, p, keep-cons_not (is_unfinished l) a ids p)
          (scan_loop-found ctx l found ids live)
]

-- With a live context the scan of a memory log fails nowhere and lists, in the order of their
-- claims, just the claimed attempts of which some fact says that they started and none says that
-- they were rejected, not dispatched, dispatched, acknowledged or of unknown dispatch, each with
-- the action of its last fact.
pub scan_lists :
    (ctx : Context) (l : Log)
    → ctx.err ≡ none
    → scan memory_journal ctx l ≡ ok (map (entry l) (keep (is_unfinished l) l.attempt_order))
unfolding scan attempt_ids
scan_lists ctx l live = rw live (scan_loop-found (record { err = none }) l [] l.attempt_order refl)

-- Whether a list names an attempt.
abbrev pub names : String → List IncompleteAttempt → Bool
names a found = any (λ (i : IncompleteAttempt). str_eq i.attempt_id a) found

names-entries :
    (l : Log) (a : String) (ids : List String)
    → names a (map (entry l) (keep (is_unfinished l) ids)) ≡ (contains a ids && is_unfinished l a)
names-entries l a [] = refl
names-entries l a (b ∷ ids) = elim (Bool-cases (is_unfinished l b)) [
  | inl p ↦
      rw (keep-cons (is_unfinished l) b ids p)
        (ground (arith, p, names-entries l a ids, str_eq_iff b a))
  | inr p ↦
      rw (keep-cons_not (is_unfinished l) b ids p)
        (ground (arith, p, names-entries l a ids, str_eq_iff b a))
]

any_finished :
    (es : List ExecutionEvent)
    → any (λ (e : ExecutionEvent). is_unknown_dispatch e.kind) es ≡ true
    → any (λ (e : ExecutionEvent). settles e.kind) es ≡ true
unfolding settles
any_finished [] h = cc
any_finished (e ∷ es) h = elim (Bool-cases (is_unknown_dispatch e.kind)) [
  | inl p ↦ rw p refl
  | inr p ↦ ground (arith, p, any_finished es)
]

mem_facts :
    (p : EventKind → Bool) (a : String) (es : List ExecutionEvent)
    → any
        (λ (e : ExecutionEvent). p e.kind)
        (keep (λ (e : ExecutionEvent). str_eq e.attempt_id a) es)
      ≡ any (λ (e : ExecutionEvent). str_eq e.attempt_id a && p e.kind) es
mem_facts p a [] = refl
mem_facts p a (e ∷ es) = ground (arith, mem_facts p a es)

pub scan-names :
    (ctx : Context) (l : Log) (a : String) {found : List IncompleteAttempt}
    → ctx.err ≡ none
    → scan memory_journal ctx l ≡ ok found
    → names a found ≡ (contains a l.attempt_order && is_unfinished l a)
scan-names ctx l a live h =
    ap (names a) (ok_eq (sym h ∙ scan_lists ctx l live)) ∙ names-entries l a l.attempt_order

-- With a live context the scan of a memory log does not name an attempt of which a fact says that
-- its dispatch is unknown, even if no fact says what became of it.
pub unknown_dispatch_unlisted :
    (ctx : Context) (l : Log) (a : String) {found : List IncompleteAttempt}
    → ctx.err ≡ none
    → any (λ (e : ExecutionEvent). str_eq e.attempt_id a && is_unknown_dispatch e.kind) l.events
      ≡ true
    → scan memory_journal ctx l ≡ ok found
    → names a found ≡ false
unfolding is_unfinished has_finished
unknown_dispatch_unlisted ctx l a live u h =
    let m = mem_facts is_unknown_dispatch a l.events in
    ground (arith, scan-names ctx l a live h, any_finished (facts_of l a) (m ∙ u))
