-- ===== src/Eventlog/Sqlite/Readers.antt =====
-- The readers of eventlog/sqlite/log.go against those of the memory log.
use atoha.Prelude.{
  String, ◌≡◌, refl, sym, ap, ◌∙◌, Option, none, some, Option-cases, Bool-cases, inl, inr, List, [],
  ◌∷◌, ◌++◌, map, some_eq, str_eq,
}
use mathlib.Core.List.{append_assoc, append-nil}
use atoha.Prelude.Lists.{All, keep}
use atoha.Errors.{error_is, no_rows, Result, ok, err, Result-cases, ok_eq}
use atoha.Context.{Context}
use atoha.Core.Action.{Action}
use atoha.Core.Event.{ExecutionEvent}
use atoha.Eventlog.Memory
use atoha.Eventlog.Memory.{Log}
use atoha.Eventlog.Rows.{TimeText, EventRow, event_row, read_event, action_row}
use atoha.Eventlog.Database.{Engine, IsDatabase, collect}
use atoha.Eventlog.Sqlite.RoundTrip.{
  IsTimeText, IsStorable, in_utc, action_in_utc, read_event-event_row, parsed_action-action_row,
}
use atoha.Eventlog.Sqlite.Represents.{Represents, row_of}
use atoha.Eventlog.Sqlite.AppendAll.{live}
use atoha.Eventlog.Sqlite.Reading.{
  read_rows, events_read, on_rows, events_by_attempt, on_action_row, action_by_id, read_ids,
  ids_read, on_id_rows, attempt_ids,
}

-- The rows of the facts that a test on the attempt keeps.
keep-rows :
    (T : TimeText) (k : String) (es : List ExecutionEvent)
    → keep (λ (r : EventRow). str_eq r.attempt_id k) (map (event_row T) es)
      ≡ map (event_row T) (keep (λ (e : ExecutionEvent). str_eq e.attempt_id k) es)
unfolding event_row
keep-rows T k [] = refl
keep-rows T k (e ∷ es) = elim (Bool-cases (str_eq e.attempt_id k)) [
  | inl p ↦ rw (p, keep) (ap (λ z. event_row T e ∷ z) (keep-rows T k es))
  | inr p ↦ rw (p, keep) (keep-rows T k es)
]

keep-IsStorable :
    (k : String) (es : List ExecutionEvent)
    → All IsStorable es
    → All IsStorable (keep (λ (e : ExecutionEvent). str_eq e.attempt_id k) es)
keep-IsStorable k [] s = tt
keep-IsStorable k (e ∷ es) s = elim (Bool-cases (str_eq e.attempt_id k)) [
  | inl p ↦ rw (p, keep) (s.0, keep-IsStorable k es s.1)
  | inr p ↦ rw (p, keep) (keep-IsStorable k es s.1)
]

-- The values of a list of results that are all values.
abbrev read_all : (T : TimeText) → List EventRow → List (Result ExecutionEvent)
read_all T rows = map (λ r. read_event T (ok r)) rows

read_all-rows :
    (T : TimeText) (p : IsTimeText T) (es : List ExecutionEvent)
    → All IsStorable es
    → read_all T (map (event_row T) es) ≡ map ok (map in_utc es)
read_all-rows T p [] s = refl
read_all-rows T p (e ∷ es) s =
    rw (read_event-event_row T p e s.0) (ap (λ z. ok (in_utc e) ∷ z) (read_all-rows T p es s.1))

map-ok_eq : {A : Type 0} (xs ys : List A) → map ok xs ≡ map ok ys → xs ≡ ys
map-ok_eq [] [] h = refl
map-ok_eq [] (y ∷ ys) h = cc
map-ok_eq (x ∷ xs) [] h = cc
map-ok_eq (x ∷ xs) (y ∷ ys) h =
    let t : map ok xs ≡ map ok ys = cc in let q : x ≡ y = cc in λ i. q i ∷ map-ok_eq xs ys t i

-- Rows that are read to the end: each Scan returned one, and each was read as a fact.
record ReadsAll (T : TimeText) (rs : List (Result EventRow)) (acc out : List ExecutionEvent)
    : Type 0 where
  rows : List EventRow
  facts : List ExecutionEvent
  scanned : collect rs ≡ some rows
  out_is : out ≡ acc ++ facts
  reads : read_all T rows ≡ map ok facts

read_rows-ReadsAll :
    (E : Engine) (T : TimeText) (rs : List (Result EventRow)) (acc out : List ExecutionEvent)
    → read_rows E T rs acc ≡ ok out
    → ReadsAll T rs acc out
unfolding read_rows collect read_event
read_rows-ReadsAll E T [] acc out h = record {
  rows = [];
  facts = [];
  scanned = refl;
  out_is = sym (ok_eq h) ∙ sym (append-nil acc);
  reads = refl;
}
read_rows-ReadsAll E T (err e ∷ rs) acc out h = cc
read_rows-ReadsAll E T (ok r ∷ rs) acc out h = elim (Result-cases (read_event T (ok r))) [
  | inl (f, g) ↦ let k = rw (g, read_rows) at h in cc
  | inr (e, g) ↦
      let more = read_rows-ReadsAll E T rs (acc ++ e ∷ []) out (rw (g, read_rows) at h) in
      record {
        rows = r ∷ more.rows;
        facts = e ∷ more.facts;
        scanned = rw (more.scanned, collect) refl;
        out_is = more.out_is ∙ append_assoc acc (e ∷ []) more.facts;
        reads = λ i. g i ∷ more.reads i;
      }
]

read_ids-collect :
    (E : Engine) (T : TimeText) (rs : List (Result String)) (acc out : List String)
    → read_ids E T rs acc ≡ ok out
    → (xs : List String) × (collect rs ≡ some xs) × (out ≡ acc ++ xs)
unfolding read_ids collect
read_ids-collect E T [] acc out h = ([], refl, sym (ok_eq h) ∙ sym (append-nil acc))
read_ids-collect E T (err e ∷ rs) acc out h = cc
read_ids-collect E T (ok x ∷ rs) acc out h =
    let (xs, scanned, out_is) = read_ids-collect E T rs (acc ++ x ∷ []) out h in
    (x ∷ xs, rw (scanned, collect) refl, out_is ∙ append_assoc acc (x ∷ []) xs)

row_of-none : {A B : Type 0} (f : A → B) (o : Option A) → row_of f o ≡ none → o ≡ none
row_of-none f none h = refl
row_of-none f (some a) h = cc

module _ {E : Engine} (D : IsDatabase E) {T : TimeText} (p : IsTimeText T) (ctx : Context)
    (s : E.State) (l : Log) (r : Represents T (D.tables s) l) where
  -- What EventsByAttempt returns without an error are the facts that the memory log returns, in its
  -- order, their times in UTC.
  pub events_by_attempt-Represents :
      (k : String) {es : List ExecutionEvent}
      → events_by_attempt E T ctx k (some s) ≡ (es, none)
      → es ≡ map in_utc (Memory.events_by_attempt live k l).0
  unfolding events_by_attempt on_rows events_read Memory.events_by_attempt
  events_by_attempt-Represents k {es} h = elim (Result-cases (E.query_events ctx k s)) [
    | inl (f, g) ↦ let c = ap (λ z. z.1) (rw (g, on_rows) at h) in cc
    | inr (rows, g) ↦ elim (Result-cases (read_rows E T rows.scanned [])) [
      | inl (f, q) ↦ let c = ap (λ z. z.1) (rw (g, on_rows, q, events_read) at h) in cc
      | inr (out, q) ↦
          let c = rw (g, on_rows, q, events_read) at h in
          let all = read_rows-ReadsAll E T rows.scanned [] out q in
          let rs = D.query_events_ok ctx k s rows g (ap (λ z. z.1) c) all.scanned in
          let kept = keep (λ (e : ExecutionEvent). str_eq e.attempt_id k) l.events in
          let at_rows =
            rs
            ∙ ap (keep (λ (z : EventRow). str_eq z.attempt_id k)) r.events
            ∙ keep-rows T k l.events in
          sym (ap (λ z. z.0) c)
          ∙ all.out_is
          ∙ map-ok_eq all.facts (map in_utc kept) (
              sym all.reads
              ∙ ap (read_all T) at_rows
              ∙ read_all-rows T p kept (keep-IsStorable k l.events r.storable))
    ]
  ]

  -- What ActionByID returns without an error is the action that the memory log returns, its time in
  -- UTC, and there is none where that has none.
  pub action_by_id-Represents :
      (k : String) {o : Option Action}
      → action_by_id E T ctx k (some s) ≡ (o, none)
      → o ≡ row_of action_in_utc (Memory.action_by_id live k l).0
  unfolding action_by_id on_action_row Memory.action_by_id
  action_by_id-Represents k {o} h = elim (Result-cases (E.select_action ctx k s)) [
    | inl (f, g) ↦ elim (Bool-cases (error_is no_rows (some f))) [
      | inr q ↦ let c = ap (λ z. z.1) (rw (g, on_action_row, q) at h) in cc
      | inl q ↦
          let c = rw (g, on_action_row, q) at h in
          sym (ap (λ z. z.0) c)
          ∙ ap (row_of action_in_utc) (
              sym (
                row_of-none (action_row T) (l.actions k)
                  (sym (r.actions k) ∙ D.select_action_missing ctx k s g q)))
    ]
    | inr (row, g) ↦
        let found = sym (r.actions k) ∙ D.select_action_ok ctx k s g in
        elim (Option-cases (l.actions k)) [
          | inl q ↦ let c = ap (row_of (action_row T)) (sym q) ∙ found in cc
          | inr (a, q) ↦
              let is_row = some_eq (sym (ap (row_of (action_row T)) q) ∙ found) in
              let c = rw (g, on_action_row, sym is_row) at h in
              sym (ap (λ z. z.0) c)
              ∙ ap (λ z. z.0) (parsed_action-action_row T p a (r.storable_actions k a q))
              ∙ sym (ap (row_of action_in_utc) q)
        ]
  ]

  -- What AttemptIDs returns without an error are the claims of the memory log, in its order.
  pub attempt_ids-Represents :
      {ids : List String}
      → attempt_ids E T ctx (some s) ≡ (ids, none)
      → ids ≡ (Memory.attempt_ids live l).0
  unfolding attempt_ids on_id_rows ids_read Memory.attempt_ids
  attempt_ids-Represents {ids} h = elim (Result-cases (E.query_attempt_ids ctx s)) [
    | inl (f, g) ↦ let c = ap (λ z. z.1) (rw (g, on_id_rows) at h) in cc
    | inr (rows, g) ↦ elim (Result-cases (read_ids E T rows.scanned [])) [
      | inl (f, q) ↦ let c = ap (λ z. z.1) (rw (g, on_id_rows, q, ids_read) at h) in cc
      | inr (out, q) ↦
          let c = rw (g, on_id_rows, q, ids_read) at h in
          let (found, scanned, out_is) = read_ids-collect E T rows.scanned [] out q in
          sym (ap (λ z. z.0) c)
          ∙ out_is
          ∙ D.query_attempt_ids_ok ctx s rows g (ap (λ z. z.1) c) scanned
          ∙ r.attempts
    ]
  ]
