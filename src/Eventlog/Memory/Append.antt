-- ===== src/Eventlog/Memory/Append.antt =====
-- preflight and appendPrepared: what a batch leaves in the log.
use atoha.Prelude.{
  some_eq, String, ◌≡◌, refl, sym, ap, ◌∙◌, subst, ◌↔◌, true, false, none, some, Option-cases,
  Bool-cases, inl, inr, List, [], ◌∷◌, ◌++◌, arith, str_eq, str_eq_iff,
}
use mathlib.Core.List.{append_assoc, append-nil}
use atoha.Prelude.Lists.{All}
use atoha.Core.Event.{ExecutionEvent}
use atoha.Eventlog.Fact.{equal, equal_symm, equal_trans}
use atoha.Eventlog.Memory.{
  Map, Log, put, conflicts, preflight_loop, preflight, append_one, append_prepared,
}
use atoha.Eventlog.Memory.Holding.{
  Holds, append_one_stored, events-append_one, by_id-append_prepared, conflicts_of_equal,
  append_prepared-Holds,
}

-- What is in the batch so far is on record in `m`.
record BatchHeld (batch : Map ExecutionEvent) (m : Log) : Type 0 where
  at : (k : String) (b : ExecutionEvent) → batch k ≡ some b → (b.id ≡ k) × Holds m b

BatchHeld-put :
    (batch : Map ExecutionEvent) {m : Log} {e : ExecutionEvent}
    → BatchHeld batch m
    → Holds m e
    → BatchHeld (put e.id e batch) m
unfolding put
BatchHeld-put batch {m} {e} g h = record {
  at = λ k b p. elim (Bool-cases (str_eq e.id k)) [
    | inl same ↦
        let eb : e ≡ b = ground arith in
        subst (λ z. (z.id ≡ k) × Holds m z) eb ((str_eq_iff e.id k).0 same, h)
    | inr other ↦ g.at k b (ground arith)
  ];
}

module _ (l : Log) (m : Log)
    (kept : (k : String) (x : ExecutionEvent) → l.by_id k ≡ some x → m.by_id k ≡ some x) where
  no_stored_conflict : (e : ExecutionEvent) → Holds m e → conflicts (l.by_id e.id) e ≡ false
  unfolding conflicts
  no_stored_conflict e h = elim (Option-cases (l.by_id e.id)) [
    | inl p ↦ rw p refl
    | inr (x, p) ↦
        conflicts_of_equal e p
          (subst (λ z. equal z e ≡ true) (some_eq (sym h.found ∙ kept e.id x p)) h.same)
  ]

  no_batch_conflict :
      (batch : Map ExecutionEvent) (e : ExecutionEvent)
      → BatchHeld batch m
      → Holds m e
      → conflicts (batch e.id) e ≡ false
  unfolding conflicts
  no_batch_conflict batch e g h = elim (Option-cases (batch e.id)) [
    | inl p ↦ rw p refl
    | inr (b, p) ↦
        let (i, hb) = g.at e.id b p in
        let found : m.by_id e.id ≡ some hb.stored =
          subst (λ k. m.by_id k ≡ some hb.stored) i hb.found in
        let one : equal hb.stored e ≡ true =
          subst (λ z. equal z e ≡ true) (some_eq (sym h.found ∙ found)) h.same in
        conflicts_of_equal e p (equal_trans b hb.stored e (equal_symm hb.stored b hb.same) one)
  ]

  passes_loop :
      (batch : Map ExecutionEvent) (es : List ExecutionEvent)
      → BatchHeld batch m
      → All (Holds m) es
      → preflight_loop l batch es ≡ none
  unfolding preflight_loop
  passes_loop batch [] g h = refl
  passes_loop batch (e ∷ es) g h =
      rw (no_stored_conflict e h.0, no_batch_conflict batch e g h.0)
        (passes_loop (put e.id e batch) es (BatchHeld-put batch g h.0) h.1)

-- A batch passes the check exactly if all its facts are on record once it is appended: what is
-- refused is a batch of which some fact would be lost.
pub preflight-none_iff :
    (l : Log) (es : List ExecutionEvent)
    → (preflight l es ≡ none) ↔ All (Holds (append_prepared l es)) es
unfolding preflight
preflight-none_iff l es = (
  append_prepared-Holds l es,
  λ h.
      passes_loop l (append_prepared l es) (λ k x p. by_id-append_prepared l es k p) (λ k. none) es
        (record { at = λ k b p. cc }) h,
)

-- A batch of facts that are on record changes nothing.
pub append_prepared_of_Holds :
    (l : Log) (es : List ExecutionEvent) → All (Holds l) es → append_prepared l es ≡ l
unfolding append_prepared
append_prepared_of_Holds l [] h = refl
append_prepared_of_Holds l (e ∷ es) h =
    rw (append_one_stored l e h.0.found) (append_prepared_of_Holds l es h.1)

pub preflight_of_Holds :
    (l : Log) (es : List ExecutionEvent) → All (Holds l) es → preflight l es ≡ none
unfolding preflight
preflight_of_Holds l es h =
    passes_loop l l (λ k x p. p) (λ k. none) es (record { at = λ k b p. cc }) h

-- The events that are in the log stay, in order, and new ones come behind them.
pub events-append_prepared :
    (l : Log) (es : List ExecutionEvent)
    → (suffix : List ExecutionEvent) × ((append_prepared l es).events ≡ l.events ++ suffix)
unfolding append_prepared
events-append_prepared l [] = ([], sym (append-nil l.events))
events-append_prepared l (e ∷ es) =
    let (suffix, h) = events-append_prepared (append_one l e) es in
    let (first, g) = events-append_one l e in
    (first ++ suffix, h ∙ ap (λ z. z ++ suffix) g ∙ append_assoc l.events first suffix)
