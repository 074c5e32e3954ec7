-- ===== src/Eventlog/Memory/Holding.antt =====
-- eventlog/memory/log.go: what one event, and a list of them, leave in the log.
use atoha.Prelude.{
  String, ◌≡◌, sym, ap, ◌∙◌, subst, true, false, Option, none, some, Option-cases, Bool-cases, ◌⊎◌,
  inl, inr, List, [], ◌∷◌, ◌++◌, arith, str_eq, str_eq_iff, str_eq_refl,
}
use mathlib.Core.List.{append-nil}
use atoha.Prelude.Lists.{All}
use atoha.Core.Event.{ExecutionEvent}
use atoha.Eventlog.Fact.{equal, equal_refl, equal_trans}
use atoha.Eventlog.Memory.{
  Map, Log, put, conflicts, preflight_loop, preflight, append_one, append_prepared,
}

-- The fact is on record: its identity is stored, with an equal event.
pub record Holds (l : Log) (e : ExecutionEvent) : Type 0 where
  pub stored : ExecutionEvent
  pub found : l.by_id e.id ≡ some stored
  pub same : equal stored e ≡ true

pub append_one_stored :
    (l : Log) (e : ExecutionEvent) {x : ExecutionEvent} → l.by_id e.id ≡ some x → append_one l e ≡ l
unfolding append_one
append_one_stored l e p = rw (p, append_one)

pub append_one_new :
    (l : Log) (e : ExecutionEvent)
    → l.by_id e.id ≡ none
    → append_one l e ≡ record l { by_id = put e.id e l.by_id; events = l.events ++ e ∷ [] }
unfolding append_one
append_one_new l e p = rw (p, append_one)

pub events-append_one :
    (l : Log) (e : ExecutionEvent)
    → (suffix : List ExecutionEvent) × ((append_one l e).events ≡ l.events ++ suffix)
events-append_one l e = elim (Option-cases (l.by_id e.id)) [
  | inl p ↦ (e ∷ [], ap (λ (z : Log). z.events) (append_one_new l e p))
  | inr (x, p) ↦
      ([], ap (λ (z : Log). z.events) (append_one_stored l e p) ∙ sym (append-nil l.events))
]

-- What is stored stays what it is.
pub by_id-append_one :
    (l : Log) (e : ExecutionEvent) (k : String) {x : ExecutionEvent}
    → l.by_id k ≡ some x
    → (append_one l e).by_id k ≡ some x
unfolding append_one put
by_id-append_one l e k h = ground (arith, str_eq_iff e.id k)

pub by_id-append_prepared :
    (l : Log) (es : List ExecutionEvent) (k : String) {x : ExecutionEvent}
    → l.by_id k ≡ some x
    → (append_prepared l es).by_id k ≡ some x
unfolding append_prepared
by_id-append_prepared l [] k h = h
by_id-append_prepared l (e ∷ es) k h =
    by_id-append_prepared (append_one l e) es k (by_id-append_one l e k h)

pub Holds-append_prepared :
    (l : Log) (es : List ExecutionEvent) {e : ExecutionEvent}
    → Holds l e
    → Holds (append_prepared l es) e
Holds-append_prepared l es {e} h = record {
  stored = h.stored;
  found = by_id-append_prepared l es e.id h.found;
  same = h.same;
}

-- The log that has taken the events so far, and the batch of those events, agree.
record Agree (l : Log) (batch : Map ExecutionEvent) (m : Log) : Type 0 where
  kept : (k : String) (x : ExecutionEvent) → l.by_id k ≡ some x → m.by_id k ≡ some x
  fresh : (k : String) → l.by_id k ≡ none → batch k ≡ none → m.by_id k ≡ none
  taken :
      (k : String) (b : ExecutionEvent)
      → l.by_id k ≡ none
      → batch k ≡ some b
      → (x : ExecutionEvent) × (m.by_id k ≡ some x) × (equal x b ≡ true)

equal_of_conflicts :
    {o : Option ExecutionEvent} (e : ExecutionEvent) {x : ExecutionEvent}
    → conflicts o e ≡ false
    → o ≡ some x
    → equal x e ≡ true
unfolding conflicts
equal_of_conflicts e c h = ground arith

pub conflicts_of_equal :
    {o : Option ExecutionEvent} (e : ExecutionEvent) {x : ExecutionEvent}
    → o ≡ some x
    → equal x e ≡ true
    → conflicts o e ≡ false
unfolding conflicts
conflicts_of_equal e h c = ground arith

module _ {l : Log} {batch : Map ExecutionEvent} {m : Log} (g : Agree l batch m) (e : ExecutionEvent)
    (c : conflicts (l.by_id e.id) e ≡ false) (d : conflicts (batch e.id) e ≡ false) where
  -- An event that conflicts with nothing is new, or on record already.
  new_or_held :
      (m.by_id e.id ≡ none) ⊎ ((x : ExecutionEvent) × (m.by_id e.id ≡ some x) × (equal x e ≡ true))
  new_or_held = elim (Option-cases (l.by_id e.id)) [
    | inr (x, p) ↦ inr (x, g.kept e.id x p, equal_of_conflicts e c p)
    | inl p ↦ elim (Option-cases (batch e.id)) [
      | inl q ↦ inl (g.fresh e.id p q)
      | inr (b, q) ↦
          let (x, r, s) = g.taken e.id b p q in
          inr (x, r, equal_trans x b e s (equal_of_conflicts e d q))
    ]
  ]

  Holds-append_one : Holds (append_one m e) e
  unfolding append_one put
  Holds-append_one = elim new_or_held [
    | inl p ↦ record {
      stored = e;
      found = rw (p, append_one) (rw (str_eq_refl e.id));
      same = equal_refl e;
    }
    | inr (x, p, q) ↦ record { stored = x; found = rw (p, append_one) p; same = q }
  ]

  by_id-append_one_ne : (k : String) → str_eq e.id k ≡ false → (append_one m e).by_id k ≡ m.by_id k
  unfolding append_one put
  by_id-append_one_ne k h = ground arith

  Agree-append_one : Agree l (put e.id e batch) (append_one m e)
  unfolding put
  Agree-append_one = record {
    kept = λ k x p. by_id-append_one m e k (g.kept k x p);
    fresh = λ k p q. elim (Bool-cases (str_eq e.id k)) [
      | inl same ↦ ground arith
      | inr other ↦ by_id-append_one_ne k other ∙ g.fresh k p (ground arith)
    ];
    taken = λ k b p q. elim (Bool-cases (str_eq e.id k)) [
      | inl same ↦
          let h = Holds-append_one in
          let eb : e ≡ b = ground arith in
          (
            h.stored,
            subst (λ j. (append_one m e).by_id j ≡ some h.stored) ((str_eq_iff e.id k).0 same)
                h.found,
            subst (λ z. equal h.stored z ≡ true) eb h.same,
          )
      | inr other ↦
          let (x, r, s) = g.taken k b p (ground arith) in (x, by_id-append_one_ne k other ∙ r, s)
    ];
  }

Holds-loop :
    (l : Log) (batch : Map ExecutionEvent) (m : Log) (es : List ExecutionEvent)
    → Agree l batch m
    → preflight_loop l batch es ≡ none
    → All (Holds (append_prepared m es)) es
unfolding preflight_loop append_prepared
Holds-loop l batch m [] g h = tt
Holds-loop l batch m (e ∷ es) g h =
    let c : conflicts (l.by_id e.id) e ≡ false = ground arith in
    let d : conflicts (batch e.id) e ≡ false = ground arith in
    (
      Holds-append_prepared (append_one m e) es (Holds-append_one g e c d),
      Holds-loop l (put e.id e batch) (append_one m e) es (Agree-append_one g e c d) (ground arith),
    )

-- After a batch that passes the check, each of its facts is on record.
pub append_prepared-Holds :
    (l : Log) (es : List ExecutionEvent)
    → preflight l es ≡ none
    → All (Holds (append_prepared l es)) es
unfolding preflight
append_prepared-Holds l es h =
    Holds-loop l (λ k. none) l es
      (record { kept = λ k x p. p; fresh = λ k p q. p; taken = λ k b p q. cc }) h
