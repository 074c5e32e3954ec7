-- ===== src/Eventlog/Memory/Invariant.antt =====
-- What holds of a log between two calls.
use atoha.Prelude.{
  String, ◌≡◌, refl, sym, ◌∙◌, Bool, true, false, Option, none, some, Option-cases, Bool-cases, inl,
  inr, List, [], ◌∷◌, ◌++◌, ◌||◌, arith, str_eq, str_eq_iff, if◌then◌else◌,
}
use atoha.Context.{Context}
use atoha.Core.Action.{Action, ExecutionAttempt}
use atoha.Core.Event.{ExecutionEvent}
use atoha.Eventlog.Memory.{
  Log, new, put, append_one, append_prepared, append_all, claim, begin_attempt,
}
use atoha.Eventlog.Memory.Holding.{append_one_stored, append_one_new}
use atoha.Eventlog.Memory.Atomic.{
  append_all_error, append_all_ok, begin_attempt_log, begin_attempt-MayBegin,
}

-- The first event of a list with an identity.
abbrev pub find_event : String → List ExecutionEvent → Option ExecutionEvent
find_event k [] = none
find_event k (e ∷ es) = if str_eq e.id k then some e else find_event k es

abbrev pub contains : String → List String → Bool
contains k [] = false
contains k (x ∷ xs) = str_eq x k || contains k xs

abbrev pub Distinct : List String → Type 0
Distinct [] = Unit
Distinct (x ∷ xs) = (contains x xs ≡ false) × Distinct xs

abbrev pub DistinctIds : List ExecutionEvent → Type 0
DistinctIds [] = Unit
DistinctIds (e ∷ es) = (find_event e.id es ≡ none) × DistinctIds es

abbrev pub as_set : Bool → Option (Unit {0})
as_set true = some tt
as_set false = none

-- The map by identity is the index of the events, of which no two share an identity; the set of
-- attempts is that of the claim order, in which none is twice; an action is stored at its identity.
pub record IsConsistent (l : Log) : Type 0 where
  pub index : (k : String) → l.by_id k ≡ find_event k l.events
  pub distinct : DistinctIds l.events
  pub claims : (k : String) → l.attempts k ≡ as_set (contains k l.attempt_order)
  pub once : Distinct l.attempt_order
  pub keyed : (k : String) (a : Action) → l.actions k ≡ some a → a.id ≡ k

abbrev or_else : Option ExecutionEvent → Option ExecutionEvent → Option ExecutionEvent
or_else (some x) o = some x
or_else none o = o

pub find_event-append :
    (k : String) (es : List ExecutionEvent) (e : ExecutionEvent)
    → find_event k (es ++ e ∷ [])
      ≡ or_else (find_event k es) (if str_eq e.id k then some e else none)
find_event-append k [] e = refl
find_event-append k (x ∷ es) e = ground (arith, find_event-append k es e)

DistinctIds-append :
    (es : List ExecutionEvent) (e : ExecutionEvent)
    → DistinctIds es
    → find_event e.id es ≡ none
    → DistinctIds (es ++ e ∷ [])
DistinctIds-append [] e d h = (refl, tt)
DistinctIds-append (x ∷ es) e d h = (
  ground (arith, d.0, find_event-append x.id es e, str_eq_iff e.id x.id, str_eq_iff x.id e.id),
  DistinctIds-append es e d.1 (ground arith),
)

contains-append :
    (k : String) (xs : List String) (x : String)
    → contains k (xs ++ x ∷ []) ≡ (contains k xs || str_eq x k)
contains-append k [] x = ground arith
contains-append k (y ∷ xs) x = ground (arith, contains-append k xs x)

Distinct-append :
    (xs : List String) (x : String) → Distinct xs → contains x xs ≡ false → Distinct (xs ++ x ∷ [])
Distinct-append [] x d h = (refl, tt)
Distinct-append (y ∷ xs) x d h = (
  ground (arith, d.0, contains-append y xs x, str_eq_iff x y, str_eq_iff y x),
  Distinct-append xs x d.1 (ground arith),
)

-- The empty log is consistent.
pub new-IsConsistent : IsConsistent new
new-IsConsistent = record {
  index = λ k. refl;
  distinct = tt;
  claims = λ k. refl;
  once = tt;
  keyed = λ k a h. cc;
}

index_new :
    (l : Log) (e : ExecutionEvent)
    → IsConsistent l
    → l.by_id e.id ≡ none
    → (k : String) → put e.id e l.by_id k ≡ find_event k (l.events ++ e ∷ [])
unfolding put
index_new l e c h k =
    ground (arith, find_event-append k l.events e, c.index k, c.index e.id, str_eq_iff e.id k)

pub append_one-IsConsistent :
    (l : Log) (e : ExecutionEvent) → IsConsistent l → IsConsistent (append_one l e)
append_one-IsConsistent l e c = elim (Option-cases (l.by_id e.id)) [
  | inr (x, p) ↦ rw (append_one_stored l e p) c
  | inl p ↦ rw (append_one_new l e p) (record {
    index = index_new l e c p;
    distinct = DistinctIds-append l.events e c.distinct (sym (c.index e.id) ∙ p);
    claims = c.claims;
    once = c.once;
    keyed = c.keyed;
  })
]

pub append_prepared-IsConsistent :
    (l : Log) (es : List ExecutionEvent) → IsConsistent l → IsConsistent (append_prepared l es)
unfolding append_prepared
append_prepared-IsConsistent l [] c = c
append_prepared-IsConsistent l (e ∷ es) c =
    append_prepared-IsConsistent (append_one l e) es (append_one-IsConsistent l e c)

-- A call of AppendAll keeps the log consistent, whether it fails or not.
pub append_all-IsConsistent :
    (ctx : Context) (es : List ExecutionEvent) (l : Log)
    → IsConsistent l
    → IsConsistent (append_all ctx es l).1
append_all-IsConsistent ctx es l c = elim (Option-cases (append_all ctx es l).0) [
  | inr (e, h) ↦ rw (append_all_error ctx es l h) c
  | inl h ↦ rw ((append_all_ok ctx es l h).2) (append_prepared-IsConsistent l es c)
]

claims_new :
    (l : Log) (a : String)
    → IsConsistent l
    → (k : String) → put a tt l.attempts k ≡ as_set (contains k (l.attempt_order ++ a ∷ []))
unfolding put
claims_new l a c k = ground (arith, contains-append k l.attempt_order a, c.claims k)

pub claim-IsConsistent :
    (action : Action) (attempt : ExecutionAttempt) (es : List ExecutionEvent) (l : Log)
    → l.attempts attempt.id ≡ none
    → IsConsistent l
    → IsConsistent (claim action attempt es l)
unfolding claim put
claim-IsConsistent action attempt es l free c = append_prepared-IsConsistent _ es (record {
  index = c.index;
  distinct = c.distinct;
  claims = claims_new l attempt.id c;
  once = Distinct-append l.attempt_order attempt.id c.once (ground (arith, c.claims attempt.id));
  keyed = λ k a h. ground (arith, str_eq_iff action.id k, c.keyed k a);
})

-- A call of BeginAttempt keeps the log consistent, whether it claims or not.
pub begin_attempt-IsConsistent :
    (ctx : Context) (action : Action) (attempt : ExecutionAttempt) (es : List ExecutionEvent)
    (l : Log)
    → IsConsistent l
    → IsConsistent (begin_attempt ctx action attempt es l).log
begin_attempt-IsConsistent ctx action attempt es l c =
    elim (Bool-cases (begin_attempt ctx action attempt es l).claimed) [
      | inl yes' ↦
          rw (begin_attempt_log ctx action attempt es l, yes')
            (claim-IsConsistent action attempt es l
              (begin_attempt-MayBegin ctx action attempt es l yes').unclaimed c)
      | inr no' ↦ rw (begin_attempt_log ctx action attempt es l, no') c
    ]
