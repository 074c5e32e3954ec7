-- ===== src/Projection/Replay.antt =====
-- Replays of facts (projection/attempt.go, and the loop of Get in execution/query.go).
use atoha.Prelude.{
  String, ◌≡◌, ◌≢◌, refl, Bool, true, false, ◌&&◌, ◌||◌, Option, none, some, List, [], ◌∷◌, arith,
  str_eq,
}
use atoha.Prelude.Lists.{all}
use atoha.Errors.{Error}
use atoha.Core.Event.{EventKind, ExecutionEvent, action_admitted}
use atoha.Projection.{Attempt, blank, apply_kind, apply, outcome}
use atoha.Projection.Claims.{
  Claims, no_claims, add, union, claims_of-nil, claims_of, claims_of-cons, admission_clash,
  dispatch_clash, effect_clash, admission_view, dispatch_view, effect_view, outcome_view,
}

-- What comes after a call of Apply that returned no error.
unless_failed : Option Error × Attempt → Option Error × Attempt → Option Error × Attempt
unless_failed (some x, p) rest = (some x, p)
unless_failed (none, p) rest = rest

-- The loop of GetAttempt.Get over the facts, up to the first error.
unfoldable pub replay : List ExecutionEvent → Attempt → Option Error × Attempt
unfolding unless_failed
replay [] p = (none, p)
replay (e ∷ es) p = unless_failed (apply e p) (replay es (apply e p).1)

pub replay_step :
    (e : ExecutionEvent) (es : List ExecutionEvent) (p : Attempt) {q : Attempt}
    → apply e p ≡ (none, q)
    → replay (e ∷ es) p ≡ replay es q
unfolding replay
replay_step e es p h = rw h

-- The view shows just the claims.
pub record Shows (p : Attempt) (c : Claims) : Type 0 where
  pub admission : p.admission ≡ admission_view c
  pub dispatch : p.dispatch ≡ dispatch_view c
  pub effect : p.effect ≡ effect_view c
  pub admission_conflicted : p.admission_conflicted ≡ admission_clash c
  pub dispatch_conflicted : p.dispatch_conflicted ≡ dispatch_clash c
  pub effect_conflicted : p.effect_conflicted ≡ effect_clash c

apply_kind-Shows :
    (k : EventKind) (p : Attempt) (c : Claims) → Shows p c → Shows (apply_kind k p) (add k c)
unfolding apply_kind add
apply_kind-Shows action_admitted p c s = ground arith
apply_kind-Shows k p c s = ground arith

-- What Apply asks of a fact: the view's action, and its attempt or none.
unfoldable pub related : String → String → ExecutionEvent → Bool
related action_id attempt_id e =
    str_eq e.action_id action_id && (str_eq e.attempt_id "" || str_eq e.attempt_id attempt_id)

pub ids-apply_kind :
    (k : EventKind) (p : Attempt)
    → ((apply_kind k p).action_id ≡ p.action_id) × ((apply_kind k p).attempt_id ≡ p.attempt_id)
unfolding apply_kind
ids-apply_kind action_admitted p = ground arith
ids-apply_kind k p = ground arith

pub apply-related :
    (e : ExecutionEvent) (p : Attempt)
    → related p.action_id p.attempt_id e ≡ true
    → apply e p ≡ (none, apply_kind e.kind p)
unfolding related apply
apply-related e p h = ground arith

-- Apply fails on a fact of another action than the view's, or of another attempt, and changes
-- nothing.
pub apply_unrelated :
    (e : ExecutionEvent) (p : Attempt)
    → related p.action_id p.attempt_id e ≡ false
    → ((apply e p).0 ≢ none) × ((apply e p).1 ≡ p)
unfolding related apply
apply_unrelated e p h = ground arith

replay-Shows :
    (es : List ExecutionEvent) (p : Attempt) (c : Claims)
    → all (related p.action_id p.attempt_id) es ≡ true
    → Shows p c
    → ((replay es p).0 ≡ none) × Shows (replay es p).1 (union c (claims_of es))
replay-Shows [] p c h s = unfold replay in (refl, rw (claims_of-nil c) s)
replay-Shows (e ∷ es) p c h s =
    let ids = ids-apply_kind e.kind p in
    let r : related p.action_id p.attempt_id e ≡ true = ground arith in
    let rs : all (related p.action_id p.attempt_id) es ≡ true = ground arith in
    rw (replay_step e es p (apply-related e p r), claims_of-cons c e es)
      (replay-Shows es (apply_kind e.kind p) (add e.kind c) (rw (ids.0, ids.1) rs)
        (apply_kind-Shows e.kind p c s))

outcome-Shows : (p : Attempt) (c : Claims) → Shows p c → outcome p ≡ outcome_view c
unfolding outcome
outcome-Shows p c s = ground arith

-- The facts replayed on a blank view, when all are related to it, fail nowhere and give the view
-- of their claims: in each dimension the strongest claim, or unknown and conflicted if two claims
-- cannot both be true.
pub replay-claims :
    (action_id attempt_id : String) (es : List ExecutionEvent)
    → all (related action_id attempt_id) es ≡ true
    → let r = replay es (blank action_id attempt_id) in
      let c = claims_of es in
      (r.0 ≡ none)
      × (outcome r.1 ≡ outcome_view c)
      × (r.1.admission_conflicted ≡ admission_clash c)
      × (r.1.dispatch_conflicted ≡ dispatch_clash c)
      × (r.1.effect_conflicted ≡ effect_clash c)
replay-claims action_id attempt_id es h =
    let (fine, s) = replay-Shows es (blank action_id attempt_id) no_claims h (record {
      admission = refl;
      dispatch = refl;
      effect = refl;
      admission_conflicted = refl;
      dispatch_conflicted = refl;
      effect_conflicted = refl;
    }) in
    (fine, outcome-Shows _ _ s, s.admission_conflicted, s.dispatch_conflicted, s.effect_conflicted)
