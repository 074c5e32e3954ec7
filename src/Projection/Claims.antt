-- ===== src/Projection/Claims.antt =====
-- What the facts claim, with their order and number forgotten, and the view that the claims give.
use atoha.Prelude.{
  arith, refl, ◌++◌, map, [], sym, ap, ◌∙◌, ◌≡◌, Bool, true, false, ◌&&◌, ◌||◌, List, ◌∷◌,
  if◌then◌else◌,
}
use mathlib.Core.Bool.{or_assoc, or-false, or-true}
use atoha.Prelude.Lists.{any}
use atoha.Core.Outcome.{AdmissionStatus, DispatchStatus, EffectStatus, Outcome}
use atoha.Core.Event.{
  EventKind, ExecutionEvent, action_admitted, action_rejected, not_dispatched, action_dispatched,
  provider_acknowledged, effect_unverified, effect_observed_satisfied, effect_observed_unsatisfied,
}

-- Which of the claims that bear on the outcome have been made.
pub record Claims : Type 0 where
  pub admitted : Bool
  pub rejected : Bool
  pub withheld : Bool
  pub sent : Bool
  pub accepted : Bool
  pub unverified : Bool
  pub satisfied : Bool
  pub unsatisfied : Bool

abbrev pub no_claims : Claims
no_claims = record {
  admitted = false;
  rejected = false;
  withheld = false;
  sent = false;
  accepted = false;
  unverified = false;
  satisfied = false;
  unsatisfied = false;
}

-- A rejection claims that nothing was dispatched, too.
unfoldable pub add : EventKind → Claims → Claims
add action_admitted c = record c { admitted = true }
add action_rejected c = record c { rejected = true; withheld = true }
add not_dispatched c = record c { withheld = true }
add action_dispatched c = record c { sent = true }
add provider_acknowledged c = record c { accepted = true }
add effect_unverified c = record c { unverified = true }
add effect_observed_satisfied c = record c { satisfied = true }
add effect_observed_unsatisfied c = record c { unsatisfied = true }
add other_kind c = c

-- Claims that cannot both be true.
abbrev pub admission_clash : Claims → Bool
admission_clash c = c.admitted && c.rejected

abbrev pub dispatch_clash : Claims → Bool
dispatch_clash c = c.withheld && (c.sent || c.accepted)

abbrev pub effect_clash : Claims → Bool
effect_clash c = c.satisfied && c.unsatisfied

-- The strongest claim, and unknown where claims clash.
abbrev pub admission_view : Claims → AdmissionStatus
admission_view c =
    if admission_clash c
    then AdmissionStatus.unknown
    else if c.admitted
    then AdmissionStatus.admitted
    else if c.rejected
    then AdmissionStatus.rejected
    else AdmissionStatus.unknown

abbrev pub dispatch_view : Claims → DispatchStatus
dispatch_view c =
    if dispatch_clash c
    then DispatchStatus.unknown
    else if c.withheld
    then DispatchStatus.not_dispatched
    else if c.accepted
    then DispatchStatus.acknowledged
    else if c.sent
    then DispatchStatus.dispatched
    else DispatchStatus.unknown

abbrev pub effect_view : Claims → EffectStatus
effect_view c =
    if effect_clash c
    then EffectStatus.unknown
    else if c.satisfied
    then EffectStatus.observed_satisfied
    else if c.unsatisfied
    then EffectStatus.observed_unsatisfied
    else if c.unverified
    then EffectStatus.unverified
    else EffectStatus.unknown

abbrev pub outcome_view : Claims → Outcome
outcome_view c = record {
  admission = admission_view c;
  dispatch = dispatch_view c;
  effect = effect_view c;
}

-- The claims of a list of facts: each is made if some fact makes it.
makes : (Claims → Bool) → ExecutionEvent → Bool
makes claim e = claim (add e.kind no_claims)

unfoldable pub claims_of : List ExecutionEvent → Claims
unfolding makes add
claims_of es = record {
  admitted = any (makes (λ c. c.admitted)) es;
  rejected = any (makes (λ c. c.rejected)) es;
  withheld = any (makes (λ c. c.withheld)) es;
  sent = any (makes (λ c. c.sent)) es;
  accepted = any (makes (λ c. c.accepted)) es;
  unverified = any (makes (λ c. c.unverified)) es;
  satisfied = any (makes (λ c. c.satisfied)) es;
  unsatisfied = any (makes (λ c. c.unsatisfied)) es;
}

-- Both sets of claims together.
abbrev pub union : Claims → Claims → Claims
union a b = record {
  admitted = a.admitted || b.admitted;
  rejected = a.rejected || b.rejected;
  withheld = a.withheld || b.withheld;
  sent = a.sent || b.sent;
  accepted = a.accepted || b.accepted;
  unverified = a.unverified || b.unverified;
  satisfied = a.satisfied || b.satisfied;
  unsatisfied = a.unsatisfied || b.unsatisfied;
}

union_assoc : (a b c : Claims) → union (union a b) c ≡ union a (union b c)
union_assoc a b c = λ i. record {
  admitted = or_assoc a.admitted b.admitted c.admitted i;
  rejected = or_assoc a.rejected b.rejected c.rejected i;
  withheld = or_assoc a.withheld b.withheld c.withheld i;
  sent = or_assoc a.sent b.sent c.sent i;
  accepted = or_assoc a.accepted b.accepted c.accepted i;
  unverified = or_assoc a.unverified b.unverified c.unverified i;
  satisfied = or_assoc a.satisfied b.satisfied c.satisfied i;
  unsatisfied = or_assoc a.unsatisfied b.unsatisfied c.unsatisfied i;
}

add-union : (k : EventKind) (c : Claims) → union c (add k no_claims) ≡ add k c
unfolding add
add-union action_admitted c = simp (or-false, or-true)
add-union k c = simp (or-false, or-true)

union-no_claims : (c : Claims) → union c no_claims ≡ c
union-no_claims c = simp or-false

pub claims_of-nil : (c : Claims) → union c (claims_of []) ≡ c
unfolding claims_of
claims_of-nil c = union-no_claims c

pub claims_of-cons :
    (c : Claims) (e : ExecutionEvent) (es : List ExecutionEvent)
    → union c (claims_of (e ∷ es)) ≡ union (add e.kind c) (claims_of es)
unfolding claims_of
claims_of-cons c e es =
    sym (union_assoc c (add e.kind no_claims) (claims_of es))
    ∙ ap (λ (z : Claims). union z (claims_of es)) (add-union e.kind c)

any-append :
    (p : ExecutionEvent → Bool) (es fs : List ExecutionEvent)
    → any p (es ++ fs) ≡ (any p es || any p fs)
any-append p [] fs = refl
any-append p (e ∷ es) fs = ground (arith, any-append p es fs)

pub claims_of-append :
    (es fs : List ExecutionEvent) → claims_of (es ++ fs) ≡ union (claims_of es) (claims_of fs)
unfolding claims_of
claims_of-append es fs = λ i. record {
  admitted = any-append (λ e. (add e.kind no_claims).admitted) es fs i;
  rejected = any-append (λ e. (add e.kind no_claims).rejected) es fs i;
  withheld = any-append (λ e. (add e.kind no_claims).withheld) es fs i;
  sent = any-append (λ e. (add e.kind no_claims).sent) es fs i;
  accepted = any-append (λ e. (add e.kind no_claims).accepted) es fs i;
  unverified = any-append (λ e. (add e.kind no_claims).unverified) es fs i;
  satisfied = any-append (λ e. (add e.kind no_claims).satisfied) es fs i;
  unsatisfied = any-append (λ e. (add e.kind no_claims).unsatisfied) es fs i;
}

-- The claims of kinds, one after another.
abbrev pub kinds_claims : List EventKind → Claims
kinds_claims [] = no_claims
kinds_claims (k ∷ ks) = union (add k no_claims) (kinds_claims ks)

pub claims_of-kinds :
    (es : List ExecutionEvent) {ks : List EventKind}
    → map (λ (e : ExecutionEvent). e.kind) es ≡ ks
    → claims_of es ≡ kinds_claims ks
unfolding claims_of
claims_of-kinds [] h = ap kinds_claims h
claims_of-kinds (e ∷ es) h =
    ap (union (add e.kind no_claims)) (claims_of-kinds es refl) ∙ ap kinds_claims h
