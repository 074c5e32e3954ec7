-- ===== src/Execution/Silence.antt =====
-- The kinds of facts that Verify (execution/verify.go) records, and their claims.
use atoha.Prelude.{◌≡◌, refl, sym, subst, Bool, true, false, List, [], ◌∷◌, ◌++◌, arith}
use atoha.Prelude.Lists.{all}
use atoha.Core.Event.{
  EventKind, ExecutionEvent, observation_recorded, effect_unverified, effect_observed_satisfied,
  effect_observed_unsatisfied, verification_verified, verification_unsatisfied,
  verification_inconclusive,
}
use atoha.Projection.Claims.{
  Claims, no_claims, add, union, claims_of, claims_of-cons, admission_view, dispatch_view,
  admission_clash, dispatch_clash,
}

-- The kinds that Verify records.
unfoldable pub evidence_kind : EventKind → Bool
evidence_kind observation_recorded = true
evidence_kind effect_unverified = true
evidence_kind effect_observed_satisfied = true
evidence_kind effect_observed_unsatisfied = true
evidence_kind verification_verified = true
evidence_kind verification_unsatisfied = true
evidence_kind verification_inconclusive = true
evidence_kind k = false

abbrev pub is_evidence : ExecutionEvent → Bool
is_evidence e = evidence_kind e.kind

-- No claim about admission or dispatch.
pub record Silent (c : Claims) : Type 0 where
  admitted : c.admitted ≡ false
  rejected : c.rejected ≡ false
  withheld : c.withheld ≡ false
  sent : c.sent ≡ false
  accepted : c.accepted ≡ false

Silent-add : (k : EventKind) → evidence_kind k ≡ true → Silent (add k no_claims)
unfolding add evidence_kind
Silent-add observation_recorded h = record {
  admitted = refl;
  rejected = refl;
  withheld = refl;
  sent = refl;
  accepted = refl;
}
Silent-add k h = ground arith

Silent-union : (a b : Claims) → Silent a → Silent b → Silent (union a b)
Silent-union a b s t = record {
  admitted = rw (s.admitted, t.admitted) refl;
  rejected = rw (s.rejected, t.rejected) refl;
  withheld = rw (s.withheld, t.withheld) refl;
  sent = rw (s.sent, t.sent) refl;
  accepted = rw (s.accepted, t.accepted) refl;
}

-- Such claims add nothing to the views of admission and dispatch.
pub union-Silent :
    (c d : Claims)
    → Silent d
    → (admission_view (union c d) ≡ admission_view c)
      × (dispatch_view (union c d) ≡ dispatch_view c)
      × (admission_clash (union c d) ≡ admission_clash c)
      × (dispatch_clash (union c d) ≡ dispatch_clash c)
union-Silent c d s = (
  ground (arith, s.admitted, s.rejected),
  ground (arith, s.withheld, s.sent, s.accepted),
  ground (arith, s.admitted, s.rejected),
  ground (arith, s.withheld, s.sent, s.accepted),
)

pub Silent-claims_of :
    (es : List ExecutionEvent) → all is_evidence es ≡ true → Silent (claims_of es)
Silent-claims_of [] h =
    unfold claims_of in
    record { admitted = refl; rejected = refl; withheld = refl; sent = refl; accepted = refl }
Silent-claims_of (e ∷ es) h = subst Silent (sym (claims_of-cons no_claims e es)) (
    Silent-union (add e.kind no_claims) (claims_of es) (Silent-add e.kind (ground arith))
      (Silent-claims_of es (ground arith)))

pub all_evidence-append :
    (es fs : List ExecutionEvent)
    → all is_evidence es ≡ true
    → all is_evidence fs ≡ true
    → all is_evidence (es ++ fs) ≡ true
all_evidence-append [] fs h k = k
all_evidence-append (e ∷ es) fs h k = ground (arith, all_evidence-append es fs)
