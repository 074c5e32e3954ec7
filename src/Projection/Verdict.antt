-- ===== src/Projection/Verdict.antt =====
-- The verification of the view (projection/attempt.go).
use atoha.Prelude.{
  String, ◌≡◌, ◌∙◌, Bool, true, false, ◌&&◌, ◌||◌, Option, none, some, List, [], ◌∷◌, arith,
  if◌then◌else◌,
}
use atoha.Prelude.Lists.{any, all}
use atoha.Core.Verification.{VerificationStatus, same_verification}
use atoha.Core.Event.{
  EventKind, ExecutionEvent, action_admitted, verification_verified, verification_unsatisfied,
  verification_inconclusive,
}
use atoha.Projection.{Attempt, blank, apply_kind}
use atoha.Projection.Replay.{replay, replay_step, ids-apply_kind, related, apply-related}

-- The conclusive assessment that a fact states.
verdict : EventKind → Option VerificationStatus
verdict verification_verified = some VerificationStatus.verified
verdict verification_unsatisfied = some VerificationStatus.unsatisfied
verdict k = none

-- The last conclusive assessment of a list.
unfoldable pub last_verdict : List ExecutionEvent → Option VerificationStatus
unfolding verdict
last_verdict [] = none
last_verdict (e ∷ es) = elim (last_verdict es) [ some v ↦ some v | none ↦ verdict e.kind ]

inconclusive_kind : EventKind → Bool
inconclusive_kind verification_inconclusive = true
inconclusive_kind k = false

unfoldable pub is_inconclusive : ExecutionEvent → Bool
unfolding inconclusive_kind
is_inconclusive e = inconclusive_kind e.kind

-- The verification that a list leaves, where `v` stood before it.
abbrev pub settled : VerificationStatus → List ExecutionEvent → VerificationStatus
settled v es = elim (last_verdict es) [
  | some w ↦ w
  | none ↦
      if same_verification v VerificationStatus.unknown && any is_inconclusive es
      then VerificationStatus.inconclusive
      else v
]

settled_step :
    (k : EventKind) (p : Attempt) (o : Option VerificationStatus) (later : Bool)
    → (elim o [
      | some w ↦ w
      | none ↦
          if same_verification (apply_kind k p).verification VerificationStatus.unknown && later
          then VerificationStatus.inconclusive
          else (apply_kind k p).verification
    ])
      ≡ (elim (elim o as (λ x. Option VerificationStatus) [ some v ↦ some v | none ↦ verdict k ])
          as (λ x. VerificationStatus) [
            | some w ↦ w
            | none ↦
                if same_verification p.verification VerificationStatus.unknown
                  && (inconclusive_kind k || later)
                then VerificationStatus.inconclusive
                else p.verification
          ])
unfolding apply_kind verdict inconclusive_kind
settled_step action_admitted p o later = ground arith
settled_step k p o later = ground arith

pub replay-settled :
    (es : List ExecutionEvent) (p : Attempt)
    → all (related p.action_id p.attempt_id) es ≡ true
    → (replay es p).1.verification ≡ settled p.verification es
unfolding last_verdict is_inconclusive
replay-settled [] p h = unfold replay in ground arith
replay-settled (e ∷ es) p h =
    let ids = ids-apply_kind e.kind p in
    let r : related p.action_id p.attempt_id e ≡ true = ground arith in
    let rs : all (related p.action_id p.attempt_id) es ≡ true = ground arith in
    rw (replay_step e es p (apply-related e p r)) (
      replay-settled es (apply_kind e.kind p) (rw (ids.0, ids.1) rs)
      ∙ settled_step e.kind p (last_verdict es) (any is_inconclusive es))

-- The verification of a replay on a blank view, all facts being related to it, is the last
-- conclusive assessment, verified or unsatisfied, whatever inconclusive ones come before or after
-- it; where there is none, it is inconclusive if any fact is, and else unknown.
pub replay-verification :
    (action_id attempt_id : String) (es : List ExecutionEvent)
    → all (related action_id attempt_id) es ≡ true
    → (replay es (blank action_id attempt_id)).1.verification ≡ (elim (last_verdict es) [
      | some w ↦ w
      | none ↦
          if any is_inconclusive es
          then VerificationStatus.inconclusive
          else VerificationStatus.unknown
    ])
replay-verification action_id attempt_id es h = replay-settled es (blank action_id attempt_id) h
