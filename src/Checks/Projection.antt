-- ===== src/Checks/Projection.antt =====
-- Replays of the facts of one attempt.
use atoha.Prelude.{◌≡◌, ◌≢◌, refl, true, false, none, some, List, [], ◌∷◌, ◌++◌, if◌then◌else◌}
use mathlib.Core.List.{Mem, mem-append, mem-append_left, mem-append_right, Mem-prop}
use mathlib.Core.Logic.Or
use atoha.Prelude.Lists.{any, all}
use atoha.Core.Outcome.{AdmissionStatus, DispatchStatus, EffectStatus}
use atoha.Core.Verification.{VerificationStatus}
use atoha.Core.Event.{ExecutionEvent}
use atoha.Projection.{blank, apply, outcome, conflicted}
use atoha.Projection.Claims.{claims_of, outcome_view, admission_clash, dispatch_clash, effect_clash}
use atoha.Projection.Replay.{replay, related, replay-claims, apply_unrelated}
use atoha.Projection.Order.{SameFacts, replay_order}
use atoha.Projection.Verdict.{last_verdict, is_inconclusive, replay-verification}
use atoha.Checks.Data.{started, sent, accepted, admitted, verified, doubted, not_sent}

abbrev facts : List ExecutionEvent
facts = started ∷ admitted ∷ accepted ∷ sent ∷ verified ∷ doubted ∷ []

-- The facts again, from the fourth on before the first three.
abbrev turned : List ExecutionEvent
turned = (sent ∷ verified ∷ doubted ∷ []) ++ started ∷ admitted ∷ accepted ∷ []

mem_turned :
    (es fs : List ExecutionEvent) (e : ExecutionEvent) → Mem e (es ++ fs) → Mem e (fs ++ es)
mem_turned es fs e m =
    Or.elim (Mem-prop {a = e} {l = fs ++ es}) (mem-append.0 m) (mem-append_right fs)
      (mem-append_left es)

turned_same : SameFacts facts turned
turned_same = record {
  forth = mem_turned (started ∷ admitted ∷ accepted ∷ []) (sent ∷ verified ∷ doubted ∷ []);
  back = mem_turned (sent ∷ verified ∷ doubted ∷ []) (started ∷ admitted ∷ accepted ∷ []);
}

facts-related : all (related "a-1" "t-1") facts ≡ true
unfolding related
facts-related = refl

-- An acknowledgement stays, although a weaker claim comes after it.
facts_outcome : outcome (replay facts (blank "a-1" "t-1")).1 ≡ record {
  admission = AdmissionStatus.admitted;
  dispatch = DispatchStatus.acknowledged;
  effect = EffectStatus.unknown;
}
unfolding replay apply outcome
facts_outcome = refl

-- A contradiction shows, and is not settled by the later fact.
contradiction :
    let p = (replay (sent ∷ not_sent ∷ accepted ∷ []) (blank "a-1" "t-1")).1 in
    (p.dispatch ≡ DispatchStatus.unknown) × (conflicted p ≡ true)
unfolding replay apply conflicted
contradiction = (refl, refl)

replay-claims_example :
    let r = replay facts (blank "a-1" "t-1") in
    let c = claims_of facts in
    (r.0 ≡ none)
    × (outcome r.1 ≡ outcome_view c)
    × (r.1.admission_conflicted ≡ admission_clash c)
    × (r.1.dispatch_conflicted ≡ dispatch_clash c)
    × (r.1.effect_conflicted ≡ effect_clash c)
replay-claims_example = replay-claims "a-1" "t-1" facts facts-related

replay-verification_example :
    (replay facts (blank "a-1" "t-1")).1.verification ≡ (elim (last_verdict facts) [
      | some w ↦ w
      | none ↦
          if any is_inconclusive facts
          then VerificationStatus.inconclusive
          else VerificationStatus.unknown
    ])
replay-verification_example = replay-verification "a-1" "t-1" facts facts-related

other_attempt : related "a-1" "t-2" sent ≡ false
unfolding related
other_attempt = refl

other_attempt_refused :
    ((apply sent (blank "a-1" "t-2")).0 ≢ none)
    × ((apply sent (blank "a-1" "t-2")).1 ≡ blank "a-1" "t-2")
other_attempt_refused = apply_unrelated sent (blank "a-1" "t-2") other_attempt

replay_order_example :
    let r = replay facts (blank "a-1" "t-1") in
    let q = replay turned (blank "a-1" "t-1") in
    (r.0 ≡ none)
    × (q.0 ≡ none)
    × (outcome r.1 ≡ outcome q.1)
    × (r.1.admission_conflicted ≡ q.1.admission_conflicted)
    × (r.1.dispatch_conflicted ≡ q.1.dispatch_conflicted)
    × (r.1.effect_conflicted ≡ q.1.effect_conflicted)
replay_order_example = replay_order "a-1" "t-1" facts turned facts-related turned_same
