-- ===== src/Projection/Order.antt =====
-- Replays of the same facts in another order (projection/attempt.go).
use atoha.Prelude.{
  String, ◌≡◌, refl, sym, ap, ◌∙◌, Bool, true, none, List, [], ◌∷◌, arith, inl, inr, Bool-cases,
}
use mathlib.Core.List.{Mem, mem-cons, mem-cons_self, mem-cons_of_mem, not-mem-nil}
use mathlib.Core.Bool.{Bool-set, false≢true}
use mathlib.Core.Logic.Or
use atoha.Prelude.Lists.{any, all}
use atoha.Core.Event.{ExecutionEvent}
use atoha.Projection.{blank, outcome}
use atoha.Projection.Claims.{
  Claims, no_claims, add, claims_of, admission_clash, dispatch_clash, effect_clash, outcome_view,
}
use atoha.Projection.Replay.{replay, related, replay-claims}

any_of_mem :
    (p : ExecutionEvent → Bool) (e : ExecutionEvent) (es : List ExecutionEvent)
    → Mem e es
    → p e ≡ true
    → any p es ≡ true
any_of_mem p e [] m h = absurd (not-mem-nil m)
any_of_mem p e (x ∷ es) m h =
    Or.elim (Bool-set _ _) (mem-cons.0 m) (λ q. ground (arith, ap p q))
      (λ n. ground (arith, any_of_mem p e es n h))

-- A test that passes on some element of one list passes on some of each list that has its elements.
any_mono :
    (p : ExecutionEvent → Bool) (es fs : List ExecutionEvent)
    → ((e : ExecutionEvent) → Mem e es → Mem e fs)
    → any p es ≡ true
    → any p fs ≡ true
any_mono p [] fs sub h = cc
any_mono p (x ∷ es) fs sub h = elim (Bool-cases (p x)) [
  | inl here ↦ any_of_mem p x fs (sub x mem-cons_self) here
  | inr there ↦ any_mono p es fs (λ e m. sub e (mem-cons_of_mem x m)) (ground arith)
]

-- The same facts, in whatever order and however often.
pub record SameFacts (es fs : List ExecutionEvent) : Type 0 where
  pub forth : (e : ExecutionEvent) → Mem e es → Mem e fs
  pub back : (e : ExecutionEvent) → Mem e fs → Mem e es

any-SameFacts :
    (p : ExecutionEvent → Bool) (es fs : List ExecutionEvent)
    → SameFacts es fs
    → any p es ≡ any p fs
any-SameFacts p es fs s = elim (Bool-cases (any p es)) [
  | inl h ↦ h ∙ sym (any_mono p es fs s.forth h)
  | inr h ↦ elim (Bool-cases (any p fs)) [
    | inl k ↦ absurd (false≢true (sym h ∙ any_mono p fs es s.back k))
    | inr k ↦ h ∙ sym k
  ]
]

all_at :
    (p : ExecutionEvent → Bool) (e : ExecutionEvent) (es : List ExecutionEvent)
    → Mem e es
    → all p es ≡ true
    → p e ≡ true
all_at p e [] m h = absurd (not-mem-nil m)
all_at p e (x ∷ es) m h =
    Or.elim (Bool-set _ _) (mem-cons.0 m) (λ q. ground (arith, ap p q))
      (λ n. all_at p e es n (ground arith))

all_mono :
    (p : ExecutionEvent → Bool) (es fs : List ExecutionEvent)
    → ((e : ExecutionEvent) → Mem e fs → Mem e es)
    → all p es ≡ true
    → all p fs ≡ true
all_mono p es [] sub h = refl
all_mono p es (x ∷ fs) sub h =
    rw (all_at p x es (sub x mem-cons_self) h)
      (all_mono p es fs (λ e m. sub e (mem-cons_of_mem x m)) h)

claims_of-SameFacts : (es fs : List ExecutionEvent) → SameFacts es fs → claims_of es ≡ claims_of fs
unfolding claims_of
claims_of-SameFacts es fs s = λ i. record {
  admitted = any-SameFacts (λ e. (add e.kind no_claims).admitted) es fs s i;
  rejected = any-SameFacts (λ e. (add e.kind no_claims).rejected) es fs s i;
  withheld = any-SameFacts (λ e. (add e.kind no_claims).withheld) es fs s i;
  sent = any-SameFacts (λ e. (add e.kind no_claims).sent) es fs s i;
  accepted = any-SameFacts (λ e. (add e.kind no_claims).accepted) es fs s i;
  unverified = any-SameFacts (λ e. (add e.kind no_claims).unverified) es fs s i;
  satisfied = any-SameFacts (λ e. (add e.kind no_claims).satisfied) es fs s i;
  unsatisfied = any-SameFacts (λ e. (add e.kind no_claims).unsatisfied) es fs s i;
}

-- Two lists of the same facts, all related to the view, in whatever order and however often each
-- fact comes, replay without an error to one outcome and one set of conflict flags.
pub replay_order :
    (action_id attempt_id : String) (es fs : List ExecutionEvent)
    → all (related action_id attempt_id) es ≡ true
    → SameFacts es fs
    → let r = replay es (blank action_id attempt_id) in
      let q = replay fs (blank action_id attempt_id) in
      (r.0 ≡ none)
      × (q.0 ≡ none)
      × (outcome r.1 ≡ outcome q.1)
      × (r.1.admission_conflicted ≡ q.1.admission_conflicted)
      × (r.1.dispatch_conflicted ≡ q.1.dispatch_conflicted)
      × (r.1.effect_conflicted ≡ q.1.effect_conflicted)
replay_order action_id attempt_id es fs h s =
    let (a, b, c, d, e) = replay-claims action_id attempt_id es h in
    let (a', b', c', d', e') = replay-claims action_id attempt_id fs (all_mono _ es fs s.back h) in
    let same = claims_of-SameFacts es fs s in
    (
      a,
      a',
      b ∙ ap (λ (z : Claims). outcome_view z) same ∙ sym b',
      c ∙ ap (λ (z : Claims). admission_clash z) same ∙ sym c',
      d ∙ ap (λ (z : Claims). dispatch_clash z) same ∙ sym d',
      e ∙ ap (λ (z : Claims). effect_clash z) same ∙ sym e',
    )
