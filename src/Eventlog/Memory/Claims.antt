-- ===== src/Eventlog/Memory/Claims.antt =====
-- How often an attempt is claimed (BeginAttempt of eventlog/memory/log.go).
use atoha.Prelude.{
  ℕ, ◌+◌, ◌≤◌, String, ◌≡◌, refl, ap, Bool, true, false, some, Bool-cases, inl, inr, List, [], ◌∷◌,
  arith, str_eq, str_eq_iff, ◌&&◌,
}
use atoha.Eventlog.Memory.{Log, put, begin_attempt}
use atoha.Eventlog.Memory.Atomic.{begin_attempt-MayBegin}
use atoha.Eventlog.Memory.Maps.{attempts-begin, attempts-append_all}
use atoha.Eventlog.Memory.Runs.{Call, begin, record_facts, step}

abbrev pub one_if : Bool → ℕ
one_if true = 1
one_if false = 0

-- Whether the call claims the attempt `a`.
abbrev pub claims_now : String → Log → Call → Bool
claims_now a l (begin ctx action attempt es) =
    str_eq attempt.id a && (begin_attempt ctx action attempt es l).claimed
claims_now a l (record_facts ctx es) = false

-- How many calls of a sequence claim the attempt `a`.
unfoldable pub claims : String → Log → List Call → ℕ
unfolding step
claims a l [] = 0
claims a l (c ∷ cs) = one_if (claims_now a l c) + claims a (step l c) cs

abbrev IsClaimed : String → Log → Type 0
IsClaimed a l = l.attempts a ≡ some tt

step-IsClaimed : (a : String) (l : Log) (c : Call) → IsClaimed a l → IsClaimed a (step l c)
unfolding step put
step-IsClaimed a l (begin ctx action attempt es) h = rw attempts-begin (ground (arith, h))
step-IsClaimed a l (record_facts ctx es) h = rw attempts-append_all h

claims_now_once : (a : String) (l : Log) (c : Call) → IsClaimed a l → claims_now a l c ≡ false
claims_now_once a l (begin ctx action attempt es) h =
    elim (Bool-cases (begin_attempt ctx action attempt es l).claimed) [
      | inl p ↦ ground (
        arith,
        (begin_attempt-MayBegin ctx action attempt es l p).unclaimed,
        str_eq_iff attempt.id a,
        h,
      )
      | inr p ↦ ground arith
    ]
claims_now_once a l (record_facts ctx es) h = refl

claims_none : (a : String) (l : Log) (cs : List Call) → IsClaimed a l → claims a l cs ≡ 0
unfolding claims
claims_none a l [] h = refl
claims_none a l (c ∷ cs) h = omega (
  arith,
  ap one_if (claims_now_once a l c h),
  claims_none a (step l c) cs (step-IsClaimed a l c h),
)

now-IsClaimed : (a : String) (l : Log) (c : Call) → claims_now a l c ≡ true → IsClaimed a (step l c)
unfolding step put
now-IsClaimed a l (begin ctx action attempt es) h = rw attempts-begin (ground arith)
now-IsClaimed a l (record_facts ctx es) h = cc

-- In any sequence of calls, from whatever log, at most one claims a given attempt identity.
pub claimed_at_most_once : (a : String) (l : Log) (cs : List Call) → claims a l cs ≤ 1
unfolding claims
claimed_at_most_once a l [] = omega arith
claimed_at_most_once a l (c ∷ cs) = elim (Bool-cases (claims_now a l c)) [
  | inl p ↦ omega (arith, ap one_if p, claims_none a (step l c) cs (now-IsClaimed a l c p))
  | inr p ↦ omega (arith, ap one_if p, claimed_at_most_once a (step l c) cs)
]
