-- ===== src/Eventlog/Sqlite/Runs.antt =====
-- Any sequence of calls on the log of eventlog/sqlite/log.go, and the calls of the memory log that
-- do the same. One connection makes each call one step.
use atoha.Prelude.{
  ℕ, ◌+◌, ◌≤◌, String, ◌≡◌, refl, sym, ap, subst, Bool, false, ◌&&◌, Option, none, some,
  Option-cases, inl, inr, List, [], ◌∷◌, arith, str_eq,
}
use atoha.Prelude.Lists.{All}
use atoha.Errors.{Error}
use atoha.Eventlog.Memory.{Log}
use atoha.Eventlog.Memory.Runs
use atoha.Eventlog.Memory.Runs.{Call, begin, record_facts}
use atoha.Eventlog.Memory.Claims.{claims, one_if, claims_now, claimed_at_most_once}
use atoha.Eventlog.Rows.{TimeText}
use atoha.Eventlog.Database.{Engine, IsDatabase}
use atoha.Eventlog.Sqlite.RoundTrip.{IsTimeText, IsStorable, IsStorableAction}
use atoha.Eventlog.Sqlite.Represents.{Represents}
use atoha.Eventlog.Sqlite.Appending.{append_open}
use atoha.Eventlog.Sqlite.AppendAll.{live, append_open_atomic, append_open-Represents}
use atoha.Eventlog.Sqlite.Beginning.{begin_open}
use atoha.Eventlog.Sqlite.BeginAtomic.{begin_open_atomic, begin_open_error}
use atoha.Eventlog.Sqlite.BeginAttempt.{begin_open-Represents}

-- What is asked of a call: its facts, and its action, are such that can be stored.
abbrev pub CanStore : Call → Type 0
CanStore (begin ctx action attempt es) = All IsStorable es × IsStorableAction action
CanStore (record_facts ctx es) = All IsStorable es

-- The call with a context that is not done.
abbrev pub at_live : Call → Call
at_live (begin ctx action attempt es) = begin live action attempt es
at_live (record_facts ctx es) = record_facts live es

module _ (E : Engine) (T : TimeText) where
  -- The error of a call, whether it claims, and the state after.
  unfoldable pub answer : E.State → Call → Bool × Option Error × E.State
  answer s (begin ctx action attempt es) = begin_open E T ctx action attempt es s
  answer s (record_facts ctx es) = let (e, s') = append_open E T ctx es s in (false, e, s')

  unfoldable pub run : E.State → List Call → E.State
  unfolding answer
  run s [] = s
  run s (c ∷ cs) = run (answer s c).2 cs

  -- The calls that return no error.
  unfoldable pub succeeded : E.State → List Call → List Call
  unfolding answer
  succeeded s [] = []
  succeeded s (c ∷ cs) =
      let rest = succeeded (answer s c).2 cs in
      elim (answer s c).1 [ none ↦ at_live c ∷ rest | some e ↦ rest ]

  abbrev claims_here : String → Call → Bool → Bool
  claims_here a (begin ctx action attempt es) b = str_eq attempt.id a && b
  claims_here a (record_facts ctx es) b = false

  -- How many calls claim the attempt `a`.
  unfoldable pub claim_count : String → E.State → List Call → ℕ
  unfolding answer
  claim_count a s [] = 0
  claim_count a s (c ∷ cs) =
      one_if (claims_here a c (answer s c).0) + claim_count a (answer s c).2 cs

module _ {E : Engine} (D : IsDatabase E) {T : TimeText} (p : IsTimeText T) where
  record Fails (s : E.State) (c : Call) : Type 0 where
    same : D.tables (answer E T s c).2 ≡ D.tables s
    no_claim : (a : String) → claims_here E T a c (answer E T s c).0 ≡ false

  answer-Fails : (s : E.State) (c : Call) {e : Error} → (answer E T s c).1 ≡ some e → Fails s c
  unfolding answer
  answer-Fails s (begin ctx action attempt es) h =
      let unclaimed = begin_open_error D T ctx action attempt es s h in
      record {
        same = begin_open_atomic D T ctx action attempt es s unclaimed;
        no_claim = λ a. ground arith;
      }
  answer-Fails s (record_facts ctx es) h = record {
    same = append_open_atomic D T ctx es s h;
    no_claim = λ a. refl;
  }

  record Follows (s : E.State) (c : Call) (l : Log) : Type 0 where
    now : Represents T (D.tables (answer E T s c).2) (Runs.step l (at_live c))
    same_claim : (a : String) → claims_here E T a c (answer E T s c).0 ≡ claims_now a l (at_live c)

  answer-Follows :
      (s : E.State) (c : Call) (l : Log)
      → Represents T (D.tables s) l
      → CanStore c
      → (answer E T s c).1 ≡ none
      → Follows s c l
  unfolding answer Runs.step
  answer-Follows s (begin ctx action attempt es) l r st h =
      let (_, claimed, now) = begin_open-Represents D p ctx action attempt es s l r st.0 st.1 h in
      record { now = now; same_claim = λ a. ap (λ b. str_eq attempt.id a && b) (sym claimed) }
  answer-Follows s (record_facts ctx es) l r st h =
      let (did, now) = append_open-Represents D T p ctx es s l r st h in
      record { now = subst (Represents T _) (ap (λ z. z.1) (sym did)) now; same_claim = λ a. refl }

  -- Any calls, from tables that represent a memory log, leave tables that represent the log after
  -- the calls of it that stand for those that returned no error. It is asked that the facts and the
  -- actions are such that can be stored.
  pub run-Represents :
      (cs : List Call) (s : E.State) (l : Log)
      → Represents T (D.tables s) l
      → All CanStore cs
      → Represents T (D.tables (run E T s cs)) (Runs.run l (succeeded E T s cs))
  unfolding run succeeded Runs.run
  run-Represents [] s l r st = r
  run-Represents (c ∷ cs) s l r st = elim (Option-cases (answer E T s c).1) [
    | inl h ↦
        let f = answer-Follows s c l r st.0 h in
        rw (h, succeeded)
          (run-Represents cs (answer E T s c).2 (Runs.step l (at_live c)) f.now st.1)
    | inr (e, h) ↦
        rw (h, succeeded)
          (run-Represents cs (answer E T s c).2 l
            (subst (λ t. Represents T t l) (sym (answer-Fails s c h).same) r) st.1)
  ]

  claim_count-claims :
      (a : String) (cs : List Call) (s : E.State) (l : Log)
      → Represents T (D.tables s) l
      → All CanStore cs
      → claim_count E T a s cs ≡ claims a l (succeeded E T s cs)
  unfolding claim_count succeeded claims
  claim_count-claims a [] s l r st = refl
  claim_count-claims a (c ∷ cs) s l r st = elim (Option-cases (answer E T s c).1) [
    | inl h ↦
        let f = answer-Follows s c l r st.0 h in
        rw (h, succeeded, f.same_claim a)
          (ap (λ n. one_if (claims_now a l (at_live c)) + n)
            (claim_count-claims a cs (answer E T s c).2 (Runs.step l (at_live c)) f.now st.1))
    | inr (e, h) ↦
        let f = answer-Fails s c h in
        rw (h, succeeded, f.no_claim a)
          (omega (
            arith,
            claim_count-claims a cs (answer E T s c).2 l
                (subst (λ t. Represents T t l) (sym f.same) r) st.1,
          ))
  ]

  -- Whatever calls are made of tables that represent a memory log, at most one claims a given
  -- attempt identity. It is asked that the facts and the actions are such that can be stored.
  pub claimed_once :
      (a : String) (cs : List Call) (s : E.State) (l : Log)
      → Represents T (D.tables s) l
      → All CanStore cs
      → claim_count E T a s cs ≤ 1
  claimed_once a cs s l r st =
      rw (claim_count-claims a cs s l r st) (claimed_at_most_once a l (succeeded E T s cs))
