-- ===== src/Eventlog/Sqlite/Claimed.antt =====
-- The row of the attempt that BeginAttempt (eventlog/sqlite/log.go) inserts, or finds there.
use atoha.Prelude.{
  ℕ, suc, ◌≡◌, refl, sym, ap, ◌∙◌, subst, true, false, none, Bool-cases, inl, inr, List, [], ◌∷◌,
  ◌++◌, arith, str_eq,
}
use atoha.Errors.{ok}
use atoha.Context.{Context}
use atoha.Core.Action.{Action, ExecutionAttempt}
use atoha.Core.Event.{ExecutionEvent}
use atoha.Eventlog.Memory.{Map, Log, put, claim, preflight_loop, append_prepared}
use atoha.Eventlog.Memory.Invariant.{contains, as_set, claim-IsConsistent}
use atoha.Eventlog.Rows.{TimeText, AttemptRow, attempt_row}
use atoha.Eventlog.Database.{
  Engine, Tables, IsDatabase, insert_attempt, insert_new_attempt, carry_out, has_attempt,
  attempt_names,
}
use atoha.Eventlog.Sqlite.RoundTrip.{IsStorableAction}
use atoha.Eventlog.Sqlite.Represents.{Represents, has_attempt-Represents}
use atoha.Eventlog.Sqlite.Claiming.{after_attempt}
use atoha.Eventlog.Sqlite.Intents.{Registers}

attempt_names-snoc :
    (rs : List AttemptRow) (r : AttemptRow)
    → attempt_names (rs ++ r ∷ []) ≡ attempt_names rs ++ r.attempt_id ∷ []
attempt_names-snoc [] r = refl
attempt_names-snoc (x ∷ rs) r = ap (λ z. x.attempt_id ∷ z) (attempt_names-snoc rs r)

-- The check of a batch looks at the index only.
pub preflight_loop-index :
    (l m : Log) (batch : Map ExecutionEvent) (es : List ExecutionEvent)
    → l.by_id ≡ m.by_id
    → preflight_loop l batch es ≡ preflight_loop m batch es
unfolding preflight_loop
preflight_loop-index l m batch [] h = refl
preflight_loop-index l m batch (e ∷ es) h =
    rw (h, preflight_loop-index l m (put e.id e batch) es h) refl

-- The memory log with the claim, and without the facts.
abbrev pub claimed_log : Action → ExecutionAttempt → Log → Log
claimed_log action attempt l = record l {
  attempts = put attempt.id tt l.attempts;
  actions = put action.id action l.actions;
  attempt_order = l.attempt_order ++ attempt.id ∷ [];
}

module _ {T : TimeText} {t u : Tables} {l : Log} (r : Represents T t l) {action : Action}
    (g : Registers T t u l action) (attempt : ExecutionAttempt) where
  has_attempt-Registers : has_attempt attempt.id u.attempts ≡ contains attempt.id l.attempt_order
  has_attempt-Registers =
      ap (has_attempt attempt.id) g.attempts ∙ has_attempt-Represents r attempt.id

  carry_out_claim :
      contains attempt.id l.attempt_order ≡ false
      → carry_out (insert_attempt (attempt_row T attempt)) u
        ≡ (1, record u { attempts = u.attempts ++ attempt_row T attempt ∷ [] })
  unfolding carry_out insert_new_attempt attempt_row
  carry_out_claim h = rw (has_attempt-Registers, h) refl

  pub carry_out_repeat :
      contains attempt.id l.attempt_order ≡ true
      → carry_out (insert_attempt (attempt_row T attempt)) u ≡ (0, u)
  unfolding carry_out insert_new_attempt attempt_row
  carry_out_repeat h = rw (has_attempt-Registers, h) refl

  pub unclaimed : contains attempt.id l.attempt_order ≡ false → l.attempts attempt.id ≡ none
  unclaimed h = r.consistent.claims attempt.id ∙ ap as_set h

  Represents-claimed :
      contains attempt.id l.attempt_order ≡ false
      → IsStorableAction action
      → Represents T
          (record u { attempts = u.attempts ++ attempt_row T attempt ∷ [] })
          (claimed_log action attempt l)
  unfolding attempt_row claim append_prepared put
  Represents-claimed h s = record {
    events = g.events ∙ r.events;
    attempts =
        attempt_names-snoc u.attempts (attempt_row T attempt)
        ∙ ap (λ z. z ++ attempt.id ∷ []) (ap attempt_names g.attempts ∙ r.attempts);
    actions = g.actions;
    consistent = claim-IsConsistent action attempt [] l (unclaimed h) r.consistent;
    storable = r.storable;
    storable_actions = λ k a q. elim (Bool-cases (str_eq action.id k)) [
      | inl same ↦ subst IsStorableAction (ground arith) s
      | inr other ↦ r.storable_actions k a (ground arith)
    ];
  }

module _ {E : Engine} (D : IsDatabase E) {T : TimeText} (ctx : Context) {t : Tables} {l : Log}
    (r : Represents T t l) {action : Action} (attempt : ExecutionAttempt) (s : E.State)
    (g : Registers T t (D.tables s) l action) where
  -- A row that is affected: the attempt was not claimed, and the tables have its claim.
  pub inserted_claim :
      {n : ℕ}
      → IsStorableAction action
      → (after_attempt D T ctx attempt s).0 ≡ ok (suc n)
      → (contains attempt.id l.attempt_order ≡ false)
        × Represents T (D.tables (after_attempt D T ctx attempt s).1) (claimed_log action attempt l)
  inserted_claim {n} sa h =
      let ran = D.exec_ok ctx (insert_attempt (attempt_row T attempt)) s (suc n) h in
      elim (Bool-cases (contains attempt.id l.attempt_order)) [
        | inl c ↦
            let b = ap (λ (z : ℕ × Tables). z.0) (sym (carry_out_repeat r g attempt c) ∙ ran) in cc
        | inr c ↦ (
          c,
          subst (λ u. Represents T u (claimed_log action attempt l))
              (ap (λ (z : ℕ × Tables). z.1) (sym (carry_out_claim r g attempt c) ∙ ran))
              (Represents-claimed r g attempt c sa),
        )
      ]

  -- A row that is not: the attempt was claimed.
  pub inserted_repeat :
      (after_attempt D T ctx attempt s).0 ≡ ok 0 → contains attempt.id l.attempt_order ≡ true
  inserted_repeat h =
      let ran = D.exec_ok ctx (insert_attempt (attempt_row T attempt)) s 0 h in
      elim (Bool-cases (contains attempt.id l.attempt_order)) [
        | inl c ↦ c
        | inr c ↦
            let b = ap (λ (z : ℕ × Tables). z.0) (sym (carry_out_claim r g attempt c) ∙ ran) in cc
      ]
