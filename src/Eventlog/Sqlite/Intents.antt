-- ===== src/Eventlog/Sqlite/Intents.antt =====
-- The row of the action that BeginAttempt (eventlog/sqlite/log.go) inserts, or compares with the
-- one that is stored.
use atoha.Prelude.{
  ℕ, suc, String, ◌≡◌, refl, sym, ap, ◌∙◌, subst, true, false, none, some, Option-cases, Bool-cases,
  inl, inr, List, [], ◌∷◌, ◌++◌, arith, some_eq, str_eq, str_eq_iff, if◌then◌else◌,
}
use atoha.Instant.{Time, utc}
use atoha.Errors.{ok, Result-cases}
use atoha.Context.{Context}
use atoha.Core.Action.{Action}
use atoha.Eventlog.Fact.{same_action, same_action→SameIntent}
use atoha.Eventlog.Memory.{Map, Log, put, action_conflicts}
use atoha.Eventlog.Rows.{TimeText, ActionRow, format_time, action_row, compare_intent}
use atoha.Eventlog.Database.{
  Engine, Tables, IsDatabase, insert_action, insert_new_action, carry_out, find_action,
}
use atoha.Eventlog.Sqlite.RoundTrip.{IsTimeText, IsStorableAction}
use atoha.Eventlog.Sqlite.Represents.{Represents, row_of}
use atoha.Eventlog.Sqlite.Beginning.{stored_intent}
use atoha.Eventlog.Sqlite.Claiming.{Intent, fresh, known, after_action}

find_action-snoc :
    (k : String) (rs : List ActionRow) (r : ActionRow)
    → find_action r.action_id rs ≡ none
    → find_action k (rs ++ r ∷ []) ≡ (if str_eq r.action_id k then some r else find_action k rs)
find_action-snoc k [] r h = refl
find_action-snoc k (x ∷ rs) r h = ground (
  arith,
  find_action-snoc k rs r,
  str_eq_iff r.action_id k,
  str_eq_iff x.action_id k,
  str_eq_iff x.action_id r.action_id,
)

utc-instant : (a b : Time) → a.instant ≡ b.instant → utc a ≡ utc b
unfolding utc
utc-instant a b h = λ i. record { instant = h i; location = "UTC" }

-- Actions of one intent have one row.
action_row-same :
    (T : TimeText) (a b : Action) → same_action a b ≡ true → action_row T a ≡ action_row T b
unfolding action_row format_time
action_row-same T a b h =
    let s = same_action→SameIntent a b h in
    λ i. record {
      action_id = s.id i;
      target = s.target i;
      name = s.name i;
      input = s.input i;
      requested_at = T.format (utc-instant a.requested_at b.requested_at s.requested_at i);
    }

compare_intent-none :
    (T : TimeText)
    → IsTimeText T
    → (a action : Action) → IsStorableAction a
    → compare_intent T action (action_row T a) (T.parse (action_row T a).requested_at) ≡ none
    → same_action a action ≡ true
unfolding compare_intent action_row format_time same_action utc
compare_intent-none T p a action s h =
    let k = rw (p.parse-format a.requested_at s.requested, compare_intent) at h in ground arith

row_of-put :
    {V W : Type 0} (f : V → W) (j : String) (v : V) (m : Map V) (k : String)
    → row_of f (put j v m k) ≡ (if str_eq j k then some (f v) else row_of f (m k))
unfolding put
row_of-put f j v m k = elim (Bool-cases (str_eq j k)) [ inl p ↦ rw p refl | inr p ↦ rw p refl ]

-- The tables with the action: the memory log's map with it, and the rest as it was.
pub record Registers (T : TimeText) (t u : Tables) (l : Log) (action : Action) : Type 0 where
  pub actions :
      (k : String)
      → find_action k u.actions ≡ row_of (action_row T) (put action.id action l.actions k)
  pub attempts : u.attempts ≡ t.attempts
  pub events : u.events ≡ t.events
  pub agrees : action_conflicts (l.actions action.id) action ≡ false

module _ {T : TimeText} {t : Tables} {l : Log} (r : Represents T t l) (action : Action) where
  carry_out_fresh :
      l.actions action.id ≡ none
      → carry_out (insert_action (action_row T action)) t
        ≡ (1, record t { actions = t.actions ++ action_row T action ∷ [] })
  unfolding carry_out insert_new_action action_row
  carry_out_fresh h = rw (r.actions action.id, h) refl

  carry_out_known :
      {a : Action}
      → l.actions action.id ≡ some a
      → carry_out (insert_action (action_row T action)) t ≡ (0, t)
  unfolding carry_out insert_new_action action_row
  carry_out_known h = rw (r.actions action.id, h) refl

  Registers-fresh :
      l.actions action.id ≡ none
      → Registers T t (record t { actions = t.actions ++ action_row T action ∷ [] }) l action
  unfolding put action_conflicts action_row
  Registers-fresh h = record {
    actions = λ k.
        find_action-snoc k t.actions (action_row T action)
          (r.actions action.id ∙ ap (row_of (action_row T)) h)
        ∙ ap (λ z. if str_eq action.id k then some (action_row T action) else z) (r.actions k)
        ∙ sym (row_of-put (action_row T) action.id action l.actions k);
    attempts = refl;
    events = refl;
    agrees = rw (h, action_conflicts) refl;
  }

  row_known :
      (k : String) {a : Action}
      → l.actions action.id ≡ some a
      → same_action a action ≡ true
      → row_of (action_row T) (l.actions k) ≡ (
          if str_eq action.id k
          then some (action_row T action)
          else row_of (action_row T) (l.actions k))
  row_known k {a} h s = elim (Bool-cases (str_eq action.id k)) [
    | inr p ↦ rw p refl
    | inl p ↦ rw p (
        ap (λ j. row_of (action_row T) (l.actions j)) (sym ((str_eq_iff action.id k).0 p))
        ∙ ap (row_of (action_row T)) h
        ∙ ap some (action_row-same T a action s))
  ]

  Registers-known :
      {a : Action}
      → l.actions action.id ≡ some a
      → same_action a action ≡ true
      → Registers T t t l action
  unfolding put action_conflicts
  Registers-known {a} h s = record {
    actions = λ k.
        r.actions k
        ∙ row_known k h s
        ∙ sym (row_of-put (action_row T) action.id action l.actions k);
    attempts = refl;
    events = refl;
    agrees = rw (h, action_conflicts) (rw s refl);
  }

module _ {E : Engine} (D : IsDatabase E) {T : TimeText} (p : IsTimeText T) (ctx : Context) where
  stored_intent-none :
      (action : Action) (s : E.State) (l : Log) {a : Action}
      → Represents T (D.tables s) l
      → l.actions action.id ≡ some a
      → stored_intent E T action (E.select_action ctx action.id s) ≡ none
      → same_action a action ≡ true
  unfolding stored_intent
  stored_intent-none action s l {a} r q h = elim (Result-cases (E.select_action ctx action.id s)) [
    | inl (f, g) ↦ let k = rw (g, stored_intent) at h in cc
    | inr (row, g) ↦
        let found =
          sym (D.select_action_ok ctx action.id s g)
          ∙ r.actions action.id
          ∙ ap (row_of (action_row T)) q in
        let k = rw (g, stored_intent, some_eq found) at h in
        compare_intent-none T p a action (r.storable_actions action.id a q) k
  ]

  -- No row affected: the action is stored, and the tables are as they were.
  pub inserted_known :
      (action : Action) (s : E.State) (l : Log)
      → Represents T (D.tables s) l
      → (E.exec ctx (insert_action (action_row T action)) s).0 ≡ ok 0
      → (a : Action) × (l.actions action.id ≡ some a)
        × (D.tables s ≡ D.tables (E.exec ctx (insert_action (action_row T action)) s).1)
  inserted_known action s l r g =
      let ran = D.exec_ok ctx (insert_action (action_row T action)) s 0 g in
      elim (Option-cases (l.actions action.id)) [
        | inl q ↦
            let b = ap (λ (z : ℕ × Tables). z.0) (sym (carry_out_fresh r action q) ∙ ran) in cc
        | inr (a, q) ↦ (a, q, ap (λ (z : ℕ × Tables). z.1) (sym (carry_out_known r action q) ∙ ran))
      ]

  -- The tables once the action is inserted or found to be the stored one.
  insert-Registers :
      (action : Action) (s : E.State) (l : Log)
      → Represents T (D.tables s) l
      → Intent D T ctx action (E.exec ctx (insert_action (action_row T action)) s)
      → Registers T
          (D.tables s)
          (D.tables (E.exec ctx (insert_action (action_row T action)) s).1)
          l
          action
  insert-Registers action s l r (fresh n g) =
      let ran = D.exec_ok ctx (insert_action (action_row T action)) s (suc n) g in
      elim (Option-cases (l.actions action.id)) [
        | inl q ↦
            subst (λ u. Registers T (D.tables s) u l action)
              (ap (λ (z : ℕ × Tables). z.1) (sym (carry_out_fresh r action q) ∙ ran))
              (Registers-fresh r action q)
        | inr (a, q) ↦
            let b = ap (λ (z : ℕ × Tables). z.0) (sym (carry_out_known r action q) ∙ ran) in cc
      ]
  insert-Registers action s l r (known g c) =
      let (a, q, same) = inserted_known action s l r g in
      subst (λ u. Registers T (D.tables s) u l action) same
        (Registers-known r action q
          (stored_intent-none action _ l (subst (λ u. Represents T u l) same r) q c))

  pub Intent-Registers :
      (action : Action) (s : E.State) (l : Log)
      → Represents T (D.tables s) l
      → Intent D T ctx action (after_action D T ctx action s)
      → Registers T (D.tables s) (D.tables (after_action D T ctx action s).1) l action
  Intent-Registers action s l r i =
      let start = D.tables-begin ctx s in
      subst (λ t. Registers T t (D.tables (after_action D T ctx action s).1) l action) start
        (insert-Registers action (E.begin_tx ctx s).1 l
          (subst (λ t. Represents T t l) (sym start) r) i)
