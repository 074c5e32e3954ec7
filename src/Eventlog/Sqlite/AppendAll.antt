-- ===== src/Eventlog/Sqlite/AppendAll.antt =====
-- AppendAll of eventlog/sqlite/log.go against that of the memory log.
use atoha.Prelude.{◌≡◌, refl, sym, ◌∙◌, subst, none, some, Option-cases, inl, inr, List}
use atoha.Prelude.Lists.{All}
use atoha.Errors.{Error}
use atoha.Context.{Context}
use atoha.Core.Event.{ExecutionEvent}
use atoha.Eventlog.Memory
use atoha.Eventlog.Memory.{Log, append_prepared}
use atoha.Eventlog.Memory.Append.{preflight-none_iff}
use atoha.Eventlog.Memory.Atomic.{append_all_passes}
use atoha.Eventlog.Rows.{TimeText}
use atoha.Eventlog.Database.{Engine, IsDatabase}
use atoha.Eventlog.Sqlite.RoundTrip.{IsTimeText, IsStorable}
use atoha.Eventlog.Sqlite.Represents.{Represents}
use atoha.Eventlog.Sqlite.Appends.{append_events-Represents, saved-append_events}
use atoha.Eventlog.Sqlite.Opening.{Done}
use atoha.Eventlog.Sqlite.Appending.{
  append_events, committed, finish_append, append_in_tx, append_open,
}

-- The memory log is compared at a context that is not done: whether it is, is the engine's matter.
abbrev pub live : Context
live = record { err = none }

module _ {E : Engine} (D : IsDatabase E) (T : TimeText) where
  tables-committed :
      (r : Done E) {e : Error}
      → (committed E T (E.commit r.1)).0 ≡ some e
      → D.tables (committed E T (E.commit r.1)).1 ≡ D.saved r.1
  unfolding committed
  tables-committed r h = elim (Option-cases (E.commit r.1).0) [
    | inl p ↦ let k = rw (p, committed) at h in cc
    | inr (f, p) ↦ rw (p, committed) (D.tables-rollback (E.commit r.1).1 ∙ D.saved-commit r.1 p)
  ]

  tables-finish_append :
      (r : Done E) {e : Error}
      → (finish_append E T r).0 ≡ some e
      → D.tables (finish_append E T r).1 ≡ D.saved r.1
  unfolding finish_append
  tables-finish_append (none, s) h = tables-committed (none, s) h
  tables-finish_append (some f, s) h = D.tables-rollback s

  finished :
      (r : Done E)
      → (finish_append E T r).0 ≡ none
      → (r.0 ≡ none) × (D.tables (finish_append E T r).1 ≡ D.tables r.1)
  unfolding finish_append committed
  finished (some f, s) h = cc
  finished (none, s) h = elim (Option-cases (E.commit s).0) [
    | inl q ↦ (refl, rw (q, committed) (D.tables-commit s q))
    | inr (f, q) ↦ let k = rw (q, committed) at h in cc
  ]

  -- A call of AppendAll that fails leaves the tables as they were.
  pub append_open_atomic :
      (ctx : Context) (es : List ExecutionEvent) (s : E.State) {e : Error}
      → (append_open E T ctx es s).0 ≡ some e
      → D.tables (append_open E T ctx es s).1 ≡ D.tables s
  unfolding append_open append_in_tx
  append_open_atomic ctx es s h = elim (Option-cases (E.begin_tx ctx s).0) [
    | inr (f, p) ↦ rw (p, append_in_tx) (D.tables-begin ctx s)
    | inl p ↦
        let s1 = (E.begin_tx ctx s).1 in
        rw (p, append_in_tx)
          (tables-finish_append (append_events E T ctx es s1) (rw (p, append_in_tx) at h)
            ∙ saved-append_events D T ctx es s1
            ∙ D.saved-begin ctx s p)
  ]

  -- A call of AppendAll that succeeds does on the tables what it does on the memory log, where it
  -- succeeds too.
  pub append_open-Represents :
      (p : IsTimeText T) (ctx : Context) (es : List ExecutionEvent) (s : E.State) (l : Log)
      → Represents T (D.tables s) l
      → All IsStorable es
      → (append_open E T ctx es s).0 ≡ none
      → (Memory.append_all live es l ≡ (none, append_prepared l es))
        × Represents T (D.tables (append_open E T ctx es s).1) (append_prepared l es)
  unfolding append_open append_in_tx
  append_open-Represents p ctx es s l r st h = elim (Option-cases (E.begin_tx ctx s).0) [
    | inr (f, q) ↦ let k = rw (q, append_in_tx) at h in cc
    | inl q ↦
        let s1 = (E.begin_tx ctx s).1 in
        let start = subst (λ t. Represents T t l) (sym (D.tables-begin ctx s)) r in
        let k = rw (q, append_in_tx) at h in
        let (took, last) = finished (append_events E T ctx es s1) k in
        let (now, held) = append_events-Represents D p ctx es s1 l start st took in
        (
          append_all_passes live es l refl ((preflight-none_iff l es).1 held),
          rw (q, append_in_tx) (subst (λ t. Represents T t (append_prepared l es)) (sym last) now),
        )
  ]
