-- ===== src/Checks/Engine.antt =====
-- A database of lists and a text form of times, as the SQLite log (eventlog/sqlite/log.go) may be
-- given.
use Prim.Native.Nat.{◌/◌}
use atoha.Prelude.{
  ℕ, zero, suc, String, ◌+◌, ◌*◌, ◌%◌, ◌<◌, ◌≡◌, refl, sym, ap, ◌∙◌, Option, none, some,
  Option-cases, inl, inr, List, [], ◌∷◌, map, arith, str_eq, ◌==◌, if◌then◌else◌, some_eq,
}
use atoha.Prelude.Lists.{keep}
use atoha.Instant.{utc}
use atoha.Errors.{Error, Result, ok, err, ok_eq, sentinel, no_rows}
use atoha.Context.{Context}
use atoha.Eventlog.Rows.{TimeText, EventRow}
use atoha.Eventlog.Database.{
  Engine, Rows, Statement, Tables, no_tables, IsDatabase, carry_out, collect, find_action, find_row,
  attempt_names,
}
use atoha.Eventlog.Sqlite.Reliable.{IsReliable}
use atoha.Eventlog.Sqlite.RoundTrip.{representable, IsTimeText}

-- Binary digits, the lowest first.
unfoldable pub bits : ℕ → ℕ → String
bits zero n = String.[]
bits (suc fuel) n =
    let rest = bits fuel (n / 2) in if n % 2 == 1 then String.◌∷◌ "1" rest else String.◌∷◌ "0" rest

unfoldable pub from_bits : String → ℕ
from_bits String.[] = 0
from_bits (String.◌∷◌ c s) =
    let rest = from_bits s in if str_eq (String.◌∷◌ c String.[]) "1" then 1 + 2 * rest else 2 * rest

double : ℕ → ℕ
double zero = 1
double (suc f) = 2 * double f

from_bits-bits : (f n : ℕ) → n < double f → from_bits (bits f n) ≡ n
unfolding from_bits bits double
from_bits-bits zero n h = omega arith
from_bits-bits (suc f) n h = ground (arith, from_bits-bits f (n / 2))

abbrev pub bit_times : TimeText
bit_times = record {
  format = λ t. bits 100 t.instant;
  parse = λ s. ok (record { instant = from_bits s; location = "UTC" });
}

pub bit_times-IsTimeText : IsTimeText bit_times
unfolding representable double utc
bit_times-IsTimeText = record {
  parse-format = λ t h.
      ap (λ n. ok (record { instant = n; location = "UTC" }))
        (from_bits-bits 100 t.instant (ground arith));
}

abbrev found : {A : Type 0} → Option A → Result A
found none = err (sentinel no_rows)
found (some a) = ok a

pub record Kept : Type 0 where
  pub now : Tables
  pub saved : Tables

abbrev pub empty : Kept
empty = record { now = no_tables; saved = no_tables }

abbrev ended : Context → {A : Type 0} → (Error → A) → A → A
ended ctx failed rest = elim ctx.err [ some e ↦ failed e | none ↦ rest ]

-- It fails only if the context is done.
abbrev pub lists : Engine
lists = record {
  State = Kept;
  open_path = λ path. ok empty;
  close = λ s. none;
  exec = λ ctx st s.
      ended ctx (λ e. (err e, s))
        (ok (carry_out st s.now).0, record { now = (carry_out st s.now).1; saved = s.saved });
  begin_tx = λ ctx s. ended ctx (λ e. (some e, s)) (none, record { now = s.now; saved = s.now });
  commit = λ s. (none, s);
  rollback = λ s. (none, record { now = s.saved; saved = s.saved });
  select_action = λ ctx k s. found (find_action k s.now.actions);
  select_event = λ ctx k s. found (find_row k s.now.events);
  query_events = λ ctx k s. ok (record {
    scanned = map ok (keep (λ (r : EventRow). str_eq r.attempt_id k) s.now.events);
    failure = none;
  });
  query_attempt_ids =
      λ ctx s. ok (record { scanned = map ok (attempt_names s.now.attempts); failure = none });
}

pub found_ok : {A : Type 0} (o : Option A) {a : A} → found o ≡ ok a → o ≡ some a
found_ok none h = cc
found_ok (some x) h = ap some (ok_eq h)

pub found_missing : {A : Type 0} (o : Option A) {e : Error} → found o ≡ err e → o ≡ none
found_missing none h = refl
found_missing (some x) h = cc

collect-map_ok : {A : Type 0} (xs : List A) → collect (map ok xs) ≡ some xs
unfolding collect
collect-map_ok [] = refl
collect-map_ok (x ∷ xs) = rw (collect-map_ok xs) refl

pub all_collected :
    {A : Type 0} (xs : List A) (rows : Rows A) {ys : List A}
    → ok (record { scanned = map ok xs; failure = none }) ≡ ok rows
    → collect rows.scanned ≡ some ys
    → ys ≡ xs
all_collected xs rows h c =
    some_eq (sym c ∙ ap (λ (z : Rows _). collect z.scanned) (sym (ok_eq h)) ∙ collect-map_ok xs)

pub saved-lists :
    (ctx : Context) (s : Kept)
    → (lists.begin_tx ctx s).0 ≡ none
    → (lists.begin_tx ctx s).1.saved ≡ s.now
saved-lists ctx s h = ground arith

pub exec-lists :
    (ctx : Context) (st : Statement) (s : Kept) (n : ℕ)
    → (lists.exec ctx st s).0 ≡ ok n
    → carry_out st s.now ≡ (n, (lists.exec ctx st s).1.now)
exec-lists ctx st s n h = ground arith

unfoldable pub lists-IsDatabase : IsDatabase lists
lists-IsDatabase = record {
  tables = λ s. s.now;
  saved = λ s. s.saved;
  tables-begin =
      λ ctx s. elim (Option-cases ctx.err) [ inl p ↦ rw p refl | inr (e, p) ↦ rw p refl ];
  saved-begin = λ ctx s h. saved-lists ctx s h;
  exec_ok = λ ctx st s n h. exec-lists ctx st s n h;
  saved-exec =
      λ ctx st s. elim (Option-cases ctx.err) [ inl p ↦ rw p refl | inr (e, p) ↦ rw p refl ];
  tables-rollback = λ s. refl;
  saved-rollback = λ s. refl;
  tables-commit = λ s h. refl;
  saved-commit = λ s h. cc;
  select_action_ok = λ ctx k s h. found_ok _ h;
  select_action_missing = λ ctx k s h i. found_missing _ h;
  select_event_ok = λ ctx k s h. found_ok _ h;
  query_events_ok = λ ctx k s rows h i c. all_collected _ rows h c;
  query_attempt_ids_ok = λ ctx s rows h i c. all_collected _ rows h c;
}

pub lists-IsReliable : IsReliable lists lists-IsDatabase
unfolding lists-IsDatabase
lists-IsReliable = record {
  begins = λ s. refl;
  executes = λ st s. ((carry_out st s.now).0, refl);
  commits = λ s. refl;
  rolls_back = λ s. refl;
  finds_action = λ k s h. ap found h;
  finds_event = λ k s h. ap found h;
}
