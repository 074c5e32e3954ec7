-- ===== src/Errors.antt =====
-- Go's error values as this repository builds them: sentinels of `errors.New`, `fmt.Errorf`,
-- `errors.Join` and `execution.Error`, with `errors.Is`. `error` is `Option Error`, nil is `none`.
-- The text of an error stays symbolic: its format and the values that it prints.
use atoha.Prelude.{
  ℕ, String, ◌≡◌, refl, Bool, true, false, ◌||◌, Option, none, some, List, [], ◌∷◌, arith, ◌==◌,
  ==_refl, ◌⊎◌, inl, inr,
}

-- The package variables that hold errors.
pub data Sentinel : Type 0 where
  invalid_action invalid_execution_attempt action_identity_conflict invalid_outcome : Sentinel
  invalid_execution_event invalid_observation invalid_verification : Sentinel
  invalid_resolved_target invalid_receipt invalid_dispatch_result : Sentinel
  invalid_input attempt_already_started attempt_not_found action_mismatch : Sentinel
  admission_unknown verification_unknown recovery_not_authorized : Sentinel
  invalid_provider_result event_conflict invalid_identity unrelated_event : Sentinel
  -- The SQLite log's; ErrActionConflict there is action_identity_conflict, and no_rows is
  -- sql.ErrNoRows of the library.
  sqlite_invalid_config sqlite_event_conflict corrupt_data no_rows : Sentinel
  -- The Home Assistant provider's.
  provider_invalid_config target_not_found invalid_target target_mismatch : Sentinel
  attempt_mismatch provider_invalid_action unexpected_status response_too_large : Sentinel

-- Each variable is an error of its own: `errors.Is` compares them by identity.
sentinel_code : Sentinel → ℕ
sentinel_code invalid_action = 0
sentinel_code invalid_execution_attempt = 1
sentinel_code action_identity_conflict = 2
sentinel_code invalid_outcome = 3
sentinel_code invalid_execution_event = 4
sentinel_code invalid_observation = 5
sentinel_code invalid_verification = 6
sentinel_code invalid_resolved_target = 7
sentinel_code invalid_receipt = 8
sentinel_code invalid_dispatch_result = 9
sentinel_code invalid_input = 10
sentinel_code attempt_already_started = 11
sentinel_code attempt_not_found = 12
sentinel_code action_mismatch = 13
sentinel_code admission_unknown = 14
sentinel_code verification_unknown = 15
sentinel_code recovery_not_authorized = 16
sentinel_code invalid_provider_result = 17
sentinel_code event_conflict = 18
sentinel_code invalid_identity = 19
sentinel_code unrelated_event = 20
sentinel_code sqlite_invalid_config = 21
sentinel_code sqlite_event_conflict = 22
sentinel_code corrupt_data = 23
sentinel_code no_rows = 24
sentinel_code provider_invalid_config = 25
sentinel_code target_not_found = 26
sentinel_code invalid_target = 27
sentinel_code target_mismatch = 28
sentinel_code attempt_mismatch = 29
sentinel_code provider_invalid_action = 30
sentinel_code unexpected_status = 31
sentinel_code response_too_large = 32

unfoldable pub same_sentinel : Sentinel → Sentinel → Bool
unfolding sentinel_code
same_sentinel s t = sentinel_code s == sentinel_code t

-- execution.Stage
pub data Stage : Type 0 where
  validate record_stage admit resolve dispatch observe verify recover : Stage

-- A value that a format prints.
pub data Arg : Type 0 where
  text : String → Arg
  number : ℕ → Arg

stage_code : Stage → ℕ
stage_code validate = 0
stage_code record_stage = 1
stage_code admit = 2
stage_code resolve = 3
stage_code dispatch = 4
stage_code observe = 5
stage_code verify = 6
stage_code recover = 7

same_stage : Stage → Stage → Bool
unfolding stage_code
same_stage s t = stage_code s == stage_code t

mutual
  pub data Error : Type 0 where
    sentinel : Sentinel → Error
    -- A format without %w, and its values.
    message : String → List Arg → Error
    -- fmt.Errorf("%w: …", first, …): the first is wrapped, the second is text only.
    described : Error → Error → Error
    -- &execution.Error{Stage, Err}
    staged : Stage → Error → Error
    -- What errors.Join makes of its arguments that are not nil.
    joined : Errors → Error

  pub data Errors : Type 0 where
    nil : Errors
    cons : Error → Errors → Errors

-- The result of a Go function that returns a value with no error, or the zero value with one.
pub data Result {ℓ} (A : Type ℓ) : Type ℓ where
  err : Error → Result A
  ok : A → Result A

pub ok_eq {ℓ} : {A : Type ℓ} {x y : A} → ok x ≡ ok y → x ≡ y
ok_eq h = cc

pub Result-cases {ℓ} :
    {A : Type ℓ} (r : Result A) → ((e : Error) × (r ≡ err e)) ⊎ ((a : A) × (r ≡ ok a))
Result-cases (err e) = inl (e, refl)
Result-cases (ok a) = inr (a, refl)

-- errors.Is
unfoldable mutual
  unfolding same_sentinel

  pub is : Sentinel → Error → Bool
  is s (sentinel t) = same_sentinel s t
  is s (message f args) = false
  is s (described e d) = is s e
  is s (staged st e) = is s e
  is s (joined es) = is_any s es

  pub is_any : Sentinel → Errors → Bool
  is_any s nil = false
  is_any s (cons e es) = is s e || is_any s es

-- errors.Is at an `error`, which nil never is.
unfoldable pub error_is : Sentinel → Option Error → Bool
unfolding is
error_is s none = false
error_is s (some e) = is s e

-- errors.Join drops nil arguments, and is nil if all are.
non_nil : List (Option Error) → Errors
non_nil [] = nil
non_nil (none ∷ es) = non_nil es
non_nil (some e ∷ es) = cons e (non_nil es)

unfoldable pub join : List (Option Error) → Option Error
unfolding non_nil
join es = elim (non_nil es) [ nil ↦ none | cons e rest ↦ some (joined (cons e rest)) ]

-- errors.Is finds a sentinel in a join exactly if it finds it in one of the two arguments.
pub error_is-join :
    (s : Sentinel) (a b : Option Error)
    → error_is s (join (a ∷ b ∷ [])) ≡ (error_is s a || error_is s b)
unfolding error_is join
error_is-join s none none = refl
error_is-join s none (some b) = ground arith
error_is-join s (some a) none = ground arith
error_is-join s (some a) (some b) = ground arith

-- execution.stageError
unfoldable pub stage_error : Stage → Option Error → Option Error
stage_error st none = none
stage_error st (some e) = some (staged st e)

pub error_is-stage_error :
    (s : Sentinel) (st : Stage) (e : Option Error) → error_is s (stage_error st e) ≡ error_is s e
unfolding error_is stage_error
error_is-stage_error s st none = refl
error_is-stage_error s st (some e) = refl

pub same_sentinel_refl : (s : Sentinel) → same_sentinel s s ≡ true
unfolding same_sentinel
same_sentinel_refl s = ==_refl (sentinel_code s)

-- Whether the error is one of the stage, or a join with such an argument.
is_staged : Stage → Error → Bool
is_staged st (staged at e) = same_stage st at
is_staged st e = false

any_staged : Stage → Errors → Bool
any_staged st nil = false
any_staged st (cons e es) = is_staged st e || any_staged st es

unfoldable pub reports : Stage → Option Error → Bool
unfolding is_staged any_staged same_stage
reports st none = false
reports st (some (joined es)) = any_staged st es
reports st (some e) = is_staged st e

pub reports-join_second :
    (a e : Option Error)
    → reports record_stage (join (a ∷ stage_error record_stage e ∷ [])) ≡ false
    → e ≡ none
unfolding reports join stage_error
reports-join_second a none h = refl
reports-join_second none (some e) h = cc
reports-join_second (some a) (some e) h = ground arith

pub reports-join_third :
    (a b e : Option Error)
    → reports record_stage (join (a ∷ b ∷ stage_error record_stage e ∷ [])) ≡ false
    → e ≡ none
unfolding reports join stage_error
reports-join_third a b none h = refl
reports-join_third none none (some e) h = cc
reports-join_third none (some b) (some e) h = ground arith
reports-join_third (some a) none (some e) h = ground arith
reports-join_third (some a) (some b) (some e) h = ground arith

-- A join is nil only if all its arguments are.
pub join-none : (a b : Option Error) → join (a ∷ b ∷ []) ≡ none → (a ≡ none) × (b ≡ none)
unfolding join
join-none none none h = (refl, refl)
join-none none (some b) h = cc
join-none (some a) none h = cc
join-none (some a) (some b) h = cc
