-- ===== src/Eventlog/Fact.antt =====
-- `equal` and `equalAction`, by which the logs (eventlog/memory/log.go) tell a duplicate from a
-- conflict, and when they hold.
use atoha.Prelude.{◌≡◌, refl, sym, ◌∙◌, Bool, true, ◌&&◌, arith, str_eq, str_eq_iff, str_eq_refl}
use atoha.Prelude.Lists.{bytes_eq, bytes_eq_sound, bytes_eq_refl}
use atoha.Instant.{time_eq}
use atoha.Core.Action.{Action}
use atoha.Core.Event.{ExecutionEvent, kind_text, kind_eq}

unfoldable pub equal : ExecutionEvent → ExecutionEvent → Bool
unfolding kind_eq time_eq
equal a b =
    str_eq a.id b.id
    && str_eq a.action_id b.action_id
    && str_eq a.attempt_id b.attempt_id
    && kind_eq a.kind b.kind
    && time_eq a.occurred_at b.occurred_at
    && time_eq a.recorded_at b.recorded_at
    && bytes_eq a.bytes b.bytes

-- Two events state the same fact: all is equal, but for the locations of the times.
pub record SameFact (a b : ExecutionEvent) : Type 0 where
  pub id : a.id ≡ b.id
  pub action_id : a.action_id ≡ b.action_id
  pub attempt_id : a.attempt_id ≡ b.attempt_id
  pub kind : kind_text a.kind ≡ kind_text b.kind
  pub occurred_at : a.occurred_at.instant ≡ b.occurred_at.instant
  pub recorded_at : a.recorded_at.instant ≡ b.recorded_at.instant
  pub bytes : a.bytes ≡ b.bytes

pub equal→SameFact : (a b : ExecutionEvent) → equal a b ≡ true → SameFact a b
unfolding equal
equal→SameFact a b h = ground (
  arith,
  str_eq_iff a.id b.id,
  str_eq_iff a.action_id b.action_id,
  str_eq_iff a.attempt_id b.attempt_id,
  str_eq_iff (kind_text a.kind) (kind_text b.kind),
  bytes_eq_sound a.bytes b.bytes,
)

pub SameFact→equal : (a b : ExecutionEvent) → SameFact a b → equal a b ≡ true
unfolding equal
SameFact→equal a b h =
    rw (h.id, h.action_id, h.attempt_id, h.kind, h.occurred_at, h.recorded_at, h.bytes)
      (ground (
        arith,
        str_eq_refl b.id,
        str_eq_refl b.action_id,
        str_eq_refl b.attempt_id,
        str_eq_refl (kind_text b.kind),
        bytes_eq_refl b.bytes,
      ))

pub equal_refl : (a : ExecutionEvent) → equal a a ≡ true
equal_refl a = SameFact→equal a a (record {
  id = refl;
  action_id = refl;
  attempt_id = refl;
  kind = refl;
  occurred_at = refl;
  recorded_at = refl;
  bytes = refl;
})

pub equal_symm : (a b : ExecutionEvent) → equal a b ≡ true → equal b a ≡ true
equal_symm a b h =
    let s = equal→SameFact a b h in
    SameFact→equal b a (record {
      id = sym s.id;
      action_id = sym s.action_id;
      attempt_id = sym s.attempt_id;
      kind = sym s.kind;
      occurred_at = sym s.occurred_at;
      recorded_at = sym s.recorded_at;
      bytes = sym s.bytes;
    })

pub equal_trans : (a b c : ExecutionEvent) → equal a b ≡ true → equal b c ≡ true → equal a c ≡ true
equal_trans a b c h k =
    let s = equal→SameFact a b h in
    let t = equal→SameFact b c k in
    SameFact→equal a c (record {
      id = s.id ∙ t.id;
      action_id = s.action_id ∙ t.action_id;
      attempt_id = s.attempt_id ∙ t.attempt_id;
      kind = s.kind ∙ t.kind;
      occurred_at = s.occurred_at ∙ t.occurred_at;
      recorded_at = s.recorded_at ∙ t.recorded_at;
      bytes = s.bytes ∙ t.bytes;
    })

pub equal→id : (a b : ExecutionEvent) → equal a b ≡ true → a.id ≡ b.id
equal→id a b h = (equal→SameFact a b h).id

-- equalAction here, sameAction in execution/execute.go: the same code.
unfoldable pub same_action : Action → Action → Bool
unfolding time_eq
same_action a b =
    str_eq a.id b.id
    && str_eq a.target b.target
    && str_eq a.name b.name
    && time_eq a.requested_at b.requested_at
    && bytes_eq a.input b.input

-- Two actions are the same intent.
pub record SameIntent (a b : Action) : Type 0 where
  pub id : a.id ≡ b.id
  pub target : a.target ≡ b.target
  pub name : a.name ≡ b.name
  pub requested_at : a.requested_at.instant ≡ b.requested_at.instant
  pub input : a.input ≡ b.input

pub same_action→SameIntent : (a b : Action) → same_action a b ≡ true → SameIntent a b
unfolding same_action
same_action→SameIntent a b h = ground (
  arith,
  str_eq_iff a.id b.id,
  str_eq_iff a.target b.target,
  str_eq_iff a.name b.name,
  bytes_eq_sound a.input b.input,
)

pub SameIntent→same_action : (a b : Action) → SameIntent a b → same_action a b ≡ true
unfolding same_action
SameIntent→same_action a b h =
    rw (h.id, h.target, h.name, h.requested_at, h.input)
      (ground
        (arith, str_eq_refl b.id, str_eq_refl b.target, str_eq_refl b.name, bytes_eq_refl b.input))

pub same_action_refl : (a : Action) → same_action a a ≡ true
same_action_refl a =
    SameIntent→same_action a a
      (record { id = refl; target = refl; name = refl; requested_at = refl; input = refl })

-- Two actions that are the same intent as a third are the same.
pub same_action_join :
    (s a b : Action) → same_action s a ≡ true → same_action s b ≡ true → same_action a b ≡ true
same_action_join s a b h k =
    let p = same_action→SameIntent s a h in
    let q = same_action→SameIntent s b k in
    SameIntent→same_action a b (record {
      id = sym p.id ∙ q.id;
      target = sym p.target ∙ q.target;
      name = sym p.name ∙ q.name;
      requested_at = sym p.requested_at ∙ q.requested_at;
      input = sym p.input ∙ q.input;
    })
