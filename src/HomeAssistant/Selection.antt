-- ===== src/HomeAssistant/Selection.antt =====
-- Which observation the loop of Verify (provider/homeassistant/verifier.go) selects.
use atoha.Prelude.{
  ◌≤◌, ◌≡◌, refl, sym, ap, ◌∙◌, true, Option, none, some, Bool-cases, ◌⊎◌, inl, inr, List, [], ◌∷◌,
  arith, str_eq, str_eq_iff, some_eq,
}
use atoha.Prelude.Lists.{All}
use atoha.Instant.{after}
use atoha.Core.Action.{Action}
use atoha.Core.Observation.{Observation}
use atoha.HomeAssistant.Verifier.{fresher, select}

abbrev pub Among : Observation → List Observation → Type 0
Among o [] = ⊥
Among o (x ∷ xs) = (x ≡ o) ⊎ Among o xs

-- Of the observations of a target, one that no other is later than.
pub record IsFreshest (action : Action) (os : List Observation) (o : Observation) : Type 0 where
  pub among : Among o os
  pub of_target : o.target ≡ action.target
  pub latest :
      All
        (λ (x : Observation).
          str_eq x.target action.target ≡ true → x.observed_at.instant ≤ o.observed_at.instant)
        os

-- The loop has found the latest so far, if it has found one.
record Selected (action : Action) (os : List Observation) (from : Option Observation)
    (o : Observation) : Type 0 where
  found : (from ≡ some o) ⊎ (Among o os × (o.target ≡ action.target))
  latest :
      All
        (λ (x : Observation).
          str_eq x.target action.target ≡ true → x.observed_at.instant ≤ o.observed_at.instant)
        os
  past : (s : Observation) → from ≡ some s → s.observed_at.instant ≤ o.observed_at.instant

fresher_lem :
    (x : Observation) (from : Option Observation)
    → (o : Observation) × (fresher x from ≡ some o)
      × ((o ≡ x) ⊎ (from ≡ some o))
      × (x.observed_at.instant ≤ o.observed_at.instant)
      × ((s : Observation) → from ≡ some s → s.observed_at.instant ≤ o.observed_at.instant)
unfolding fresher after
fresher_lem x none = (x, refl, inl refl, omega arith, λ s h. cc)
fresher_lem x (some y) = elim (Bool-cases (after x.observed_at y.observed_at)) [
  | inl p ↦ (x, rw p refl, inl refl, omega arith, λ s h. ground arith)
  | inr p ↦ (y, rw p refl, inr refl, ground arith, λ s h. ground arith)
]

select-Selected :
    (action : Action) (os : List Observation) (from : Option Observation) {o : Observation}
    → select action os from ≡ some o
    → Selected action os from o
unfolding select
select-Selected action [] from h = record {
  found = inl h;
  latest = tt;
  past =
      λ s q. omega (arith, ap (λ (z : Observation). z.observed_at.instant) (some_eq (sym h ∙ q)));
}
select-Selected action (x ∷ os) from {o} h = elim (Bool-cases (str_eq x.target action.target)) [
  | inr p ↦
      let g = select-Selected action os from (rw p at h) in
      record {
        found = elim g.found [ inl q ↦ inl q | inr (a, t) ↦ inr (inr a, t) ];
        latest = (λ q. ground arith, g.latest);
        past = g.past;
      }
  | inl p ↦
      let (y, is_y, which, newer, older) = fresher_lem x from in
      let g = select-Selected action os (fresher x from) (rw p at h) in
      let reach = g.past y is_y in
      record {
        found = elim g.found [
          | inr (a, t) ↦ inr (inr a, t)
          | inl e ↦
              let same = some_eq (sym is_y ∙ e) in
              elim which [
                | inr w ↦ inl (w ∙ ap some same)
                | inl w ↦
                    let is_x = sym w ∙ same in
                    inr (
                      inl is_x,
                      sym (ap (λ (z : Observation). z.target) is_x)
                          ∙ (str_eq_iff x.target action.target).0 p,
                    )
              ]
        ];
        latest = (λ q. omega (arith, newer, reach), g.latest);
        past = λ s q. omega (arith, older s q, reach);
      }
]

pub select-IsFreshest :
    (action : Action) (os : List Observation) {o : Observation}
    → select action os none ≡ some o
    → IsFreshest action os o
select-IsFreshest action os h =
    let g = select-Selected action os none h in
    elim g.found [
      | inl q ↦ cc
      | inr (a, t) ↦ record { among = a; of_target = t; latest = g.latest }
    ]
