-- ===== src/HomeAssistant/Bindings.antt =====
-- The translator of provider/homeassistant/translator.go: what it resolves it accepts again, and
-- nothing else.
use atoha.Prelude.{
  ℕ, String, ◌≡◌, refl, sym, ap, ◌∙◌, subst, ◌||◌, not, none, some, Option-cases, Bool-cases, inl,
  inr, List, [], ◌∷◌, ◌++◌, arith, str_eq, str_eq_iff, some_eq,
}
use atoha.Prelude.Lists.{All, bytes_eq_refl, bytes_eq_sound}
use atoha.Prelude.Text.{trim_space}
use atoha.Errors.{ok, ok_eq, Result-cases}
use atoha.Core.Action.{Action}
use atoha.Core.Identity.{clone_bytes}
use atoha.Core.Provider.{ResolvedTarget, new_resolved_target}
use atoha.HomeAssistant.Translator.{
  Translator, provider_id, split_entity_id, lookup, binding_error, bind_all, translator_of,
  new_translator, target_of, resolve, expected_entity, bound_entity, entity_for,
}

-- An identity that splitEntityID takes apart.
pub record IsEntity (e : List ℕ) : Type 0 where
  pub parts : List ℕ × List ℕ
  pub splits : split_entity_id e ≡ ok parts

abbrev Bound : String × List ℕ → Type 0
Bound p = IsEntity p.1

All-snoc :
    (xs : List (String × List ℕ)) (x : String × List ℕ)
    → All Bound xs
    → Bound x
    → All Bound (xs ++ x ∷ [])
All-snoc [] x h p = (p, tt)
All-snoc (y ∷ xs) x h p = (h.0, All-snoc xs x h.1 p)

binding-IsEntity : (logical : String) (e : List ℕ) → binding_error logical e ≡ none → IsEntity e
unfolding binding_error
binding-IsEntity logical e h = elim (Result-cases (split_entity_id e)) [
  | inr (p, q) ↦ record { parts = p; splits = q }
  | inl (f, q) ↦
      elim (Bool-cases
        (str_eq (trim_space logical) "" || not (str_eq logical (trim_space logical)))) [
          | inl c ↦ let k = rw (c, binding_error) at h in cc
          | inr c ↦ let k = rw (c, binding_error, q) at h in cc
        ]
]

bind_all-Bound :
    (source acc out : List (String × List ℕ))
    → All Bound acc
    → bind_all source acc ≡ ok out
    → All Bound out
unfolding bind_all
bind_all-Bound [] acc out h e = subst (All Bound) (ok_eq e) h
bind_all-Bound ((logical, entity) ∷ rest) acc out h e =
    elim (Option-cases (binding_error logical entity)) [
      | inr (f, q) ↦ let k = rw (q, bind_all) at e in cc
      | inl q ↦
          bind_all-Bound rest _ out (All-snoc acc _ h (binding-IsEntity logical entity q))
            (rw (q, bind_all) at e)
    ]

lookup-Bound :
    (k : String) (bs : List (String × List ℕ)) {e : List ℕ}
    → All Bound bs
    → lookup k bs ≡ some e
    → IsEntity e
unfolding lookup
lookup-Bound k [] h q = cc
lookup-Bound k ((j, v) ∷ bs) h q = elim (Bool-cases (str_eq j k)) [
  | inl p ↦ subst IsEntity (some_eq (rw (p, lookup) at q)) h.0
  | inr p ↦ lookup-Bound k bs h.1 (rw (p, lookup) at q)
]

new_translator-Bound :
    (source : List (String × List ℕ)) {t : Translator}
    → new_translator source ≡ ok t
    → All Bound t.bindings
unfolding new_translator translator_of
new_translator-Bound source {t} h = elim (Result-cases (bind_all source [])) [
  | inl (f, q) ↦ let k = rw (q, translator_of) at h in cc
  | inr (bs, q) ↦
      let k = rw (q, translator_of) at h in
      subst (λ (z : Translator). All Bound z.bindings) (ok_eq k) (bind_all-Bound source [] bs tt q)
]

expected_entity-ok :
    (k : String) (entity x : List ℕ) {e : List ℕ}
    → expected_entity k entity (some x) ≡ ok e
    → (x ≡ entity) × (e ≡ entity)
unfolding expected_entity
expected_entity-ok k entity x h =
    (ground (arith, bytes_eq_sound entity x), ground (arith, bytes_eq_sound entity x))

module _ (t : Translator) (action : Action) where
  -- A target that is resolved is of this provider, for the entity that the action's is bound to.
  pub resolve-bound :
      {target : ResolvedTarget}
      → resolve t action ≡ ok target
      → (target.provider ≡ provider_id) × (lookup action.target t.bindings ≡ some target.endpoint)
  unfolding resolve target_of new_resolved_target clone_bytes
  resolve-bound h = ground arith

  -- Only the entity that the action's target is bound to is accepted, from a target of this provider.
  pub entity_for-bound :
      (target : ResolvedTarget) {e : List ℕ}
      → entity_for t action target ≡ ok e
      → (target.provider ≡ provider_id)
        × (e ≡ target.endpoint)
        × (lookup action.target t.bindings ≡ some e)
        × IsEntity e
  unfolding entity_for bound_entity expected_entity
  entity_for-bound target {e} h = elim (Result-cases (split_entity_id target.endpoint)) [
    | inl (f, q) ↦ elim (Bool-cases (str_eq target.provider provider_id)) [
      | inl c ↦ let k = rw (c, q, bound_entity) at h in cc
      | inr c ↦ let k = rw c at h in cc
    ]
    | inr (p, q) ↦ elim (Bool-cases (str_eq target.provider provider_id)) [
      | inr c ↦ let k = rw c at h in cc
      | inl c ↦ elim (Option-cases (lookup action.target t.bindings)) [
        | inl b ↦ let k = rw (c, q, bound_entity, b, expected_entity) at h in cc
        | inr (x, b) ↦
            let (expected, same) =
              expected_entity-ok action.target target.endpoint x
                (rw (c, q, bound_entity, b) at h) in
            (
              (str_eq_iff target.provider provider_id).0 c,
              same,
              b ∙ ap some (expected ∙ sym same),
              subst IsEntity (sym same) (record { parts = p; splits = q }),
            )
      ]
    ]
  ]

-- What a translator that newTranslator built resolves an action to, it accepts as the target of that
-- action, and takes from it the entity that the action's target is bound to.
pub entity_for-resolve :
    (source : List (String × List ℕ)) (t : Translator) (action : Action) (target : ResolvedTarget)
    → new_translator source ≡ ok t
    → resolve t action ≡ ok target
    → (entity_for t action target ≡ ok target.endpoint)
      × (lookup action.target t.bindings ≡ some target.endpoint)
unfolding entity_for bound_entity expected_entity
entity_for-resolve source t action target h r =
    let (of_us, bound) = resolve-bound t action r in
    let entity = lookup-Bound action.target t.bindings (new_translator-Bound source h) bound in
    (
      rw (of_us, entity.splits, bound_entity, bound, expected_entity, bytes_eq_refl target.endpoint)
          refl,
      bound,
    )
