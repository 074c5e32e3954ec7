-- ===== src/HomeAssistant/Translator.antt =====
-- provider/homeassistant/translator.go: from actions and targets to Home Assistant's entities and
-- services.
use atoha.Prelude.{
  ℕ, String, Bool, true, false, ◌&&◌, ◌||◌, not, Option, none, some, List, [], ◌∷◌, ◌++◌, str_eq,
  ◌==◌, leb, if◌then◌else◌,
}
use atoha.Prelude.Lists.{bytes_eq, all}
use atoha.Prelude.Text.{trim_space, codes}
use atoha.Errors.{
  Result, ok, err, Error, sentinel, message, described, text, provider_invalid_config,
  target_not_found, invalid_target, target_mismatch, provider_invalid_action,
}
use atoha.Core.Action.{Action}
use atoha.Core.Provider.{ResolvedTarget, new_resolved_target}

abbrev pub provider_id : String
provider_id = "homeassistant"

-- What the translator takes from encoding/json, on maps as lists of keys and values: `none` is the
-- nil map, that of the text `null`.
pub record Json : Type 0 where
  pub unmarshal_object : List ℕ → Result (Option (List (String × List ℕ)))
  pub marshal_text : List ℕ → List ℕ
  pub marshal_object : List (String × List ℕ) → Result (List ℕ)

-- validSegment, on the code points or, where those of more than one byte are no letters, the bytes.
unfoldable pub in_segment : ℕ → Bool
in_segment r = leb 97 r && leb r 122 || leb 48 r && leb r 57 || r == 95

unfoldable pub valid_segment : List ℕ → Bool
unfolding in_segment
valid_segment [] = false
valid_segment (r ∷ rs) = all in_segment (r ∷ rs)

-- strings.Cut at the first ".", which is 46.
unfoldable pub cut : List ℕ → Option (List ℕ × List ℕ)
cut [] = none
cut (b ∷ bs) =
    let rest = cut bs in
    if b == 46 then some ([], bs) else elim rest [ none ↦ none | some p ↦ some (b ∷ p.0, p.1) ]

abbrev entity_error : Error
entity_error = message "invalid entity ID %q" []

unfoldable pub checked_parts : Option (List ℕ × List ℕ) → Result (List ℕ × List ℕ)
unfolding valid_segment
checked_parts none = err entity_error
checked_parts (some (domain, object_id)) =
    if valid_segment domain && valid_segment object_id
    then ok (domain, object_id)
    else err entity_error

unfoldable pub split_entity_id : List ℕ → Result (List ℕ × List ℕ)
unfolding cut checked_parts
split_entity_id entity_id = checked_parts (cut entity_id)

-- The map `bindings`, from logical targets to entities.
pub record Translator : Type 0 where
  pub bindings : List (String × List ℕ)

unfoldable pub lookup : String → List (String × List ℕ) → Option (List ℕ)
lookup k [] = none
lookup k ((j, v) ∷ rest) = if str_eq j k then some v else lookup k rest

abbrev pub config_error : Error → Error
config_error e = described (sentinel provider_invalid_config) e

-- One round of the loop of newTranslator.
unfoldable pub binding_error : String → List ℕ → Option Error
unfolding split_entity_id
binding_error logical entity_id =
    if str_eq (trim_space logical) "" || not (str_eq logical (trim_space logical))
    then some (config_error (message "invalid logical target %q" (text logical ∷ [])))
    else elim (split_entity_id entity_id) [
      | err e ↦ some (config_error (described (message "binding %q" (text logical ∷ [])) e))
      | ok _ ↦ none
    ]

-- The loop over the source, in whatever order Go's range takes: the bindings are copied.
unfoldable pub bind_all :
    List (String × List ℕ) → List (String × List ℕ) → Result (List (String × List ℕ))
unfolding binding_error
bind_all [] bindings = ok bindings
bind_all ((logical, entity_id) ∷ rest) bindings =
    let more = bind_all rest (bindings ++ (logical, entity_id) ∷ []) in
    elim (binding_error logical entity_id) [ some e ↦ err e | none ↦ more ]

unfoldable pub translator_of : Result (List (String × List ℕ)) → Result Translator
translator_of (err e) = err e
translator_of (ok bindings) = ok (record { bindings = bindings })

unfoldable pub new_translator : List (String × List ℕ) → Result Translator
unfolding bind_all translator_of
new_translator source = translator_of (bind_all source [])

unfoldable pub target_of : String → Option (List ℕ) → Result ResolvedTarget
unfolding new_resolved_target
target_of target none =
    err (described (sentinel target_not_found) (message "%s" (text target ∷ [])))
target_of target (some entity_id) = new_resolved_target provider_id entity_id

unfoldable pub resolve : Translator → Action → Result ResolvedTarget
unfolding lookup target_of
resolve t action = target_of action.target (lookup action.target t.bindings)

-- The comparison of the entity with the one that the action's target is bound to.
unfoldable pub expected_entity : String → List ℕ → Option (List ℕ) → Result (List ℕ)
expected_entity target entity_id none =
    err (described (sentinel target_not_found) (message "%s" (text target ∷ [])))
expected_entity target entity_id (some expected) =
    if not (bytes_eq entity_id expected)
    then err (
        described (sentinel target_mismatch)
          (message "target %q resolves to %q, got %q" (text target ∷ [])))
    else ok entity_id

unfoldable pub bound_entity :
    Translator → Action → List ℕ → Result (List ℕ × List ℕ) → Result (List ℕ)
unfolding lookup expected_entity
bound_entity t action entity_id (err e) = err (described (sentinel invalid_target) e)
bound_entity t action entity_id (ok _) =
    expected_entity action.target entity_id (lookup action.target t.bindings)

unfoldable pub entity_for : Translator → Action → ResolvedTarget → Result (List ℕ)
unfolding bound_entity split_entity_id
entity_for t action target =
    if not (str_eq target.provider provider_id)
    then err
        (described (sentinel invalid_target) (message "provider %q" (text target.provider ∷ [])))
    else bound_entity t action target.endpoint (split_entity_id target.endpoint)

-- Whether bytes.TrimSpace leaves nothing: all are white space, in UTF-8.
ascii_space : ℕ → Bool
ascii_space b = leb 9 b && leb b 13 || b == 32

space_of_two : ℕ → ℕ → Bool
space_of_two a b = a == 0xc2 && (b == 0x85 || b == 0xa0)

space_of_three : ℕ → ℕ → ℕ → Bool
space_of_three a b c =
    a == 0xe1 && b == 0x9a && c == 0x80
    || a == 0xe2
      && (b == 0x80 && (leb 0x80 c && leb c 0x8a || c == 0xa8 || c == 0xa9 || c == 0xaf)
          || b == 0x81 && c == 0x9f)
    || a == 0xe3 && b == 0x80 && c == 0x80

unfoldable pub all_space : List ℕ → Bool
unfolding ascii_space space_of_two space_of_three
all_space [] = true
all_space (a ∷ []) = ascii_space a
all_space (a ∷ b ∷ []) = ascii_space a && all_space (b ∷ []) || space_of_two a b
all_space (a ∷ b ∷ c ∷ bs) =
    ascii_space a && all_space (b ∷ c ∷ bs)
    || space_of_two a b && all_space (c ∷ bs)
    || space_of_three a b c && all_space bs

abbrev pub action_error : Error → Error
action_error e = described (sentinel provider_invalid_action) e

unfoldable pub input_data :
    Result (Option (List (String × List ℕ))) → Result (List (String × List ℕ))
input_data (err e) = err (action_error (described (message "input must be a JSON object" []) e))
input_data (ok none) = err (action_error (message "input must be a JSON object" []))
input_data (ok (some data')) = ok data'

module _ (J : Json) where
  -- What follows `data`: the resolved entity is put in, and may not be there.
  unfoldable pub with_entity : List ℕ → Result (List (String × List ℕ)) → Result (List ℕ)
  unfolding lookup
  with_entity entity_id (err e) = err e
  with_entity entity_id (ok fields) = elim (lookup "entity_id" fields) [
    | some _ ↦ err (action_error (message "input cannot override resolved entity_id" []))
    | none ↦ J.marshal_object (fields ++ ("entity_id", J.marshal_text entity_id) ∷ [])
  ]

  unfoldable pub service_data : List ℕ → List ℕ → Result (List ℕ)
  unfolding all_space input_data with_entity
  service_data input entity_id =
      if all_space input
      then with_entity entity_id (ok [])
      else with_entity entity_id (input_data (J.unmarshal_object input))

-- serviceRequest of client.go
pub record ServiceRequest : Type 0 where
  pub domain : List ℕ
  pub service : String
  pub body : List ℕ

-- The domain of the entity: `domain, _, _ := splitEntityID(entityID)`.
unfoldable pub domain_of : Result (List ℕ × List ℕ) → List ℕ
domain_of (err e) = []
domain_of (ok (domain, _)) = domain

unfoldable pub service_request : List ℕ → String → Result (List ℕ) → Result ServiceRequest
unfolding domain_of split_entity_id
service_request entity_id name (err e) = err e
service_request entity_id name (ok body) =
    ok (record { domain = domain_of (split_entity_id entity_id); service = name; body = body })

module _ (J : Json) where
  unfoldable pub request_for : Action → Result (List ℕ) → Result ServiceRequest
  unfolding service_request service_data valid_segment
  request_for action (err e) = err e
  request_for action (ok entity_id) =
      if not (valid_segment (codes action.name))
      then err (action_error (message "invalid service action %q" (text action.name ∷ [])))
      else service_request entity_id action.name (service_data J action.input entity_id)

  unfoldable pub dispatch_request : Translator → Action → ResolvedTarget → Result ServiceRequest
  unfolding request_for entity_for
  dispatch_request t action target = request_for action (entity_for t action target)
