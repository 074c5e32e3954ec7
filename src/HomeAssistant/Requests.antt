-- ===== src/HomeAssistant/Requests.antt =====
-- The requests that the translator of provider/homeassistant/translator.go makes.
use atoha.Prelude.{
  ℕ, ◌≤◌, String, ◌≡◌, ◌≢◌, ◌⊎◌, refl, ap, ◌∙◌, subst, true, ◌&&◌, Option, none, some, some_eq, leb,
  ◌==◌, Option-cases, Bool-cases, inl, inr, List, [], ◌∷◌, ◌++◌, arith, str_eq, str_eq_iff,
}
use atoha.Prelude.Lists.{All, all}
use atoha.Prelude.Text.{codes}
use atoha.Errors.{Result, ok, err, ok_eq, Result-cases}
use atoha.Core.Action.{Action}
use atoha.Core.Provider.{ResolvedTarget}
use atoha.HomeAssistant.Translator.{
  Json, Translator, ServiceRequest, in_segment, valid_segment, checked_parts, cut, split_entity_id,
  lookup, all_space, input_data, with_entity, dispatch_request, request_for, service_request,
  domain_of, service_data, entity_for,
}
use atoha.HomeAssistant.Bindings.{IsEntity, entity_for-bound}

-- A small letter, a digit or an underscore.
pub data InSegment (c : ℕ) : Type 0 where
  letter : 97 ≤ c → c ≤ 122 → InSegment c
  digit : 48 ≤ c → c ≤ 57 → InSegment c
  underscore : c ≡ 95 → InSegment c

-- A segment of a path, which is not empty.
pub record IsSegment (cs : List ℕ) : Type 0 where
  pub not_empty : cs ≢ []
  pub characters : All InSegment cs

in_segment-InSegment : (c : ℕ) → in_segment c ≡ true → InSegment c
unfolding in_segment
in_segment-InSegment c h = elim (Bool-cases (leb 97 c && leb c 122)) [
  | inl p ↦ letter (ground arith) (ground arith)
  | inr p ↦ elim (Bool-cases (leb 48 c && leb c 57)) [
    | inl q ↦ digit (ground arith) (ground arith)
    | inr q ↦ underscore (ground arith)
  ]
]

all-InSegment : (cs : List ℕ) → all in_segment cs ≡ true → All InSegment cs
all-InSegment [] h = tt
all-InSegment (c ∷ cs) h = (in_segment-InSegment c (ground arith), all-InSegment cs (ground arith))

valid_segment-IsSegment : (cs : List ℕ) → valid_segment cs ≡ true → IsSegment cs
unfolding valid_segment
valid_segment-IsSegment [] h = cc
valid_segment-IsSegment (c ∷ cs) h = record {
  not_empty = λ q. cc;
  characters = all-InSegment (c ∷ cs) h;
}

-- The entity's identity is the domain, a dot, and another segment.
pub record IsOfDomain (domain entity : List ℕ) : Type 0 where
  pub object_id : List ℕ
  pub joined : entity ≡ domain ++ 46 ∷ object_id
  pub domain_segment : IsSegment domain
  pub object_segment : IsSegment object_id

cut_joined : (e : List ℕ) {d o : List ℕ} → cut e ≡ some (d, o) → e ≡ d ++ 46 ∷ o
unfolding cut
cut_joined [] h = cc
cut_joined (b ∷ bs) {d} {o} h = elim (Bool-cases (b == 46)) [
  | inl p ↦ let k = some_eq (rw p at h) in ground (arith, k)
  | inr p ↦ elim (Option-cases (cut bs)) [
    | inl q ↦ let k = rw (p, q) at h in cc
    | inr ((d', o'), q) ↦
        let k = some_eq (rw (p, q) at h) in
        ap (λ z. b ∷ z) (cut_joined bs q) ∙ ap (λ (z : List ℕ × List ℕ). z.0 ++ 46 ∷ z.1) k
  ]
]

split_entity_id-IsOfDomain :
    (e : List ℕ) {p : List ℕ × List ℕ} → split_entity_id e ≡ ok p → IsOfDomain p.0 e
unfolding split_entity_id checked_parts
split_entity_id-IsOfDomain e {p} h = elim (Option-cases (cut e)) [
  | inl q ↦ let k = rw q at h in cc
  | inr ((d, o), q) ↦ elim (Bool-cases (valid_segment d && valid_segment o)) [
    | inr v ↦ let k = rw (q, v) at h in cc
    | inl v ↦
        let k = ok_eq (rw (q, v) at h) in
        subst (λ (z : List ℕ × List ℕ). IsOfDomain z.0 e) k
          (record {
            object_id = o;
            joined = cut_joined e q;
            domain_segment = valid_segment-IsSegment d (ground arith);
            object_segment = valid_segment-IsSegment o (ground arith);
          })
  ]
]

-- The body is a JSON object of the input's fields, none of them the entity's, and the entity's.
pub record IsBody (J : Json) (input entity body : List ℕ) : Type 0 where
  pub fields : List (String × List ℕ)
  pub given :
      ((all_space input ≡ true) × (fields ≡ [])) ⊎ (J.unmarshal_object input ≡ ok (some fields))
  pub free : All (λ (f : String × List ℕ). f.0 ≢ "entity_id") fields
  pub made : J.marshal_object (fields ++ ("entity_id", J.marshal_text entity) ∷ []) ≡ ok body

lookup_free :
    (k : String) (fs : List (String × List ℕ))
    → lookup k fs ≡ none
    → All (λ (f : String × List ℕ). f.0 ≢ k) fs
unfolding lookup
lookup_free k [] h = tt
lookup_free k ((j, v) ∷ fs) h = elim (Bool-cases (str_eq j k)) [
  | inl p ↦ let q = rw p at h in cc
  | inr p ↦ (λ same. cc ((str_eq_iff j k).1 same), lookup_free k fs (rw p at h))
]

module _ (J : Json) (input entity : List ℕ) {body : List ℕ} where
  with_entity-IsBody :
      (fields : List (String × List ℕ))
      → ((all_space input ≡ true) × (fields ≡ [])) ⊎ (J.unmarshal_object input ≡ ok (some fields))
      → with_entity J entity (ok fields) ≡ ok body
      → IsBody J input entity body
  unfolding with_entity
  with_entity-IsBody fields given h = elim (Option-cases (lookup "entity_id" fields)) [
    | inr (v, q) ↦ let k = rw (q, with_entity) at h in cc
    | inl q ↦ record {
      fields = fields;
      given = given;
      free = lookup_free "entity_id" fields q;
      made = rw (q, with_entity) at h;
    }
  ]

  input_data-IsBody :
      (r : Result (Option (List (String × List ℕ))))
      → J.unmarshal_object input ≡ r
      → with_entity J entity (input_data r) ≡ ok body
      → IsBody J input entity body
  unfolding with_entity input_data
  input_data-IsBody (err e) q h = cc
  input_data-IsBody (ok none) q h = cc
  input_data-IsBody (ok (some fields)) q h = with_entity-IsBody fields (inr q) h

  service_data-IsBody : service_data J input entity ≡ ok body → IsBody J input entity body
  unfolding service_data
  service_data-IsBody h = elim (Bool-cases (all_space input)) [
    | inl p ↦ with_entity-IsBody [] (inl (p, refl)) (rw p at h)
    | inr p ↦ input_data-IsBody _ refl (rw p at h)
  ]

-- What a request asks for, given the action and the entity that its target is bound to.
pub record IsRequest (J : Json) (action : Action) (entity : List ℕ) (r : ServiceRequest)
    : Type 0 where
  pub domain : IsOfDomain r.domain entity
  pub service : r.service ≡ action.name
  pub service_segment : IsSegment (codes action.name)
  pub body : IsBody J action.input entity r.body

IsRequest-made :
    (J : Json) (action : Action) (e : List ℕ) {r : ServiceRequest}
    → IsEntity e
    → request_for J action (ok e) ≡ ok r
    → IsRequest J action e r
unfolding request_for service_request domain_of
IsRequest-made J action e entity h = elim (Bool-cases (valid_segment (codes action.name))) [
  | inr c ↦ let k = rw c at h in cc
  | inl c ↦ elim (Result-cases (service_data J action.input e)) [
    | inl (f, b) ↦ let k = rw (c, b) at h in cc
    | inr (body, b) ↦
        let k = ok_eq (rw (c, b, entity.splits) at h) in
        subst (IsRequest J action e) k (record {
          domain = split_entity_id-IsOfDomain e entity.splits;
          service = refl;
          service_segment = valid_segment-IsSegment (codes action.name) c;
          body = service_data-IsBody J action.input e b;
        })
  ]
]

-- A request that is made is for the entity that the action's target is bound to: that entity's
-- identity is the request's domain, a dot and an object, its service is the action's name, and
-- domain, object and service are not empty and of small letters, digits and underscores only. Its
-- body encodes the fields of the object that the action's input is, or no fields where the input is
-- white space, none of them being `entity_id`, and then the entity as `entity_id`.
pub dispatch_request-bound :
    (J : Json) (t : Translator) (action : Action) (target : ResolvedTarget) {r : ServiceRequest}
    → dispatch_request J t action target ≡ ok r
    → (e : List ℕ) × (lookup action.target t.bindings ≡ some e) × IsRequest J action e r
unfolding dispatch_request
dispatch_request-bound J t action target h = elim (Result-cases (entity_for t action target)) [
  | inl (f, q) ↦ let k = rw (q, request_for) at h in cc
  | inr (e, q) ↦
      let (_, same, bound, entity) = entity_for-bound t action target q in
      (e, bound, IsRequest-made J action e entity (rw q at h))
]
