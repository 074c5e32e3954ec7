-- ===== src/Http/Bodies.antt =====
-- adapter/httpapi/handler.go: which bodies decode accepts.
use atoha.Prelude.{
  ℕ, ◌≤◌, ◌≡◌, refl, sym, ap, ◌∙◌, true, false, Option, none, some, List, Bool-cases, inl, inr,
  arith, ltb,
}
use atoha.Prelude.Lists.{length, all}
use atoha.Errors.{Result, ok, err, Error}
use atoha.Streams.{Stream}
use atoha.Http.Serving.{
  max_request_size, max_bytes, is_json_space, is_none, at_end, on_first, decode,
}

-- The whole body, of at most max_request_size bytes, is one value and white space.
pub record IsOneValue {ℓ} {A : Type ℓ} (parse : Stream → Result (A × List ℕ)) (body : Stream)
    (request : A) : Type ℓ where
  pub bounded : length body.bytes ≤ max_request_size
  pub ended : body.failure ≡ none
  pub rest : List ℕ
  pub parsed : parse body ≡ ok (request, rest)
  pub blank : all is_json_space rest ≡ true

is_none_lem : (e : Option Error) → is_none e ≡ true → e ≡ none
unfolding is_none
is_none_lem none h = refl
is_none_lem (some e) h = cc

within_limit : (a b : ℕ) → ltb a b ≡ false → b ≤ a
within_limit a b h = ground arith

max_bytes_whole :
    (body : Stream)
    → (max_bytes body).failure ≡ none
    → (length body.bytes ≤ max_request_size) × (max_bytes body ≡ body)
unfolding max_bytes
max_bytes_whole body h = elim (Bool-cases (ltb max_request_size (length body.bytes))) [
  | inl p ↦ let k = rw p at h in cc
  | inr p ↦ (within_limit _ _ p, rw p refl)
]

on_first_ok {ℓ} :
    {A : Type ℓ} {request : A} (failure : Option Error) (first : Result (A × List ℕ))
    → on_first failure first ≡ ok request
    → (failure ≡ none)
      × (rest : List ℕ) × (first ≡ ok (request, rest))
      × (all is_json_space rest ≡ true)
unfolding on_first at_end
on_first_ok failure (err e) h = cc
on_first_ok failure (ok (request, rest)) h = elim (Bool-cases (all is_json_space rest)) [
  | inr p ↦ let k = rw p at h in cc
  | inl p ↦ elim (Bool-cases (is_none failure)) [
    | inr q ↦ let k = rw (p, q) at h in cc
    | inl q ↦ (is_none_lem failure q, rest, cc, p)
  ]
]

pub decode-IsOneValue {ℓ} :
    {A : Type ℓ} {request : A} (parse : Stream → Result (A × List ℕ)) (body : Stream)
    → decode parse body ≡ ok request
    → IsOneValue parse body request
unfolding decode
decode-IsOneValue parse body h =
    let (f, rest, p, b) = on_first_ok (max_bytes body).failure (parse (max_bytes body)) h in
    let (small, whole) = max_bytes_whole body f in
    record {
      bounded = small;
      ended = sym (ap (λ s. s.failure) whole) ∙ f;
      rest = rest;
      parsed = sym (ap parse whole) ∙ p;
      blank = b;
    }
