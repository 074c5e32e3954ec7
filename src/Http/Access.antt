-- ===== src/Http/Access.antt =====
-- adapter/httpapi/handler.go: which requests change anything.
use atoha.Prelude.{
  ℕ, String, ◌≡◌, refl, sym, Bool, true, false, List, [], ◌∷◌, Bool-cases, ◌⊎◌, inl, inr, arith,
  str_eq, str_eq_iff,
}
use Prim.Native.String.{◌++◌ as ◌+++◌}
use atoha.Context.{Context}
use atoha.Errors.{Result, ok, Result-cases}
use atoha.Streams.{Stream}
use atoha.Execution.Ports.{Journal}
use atoha.Http.{is_authorized, execute_handler, recover_handler, verify_handler}
use atoha.Http.Bodies.{IsOneValue, decode-IsOneValue}
use atoha.Http.Serving.{
  decode, Request, url_path, Route, posted, gotten, route_v1, route, Site, Handler, on_world,
  on_verify_world, routed, serve,
}

route_v1-execute :
    (m a b : String)
    → route_v1 m a b ≡ Route.to_execute
    → (str_eq m "POST" ≡ true) × (str_eq a "actions" ≡ true) × (str_eq b "execute" ≡ true)
unfolding route_v1 posted gotten
route_v1-execute m a b h = (ground arith, ground arith, ground arith)

route_v1-verify :
    (m a b : String)
    → route_v1 m a b ≡ Route.to_verify
    → (str_eq m "POST" ≡ true) × (str_eq a "actions" ≡ true) × (str_eq b "verify" ≡ true)
unfolding route_v1 posted gotten
route_v1-verify m a b h = (ground arith, ground arith, ground arith)

route_v1-recover :
    (m a b : String)
    → route_v1 m a b ≡ Route.to_recover
    → (str_eq m "POST" ≡ true) × (str_eq a "actions" ≡ true) × (str_eq b "recover" ≡ true)
unfolding route_v1 posted gotten
route_v1-recover m a b h = (ground arith, ground arith, ground arith)

-- Whether the handler of a route may change what the site holds.
changes : Route → Bool
changes Route.to_execute = true
changes Route.to_verify = true
changes Route.to_recover = true
changes Route.to_scan = false
changes Route.to_health = false
changes (Route.to_get id) = false
changes Route.method_not_allowed = false
changes Route.not_found = false

route-v1 :
    (m : String) (path : List String)
    → changes (route m path) ≡ true
    → (a : String) × (b : String) × (path ≡ "v1" ∷ a ∷ b ∷ []) × (route m path ≡ route_v1 m a b)
unfolding route changes gotten
route-v1 m [] h = cc
route-v1 m (a ∷ []) h = let k : true ≡ false = ground arith in cc
route-v1 m (a ∷ b ∷ []) h = cc
route-v1 m (a ∷ b ∷ c ∷ []) h = elim (Bool-cases (str_eq a "v1")) [
  | inl p ↦ (b, c, rw ((str_eq_iff a "v1").0 p) refl, rw p refl)
  | inr p ↦ let k = rw p at h in cc
]
route-v1 m (a ∷ b ∷ c ∷ d ∷ parts) h = cc

-- A request that may change something: the token, the method, the path and the body.
pub record IsPosted {ℓ} {A : Type ℓ} (parse : Stream → Result (A × List ℕ)) (h : Handler)
    (name : String) (r : Request) : Type ℓ where
  pub token : (h.api_token ≡ "") ⊎ (r.authorization ≡ "Bearer " +++ h.api_token)
  pub method : r.method ≡ "POST"
  pub path : r.path ≡ "v1" ∷ "actions" ∷ name ∷ []
  pub request : A
  pub body : IsOneValue parse r.body request

pub data MayChange (h : Handler) (r : Request) : Type 0 where
  executes : IsPosted h.parse_execute h "execute" r → MayChange h r
  verifies : IsPosted h.parse_execute h "verify" r → MayChange h r
  recovers : IsPosted h.parse_recover h "recover" r → MayChange h r

token_lem :
    (token path header : String)
    → str_eq path "/healthz" ≡ false
    → is_authorized token path header ≡ true
    → (token ≡ "") ⊎ (header ≡ "Bearer " +++ token)
unfolding is_authorized
token_lem token path header n h = elim (Bool-cases (str_eq token "")) [
  | inl p ↦ inl ((str_eq_iff token "").0 p)
  | inr p ↦ elim (Bool-cases (str_eq header ("Bearer " +++ token))) [
    | inl q ↦ inr ((str_eq_iff header ("Bearer " +++ token)).0 q)
    | inr q ↦ let k = rw (p, n, q) at h in cc
  ]
]

module _ (h : Handler) (r : Request)
    (allowed : is_authorized h.api_token (url_path r.path) r.authorization ≡ true) where
  IsPosted-decode {ℓ} :
      {A : Type ℓ} (parse : Stream → Result (A × List ℕ)) (request : A) (name a b : String)
      → str_eq (url_path ("v1" ∷ "actions" ∷ name ∷ [])) "/healthz" ≡ false
      → r.path ≡ "v1" ∷ a ∷ b ∷ []
      → (str_eq r.method "POST" ≡ true) × (str_eq a "actions" ≡ true) × (str_eq b name ≡ true)
      → decode parse r.body ≡ ok request
      → IsPosted parse h name r
  IsPosted-decode parse request name a b n p (m, q, q') d =
      let first : a ≡ "actions" = (str_eq_iff a "actions").0 q in
      let second : b ≡ name = (str_eq_iff b name).0 q' in
      let path : r.path ≡ "v1" ∷ "actions" ∷ name ∷ [] = cc in
      record {
        token = token_lem h.api_token (url_path r.path) r.authorization (rw path n) allowed;
        method = (str_eq_iff r.method "POST").0 m;
        path = path;
        request = request;
        body = decode-IsOneValue parse r.body d;
      }

  module _ (J : Journal) (ctx : Context) (s : Site J) (a b : String)
      (path : r.path ≡ "v1" ∷ a ∷ b ∷ []) where
    routed-MayChange :
        (x : Route)
        → route_v1 r.method a b ≡ x
        → ((routed J h ctx r.body x s).1 ≡ s) ⊎ MayChange h r
    unfolding routed on_world on_verify_world execute_handler recover_handler verify_handler
        url_path
    routed-MayChange Route.to_execute e = elim (Result-cases (decode h.parse_execute r.body)) [
      | inl (_, p) ↦ inl (rw p refl)
      | inr (q, p) ↦ inr (
          MayChange.executes (
            IsPosted-decode h.parse_execute q "execute" a b refl path
              (route_v1-execute r.method a b e) p))
    ]
    routed-MayChange Route.to_verify e = elim (Result-cases (decode h.parse_execute r.body)) [
      | inl (_, p) ↦ inl (rw p refl)
      | inr (q, p) ↦ inr (
          MayChange.verifies (
            IsPosted-decode h.parse_execute q "verify" a b refl path
              (route_v1-verify r.method a b e) p))
    ]
    routed-MayChange Route.to_recover e = elim (Result-cases (decode h.parse_recover r.body)) [
      | inl (_, p) ↦ inl (rw p refl)
      | inr (q, p) ↦ inr (
          MayChange.recovers (
            IsPosted-decode h.parse_recover q "recover" a b refl path
              (route_v1-recover r.method a b e) p))
    ]
    routed-MayChange Route.to_scan e = inl refl
    routed-MayChange Route.to_health e = inl refl
    routed-MayChange (Route.to_get id) e = inl refl
    routed-MayChange Route.method_not_allowed e = inl refl
    routed-MayChange Route.not_found e = inl refl

routed_unchanged :
    (J : Journal) (h : Handler) (ctx : Context) (body : Stream) (x : Route) (s : Site J)
    → changes x ≡ false
    → (routed J h ctx body x s).1 ≡ s
unfolding routed changes
routed_unchanged J h ctx body Route.to_execute s n = cc
routed_unchanged J h ctx body Route.to_verify s n = cc
routed_unchanged J h ctx body Route.to_recover s n = cc
routed_unchanged J h ctx body Route.to_scan s n = refl
routed_unchanged J h ctx body Route.to_health s n = refl
routed_unchanged J h ctx body (Route.to_get id) s n = refl
routed_unchanged J h ctx body Route.method_not_allowed s n = refl
routed_unchanged J h ctx body Route.not_found s n = refl

-- Only a POST to /v1/actions/execute, verify or recover may change the journal or call a port: one
-- with the token, where there is one, whose body ends without a failure within 2 ^ 20 bytes and is
-- one JSON value of the request and white space. Any other request leaves all as it is.
pub serve-MayChange :
    (J : Journal) (h : Handler) (ctx : Context) (r : Request) (s : Site J)
    → ((serve J h ctx r s).1 ≡ s) ⊎ MayChange h r
unfolding serve
serve-MayChange J h ctx r s =
    elim (Bool-cases (is_authorized h.api_token (url_path r.path) r.authorization)) [
      | inr p ↦ inl (rw p refl)
      | inl p ↦ elim (Bool-cases (changes (route r.method r.path))) [
        | inr q ↦ inl (rw p (routed_unchanged J h ctx r.body (route r.method r.path) s q))
        | inl q ↦
            let (a, b, path, e) = route-v1 r.method r.path q in
            rw p (routed-MayChange h r p J ctx s a b path (route r.method r.path) (sym e))
      ]
    ]
