-- ===== src/Server/Startup.antt =====
-- What the configuration that loadConfig (cmd/atoha-server/main.go) returns is known to be.
use atoha.Prelude.{
  ℕ, ◌<◌, String, ◌≡◌, refl, sym, ap, ◌∙◌, subst, Bool, true, false, ◌||◌, Bool-cases, inl, inr,
  List, [], ◌∷◌, ◌⊎◌, arith, str_eq, str_eq_iff, Option, none, some,
}
use atoha.Errors.{Result, ok, err, Result-cases}
use atoha.Server.{
  Environment, Config, positive, checked_bindings, loopback_address, loopback_host, is_loopback,
  duration_or, check_token, with_age, with_timeout, with_bindings, initial, checked_home,
  load_config,
}
use atoha.HomeAssistant.Verifier.{new_state_verifier}

abbrev is_empty : {A : Type 0} → List A → Bool
is_empty [] = true
is_empty (x ∷ xs) = false

-- The host of the address is named localhost, or is an IP address that is a loopback one.
pub record IsLoopback (V : Environment) (address : String) : Type 0 where
  pub host : String
  pub splits : V.split_host_port address ≡ ok host
  pub local : (host ≡ "localhost") ⊎ (V.parse_ip host ≡ some true)

-- A configuration that the server may start with.
pub record IsSafe (V : Environment) (c : Config) : Type 0 where
  pub url : str_eq c.home_assistant_url "" ≡ false
  pub token : str_eq c.home_assistant_token "" ≡ false
  pub bound : is_empty c.bindings ≡ false
  pub timeout : 0 < c.provider_timeout
  pub age : 0 < c.verification_max_age
  pub guarded : (str_eq c.api_token "" ≡ false) ⊎ IsLoopback V c.listen_address

is_loopback-true : (o : Option Bool) → is_loopback o ≡ true → o ≡ some true
unfolding is_loopback
is_loopback-true none h = cc
is_loopback-true (some b) h = ap some h

module _ (V : Environment) where
  loopback_address-IsLoopback :
      (address : String) → loopback_address V address ≡ true → IsLoopback V address
  unfolding loopback_address loopback_host
  loopback_address-IsLoopback address h = elim (Result-cases (V.split_host_port address)) [
    | inl (e, p) ↦ let k = rw p at h in cc
    | inr (host, p) ↦ elim (Bool-cases (str_eq host "localhost")) [
      | inl q ↦ record { host = host; splits = p; local = inl ((str_eq_iff host "localhost").0 q) }
      | inr q ↦ record {
        host = host;
        splits = p;
        local = inr (is_loopback-true (V.parse_ip host) (rw (p, q) at h));
      }
    ]
  ]

  guarded-IsLoopback :
      (c : Config)
      → (str_eq c.api_token "" ≡ false) ⊎ (loopback_address V c.listen_address ≡ true)
      → (str_eq c.api_token "" ≡ false) ⊎ IsLoopback V c.listen_address
  guarded-IsLoopback c (inl h) = inl h
  guarded-IsLoopback c (inr h) = inr (loopback_address-IsLoopback c.listen_address h)

  duration_or-positive :
      (value : String) (fallback : ℕ) (name : String) {n : ℕ}
      → 0 < fallback
      → duration_or V value fallback name ≡ ok n
      → 0 < n
  unfolding duration_or positive
  duration_or-positive value fallback name p h = ground arith

  checked_bindings-filled :
      (r : Result (List (String × List ℕ))) {bs : List (String × List ℕ)}
      → checked_bindings r ≡ ok bs
      → is_empty bs ≡ false
  unfolding checked_bindings
  checked_bindings-filled r h = ground arith

  check_token-guarded :
      (c : Config) {d : Config}
      → check_token V c ≡ ok d
      → (d ≡ c) × ((str_eq c.api_token "" ≡ false) ⊎ (loopback_address V c.listen_address ≡ true))
  unfolding check_token
  check_token-guarded c h = elim (Bool-cases (str_eq c.api_token "")) [
    | inr p ↦ (ground arith, inl p)
    | inl p ↦ elim (Bool-cases (loopback_address V c.listen_address)) [
      | inl q ↦ (ground arith, inr q)
      | inr q ↦ let k = rw (p, q) at h in cc
    ]
  ]

  with_age-safe :
      (c : Config) (r : Result ℕ) {d : Config}
      → with_age V c r ≡ ok d
      → (n : ℕ) × (r ≡ ok n)
        × (d ≡ record c { verification_max_age = n })
        × ((str_eq c.api_token "" ≡ false) ⊎ (loopback_address V c.listen_address ≡ true))
  unfolding with_age
  with_age-safe c (err e) h = cc
  with_age-safe c (ok n) h =
      let (same, guarded) = check_token-guarded (record c { verification_max_age = n }) h in
      (n, refl, same, guarded)

  -- The values that the environment may leave as they are, and what else is known.
  record Filled (c d : Config) : Type 0 where
    timeout : 0 < d.provider_timeout
    age : 0 < d.verification_max_age
    bound : is_empty d.bindings ≡ false
    same_url : d.home_assistant_url ≡ c.home_assistant_url
    same_token : d.home_assistant_token ≡ c.home_assistant_token
    guarded : (str_eq d.api_token "" ≡ false) ⊎ (loopback_address V d.listen_address ≡ true)

  with_timeout-Filled :
      (c : Config) (r : Result ℕ) {d : Config}
      → ((n : ℕ) → r ≡ ok n → 0 < n)
      → 0 < c.verification_max_age
      → is_empty c.bindings ≡ false
      → with_timeout V c r ≡ ok d
      → Filled c d
  unfolding with_timeout
  with_timeout-Filled c (err e) p a b h = cc
  with_timeout-Filled c (ok n) {d} p a b h =
      let (m, is_m, same, guarded) = with_age-safe (record c { provider_timeout = n }) _ h in
      subst (Filled c) (sym same) (record {
        timeout = p n refl;
        age = duration_or-positive _ _ _ a is_m;
        bound = b;
        same_url = refl;
        same_token = refl;
        guarded = guarded;
      })

  with_bindings-Filled :
      (c : Config) (r : Result (List (String × List ℕ))) {d : Config}
      → ((bs : List (String × List ℕ)) → r ≡ ok bs → is_empty bs ≡ false)
      → 0 < c.provider_timeout
      → 0 < c.verification_max_age
      → with_bindings V c r ≡ ok d
      → Filled c d
  unfolding with_bindings
  with_bindings-Filled c (err e) b t a h = cc
  with_bindings-Filled c (ok bs) b t a h =
      let f =
        with_timeout-Filled (record c { bindings = bs }) _ (λ n q. duration_or-positive _ _ _ t q) a
          (b bs refl) h in
      record {
        timeout = f.timeout;
        age = f.age;
        bound = f.bound;
        same_url = f.same_url;
        same_token = f.same_token;
        guarded = f.guarded;
      }

  checked_home-IsSafe :
      (c : Config) {d : Config}
      → 0 < c.provider_timeout
      → 0 < c.verification_max_age
      → checked_home V c ≡ ok d
      → IsSafe V d
  unfolding checked_home
  checked_home-IsSafe c {d} t a h =
      elim (Bool-cases (str_eq c.home_assistant_url "" || str_eq c.home_assistant_token "")) [
        | inl p ↦ let k = rw p at h in cc
        | inr p ↦
            let f =
              with_bindings-Filled c _ (λ bs q. checked_bindings-filled _ q) t a (rw p at h) in
            record {
              url = ap (λ z. str_eq z "") f.same_url ∙ ground arith;
              token = ap (λ z. str_eq z "") f.same_token ∙ ground arith;
              bound = f.bound;
              timeout = f.timeout;
              age = f.age;
              guarded = guarded-IsLoopback d f.guarded;
            }
      ]

-- A configuration that loadConfig returns names Home Assistant and its token, binds some target, and
-- has positive durations, and it has an API token unless the host of the address that the server
-- listens on is localhost or a loopback IP address.
pub load_config-IsSafe : (V : Environment) {c : Config} → load_config V ≡ ok c → IsSafe V c
unfolding load_config initial
load_config-IsSafe V h = checked_home-IsSafe V (initial V) (omega arith) (omega arith) h

-- The verifier that the server makes of it is not refused.
pub new_state_verifier-load_config :
    (V : Environment) {c : Config}
    → load_config V ≡ ok c
    → new_state_verifier c.verification_max_age ≡ ok (record { max_age = c.verification_max_age })
unfolding new_state_verifier
new_state_verifier-load_config V h = let s = load_config-IsSafe V h in ground (arith, s.age)
