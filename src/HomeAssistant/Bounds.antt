-- ===== src/HomeAssistant/Bounds.antt =====
-- How much of a response readLimited of provider/homeassistant/client.go keeps.
use atoha.Prelude.{ℕ, zero, suc, ◌+◌, ◌≤◌, ◌<◌, ◌^◌, ◌≡◌, none, some, List, [], ◌∷◌, arith}
use atoha.Prelude.Lists.{length}
use atoha.Errors.{sentinel, response_too_large}
use atoha.Streams.{Stream, take}
use atoha.HomeAssistant.Client.{read_up_to, limited, read_within, read_limited, max_response_size}

length-take : {A : Type 0} (n : ℕ) (xs : List A) → length (take n xs) ≤ n
length-take zero xs = omega arith
length-take (suc n) [] = omega arith
length-take (suc n) (x ∷ xs) = omega (arith, length-take n xs)

length-take_le : {A : Type 0} (n : ℕ) (xs : List A) → n ≤ length xs → length (take n xs) ≡ n
length-take_le zero xs h = omega arith
length-take_le (suc n) [] h = omega arith
length-take_le (suc n) (x ∷ xs) h = omega (arith, length-take_le n xs)

module _ (most : ℕ) (s : Stream) where
  within : length (read_within most s).0 ≤ most
  unfolding read_within read_up_to limited
  within = ground (arith, length-take most s.bytes, length-take most (take (most + 1) s.bytes))

  whole : (read_within most s).1 ≡ none → ((read_within most s).0 ≡ s.bytes) × (s.failure ≡ none)
  unfolding read_within read_up_to limited
  whole h = ground (arith, length-take_le (most + 1) s.bytes)

  too_large : most < length s.bytes → (read_within most s).1 ≡ some (sentinel response_too_large)
  unfolding read_within read_up_to limited
  too_large h = ground (arith, length-take_le (most + 1) s.bytes)

-- What is kept of a response is 2 ^ 20 bytes at most. Without an error it is the whole response,
-- which has ended; and a response of more bytes is refused as too large.
pub read_limited_lem :
    (s : Stream)
    → (length (read_limited s).0 ≤ 2 ^ 20)
      × ((read_limited s).1 ≡ none → ((read_limited s).0 ≡ s.bytes) × (s.failure ≡ none))
      × (2 ^ 20 < length s.bytes → (read_limited s).1 ≡ some (sentinel response_too_large))
unfolding read_limited
read_limited_lem s =
    (within max_response_size s, whole max_response_size s, too_large max_response_size s)
