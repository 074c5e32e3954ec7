-- ===== src/Streams.antt =====
-- An io.Reader: the bytes that it gives, and the error that ends them, or none at the end of file.
use atoha.Prelude.{ℕ, zero, suc, Option, List, [], ◌∷◌}
use atoha.Errors.{Error}

pub record Stream : Type 0 where
  pub bytes : List ℕ
  pub failure : Option Error

abbrev pub take {ℓ} : {A : Type ℓ} → ℕ → List A → List A
take zero xs = []
take (suc n) [] = []
take (suc n) (x ∷ xs) = x ∷ take n xs
