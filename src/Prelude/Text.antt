-- ===== src/Prelude/Text.antt =====
-- strings.TrimSpace of Go's library, on the characters of a text.
use Prim.Native.Nat.{ℕ, zero, suc, ◌/◌, ◌%◌, compare, Ordering}
use Prim.Native.Char.{Char, code}
use Prim.Native.String.{String, ◌++◌}
use mathlib.Core.Path.{◌≡◌, refl}
use mathlib.Core.Bool.{Bool, true, false, ◌||◌}
use mathlib.Core.List.{List, [], ◌∷◌}

abbrev pub codes : String → List ℕ
codes String.[] = []
codes (String.◌∷◌ c s) = code c ∷ codes s

between : ℕ → ℕ → ℕ → Bool
between lo hi c = elim (compare lo c) [
  | Ordering.gt ↦ false
  | _ ↦ elim (compare c hi) [ Ordering.gt ↦ false | _ ↦ true ]
]

-- unicode.IsSpace: tab to carriage return, space, NEL, NBSP and the Zs, Zl and Zp characters.
unfoldable pub is_space : ℕ → Bool
unfolding between
is_space c =
    between 9 13 c
    || between 32 32 c
    || between 0x85 0x85 c
    || between 0xa0 0xa0 c
    || between 0x1680 0x1680 c
    || between 0x2000 0x200a c
    || between 0x2028 0x2029 c
    || between 0x202f 0x202f c
    || between 0x205f 0x205f c
    || between 0x3000 0x3000 c

pub trim_left : String → String
trim_left String.[] = String.[]
trim_left (String.◌∷◌ c s) =
    let rest = trim_left s in elim (is_space (code c)) [ true ↦ rest | false ↦ String.◌∷◌ c s ]

-- A character at the right end stays, unless it and all that follows is white space.
keep_right : Char → String → String
keep_right c String.[] = elim (is_space (code c)) [
  | true ↦ String.[]
  | false ↦ String.◌∷◌ c String.[]
]
keep_right c (String.◌∷◌ d s) = String.◌∷◌ c (String.◌∷◌ d s)

pub trim_right : String → String
trim_right String.[] = String.[]
trim_right (String.◌∷◌ c s) = keep_right c (trim_right s)

unfoldable pub trim_space : String → String
unfolding trim_left trim_right keep_right is_space
trim_space s = trim_right (trim_left s)

trim_space_both : trim_space " a b\t\n" ≡ "a b"
unfolding trim_space
trim_space_both = refl

-- The digit of a number below ten.
digit : ℕ → Char
digit zero = "0"
digit (suc zero) = "1"
digit (suc (suc zero)) = "2"
digit (suc (suc (suc zero))) = "3"
digit (suc (suc (suc (suc zero)))) = "4"
digit (suc (suc (suc (suc (suc zero))))) = "5"
digit (suc (suc (suc (suc (suc (suc zero)))))) = "6"
digit (suc (suc (suc (suc (suc (suc (suc zero))))))) = "7"
digit (suc (suc (suc (suc (suc (suc (suc (suc zero)))))))) = "8"
digit (suc (suc (suc (suc (suc (suc (suc (suc more)))))))) = "9"

decimal_from : ℕ → ℕ → String → String
decimal_from zero n rest = rest
decimal_from (suc fuel) n rest =
    let shown = String.◌∷◌ (digit (n % 10)) rest in
    let more = decimal_from fuel (n / 10) shown in
    elim (compare n 10) [ Ordering.lt ↦ shown | _ ↦ more ]

-- `%d` of a uint8, which has three digits at most.
unfoldable pub decimal : ℕ → String
unfolding decimal_from digit
decimal n = decimal_from 3 n String.[]

decimal_digits : decimal 207 ≡ "207"
unfolding decimal
decimal_digits = refl

decimal_zero : decimal 0 ≡ "0"
unfolding decimal
decimal_zero = refl

-- fmt.Sprintf("Name(%d)", n)
unfoldable pub labelled : String → ℕ → String
unfolding decimal
labelled name n = name ++ "(" ++ decimal n ++ ")"

labelled_text : labelled "AdmissionStatus" 7 ≡ "AdmissionStatus(7)"
unfolding labelled
labelled_text = refl
