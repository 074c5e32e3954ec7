-- ===== src/Core/Identity.antt =====
-- validateIdentity, validateText and cloneBytes of action.go.
use atoha.Prelude.{ℕ, String, Option, none, some, List, [], ◌∷◌, ◌++◌, not, str_eq, if◌then◌else◌}
use atoha.Prelude.Text.{trim_space}
use atoha.Errors.{Error, message, text}

unfoldable pub validate_text : String → String → Option Error
validate_text name value =
    if str_eq value ""
    then some (message "%s is required" (text name ∷ []))
    else if not (str_eq value (trim_space value))
    then some (message "%s must not have leading or trailing whitespace" (text name ∷ []))
    else none

unfoldable pub validate_identity : String → String → Option Error
unfolding validate_text
validate_identity name value = validate_text name value

-- append([]byte(nil), value...): the copy holds the same bytes. A slice is its bytes here, so that
-- nil and the empty slice are one.
unfoldable pub clone_bytes : List ℕ → List ℕ
clone_bytes value = [] ++ value
