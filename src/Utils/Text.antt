-- ===== src/Utils/Text.antt =====
-- Text for the logs, of src/utils/string.h.
use mod_security.Prelude.{
  Bool, [], if◌then◌else◌, length, ltb, take, ℕ, ◌&&◌, ◌++◌, ◌-◌, ◌==◌, ◌||◌, ◌∷◌,
}
use mod_security.Prelude.Bytes.{Bytes}
use mod_security.Prelude.Text.{codes}
use mod_security.Utils.Hex.{c2x}
use mod_security.Utils.Number.{to_string}

unfoldable pub limit_to : ℕ → Bytes → Bytes
unfolding to_string
limit_to amount str =
    if ltb amount (length str)
    then take amount str
      ++ (codes " (" ++ (to_string (length str - amount) ++ codes " characters omitted)"))
    else str

-- what toHexIfNeeded writes for one byte
unfoldable pub hex_if_needed : Bool → ℕ → Bytes
unfolding c2x
hex_if_needed escape_spec c =
    if ltb c 32 || ltb 126 c || escape_spec && (c == 34 || c == 92)
    then b'\\' ∷ b'x' ∷ c2x c
    else c ∷ []

unfoldable pub to_hex_if_needed : Bool → Bytes → Bytes
unfolding hex_if_needed
to_hex_if_needed escape_spec [] = []
to_hex_if_needed escape_spec (c ∷ cs) =
    hex_if_needed escape_spec c ++ to_hex_if_needed escape_spec cs
