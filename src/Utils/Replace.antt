-- ===== src/Utils/Replace.antt =====
-- replaceAll, of src/utils/string.h.
use mod_security.Prelude.{
  Bool, [], false, if◌then◌else◌, length, suc, true, zero, ℕ, ◌&&◌, ◌++◌, ◌-◌, ◌==◌, ◌∷◌,
}
use mod_security.Prelude.Bytes.{Bytes}

unfoldable pub starts_with : Bytes → Bytes → Bool
starts_with [] str = true
starts_with (c ∷ from) [] = false
starts_with (c ∷ from) (d ∷ str) = c == d && starts_with from str

-- The scan from the left, with `passed` bytes of an occurrence still to be passed over. `from` is not
-- empty wherever it is called.
unfoldable pub replace_from : Bytes → Bytes → ℕ → Bytes → Bytes
unfolding starts_with
replace_from from to passed [] = []
replace_from from to (suc passed) (c ∷ str) = replace_from from to passed str
replace_from from to zero (c ∷ str) =
    let replaced = replace_from from to (length from - 1) str in
    let kept = replace_from from to 0 str in
    if starts_with from (c ∷ str) then to ++ replaced else c ∷ kept

unfoldable pub replace_all : Bytes → Bytes → Bytes → Bytes
unfolding replace_from
replace_all str from to = replace_from from to 0 str
