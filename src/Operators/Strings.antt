-- ===== src/Operators/Strings.antt =====
-- @beginsWith, @endsWith, @contains, @within and @streq, with the parameter expanded.
pub mod Found
use mod_security.Prelude.{
  Bool, List, Option, [], drop, false, if◌then◌else◌, leb, length, ltb, none, some, take, true, ℕ,
  ◌+◌, ◌-◌, ◌==◌, ◌∷◌,
}
use mod_security.Prelude.Bytes.{Bytes, str_eq}
use mod_security.Utils.Replace.{starts_with}

-- The answer, and the calls of logOffset.
pub record Answer : Type 0 where
  pub is_match : Bool
  pub offsets : List (ℕ × ℕ)

abbrev pub no_match : Answer
no_match = record { is_match = false; offsets = [] }

abbrev pub match_at : ℕ → ℕ → Answer
match_at offset len = record { is_match = true; offsets = (offset, len) ∷ [] }

-- std::string::find, from the start
unfoldable pub find : Bytes → Bytes → Option ℕ
unfolding starts_with
find p [] = if length p == 0 then some 0 else none
find p (c ∷ str) =
    let later : Option ℕ = elim (find p str) [ some i ↦ some (i + 1) | none ↦ none ] in
    if starts_with p (c ∷ str) then some 0 else later

-- BeginsWith::evaluate
unfoldable pub begins_with : Bytes → Bytes → Answer
unfolding str_eq
begins_with p str =
    if ltb (length str) (length p)
    then no_match
    else if str_eq (take (length p) str) p
    then match_at 0 (length p)
    else no_match

-- EndsWith::evaluate
unfoldable pub ends_with : Bytes → Bytes → Answer
unfolding str_eq
ends_with p str =
    let at = length str - length p in
    if leb (length p) (length str)
    then if str_eq (take (length p) (drop at str)) p then match_at at (length p) else no_match
    else no_match

-- The answer for a search with that result.
abbrev pub found_at : Option ℕ → ℕ → Answer
found_at none len = no_match
found_at (some offset) len = match_at offset len

-- Contains::evaluate. The parameter is also pushed to m_matched where it is found.
unfoldable pub contains : Bytes → Bytes → Answer
unfolding find
contains p input = found_at (find p input) (length p)

-- Within::evaluate
unfoldable pub within_string : Bytes → Bytes → Answer
unfolding find
within_string param_target [] = record { is_match = true; offsets = [] }
within_string param_target (c ∷ str) = found_at (find (c ∷ str) param_target) (length (c ∷ str))

-- StrEq::evaluate
unfoldable pub streq : Bytes → Bytes → Answer
unfolding str_eq
streq pt str = record { is_match = str_eq pt str; offsets = [] }
