-- ===== src/Request/Anchored.antt =====
-- AnchoredVariable (src/anchored_variable.cc) and AnchoredSetVariable
-- (src/anchored_set_variable.cc): values that know where they stand in the request.
use mod_security.Engine.Variable.{VariableOrigin}
use mod_security.Prelude.{
  Bool, List, Option, [], false, if◌then◌else◌, length, map, none, some, true, ℕ, ◌++◌, ◌∷◌,
}
use mod_security.Prelude.Bytes.{Bytes, str_eq}
use mod_security.Utils.Ctype.{tolower}

-- AnchoredVariable, with the origins that were added to its value.
pub record AnchoredVariable : Type 0 where
  pub anchored_value : Bytes
  pub anchored_offset : ℕ
  pub anchored_origins : List VariableOrigin

abbrev pub new_anchored : AnchoredVariable
new_anchored = record { anchored_value = []; anchored_offset = 0; anchored_origins = [] }

-- `set` with a length of its own
unfoldable pub set_anchored : Bytes → ℕ → ℕ → AnchoredVariable → AnchoredVariable
set_anchored a offset offset_len v = record {
  anchored_value = a;
  anchored_offset = offset;
  anchored_origins =
      v.anchored_origins ++ record { origin_length = offset_len; offset = offset } ∷ [];
}

-- `set` with the length of the value
unfoldable pub set_value : Bytes → ℕ → AnchoredVariable → AnchoredVariable
unfolding set_anchored
set_value a offset v = set_anchored a offset (length a) v

unfoldable pub is_empty : Bytes → Bool
is_empty [] = true
is_empty (c ∷ cs) = false

-- A member of an AnchoredSetVariable, with the one origin that `set` gives it.
pub record SetEntry : Type 0 where
  pub entry_key : Bytes
  pub entry_value : Bytes
  pub entry_origin : VariableOrigin

-- The members in the order in which they were set.
abbrev pub AnchoredSet : Type 0
AnchoredSet = List SetEntry

unfoldable pub set_entry : Bytes → Bytes → ℕ → AnchoredSet → AnchoredSet
set_entry key value offset l =
    l
    ++ record {
      entry_key = key;
      entry_value = value;
      entry_origin = record { origin_length = length value; offset = offset };
    }
      ∷ []

-- MyEqual: the keys are compared without case.
unfoldable pub same_key : Bytes → Bytes → Bool
unfolding tolower str_eq
same_key a b = str_eq (map tolower a) (map tolower b)

-- resolveFirst, on the members in the order of the table
unfoldable pub resolve_first : Bytes → AnchoredSet → Option Bytes
unfolding same_key
resolve_first key [] = none
resolve_first key (e ∷ rest) =
    if same_key e.entry_key key then some e.entry_value else resolve_first key rest
