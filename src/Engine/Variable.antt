-- ===== src/Engine/Variable.antt =====
-- Variables and their values: headers/modsecurity/variable_value.h, variable_origin.h, the class
-- Variables of src/variables/variable.h, and src/run_time_string.cc.
use mod_security.Engine.State.{Transaction}
use mod_security.Prelude.{Bool, List, Option, [], false, none, some, ℕ, ◌&&◌, ◌++◌, ◌||◌, ◌∷◌}
use mod_security.Prelude.Bytes.{Bytes, str_eq}
use mod_security.Utils.Number.{to_string}

pub record VariableOrigin : Type 0 where
  pub origin_length : ℕ
  pub offset : ℕ

unfoldable pub origin_to_text : VariableOrigin → Bytes
unfolding to_string
origin_to_text o = b'v' ∷ (to_string o.offset ++ b',' ∷ to_string o.origin_length)

pub record VariableValue : Type 0 where
  pub origins : List VariableOrigin
  pub collection : Bytes
  pub key : Bytes
  pub key_with_collection : Bytes
  pub value : Bytes

-- the texts of all origins, one after the other
unfoldable pub origins_text : List VariableOrigin → Bytes
unfolding origin_to_text
origins_text [] = []
origins_text (o ∷ os) = origin_to_text o ++ origins_text os

-- A variable as its class makes it: `evaluate_variable` lists its values, and leaves the transaction
-- as it is (a look-up in a collection also deletes what has expired there, which is not done here);
-- and `key_regex`, there for a VariableRegex, says whether `Regex::searchAll` finds something in a
-- key. PCRE is not part of the sources.
pub record Variable (S : Type 0) : Type 0 where
  pub collection_name : Bytes
  pub name : Bytes
  pub full_name : Bytes
  pub key_regex : Option (Bytes → Bool)
  pub evaluate_variable : Transaction S → List VariableValue

module _ {S : Type 0} where
  -- `==` of two variables
  unfoldable pub variable_eq : Variable S → Variable S → Bool
  variable_eq a b =
      str_eq a.collection_name b.collection_name
      && (str_eq a.name b.name && str_eq a.full_name b.full_name)

  -- Variables::contains(const Variable *)
  unfoldable pub contains_variable : List (Variable S) → Variable S → Bool
  unfolding variable_eq
  contains_variable [] v = false
  contains_variable (m ∷ ms) v = variable_eq v m || contains_variable ms v

  -- the test of Variables::contains(const VariableValue *)
  unfoldable pub covers_value : Variable S → VariableValue → Bool
  covers_value m v = elim m.key_regex [
    | none ↦ str_eq v.key_with_collection m.full_name
    | some search ↦ search v.key
  ]

  -- Variables::contains(const VariableValue *)
  unfoldable pub contains_value : List (Variable S) → VariableValue → Bool
  unfolding covers_value
  contains_value [] v = false
  contains_value (m ∷ ms) v = covers_value m v || contains_value ms v

-- A string with macros, in its pieces.
pub data RunTimeElement (S : Type 0) : Type 0 where
  text : Bytes → RunTimeElement S
  macro : Variable S → RunTimeElement S

abbrev pub RunTimeString : Type 0 → Type 0
RunTimeString S = List (RunTimeElement S)

-- the value of the first result, if there is one
unfoldable pub first_value : List VariableValue → Bytes
first_value [] = []
first_value (v ∷ vs) = v.value

module _ {S : Type 0} where
  -- RunTimeString::evaluate, at a transaction
  unfoldable pub expand : RunTimeString S → Transaction S → Bytes
  unfolding first_value
  expand [] t = []
  expand (text s ∷ rest) t = s ++ expand rest t
  expand (macro v ∷ rest) t = first_value (v.evaluate_variable t) ++ expand rest t

  -- RunTimeString::evaluate(NULL): macros are left out
  unfoldable pub expand_text : RunTimeString S → Bytes
  expand_text [] = []
  expand_text (text s ∷ rest) = s ++ expand_text rest
  expand_text (macro v ∷ rest) = expand_text rest
