-- ===== src/Request/Arguments/Extract.antt =====
-- The arguments of a form-encoded string, and their limit.
use mod_security.Prelude.{
  Bool, List, Option, Option-cases, [], arith, if_ind, if_ind_eq, inl, inr, leb, length,
  length-append, ltb, none, refl, some, subst, true, ℕ, ◌++◌, ◌+◌, ◌∷◌, ◌≡◌, ◌≤◌,
}
use mod_security.Prelude.Bytes.{Bytes}
use mod_security.Request.Arguments.{
  Argument, ArgumentConfig, ArgumentState, add_argument, extract_arguments, extract_fields,
  over_arguments_limit,
}
use mod_security.Transformation.Url.{urldecode_nonstrict_inplace}
use mod_security.Utils.Split.{ssplit, ssplit_pair}

-- No more arguments than the limit.
abbrev pub WithinLimit : Option ℕ → ArgumentState → Type 0
WithinLimit none s = Unit
WithinLimit (some limit) s = length s.args ≤ limit

length-push : (l : List Argument) (a : Argument) → length (l ++ a ∷ []) ≡ length l + 1
length-push l a = length-append l (a ∷ [])

add_argument-WithinLimit :
    (config : ArgumentConfig) (orig key value : Bytes) (offset : ℕ) (s : ArgumentState)
    → WithinLimit config.arguments_limit s
    → WithinLimit config.arguments_limit (add_argument config orig key value offset s).0
unfolding add_argument over_arguments_limit
add_argument-WithinLimit config orig key value offset s h =
    elim (Option-cases config.arguments_limit) [
      | inl z ↦ rw z tt
      | inr (n, z) ↦
          let k : length s.args ≤ n = subst (λ o. WithinLimit o s) z h in
          let a : Argument = record {
            argument_key = key;
            argument_value = value;
            argument_offset = offset + length key + 1;
          } in
          let longer = length-push s.args a in
          rw z (
            if_ind_eq (λ (r : ArgumentState × Bool). length r.0.args ≤ n) (leb n (length s.args))
              (λ e. k) (λ e. ground (arith, longer)))
    ]

extract_fields-WithinLimit :
    (config : ArgumentConfig) (orig : Bytes) (l : List Bytes) (offset : ℕ) (s : ArgumentState)
    → WithinLimit config.arguments_limit s
    → WithinLimit config.arguments_limit (extract_fields config orig l offset s)
unfolding extract_fields
extract_fields-WithinLimit config orig [] offset s h = h
extract_fields-WithinLimit config orig (t ∷ rest) offset s h =
    let key = urldecode_nonstrict_inplace (ssplit_pair t b'=').0 in
    let value = urldecode_nonstrict_inplace (ssplit_pair t b'=').1 in
    let P = WithinLimit config.arguments_limit in
    let h' = if_ind P (ltb 0 value.final) (same (record s { url_encoded_error = true }) refl) h in
    extract_fields-WithinLimit config orig rest (offset + length t + 1) _
      (add_argument-WithinLimit config orig key.value value.value offset _ h')
  where
    same : (s' : ArgumentState) → s'.args ≡ s.args → WithinLimit config.arguments_limit s'
    same s' e = elim (Option-cases config.arguments_limit) [
      | inl z ↦ rw z tt
      | inr (n, z) ↦ rw z (rw e (subst (λ o. WithinLimit o s) z h))
    ]

-- However many arguments a query or a form has, ARGS never has more than SecArgumentsLimit, where it
-- had no more before.
pub extract_arguments-WithinLimit :
    (config : ArgumentConfig) (orig buf : Bytes) (offset : ℕ) (s : ArgumentState)
    → WithinLimit config.arguments_limit s
    → WithinLimit config.arguments_limit (extract_arguments config orig buf offset s)
unfolding extract_arguments
extract_arguments-WithinLimit config orig buf offset s h =
    let sep1 : ℕ = elim config.argument_separator [ some c ↦ c | none ↦ b'&' ] in
    extract_fields-WithinLimit config orig (ssplit buf sep1) offset s h
