-- ===== src/Engine/Flow.antt =====
-- The order in which a phase goes through its rules: skipAfter, skip, allow, interception, removed
-- rules.
use mod_security.Engine.Rule.{Rule, RulesConfig, marker_rule, script, unconditional, with_operator}
use mod_security.Engine.RulesSet.{run_rules, step_rule}
use mod_security.Engine.State.{Transaction, none_allow_type}
use mod_security.Prelude.{
  Bool-cases, List, [], ap, arith, false, inl, inr, length, none, refl, some, suc, true, ℕ, ◌++◌,
  ◌∷◌, ◌≡◌, ◌≢◌,
}
use mod_security.Prelude.Bytes.{All, Bytes, str_eq_iff}
use mod_security.Prelude.Int.{pos, ◌-ℤ◌, ◌≤ℤ◌}

-- The rule is no SecMarker of that name.
abbrev pub IsOtherRule : {S : Type 0} → Bytes → Rule S → Type 0
IsOtherRule name (marker_rule n) = name ≢ n
IsOtherRule name _ = Unit

-- The rule is no SecMarker.
abbrev pub HasActions : {S : Type 0} → Rule S → Type 0
HasActions (marker_rule n) = ⊥
HasActions _ = Unit

module _ {S : Type 0} (config : RulesConfig S) where
  step-inside_marker :
      (rule : Rule S) (name : Bytes) (t : Transaction S)
      → t.marker ≡ some name
      → IsOtherRule name rule
      → step_rule config rule t ≡ (t, false)
  unfolding step_rule
  step-inside_marker (marker_rule n) name t e o = ground (arith, str_eq_iff name n)
  step-inside_marker _ name t e o = ground arith

  -- Inside a skipAfter the rules before its marker change nothing, and the marker ends it: where no
  -- rule of `before'` is a marker of the name, running them, the marker and what follows is to run
  -- what follows with the marker taken off.
  pub skip_after_reaches_marker :
      (before' after' : List (Rule S)) (name : Bytes) (t : Transaction S)
      → t.marker ≡ some name
      → All (IsOtherRule name) before'
      → run_rules config (before' ++ marker_rule name ∷ after') t
        ≡ run_rules config after' (record t { marker = none })
  unfolding run_rules
  skip_after_reaches_marker [] after' name t e o =
      unfold step_rule in ground (arith, str_eq_iff name name)
  skip_after_reaches_marker (rule ∷ rest) after' name t e o =
      rw (step-inside_marker rule name t e o.0) (skip_after_reaches_marker rest after' name t e o.1)

  -- A skipAfter to a marker that the phase does not have passes over all of it, and stays.
  pub skip_after_missing_marker :
      (rules : List (Rule S)) (name : Bytes) (t : Transaction S)
      → t.marker ≡ some name
      → All (IsOtherRule name) rules
      → run_rules config rules t ≡ t
  unfolding run_rules
  skip_after_missing_marker [] name t e o = refl
  skip_after_missing_marker (rule ∷ rest) name t e o =
      rw (step-inside_marker rule name t e o.0) (skip_after_missing_marker rest name t e o.1)

  step-skip :
      (rule : Rule S) (n : ℕ) (t : Transaction S)
      → t.marker ≡ none
      → t.skip_next ≡ pos (suc n)
      → HasActions rule
      → step_rule config rule t ≡ (record t { skip_next = pos n }, false)
  unfolding step_rule ◌-ℤ◌
  step-skip (marker_rule x) n t e s h = elim h [ ]
  step-skip _ n t e s h = ground arith

  -- With `skip:n` in force and outside a skipAfter, the next n rules are passed over whatever they
  -- are, and the rules behind them run with the count at 0 (markers are not counted: the n rules
  -- have none among them).
  pub skip_passes_over :
      (next rest : List (Rule S)) (t : Transaction S)
      → t.marker ≡ none
      → t.skip_next ≡ pos (length next)
      → All HasActions next
      → run_rules config (next ++ rest) t ≡ run_rules config rest (record t { skip_next = pos 0 })
  unfolding run_rules
  skip_passes_over [] rest t e s h = ap (λ n. run_rules config rest (record t { skip_next = n })) s
  skip_passes_over (rule ∷ next) rest t e s h =
      rw (step-skip rule (length next) t e s h.0)
        (skip_passes_over next rest (record t { skip_next = pos (length next) }) e refl h.1)

  step-allowed :
      (rule : Rule S) (t : Transaction S)
      → t.marker ≡ none
      → t.skip_next ≤ℤ pos 0
      → t.allow_type ≢ none_allow_type
      → step_rule config rule t ≡ (t, false)
  unfolding step_rule
  step-allowed (marker_rule x) t e s a = ground arith
  step-allowed _ t e s a = ground arith

  -- Once a rule has run an `allow` of any type, outside skip and skipAfter, the rest of the phase
  -- changes nothing.
  pub allow_ends_phase :
      (rules : List (Rule S)) (t : Transaction S)
      → t.marker ≡ none
      → t.skip_next ≤ℤ pos 0
      → t.allow_type ≢ none_allow_type
      → run_rules config rules t ≡ t
  unfolding run_rules
  allow_ends_phase [] t e s a = refl
  allow_ends_phase (rule ∷ rest) t e s a =
      rw (step-allowed rule t e s a) (allow_ends_phase rest t e s a)

  step-not_disruptive :
      (rule : Rule S) (t : Transaction S)
      → t.it.disruptive ≡ false
      → (step_rule config rule t).1 ≡ (step_rule config rule t).0.it.disruptive
  unfolding step_rule
  step-not_disruptive (marker_rule n) t e = ground arith
  step-not_disruptive (with_operator r rs) t e = ground arith
  step-not_disruptive (unconditional r) t e = ground arith
  step-not_disruptive (script r l) t e = ground arith

  -- A phase is left at the first rule that intercepts: if `done` ends with an interception that it
  -- did not begin with, then rules behind it are not run, whatever they are.
  pub intercept_ends_phase :
      (done more : List (Rule S)) (t : Transaction S)
      → t.it.disruptive ≡ false
      → (run_rules config done t).it.disruptive ≡ true
      → run_rules config (done ++ more) t ≡ run_rules config done t
  unfolding run_rules
  intercept_ends_phase [] more t e d = cc
  intercept_ends_phase (rule ∷ rest) more t e d =
      let s = step_rule config rule t in
      elim (Bool-cases s.1) [
        | inl left ↦ ground arith
        | inr stays ↦
            ground (arith, step-not_disruptive rule t e, intercept_ends_phase rest more s.0)
      ]
