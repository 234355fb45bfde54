-- ===== src/Request/Answer.antt =====
-- Transaction::intervention, which a connector asks after each phase.
use mod_security.Engine.Intervention.{Intervention, reset}
use mod_security.Engine.State.{Transaction}
use mod_security.Prelude.{
  Bool, Bool-cases, arith, false, if◌then◌else◌, inl, inr, none, refl, some, true, ◌||◌, ◌≡◌,
}
use mod_security.Prelude.Text.{codes}
use mod_security.Utils.Number.{to_string_ℤ}
use mod_security.Utils.Replace.{replace_all}

-- A transaction with m_isInterrupted, and the structure of the connector.
pub record Asked (S : Type 0) : Type 0 where
  pub transaction : Transaction S
  pub is_interrupted : Bool
  pub given : Intervention

module _ {S : Type 0} where
  -- With the answer of the function. The status is put into the text of the log.
  unfoldable pub intervention : Asked S → Asked S × Bool
  unfolding reset replace_all to_string_ℤ
  intervention a =
      let m_it = a.transaction.it in
      if m_it.disruptive
      then (
        record {
          transaction = record (a.transaction) { it = reset m_it };
          is_interrupted = true;
          given = record (a.given) {
            url = m_it.url;
            disruptive = m_it.disruptive;
            status = m_it.status;
            log = elim m_it.log [
              | none ↦ none
              | some log ↦ some (replace_all log (codes "%d") (to_string_ℤ m_it.status))
            ];
          };
        },
        true,
      )
      else (a, false)

  -- The answer is whether the transaction was disrupted, and then the connector gets its status and
  -- its address for a redirection; an intervention is handed out once: asked again, the answer is
  -- no, and nothing changes; and m_isInterrupted stays set from the first one on.
  pub intervention_once :
      (a : Asked S)
      → let first = intervention a in
        let again = intervention first.0 in
        (first.1 ≡ a.transaction.it.disruptive)
        × (first.0.is_interrupted ≡ (a.transaction.it.disruptive || a.is_interrupted))
        × (a.transaction.it.disruptive ≡ true
            → (first.0.given.status ≡ a.transaction.it.status)
              × (first.0.given.url ≡ a.transaction.it.url)
              × (first.0.given.disruptive ≡ true))
        × (again.1 ≡ false)
        × (again.0 ≡ first.0)
  unfolding intervention reset
  intervention_once a = elim (Bool-cases a.transaction.it.disruptive) [
    | inl e ↦ rw e (refl, refl, (λ x. (refl, refl, refl)), refl, refl)
    | inr e ↦ rw e (refl, refl, (λ x. absurd (ground arith)), refl, refl)
  ]
