-- ===== src/Request/Body/Limit.antt =====
-- What is kept of a body that comes in chunks.
use mod_security.Engine.State.{Transaction}
use mod_security.Prelude.{
  Bool-cases, List, [], ap, append-nil, append_assoc, arith, inl, inr, length, length-append,
  length-take, refl, suc, sym, take, zero, ℕ, ◌++◌, ◌+◌, ◌-◌, ◌<◌, ◌∙◌, ◌∷◌, ◌≡◌, ◌≤◌,
}
use mod_security.Prelude.Bytes.{Bytes}
use mod_security.Request.Body.{append_chunks, append_request_body, over_limit}
use mod_security.Request.State.{Request, Settings, process_partial_body_limit_action}

abbrev concatenated : List Bytes → Bytes
concatenated [] = []
concatenated (b ∷ rest) = b ++ concatenated rest

take_all : (n : ℕ) (b : Bytes) → length b ≤ n → take n b ≡ b
take_all zero [] h = refl
take_all zero (x ∷ b) h = absurd (omega arith)
take_all (suc n) [] h = refl
take_all (suc n) (x ∷ b) h = ap (λ l. x ∷ l) (take_all n b (omega arith))

take-append : (n : ℕ) (a b : Bytes) → length a ≤ n → take n (a ++ b) ≡ a ++ take (n - length a) b
take-append n [] b h = ground arith
take-append zero (x ∷ a) b h = absurd (omega arith)
take-append (suc n) (x ∷ a) b h =
    let e : suc n - suc (length a) ≡ n - length a = omega arith in
    rw e (ap (λ l. x ∷ l) (take-append n a b (omega arith)))

-- Cutting before or behind makes no difference.
take-take_append : (n : ℕ) (a b : Bytes) → take n (take n a ++ b) ≡ take n (a ++ b)
take-take_append zero a b = refl
take-take_append (suc n) [] b = refl
take-take_append (suc n) (x ∷ a) b = ap (λ l. x ∷ l) (take-take_append n a b)

module _ {C : Type 0} (settings : Settings C) where
  partial_body :
      (buf : Bytes) (t : Transaction (Request C))
      → settings.request_body_limit_action ≡ process_partial_body_limit_action
      → 0 < settings.request_body_limit
      → length t.store.body.request_body ≤ settings.request_body_limit
      → (append_request_body settings buf t).0.store.body.request_body
        ≡ take settings.request_body_limit (t.store.body.request_body ++ buf)
  unfolding append_request_body over_limit
  partial_body buf t p l h =
      let limit = settings.request_body_limit in
      let body = t.store.body.request_body in
      elim (Bool-cases (over_limit limit (length body) (length buf))) [
        | inl e ↦ rw (e, p) (sym (take-append limit body buf h))
        | inr e ↦
            let fits : length buf + length body ≤ limit = unfold over_limit in ground arith in
            rw e (sym (take_all limit (body ++ buf) (omega (arith, length-append body buf))))
      ]

  partial_body-length :
      (buf : Bytes) (t : Transaction (Request C))
      → settings.request_body_limit_action ≡ process_partial_body_limit_action
      → 0 < settings.request_body_limit
      → length t.store.body.request_body ≤ settings.request_body_limit
      → length (append_request_body settings buf t).0.store.body.request_body
        ≤ settings.request_body_limit
  partial_body-length buf t p l h =
      let e = partial_body buf t p l h in
      let n = length-take settings.request_body_limit (t.store.body.request_body ++ buf) in
      rw e (omega (arith, n))

  -- With SecRequestBodyLimitAction ProcessPartial, whatever chunks a body comes in, what is kept for
  -- inspection is the body cut at the limit, where there is a limit and what was kept before is not
  -- over it.
  pub append_chunks-take :
      (chunks : List Bytes) (t : Transaction (Request C))
      → settings.request_body_limit_action ≡ process_partial_body_limit_action
      → 0 < settings.request_body_limit
      → length t.store.body.request_body ≤ settings.request_body_limit
      → (append_chunks settings chunks t).store.body.request_body
        ≡ take settings.request_body_limit (t.store.body.request_body ++ concatenated chunks)
  append_chunks-take [] t p l h =
      rw append-nil (sym (take_all settings.request_body_limit t.store.body.request_body h))
  append_chunks-take (buf ∷ rest) t p l h =
      let limit = settings.request_body_limit in
      let body = t.store.body.request_body in
      let t' = (append_request_body settings buf t).0 in
      append_chunks-take rest t' p l (partial_body-length buf t p l h)
      ∙ ap (λ b. take limit (b ++ concatenated rest)) (partial_body buf t p l h)
      ∙ take-take_append limit (body ++ buf) (concatenated rest)
      ∙ ap (take limit) (append_assoc body buf (concatenated rest))
