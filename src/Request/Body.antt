-- ===== src/Request/Body.antt =====
-- appendRequestBody and appendResponseBody, of src/transaction.cc.
pub mod Limit
use mod_security.Engine.Intervention.{free}
use mod_security.Engine.State.{Transaction, is_enabled}
use mod_security.Prelude.{
  Bool, List, [], false, if◌then◌else◌, length, ltb, map, not, some, take, true, ℕ, ◌&&◌, ◌++◌, ◌+◌,
  ◌-◌, ◌==◌, ◌||◌, ◌∷◌,
}
use mod_security.Prelude.Bytes.{Bytes, str_eq}
use mod_security.Prelude.Int.{pos}
use mod_security.Prelude.Text.{codes}
use mod_security.Request.Anchored.{set_value}
use mod_security.Request.State.{
  Request, Settings, engine_state, process_partial_body_limit_action,
  property_not_set_body_limit_action, reject_body_limit_action, with_body, with_response,
}
use mod_security.Utils.Ctype.{tolower}

-- `current_size` is an `int`: it stands for the size while that is below 2 ^ 31, as it is under any
-- limit that is.
unfoldable pub over_limit : ℕ → ℕ → ℕ → Bool
over_limit limit current_size len = ltb 0 limit && ltb limit (len + current_size)

unfoldable pub is_inspected : List Bytes → Bytes → Bool
unfolding str_eq
is_inspected [] content_type = false
is_inspected (t ∷ types) content_type = str_eq t content_type || is_inspected types content_type

module _ {C : Type 0} where
  -- The intervention of RejectBodyLimitAction, with the text of its log.
  unfoldable pub reject : Settings C → Bytes → Transaction (Request C) → Transaction (Request C)
  unfolding is_enabled engine_state free
  reject settings why t =
      if is_enabled (engine_state settings t)
      then record t {
        it = record (free t.it) { log = some why; status = pos 403; disruptive = true };
      }
      else t

  -- With the answer of the function.
  unfoldable pub append_request_body :
      Settings C → Bytes → Transaction (Request C) → Transaction (Request C) × Bool
  unfolding over_limit reject set_value
  append_request_body settings buf t =
      let limit = settings.request_body_limit in
      let b = t.store.body in
      let current_size = length b.request_body in
      let b' = record b {
        inbound_data_error = set_value (codes "1") t.store.variable_offset b.inbound_data_error;
      } in
      let why = codes "Request body limit is marked to reject the request" in
      let limited : Transaction (Request C) × Bool = elim settings.request_body_limit_action [
        | process_partial_body_limit_action ↦ (
          with_body (record b' { request_body = b.request_body ++ take (limit - current_size) buf })
              t,
          false,
        )
        | reject_body_limit_action ↦ (reject settings why (with_body b' t), true)
        | property_not_set_body_limit_action ↦ (with_body b' t, true)
      ] in
      if over_limit limit current_size (length buf)
      then limited
      else (with_body (record b { request_body = b.request_body ++ buf }) t, true)

  unfoldable pub append_response_body :
      Settings C → Bytes → Transaction (Request C) → Transaction (Request C) × Bool
  unfolding over_limit reject is_inspected tolower set_value
  append_response_body settings buf t =
      let limit = settings.response_body_limit in
      let r = t.store.response in
      let current_size = length r.response_body in
      let content_type = map tolower r.response_content_type.anchored_value in
      let r' = record r {
        outbound_data_error = set_value (codes "1") t.store.variable_offset r.outbound_data_error;
      } in
      let why = codes "Response body limit is marked to reject the request" in
      let limited : Transaction (Request C) × Bool = elim settings.response_body_limit_action [
        | process_partial_body_limit_action ↦ (
          with_response
              (record r' { response_body = r.response_body ++ take (limit - current_size) buf }) t,
          false,
        )
        | reject_body_limit_action ↦ (reject settings why (with_response r' t), true)
        | property_not_set_body_limit_action ↦ (with_response r' t, true)
      ] in
      if not (is_inspected settings.response_body_types content_type)
        && not (length settings.response_body_types == 0)
      then (t, true)
      else if over_limit limit current_size (length buf)
      then limited
      else (with_response (record r { response_body = r.response_body ++ buf }) t, true)

  -- A body that comes in chunks.
  abbrev pub append_chunks :
      Settings C → List Bytes → Transaction (Request C) → Transaction (Request C)
  append_chunks settings [] t = t
  append_chunks settings (buf ∷ rest) t =
      append_chunks settings rest (append_request_body settings buf t).0
