-- ===== src/Engine/Intervention.antt =====
-- headers/modsecurity/intervention.h. `disruptive` is an `int` that only holds 0 and 1; a null
-- pointer is `none`.
use mod_security.Prelude.{Bool, Option, false, none, ℕ}
use mod_security.Prelude.Bytes.{Bytes}
use mod_security.Prelude.Int.{pos, ℤ}

pub record Intervention : Type 0 where
  pub status : ℤ
  pub pause : ℕ
  pub url : Option Bytes
  pub log : Option Bytes
  pub disruptive : Bool

unfoldable pub reset : Intervention → Intervention
reset i = record i { status = pos 200; pause = 0; disruptive = false }

unfoldable pub clean : Intervention → Intervention
unfolding reset
clean i = reset (record i { url = none; log = none })

unfoldable pub free_url : Intervention → Intervention
free_url i = record i { url = none }

unfoldable pub free_log : Intervention → Intervention
free_log i = record i { log = none }

unfoldable pub free : Intervention → Intervention
unfolding free_url free_log
free i = free_log (free_url i)
