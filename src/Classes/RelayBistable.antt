-- ===== src/Classes/RelayBistable.antt =====
-- classes/relay-bistable/main.c: a relay with a coil for each state, which a pulse switches. `tag` is
-- what `sys_timeout` returns. The state of `output[i]` is `coil_i`, and its pad's number is i.
pub mod Coils
use hakit.Base.{ℕ, ◌+◌, Bool, List, [], ◌∷◌, ◌++◌, ℤ, pos, ◌==◌, if◌then◌else◌, not}
use hakit.Classes.Calls.{Call, update_int, sys_remove, sys_timeout, as_bit}

-- PULSE, and REFRESH in milliseconds.
abbrev pub pulse_delay : ℤ
pulse_delay = pos 1000

abbrev pub refresh_delay : ℤ
refresh_delay = pos 3600000

pub record Ctx : Type 0 where
  pub input : ℕ
  pub coil_0 : ℕ
  pub coil_1 : ℕ
  pub timeout_tag : ℕ

-- `_new`
unfoldable pub new : Ctx
new = record { input = 0; coil_0 = 0; coil_1 = 0; timeout_tag = 0 }

unfoldable pub timeout : Ctx → ℕ → Ctx × List Call
timeout ctx tag = (
  record ctx { coil_0 = 0; coil_1 = 0; timeout_tag = tag },
  update_int 0 (pos 0) ∷ update_int 1 (pos 0) ∷ sys_timeout tag refresh_delay ∷ [],
)

unfoldable pub set_output : Ctx → ℕ → ℕ → Ctx × List Call
set_output ctx state tag =
    let cancel = if ctx.timeout_tag == 0 then [] else sys_remove ctx.timeout_tag ∷ [] in
    if not (state == 0)
    then (
      record ctx { coil_0 = 0; coil_1 = 1; timeout_tag = tag },
      cancel ++ (update_int 0 (pos 0) ∷ update_int 1 (pos 1) ∷ sys_timeout tag pulse_delay ∷ []),
    )
    else (
      record ctx { coil_0 = 1; coil_1 = 0; timeout_tag = tag },
      cancel ++ (update_int 0 (pos 1) ∷ update_int 1 (pos 0) ∷ sys_timeout tag pulse_delay ∷ []),
    )

unfoldable pub refresh : Ctx → ℕ → Ctx × List Call
unfolding set_output
refresh ctx tag = set_output ctx ctx.input tag

-- `_start`
unfoldable pub start : Ctx → ℕ → Ctx × List Call
unfolding set_output
start ctx tag = set_output ctx 0 tag

-- `_input`
unfoldable pub input : Ctx → List ℕ → ℕ → Ctx × List Call
unfolding as_bit set_output
input ctx value tag =
    let state = as_bit value in
    let c = record ctx { input = state } in
    if not (state == ctx.input) then set_output c state tag else (c, [])
