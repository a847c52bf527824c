-- ===== src/Classes/TimerOff.antt =====
-- classes/timer-off/main.c: the output goes off a delay after the input. `tag` is what `sys_timeout`
-- returns. `obj` does not show.
pub mod Invariant
use hakit.Base.{
  ℕ, ◌+◌, Bool, true, false, Option, none, some, List, [], ◌∷◌, ◌++◌, ℤ, pos, ◌==◌, if◌then◌else◌,
  not,
}
use hakit.Core.Prop.{Props, prop_get, prop_get_int}
use hakit.Classes.Calls.{
  Call, update_int, sys_remove, sys_timeout, as_bit, bit_xor, inv_name, delay_name, flag,
}

pub record Ctx : Type 0 where
  pub input : ℕ
  pub output : ℕ
  pub delay : ℤ
  pub inv : ℕ
  pub timeout_tag : ℕ

-- `_new`
unfoldable pub new : Props → Ctx
unfolding prop_get prop_get_int
new props = record {
  input = 0;
  output = 0;
  delay = prop_get_int props delay_name;
  inv = flag (prop_get props inv_name);
  timeout_tag = 0;
}

unfoldable pub set_output : Ctx → List Call
set_output ctx = update_int 0 (pos (bit_xor ctx.output ctx.inv)) ∷ []

-- `_start`
unfoldable pub start : Ctx → Ctx × List Call
unfolding set_output
start ctx = (ctx, set_output ctx)

unfoldable pub timeout : Ctx → Ctx × List Call
unfolding set_output
timeout ctx = let c = record ctx { timeout_tag = 0; output = 0 } in (c, set_output c)

-- `_input`
unfoldable pub input : Ctx → List ℕ → ℕ → Ctx × List Call
unfolding as_bit set_output
input ctx value tag =
    let state = as_bit value in
    let c = record ctx { input = state } in
    let cancel = if c.timeout_tag == 0 then [] else sys_remove c.timeout_tag ∷ [] in
    if not (state == 0)
    then (let d = record c { timeout_tag = 0 } in
        let e = record d { output = 1 } in
        if d.output == 0 then (e, cancel ++ set_output e) else (d, cancel))
    else if not (ctx.input == 0)
    then (record c { timeout_tag = tag }, cancel ++ (sys_timeout tag c.delay ∷ []))
    else (c, [])
