-- ===== src/Classes/TimerPulse.antt =====
-- classes/timer-pulse/main.c: an edge of the input starts a pulse of the output. `tag` is what `sys_timeout`
-- returns. `obj` does not show.
pub mod Invariant
use hakit.Base.{
  ℕ, ◌+◌, Bool, true, false, Option, none, some, List, [], ◌∷◌, ◌++◌, ℤ, pos, ◌==◌, eq_bytes, ◌&&◌,
  ◌||◌, ◌/◌, ◌%◌, if◌then◌else◌, not,
}
use hakit.Core.Prop.{Props, prop_get, prop_get_int}
use hakit.Classes.Calls.{
  Call, update_int, sys_remove, sys_timeout, as_bit, bit_xor, inv_name, delay_name, flag,
}

pub record Ctx : Type 0 where
  pub input : ℕ
  pub output : ℕ
  pub edge : ℕ
  pub retrigger : ℕ
  pub delay : ℤ
  pub inv : ℕ
  pub timeout_tag : ℕ

abbrev pub edge_name : List ℕ
edge_name = b'e' ∷ b'd' ∷ b'g' ∷ b'e' ∷ []

abbrev pub falling : List ℕ
falling = b'f' ∷ b'a' ∷ b'l' ∷ b'l' ∷ b'i' ∷ b'n' ∷ b'g' ∷ []

abbrev pub both : List ℕ
both = b'b' ∷ b'o' ∷ b't' ∷ b'h' ∷ []

abbrev pub retrigger_name : List ℕ
retrigger_name = b'r' ∷ b'e' ∷ b't' ∷ b'r' ∷ b'i' ∷ b'g' ∷ b'g' ∷ b'e' ∷ b'r' ∷ []

-- EDGE_RAISING, EDGE_FALLING and both.
abbrev pub edge_of : Option (List ℕ) → ℕ
unfolding eq_bytes
edge_of none = 1
edge_of (some s) = if eq_bytes s falling then 2 else if eq_bytes s both then 3 else 1

-- `_new`
unfoldable pub new : Props → Ctx
unfolding prop_get prop_get_int edge_of
new props = record {
  input = 0;
  output = 0;
  edge = edge_of (prop_get props edge_name);
  retrigger = flag (prop_get props retrigger_name);
  delay = prop_get_int props delay_name;
  inv = flag (prop_get props inv_name);
  timeout_tag = 0;
}

unfoldable pub set_output : Ctx → List Call
set_output ctx = update_int 0 (pos (bit_xor ctx.output ctx.inv)) ∷ []

-- `_start`
unfoldable pub start : Ctx → Ctx × List Call
unfolding set_output
start ctx = (ctx, set_output ctx)

unfoldable pub timeout : Ctx → Ctx × List Call
unfolding set_output
timeout ctx = let c = record ctx { timeout_tag = 0; output = 0 } in (c, set_output c)

-- The test of `_input` for an edge, of the states before and after.
abbrev pub is_edge : ℕ → ℕ → ℕ → Bool
is_edge edge state0 state =
    (not (edge % 2 == 0) && state0 == 0 && state == 1)
    || (not (edge / 2 % 2 == 0) && state0 == 1 && state == 0)

-- What `_input` does at an edge.
unfoldable pub pulse : Ctx → ℕ → Ctx × List Call
unfolding set_output
pulse c tag =
    let cancel = if c.timeout_tag == 0 then [] else sys_remove c.timeout_tag ∷ [] in
    let d = record c { timeout_tag = tag } in
    let arm = cancel ++ (sys_timeout tag c.delay ∷ []) in
    let e = record d { output = 1 } in
    if c.output == 0 || not (c.retrigger == 0)
    then (if d.output == 0 then (e, arm ++ set_output e) else (d, arm))
    else (c, [])

-- `_input`
unfoldable pub input : Ctx → List ℕ → ℕ → Ctx × List Call
unfolding as_bit pulse
input ctx value tag =
    let state = as_bit value in
    let c = record ctx { input = state } in
    if is_edge c.edge ctx.input state then pulse c tag else (c, [])
