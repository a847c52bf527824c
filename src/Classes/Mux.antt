-- ===== src/Classes/Mux.antt =====
-- classes/mux/main.c: the multiplexer. The table of inputs holds the value of each connected pad,
-- none while its buffer is NULL, and its length is `ninputs`. The output is pad 0 and `inputs[num]`
-- is pad num + 1. `obj` and the pads' names do not show.
pub mod Selected
pub mod Feedback
use hakit.Base.{
  ℕ, ◌+◌, Bool, true, false, Option, none, some, List, [], ◌∷◌, ◌++◌, ℤ, pos, pos_part, ◌==◌,
  if◌then◌else◌, ◌||◌, ◌&&◌, not, leb_ℤ, ltb_ℤ, ltb, length, set, get_elem?, atoi,
}
use hakit.Core.Prop.{Props, prop_get, prop_foreach}
use hakit.Classes.Calls.{Call, update_str, scan_in, grow}

pub record Ctx : Type 0 where
  pub sel : ℤ
  pub inputs : List (Option (Option (List ℕ)))

abbrev pub connect : Ctx → ℕ → Ctx
connect ctx num =
    let inputs =
      if ltb (length ctx.inputs) (num + 1) then grow ctx.inputs (num + 1) else ctx.inputs in
    record ctx { inputs = set inputs num (some none) }

unfoldable pub add_input : Ctx → List ℕ → List ℕ → Ctx × Bool
unfolding scan_in
add_input ctx name value = elim (scan_in name) [
  | none ↦ (ctx, true)
  | some num ↦ (if leb_ℤ (pos 0) num then connect ctx (pos_part num) else ctx, true)
]

-- `_new`
unfoldable pub new : Props → Ctx
unfolding prop_foreach add_input
new props = let ctx : Ctx = record { sel = pos 0; inputs = [] } in prop_foreach props add_input ctx

-- `hk_pad_update_str(ctx->output, str)`, unless there is no pad or no value.
abbrev pub send_value : Option (Option (Option (List ℕ))) → List Call
send_value none = []
send_value (some none) = []
send_value (some (some none)) = []
send_value (some (some (some str))) = update_str 0 str ∷ []

unfoldable pub update_output : Ctx → List Call
update_output ctx =
    if leb_ℤ (pos 0) ctx.sel && ltb_ℤ ctx.sel (pos (length ctx.inputs))
    then send_value (get_elem? ctx.inputs (pos_part ctx.sel))
    else []

-- The pad that a value comes to.
pub data Pad : Type 0 where
  sel : Pad
  in_ : ℕ → Pad

-- `_input`. `hk_pad_update_str` of an input pad sets its value, and passes it on.
unfoldable pub input : Ctx → Pad → List ℕ → Ctx × List Call
unfolding atoi update_output
input ctx sel value = let c = record ctx { sel = atoi value } in (c, update_output c)
input ctx (in_ num) value =
    let c = record ctx { inputs = set ctx.inputs num (some (some value)) } in
    (c, update_str (num + 1) value ∷ update_output c)

-- `_start`
abbrev pub start : Ctx → Ctx × List Call
unfolding update_output
start ctx = (ctx, update_output ctx)
