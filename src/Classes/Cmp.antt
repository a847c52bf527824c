-- ===== src/Classes/Cmp.antt =====
-- classes/cmp/main.c: a comparator with hysteresis. `obj` does not show; the states of the pads `ref`
-- and `in` are `reference` and `input`. A value is what `atoi` gives without a bound; the reference plus or minus the
-- hysteresis is the `int` of 32 bits that the machine computes.
pub mod Hysteresis
use hakit.Base.{
  ℕ, ◌+◌, Bool, Option, none, some, List, [], ◌∷◌, ℤ, pos, negsuc, ◌+ℤ◌, ◌-ℤ◌, leb_ℤ, ltb_ℤ, eq_ℤ,
  ◌==◌, if◌then◌else◌, ◌||◌, ◌&&◌, not, atoi,
}
use hakit.Core.Prop.{Props, prop_get}
use hakit.Classes.Calls.{Call, update_int}

abbrev pub hysteresis_name : List ℕ
hysteresis_name = b'h' ∷ b'y' ∷ b's' ∷ b't' ∷ b'e' ∷ b'r' ∷ b'e' ∷ b's' ∷ b'i' ∷ b's' ∷ []

pub record Ctx : Type 0 where
  pub hysteresis : ℤ
  pub reference : ℤ
  pub input : ℤ
  pub out : ℤ
  pub started : ℕ

-- `_new`
unfoldable pub new : Props → Ctx
unfolding prop_get atoi
new props =
    let hysteresis : ℤ = elim (prop_get props hysteresis_name) [
      | none ↦ pos 0
      | some str ↦ atoi str
    ] in
    record {
      hysteresis = hysteresis;
      reference = pos 0;
      input = pos 0;
      out = negsuc 0;
      started = 0;
    }

-- `_start`
unfoldable pub start : Ctx → Ctx × List Call
start ctx =
    let c = record ctx { started = 1 } in
    (c, if leb_ℤ (pos 0) c.out then update_int 0 c.out ∷ [] else [])

-- The pad that a value comes to.
pub data Pad : Type 0 where
  ref : Pad
  in_ : Pad

abbrev pub set_state : Ctx → Pad → ℤ → Ctx
set_state ctx ref state = record ctx { reference = state }
set_state ctx in_ state = record ctx { input = state }

-- A sum or difference of two `int`s, wrapped.
unfoldable pub int_of : ℤ → ℤ
unfolding ◌+ℤ◌ ◌-ℤ◌
int_of x =
    if ltb_ℤ (pos 2147483647) x
    then x -ℤ pos 4294967296
    else if ltb_ℤ x (negsuc 2147483647)
    then x +ℤ pos 4294967296
    else x

-- The output state that `_input` finds.
unfoldable pub compare : Ctx → ℤ
unfolding int_of
compare ctx =
    if leb_ℤ ctx.input (int_of (ctx.reference -ℤ ctx.hysteresis))
    then pos 0
    else if ltb_ℤ (int_of (ctx.reference +ℤ ctx.hysteresis)) ctx.input
    then pos 1
    else ctx.out

-- The end of `_input`.
unfoldable pub drive : Ctx → ℤ → Ctx × List Call
drive ctx out =
    if not (eq_ℤ out ctx.out) || ltb_ℤ ctx.out (pos 0)
    then (
      record ctx { out = out },
      if not (ctx.started == 0) && leb_ℤ (pos 0) out then update_int 0 out ∷ [] else [],
    )
    else (ctx, [])

-- `_input`
unfoldable pub input : Ctx → Pad → List ℕ → Ctx × List Call
unfolding atoi compare drive
input ctx pad value = let c = set_state ctx pad (atoi value) in drive c (compare c)
