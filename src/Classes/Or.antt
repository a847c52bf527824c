-- ===== src/Classes/Or.antt =====
-- classes/or/main.c: the OR gate. The table of inputs holds the state of each connected pad, and
-- its length is `ninputs`. `obj` and the pads' names do not show.
use hakit.Base.{
  ℕ, ◌+◌, Bool, true, Option, none, some, List, [], ◌∷◌, pos, pos_part, ◌==◌, if◌then◌else◌, ◌||◌,
  not, leb_ℤ, ltb, length, set,
}
use hakit.Core.Prop.{Props, prop_get, prop_foreach}
use hakit.Classes.Calls.{Call, update_int, as_bit, bit_xor, scan_in, grow, inv_name}

pub record Ctx : Type 0 where
  pub inputs : List (Option ℕ)
  pub inv : ℕ
  pub output : ℕ
  pub refresh : ℕ

-- A pad starts with state 0.
abbrev pub connect : Ctx → ℕ → Ctx
connect ctx num =
    let inputs =
      if ltb (length ctx.inputs) (num + 1) then grow ctx.inputs (num + 1) else ctx.inputs in
    record ctx { inputs = set inputs num (some 0) }

unfoldable pub add_input : Ctx → List ℕ → List ℕ → Ctx × Bool
unfolding scan_in
add_input ctx name value = elim (scan_in name) [
  | none ↦ (ctx, true)
  | some num ↦ (if leb_ℤ (pos 0) num then connect ctx (pos_part num) else ctx, true)
]

-- `_new`
unfoldable pub new : Props → Ctx
unfolding prop_get prop_foreach add_input
new props =
    let inv : ℕ = elim (prop_get props inv_name) [ none ↦ 0 | some s ↦ 1 ] in
    let ctx : Ctx = record { inputs = []; inv = inv; output = 0; refresh = 0 } in
    record (prop_foreach props add_input ctx) { refresh = 1 }

-- The loop of `_update`.
unfoldable pub out_state : List (Option ℕ) → ℕ
out_state [] = 0
out_state (none ∷ inputs) = out_state inputs
out_state (some state ∷ inputs) = let rest = out_state inputs in if state == 0 then rest else 1

-- The end of `_update`: nothing is sent when the output stays.
unfoldable pub drive : Ctx → ℕ → Ctx × List Call
drive ctx out =
    if not (out == ctx.output) || not (ctx.refresh == 0)
    then (record ctx { refresh = 0; output = out }, update_int 0 (pos out) ∷ [])
    else (ctx, [])

-- `_update`
unfoldable pub update : Ctx → Ctx × List Call
unfolding out_state drive
update ctx =
    let state = out_state ctx.inputs in drive ctx (if ctx.inv == 0 then state else bit_xor state 1)

abbrev pub set_state : List (Option ℕ) → ℕ → ℕ → List (Option ℕ)
set_state inputs num state = set inputs num (some state)

-- `_input`, at the pad that `inputs[num]` holds. A pad that a second property of its number took
-- out of the table is a `num` beyond the table.
unfoldable pub input : Ctx → ℕ → List ℕ → Ctx × List Call
unfolding as_bit update
input ctx num value = update (record ctx { inputs = set_state ctx.inputs num (as_bit value) })

-- `_start`
abbrev pub start : Ctx → Ctx × List Call
unfolding update
start ctx = update ctx
