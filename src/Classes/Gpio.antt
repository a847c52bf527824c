-- ===== src/Classes/Gpio.antt =====
-- classes/gpio/main.c: a GPIO port as an input with a debounce delay, or as an output that may blink. The
-- functions of classes/gpio/gpio.c are the values that they give and the values that are written to the
-- port, in order. A state is 0 or 1, and `value` is none for -1. `tag` is what `sys_timeout` returns.

pub mod Blink
use hakit.Base.{
  ℕ, ◌+◌, ◌-◌, Bool, true, false, ◌&&◌, not, Option, none, some, List, [], ◌∷◌, ◌++◌, ℤ, pos,
  negsuc, ◌==◌, if◌then◌else◌, ltb, ltb_ℤ, eq_ℤ, atoi,
}
use hakit.Core.Prop.{Props, prop_get, prop_get_int}
use hakit.Classes.Calls.{Call, update_int, sys_remove, sys_timeout, as_bit}

pub record Ctx : Type 0 where
  pub port : ℤ
  pub input : Bool
  pub pad : ℕ
  pub blink : ℤ
  pub value : Option ℕ
  pub debounce_delay : ℤ
  pub timeout_tag : ℕ

-- What a handler does outside: its calls, and the values written to the port.
pub record Out : Type 0 where
  pub calls : List Call
  pub written : List ℕ

abbrev pub nothing : Out
nothing = record { calls = []; written = [] }

abbrev pub input_name : List ℕ
input_name = b'i' ∷ b'n' ∷ b'p' ∷ b'u' ∷ b't' ∷ []

abbrev pub output_name : List ℕ
output_name = b'o' ∷ b'u' ∷ b't' ∷ b'p' ∷ b'u' ∷ b't' ∷ []

abbrev pub debounce_name : List ℕ
debounce_name = b'd' ∷ b'e' ∷ b'b' ∷ b'o' ∷ b'u' ∷ b'n' ∷ b'c' ∷ b'e' ∷ []

-- The port behind a '!', and whether there is one.
abbrev pub port_of : List ℕ → ℤ × Bool
port_of [] = (atoi [], false)
port_of (c ∷ s) = if c == b'!' then (atoi s, true) else (atoi (c ∷ s), false)

abbrev pub new_port : Props → Bool → List ℕ → Ctx × Bool
new_port props input str = (
  record {
    port = (port_of str).0;
    input = input;
    pad = 0;
    blink = pos 0;
    value = none;
    debounce_delay = prop_get_int props debounce_name;
    timeout_tag = 0;
  },
  (port_of str).1,
)

-- `_new`: the context, and whether the port is active low; none where no port is given.
unfoldable pub new : Props → Option (Ctx × Bool)
new props = elim (prop_get props input_name) [
  | some str ↦ some (new_port props true str)
  | none ↦ elim (prop_get props output_name) [
    | some str ↦ some (new_port props false str)
    | none ↦ none
  ]
]

-- What `timeout_clear` calls.
abbrev pub clear_calls : Ctx → List Call
clear_calls ctx = if ctx.timeout_tag == 0 then [] else sys_remove ctx.timeout_tag ∷ []

abbrev pub is_value : ℕ → Option ℕ → Bool
is_value state none = false
is_value state (some v) = state == v

-- `input_update`. It runs after a change only, which gives a value.
unfoldable pub input_update : Ctx → Ctx × Out
input_update ctx = elim ctx.value [
  | none ↦ (record ctx { timeout_tag = 0 }, nothing)
  | some v ↦ if ctx.pad == v then (record ctx { timeout_tag = 0 }, nothing) else (
    record ctx { timeout_tag = 0; pad = v },
    record { calls = update_int 0 (pos v) ∷ []; written = [] },
  )
]

abbrev pub before : List Call → Ctx × Out → Ctx × Out
before calls (ctx, out) = (ctx, record out { calls = calls ++ out.calls })

-- `input_changed`
unfoldable pub input_changed : Ctx → ℕ → ℕ → Ctx × Out
input_changed ctx value tag =
    let c : Ctx = record ctx { value = some value; timeout_tag = 0 } in
    if ltb_ℤ (pos 0) ctx.debounce_delay
    then (
      record c { timeout_tag = tag },
      record { calls = clear_calls ctx ++ (sys_timeout tag ctx.debounce_delay ∷ []); written = [] },
    )
    else before (clear_calls ctx) (input_update c)

-- `blink_timer`, which goes on.
unfoldable pub blink_timer : Ctx → Ctx × Out
blink_timer ctx =
    let c : Ctx = record ctx { pad = 1 - ctx.pad } in
    (c, record { calls = []; written = c.pad ∷ [] })

-- `_start`, where `gpio_get_value` gives `value`.
unfoldable pub start : Ctx → ℕ → Ctx × Out
start ctx value =
    if ctx.input
    then (
      record ctx { value = some value; pad = value },
      record { calls = update_int 0 (pos value) ∷ []; written = [] },
    )
    else (ctx, nothing)

-- `_input` on the pad "in".
unfoldable pub input_pad : Ctx → List ℕ → ℕ → Ctx × Out
input_pad ctx value tag =
    let state = as_bit value in
    let c : Ctx = record ctx { timeout_tag = 0; pad = state; value = some state } in
    if state == 1 && ltb_ℤ (pos 0) ctx.blink
    then (
      record c { timeout_tag = tag },
      record { calls = clear_calls ctx ++ (sys_timeout tag ctx.blink ∷ []); written = state ∷ [] },
    )
    else (c, record { calls = clear_calls ctx; written = state ∷ [] })

abbrev pub is_on : Option ℕ → Bool
is_on none = false
is_on (some v) = ltb 0 v

-- The pad gets its value back after blinking.
abbrev pub restore : Ctx → List Call → Option ℕ → Ctx × Out
restore c calls none = (c, record { calls = calls; written = [] })
restore c calls (some v) =
    if c.pad == v
    then (c, record { calls = calls; written = [] })
    else (record c { pad = v }, record { calls = calls; written = v ∷ [] })

-- `_input` on the pad "blink".
unfoldable pub input_blink : Ctx → List ℕ → ℕ → Ctx × Out
input_blink ctx value tag =
    let delay = atoi value in
    let c : Ctx = record ctx { timeout_tag = 0; blink = delay } in
    if ltb_ℤ (pos 0) delay
    then (if is_on c.value
        then (
          record c { timeout_tag = tag },
          record { calls = clear_calls ctx ++ (sys_timeout tag delay ∷ []); written = [] },
        )
        else (c, record { calls = clear_calls ctx; written = [] }))
    else restore c (clear_calls ctx) c.value
