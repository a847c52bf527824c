-- ===== src/Classes/TimerClock.antt =====
-- classes/timer-clock/main.c: a square wave while the input is on. The results of `atoi` are unbounded,
-- and the product of the period and the duty wraps at 32 bits. `tag` and `tag'` are what the calls of
-- `sys_timeout` return, for the period and for the duty.
pub mod Delay
pub mod Invariant
use hakit.Base.{
  ◌%◌, ◌^◌, ltb, ℕ, ◌+◌, ◌-◌, ◌*◌, ◌/◌, Bool, true, false, Option, none, some, List, [], ◌∷◌, ◌++◌,
  ℤ, pos, negsuc, ◌-ℤ◌, pos_part, leb_ℤ, ltb_ℤ, ◌==◌, if◌then◌else◌, ◌||◌, not, atoi,
}
use hakit.Core.Prop.{Props, prop_get}
use hakit.Classes.Calls.{Call, update_int, sys_remove, sys_timeout, as_bit}

abbrev pub period_name : List ℕ
period_name = b'p' ∷ b'e' ∷ b'r' ∷ b'i' ∷ b'o' ∷ b'd' ∷ []

abbrev pub duty_name : List ℕ
duty_name = b'd' ∷ b'u' ∷ b't' ∷ b'y' ∷ []

pub record Ctx : Type 0 where
  pub enable : ℤ
  pub output : ℕ
  pub period : ℤ
  pub delay : ℤ
  pub period_tag : ℕ
  pub duty_tag : ℕ

-- What is left of `strchr(str, '%')`, if it is found.
unfoldable pub before_percent : List ℕ → Option (List ℕ)
before_percent [] = none
before_percent (c ∷ s) =
    let rest = before_percent s in
    if c == b'%' then some [] else elim rest [ none ↦ none | some t ↦ some (c ∷ t) ]

-- `x / 100`, where `x` is the `int` of 32 bits that the product is stored as.
unfoldable pub percent : ℕ → ℤ
unfolding ◌-ℤ◌
percent product =
    let x = product % 2 ^ 32 in
    if ltb x (2 ^ 31) then pos (x / 100) else pos 0 -ℤ pos ((2 ^ 32 - x) / 100)

-- The duty, in milliseconds, that `_new` finds for a period of at least 2.
unfoldable pub duty_delay : ℤ → Option (List ℕ) → Option ℤ
unfolding before_percent atoi percent
duty_delay period none = some (pos (pos_part period / 2))
duty_delay period (some str) = elim (before_percent str) [
  | some front ↦
      let duty = atoi front in
      if leb_ℤ duty (pos 0) || leb_ℤ (pos 100) duty
      then none
      else some (percent (pos_part period * pos_part duty))
  | none ↦ some (atoi str)
]

-- The two clamps of `_new`.
unfoldable pub clamp : ℤ → ℤ → ℤ
unfolding ◌-ℤ◌
clamp period delay =
    let delay' = if ltb_ℤ delay (pos 1) then pos 1 else delay in
    if leb_ℤ period delay' then period -ℤ pos 1 else delay'

abbrev pub object : ℤ → ℤ → Ctx
object period delay = record {
  enable = negsuc 0;
  output = 0;
  period = period;
  delay = delay;
  period_tag = 0;
  duty_tag = 0;
}

-- `_new`, with a period: none for -1.
unfoldable pub new_period : Props → ℤ → Option Ctx
unfolding prop_get duty_delay clamp
new_period props period =
    if ltb_ℤ period (pos 2) then none else elim (duty_delay period (prop_get props duty_name)) [
      | none ↦ none
      | some delay ↦ some (object period (clamp period delay))
    ]

-- `_new`
unfoldable pub new : Props → Option Ctx
unfolding prop_get atoi new_period
new props = elim (prop_get props period_name) [
  | none ↦ none
  | some str ↦ new_period props (atoi str)
]

unfoldable pub duty_handler : Ctx → Ctx × List Call
duty_handler ctx = (record ctx { duty_tag = 0; output = 0 }, update_int 0 (pos 0) ∷ [])

unfoldable pub period_handler : Ctx → ℕ → Ctx × List Call
period_handler ctx tag' = (
  record ctx { output = 1; duty_tag = tag' },
  update_int 0 (pos 1) ∷ sys_timeout tag' ctx.delay ∷ [],
)

unfoldable pub enable : Ctx → ℕ → ℕ → Ctx × List Call
unfolding period_handler
enable ctx tag tag' =
    if ctx.period_tag == 0
    then (let (c, calls) = period_handler (record ctx { period_tag = tag }) tag' in
        (c, sys_timeout tag ctx.period ∷ calls))
    else period_handler ctx tag'

-- `_start`
abbrev pub start : Ctx → Ctx × List Call
start ctx = (ctx, update_int 0 (pos 0) ∷ [])

-- `_input`
unfoldable pub input : Ctx → List ℕ → ℕ → ℕ → Ctx × List Call
unfolding as_bit enable duty_handler
input ctx value tag tag' =
    let state = as_bit value in
    let stop = if ctx.period_tag == 0 then [] else sys_remove ctx.period_tag ∷ [] in
    let stop' = if ctx.duty_tag == 0 then [] else sys_remove ctx.duty_tag ∷ [] in
    let c = record ctx { enable = pos state; period_tag = 0; duty_tag = 0 } in
    let (d, calls) = (if not (state == 0) then enable c tag tag' else duty_handler c) in
    (d, stop ++ (stop' ++ calls))
