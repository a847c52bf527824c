-- ===== src/Tests/Objects.antt =====
-- classes/: the theorems at concrete inputs.
use hakit.Base.{
  ◌+ℤ◌, true, false, ℕ, ◌≡◌, refl, none, some, List, [], ◌∷◌, pos, ◌-ℤ◌, ◌≤ℤ◌, arith, eq_bytes,
}
use hakit.Core.Prop.{Props, find}
use hakit.Classes.Calls.{last_sent}
use hakit.Classes.And
use hakit.Classes.Gates.Output.{and_run, or_run}
use hakit.Classes.Gates.DeMorgan.{mirror, negate_all, and_run-de_morgan}
use hakit.Classes.TimerOff
use hakit.Classes.TimerOn
use hakit.Classes.TimerPulse
use hakit.Classes.TimerPulse.Invariant.{timer_pulse-IsValid}
use hakit.Classes.TimerClock
use hakit.Classes.TimerClock.Delay.{new-delay}
use hakit.Classes.RelayBistable
use hakit.Classes.RelayBistable.Coils
use hakit.Classes.Cmp
use hakit.Classes.Cmp.Hysteresis
use hakit.Classes.Cmp.Hysteresis.{run-IsValid}
use hakit.Classes.Mux
use hakit.Classes.Mux.Selected
use hakit.Classes.Mux.Selected.{Selects, run-last_value}

-- "1"
abbrev on : List ℕ
on = 49 ∷ []

abbrev named : List ℕ → Props
named name = record { name = name; value = on } ∷ []

-- Inputs "in0" and "in1".
abbrev in_props : Props
in_props =
    record { name = 105 ∷ 110 ∷ 48 ∷ []; value = on }
    ∷ record { name = 105 ∷ 110 ∷ 49 ∷ []; value = on }
    ∷ []

abbrev events : List (ℕ × List ℕ)
events = (0, on) ∷ (1, on) ∷ (0, 48 ∷ []) ∷ []

abbrev nand : And.Ctx
nand = record { inputs = some 0 ∷ none ∷ some 1 ∷ []; inv = 1; output = 0; refresh = 1 }

and_run-de_morgan_example : (or_run (mirror nand) (negate_all events)).1 ≡ (and_run nand events).1
and_run-de_morgan_example = and_run-de_morgan nand events refl

-- An input before the start, and one after it.
abbrev off_new : TimerOff.Invariant.Run
off_new = record { ctx = TimerOff.new []; started = false; live = []; sent = none }

abbrev off_preset : TimerOff.Invariant.Run
off_preset =
    TimerOff.Invariant.after false off_new.live off_new.sent (TimerOff.input off_new.ctx on 5)

abbrev off_start : TimerOff.Invariant.Run
off_start =
    TimerOff.Invariant.after true off_preset.live off_preset.sent (TimerOff.start off_preset.ctx)

abbrev off_armed : TimerOff.Invariant.Run
off_armed =
    TimerOff.Invariant.after true off_start.live off_start.sent
      (TimerOff.input off_start.ctx (48 ∷ []) 6)

-- An input before the start, and one after it.
abbrev on_new : TimerOn.Invariant.Run
on_new = record { ctx = TimerOn.new []; started = false; live = []; sent = none }

abbrev on_preset : TimerOn.Invariant.Run
on_preset = TimerOn.Invariant.after false on_new.live on_new.sent (TimerOn.input on_new.ctx on 5)

abbrev on_start : TimerOn.Invariant.Run
on_start = TimerOn.Invariant.after true on_preset.live on_preset.sent (TimerOn.start on_preset.ctx)

abbrev on_armed : TimerOn.Invariant.Run
on_armed =
    TimerOn.Invariant.after true on_start.live on_start.sent
      (TimerOn.input on_start.ctx (48 ∷ []) 6)

-- An input before the start, and one after it.
abbrev pulse_new : TimerPulse.Invariant.Run
pulse_new = record { ctx = TimerPulse.new []; started = false; live = []; sent = none }

abbrev pulse_preset : TimerPulse.Invariant.Run
pulse_preset =
    TimerPulse.Invariant.after false pulse_new.live pulse_new.sent
      (TimerPulse.input pulse_new.ctx on 5)

abbrev pulse_start : TimerPulse.Invariant.Run
pulse_start =
    TimerPulse.Invariant.after true pulse_preset.live pulse_preset.sent
      (TimerPulse.start pulse_preset.ctx)

abbrev pulse_armed : TimerPulse.Invariant.Run
pulse_armed =
    TimerPulse.Invariant.after true pulse_start.live pulse_start.sent
      (TimerPulse.input pulse_start.ctx (48 ∷ []) 6)

pulse_armed-Reachable : TimerPulse.Invariant.Reachable [] pulse_armed
pulse_armed-Reachable =
    TimerPulse.Invariant.on_input pulse_start (48 ∷ []) 6
      (TimerPulse.Invariant.on_start pulse_preset
        (TimerPulse.Invariant.on_input pulse_new on 5 TimerPulse.Invariant.created (λ e. cc)) refl)
      (λ e. cc)

timer_pulse-IsValid_example : TimerPulse.Invariant.IsValid pulse_armed
timer_pulse-IsValid_example = timer_pulse-IsValid [] pulse_armed pulse_armed-Reachable

-- "period" is "9".
abbrev clock_props : Props
clock_props = record { name = TimerClock.period_name; value = 57 ∷ [] } ∷ []

abbrev clock : TimerClock.Ctx
clock = TimerClock.object (pos 9) (pos 4)

clock_props-new : TimerClock.new clock_props ≡ some clock
unfolding TimerClock.new find eq_bytes
clock_props-new = refl

new-delay_example :
    (pos 2 ≤ℤ clock.period) × (pos 1 ≤ℤ clock.delay) × (clock.delay ≤ℤ (clock.period -ℤ pos 1))
new-delay_example = new-delay clock_props clock clock_props-new

-- An input before the start, which sends 0 while the output is on.
abbrev clock_new : TimerClock.Invariant.Run
clock_new = TimerClock.Invariant.created_run clock

abbrev clock_on : TimerClock.Invariant.Run
clock_on =
    TimerClock.Invariant.after false clock_new.live clock_new.sent
      (TimerClock.input clock_new.ctx on 5 6)

-- A relay that gets 1 before its start, which asks for 0.
abbrev relay_on : Coils.Run
relay_on = Coils.at_input Coils.fresh on 4

-- The reference, then the input.
abbrev early : List (Cmp.Pad × List ℕ)
early = (Cmp.ref, 53 ∷ []) ∷ []

abbrev late : List (Cmp.Pad × List ℕ)
late = (Cmp.in_, 56 ∷ []) ∷ (Cmp.in_, 50 ∷ []) ∷ []

abbrev hysteresis : Props
hysteresis = named Cmp.hysteresis_name

run-IsValid_example :
    Hysteresis.IsValid
      (Hysteresis.run hysteresis early late).0
      (last_sent 0 none (Hysteresis.run hysteresis early late).1)
    × ((Hysteresis.run hysteresis early late).0.reference ≡ pos 5)
    × ((Hysteresis.run hysteresis early late).0.input ≡ pos 2)
unfolding Cmp.new find eq_bytes ◌-ℤ◌ ◌+ℤ◌
run-IsValid_example =
    run-IsValid hysteresis early late (omega arith) (omega arith) ((omega arith, omega arith), tt)
      tt

abbrev mux : Mux.Ctx
mux = record { sel = pos 0; inputs = some none ∷ none ∷ some (some on) ∷ [] }

-- Pad 2 is selected, and changes.
abbrev changes : List (Mux.Pad × List ℕ)
changes = (Mux.sel, 50 ∷ []) ∷ (Mux.in_ 2, 55 ∷ []) ∷ []

mux-Selects : Selects (Selected.run mux changes).0 (55 ∷ [])
unfolding Selected.run
mux-Selects = Selected.selects 2 refl refl
