-- ===== src/Classes/TimerClock/Delay.antt =====
-- classes/timer-clock/main.c: the setting of an object.
use hakit.Base.{
  ◌≡◌, refl, subst, Option, none, some, ℤ, pos, ◌-ℤ◌, ltb_ℤ, atoi, arith, Option-cases, Bool-cases,
  inl, inr, ◌≤ℤ◌,
}
use hakit.Core.Prop.{Props, prop_get}
use hakit.Classes.TimerClock.{
  Ctx, new, new_period, duty_delay, duty_name, period_name, clamp, object,
}

clamp-bounds :
    (period delay : ℤ)
    → pos 2 ≤ℤ period
    → (pos 1 ≤ℤ clamp period delay) × (clamp period delay ≤ℤ (period -ℤ pos 1))
unfolding clamp ◌-ℤ◌
clamp-bounds period delay h = ground arith

pub IsFresh : Option Ctx → Type 0
IsFresh none = Unit {0}
IsFresh (some c) =
    (pos 2 ≤ℤ c.period)
    × ((pos 1 ≤ℤ c.delay) × (c.delay ≤ℤ (c.period -ℤ pos 1)))
    × (c ≡ object c.period c.delay)

new_period-IsFresh : (props : Props) (period : ℤ) → IsFresh (new_period props period)
unfolding new_period IsFresh
new_period-IsFresh props period = elim (Bool-cases (ltb_ℤ period (pos 2))) [
  | inl e ↦ rw e tt
  | inr e ↦ elim (Option-cases (duty_delay period (prop_get props duty_name))) [
    | inl d ↦ rw (e, d) tt
    | inr (delay, d) ↦
        let low : pos 2 ≤ℤ period = ground arith in
        rw (e, d) (low, clamp-bounds period delay low, refl)
  ]
]

new-IsFresh : (props : Props) → IsFresh (new props)
unfolding IsFresh new
new-IsFresh props = elim (Option-cases (prop_get props period_name)) [
  | inl e ↦ rw (new, e) tt
  | inr (str, e) ↦ rw (new, e) (new_period-IsFresh props (atoi str))
]

pub new-object : (props : Props) (c : Ctx) → new props ≡ some c → c ≡ object c.period c.delay
unfolding IsFresh
new-object props c h = let (low, d, fresh) = subst IsFresh h (new-IsFresh props) in fresh

-- Every object that is set up has a period of at least 2 ms, and stays on for at least 1 ms and at
-- most 1 ms less than the period, whatever its property "duty" says.
pub new-delay :
    (props : Props) (c : Ctx)
    → new props ≡ some c
    → (pos 2 ≤ℤ c.period) × (pos 1 ≤ℤ c.delay) × (c.delay ≤ℤ (c.period -ℤ pos 1))
unfolding IsFresh
new-delay props c h =
    let (low, (one, top), fresh) = subst IsFresh h (new-IsFresh props) in (low, one, top)
