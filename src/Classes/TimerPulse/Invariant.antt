-- ===== src/Classes/TimerPulse/Invariant.antt =====
-- classes/timer-pulse/main.c: what holds between any two handlers.
use hakit.Base.{
  Bool, true, false, ◌⊎◌, inl, inr, ℕ, ◌≡◌, ◌≢◌, Option, none, some, List, [], ◌∷◌, ℤ, pos, ◌==◌,
  if◌then◌else◌, arith, Bool-cases,
}
use hakit.Core.Prop.{Props}
use hakit.Classes.Calls.{Call, last_sent, timers, waiting, bit_xor, as_bit}
use hakit.Classes.TimerPulse.{Ctx, new, start, input, timeout, set_output, pulse, is_edge}

-- The object in its surroundings: whether it was started, the timers that wait, and what its output
-- was sent last.
pub record Run : Type 0 where
  pub ctx : Ctx
  pub started : Bool
  pub live : List ℕ
  pub sent : Option ℤ

abbrev pub after : Bool → List ℕ → Option ℤ → Ctx × List Call → Run
after started live sent done = record {
  ctx = done.0;
  started = started;
  live = timers live (done.1);
  sent = last_sent 0 sent (done.1);
}

-- The runs of an object, which may get inputs before it is started. A tag of `sys_timeout` is not 0, and a timer that fires waits no longer.
pub data Reachable (props : Props) : Run → Type 0 where
  created : Reachable props (record { ctx = new props; started = false; live = []; sent = none })
  on_start :
      (r : Run)
      → Reachable props r
      → r.started ≡ false
      → Reachable props (after true r.live r.sent (start r.ctx))
  on_input :
      (r : Run) (value : List ℕ) (tag : ℕ)
      → Reachable props r
      → tag ≢ 0
      → Reachable props (after r.started r.live r.sent (input r.ctx value tag))
  on_timeout :
      (r : Run) (tag : ℕ)
      → Reachable props r
      → r.live ≡ tag ∷ []
      → Reachable props (after r.started [] r.sent (timeout r.ctx))

abbrev pub IsValid : Run → Type 0
IsValid r =
    (r.live ≡ waiting r.ctx.timeout_tag)
    × ((r.sent ≡ some (pos (bit_xor r.ctx.output r.ctx.inv)))
        ⊎ ((r.started ≡ false) × (r.sent ≡ none) × (r.ctx.output ≡ 0)))
    × (r.ctx.output ≡ (if r.ctx.timeout_tag == 0 then 0 else 1))

new-IsValid :
    (props : Props) → IsValid (record { ctx = new props; started = false; live = []; sent = none })
unfolding new
new-IsValid props = ground arith

start-IsValid : (r : Run) → IsValid r → IsValid (after true r.live r.sent (start r.ctx))
unfolding timers last_sent start set_output
start-IsValid r v = ground arith

timeout-IsValid :
    (r : Run) (tag : ℕ)
    → IsValid r
    → r.live ≡ tag ∷ []
    → IsValid (after r.started [] r.sent (timeout r.ctx))
unfolding timers last_sent timeout set_output
timeout-IsValid r tag v e = ground arith

pulse-IsValid :
    (c : Ctx) (tag : ℕ) (started : Bool) (live : List ℕ) (sent : Option ℤ)
    → IsValid (record { ctx = c; started = started; live = live; sent = sent })
    → tag ≢ 0
    → IsValid (after started live sent (pulse c tag))
unfolding timers last_sent pulse set_output
pulse-IsValid c tag started live sent v nz = ground arith

input-IsValid :
    (r : Run) (value : List ℕ) (tag : ℕ)
    → IsValid r
    → tag ≢ 0
    → IsValid (after r.started r.live r.sent (input r.ctx value tag))
unfolding timers last_sent input
input-IsValid r value tag v nz =
    let c = record r.ctx { input = as_bit value } in
    elim (Bool-cases (is_edge c.edge r.ctx.input (as_bit value))) [
      | inl e ↦ rw e (pulse-IsValid c tag r.started r.live r.sent v nz)
      | inr e ↦ rw e v
    ]

-- Between any two handlers of an object, with any inputs before and after its start, where the tags of timers are not 0, the timers
-- that wait are exactly the one that the context knows of, or none; the output was sent last as
-- it is, inverted if that is asked for, or before the start is off and was sent nothing; and the output is on exactly if a timer waits.
pub timer_pulse-IsValid : (props : Props) (r : Run) → Reachable props r → IsValid r
timer_pulse-IsValid props _ created = new-IsValid props
timer_pulse-IsValid props _ (on_start r h e) = start-IsValid r (timer_pulse-IsValid props r h)
timer_pulse-IsValid props _ (on_input r value tag h nz) =
    input-IsValid r value tag (timer_pulse-IsValid props r h) nz
timer_pulse-IsValid props _ (on_timeout r tag h e) =
    timeout-IsValid r tag (timer_pulse-IsValid props r h) e
