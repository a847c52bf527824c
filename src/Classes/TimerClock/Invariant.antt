-- ===== src/Classes/TimerClock/Invariant.antt =====
-- classes/timer-clock/main.c: what holds between any two handlers.
use hakit.Base.{
  Bool, true, false, none, [], ◌⊎◌, ℕ, ◌≡◌, ◌≢◌, Option, some, List, ◌++◌, ℤ, pos, eq_ℤ, ◌==◌,
  if◌then◌else◌, ◌||◌, not,
}
use hakit.Core.Prop.{Props}
use hakit.Classes.Calls.{Call, last_sent, timers, remove, waiting}
use hakit.Classes.TimerClock.{Ctx, new, start, input, enable, duty_handler, period_handler}

-- The object in its surroundings: whether it was started, and whether its start was the latest handler; the
-- timers that wait, and what its output was sent last.
pub record Run : Type 0 where
  pub ctx : Ctx
  pub started : Bool
  pub just : Bool
  pub live : List ℕ
  pub sent : Option ℤ

abbrev pub after : Bool → List ℕ → Option ℤ → Ctx × List Call → Run
after started live sent done = record {
  ctx = done.0;
  started = started;
  just = false;
  live = timers live (done.1);
  sent = last_sent 0 sent (done.1);
}

abbrev pub at_start : Run → Run
at_start r = record (after true r.live r.sent (start r.ctx)) { just = true }

abbrev pub created_run : Ctx → Run
created_run c = record { ctx = c; started = false; just = false; live = []; sent = none }

-- The runs of an object, which may get inputs before it is started. A tag of `sys_timeout` is not 0, and not that of another timer. The timer of
-- the period stays when it fires, that of the duty does not. The duty is shorter than the period, so
-- that its timer has fired when the period's fires again.
pub data Reachable (props : Props) : Run → Type 0 where
  created : (c : Ctx) → new props ≡ some c → Reachable props (created_run c)
  on_start : (r : Run) → Reachable props r → r.started ≡ false → Reachable props (at_start r)
  on_input :
      (r : Run) (value : List ℕ) (tag tag' : ℕ)
      → Reachable props r
      → tag ≢ 0
      → tag' ≢ 0
      → tag ≢ tag'
      → Reachable props (after r.started r.live r.sent (input r.ctx value tag tag'))
  on_duty :
      (r : Run)
      → Reachable props r
      → r.ctx.duty_tag ≢ 0
      → Reachable props (after r.started (remove r.ctx.duty_tag r.live) r.sent (duty_handler r.ctx))
  on_period :
      (r : Run) (tag : ℕ)
      → Reachable props r
      → r.ctx.period_tag ≢ 0
      → r.ctx.duty_tag ≡ 0
      → tag ≢ 0
      → tag ≢ r.ctx.period_tag
      → Reachable props (after r.started r.live r.sent (period_handler r.ctx tag))

abbrev pub IsValid : Run → Type 0
IsValid r =
    (r.live ≡ waiting r.ctx.duty_tag ++ waiting r.ctx.period_tag)
    × (((r.just ≡ true) × (r.sent ≡ some (pos 0)))
        ⊎ (((r.just ≡ false) × (r.sent ≡ some (pos r.ctx.output)))
            ⊎ ((r.started ≡ false) × (r.just ≡ false) × (r.sent ≡ none) × (r.ctx.output ≡ 0))))
    × (r.ctx.output ≡ (if r.ctx.duty_tag == 0 then 0 else 1))
    × ((r.ctx.duty_tag == 0 || not (r.ctx.period_tag == 0)) ≡ true)
    × ((r.ctx.period_tag == 0 || not (r.ctx.duty_tag == r.ctx.period_tag)) ≡ true)
    × (eq_ℤ r.ctx.enable (pos 1) ≡ not (r.ctx.period_tag == 0))
