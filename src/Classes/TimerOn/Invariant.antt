-- ===== src/Classes/TimerOn/Invariant.antt =====
-- classes/timer-on/main.c: what holds between any two handlers.
use hakit.Base.{
  Bool, true, false, ◌⊎◌, ℕ, ◌≡◌, ◌≢◌, Option, none, some, List, [], ◌∷◌, ℤ, pos, ◌==◌,
  if◌then◌else◌, ◌||◌, ◌&&◌, not,
}
use hakit.Core.Prop.{Props}
use hakit.Classes.Calls.{Call, last_sent, timers, waiting, bit_xor}
use hakit.Classes.TimerOn.{Ctx, new, start, input, timeout}

-- The object in its surroundings: whether it was started, the timers that wait, and what its output
-- was sent last.
pub record Run : Type 0 where
  pub ctx : Ctx
  pub started : Bool
  pub live : List ℕ
  pub sent : Option ℤ

abbrev pub after : Bool → List ℕ → Option ℤ → Ctx × List Call → Run
after started live sent done = record {
  ctx = done.0;
  started = started;
  live = timers live (done.1);
  sent = last_sent 0 sent (done.1);
}

-- The runs of an object, which may get inputs before it is started. A tag of `sys_timeout` is not 0, and a timer that fires waits no longer.
pub data Reachable (props : Props) : Run → Type 0 where
  created : Reachable props (record { ctx = new props; started = false; live = []; sent = none })
  on_start :
      (r : Run)
      → Reachable props r
      → r.started ≡ false
      → Reachable props (after true r.live r.sent (start r.ctx))
  on_input :
      (r : Run) (value : List ℕ) (tag : ℕ)
      → Reachable props r
      → tag ≢ 0
      → Reachable props (after r.started r.live r.sent (input r.ctx value tag))
  on_timeout :
      (r : Run) (tag : ℕ)
      → Reachable props r
      → r.live ≡ tag ∷ []
      → Reachable props (after r.started [] r.sent (timeout r.ctx))

abbrev pub IsValid : Run → Type 0
IsValid r =
    (r.live ≡ waiting r.ctx.timeout_tag)
    × ((r.sent ≡ some (pos (bit_xor r.ctx.output r.ctx.inv)))
        ⊎ ((r.started ≡ false) × (r.sent ≡ none) × (r.ctx.output ≡ 0)))
    × (r.ctx.output ≡ (if not (r.ctx.input == 0) && r.ctx.timeout_tag == 0 then 1 else 0))
    × ((r.ctx.timeout_tag == 0 || not (r.ctx.input == 0)) ≡ true)
