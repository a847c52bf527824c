-- ===== src/Classes/Proc/Running.antt =====
-- classes/proc/main.c: what holds between any two handlers.
use hakit.Base.{ℕ, ◌≡◌, ◌≢◌, Bool, true, false, Option, none, some, List, [], ◌∷◌, ℤ, pos, eq_ℤ}
use hakit.Core.Prop.{Props}
use hakit.Classes.Calls.{last_sent, timers, waiting}
use hakit.Classes.Proc.{Ctx, Out, new, respawn, enable, term}

-- The object in its surroundings: the timers that wait, and what the pad "run" was sent last.
pub record Run : Type 0 where
  pub ctx : Ctx
  pub live : List ℕ
  pub sent : Option ℤ

abbrev pub after : List ℕ → Option ℤ → Ctx × Out → Run
after live sent (c, out) = record {
  ctx = c;
  live = timers live out.calls;
  sent = last_sent 0 sent out.calls;
}

module _ (value_of : List ℕ → Option (List ℕ)) (signed_char : Bool) where
  -- The runs of an object. A program that runs may end; a tag of `sys_timeout` is not 0, and a timer that
  -- fires waits no longer.
  pub data Reachable (props : Props) : Run → Type 0 where
    started :
        (c : Ctx)
        → new signed_char props ≡ some c
        → Reachable props (record { ctx = c; live = []; sent = none })
    on_enable :
        (r : Run) (value : ℤ) (up : Bool)
        → Reachable props r
        → Reachable props (after r.live r.sent (enable value_of up r.ctx value))
    on_term :
        (r : Run) (status : ℤ) (tag : ℕ)
        → Reachable props r
        → r.ctx.running ≡ true
        → tag ≢ 0
        → Reachable props (after r.live r.sent (term r.ctx status tag))
    on_timeout :
        (r : Run) (tag : ℕ) (up : Bool)
        → Reachable props r
        → r.live ≡ tag ∷ []
        → Reachable props (after [] r.sent (respawn value_of up r.ctx))

  abbrev pub is_one : Option ℤ → Bool
  is_one none = false
  is_one (some v) = eq_ℤ v (pos 1)

  abbrev pub IsValid : Run → Type 0
  IsValid r = (r.live ≡ waiting r.ctx.respawn_tag) × (is_one r.sent ≡ r.ctx.running)
