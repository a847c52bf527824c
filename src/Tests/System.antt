-- ===== src/Tests/System.antt =====
-- os/linux/sys.c: the theorems at concrete inputs.
use hakit.Base.{
  ◌+◌, ◌*◌, ℕ, zero, suc, ◌<◌, ◌≡◌, ◌≢◌, ◌⊎◌, refl, true, false, some, [], ◌∷◌, map, length, get_or,
  ℤ, pos, negsuc, arith,
}
use hakit.Os.Sys.{timeout, Sys, no_source, init, sys_timeout}
use hakit.Os.Sys.Loop.{Call, check_timers, next_timeout}
use hakit.Os.Sys.Tags.{IsTagged, tag_at}
use hakit.Os.Sys.Steps.{add_timeout, start, after, Reached-IsTagged}
use hakit.Os.Sys.Removal.{SetAndRemoved, sys_timeout-remove}
use hakit.Os.Sys.Timers.{fired, notes, check_timers-fired}
use hakit.Os.Sys.Waiting.{is_timer, WaitsForTimers, check_timers-next_timeout}

Reached-IsTagged_example : IsTagged (sys_timeout init 5 100 7).1
Reached-IsTagged_example =
    Reached-IsTagged
      (after init (sys_timeout init 5 100 7).1 start (add_timeout init 5 100 7 (omega arith)))

sys_timeout-remove_example :
    ((sys_timeout init 5 100 7 ≡ (0, init))
      × ((i : ℕ) → i < length init.sources → tag_at init i ≢ 0))
    ⊎ SetAndRemoved init 5 100 7
sys_timeout-remove_example = sys_timeout-remove init 5 100 7 (omega arith) (Reached-IsTagged start)

-- A callback returns its own number: 0 ends its timer.
abbrev echo : ℕ → Call → Sys → ℤ × Sys
echo f call sys = (pos f, sys)

-- The same, which uses up some tags.
abbrev tags : ℕ → Call → Sys → ℤ × Sys
tags f call sys = (pos f, record sys { last_tag = 2 * sys.last_tag + f })

-- A timer that is due and goes on, one that is due and ends, and one that is not due.
abbrev three_timers : Sys
three_timers = record {
  last_tag = 3;
  quit_requested = false;
  sources =
      record no_source { tag = 1; func = some 1; kind = timeout; delay = 50; t = 90 }
      ∷ record no_source { tag = 2; func = some 0; kind = timeout; delay = 10; t = 100 }
      ∷ record no_source { tag = 3; func = some 1; kind = timeout; delay = 30; t = 120 }
      ∷ [];
}

check_timers-fired_example :
    check_timers tags 100 3 0 three_timers
    ≡ record three_timers { last_tag = 14; sources = map (fired pos 100) three_timers.sources }
unfolding notes
check_timers-fired_example =
    check_timers-fired tags pos (λ f t. 2 * t + f) (λ f sys. refl) 100 three_timers

delays :
    (i : ℕ)
    → is_timer (get_or three_timers.sources i no_source) ≡ true
    → 0 < (get_or three_timers.sources i no_source).delay
delays zero h = omega arith
delays (suc zero) h = omega arith
delays (suc (suc zero)) h = omega arith
delays (suc (suc (suc i))) h = absurd (ground (arith, h))

check_timers-next_timeout_example :
    WaitsForTimers 100
      (check_timers echo 100 3 0 three_timers).sources
      (next_timeout 100 (negsuc 0) (check_timers echo 100 3 0 three_timers).sources)
check_timers-next_timeout_example =
    check_timers-next_timeout echo pos (λ f sys. refl) 100 three_timers delays
