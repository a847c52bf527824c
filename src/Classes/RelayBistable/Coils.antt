-- ===== src/Classes/RelayBistable/Coils.antt =====
-- classes/relay-bistable/main.c: which coil is on, and when both are.
use hakit.Base.{
  if◌then◌else◌, Bool, true, false, none, [], ◌⊎◌, not, ℕ, ◌+◌, ◌≡◌, ◌≢◌, ◌≤◌, Option, some, List,
  ◌∷◌, ℤ, pos, eq_ℤ, ◌==◌, ◌||◌, ◌&&◌,
}
use hakit.Classes.Calls.{
  Call, update_int, update_str, sys_remove, sys_timeout, last_sent, timers, as_bit,
}
use hakit.Classes.RelayBistable.{
  Ctx, new, start, input, timeout, refresh, pulse_delay, refresh_delay,
}

-- The delay of the timer that was set last.
unfoldable pub last_delay : ℤ → List Call → ℤ
last_delay d [] = d
last_delay d (sys_timeout t e ∷ calls) = last_delay e calls
last_delay d (update_int p v ∷ calls) = last_delay d calls
last_delay d (update_str p v ∷ calls) = last_delay d calls
last_delay d (sys_remove t ∷ calls) = last_delay d calls

-- The object in its surroundings: whether it was started; whether the start has asked for 0 while the input
-- was 1, and nothing else was asked for since; the timers that wait, the delay that the latest was set to,
-- and what each coil was sent last.
pub record Run : Type 0 where
  pub ctx : Ctx
  pub started : Bool
  pub stale : Bool
  pub live : List ℕ
  pub delay : ℤ
  pub sent_0 : Option ℤ
  pub sent_1 : Option ℤ

abbrev pub after : Run → Bool → List ℕ → Ctx × List Call → Run
after r stale live done = record {
  ctx = done.0;
  started = r.started;
  stale = stale;
  live = timers live (done.1);
  delay = last_delay r.delay (done.1);
  sent_0 = last_sent 0 r.sent_0 (done.1);
  sent_1 = last_sent 1 r.sent_1 (done.1);
}

abbrev pub fresh : Run
fresh = record {
  ctx = new;
  started = false;
  stale = false;
  live = [];
  delay = pos 0;
  sent_0 = none;
  sent_1 = none;
}

abbrev pub at_start : Run → ℕ → Run
at_start r tag = record (after r (not (r.ctx.input == 0)) r.live (start r.ctx tag)) {
  started = true;
}

abbrev pub at_input : Run → List ℕ → ℕ → Run
at_input r value tag =
    after r (r.stale && as_bit value == r.ctx.input) r.live (input r.ctx value tag)

-- The runs of an object, which may get inputs before it is started. A tag of `sys_timeout` is not 0, and a
-- timer that fires waits no longer.
pub data Reachable : Run → Type 0 where
  created : Reachable fresh
  on_start :
      (r : Run) (tag : ℕ) → Reachable r → r.started ≡ false → tag ≢ 0 → Reachable (at_start r tag)
  on_input :
      (r : Run) (value : List ℕ) (tag : ℕ)
      → Reachable r
      → tag ≢ 0
      → Reachable (at_input r value tag)
  on_timeout :
      (r : Run) (tag : ℕ)
      → Reachable r
      → r.live ≡ r.ctx.timeout_tag ∷ []
      → r.delay ≡ pulse_delay
      → tag ≢ 0
      → Reachable (after r r.stale [] (timeout r.ctx tag))
  on_refresh :
      (r : Run) (tag : ℕ)
      → Reachable r
      → r.live ≡ r.ctx.timeout_tag ∷ []
      → r.delay ≡ refresh_delay
      → tag ≢ 0
      → Reachable (after r false [] (refresh r.ctx tag))

-- Nothing was asked for so far.
abbrev pub IsFresh : Run → Type 0
IsFresh r =
    (r.started ≡ false)
    × (r.stale ≡ false)
    × (r.live ≡ [])
    × (r.ctx.input ≡ 0)
    × (r.ctx.timeout_tag ≡ 0)
    × (r.ctx.coil_0 ≡ 0)
    × (r.ctx.coil_1 ≡ 0)
    × (r.sent_0 ≡ none)
    × (r.sent_1 ≡ none)

-- The state that was asked for last.
abbrev pub asked : Run → ℕ
asked r = if r.stale then 0 else r.ctx.input

-- During a pulse the coil that was asked for is on and the other off; else both are off.
abbrev pub IsDriven : Run → Type 0
IsDriven r =
    (r.ctx.input ≤ 1)
    × ((not r.stale || r.ctx.input == 1) ≡ true)
    × (r.ctx.timeout_tag ≢ 0)
    × (r.live ≡ r.ctx.timeout_tag ∷ [])
    × (r.sent_0 ≡ some (pos r.ctx.coil_0))
    × (r.sent_1 ≡ some (pos r.ctx.coil_1))
    × (((r.delay ≡ pulse_delay) × (r.ctx.coil_1 ≡ asked r) × (r.ctx.coil_0 + r.ctx.coil_1 ≡ 1))
        ⊎ ((r.delay ≡ refresh_delay) × (r.ctx.coil_1 ≡ 0) × (r.ctx.coil_0 ≡ 0)))

abbrev pub IsValid : Run → Type 0
IsValid r = IsFresh r ⊎ IsDriven r

abbrev is_on : Option ℤ → Bool
is_on none = false
is_on (some v) = eq_ℤ v (pos 1)

-- Whether both coils have got 1 at once, from what they had before.
unfoldable pub overlaps : Option ℤ → Option ℤ → List Call → Bool
unfolding last_sent
overlaps a b [] = false
overlaps a b (c ∷ calls) =
    let a' = last_sent 0 a (c ∷ []) in
    let b' = last_sent 1 b (c ∷ []) in is_on a' && is_on b' || overlaps a' b' calls
