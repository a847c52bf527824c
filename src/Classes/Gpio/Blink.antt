-- ===== src/Classes/Gpio/Blink.antt =====
-- classes/gpio/main.c: an output that may blink, between any two handlers.
use hakit.Base.{
  ℕ, ◌≤◌, ◌≡◌, ◌≢◌, inl, inr, Bool, true, false, ◌&&◌, not, Option, none, some, List, [], ◌∷◌, pos,
  ◌==◌, if◌then◌else◌, ltb_ℤ, arith, Option-cases,
}
use hakit.Core.Prop.{Props, prop_get}
use hakit.Classes.Calls.{timers, waiting, as_bit}
use hakit.Classes.Gpio.{
  Ctx, Out, new, input_name, output_name, blink_timer, input_pad, input_blink, is_on,
}

-- The value that was written last, when `written` follows on `old`.
abbrev pub last_written : Option ℕ → List ℕ → Option ℕ
last_written old [] = old
last_written old (v ∷ written) = last_written (some v) written

-- The object in its surroundings: the latest input as a bit, none before the first; the timers that wait, and
-- what the port was set to last.
pub record Run : Type 0 where
  pub ctx : Ctx
  pub asked : Option ℕ
  pub live : List ℕ
  pub sent : Option ℕ

abbrev pub after : Option ℕ → List ℕ → Option ℕ → Ctx × Out → Run
after asked live sent (c, out) = record {
  ctx = c;
  asked = asked;
  live = timers live out.calls;
  sent = last_written sent out.written;
}

-- The runs of an output. A tag of `sys_timeout` is not 0, and a timer that fires goes on.
pub data Reachable (props : Props) : Run → Type 0 where
  started :
      (c : Ctx) (low : Bool)
      → new props ≡ some (c, low)
      → c.input ≡ false
      → Reachable props (record { ctx = c; asked = none; live = []; sent = none })
  on_input :
      (r : Run) (value : List ℕ) (tag : ℕ)
      → Reachable props r
      → tag ≢ 0
      → Reachable props (after (some (as_bit value)) r.live r.sent (input_pad r.ctx value tag))
  on_blink :
      (r : Run) (value : List ℕ) (tag : ℕ)
      → Reachable props r
      → tag ≢ 0
      → Reachable props (after r.asked r.live r.sent (input_blink r.ctx value tag))
  on_timeout :
      (r : Run) (tag : ℕ)
      → Reachable props r
      → r.live ≡ tag ∷ []
      → Reachable props (after r.asked r.live r.sent (blink_timer r.ctx))

abbrev pub is_known : Option ℕ → Bool
is_known none = false
is_known (some v) = true

abbrev pub known_or_0 : Option ℕ → ℕ
known_or_0 none = 0
known_or_0 (some v) = v

abbrev pub IsValid : Run → Type 0
IsValid r =
    (r.live ≡ waiting r.ctx.timeout_tag)
    × (not (r.ctx.timeout_tag == 0) ≡ (is_on r.ctx.value && ltb_ℤ (pos 0) r.ctx.blink))
    × (r.ctx.pad ≤ 1)
    × (known_or_0 r.ctx.value ≤ 1)
    × (r.ctx.value ≡ r.asked)
    × (r.sent ≡ (if is_known r.ctx.value then some r.ctx.pad else none))
    × (r.ctx.timeout_tag ≡ 0 → r.ctx.pad ≡ known_or_0 r.ctx.value)

input_pad-IsValid :
    (r : Run) (value : List ℕ) (tag : ℕ)
    → IsValid r
    → tag ≢ 0
    → IsValid (after (some (as_bit value)) r.live r.sent (input_pad r.ctx value tag))
unfolding input_pad timers as_bit
input_pad-IsValid r value tag v nz = ground arith

blink_timer-IsValid :
    (r : Run) (tag : ℕ)
    → IsValid r
    → r.live ≡ tag ∷ []
    → IsValid (after r.asked r.live r.sent (blink_timer r.ctx))
unfolding blink_timer timers
blink_timer-IsValid r tag v e = ground arith

input_blink-IsValid :
    (r : Run) (value : List ℕ) (tag : ℕ)
    → IsValid r
    → tag ≢ 0
    → IsValid (after r.asked r.live r.sent (input_blink r.ctx value tag))
unfolding input_blink timers
input_blink-IsValid r value tag v nz = ground arith

new-IsValid :
    (props : Props) (c : Ctx) (low : Bool)
    → new props ≡ some (c, low)
    → IsValid (record { ctx = c; asked = none; live = []; sent = none })
unfolding new
new-IsValid props c low made = elim (Option-cases (prop_get props input_name)) [
  | inr (str, e) ↦ ground (arith, made, e)
  | inl e ↦ elim (Option-cases (prop_get props output_name)) [
    | inr (str, f) ↦ ground (arith, made, e, f)
    | inl f ↦ absurd (ground (arith, made, e, f))
  ]
]

-- Between any two handlers of an output, where the tags of timers are not 0: the timer that waits is the one
-- that the context knows of; it waits exactly if the output is on and a delay for blinking is set; the
-- port was set last to the state of the pad, if there was an input; and that is the value of the latest
-- input whenever no timer waits, so that blinking leaves nothing behind.
pub gpio-IsValid : (props : Props) (r : Run) → Reachable props r → IsValid r
gpio-IsValid props _ (started c low made output) = new-IsValid props c low made
gpio-IsValid props _ (on_input r value tag h nz) =
    input_pad-IsValid r value tag (gpio-IsValid props r h) nz
gpio-IsValid props _ (on_blink r value tag h nz) =
    input_blink-IsValid r value tag (gpio-IsValid props r h) nz
gpio-IsValid props _ (on_timeout r tag h e) = blink_timer-IsValid r tag (gpio-IsValid props r h) e
