-- ===== src/Tests/Devices.antt =====
-- classes/gpio/main.c, core/ws_auth.c: the theorems at concrete inputs.
use hakit.Base.{pos, Option, ℕ, refl, true, false, none, some, List, [], ◌∷◌, arith, eq_bytes}
use hakit.Core.StrArgv.{str_argv}
use hakit.Classes.Proc
use hakit.Classes.Proc.{mode_command, cmd_name, enable}
use hakit.Classes.Proc.Running
use hakit.Classes.Calls.{as_bit}
use hakit.Core.Prop.{Props, prop_get, find}
use hakit.Core.WsAuth.Access.{file_of}
use hakit.Classes.Gpio.{new, new_port, input_pad, input_blink, output_name}
use hakit.Classes.Gpio.Blink.{
  Run, after, Reachable, IsValid, started, on_input, on_blink, gpio-IsValid,
}

abbrev props : Props
props = record { name = output_name; value = b'4' ∷ [] } ∷ []

abbrev led : Run
led = record { ctx = (new_port props false (b'4' ∷ [])).0; asked = none; live = []; sent = none }

led-Reachable : Reachable props led
unfolding new prop_get find eq_bytes
led-Reachable = started (new_port props false (b'4' ∷ [])).0 false refl refl

abbrev lit : Run
lit = after (some (as_bit (b'1' ∷ []))) led.live led.sent (input_pad led.ctx (b'1' ∷ []) 3)

-- The output is on, and then blinks.
gpio-IsValid_example :
    IsValid (after lit.asked lit.live lit.sent (input_blink lit.ctx (b'9' ∷ []) 5))
gpio-IsValid_example =
    gpio-IsValid props (after lit.asked lit.live lit.sent (input_blink lit.ctx (b'9' ∷ []) 5)) (
      on_blink lit (b'9' ∷ []) 5 (on_input led (b'1' ∷ []) 3 led-Reachable (omega arith))
        (omega arith))

abbrev same : List ℕ → List ℕ
same s = s

abbrev user : List ℕ
user = b'a' ∷ b':' ∷ b'b' ∷ []

abbrev no_header : Option (List ℕ)
no_header = none

-- A file of one line, with a newline.
abbrev users_file : List ℕ
users_file = file_of (user ∷ []) []

abbrev cmd_props : Props
cmd_props = record { name = cmd_name; value = b'a' ∷ [] } ∷ []

abbrev no_value : List ℕ → Option (List ℕ)
no_value s = none

abbrev agent : Proc.Ctx
agent = record {
  cmd_argv = str_argv true (b'a' ∷ []);
  mode = mode_command;
  respawn_delay = pos 0;
  respawn_tag = 0;
  enable = pos 0;
  running = false;
}

abbrev idle : Running.Run
idle = record { ctx = agent; live = []; sent = none }
