-- ===== src/Classes/Proc.antt =====
-- classes/proc/main.c: an object that runs a program. Its output pads are "run" (0), "out" (1) and "status"
-- (2). What os/linux/proc.c is asked for is in the list of actions; `up` is whether the program starts, and
-- `tag` what `sys_timeout` returns. Calls and actions are each in order.
pub mod Running
use hakit.Base.{
  ℕ, ◌*◌, Bool, true, false, ◌&&◌, not, Option, none, some, List, [], ◌∷◌, ◌++◌, ℤ, pos, negsuc,
  ◌==◌, if◌then◌else◌, ltb_ℤ, eq_ℤ, atoi, eq_bytes,
}
use hakit.Core.Prop.{Props, prop_get}
use hakit.Core.StrArgv.{str_argv}
use hakit.Classes.Calls.{Call, update_int, update_str, sys_remove, sys_timeout}

pub data Mode : Type 0 where
  mode_command mode_agent : Mode

pub record Ctx : Type 0 where
  pub cmd_argv : List (List ℕ)
  pub mode : Mode
  pub respawn_delay : ℤ
  pub respawn_tag : ℕ
  pub enable : ℤ
  pub running : Bool

-- `hk_proc_start`, `hk_proc_stop` and `hk_proc_write`.
pub data Action : Type 0 where
  proc_start : List (List ℕ) → Action
  proc_stop : Action
  proc_write : List ℕ → Action

pub record Out : Type 0 where
  pub calls : List Call
  pub actions : List Action

abbrev pub nothing : Out
nothing = record { calls = []; actions = [] }

abbrev pub cmd_name : List ℕ
cmd_name = b'c' ∷ b'm' ∷ b'd' ∷ []

abbrev pub mode_name : List ℕ
mode_name = b'm' ∷ b'o' ∷ b'd' ∷ b'e' ∷ []

abbrev pub respawn_name : List ℕ
respawn_name = b'r' ∷ b'e' ∷ b's' ∷ b'p' ∷ b'a' ∷ b'w' ∷ b'n' ∷ []

-- The property "mode", none for a mode that is not known.
unfoldable pub mode_of : Option (List ℕ) → Option Mode
mode_of none = some mode_command
mode_of (some s) =
    if eq_bytes s (b'c' ∷ b'o' ∷ b'm' ∷ b'm' ∷ b'a' ∷ b'n' ∷ b'd' ∷ [])
    then some mode_command
    else if eq_bytes s (b'a' ∷ b'g' ∷ b'e' ∷ b'n' ∷ b't' ∷ [])
    then some mode_agent
    else none

abbrev pub delay_of : Option (List ℕ) → ℤ
delay_of none = pos 0
delay_of (some s) = atoi s

-- `_new`, none for an error.
unfoldable pub new : Bool → Props → Option Ctx
new signed_char props = elim (prop_get props cmd_name) [
  | none ↦ none
  | some cmd ↦ elim (mode_of (prop_get props mode_name)) [
    | none ↦ none
    | some mode ↦ some (record {
      cmd_argv = str_argv signed_char cmd;
      mode = mode;
      respawn_delay = delay_of (prop_get props respawn_name);
      respawn_tag = 0;
      enable = pos 0;
      running = false;
    })
  ]
]

-- The lines of `_stdout`: a piece at the end without a newline is a line, too.
unfoldable pub lines : List ℕ → List ℕ → List (List ℕ)
lines [] [] = []
lines (d ∷ line) [] = (d ∷ line) ∷ []
lines line (c ∷ buf) = elim (c == 10) [
  | true ↦ line ∷ lines [] buf
  | false ↦ lines (line ++ (c ∷ [])) buf
]

unfoldable pub to_out : List (List ℕ) → List Call
to_out [] = []
to_out (line ∷ rest) = update_str 1 line ∷ to_out rest

-- `_stdout`
abbrev pub stdout : List ℕ → Out
stdout buf = record { calls = to_out (lines [] buf); actions = [] }

-- An argument "$<pad>" is the value of the pad, if there is one; `value_of` is `hk_pad_get_value`.
abbrev pub given : List ℕ → Option (List ℕ) → List ℕ
given arg none = arg
given arg (some s) = s

unfoldable pub arguments : (List ℕ → Option (List ℕ)) → List (List ℕ) → List (List ℕ)
arguments value_of [] = []
arguments value_of ([] ∷ argv) = [] ∷ arguments value_of argv
arguments value_of ((c ∷ s) ∷ argv) =
    let rest = arguments value_of argv in
    if c == b'$' then given (c ∷ s) (value_of s) ∷ rest else (c ∷ s) ∷ rest

module _ (value_of : List ℕ → Option (List ℕ)) where
  -- `_start`
  unfoldable pub start : Bool → Ctx → Ctx × Out
  start up ctx = if ctx.running then (ctx, nothing) else (
    record ctx { running = up },
    record {
      calls = if up then update_int 0 (pos 1) ∷ [] else [];
      actions = proc_start (arguments value_of ctx.cmd_argv) ∷ [];
    },
  )

  -- `_respawn`
  unfoldable pub respawn : Bool → Ctx → Ctx × Out
  respawn up ctx =
      let c : Ctx = record ctx { respawn_tag = 0 } in
      if eq_ℤ ctx.enable (pos 0) then (c, nothing) else start up c

  abbrev pub kills : Ctx → List Action
  kills ctx = elim ctx.mode [
    | mode_command ↦ []
    | mode_agent ↦ if ctx.running then proc_stop ∷ [] else []
  ]

  abbrev pub cancel : Ctx → List Call
  cancel ctx = if ctx.respawn_tag == 0 then [] else sys_remove ctx.respawn_tag ∷ []

  -- `_enable`
  unfoldable pub enable : Bool → Ctx → ℤ → Ctx × Out
  enable up ctx value =
      let c : Ctx = record ctx { enable = value } in
      if eq_ℤ value ctx.enable
      then (ctx, nothing)
      else if eq_ℤ value (pos 0)
      then (record c { respawn_tag = 0 }, record { calls = cancel ctx; actions = kills ctx })
      else start up c

-- `_term`; the delay is in seconds.
unfoldable pub term : Ctx → ℤ → ℕ → Ctx × Out
term ctx status tag =
    let told = update_int 0 (pos 0) ∷ update_int 2 status ∷ [] in
    let c : Ctx = record ctx { running = false } in
    elim ctx.respawn_delay [
      | pos delay ↦ if delay == 0 then (c, record { calls = told; actions = [] }) else (
        record c { respawn_tag = tag },
        record {
          calls =
              told
              ++ ((if ctx.respawn_tag == 0 then [] else sys_remove ctx.respawn_tag ∷ [])
                  ++ (sys_timeout tag (pos (delay * 1000)) ∷ []));
          actions = [];
        },
      )
      | negsuc delay ↦ (c, record { calls = told; actions = [] })
    ]

-- `_in`
unfoldable pub write_in : Ctx → List ℕ → Out
write_in ctx value =
    if ctx.running
    then record { calls = []; actions = proc_write value ∷ proc_write (10 ∷ []) ∷ [] }
    else nothing
