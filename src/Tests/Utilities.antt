-- ===== src/Tests/Utilities.antt =====
-- core/: the theorems at concrete inputs.
use hakit.Base.{
  show_ℕ, ℕ, ◌-◌, ◌≤◌, ◌<◌, ◌≡◌, refl, Bool, true, false, some, List, [], ◌∷◌, ◌++◌, pos, arith,
  keep_last,
}
use hakit.Core.Buf.{Buf, append}
use hakit.Core.Buf.Storage.{IsValid, EndsAt, contents}
use hakit.Core.Buf.Append.{append-contents}
use hakit.Core.Trace.{init, clamp_depth, max_depth, dump}
use hakit.Core.Trace.Ring
use hakit.Core.Trace.Ring.{pushes, entries, init-pushes}
use hakit.Core.Trace.Dump.{AllFit, dump-pushes, dump_of}
use hakit.Core.StrArgv.{str_argv}
use hakit.Core.StrArgv.RoundTrip.{print, str_argv-print}
use hakit.Core.StrArgv.Words.{IsWord}
use hakit.Core.Command.{command_recv, command_new}
use hakit.Core.Command.Lines.{AllCommands, print_lines, command_recv-print_lines}
use hakit.Core.Prop.{Props}

abbrev always : ℕ → Bool
always n = true

abbrev never : ℕ → Bool
never n = false

-- "ab", with room for one byte more.
abbrev small : Buf
small = record { base = some (97 ∷ 98 ∷ 0 ∷ 0 ∷ []); size = 4; len = 2 }

small-IsValid : IsValid small
small-IsValid = (refl, omega arith)

append-contents_example :
    (b' : Buf) × (append always small (99 ∷ 100 ∷ []) ≡ some (pos 0, b'))
    × (contents b' ≡ contents small ++ (99 ∷ 100 ∷ []))
    × (b'.len ≡ 4)
    × IsValid b'
    × EndsAt b'.base b'.len
append-contents_example = append-contents always (λ n. refl) small (99 ∷ 100 ∷ []) small-IsValid

abbrev letter : List ℕ
letter = 99 ∷ []

abbrev points : List (ℕ × List ℕ)
points = (5, 49 ∷ []) ∷ (8, 48 ∷ []) ∷ (9, 50 ∷ []) ∷ []

init-pushes_example :
    (0 < clamp_depth (pos 3))
    × (clamp_depth (pos 3) ≤ max_depth)
    × (Ring.contents (pushes (init (97 ∷ []) (pos 3)) points)
        ≡ keep_last (clamp_depth (pos 3) - 1) (entries points))
init-pushes_example = init-pushes (97 ∷ []) (pos 3) points

points-AllFit : AllFit 10 (keep_last (clamp_depth (pos 3) - 1) points)
unfolding show_ℕ clamp_depth
points-AllFit = ground arith

dump-pushes_example :
    dump (pushes (init (97 ∷ []) (pos 3)) points) 0 0 10
    ≡ some (dump_of (97 ∷ []) 10 (keep_last (clamp_depth (pos 3) - 1) points))
dump-pushes_example = dump-pushes (97 ∷ []) (pos 3) points 10 points-AllFit

-- The arguments: a blank, a quote and a backslash; nothing; "ab".
abbrev args : List (List ℕ)
args = (32 ∷ 34 ∷ 92 ∷ []) ∷ [] ∷ (97 ∷ 98 ∷ []) ∷ []

str_argv-print_example : str_argv true (print args) ≡ args
str_argv-print_example = str_argv-print true args

word : (sc : Bool) → IsWord sc (97 ∷ [])
word true = ((λ e. cc), (refl, tt))
word false = ((λ e. cc), (refl, tt))

args-AllCommands : AllCommands (args ∷ args ∷ [])
args-AllCommands = ground arith

command_recv-print_lines_example :
    command_recv true (command_new true) (some (print_lines (args ∷ args ∷ [])))
    ≡ (1, args ∷ args ∷ [], command_new true)
command_recv-print_lines_example = command_recv-print_lines true (args ∷ args ∷ []) args-AllCommands

abbrev props : Props
props = record { name = 97 ∷ []; value = 49 ∷ [] } ∷ []
