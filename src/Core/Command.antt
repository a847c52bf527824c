-- ===== src/Core/Command.antt =====
-- core/command.c and core/include/command.h: bytes come in chunks, lines go to a handler. The
-- buffer of the line is the list of its bytes (Core.Buf.Append has what an append does), and the
-- handler's calls are returned, each as its `argv`.
pub mod Chunks
pub mod Lines
use hakit.Base.{
  ℕ, zero, suc, Bool, true, false, ◌&&◌, not, Option, none, some, List, [], ◌∷◌, ◌++◌, ltb, ◌==◌,
  if◌then◌else◌, length,
}
use hakit.Core.StrArgv.{str_argv}

pub record Command : Type 0 where
  pub line : List ℕ
  pub has_handler : Bool

-- The C string that a buffer begins with.
unfoldable pub c_string : List ℕ → List ℕ
c_string [] = []
c_string (c ∷ s) = if c == 0 then [] else c ∷ c_string s

-- The bytes before the first newline, and those behind it if there is one.
abbrev pub push_before : ℕ → List ℕ × Option (List ℕ) → List ℕ × Option (List ℕ)
push_before c (before, rest) = (c ∷ before, rest)

unfoldable pub until_newline : List ℕ → List ℕ × Option (List ℕ)
until_newline [] = ([], none)
until_newline (c ∷ s) = if c == 10 then ([], some s) else push_before c (until_newline s)

unfoldable pub is_empty : List ℕ → Bool
is_empty [] = true
is_empty (c ∷ s) = false

module _ (signed_char : Bool) where
  -- A whole line: the handler's call, if there is one.
  unfoldable pub dispatch : Bool → List ℕ → List (List (List ℕ))
  dispatch has_handler line =
      if has_handler && not (is_empty line) then str_argv signed_char (c_string line) ∷ [] else []

  -- What follows a segment: the end of the chunk, or the call for the line and `more`.
  unfoldable pub after_segment :
      (List ℕ → List (List (List ℕ)) × List ℕ)
      → Bool
      → List ℕ
      → List ℕ × Option (List ℕ)
      → List (List (List ℕ)) × List ℕ
  after_segment more has_handler line (before, none) = ([], line ++ before)
  after_segment more has_handler line (before, some s) =
      let (calls, line') = more s in (dispatch has_handler (line ++ before) ++ calls, line')

  -- What is left of a chunk, on fuel: the calls, and the line that has begun.
  unfoldable pub recv_from : ℕ → Bool → List ℕ → List ℕ → List (List (List ℕ)) × List ℕ
  recv_from zero has_handler line s = ([], line)
  recv_from (suc fuel) has_handler line [] = ([], line)
  recv_from (suc fuel) has_handler line (c ∷ s) =
      after_segment (recv_from fuel has_handler []) has_handler line (until_newline (c ∷ s))

  -- `buf` is `none` for NULL, the end of the input. The number is what the function returns.
  unfoldable pub command_recv : Command → Option (List ℕ) → ℕ × List (List (List ℕ)) × Command
  command_recv cmd none = (0, (if cmd.has_handler then [] ∷ [] else []), cmd)
  command_recv cmd (some buf) =
      let (calls, line) = recv_from (length buf) cmd.has_handler cmd.line buf in
      (1, calls, record cmd { line = line })

abbrev pub command_new : Bool → Command
command_new has_handler = record { line = []; has_handler = has_handler }

abbrev pub command_clear : Command → Command
command_clear cmd = record cmd { line = [] }
