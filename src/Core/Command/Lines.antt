-- ===== src/Core/Command/Lines.antt =====
-- core/command.c: commands that are written as lines of quoted arguments reach the handler.
use hakit.Base.{
  ℕ, ◌≡◌, ◌≢◌, refl, sym, ap, ap₂, ◌∙◌, Bool, true, false, ◌||◌, some, List, [], ◌∷◌, ◌++◌, ◌==◌,
  arith, append-nil, append_assoc, Bool-cases, inl, inr,
}
use hakit.Core.StrArgv.{str_argv}
use hakit.Core.StrArgv.RoundTrip.{escaped, print, str_argv-print}
use hakit.Core.Command.{command_new, dispatch, c_string, is_empty, command_recv}
use hakit.Core.Command.Chunks.{bytes, recv-bytes}

-- No byte is a newline or NUL.
abbrev pub OneLine : List ℕ → Type 0
OneLine [] = Unit {0}
OneLine (c ∷ s) = (c ≢ 10) × (c ≢ 0) × OneLine s

abbrev pub AllOneLine : List (List ℕ) → Type 0
AllOneLine [] = Unit {0}
AllOneLine (arg ∷ args) = OneLine arg × AllOneLine args

-- Commands of at least one argument.
abbrev pub AllCommands : List (List (List ℕ)) → Type 0
AllCommands [] = Unit {0}
AllCommands (args ∷ cmds) = (args ≢ []) × AllOneLine args × AllCommands cmds

-- Each command on a line of its own.
pub print_lines : List (List (List ℕ)) → List ℕ
print_lines [] = []
print_lines (args ∷ cmds) = print args ++ (10 ∷ print_lines cmds)

pub OneLine-append : (s t : List ℕ) → OneLine s → OneLine t → OneLine (s ++ t)
OneLine-append [] t h k = k
OneLine-append (c ∷ s) t (p, q, h) k = (p, q, OneLine-append s t h k)

OneLine-escaped : (s : List ℕ) → OneLine s → OneLine (escaped s)
unfolding escaped
OneLine-escaped [] h = tt
OneLine-escaped (c ∷ s) (p, q, h) = elim (Bool-cases (c == 34 || c == 92)) [
  | inl e ↦ rw e (omega arith, omega arith, (p, q, OneLine-escaped s h))
  | inr e ↦ rw e (p, q, OneLine-escaped s h)
]

OneLine-print : (args : List (List ℕ)) → AllOneLine args → OneLine (print args)
unfolding print
OneLine-print [] h = tt
OneLine-print (arg ∷ args) (h, k) = (
  omega arith,
  omega arith,
  OneLine-append (escaped arg) (34 ∷ (32 ∷ print args)) (OneLine-escaped arg h)
      (omega arith, omega arith, (omega arith, omega arith, OneLine-print args k)),
)

pub c_string-OneLine : (s : List ℕ) → OneLine s → c_string s ≡ s
unfolding c_string
c_string-OneLine [] h = refl
c_string-OneLine (c ∷ s) (p, q, h) = ground (arith, c_string-OneLine s h)

-- A line of bytes and its newline.
pub bytes-line :
    (sc has : Bool) (line s rest : List ℕ)
    → OneLine s
    → bytes sc has line (s ++ (10 ∷ rest))
      ≡ (dispatch sc has (line ++ s) ++ (bytes sc has [] rest).0, (bytes sc has [] rest).1)
unfolding bytes
bytes-line sc has line [] rest h =
    ap (λ k. (dispatch sc has k ++ (bytes sc has [] rest).0, (bytes sc has [] rest).1))
      (sym (append-nil line))
bytes-line sc has line (c ∷ s) rest (p, q, h) = rw (other c p) (
    bytes-line sc has (line ++ (c ∷ [])) s rest h
    ∙ ap (λ k. (dispatch sc has k ++ (bytes sc has [] rest).0, (bytes sc has [] rest).1))
        (append_assoc line (c ∷ []) s))
  where
    other : (c : ℕ) → c ≢ 10 → (c == 10) ≡ false
    other c p = ground arith

dispatch-print :
    (sc : Bool) (args : List (List ℕ))
    → args ≢ []
    → AllOneLine args
    → dispatch sc true (print args) ≡ args ∷ []
unfolding dispatch is_empty print
dispatch-print sc [] ne ok = absurd (ne refl)
dispatch-print sc (arg ∷ args) ne ok =
    ap (λ (s : List ℕ). str_argv sc s ∷ [])
      (c_string-OneLine (print (arg ∷ args)) (OneLine-print (arg ∷ args) ok))
    ∙ ap (λ k. k ∷ []) (str_argv-print sc (arg ∷ args))

bytes-print_lines :
    (sc : Bool) (cmds : List (List (List ℕ)))
    → AllCommands cmds
    → bytes sc true [] (print_lines cmds) ≡ (cmds, [])
unfolding print_lines
bytes-print_lines sc [] ok = unfold bytes in refl
bytes-print_lines sc (args ∷ cmds) (ne, one, ok) =
    bytes-line sc true [] (print args) (print_lines cmds) (OneLine-print args one)
    ∙ ap₂ (λ (d : List (List (List ℕ))) (r : List (List (List ℕ)) × List ℕ). (d ++ r.0, r.1))
        (dispatch-print sc args ne one) (bytes-print_lines sc cmds ok)

-- Commands of one or more quoted arguments without newlines or NUL characters, each on a line,
-- all in one chunk: a new receiver with a handler calls it once for each line, in order, with
-- exactly the arguments written, and no line is left over.
pub command_recv-print_lines :
    (sc : Bool) (cmds : List (List (List ℕ)))
    → AllCommands cmds
    → command_recv sc (command_new true) (some (print_lines cmds)) ≡ (1, cmds, command_new true)
command_recv-print_lines sc cmds ok =
    recv-bytes sc (command_new true) (print_lines cmds)
    ∙ ap (λ (r : List (List (List ℕ)) × List ℕ). (1, r.0, record (command_new true) { line = r.1 }))
        (bytes-print_lines sc cmds ok)
