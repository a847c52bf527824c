-- ===== src/Core/StrArgv/RoundTrip.antt =====
-- core/str_argv.c: arguments written between quotes are read back, whatever their bytes.
use hakit.Base.{
  ℕ, zero, suc, ◌≤◌, ◌≡◌, refl, ap, Bool, true, false, ◌||◌, List, [], ◌∷◌, ◌++◌, ◌==◌,
  if◌then◌else◌, length, length-append, arith,
}
use hakit.Core.StrArgv.{bare, quoted, scan, skip_blanks, split, str_argv}

-- A backslash before each quote and backslash.
unfoldable pub escaped : List ℕ → List ℕ
escaped [] = []
escaped (c ∷ s) = if c == 34 || c == 92 then 92 ∷ (c ∷ escaped s) else c ∷ escaped s

-- An argument between quotes, and blank behind it.
abbrev pub quoted_arg : List ℕ → List ℕ → List ℕ
quoted_arg arg rest = 34 ∷ (escaped arg ++ (34 ∷ (32 ∷ rest)))

unfoldable pub print : List (List ℕ) → List ℕ
print [] = []
print (arg ∷ args) = quoted_arg arg (print args)

scan-escaped :
    (signed_char : Bool) (arg rest : List ℕ)
    → scan signed_char quoted false (escaped arg ++ (34 ∷ (32 ∷ rest))) ≡ (arg, rest)
unfolding scan escaped
scan-escaped sc [] rest = refl
scan-escaped sc (c ∷ arg) rest = ground (arith, scan-escaped sc arg rest)

scan-quoted_arg :
    (signed_char : Bool) (arg rest : List ℕ)
    → scan signed_char bare false (skip_blanks signed_char (quoted_arg arg rest)) ≡ (arg, rest)
unfolding scan skip_blanks
scan-quoted_arg true arg rest = scan-escaped true arg rest
scan-quoted_arg false arg rest = scan-escaped false arg rest

length-print : (args : List (List ℕ)) → length args ≤ length (print args)
unfolding print
length-print [] = omega arith
length-print (arg ∷ args) =
    omega (arith, length-print args, length-append (escaped arg) (34 ∷ (32 ∷ print args)))

split-print :
    (signed_char : Bool) (fuel : ℕ) (args : List (List ℕ))
    → length args ≤ fuel
    → split signed_char fuel (print args) ≡ args
unfolding split print
split-print sc zero [] h = refl
split-print sc (suc fuel) [] h = refl
split-print sc zero (arg ∷ args) h = absurd (omega arith)
split-print sc (suc fuel) (arg ∷ args) h =
    rw (scan-quoted_arg sc arg (print args)) (ap (◌∷◌ arg) (split-print sc fuel args (omega arith)))

-- Any arguments, each written between quotes with a backslash before quotes and backslashes and a blank
-- behind it, are split into the same arguments, whether `char` is signed or not.
pub str_argv-print :
    (signed_char : Bool) (args : List (List ℕ)) → str_argv signed_char (print args) ≡ args
unfolding str_argv
str_argv-print sc args = split-print sc (length (print args)) args (length-print args)
