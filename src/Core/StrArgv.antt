-- ===== src/Core/StrArgv.antt =====
-- core/str_argv.c: a line is split into arguments, in place. A line is the list of its bytes before
-- the NUL character; an argument is the bytes from its start to the first NUL character once the
-- line is rewritten. Whether `char` is signed is the parameter `signed_char`: then a byte from 0x80
-- on is negative, and `c > ' '` does not hold of it.
pub mod RoundTrip
pub mod Words
use hakit.Base.{
  ℕ, zero, suc, Bool, true, false, not, ◌&&◌, ◌||◌, List, [], ◌∷◌, ltb, ◌==◌, if◌then◌else◌, length,
}

-- What the loop over an argument distinguishes. `blank` is a byte that is not above ' '.
pub data Kind : Type 0 where
  blank escape quote plain : Kind

-- Outside of quotes, inside of them, and on the byte behind a backslash of either.
pub data Mode : Type 0 where
  bare quoted bare_escape quoted_escape : Mode

abbrev pub above_space : Bool → ℕ → Bool
above_space signed_char c = ltb 32 c && (not signed_char || ltb c 128)

abbrev pub bare_kind : Bool → ℕ → Kind
bare_kind signed_char c =
    if above_space signed_char c
    then (if c == 92 then escape else if c == 34 then quote else plain)
    else blank

abbrev pub quoted_kind : ℕ → Kind
quoted_kind c = if c == 34 then quote else if c == 92 then escape else plain

-- A byte stays in the argument unless a closing quote has already ended that.
abbrev pub keep : Bool → ℕ → List ℕ × List ℕ → List ℕ × List ℕ
keep true c (arg, rest) = (arg, rest)
keep false c (arg, rest) = (c ∷ arg, rest)

module _ (signed_char : Bool) where
  -- From `s2` to the end of the argument: its bytes, and the line behind it. `ended` says that a
  -- closing quote was overwritten by NUL, so that no later byte belongs to the argument.
  pub scan : Mode → Bool → List ℕ → List ℕ × List ℕ
  scan mode ended [] = ([], [])
  scan bare_escape ended (c ∷ s) = keep ended c (scan bare ended s)
  scan quoted_escape ended (c ∷ s) = keep ended c (scan quoted ended s)
  scan bare ended (c ∷ s) = elim (bare_kind signed_char c) [
    | blank ↦ ([], s)
    | escape ↦ scan bare_escape ended s
    | quote ↦ scan quoted ended s
    | plain ↦ keep ended c (scan bare ended s)
  ]
  scan quoted ended (c ∷ s) = elim (quoted_kind c) [
    | quote ↦ scan bare true s
    | escape ↦ scan quoted_escape ended s
    | _ ↦ keep ended c (scan quoted ended s)
  ]

  unfoldable pub skip_blanks : List ℕ → List ℕ
  skip_blanks [] = []
  skip_blanks (c ∷ s) = if above_space signed_char c then c ∷ s else skip_blanks s

  -- The outer loop, on fuel.
  unfoldable pub split : ℕ → List ℕ → List (List ℕ)
  split fuel [] = []
  split zero (c ∷ s) = []
  split (suc fuel) (c ∷ s) =
      let (arg, rest) = scan bare false (skip_blanks (c ∷ s)) in arg ∷ split fuel rest

  -- Each round takes a byte at least, so the fuel is enough.
  unfoldable pub str_argv : List ℕ → List (List ℕ)
  str_argv line = split (length line) line
