-- ===== src/Core/WsAuth/Access.antt =====
-- core/ws_auth.c: who gets in.
use hakit.Base.{
  ◌≢◌, ◌<◌, ℕ, zero, suc, ◌≡◌, Bool, true, false, ◌||◌, ◌&&◌, Option, none, some, List, [], ◌∷◌,
  ◌++◌, length, eq_bytes,
}
use hakit.Core.Comm.{split_colon}
use hakit.Core.Options.Config.{fgets, stripped}

-- The line has a ':'.
abbrev pub has_colon : List ℕ → Bool
has_colon s = elim (split_colon s) [ none ↦ false | some p ↦ true ]

-- A line, without its blanks and its comment, has a ':' and is the text.
abbrev pub defines : Bool → List ℕ → List ℕ → Bool
defines sc line s = has_colon (stripped sc line) && eq_bytes s (stripped sc line)

-- The text of a file: its lines, each with a newline, and what stands behind the last newline.
abbrev pub file_of : List (List ℕ) → List ℕ → List ℕ
file_of [] last = last
file_of (line ∷ lines) last = line ++ (10 ∷ file_of lines last)

-- One of the lines, or what stands behind them, defines the text.
unfoldable pub listed : Bool → List (List ℕ) → List ℕ → List ℕ → Bool
listed sc [] last s = defines sc last s
listed sc (line ∷ lines) last s = defines sc (line ++ (10 ∷ [])) s || listed sc lines last s

abbrev pub NoNewline : List ℕ → Type 0
NoNewline [] = Unit {0}
NoNewline (c ∷ s) = (c ≢ 10) × NoNewline s

-- Each line fits into the buffer with its newline.
abbrev pub AllShort : List (List ℕ) → Type 0
AllShort [] = Unit {0}
AllShort (line ∷ lines) = NoNewline line × (length line < 255) × AllShort lines

-- One of the pieces that `fgets` takes from the file defines the text.
unfoldable is_listed : Bool → ℕ → List ℕ → List ℕ → Bool
is_listed sc zero content s = false
is_listed sc (suc fuel) [] s = false
is_listed sc (suc fuel) (c ∷ content) s =
    let (line, rest) = fgets 255 (c ∷ content) in defines sc line s || is_listed sc fuel rest s

abbrev defined_or : Bool → ℕ → List ℕ → List ℕ × List ℕ → Bool
defined_or sc fuel s (line, rest) = defines sc line s || is_listed sc fuel rest s

-- No two texts have one coding.
abbrev pub IsInjective : (List ℕ → List ℕ) → Type 0
IsInjective b64 = (s t : List ℕ) → b64 s ≡ b64 t → s ≡ t

abbrev is_found : Option (List ℕ) → Bool
is_found none = false
is_found (some name) = true
