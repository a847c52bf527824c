-- ===== src/Tests/HistoryFile.antt =====
-- classes/history: the theorems at concrete inputs.
use hakit.Base.{ℕ, ◌≡◌, refl, true, some, List, [], ◌∷◌, pos, negsuc, arith, read_digits}
use hakit.Classes.History.Value.{append_value}
use hakit.Classes.History.Value.RoundTrip.{Encodes, append_value-Encodes}
use hakit.Classes.History.Reader.{dump_file, find_symbol}
use hakit.Classes.History.Object.{Sample, inputs, new_object, split_inputs}
use hakit.Classes.History.RoundTrip.{
  symbol, file, lines_of, symbols_from, AllLoggable, AllNoNul, dump_file-inputs,
}

append_value-Encodes_example : Encodes 2 (negsuc 299) (append_value 2 (negsuc 299))
append_value-Encodes_example = append_value-Encodes 2 (negsuc 299) refl

-- "a,b"
abbrev names : List ℕ
names = 97 ∷ 44 ∷ 98 ∷ []

-- 42 for b, then "up" for a, 90 seconds later.
abbrev samples : List Sample
samples =
    record { id = 2; value = 52 ∷ 50 ∷ []; delay = 3; opens = true; tag = 7 }
    ∷ record { id = 1; value = 117 ∷ 112 ∷ []; delay = 90; opens = true; tag = 8 }
    ∷ []

names-AllNoNul : AllNoNul (split_inputs names)
unfolding split_inputs
names-AllNoNul = omega arith

samples-AllLoggable : AllLoggable (symbols_from 1 (split_inputs names)) samples
unfolding split_inputs symbols_from find_symbol
samples-AllLoggable = (
  omega arith,
  (symbol (98 ∷ []) 2, refl),
  omega arith,
  (omega arith, unfold read_digits in omega arith),
  (
    omega arith,
    (symbol (97 ∷ []) 1, refl),
    omega arith,
    (omega arith, unfold read_digits in omega arith),
    tt,
  ),
)

dump_file-inputs_example :
    dump_file (file (inputs (new_object (pos 1700000000) (some names)) samples))
    ≡ some (lines_of (pos 1700000000) (symbols_from 1 (split_inputs names)) samples)
unfolding split_inputs
dump_file-inputs_example =
    dump_file-inputs 1700000000 names samples (omega arith) names-AllNoNul (omega arith)
      samples-AllLoggable
