-- ===== src/Classes/History/Object.antt =====
-- classes/history/main.c: the object of the class, which declares its input signals and logs what
-- they receive. The pad of a signal has the signal's id for its `state`.
use hakit.Base.{Option, none, some, ℕ, ◌+◌, Bool, List, [], ◌∷◌, ℤ, pos, ◌==◌, if◌then◌else◌, ◌+ℤ◌}
use hakit.Classes.History.Writer.{History, init, signal_declare, feed}

abbrev pub push_first : ℕ → List (List ℕ) → List (List ℕ)
push_first c [] = (c ∷ []) ∷ []
push_first c (s ∷ rest) = (c ∷ s) ∷ rest

-- The property "inputs": names between commas.
unfoldable pub split_inputs : List ℕ → List (List ℕ)
split_inputs [] = [] ∷ []
split_inputs (c ∷ s) =
    let rest = split_inputs s in if c == b',' then [] ∷ rest else push_first c rest

unfoldable pub declare_all : History → ℕ → List (List ℕ) → History
declare_all h id [] = h
declare_all h id (name ∷ names) = declare_all (signal_declare h (pos id) name) (id + 1) names

-- `_new`, with the property "inputs", none where it is not given.
unfoldable pub new_object : ℤ → Option (List ℕ) → History
new_object now none = init now
new_object now (some inputs) = declare_all (init now) 1 (split_inputs inputs)

-- What reaches `_input`: a pad's id, the value, and what the calls outside return.
pub record Sample : Type 0 where
  pub id : ℕ
  pub value : List ℕ
  pub delay : ℕ
  pub opens : Bool
  pub tag : ℕ

-- `_input`, `delay` seconds after the latest entry.
unfoldable pub input : History → Sample → History
input h x = (feed h (pos x.id) x.value (h.t +ℤ pos x.delay) x.opens x.tag).0

unfoldable pub inputs : History → List Sample → History
inputs h [] = h
inputs h (x ∷ xs) = inputs (input h x) xs
