-- ===== src/Classes/History/Reader.antt =====
-- classes/history/hakit-history.c: what is read from a history file. A file is the list of its
-- bytes; what is printed is a list of entries. `none` is a failed read, or one that would use
-- bytes which were not read.
use hakit.Base.{
  ℕ, zero, suc, ◌+◌, ◌-◌, ◌/◌, ◌%◌, ◌^◌, Option, none, some, List, [], ◌∷◌, ◌++◌, ℤ, pos, negsuc,
  ◌+ℤ◌, ltb, leb, ◌==◌, if◌then◌else◌, length, take, drop, eq_ℤ,
}
use hakit.Classes.History.Value.{read_value, word}

pub data Value : Type 0 where
  short : ℕ → Value
  long : ℤ → Value
  text : List ℕ → Value

-- One line of output; `name` is `none` where "????" is printed.
pub record Line : Type 0 where
  pub tstamp : ℤ
  pub name : Option (List ℕ)
  pub value : Value

pub record Symbol : Type 0 where
  pub name : List ℕ
  pub id : ℤ

pub record State : Type 0 where
  pub tstamp : ℤ
  pub syms : List Symbol
  pub cur_sym : Option Symbol

-- The conversion of a `long long` to `int`.
abbrev pub to_int : ℤ → ℤ
to_int a = let w = word a % 2 ^ 32 in if ltb w (2 ^ 31) then pos w else negsuc (2 ^ 32 - 1 - w)

abbrev pub push_byte : ℕ → Option (List ℕ × List ℕ) → Option (List ℕ × List ℕ)
push_byte c none = none
push_byte c (some (s, rest)) = some (c ∷ s, rest)

-- The bytes before the NUL character, and those behind it.
unfoldable pub read_str : List ℕ → Option (List ℕ × List ℕ)
read_str [] = none
read_str (c ∷ cs) = let more = push_byte c (read_str cs) in if c == 0 then some ([], cs) else more

unfoldable pub find_symbol : ℤ → List Symbol → Option Symbol
find_symbol id [] = none
find_symbol id (s ∷ syms) = if eq_ℤ s.id id then some s else find_symbol id syms

abbrev pub name_of : Option Symbol → Option (List ℕ)
name_of none = none
name_of (some s) = some s.name

abbrev pub line : State → Value → Line
line st v = record { tstamp = st.tstamp; name = name_of st.cur_sym; value = v }

abbrev pub or_else {ℓ} : {A : Type ℓ} → Option A → Option A → Option A
or_else none d = d
or_else (some a) d = some a

-- What an entry leaves: the state, what it prints, the bytes behind it.
abbrev pub Step : Type 0
Step = State × List Line × List ℕ

unfoldable pub declare : State → ℤ → Option (List ℕ × List ℕ) → Option Step
declare st id none = none
declare st id (some (name, rest)) =
    let sym : Symbol = record { name = name; id = id } in
    some (record st { syms = st.syms ++ sym ∷ []; cur_sym = some sym }, [], rest)

unfoldable pub log_text : State → Option (List ℕ × List ℕ) → Option Step
log_text st none = none
log_text st (some (s, rest)) = some (st, line st (text s) ∷ [], rest)

-- An opcode below 0x80, with its value and what stands behind that.
unfoldable pub long_op : State → ℕ → ℤ → List ℕ → Option Step
long_op st op value rest =
    if op == 0x00
    then declare st (to_int value) (read_str rest)
    else if op == 0x01
    then some
        (record st { cur_sym = or_else (find_symbol (to_int value) st.syms) st.cur_sym }, [], rest)
    else if op == 0x02
    then some (record st { tstamp = value }, [], rest)
    else if op == 0x03
    then some (record st { tstamp = st.tstamp +ℤ value }, [], rest)
    else if op == 0x04
    then some (st, line st (long value) ∷ [], rest)
    else if op == 0x05
    then log_text st (read_str rest)
    else some (st, [], rest)

unfoldable pub short_op : State → ℕ → List ℕ → Option Step
short_op st op rest =
    if op / 64 % 2 == 1
    then some (record st { tstamp = st.tstamp +ℤ pos (op % 64) }, [], rest)
    else some (st, line st (short (op % 64)) ∷ [], rest)

unfoldable pub dump_op : State → ℕ → List ℕ → Option Step
dump_op st op rest =
    let len = op / 16 + 1 in
    if leb 128 op
    then short_op st op rest
    else if leb len (length rest)
    then long_op st (op % 16) (read_value (take len rest) len) (drop len rest)
    else none

-- The loop over the file, on fuel.
unfoldable pub dump_from : ℕ → State → List ℕ → Option (List Line)
dump_from fuel st [] = some []
dump_from zero st (op ∷ rest) = none
dump_from (suc fuel) st (op ∷ rest) = elim (dump_op st op rest) [
  | none ↦ none
  | some (st', lines, rest') ↦ elim (dump_from fuel st' rest') [
    | none ↦ none
    | some more ↦ some (lines ++ more)
  ]
]

abbrev pub start : State
start = record { tstamp = pos 0; syms = []; cur_sym = none }

-- `history_dump_file`; an entry takes a byte at least, so the fuel is enough.
unfoldable pub dump_file : List ℕ → Option (List Line)
dump_file bytes = dump_from (length bytes) start bytes
