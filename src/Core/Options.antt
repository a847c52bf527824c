-- ===== src/Core/Options.antt =====
-- core/options.c, core/include/options.h: options from files and from the command line. An entry stands
-- for its variable by the place `value_ptr` in the list of settings, which has an int and a string for each.
-- A string is the list of its bytes, without the NUL character. Whether `char` is signed is the parameter
-- `signed_char`. Help, which ends the program, is a result.
pub mod Config
pub mod Directory
pub mod OptionLine
pub mod Written
use hakit.Base.{
  ℕ, zero, suc, ◌+◌, ◌-◌, Bool, true, false, ◌&&◌, ◌||◌, not, Option, none, some, List, [], ◌∷◌,
  ◌++◌, ◌==◌, if◌then◌else◌, ltb, length, take, get_or, set, eq_bytes, strtol, ℤ, pos, negsuc,
}
use hakit.Core.StrArgv.{above_space}

-- `options_type_t`
pub data OptionsType : Type 0 where
  type_none type_int type_string : OptionsType

-- `options_entry_t`; `short_opt` is 0 for none, and of the symbol there is whether it is given.
pub record Entry : Type 0 where
  pub long_opt : List ℕ
  pub short_opt : ℕ
  pub list : Bool
  pub kind : OptionsType
  pub value_ptr : ℕ
  pub has_symbol : Bool

-- What an entry's variable holds.
pub record Setting : Type 0 where
  pub int : ℤ
  pub str : Option (List ℕ)

abbrev pub unset : Setting
unset = record { int = pos 0; str = none }

abbrev pub set_int : List Setting → ℕ → ℤ → List Setting
set_int settings p v = set settings p (record (get_or settings p unset) { int = v })

abbrev pub set_str : List Setting → ℕ → List ℕ → List Setting
set_str settings p s = set settings p (record (get_or settings p unset) { str = some s })

-- The values of a list are joined by ','.
abbrev pub joined : Option (List ℕ) → List ℕ → List ℕ
joined none value = value
joined (some []) value = value
joined (some (c ∷ s)) value = c ∷ (s ++ (b',' ∷ value))

-- `options_parse_value`: none where a value is missing.
unfoldable pub parse_value : Entry → Option (List ℕ) → List Setting → Option (List Setting)
parse_value e none settings = elim e.kind [
  | type_none ↦ some (set_int settings e.value_ptr (pos 1))
  | _ ↦ none
]
parse_value e (some value) settings = elim e.kind [
  | type_string ↦ some (
      set_str settings e.value_ptr
        (if e.list then joined (get_or settings e.value_ptr unset).str value else value))
  | _ ↦ some (set_int settings e.value_ptr (strtol value))
]

-- What stands before and behind the first '=', if there is one.
unfoldable pub split_eq : List ℕ → List ℕ × Option (List ℕ)
split_eq [] = ([], none)
split_eq (c ∷ s) =
    let (before, behind) = split_eq s in if c == b'=' then ([], some s) else (c ∷ before, behind)

-- A result of the command line: the arguments left, or the help text.
pub data Parsed : Type 0 where
  parsed : List Setting → List (List ℕ) → Parsed
  help : Parsed

-- The entry of a long option, by its whole name.
unfoldable pub find_long : List Entry → List ℕ → Option Entry
find_long [] name = none
find_long (e ∷ entries) name = if eq_bytes name e.long_opt then some e else find_long entries name

unfoldable pub find_short : List Entry → ℕ → Option Entry
find_short [] c = none
find_short (e ∷ entries) c =
    if not (c == 0) && c == e.short_opt then some e else find_short entries c

-- The value is set, and the loop goes on with `rest`.
abbrev pub then_parse :
    (List Setting → List (List ℕ) → Parsed) → Option (List Setting) → List (List ℕ) → Parsed
then_parse more none rest = help
then_parse more (some settings) rest = more settings rest

-- A short option `c` with `s` behind it, and the arguments behind that: its value, and those left.
unfoldable pub short_value :
    Entry → List ℕ → List (List ℕ) → Option (Option (List ℕ) × List (List ℕ))
short_value e [] [] = if e.has_symbol then none else some (none, [])
short_value e [] (arg ∷ args) =
    if e.has_symbol then some (some arg, args) else some (none, arg ∷ args)
short_value e (c ∷ s) args = if e.has_symbol then some (some (c ∷ s), args) else none

-- The option that an argument behind '-' begins, with the arguments behind it.
unfoldable pub find_option :
    List Entry → List ℕ → List (List ℕ) → Option (Entry × Option (List ℕ) × List (List ℕ))
find_option entries [] args = none
find_option entries (c ∷ s) args =
    if c == b'-'
    then (let (name, value) = split_eq s in
        elim (find_long entries name) [ none ↦ none | some e ↦ some (e, value, args) ])
    else elim (find_short entries c) [
      | none ↦ none
      | some e ↦ elim (short_value e s args) [
        | none ↦ none
        | some (value, rest) ↦ some (e, value, rest)
      ]
    ]

-- The loop of `options_parse` on the command line, on fuel.
unfoldable pub parse_args : ℕ → List Entry → List Setting → List (List ℕ) → Parsed
parse_args zero entries settings args = parsed settings args
parse_args (suc fuel) entries settings [] = parsed settings []
parse_args (suc fuel) entries settings ([] ∷ args) = parsed settings ([] ∷ args)
parse_args (suc fuel) entries settings ((c ∷ s) ∷ args) = elim (c == b'-') [
  | false ↦ parsed settings ((c ∷ s) ∷ args)
  | true ↦ elim (find_option entries s args) [
    | none ↦ help
    | some (e, value, rest) ↦
        then_parse (parse_args fuel entries) (parse_value e value settings) rest
  ]
]

-- "-c" and "--config"
abbrev pub config_short : List ℕ
config_short = b'-' ∷ b'c' ∷ []

abbrev pub config_long : List ℕ
config_long = b'-' ∷ b'-' ∷ b'c' ∷ b'o' ∷ b'n' ∷ b'f' ∷ b'i' ∷ b'g' ∷ []

-- The '/' at the end are dropped.
unfoldable pub strip_slashes : List ℕ → List ℕ
strip_slashes [] = []
strip_slashes (c ∷ s) = elim (strip_slashes s) [
  | [] ↦ if c == b'/' then [] else c ∷ []
  | d ∷ t ↦ c ∷ d ∷ t
]

-- A directory that is found is stripped where it stands among the arguments.
abbrev pub after_short : List ℕ → List (List ℕ) → Option (List ℕ) × List (List ℕ)
after_short arg [] = (none, arg ∷ [])
after_short arg (dir ∷ args) = (some (strip_slashes dir), arg ∷ strip_slashes dir ∷ args)

abbrev pub after_long :
    List ℕ
    → List (List ℕ)
    → Option (List ℕ) × List (List ℕ)
    → List ℕ × Option (List ℕ)
    → Option (List ℕ) × List (List ℕ)
after_long arg args rest (before, none) = rest
after_long arg args rest (before, some dir) =
    (some (strip_slashes dir), (before ++ (b'=' ∷ strip_slashes dir)) ∷ args)

-- The loop of `options_set_conf_dir`: the directory, and the arguments after it.
unfoldable pub find_conf_dir : List (List ℕ) → Option (List ℕ) × List (List ℕ)
find_conf_dir [] = (none, [])
find_conf_dir (arg ∷ args) =
    let (dir, args') = find_conf_dir args in
    if eq_bytes arg config_short
    then after_short arg args
    else if eq_bytes (take 8 arg) config_long
    then after_long arg args (dir, arg ∷ args') (split_eq arg)
    else (dir, arg ∷ args')

-- `options_set_conf_dir`: the directory that was set before stays where there is none.
abbrev pub or_before : Option (List ℕ) → Option (List ℕ) → Option (List ℕ)
or_before conf_dir none = conf_dir
or_before conf_dir (some dir) = some dir

unfoldable pub set_conf_dir : Option (List ℕ) → List (List ℕ) → Option (List ℕ) × List (List ℕ)
set_conf_dir conf_dir args =
    let (dir, args') = find_conf_dir args in (or_before conf_dir dir, args')

-- OPTIONS_DEFAULT_CONF_DIR, "/etc/hakit"
abbrev pub default_conf_dir : List ℕ
default_conf_dir = b'/' ∷ b'e' ∷ b't' ∷ b'c' ∷ b'/' ∷ b'h' ∷ b'a' ∷ b'k' ∷ b'i' ∷ b't' ∷ []

abbrev pub or_default : Option (List ℕ) → List ℕ
or_default none = default_conf_dir
or_default (some dir) = dir

-- `option_conf_path`
abbrev pub conf_path : Option (List ℕ) → List ℕ → List ℕ
conf_path conf_dir conf_file = or_default conf_dir ++ (b'/' ∷ conf_file)
