-- ===== src/Core/Options/Written.antt =====
-- core/options.c: options that are written in full on the command line are read as they were written.
use hakit.Base.{
  ℕ, zero, suc, ◌≤◌, ◌≡◌, ◌≢◌, inl, inr, refl, ap, ◌∙◌, Bool, true, false, Option, none, some, List,
  [], ◌∷◌, ◌++◌, ◌==◌, length, arith, Option-cases, not,
}
use hakit.Core.Options.{
  Entry, Setting, Parsed, parsed, help, parse_value, find_option, find_long, split_eq, parse_args,
  then_parse,
}

-- No byte is '='.
abbrev pub NoEq : List ℕ → Type 0
NoEq [] = Unit {0}
NoEq (c ∷ s) = (c ≢ b'=') × NoEq s

split_eq-append :
    (name value : List ℕ) → NoEq name → split_eq (name ++ (b'=' ∷ value)) ≡ (name, some value)
unfolding split_eq
split_eq-append [] value ok = refl
split_eq-append (c ∷ name) value (ne, ok) = rw (other c ne, split_eq-append name value ok) refl
  where
    other : (c : ℕ) → c ≢ b'=' → (c == b'=') ≡ false
    other c ne = ground (arith, ne)

-- "<name>=<value>"
abbrev pub assignment : List ℕ → List ℕ → List ℕ
assignment name value = name ++ (b'=' ∷ value)

abbrev pub long_option : List ℕ → List ℕ → List ℕ
long_option name value = b'-' ∷ b'-' ∷ assignment name value

find_option-long :
    (entries : List Entry) (args : List (List ℕ)) (e : Entry) (name value : List ℕ)
    → NoEq name
    → find_long entries name ≡ some e
    → find_option entries (b'-' ∷ assignment name value) args ≡ some (e, some value, args)
unfolding find_option
find_option-long entries args e name value ok found =
    ap
      (λ (p : List ℕ × Option (List ℕ)). elim (find_long entries p.0) [
        | none ↦ none
        | some e ↦ some (e, p.1, args)
      ])
      (split_eq-append name value ok)
    ∙ rw found refl

pub parse_args-long :
    (fuel : ℕ) (entries : List Entry) (settings : List Setting) (args : List (List ℕ)) (e : Entry)
    (name value : List ℕ)
    → NoEq name
    → find_long entries name ≡ some e
    → parse_args (suc fuel) entries settings (long_option name value ∷ args)
      ≡ then_parse (parse_args fuel entries) (parse_value e (some value) settings) args
unfolding parse_args
parse_args-long fuel entries settings args e name value ok found =
    rw (parse_args, find_option-long entries args e name value ok found) refl

-- An option that is given with a value.
pub record Given : Type 0 where
  pub entry : Entry
  pub value : List ℕ

abbrev pub write_all : List Given → List (List ℕ)
write_all [] = []
write_all (g ∷ given) = long_option g.entry.long_opt g.value ∷ write_all given

-- The values are set in order, up to one that is missing.
abbrev pub set_all : List Given → List Setting → Option (List Setting)
set_all [] settings = some settings
set_all (g ∷ given) settings = elim (parse_value g.entry (some g.value) settings) [
  | none ↦ none
  | some settings' ↦ set_all given settings'
]

-- No argument is left, or the first one does not begin with '-'.
abbrev pub starts_plain : List (List ℕ) → Bool
starts_plain [] = true
starts_plain ([] ∷ args) = true
starts_plain ((c ∷ s) ∷ args) = not (c == b'-')

-- The entries are known by their long names.
abbrev pub AllFound : List Entry → List Given → Type 0
AllFound entries [] = Unit {0}
AllFound entries (g ∷ given) =
    NoEq g.entry.long_opt
    × (find_long entries g.entry.long_opt ≡ some g.entry)
    × AllFound entries given

abbrev pub finished : List (List ℕ) → Option (List Setting) → Parsed
finished rest none = help
finished rest (some settings) = parsed settings rest

parse_args-plain :
    (fuel : ℕ) (entries : List Entry) (settings : List Setting) (rest : List (List ℕ))
    → starts_plain rest ≡ true
    → parse_args fuel entries settings rest ≡ parsed settings rest
unfolding parse_args
parse_args-plain zero entries settings rest plain = refl
parse_args-plain (suc fuel) entries settings [] plain = refl
parse_args-plain (suc fuel) entries settings ([] ∷ rest) plain = refl
parse_args-plain (suc fuel) entries settings ((c ∷ s) ∷ rest) plain =
    rw (parse_args, other (c == b'-') plain) refl
  where
    other : (b : Bool) → not b ≡ true → b ≡ false
    other b e = ground (arith, e)

-- Options that are written with their long names and values, in front of an argument that is no option:
-- the settings are those that setting the values in order gives, and the rest is left.
pub parse_args-write_all :
    (fuel : ℕ) (entries : List Entry) (given : List Given) (settings : List Setting)
    (rest : List (List ℕ))
    → length given ≤ fuel
    → AllFound entries given
    → starts_plain rest ≡ true
    → parse_args fuel entries settings (write_all given ++ rest)
      ≡ finished rest (set_all given settings)
parse_args-write_all fuel entries [] settings rest small found plain =
    parse_args-plain fuel entries settings rest plain
parse_args-write_all zero entries (g ∷ given) settings rest small found plain = absurd (omega arith)
parse_args-write_all (suc fuel) entries (g ∷ given) settings rest small (no_eq, found, others)
      plain =
    parse_args-long fuel entries settings (write_all given ++ rest) g.entry g.entry.long_opt g.value
      no_eq found
    ∙ elim (Option-cases (parse_value g.entry (some g.value) settings)) [
      | inl e ↦ rw (set_all, e) refl
      | inr (settings', e) ↦
          rw (set_all, e)
            (parse_args-write_all fuel entries given settings' rest (omega arith) others plain)
    ]
