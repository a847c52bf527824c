-- ===== src/Core/Options/Directory.antt =====
-- core/options.c: the option for the directory of the option files, on the command line.
use hakit.Base.{
  ℕ, suc, ◌≡◌, refl, ap, Bool, Option, none, some, List, [], ◌∷◌, ◌++◌, length, eq_bytes,
}
use hakit.Core.Options.{
  Entry, Setting, help, split_eq, find_long, find_option, parse_args, config_long, find_conf_dir,
  strip_slashes, set_conf_dir,
}
use hakit.Core.Options.Config.{options_parse, all_files}

-- "config"
abbrev pub config_name : List ℕ
config_name = b'c' ∷ b'o' ∷ b'n' ∷ b'f' ∷ b'i' ∷ b'g' ∷ []

set_conf_dir-long :
    (conf_dir : Option (List ℕ)) (dir : List ℕ) (args : List (List ℕ))
    → set_conf_dir conf_dir ((config_long ++ (b'=' ∷ dir)) ∷ args)
      ≡ (some (strip_slashes dir), (config_long ++ (b'=' ∷ strip_slashes dir)) ∷ args)
unfolding set_conf_dir find_conf_dir eq_bytes split_eq
set_conf_dir-long conf_dir dir args = refl

find_option-config :
    (entries : List Entry) (dir : List ℕ) (args : List (List ℕ))
    → find_long entries config_name ≡ none
    → find_option entries (b'-' ∷ (config_name ++ (b'=' ∷ dir))) args ≡ none
unfolding find_option split_eq
find_option-config entries dir args unknown =
    ap (λ (o : Option Entry). elim o [ none ↦ none | some e ↦ some (e, some dir, args) ]) unknown

parse_args-config :
    (fuel : ℕ) (entries : List Entry) (settings : List Setting) (dir : List ℕ)
    (args : List (List ℕ))
    → find_long entries config_name ≡ none
    → parse_args (suc fuel) entries settings ((config_long ++ (b'=' ∷ dir)) ∷ args) ≡ help
unfolding parse_args
parse_args-config fuel entries settings dir args unknown =
    rw (parse_args, find_option-config entries dir args unknown) refl

-- "--config=<dir>" as the first argument, where the table of options has no "config": the directory is set,
-- without the '/' at its end, and then the option is not known on the command line, so that the help text
-- is shown.
pub options_parse-config :
    (sc : Bool) (glob : List ℕ → Option (List (List ℕ))) (read : List ℕ → Option (List ℕ))
    (entries : List Entry) (conf_dir conf_file : Option (List ℕ)) (settings : List Setting)
    (dir : List ℕ) (args : List (List ℕ))
    → find_long entries config_name ≡ none
    → options_parse sc glob read entries conf_dir conf_file settings
        ((config_long ++ (b'=' ∷ dir)) ∷ args)
      ≡ (some (strip_slashes dir), help)
unfolding options_parse
options_parse-config sc glob read entries conf_dir conf_file settings dir args unknown =
    rw
      (
        options_parse,
        set_conf_dir-long conf_dir dir args,
        parse_args-config (length args) entries
            (all_files sc glob read entries (some (strip_slashes dir)) conf_file settings)
            (strip_slashes dir) args unknown,
      )
      refl
