-- ===== src/Core/Options/Config.antt =====
-- core/options.c: the option files. `glob` and the content of a file are arguments; the content is none for
-- a file that cannot be opened. Messages and line numbers are left out.
use hakit.Base.{
  ℕ, zero, suc, ◌-◌, Bool, false, ◌&&◌, not, Option, none, some, List, [], ◌∷◌, ◌==◌, if◌then◌else◌,
  length, take, eq_bytes, ℤ, pos, negsuc,
}
use hakit.Core.StrArgv.{above_space, skip_blanks}
use hakit.Core.Command.{c_string}
use hakit.Core.Options.{
  Entry, Setting, Parsed, parse_value, parse_args, set_conf_dir, conf_path, split_eq,
}

-- sizeof(buf)
abbrev pub line_size : ℕ
line_size = 1024

-- What one `fgets` reads, of at most `room` bytes, and what is left of the file.
unfoldable pub fgets : ℕ → List ℕ → List ℕ × List ℕ
fgets zero s = ([], s)
fgets (suc room) [] = ([], [])
fgets (suc room) (c ∷ s) =
    let (line, rest) = fgets room s in if c == 10 then (c ∷ [], s) else (c ∷ line, rest)

-- The line up to a comment.
unfoldable pub cut_comment : List ℕ → List ℕ
cut_comment [] = []
cut_comment (c ∷ s) = let rest = cut_comment s in if c == b'#' then [] else c ∷ rest

module _ (signed_char : Bool) where
  -- The blanks at the end are dropped.
  unfoldable pub strip_end : List ℕ → List ℕ
  strip_end [] = []
  strip_end (c ∷ s) = elim (strip_end s) [
    | [] ↦ if above_space signed_char c then c ∷ [] else []
    | d ∷ t ↦ c ∷ d ∷ t
  ]

  -- The keyword, up to a blank or '=', and what stands behind it.
  unfoldable pub split_keyword : List ℕ → List ℕ × List ℕ
  split_keyword [] = ([], [])
  split_keyword (c ∷ s) =
      let (kw, rest) = split_keyword s in
      if above_space signed_char c && not (c == b'=') then (c ∷ kw, rest) else ([], c ∷ s)

  -- The value behind the first '=', without the blanks before it.
  abbrev pub value_of : List ℕ → Option (List ℕ)
  value_of rest = elim (split_eq rest).1 [ none ↦ none | some s ↦ some (skip_blanks signed_char s) ]

  -- The line as it is taken: no blanks at its ends, no comment.
  abbrev pub stripped : List ℕ → List ℕ
  stripped buf = strip_end (cut_comment (skip_blanks signed_char (c_string buf)))

-- The first entry whose name the keyword begins: `strncmp` compares as many bytes as the keyword has.
unfoldable pub find_keyword : List Entry → List ℕ → Option Entry
find_keyword [] kw = none
find_keyword (e ∷ entries) kw =
    if eq_bytes (take (length kw) e.long_opt) kw then some e else find_keyword entries kw

module _ (signed_char : Bool) where
  -- The keyword and the value of a line that is not empty; none where a value is missing.
  unfoldable pub conf_keyword : List Entry → List ℕ × List ℕ → List Setting → Option (List Setting)
  conf_keyword entries (kw, rest) settings = elim (find_keyword entries kw) [
    | none ↦ some settings
    | some e ↦ parse_value e (value_of signed_char rest) settings
  ]

  -- One line.
  unfoldable pub conf_stripped : List Entry → List ℕ → List Setting → Option (List Setting)
  conf_stripped entries [] settings = some settings
  conf_stripped entries (c ∷ s) settings =
      conf_keyword entries (split_keyword signed_char (c ∷ s)) settings

  abbrev pub conf_line : List Entry → List ℕ → List Setting → Option (List Setting)
  conf_line entries buf settings = conf_stripped entries (stripped signed_char buf) settings

  -- The loop of `options_conf_parse_path`, on fuel: what it returns, and the settings.
  unfoldable pub conf_lines : ℕ → List Entry → List ℕ → List Setting → ℤ × List Setting
  conf_lines zero entries s settings = (pos 0, settings)
  conf_lines (suc fuel) entries [] settings = (pos 0, settings)
  conf_lines (suc fuel) entries (c ∷ s) settings =
      let (line, rest) = fgets (line_size - 1) (c ∷ s) in
      elim (conf_line entries line settings) [
        | none ↦ (negsuc 1, settings)
        | some settings' ↦ conf_lines fuel entries rest settings'
      ]

  -- `options_conf_parse_path`
  abbrev pub conf_parse_path : List Entry → Option (List ℕ) → List Setting → ℤ × List Setting
  conf_parse_path entries none settings = (negsuc 0, settings)
  conf_parse_path entries (some content) settings =
      conf_lines (length content) entries content settings

  -- Not a backup file.
  unfoldable pub ends_tilde : List ℕ → Bool
  ends_tilde [] = false
  ends_tilde (c ∷ []) = c == b'~'
  ends_tilde (c ∷ d ∷ s) = ends_tilde (d ∷ s)

  -- The files of `options_parse`, one after the other; errors in them do not end the loop.
  unfoldable pub conf_files :
      (List ℕ → Option (List ℕ)) → List Entry → List (List ℕ) → List Setting → List Setting
  conf_files read entries [] settings = settings
  conf_files read entries (path ∷ paths) settings =
      if ends_tilde path
      then conf_files read entries paths settings
      else conf_files read entries paths (conf_parse_path entries (read path) settings).1

  abbrev pub all_files :
      (List ℕ → Option (List (List ℕ)))
      → (List ℕ → Option (List ℕ))
      → List Entry
      → Option (List ℕ)
      → Option (List ℕ)
      → List Setting
      → List Setting
  all_files glob read entries conf_dir none settings = settings
  all_files glob read entries conf_dir (some conf_file) settings =
      elim (glob (conf_path conf_dir conf_file)) [
        | none ↦ settings
        | some paths ↦ conf_files read entries paths settings
      ]

  -- `options_parse`: the directory, and the result. `args` are the arguments behind the command's name.
  unfoldable pub options_parse :
      (List ℕ → Option (List (List ℕ)))
      → (List ℕ → Option (List ℕ))
      → List Entry
      → Option (List ℕ)
      → Option (List ℕ)
      → List Setting
      → List (List ℕ)
      → Option (List ℕ) × Parsed
  options_parse glob read entries conf_dir conf_file settings args =
      let (dir, args') = set_conf_dir conf_dir args in
      (
        dir,
        parse_args (length args') entries (all_files glob read entries dir conf_file settings)
            args',
      )
