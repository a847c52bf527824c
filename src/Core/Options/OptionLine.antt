-- ===== src/Core/Options/OptionLine.antt =====
-- core/options.c: a line of an option file is read as the same option on the command line.
use hakit.Base.{
  ℕ, suc, ◌≡◌, ◌≢◌, refl, sym, ap, ◌∙◌, Bool, true, false, some, List, [], ◌∷◌, ◌++◌, ◌==◌, arith,
  not, ◌&&◌,
}
use hakit.Core.StrArgv.{above_space, skip_blanks}
use hakit.Core.Command.{c_string}
use hakit.Core.Options.{Entry, Setting, parse_value, find_long, split_eq, parse_args, then_parse}
use hakit.Core.Options.Config.{
  cut_comment, strip_end, split_keyword, value_of, stripped, find_keyword, conf_keyword,
  conf_stripped, conf_line,
}
use hakit.Core.Options.Written.{NoEq, assignment, long_option, parse_args-long}

-- Bytes above ' ' that begin no comment.
abbrev pub IsWord : Bool → List ℕ → Type 0
IsWord sc [] = Unit {0}
IsWord sc (c ∷ s) = (above_space sc c ≡ true) × (c ≢ b'#') × IsWord sc s

IsWord-append : (sc : Bool) (s t : List ℕ) → IsWord sc s → IsWord sc t → IsWord sc (s ++ t)
IsWord-append sc [] t ok okt = okt
IsWord-append sc (c ∷ s) t (a, ne, ok) okt = (a, ne, IsWord-append sc s t ok okt)

not_nul : (sc : Bool) (c : ℕ) → above_space sc c ≡ true → (c == 0) ≡ false
not_nul sc c a = ground (arith, a)

-- The line, with its newline.
c_string-word : (sc : Bool) (s : List ℕ) → IsWord sc s → c_string (s ++ (10 ∷ [])) ≡ s ++ (10 ∷ [])
unfolding c_string
c_string-word sc [] ok = refl
c_string-word sc (c ∷ s) (a, ne, ok) = rw (not_nul sc c a) (ap (◌∷◌ c) (c_string-word sc s ok))

cut_comment-word :
    (sc : Bool) (s : List ℕ) → IsWord sc s → cut_comment (s ++ (10 ∷ [])) ≡ s ++ (10 ∷ [])
unfolding cut_comment
cut_comment-word sc [] ok = refl
cut_comment-word sc (c ∷ s) (a, ne, ok) = ground (arith, ne, cut_comment-word sc s ok)

strip_end-word : (sc : Bool) (s : List ℕ) → IsWord sc s → strip_end sc (s ++ (10 ∷ [])) ≡ s
unfolding strip_end
strip_end-word true [] ok = refl
strip_end-word false [] ok = refl
strip_end-word sc (c ∷ []) (a, ne, ok) = rw (strip_end, strip_end-word sc [] tt, a) refl
strip_end-word sc (c ∷ d ∷ s) (a, ne, ok) = rw (strip_end, strip_end-word sc (d ∷ s) ok) refl

skip_blanks-word :
    (sc : Bool) (s t : List ℕ) → IsWord sc s → s ≢ [] → skip_blanks sc (s ++ t) ≡ s ++ t
unfolding skip_blanks
skip_blanks-word sc [] t ok ne = absurd (ne refl)
skip_blanks-word sc (c ∷ s) t (a, _, ok) ne = rw a refl

split_keyword-word :
    (sc : Bool) (name value : List ℕ)
    → IsWord sc name
    → NoEq name
    → split_keyword sc (assignment name value) ≡ (name, b'=' ∷ value)
unfolding split_keyword
split_keyword-word true [] value ok no_eq = refl
split_keyword-word false [] value ok no_eq = refl
split_keyword-word sc (c ∷ name) value (a, _, ok) (ne, no_eq) =
    rw
      (
        split_keyword-word sc name value ok no_eq,
        both (above_space sc c) (c == b'=') a (ground (arith, ne)),
      )
      refl
  where
    both : (x y : Bool) → x ≡ true → y ≡ false → (x && not y) ≡ true
    both x y e f = ground (arith, e, f)

assignment-IsWord :
    (sc : Bool) (name value : List ℕ)
    → IsWord sc name
    → IsWord sc value
    → IsWord sc (assignment name value)
assignment-IsWord true name value okn okv =
    IsWord-append true name (b'=' ∷ value) okn (refl, omega arith, okv)
assignment-IsWord false name value okn okv =
    IsWord-append false name (b'=' ∷ value) okn (refl, omega arith, okv)

assignment-some : (name value : List ℕ) → assignment name value ≢ []
assignment-some [] value e = ground (arith, e)
assignment-some (c ∷ name) value e = ground (arith, e)

stripped-word :
    (sc : Bool) (name value : List ℕ)
    → IsWord sc name
    → IsWord sc value
    → stripped sc (assignment name value ++ (10 ∷ [])) ≡ assignment name value
stripped-word sc name value okn okv =
    let w = assignment name value in
    let ok = assignment-IsWord sc name value okn okv in
    ap (λ s. strip_end sc (cut_comment (skip_blanks sc s))) (c_string-word sc w ok)
    ∙ ap (λ s. strip_end sc (cut_comment s))
        (skip_blanks-word sc w (10 ∷ []) ok (assignment-some name value))
    ∙ ap (strip_end sc) (cut_comment-word sc w ok)
    ∙ strip_end-word sc w ok

skip_blanks-value : (sc : Bool) (s : List ℕ) → IsWord sc s → skip_blanks sc s ≡ s
unfolding skip_blanks
skip_blanks-value sc [] ok = refl
skip_blanks-value sc (c ∷ s) (a, _, ok) = rw a refl

value_of-word :
    (sc : Bool) (value : List ℕ) → IsWord sc value → value_of sc (b'=' ∷ value) ≡ some value
unfolding split_eq
value_of-word sc value ok = ap some (skip_blanks-value sc value ok)

conf_stripped-some :
    (sc : Bool) (entries : List Entry) (s : List ℕ) (settings : List Setting)
    → s ≢ []
    → conf_stripped sc entries s settings ≡ conf_keyword sc entries (split_keyword sc s) settings
unfolding conf_stripped
conf_stripped-some sc entries [] settings ne = absurd (ne refl)
conf_stripped-some sc entries (c ∷ s) settings ne = refl

conf_keyword-found :
    (sc : Bool) (entries : List Entry) (settings : List Setting) (e : Entry) (name value : List ℕ)
    → IsWord sc value
    → find_keyword entries name ≡ some e
    → conf_keyword sc entries (name, b'=' ∷ value) settings ≡ parse_value e (some value) settings
unfolding conf_keyword
conf_keyword-found sc entries settings e name value ok found =
    rw (conf_keyword, found) (ap (λ v. parse_value e v settings) (value_of-word sc value ok))

-- A line "<name>=<value>" that `fgets` has read whole from an option file, with its newline, where name and
-- value have no blanks, no control characters, no '#' and, where char is signed, no bytes from 0x80 on, the
-- name has no '=', and the first entry whose name begins like that is the entry of the name: it sets
-- what "--<name>=<value>" sets on the command line, and is an error where that shows the help text.
pub conf_line-parse_args :
    (sc : Bool) (fuel : ℕ) (entries : List Entry) (settings : List Setting) (args : List (List ℕ))
    (e : Entry) (name value : List ℕ)
    → IsWord sc name
    → IsWord sc value
    → NoEq name
    → find_keyword entries name ≡ some e
    → find_long entries name ≡ some e
    → parse_args (suc fuel) entries settings (long_option name value ∷ args)
      ≡ then_parse
          (parse_args fuel entries)
          (conf_line sc entries (assignment name value ++ (10 ∷ [])) settings)
          args
conf_line-parse_args sc fuel entries settings args e name value okn okv no_eq kw found =
    parse_args-long fuel entries settings args e name value no_eq found
    ∙ ap (λ r. then_parse (parse_args fuel entries) r args)
        (sym (
          ap (λ s. conf_stripped sc entries s settings) (stripped-word sc name value okn okv)
          ∙ conf_stripped-some sc entries (assignment name value) settings
              (assignment-some name value)
          ∙ ap (λ p. conf_keyword sc entries p settings)
              (split_keyword-word sc name value okn no_eq)
          ∙ conf_keyword-found sc entries settings e name value okv kw))
