-- ===== src/Core/StrArgv/Words.antt =====
-- core/str_argv.c: words without quotes and backslashes, and bytes from 0x80 on.
use hakit.Base.{
  ℕ, zero, suc, ◌≤◌, ◌<◌, ◌≡◌, ◌≢◌, refl, sym, ap, ◌∙◌, Bool, true, false, List, [], ◌∷◌, ◌++◌,
  length, arith, append-nil, length-append,
}
use hakit.Core.StrArgv.{
  bare, blank, plain, above_space, bare_kind, keep, scan, skip_blanks, split, str_argv,
}

-- Each byte is an ordinary one outside of quotes.
abbrev pub AllBare : Bool → List ℕ → Type 0
AllBare sc [] = Unit {0}
AllBare sc (c ∷ s) = (bare_kind sc c ≡ plain) × AllBare sc s

abbrev pub IsWord : Bool → List ℕ → Type 0
IsWord sc w = (w ≢ []) × AllBare sc w

abbrev pub AllWords : Bool → List (List ℕ) → Type 0
AllWords sc [] = Unit {0}
AllWords sc (w ∷ ws) = IsWord sc w × AllWords sc ws

scan_bare :
    (sc : Bool) (w : List ℕ) (c : ℕ) (rest : List ℕ)
    → AllBare sc w
    → bare_kind sc c ≡ blank
    → scan sc bare false (w ++ (c ∷ rest)) ≡ (w, rest)
unfolding scan
scan_bare sc [] c rest ok e = rw (e, scan)
scan_bare sc (d ∷ w) c rest (p, ok) e =
    rw (p, scan) (ap (keep false d) (scan_bare sc w c rest ok e))

scan_last : (sc : Bool) (w : List ℕ) → AllBare sc w → scan sc bare false w ≡ (w, [])
unfolding scan
scan_last sc [] ok = refl
scan_last sc (d ∷ w) (p, ok) = rw (p, scan) (ap (keep false d) (scan_last sc w ok))

above_space_bare : (sc : Bool) (c : ℕ) → bare_kind sc c ≡ plain → above_space sc c ≡ true
above_space_bare sc c p = ground arith

skip_blanks-word :
    (sc : Bool) (w rest : List ℕ) → IsWord sc w → skip_blanks sc (w ++ rest) ≡ w ++ rest
unfolding skip_blanks
skip_blanks-word sc [] rest (ne, ok) = absurd (ne refl)
skip_blanks-word sc (c ∷ w) rest (ne, (p, ok)) = rw (above_space_bare sc c p)

-- A word and a byte that counts as blank, then the rest of the line.
split-word :
    (sc : Bool) (fuel : ℕ) (w : List ℕ) (c : ℕ) (rest : List ℕ)
    → IsWord sc w
    → bare_kind sc c ≡ blank
    → split sc (suc fuel) (w ++ (c ∷ rest)) ≡ w ∷ split sc fuel rest
unfolding split
split-word sc fuel [] c rest (ne, ok) e = absurd (ne refl)
split-word sc fuel (d ∷ w) c rest ok e =
    ap (λ (t : List ℕ). (scan sc bare false t).0 ∷ split sc fuel (scan sc bare false t).1)
      (skip_blanks-word sc (d ∷ w) (c ∷ rest) ok)
    ∙ ap (λ (r : List ℕ × List ℕ). r.0 ∷ split sc fuel r.1) (scan_bare sc (d ∷ w) c rest ok.1 e)

split-last : (sc : Bool) (fuel : ℕ) (w : List ℕ) → IsWord sc w → split sc (suc fuel) w ≡ w ∷ []
unfolding split
split-last sc fuel [] (ne, ok) = absurd (ne refl)
split-last sc fuel (d ∷ w) ok =
    ap (λ (t : List ℕ). (scan sc bare false t).0 ∷ split sc fuel (scan sc bare false t).1)
      (ap (skip_blanks sc) (sym (append-nil (d ∷ w)))
        ∙ skip_blanks-word sc (d ∷ w) [] ok
        ∙ append-nil (d ∷ w))
    ∙ ap (λ (r : List ℕ × List ℕ). r.0 ∷ split sc fuel r.1) (scan_last sc (d ∷ w) ok.1)

-- Words with a blank between them.
unfoldable pub unwords : List ℕ → List (List ℕ) → List ℕ
unwords w [] = w
unwords w (v ∷ ws) = w ++ (32 ∷ unwords v ws)

length-word : (sc : Bool) (w : List ℕ) → IsWord sc w → 0 < length w
length-word sc [] (ne, ok) = absurd (ne refl)
length-word sc (c ∷ w) ok = omega arith

split-unwords :
    (sc : Bool) (fuel : ℕ) (w : List ℕ) (ws : List (List ℕ))
    → length (unwords w ws) ≤ fuel
    → IsWord sc w
    → AllWords sc ws
    → split sc fuel (unwords w ws) ≡ w ∷ ws
unfolding unwords
split-unwords sc zero w [] h ok oks = absurd (omega (arith, length-word sc w ok))
split-unwords sc zero w (v ∷ ws) h ok oks =
    absurd (omega (arith, length-append w (32 ∷ unwords v ws)))
split-unwords sc (suc fuel) w [] h ok oks = split-last sc fuel w ok
split-unwords sc (suc fuel) w (v ∷ ws) h ok (okv, oks) =
    split-word sc fuel w 32 (unwords v ws) ok (blank_32 sc)
    ∙ ap (◌∷◌ w)
        (split-unwords sc fuel v ws (omega (arith, length-append w (32 ∷ unwords v ws))) okv oks)
  where
    blank_32 : (sc : Bool) → bare_kind sc 32 ≡ blank
    blank_32 true = refl
    blank_32 false = refl

-- One word or more, each of one byte or more that are ordinary outside of quotes, with a blank
-- between them, are split into the same words.
pub str_argv-unwords :
    (sc : Bool) (w : List ℕ) (ws : List (List ℕ))
    → IsWord sc w
    → AllWords sc ws
    → str_argv sc (unwords w ws) ≡ w ∷ ws
unfolding str_argv
str_argv-unwords sc w ws ok oks = split-unwords sc (length (unwords w ws)) w ws (omega arith) ok oks

AllBare-unsigned : (w : List ℕ) → AllBare true w → AllBare false w
AllBare-unsigned [] ok = tt
AllBare-unsigned (c ∷ w) (p, ok) = (ground arith, AllBare-unsigned w ok)

AllBare-append : (sc : Bool) (w v : List ℕ) → AllBare sc w → AllBare sc v → AllBare sc (w ++ v)
AllBare-append sc [] v okw okv = okv
AllBare-append sc (c ∷ w) v (p, okw) okv = (p, AllBare-append sc w v okw okv)

high_kind : (c : ℕ) → 128 ≤ c → (bare_kind false c ≡ plain) × (bare_kind true c ≡ blank)
high_kind c h = (ground arith, ground arith)

split-last_pos :
    (sc : Bool) (fuel : ℕ) (w : List ℕ) → 0 < fuel → IsWord sc w → split sc fuel w ≡ w ∷ []
split-last_pos sc zero w h ok = absurd (omega arith)
split-last_pos sc (suc fuel) w h ok = split-last sc fuel w ok

-- A byte from 0x80 on, between two words of ordinary ASCII bytes: where `char` is unsigned it belongs to one argument with them;
-- where `char` is signed it is taken for a blank, so that it is lost and there are two arguments.
pub str_argv-high_byte :
    (w v : List ℕ) (c : ℕ)
    → IsWord true w
    → IsWord true v
    → 128 ≤ c
    → (str_argv false (w ++ (c ∷ v)) ≡ (w ++ (c ∷ v)) ∷ [])
      × (str_argv true (w ++ (c ∷ v)) ≡ w ∷ (v ∷ []))
unfolding str_argv
str_argv-high_byte [] v c okw okv high = absurd (okw.0 refl)
str_argv-high_byte (d ∷ w) v c okw okv high = (
  split-last false (length (w ++ (c ∷ v))) (d ∷ (w ++ (c ∷ v))) (
    (λ e. cc e),
    AllBare-append false (d ∷ w) (c ∷ v) (AllBare-unsigned (d ∷ w) okw.1)
        ((high_kind c high).0, AllBare-unsigned v okv.1),
  ),
  split-word true (length (w ++ (c ∷ v))) (d ∷ w) c v okw (high_kind c high).1
      ∙ ap (λ k. (d ∷ w) ∷ k)
          (split-last_pos true (length (w ++ (c ∷ v))) v (omega (arith, length-append w (c ∷ v)))
            okv),
)
