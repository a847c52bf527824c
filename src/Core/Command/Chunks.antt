-- ===== src/Core/Command/Chunks.antt =====
-- core/command.c: how the bytes are cut into chunks makes no difference.
use hakit.Base.{
  ℕ, zero, suc, ◌≤◌, ◌<◌, ◌≡◌, refl, sym, ap, ◌∙◌, Bool, Option, none, some, List, [], ◌∷◌, ◌++◌,
  ◌==◌, if◌then◌else◌, length, arith, append-nil, append_assoc, Bool-cases, inl, inr,
}
use hakit.Core.Command.{
  Command, until_newline, push_before, dispatch, after_segment, recv_from, command_recv,
}

-- The calls and the line, byte by byte.
unfoldable pub bytes : Bool → Bool → List ℕ → List ℕ → List (List (List ℕ)) × List ℕ
bytes sc has line [] = ([], line)
bytes sc has line (c ∷ s) =
    let (calls, line') = bytes sc has (if c == 10 then [] else line ++ (c ∷ [])) s in
    ((if c == 10 then dispatch sc has line else []) ++ calls, line')

after_segment-push :
    (sc has : Bool) (more : List ℕ → List (List (List ℕ)) × List ℕ) (line : List ℕ) (c : ℕ)
    (r : List ℕ × Option (List ℕ))
    → after_segment sc more has (line ++ (c ∷ [])) r
      ≡ after_segment sc more has line (push_before c r)
unfolding after_segment
after_segment-push sc has more line c (before, none) =
    ap (λ k. ([], k)) (append_assoc line (c ∷ []) before)
after_segment-push sc has more line c (before, some s) =
    ap (λ k. (dispatch sc has k ++ (more s).0, (more s).1)) (append_assoc line (c ∷ []) before)

-- A segment of the line.
bytes-segment :
    (sc has : Bool) (line s : List ℕ)
    → bytes sc has line s ≡ after_segment sc (bytes sc has []) has line (until_newline s)
unfolding until_newline bytes after_segment
bytes-segment sc has line [] = ap (λ k. ([], k)) (sym (append-nil line))
bytes-segment sc has line (c ∷ s) = elim (Bool-cases (c == 10)) [
  | inl e ↦ rw e (
      ap (λ k. (dispatch sc has k ++ (bytes sc has [] s).0, (bytes sc has [] s).1))
        (sym (append-nil line)))
  | inr e ↦ rw e (
      bytes-segment sc has (line ++ (c ∷ [])) s
      ∙ after_segment-push sc has (bytes sc has []) line c (until_newline s))
]

-- The rest behind a newline is shorter.
abbrev pub Shorter : ℕ → List ℕ × Option (List ℕ) → Type 0
Shorter n (before, none) = Unit {0}
Shorter n (before, some s) = length s < n

pub until_newline-Shorter : (s : List ℕ) → Shorter (length s) (until_newline s)
unfolding until_newline
until_newline-Shorter [] = tt
until_newline-Shorter (c ∷ s) = elim (Bool-cases (c == 10)) [
  | inl e ↦ rw e (omega arith)
  | inr e ↦ rw e (pushed (until_newline s) (until_newline-Shorter s))
]
  where
    pushed :
        (r : List ℕ × Option (List ℕ))
        → Shorter (length s) r
        → Shorter (suc (length s)) (push_before c r)
    pushed (before, none) h = tt
    pushed (before, some t) h = omega arith

after_segment-same :
    (sc has : Bool) (f g : List ℕ → List (List (List ℕ)) × List ℕ) (line : List ℕ) (n : ℕ)
    (r : List ℕ × Option (List ℕ))
    → ((s : List ℕ) → length s < n → f s ≡ g s)
    → Shorter n r
    → after_segment sc f has line r ≡ after_segment sc g has line r
unfolding after_segment
after_segment-same sc has f g line n (before, none) h short = refl
after_segment-same sc has f g line n (before, some s) h short =
    ap (λ (r : List (List (List ℕ)) × List ℕ). (dispatch sc has (line ++ before) ++ r.0, r.1))
      (h s short)

-- The loop of `command_recv` does what reading byte by byte does.
recv_from-bytes :
    (sc has : Bool) (fuel : ℕ) (line s : List ℕ)
    → length s ≤ fuel
    → recv_from sc fuel has line s ≡ bytes sc has line s
unfolding recv_from
recv_from-bytes sc has zero line [] h = unfold bytes in refl
recv_from-bytes sc has zero line (c ∷ s) h = absurd (omega arith)
recv_from-bytes sc has (suc fuel) line [] h = unfold bytes in refl
recv_from-bytes sc has (suc fuel) line (c ∷ s) h =
    after_segment-same sc has (recv_from sc fuel has []) (bytes sc has []) line (length (c ∷ s))
      (until_newline (c ∷ s)) (λ t short. recv_from-bytes sc has fuel [] t (omega arith))
      (until_newline-Shorter (c ∷ s))
    ∙ sym (bytes-segment sc has line (c ∷ s))

pub bytes-append :
    (sc has : Bool) (line s t : List ℕ)
    → let (calls, line') = bytes sc has line s in
      let (calls', line'') = bytes sc has line' t in
      bytes sc has line (s ++ t) ≡ (calls ++ calls', line'')
unfolding bytes
bytes-append sc has line [] t = refl
bytes-append sc has line (c ∷ s) t =
    let first = if c == 10 then dispatch sc has line else [] in
    let line1 = if c == 10 then [] else line ++ (c ∷ []) in
    let (calls, line') = bytes sc has line1 s in
    ap (λ (r : List (List (List ℕ)) × List ℕ). (first ++ r.0, r.1)) (bytes-append sc has line1 s t)
    ∙ ap (λ k. (k, (bytes sc has line' t).1))
        (sym (append_assoc first calls (bytes sc has line' t).0))

pub recv-bytes :
    (sc : Bool) (cmd : Command) (s : List ℕ)
    → command_recv sc cmd (some s) ≡ (
      1,
      (bytes sc cmd.has_handler cmd.line s).0,
      record cmd { line = (bytes sc cmd.has_handler cmd.line s).1 },
    )
unfolding command_recv
recv-bytes sc cmd s =
    ap (λ (r : List (List (List ℕ)) × List ℕ). (1, r.0, record cmd { line = r.1 }))
      (recv_from-bytes sc cmd.has_handler (length s) cmd.line s (omega arith))

-- Two chunks have the effect of the one chunk that they make up: the same calls of the handler in the
-- same order, and the same line begun.
pub command_recv-append :
    (sc : Bool) (cmd : Command) (s t : List ℕ)
    → let (ret, calls, cmd') = command_recv sc cmd (some s) in
      let (ret', calls', cmd'') = command_recv sc cmd' (some t) in
      command_recv sc cmd (some (s ++ t)) ≡ (1, calls ++ calls', cmd'')
command_recv-append sc cmd s t = simp (recv-bytes, bytes-append sc cmd.has_handler cmd.line s t)
