-- ===== src/Core/Buf/Faults.antt =====
-- core/buf.c: where an append writes or reads outside the storage.
use hakit.Base.{
  ℕ, ◌+◌, ◌*◌, ◌≤◌, ◌<◌, ◌≡◌, refl, ap, ◌∙◌, Bool, true, false, none, some, List, [], ◌∷◌, ◌++◌,
  pos, negsuc, Option, ℤ, if◌then◌else◌, Bool-cases, inl, inr, ltb, ◌==◌, length, take, arith,
  le→ltb, lt→ltb, lt→ne,
}
use hakit.Core.Buf.{Buf, chunk_size, ceil_div, store, put, grow, append, append_fmt, fmt_size}
use hakit.Core.Buf.Storage.{contents, IsValid}
use hakit.Core.Buf.Append.{append-contents}

-- The size that `buf_grow` asks for.
abbrev pub grown_size : Buf → ℕ → ℕ
grown_size b n = ceil_div (b.len + (n + 1)) chunk_size * chunk_size

put-null : (b : Buf) (at : ℕ) (bytes : List ℕ) → b.base ≡ none → put b at bytes ≡ none
unfolding put store
put-null b at bytes e = ground (arith, e)

append-null :
    (alloc : ℕ → Bool) (b : Buf) (bytes : List ℕ)
    → b.base ≡ none
    → b.len + (length bytes + 1) ≤ b.size
    → append alloc b bytes ≡ none
unfolding append grow
append-null alloc b bytes e h =
    rw (le→ltb b.size (b.len + (length bytes + 1)) h) (put-null b b.len bytes e)

-- If an append has to enlarge the buffer and `realloc` fails, it returns -1 and leaves the buffer
-- with no storage but the larger size; an append of no more bytes after it writes through the
-- NULL pointer.
pub append-after_failure :
    (alloc : ℕ → Bool) (b : Buf) (xs ys : List ℕ)
    → b.size < b.len + (length xs + 1)
    → alloc (grown_size b (length xs)) ≡ false
    → length ys ≤ length xs
    → (b' : Buf) × (append alloc b xs ≡ some (negsuc 0, b')) × (append alloc b' ys ≡ none)
unfolding append grow
append-after_failure alloc b xs ys short refused h = (
  record b { base = none; size = grown_size b (length xs) },
  rw (lt→ltb b.size (b.len + (length xs + 1)) short, refused),
  append-null alloc (record b { base = none; size = grown_size b (length xs) }) ys refl
      (omega arith),
)

append_fmt-cases :
    (alloc : ℕ → Bool) (b : Buf) (text : List ℕ)
    → ((n : ℕ) → alloc n ≡ true)
    → IsValid b
    → (length text < fmt_size
        → (b' : Buf) × (append_fmt alloc b text ≡ some (pos 0, b'))
          × (contents b' ≡ contents b ++ text))
      × (length text ≡ fmt_size
          → (b' : Buf) × (append_fmt alloc b text ≡ some (pos 0, b'))
            × (contents b' ≡ contents b ++ (take 1023 text ++ (0 ∷ []))))
      × (fmt_size < length text → append_fmt alloc b text ≡ none)
unfolding append_fmt
append_fmt-cases alloc b text served v = (
  (λ h.
      let (b', e, c, _, _, _) = append-contents alloc served b text v in
      (b', rw (lt→ltb (length text) fmt_size h) e, c)),
  (λ h.
      let (b', e, c, _, _, _) = append-contents alloc served b (take 1023 text ++ (0 ∷ [])) v in
      (b', rw h e, c)),
  (λ h. rw (le→ltb (length text) fmt_size (omega arith), lt→ne (length text) fmt_size h)),
)

-- What an append returned, and the bytes of the buffer after it.
abbrev pub outcome : Option (ℤ × Buf) → Option (ℤ × List ℕ)
outcome none = none
outcome (some (ret, b)) = some (ret, contents b)

-- Where `realloc` never fails, a formatted append to a valid buffer adds the whole text if that
-- is shorter than 1024 bytes; a text of 1024 bytes loses its last byte, which is a NUL character
-- instead; a longer text is read beyond the end of `str`.
pub append_fmt-contents :
    (alloc : ℕ → Bool) (b : Buf) (text : List ℕ)
    → ((n : ℕ) → alloc n ≡ true)
    → IsValid b
    → outcome (append_fmt alloc b text) ≡ (
        if ltb (length text) fmt_size
        then some (pos 0, contents b ++ text)
        else if length text == fmt_size
        then some (pos 0, contents b ++ (take 1023 text ++ (0 ∷ [])))
        else none)
append_fmt-contents alloc b text served v =
    let (short, full, long) = append_fmt-cases alloc b text served v in
    elim (Bool-cases (ltb (length text) fmt_size)) [
      | inl e ↦
          let (b', ep, c) = short (ground arith) in
          rw e (ap outcome ep ∙ ap (λ k. some (pos 0, k)) c)
      | inr e ↦ elim (Bool-cases (length text == fmt_size)) [
        | inl f ↦
            let (b', ep, c) = full (ground arith) in
            rw (e, f) (ap outcome ep ∙ ap (λ k. some (pos 0, k)) c)
        | inr f ↦ rw (e, f) (ap outcome (long (ground arith)))
      ]
    ]
