-- ===== src/Core/Buf/Storage.antt =====
-- What the operations of core/buf.c do to the bytes stored, and the storage they keep within.
use hakit.Base.{
  ℕ, suc, ◌+◌, ◌≤◌, ◌<◌, ◌≡◌, sym, ap, ◌∙◌, Option, none, some, List, [], ◌∷◌, ◌++◌, pos, length,
  take, drop, get_elem?, arith, le→leb, take-append_exact, get_elem?-take, get_elem?-append_length,
  length-append, length-take, length-drop, take-take_le, append_assoc,
}
use hakit.Core.Buf.{Buf, store, put}

-- The bytes of the buffer.
abbrev pub bytes_of : Option (List ℕ) → ℕ → List ℕ
bytes_of none len = []
bytes_of (some m) len = take len m

abbrev pub contents : Buf → List ℕ
contents b = bytes_of b.base b.len

-- The storage has the size that the buffer says, and room for a NUL character behind the bytes.
abbrev pub StorageIsValid : Option (List ℕ) → ℕ → ℕ → Type 0
StorageIsValid none size len = (size ≡ 0) × (len ≡ 0)
StorageIsValid (some m) size len = (length m ≡ size) × (len < size)

abbrev pub IsValid : Buf → Type 0
IsValid b = StorageIsValid b.base b.size b.len

-- A NUL character stands behind the bytes: `base` is a C string.
abbrev pub EndsAt : Option (List ℕ) → ℕ → Type 0
EndsAt none len = ⊥
EndsAt (some m) len = get_elem? m len ≡ some 0

-- A copy inside the storage.
pub store-in :
    (m : List ℕ) (at : ℕ) (bytes : List ℕ)
    → at + length bytes ≤ length m
    → (m' : List ℕ) × (store (some m) at bytes ≡ some m')
      × (length m' ≡ length m)
      × (take (at + length bytes) m' ≡ take at m ++ bytes)
unfolding store
store-in m at bytes h = (
  stored,
  rw (le→leb (at + length bytes) (length m) h),
  omega (
    arith,
    length-append (take at m) (bytes ++ drop (at + length bytes) m),
    length-append bytes (drop (at + length bytes) m),
    length-take at m,
    length-drop (at + length bytes) m,
  ),
  rw (← append_assoc (take at m) bytes (drop (at + length bytes) m)) (
      take-append_exact (at + length bytes) (take at m ++ bytes) (drop (at + length bytes) m)
        (omega (arith, length-append (take at m) bytes, length-take at m))),
)
  where
    stored : List ℕ
    stored = take at m ++ (bytes ++ drop (at + length bytes) m)

-- A NUL character behind `n` bytes: the bytes before it stay.
pub store-nul :
    (m : List ℕ) (n : ℕ)
    → n < length m
    → (m' : List ℕ) × (store (some m) n (0 ∷ []) ≡ some m')
      × (length m' ≡ length m)
      × (take n m' ≡ take n m)
      × (get_elem? m' n ≡ some 0)
store-nul m n h =
    let (m', e, l, t) = store-in m n (0 ∷ []) (omega arith) in
    let t' : take (suc n) m' ≡ take n m ++ (0 ∷ []) =
      ap (λ k. take k m') {x = suc n} {y = n + 1} (omega arith) ∙ t in
    let ln : length (take n m) ≡ n = omega (arith, length-take n m) in
    (
      m',
      e,
      l,
      sym (take-take_le n (suc n) m' (omega arith))
          ∙ ap (take n) t'
          ∙ take-append_exact n (take n m) (0 ∷ []) ln,
      sym (get_elem?-take n (suc n) m' (omega arith))
          ∙ ap (λ k. get_elem? k n) t'
          ∙ get_elem?-append_exact (take n m) 0 n ln,
    )
  where
    get_elem?-append_exact :
        (xs : List ℕ) (x n : ℕ) → length xs ≡ n → get_elem? (xs ++ (x ∷ [])) n ≡ some x
    get_elem?-append_exact xs x n e = rw (← e) (get_elem?-append_length xs x [])

put-stored :
    (b : Buf) (m1 m2 : List ℕ) (at : ℕ) (bytes : List ℕ)
    → store b.base at bytes ≡ some m1
    → store (some m1) (at + length bytes) (0 ∷ []) ≡ some m2
    → put b at bytes ≡ some (pos 0, record b { base = some m2; len = at + length bytes })
unfolding put
put-stored b m1 m2 at bytes e1 e2 = ground (arith, e1, e2)

pub put-in :
    (b : Buf) (m : List ℕ) (at : ℕ) (bytes : List ℕ)
    → b.base ≡ some m
    → at + length bytes < length m
    → (m' : List ℕ) × (put b at bytes
        ≡ some (pos 0, record b { base = some m'; len = at + length bytes }))
      × (length m' ≡ length m)
      × (take (at + length bytes) m' ≡ take at m ++ bytes)
      × (get_elem? m' (at + length bytes) ≡ some 0)
put-in b m at bytes e h =
    let (m1, e1, l1, t1) = store-in m at bytes (omega arith) in
    let (m2, e2, l2, t2, z2) = store-nul m1 (at + length bytes) (omega arith) in
    (m2, put-stored b m1 m2 at bytes (ap (λ k. store k at bytes) e ∙ e1) e2, l2 ∙ l1, t2 ∙ t1, z2)
