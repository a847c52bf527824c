-- ===== src/Core/Buf/Append.antt =====
-- core/buf.c: what `buf_grow`, `buf_append` and `buf_set` do to a valid buffer, and the failures.
use hakit.Base.{
  ℕ, ◌+◌, ◌-◌, ◌*◌, ◌≤◌, ◌<◌, ◌≡◌, refl, ap, ◌∙◌, Bool, true, Option, none, some, List, ◌++◌, pos,
  ltb, length, take, replicate, arith, inl, inr, Bool-cases, length-append, length-replicate,
  take-append_le,
}
use hakit.Core.Buf.{Buf, chunk_size, ceil_div, extend, put, put_after, grow, append, set_bytes}
use hakit.Core.Buf.Storage.{bytes_of, contents, StorageIsValid, IsValid, EndsAt, put-in}

-- After growing: storage for `n` more bytes and a NUL character, the bytes as they were.
pub record Grown (b : Buf) (n : ℕ) (b' : Buf) (m : List ℕ) : Type 0 where
  pub base : b'.base ≡ some m
  pub len : b'.len ≡ b.len
  pub size : length m ≡ b'.size
  pub room : b.len + n < b'.size
  pub kept : take b.len m ≡ contents b

ceil_div-le : (x : ℕ) → x ≤ ceil_div x chunk_size * chunk_size
ceil_div-le x = omega arith

length-extend :
    (base : Option (List ℕ)) (size len more : ℕ)
    → StorageIsValid base size len
    → size ≤ more
    → length (extend base more) ≡ more
unfolding extend
length-extend none size len more v h = length-replicate {A = ℕ} more 0
length-extend (some m) size len more v h = omega (
  arith,
  length-append m (replicate (more - length m) 0),
  length-replicate {A = ℕ} (more - length m) 0,
)

take-extend :
    (base : Option (List ℕ)) (size len more : ℕ)
    → StorageIsValid base size len
    → take len (extend base more) ≡ bytes_of base len
unfolding extend
take-extend none size len more v = ap (λ k. take k (replicate more 0)) v.1
take-extend (some m) size len more v =
    take-append_le len m (replicate (more - length m) 0) (omega arith)

pub storage_at :
    (base : Option (List ℕ)) (size len : ℕ)
    → StorageIsValid base size len
    → 0 < size
    → (m : List ℕ) × (base ≡ some m) × (length m ≡ size) × (take len m ≡ bytes_of base len)
storage_at none size len v h = absurd (omega arith)
storage_at (some m) size len v h = (m, refl, v.0, refl)

put_in-Grown :
    (b b' : Buf) (n at : ℕ) (bytes : List ℕ) (m : List ℕ)
    → Grown b n b' m
    → at + length bytes ≤ b.len + n
    → (b'' : Buf) × (put b' at bytes ≡ some (pos 0, b''))
      × (contents b'' ≡ take at m ++ bytes)
      × (b''.len ≡ at + length bytes)
      × IsValid b''
      × EndsAt b''.base b''.len
put_in-Grown b b' n at bytes m g h =
    let (m', e, l, t, z) = put-in b' m at bytes g.base (omega (arith, g.size, g.room)) in
    (
      record b' { base = some m'; len = at + length bytes },
      e,
      t,
      refl,
      (l ∙ g.size, omega (arith, g.size, g.room)),
      z,
    )

module _ (alloc : ℕ → Bool) (served : (n : ℕ) → alloc n ≡ true) where
  pub grow-Grown :
      (b : Buf) (n : ℕ)
      → IsValid b
      → (b' : Buf) × (m : List ℕ) × (grow alloc b n ≡ (pos 0, b')) × Grown b n b' m
  unfolding grow
  grow-Grown b n v = elim (Bool-cases (ltb b.size (b.len + (n + 1)))) [
    | inl e ↦ (
      record b { base = some (extend b.base more); size = more },
      extend b.base more,
      rw (e, served more),
      record {
        base = refl;
        len = refl;
        size = length-extend b.base b.size b.len more v (ground arith);
        room = omega (arith, ceil_div-le (b.len + (n + 1)));
        kept = take-extend b.base b.size b.len more v;
      },
    )
    | inr e ↦
        let (m, eb, l, t) = storage_at b.base b.size b.len v (ground arith) in
        (b, m, rw e, record { base = eb; len = refl; size = l; room = ground arith; kept = t })
  ]
    where
      more : ℕ
      more = ceil_div (b.len + (n + 1)) chunk_size * chunk_size

  -- Where `realloc` never fails, appending to a valid buffer succeeds, adds exactly the bytes
  -- given behind those it holds, keeps the buffer valid and ends it by a NUL character.
  pub append-contents :
      (b : Buf) (bytes : List ℕ)
      → IsValid b
      → (b' : Buf) × (append alloc b bytes ≡ some (pos 0, b'))
        × (contents b' ≡ contents b ++ bytes)
        × (b'.len ≡ b.len + length bytes)
        × IsValid b'
        × EndsAt b'.base b'.len
  unfolding append
  append-contents b bytes v =
      let (g, m, e, w) = grow-Grown b (length bytes) v in
      let (b', ep, c, l, iv, z) = put_in-Grown b g (length bytes) b.len bytes m w (omega arith) in
      (b', ap (λ k. put_after k b.len bytes) e ∙ ep, c ∙ ap (λ k. k ++ bytes) w.kept, l, iv, z)

  -- Where `realloc` never fails, setting a valid buffer succeeds, and leaves exactly the bytes
  -- given in a valid buffer that a NUL character ends.
  pub set_bytes-contents :
      (b : Buf) (bytes : List ℕ)
      → IsValid b
      → (b' : Buf) × (set_bytes alloc b bytes ≡ some (pos 0, b'))
        × (contents b' ≡ bytes)
        × (b'.len ≡ length bytes)
        × IsValid b'
        × EndsAt b'.base b'.len
  unfolding set_bytes
  set_bytes-contents b bytes v =
      let (g, m, e, w) = grow-Grown b (length bytes) v in
      let (b', ep, c, l, iv, z) = put_in-Grown b g (length bytes) 0 bytes m w (omega arith) in
      (b', ap (λ k. put_after k 0 bytes) e ∙ ep, c, l ∙ (omega arith), iv, z)
