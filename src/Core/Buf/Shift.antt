-- ===== src/Core/Buf/Shift.antt =====
-- core/buf.c: `buf_shift` drops the first bytes.
use hakit.Base.{
  ℕ, zero, suc, ◌+◌, ◌-◌, ◌≤◌, ◌<◌, ◌≡◌, refl, sym, ap, ◌∙◌, Option, none, some, List, [], ◌∷◌,
  ◌++◌, pos, ltb, length, take, drop, arith, lt→ltb, append_assoc, append-nil, get_elem?, set,
  get_elem?-append_length, length-append, length-take, length-drop, drop_all, take-append_exact,
  Bool-cases, inl, inr, take-append-drop,
}
use hakit.Core.Buf.{Buf, move, move_base, shift}
use hakit.Core.Buf.Append.{storage_at}
use hakit.Core.Buf.Storage.{contents, IsValid, bytes_of, StorageIsValid}

set-append_length :
    (p : List ℕ) (x c : ℕ) (r : List ℕ) → set (p ++ (x ∷ r)) (length p) c ≡ p ++ (c ∷ r)
set-append_length [] x c r = refl
set-append_length (y ∷ p) x c r = ap (◌∷◌ y) (set-append_length p x c r)

get_elem?-append_at :
    (xs : List ℕ) (y i : ℕ) (ys : List ℕ) → i ≡ length xs → get_elem? (xs ++ (y ∷ ys)) i ≡ some y
get_elem?-append_at xs y i ys e = rw e (get_elem?-append_length xs y ys)

move-step :
    (rounds : ℕ) (m : List ℕ) (ofs i c : ℕ)
    → get_elem? m i ≡ some c
    → move (suc rounds) m ofs i ≡ move rounds (set m (i - ofs) c) ofs (i + 1)
unfolding move
move-step rounds m ofs i c e = rw (e, move)

-- One round: a byte moves over the gap.
move-round :
    (p g w : List ℕ) (x c i rounds : ℕ)
    → i ≡ length p + suc (length g)
    → move (suc rounds) (p ++ (x ∷ (g ++ (c ∷ w)))) (suc (length g)) i
      ≡ move rounds ((p ++ (c ∷ [])) ++ ((g ++ (c ∷ [])) ++ w)) (suc (length g)) (i + 1)
move-round p g w x c i rounds e =
    move-step rounds m (suc (length g)) i c found
    ∙ ap (λ k. move rounds k (suc (length g)) (i + 1)) written
  where
    m : List ℕ
    m = p ++ (x ∷ (g ++ (c ∷ w)))

    found : get_elem? m i ≡ some c
    found =
        rw (← append_assoc p (x ∷ g) (c ∷ w))
          (get_elem?-append_at (p ++ (x ∷ g)) c i w (omega (arith, e, length-append p (x ∷ g))))

    written : set m (i - suc (length g)) c ≡ (p ++ (c ∷ [])) ++ ((g ++ (c ∷ [])) ++ w)
    written =
        ap (λ k. set m k c) {x = i - suc (length g)} {y = length p} (omega (arith, e))
        ∙ set-append_length p x c (g ++ (c ∷ w))
        ∙ simp append_assoc

-- The loop with `p` moved, a gap of `ofs` bytes behind it, and `q` left.
move-gap :
    (q p g : List ℕ) (i : ℕ) (r : List ℕ)
    → 0 < length g
    → i ≡ length p + length g
    → (g' : List ℕ) × (move (length q) (p ++ (g ++ (q ++ r))) (length g) i
        ≡ some ((p ++ q) ++ (g' ++ r)))
      × (length g' ≡ length g)
move-gap [] p g i r h e = (g, unfold move in rw append-nil, refl)
move-gap (c ∷ q) p [] i r h e = absurd (omega arith)
move-gap (c ∷ q) p (x ∷ g) i r h e =
    let (g', m, l) =
      move-gap q (p ++ (c ∷ [])) (g ++ (c ∷ [])) (i + 1) r (omega (arith, length-append g (c ∷ [])))
        (omega (arith, e, length-append p (c ∷ []), length-append g (c ∷ []))) in
    (
      g',
      move-round p g (q ++ r) x c i (length q) e
          ∙ ap (λ k. move (length q) ((p ++ (c ∷ [])) ++ ((g ++ (c ∷ [])) ++ (q ++ r))) k (i + 1))
              {x = suc (length g)} {y = length (g ++ (c ∷ []))}
              (omega (arith, length-append g (c ∷ [])))
          ∙ m
          ∙ ap (λ k. some (k ++ (g' ++ r))) (append_assoc p (c ∷ []) q),
      omega (arith, l, length-append g (c ∷ [])),
    )

move-cong :
    (k k' : ℕ) (m m' : List ℕ) (o o' i : ℕ)
    → k ≡ k'
    → m ≡ m'
    → o ≡ o'
    → move k m o i ≡ move k' m' o' i
move-cong k k' m m' o o' i a b c = cc

-- The loop of `buf_shift` over a whole storage of `len` bytes and more.
move-drop :
    (m : List ℕ) (len ofs : ℕ)
    → 0 < ofs
    → ofs < len
    → len < length m
    → (m' : List ℕ) × (move (len - ofs) m ofs ofs ≡ some m')
      × (length m' ≡ length m)
      × (take (len - ofs) m' ≡ drop ofs (take len m))
move-drop m len ofs pos_ofs short h =
    let (g', e, l) = move-gap q [] g ofs r (omega (arith, lg)) (omega (arith, lg)) in
    (
      q ++ (g' ++ r),
      move-cong (len - ofs) (length q) m (g ++ (q ++ r)) ofs (length g) ofs (omega (arith, lq))
            whole (omega (arith, lg))
          ∙ e,
      omega (arith, length-append q (g' ++ r), length-append g' r, l, lg, lq, length-drop len m),
      take-append_exact (len - ofs) q (g' ++ r) lq,
    )
  where
    g : List ℕ
    g = take ofs (take len m)

    q : List ℕ
    q = drop ofs (take len m)

    r : List ℕ
    r = drop len m

    whole : m ≡ g ++ (q ++ r)
    whole = sym (
        sym (append_assoc g q r)
        ∙ ap (λ k. k ++ r) (take-append-drop ofs (take len m))
        ∙ take-append-drop len m)

    lg : length g ≡ ofs
    lg = omega (arith, length-take ofs (take len m), length-take len m)

    lq : length q ≡ len - ofs
    lq = omega (arith, length-drop ofs (take len m), length-take len m)

shift-moved :
    (b : Buf) (m m' : List ℕ) (ofs : ℕ)
    → b.base ≡ some m
    → 0 < ofs
    → ofs < b.len
    → move (b.len - ofs) m ofs ofs ≡ some m'
    → shift b (pos ofs) ≡ some (record b { base = some m'; len = b.len - ofs })
unfolding shift move_base
shift-moved b m m' ofs e h k done =
    rw (lt→ltb 0 ofs h, lt→ltb ofs b.len k) (ground (arith, e, done))

emptied-IsValid :
    (base : Option (List ℕ)) (size len ofs : ℕ)
    → StorageIsValid base size len
    → len ≤ ofs
    → (bytes_of base 0 ≡ drop ofs (bytes_of base len)) × StorageIsValid base size 0
emptied-IsValid none size len ofs v h = (sym (drop_all ofs [] (omega arith)), (v.0, refl))
emptied-IsValid (some m) size len ofs v h =
    (sym (drop_all ofs (take len m) (omega (arith, length-take len m))), (v.0, omega arith))

-- Shifting a valid buffer by `ofs` bytes, 0 or more, succeeds, drops the first `ofs` of its bytes
-- (all of them if there are fewer), and keeps the buffer valid.
pub shift-contents :
    (b : Buf) (ofs : ℕ)
    → IsValid b
    → (b' : Buf) × (shift b (pos ofs) ≡ some b')
      × (contents b' ≡ drop ofs (contents b))
      × IsValid b'
unfolding shift
shift-contents b zero v = (b, refl, refl, v)
shift-contents b (suc n) v = elim (Bool-cases (ltb (suc n) b.len)) [
  | inl e ↦
      let (m, eb, l, t) =
        storage_at b.base b.size b.len v (room b.base b.size b.len v (ground arith)) in
      let (m', moved, l', t') =
        move-drop m b.len (suc n) (omega arith) (ground arith) (below b m eb v) in
      (
        record b { base = some m'; len = b.len - suc n },
        shift-moved b m m' (suc n) eb (omega arith) (ground arith) moved,
        t' ∙ ap (drop (suc n)) t,
        (l' ∙ l, omega (arith, below b m eb v, l)),
      )
  | inr e ↦
      let (c, v') = emptied-IsValid b.base b.size b.len (suc n) v (ground arith) in
      (record b { len = 0 }, rw (lt→ltb 0 (suc n) (omega arith), e), c, v')
]
  where
    room :
        (base : Option (List ℕ)) (size len : ℕ) → StorageIsValid base size len → 0 < len → 0 < size
    room none size len w h = omega arith
    room (some m) size len w h = omega arith

    below : (b : Buf) (m : List ℕ) → b.base ≡ some m → IsValid b → b.len < length m
    below b m eb w = ground (arith, eb)
