-- ===== src/Core/Tile/Connections.antt =====
-- core/mod.c: what creating, connecting and merging nets do to the nets of pads and the pads of nets.
use hakit.Base.{
  map, ℕ, zero, suc, ◌+◌, ◌<◌, ◌≡◌, ◌≢◌, refl, ◌⊎◌, sym, ap, subst, ◌∙◌, true, false, Option, none,
  some, List, [], ◌∷◌, ◌++◌, ◌==◌, ltb, if◌then◌else◌, get_elem?, length, arith, inl, inr,
  append-nil, append_assoc,
}
use hakit.Core.Tile.{
  Net, Tile, modify, pad_net, net_of, net_pads, pads_of, set_net, push_pad, net_connect, move_pads,
}

pub get_elem?-modify_self {ℓ} :
    {A : Type ℓ} (xs : List A) (i : ℕ) (f : A → A) (x : A)
    → get_elem? xs i ≡ some x
    → get_elem? (modify xs i f) i ≡ some (f x)
unfolding modify
get_elem?-modify_self [] i f x e = cc
get_elem?-modify_self (y ∷ xs) zero f x e = ground (arith, e)
get_elem?-modify_self (y ∷ xs) (suc i) f x e = get_elem?-modify_self xs i f x e

pub get_elem?-modify_ne {ℓ} :
    {A : Type ℓ} (xs : List A) (i j : ℕ) (f : A → A)
    → i ≢ j
    → get_elem? (modify xs i f) j ≡ get_elem? xs j
unfolding modify
get_elem?-modify_ne [] i j f h = refl
get_elem?-modify_ne (x ∷ xs) zero zero f h = absurd (h refl)
get_elem?-modify_ne (x ∷ xs) zero (suc j) f h = refl
get_elem?-modify_ne (x ∷ xs) (suc i) zero f h = refl
get_elem?-modify_ne (x ∷ xs) (suc i) (suc j) f h = get_elem?-modify_ne xs i j f (λ e. h (ap suc e))

pub map-modify_same {ℓ κ} :
    {A : Type ℓ} {B : Type κ} (g : A → B) (f : A → A) (xs : List A) (i : ℕ)
    → ((x : A) → g (f x) ≡ g x)
    → map g (modify xs i f) ≡ map g xs
unfolding modify
map-modify_same g f [] i h = refl
map-modify_same g f (x ∷ xs) zero h = ap (λ y. y ∷ map g xs) (h x)
map-modify_same g f (x ∷ xs) (suc i) h = ap (λ ys. g x ∷ ys) (map-modify_same g f xs i h)

pub length-modify {ℓ} :
    {A : Type ℓ} (xs : List A) (i : ℕ) (f : A → A) → length (modify xs i f) ≡ length xs
unfolding modify
length-modify [] i f = refl
length-modify (x ∷ xs) zero f = refl
length-modify (x ∷ xs) (suc i) f = ap suc (length-modify xs i f)

pub get_elem?-some_lt {ℓ} :
    {A : Type ℓ} (xs : List A) (n : ℕ) (x : A) → get_elem? xs n ≡ some x → n < length xs
get_elem?-some_lt [] n x e = cc
get_elem?-some_lt (y ∷ xs) zero x e = omega arith
get_elem?-some_lt (y ∷ xs) (suc n) x e = let rest = get_elem?-some_lt xs n x e in omega arith

pub get_elem?-lt_some {ℓ} :
    {A : Type ℓ} (xs : List A) (n : ℕ) → n < length xs → (x : A) × (get_elem? xs n ≡ some x)
get_elem?-lt_some [] n h = absurd (omega arith)
get_elem?-lt_some (y ∷ xs) zero h = (y, refl)
get_elem?-lt_some (y ∷ xs) (suc n) h = get_elem?-lt_some xs n (omega arith)

-- Whether two places are the same, and what `==` says of them.
pub same : (i j : ℕ) → (((i == j) ≡ true) × (i ≡ j)) ⊎ (((i == j) ≡ false) × (i ≢ j))
same i j = ground arith

net_of-set_net :
    (t : Tile) (p q : ℕ) (net : Option ℕ)
    → p < length t.pads
    → net_of (set_net t p net) q ≡ (if p == q then net else net_of t q)
net_of-set_net t p q net h =
    let (pad, e) = get_elem?-lt_some t.pads p h in
    elim (same p q) [
      | inl (s, k) ↦ rw s (
          subst (λ q. net_of (set_net t p net) q ≡ net) k
            (ap pad_net (get_elem?-modify_self t.pads p (λ pad. record pad { net = net }) pad e)))
      | inr (s, k) ↦
          rw s (ap pad_net (get_elem?-modify_ne t.pads p q (λ pad. record pad { net = net }) k))
    ]

pads_of-push :
    (t : Tile) (nets : List Net) (n m p : ℕ)
    → n < length nets
    → net_pads (get_elem? (modify nets n (push_pad p)) m)
      ≡ (if n == m then net_pads (get_elem? nets m) ++ (p ∷ []) else net_pads (get_elem? nets m))
pads_of-push t nets n m p h =
    let (net, e) = get_elem?-lt_some nets n h in
    elim (same n m) [
      | inl (s, k) ↦ rw s (
          subst
            (λ m.
              net_pads (get_elem? (modify nets n (push_pad p)) m)
              ≡ net_pads (get_elem? nets m) ++ (p ∷ []))
            k
            (ap net_pads (get_elem?-modify_self nets n (push_pad p) net e)
              ∙ sym (ap (λ o. net_pads o ++ (p ∷ [])) e)))
      | inr (s, k) ↦ rw s (ap net_pads (get_elem?-modify_ne nets n m (push_pad p) k))
    ]

-- The nets of pads and the pads of nets, after a step from `t` to `t'`.
pub record Moves (t t' : Tile) (net : ℕ → Option ℕ) (pads : ℕ → List ℕ) : Type 0 where
  pub nets_of : (q : ℕ) → net_of t' q ≡ net q
  pub all_pads : (m : ℕ) → pads_of t' m ≡ pads m
  pub npads : length t'.pads ≡ length t.pads
  pub nnets : length t'.nets ≡ length t.nets

net_connect_free :
    (t : Tile) (n p : ℕ)
    → net_of t p ≡ none
    → net_connect t n p ≡ set_net (record t { nets = modify t.nets n (push_pad p) }) p (some n)
unfolding net_connect
net_connect_free t n p e = rw (net_connect, e) refl

pub net_connect_used : (t : Tile) (n n' p : ℕ) → net_of t p ≡ some n' → net_connect t n p ≡ t
unfolding net_connect
net_connect_used t n n' p e = rw (net_connect, e) refl

pub net_connect-Moves :
    (t : Tile) (n p : ℕ)
    → net_of t p ≡ none
    → p < length t.pads
    → n < length t.nets
    → Moves t
        (net_connect t n p)
        (λ q. if p == q then some n else net_of t q)
        (λ m. if n == m then pads_of t m ++ (p ∷ []) else pads_of t m)
net_connect-Moves t n p e hp hn = rw (net_connect_free t n p e) (record {
  nets_of = λ q. net_of-set_net (record t { nets = modify t.nets n (push_pad p) }) p q (some n) hp;
  all_pads = λ m. pads_of-push t t.nets n m p hn;
  npads = length-modify t.pads p (λ pad. record pad { net = some n });
  nnets = length-modify t.nets n (push_pad p);
})

abbrev pub count : ℕ → List ℕ → ℕ
count p [] = 0
count p (q ∷ qs) = (if p == q then 1 else 0) + count p qs

pub count-append : (p : ℕ) (xs ys : List ℕ) → count p (xs ++ ys) ≡ count p xs + count p ys
count-append p [] ys = omega arith
count-append p (x ∷ xs) ys = omega (arith, count-append p xs ys)

-- A pad of another net, freed and connected to `n`.
reconnect-Moves :
    (t : Tile) (n p : ℕ)
    → p < length t.pads
    → n < length t.nets
    → Moves t
        (net_connect (set_net t p none) n p)
        (λ q. if p == q then some n else net_of t q)
        (λ m. if n == m then pads_of t m ++ (p ∷ []) else pads_of t m)
reconnect-Moves t n p hp hn =
    let t1 = set_net t p none in
    let size = length-modify t.pads p (λ pad. record pad { net = none }) in
    let free : net_of t1 p ≡ none = ground (arith, net_of-set_net t p p none hp) in
    let m = net_connect-Moves t1 n p free (rw size hp) hn in
    record {
      nets_of = λ q. m.nets_of q ∙ (ground (arith, net_of-set_net t p q none hp));
      all_pads = m.all_pads;
      npads = m.npads ∙ size;
      nnets = m.nnets;
    }

-- The loop of a merge, from a list of pads of the tile.
pub move_pads-Moves :
    (t : Tile) (n : ℕ) (ps : List ℕ)
    → ((q : ℕ) → 0 < count q ps → q < length t.pads)
    → n < length t.nets
    → Moves t
        (move_pads t n ps)
        (λ q. if ltb 0 (count q ps) then some n else net_of t q)
        (λ m. if n == m then pads_of t m ++ ps else pads_of t m)
unfolding move_pads
move_pads-Moves t n [] h hn = record {
  nets_of = λ q. refl;
  all_pads = λ m. ground (arith, append-nil (pads_of t m));
  npads = refl;
  nnets = refl;
}
move_pads-Moves t n (p ∷ ps) h hn =
    let m1 = reconnect-Moves t n p (h p (ground arith)) hn in
    let t2 = net_connect (set_net t p none) n p in
    let below : (q : ℕ) → 0 < count q ps → q < length t2.pads =
      λ q c. rw m1.npads (h q (ground arith)) in
    let m2 = move_pads-Moves t2 n ps below (rw m1.nnets hn) in
    record {
      nets_of = λ q. m2.nets_of q ∙ (ground (arith, m1.nets_of q));
      all_pads = λ m.
          m2.all_pads m ∙ (ground (arith, m1.all_pads m, append_assoc (pads_of t m) (p ∷ []) ps));
      npads = m2.npads ∙ m1.npads;
      nnets = m2.nnets ∙ m1.nnets;
    }
