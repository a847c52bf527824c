-- ===== src/Core/Tile/Nets.antt =====
-- core/mod.c: the nets of a tile in step with its pads; merging and creating nets keeps them so.
use hakit.Base.{
  ℕ, zero, suc, ◌+◌, ◌<◌, ◌≡◌, ◌≢◌, refl, sym, ap, subst, ◌∙◌, Bool, false, Option, none, some,
  List, [], ◌∷◌, ◌++◌, ◌==◌, if◌then◌else◌, get_elem?, length, arith, Bool-cases, Option-cases, inl,
  inr, length-append,
}
use hakit.Core.Tile.{
  Pad, Net, Tile, modify, pad_net, net_of, net_pads, pads_of, recycle, net_create, net_connect,
  move_pads, net_merge,
}
use hakit.Core.Tile.Connections.{
  same, get_elem?-modify_self, get_elem?-modify_ne, get_elem?-some_lt, get_elem?-lt_some,
  length-modify, count, count-append, Moves, net_connect-Moves, net_connect_used, move_pads-Moves,
}

abbrev pub is_net : Option ℕ → ℕ → Bool
is_net none n = false
is_net (some m) n = m == n

-- A pad stands once in the pads of its net, and nowhere else.
pub record IsConnected (t : Tile) : Type 0 where
  pub once : (p n : ℕ) → count p (pads_of t n) ≡ (if is_net (net_of t p) n then 1 else 0)

pub count-none : (xs : List ℕ) (o : Option Net) → o ≡ none → (p : ℕ) → count p (net_pads o) ≡ 0
count-none xs o e p = rw e refl

-- The net of a pad is one of the tile.
pub net_of-lt : (t : Tile) (p n : ℕ) → IsConnected t → net_of t p ≡ some n → n < length t.nets
net_of-lt t p n c e = elim (Option-cases (get_elem? t.nets n)) [
  | inl none_there ↦
      let absent : pads_of t n ≡ [] = ap net_pads none_there in
      absurd (ground (arith, c.once p n, ap (count p) absent))
  | inr (net, there) ↦ get_elem?-some_lt t.nets n net there
]

pub pads_of-lt :
    (t : Tile) (n q : ℕ) → IsConnected t → 0 < count q (pads_of t n) → q < length t.pads
pads_of-lt t n q c h = elim (Option-cases (get_elem? t.pads q)) [
  | inl none_there ↦
      let absent : net_of t q ≡ none = ap pad_net none_there in
      absurd (ground (arith, c.once q n, absent))
  | inr (pad, there) ↦ get_elem?-some_lt t.pads q pad there
]

pub net_connect-IsConnected :
    (t : Tile) (n p : ℕ)
    → IsConnected t
    → p < length t.pads
    → n < length t.nets
    → IsConnected (net_connect t n p)
net_connect-IsConnected t n p c hp hn = elim (Option-cases (net_of t p)) [
  | inl free ↦
      let m = net_connect-Moves t n p free hp hn in
      record {
        once = λ q k.
            ap (count q) (m.all_pads k)
            ∙ (ground (arith, c.once q k, count-append q (pads_of t k) (p ∷ [])))
            ∙ ap (λ o. if is_net o k then 1 else 0) (sym (m.nets_of q));
      }
  | inr (n', used) ↦ rw (net_connect_used t n n' p used) c
]

abbrev pub cleared : Net → Net
cleared net = record { id = 0; pads = [] }

-- A merge: the pads of net `n2` get the net `n1`.
pub net_merge-Moves :
    (t : Tile) (n1 n2 : ℕ)
    → IsConnected t
    → n1 ≢ n2
    → n1 < length t.nets
    → n2 < length t.nets
    → Moves t
        (net_merge t n1 n2)
        (λ q. if is_net (net_of t q) n2 then some n1 else net_of t q)
        (λ m. if n2 == m then [] else if n1 == m then pads_of t m ++ pads_of t n2 else pads_of t m)
unfolding net_merge
net_merge-Moves t n1 n2 c ne h1 h2 =
    let other : (n1 == n2) ≡ false = ground arith in
    let m = move_pads-Moves t n1 (pads_of t n2) (λ q k. pads_of-lt t n2 q c k) h1 in
    let t' = move_pads t n1 (pads_of t n2) in
    let (net, there) = get_elem?-lt_some t'.nets n2 (rw m.nnets h2) in
    rw other (record {
      nets_of = λ q. m.nets_of q ∙ (ground (arith, c.once q n2));
      all_pads = λ k. elim (same n2 k) [
        | inl (s, e) ↦ rw s (
            subst (λ k. net_pads (get_elem? (modify t'.nets n2 cleared) k) ≡ []) e
              (ap net_pads (get_elem?-modify_self t'.nets n2 cleared net there)))
        | inr (s, e) ↦
            rw s (ap net_pads (get_elem?-modify_ne t'.nets n2 k cleared e) ∙ m.all_pads k)
      ];
      npads = m.npads;
      nnets = length-modify t'.nets n2 cleared ∙ m.nnets;
    })

pub net_merge-IsConnected :
    (t : Tile) (n1 n2 : ℕ)
    → IsConnected t
    → n1 ≢ n2
    → n1 < length t.nets
    → n2 < length t.nets
    → IsConnected (net_merge t n1 n2)
net_merge-IsConnected t n1 n2 c ne h1 h2 =
    let m = net_merge-Moves t n1 n2 c ne h1 h2 in
    record {
      once = λ q k.
          ap (count q) (m.all_pads k)
          ∙ (ground (arith, c.once q k, c.once q n2, count-append q (pads_of t k) (pads_of t n2)))
          ∙ ap (λ o. if is_net o k then 1 else 0) (sym (m.nets_of q));
    }

-- The table's first free net is one of the tile, and gets an id only.
pub Recycles : List Net → Option (ℕ × List Net) → Type 0
Recycles nets none = Unit {0}
Recycles nets (some (n, nets')) =
    (n < length nets)
    × (length nets' ≡ length nets)
    × ((m : ℕ) → net_pads (get_elem? nets' m) ≡ net_pads (get_elem? nets m))

pub same_pads :
    (nets : List Net) (n m i : ℕ) (net : Net)
    → get_elem? nets n ≡ some net
    → net_pads (get_elem? (modify nets n (λ net. record net { id = i })) m)
      ≡ net_pads (get_elem? nets m)
same_pads nets n m i net e = elim (same n m) [
  | inl (s, k) ↦
      subst
        (λ m.
          net_pads (get_elem? (modify nets n (λ net. record net { id = i })) m)
          ≡ net_pads (get_elem? nets m))
        k
        (ap net_pads (get_elem?-modify_self nets n (λ net. record net { id = i }) net e)
          ∙ ap net_pads (sym e))
  | inr (s, k) ↦ ap net_pads (get_elem?-modify_ne nets n m (λ net. record net { id = i }) k)
]

pub recycle-Recycles : (nets : List Net) (i : ℕ) (tab : List ℕ) → Recycles nets (recycle nets i tab)
unfolding recycle Recycles
recycle-Recycles nets i [] = tt
recycle-Recycles nets i (n ∷ tab) = elim (Option-cases (get_elem? nets n)) [
  | inl e ↦ rw (recycle, e) (recycle-Recycles nets (i + 1) tab)
  | inr (net, e) ↦ elim (Bool-cases (net.id == 0)) [
    | inl z ↦
        rw (recycle, e, z)
          (
            get_elem?-some_lt nets n net e,
            length-modify nets n (λ net. record net { id = i + 1 }),
            λ m. same_pads nets n m (i + 1) net e,
          )
    | inr z ↦ rw (recycle, e, z) (recycle-Recycles nets (i + 1) tab)
  ]
]

pub pads-append_empty :
    (nets : List Net) (m i : ℕ)
    → net_pads (get_elem? (nets ++ (record { id = i; pads = [] } ∷ [])) m)
      ≡ net_pads (get_elem? nets m)
pads-append_empty [] zero i = refl
pads-append_empty [] (suc m) i = refl
pads-append_empty (net ∷ nets) zero i = refl
pads-append_empty (net ∷ nets) (suc m) i = pads-append_empty nets m i

-- A net that `hk_net_create` returns is one of the tile, and no connection has changed.
pub record Creates (t : Tile) (n : ℕ) (t' : Tile) : Type 0 where
  pub place : n < length t'.nets
  pub pads : t'.pads ≡ t.pads
  pub all_pads : (m : ℕ) → pads_of t' m ≡ pads_of t m

pub net_create-Creates : (t : Tile) → Creates t (net_create t).0 (net_create t).1
unfolding Recycles net_create
net_create-Creates t = elim (Option-cases (recycle t.nets 0 t.net_tab)) [
  | inl e ↦
      rw (net_create, e)
        (record {
          place =
              omega (
                arith,
                length-append t.nets (record { id = length t.net_tab + 1; pads = [] } ∷ []),
              );
          pads = refl;
          all_pads = λ m. pads-append_empty t.nets m (length t.net_tab + 1);
        })
  | inr ((n, nets'), e) ↦
      let (lt, len, kept) = subst (Recycles t.nets) e (recycle-Recycles t.nets 0 t.net_tab) in
      rw (net_create, e) (record { place = omega arith; pads = refl; all_pads = kept })
]

pub Creates-IsConnected : (t t' : Tile) (n : ℕ) → IsConnected t → Creates t n t' → IsConnected t'
Creates-IsConnected t t' n c k = record {
  once = λ q m.
      ap (count q) (k.all_pads m)
      ∙ c.once q m
      ∙ ap (λ (ps : List Pad). if is_net (pad_net (get_elem? ps q)) m then 1 else 0) (sym k.pads);
}
