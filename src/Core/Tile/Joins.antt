-- ===== src/Core/Tile/Joins.antt =====
-- core/mod.c: the nets of a tile stay in step with its pads, and what joining two pads brings together.
use hakit.Base.{
  ℕ, ◌<◌, ◌≡◌, refl, sym, ap, subst, ◌∙◌, Option, none, some, List, ◌==◌, ◌||◌, if◌then◌else◌,
  get_elem?, length, arith, Option-cases, inl, inr,
}
use hakit.Core.Tile.{Pad, Tile, pad_net, net_of, net_create, net_connect, net_merge, join}
use hakit.Core.Tile.Connections.{same, net_connect-Moves, net_connect_used}
use hakit.Core.Tile.Nets.{
  is_net, IsConnected, net_of-lt, net_connect-IsConnected, net_merge-Moves, net_merge-IsConnected,
  net_create-Creates, Creates-IsConnected,
}

abbrev or_else : Option ℕ → ℕ → Option ℕ
or_else none n = some n
or_else (some m) n = some m

-- A connect, whether the pad has a net or not.
net_connect-net_of :
    (t : Tile) (n p q : ℕ)
    → p < length t.pads
    → n < length t.nets
    → net_of (net_connect t n p) q ≡ (if p == q then or_else (net_of t p) n else net_of t q)
net_connect-net_of t n p q hp hn = elim (Option-cases (net_of t p)) [
  | inl e ↦ (net_connect-Moves t n p e hp hn).nets_of q ∙ (ground arith)
  | inr (m, e) ↦ elim (same p q) [
    | inl (s, k) ↦
        rw (net_connect_used t n m p e, s)
          (subst (λ q. net_of t q ≡ or_else (net_of t p) n) k (ground arith))
    | inr (s, k) ↦ rw (net_connect_used t n m p e, s) refl
  ]
]

net_connect-sizes :
    (t : Tile) (n p : ℕ)
    → p < length t.pads
    → n < length t.nets
    → (length (net_connect t n p).pads ≡ length t.pads)
      × (length (net_connect t n p).nets ≡ length t.nets)
net_connect-sizes t n p hp hn = elim (Option-cases (net_of t p)) [
  | inl e ↦ let m = net_connect-Moves t n p e hp hn in (m.npads, m.nnets)
  | inr (m, e) ↦ rw (net_connect_used t n m p e) (refl, refl)
]

-- What `hk_obj_net` does to the pads of a tile: those of both nets have one net from then on.
pub record Joined (t t' : Tile) (p1 p2 : ℕ) : Type 0 where
  pub connected : IsConnected t'
  pub npads : length t'.pads ≡ length t.pads
  pub net : ℕ
  pub first : net_of t' p1 ≡ some net
  pub second : net_of t' p2 ≡ some net
  pub others :
      (q : ℕ)
      → net_of t' q ≡ (
          if p1 == q || p2 == q then some net else elim (net_of t q) [
            | none ↦ none
            | some n ↦ some (if is_net (net_of t p1) n || is_net (net_of t p2) n then net else n)
          ])

new_net-Joined :
    (t : Tile) (p1 p2 : ℕ)
    → IsConnected t
    → p1 < length t.pads
    → p2 < length t.pads
    → net_of t p1 ≡ none
    → net_of t p2 ≡ none
    → let (n, t1) = net_create t in Joined t (net_connect (net_connect t1 n p1) n p2) p1 p2
new_net-Joined t p1 p2 c h1 h2 e1 e2 =
    let (n, t1) = net_create t in
    let k = net_create-Creates t in
    let i1 : p1 < length t1.pads = rw k.pads h1 in
    let i2 : p2 < length t1.pads = rw k.pads h2 in
    let (np, nn) = net_connect-sizes t1 n p1 i1 k.place in
    let t2 = net_connect t1 n p1 in
    let j2 : p2 < length t2.pads = rw np i2 in
    let place : n < length t2.nets = rw nn k.place in
    let old : (q : ℕ) → net_of t1 q ≡ net_of t q =
      λ q. ap (λ (ps : List Pad). pad_net (get_elem? ps q)) k.pads in
    let (np', nn') = net_connect-sizes t2 n p2 j2 place in
    record {
      connected =
          net_connect-IsConnected t2 n p2
            (net_connect-IsConnected t1 n p1 (Creates-IsConnected t t1 n c k) i1 k.place) j2 place;
      npads = np' ∙ np ∙ ap length k.pads;
      net = n;
      first =
          net_connect-net_of t2 n p2 p1 j2 place
          ∙ (ground (
            arith,
            net_connect-net_of t1 n p1 p1 i1 k.place,
            net_connect-net_of t1 n p1 p2 i1 k.place,
            old p1,
            old p2,
          ));
      second =
          net_connect-net_of t2 n p2 p2 j2 place
          ∙ (ground (
            arith,
            net_connect-net_of t1 n p1 p1 i1 k.place,
            net_connect-net_of t1 n p1 p2 i1 k.place,
            old p1,
            old p2,
          ));
      others = λ q.
          net_connect-net_of t2 n p2 q j2 place
          ∙ (ground (
            arith,
            net_connect-net_of t1 n p1 q i1 k.place,
            net_connect-net_of t1 n p1 p2 i1 k.place,
            old q,
            old p1,
            old p2,
          ));
    }

merge-Joined :
    (t : Tile) (p1 p2 n1 n2 : ℕ)
    → IsConnected t
    → net_of t p1 ≡ some n1
    → net_of t p2 ≡ some n2
    → Joined t (net_merge t n1 n2) p1 p2
unfolding net_merge
merge-Joined t p1 p2 n1 n2 c e1 e2 = elim (same n1 n2) [
  | inl (s, e) ↦ rw s (record {
    connected = c;
    npads = refl;
    net = n1;
    first = e1;
    second = e2 ∙ ap some (sym e);
    others = λ q. ground arith;
  })
  | inr (s, ne) ↦
      let l1 = net_of-lt t p1 n1 c e1 in
      let l2 = net_of-lt t p2 n2 c e2 in
      let m = net_merge-Moves t n1 n2 c ne l1 l2 in
      record {
        connected = net_merge-IsConnected t n1 n2 c ne l1 l2;
        npads = m.npads;
        net = n1;
        first = m.nets_of p1 ∙ (ground arith);
        second = m.nets_of p2 ∙ (ground arith);
        others = λ q. m.nets_of q ∙ (ground arith);
      }
]

-- In a tile whose nets are in step with its pads, joining two pads keeps them in step, and puts both
-- pads and all pads of their nets on one net; every other pad keeps its net.
pub join-Joined :
    (t : Tile) (p1 p2 : ℕ)
    → IsConnected t
    → p1 < length t.pads
    → p2 < length t.pads
    → Joined t (join t p1 p2) p1 p2
unfolding join
join-Joined t p1 p2 c h1 h2 = elim (Option-cases (net_of t p1)) [
  | inl e1 ↦ elim (Option-cases (net_of t p2)) [
    | inl e2 ↦ rw (join, e1, e2) (new_net-Joined t p1 p2 c h1 h2 e1 e2)
    | inr (n2, e2) ↦
        rw (join, e1, e2)
          (let l2 = net_of-lt t p2 n2 c e2 in
            let m = net_connect-Moves t n2 p1 e1 h1 l2 in
            record {
              connected = net_connect-IsConnected t n2 p1 c h1 l2;
              npads = m.npads;
              net = n2;
              first = m.nets_of p1 ∙ (ground arith);
              second = m.nets_of p2 ∙ (ground arith);
              others = λ q. m.nets_of q ∙ (ground arith);
            })
  ]
  | inr (n1, e1) ↦ elim (Option-cases (net_of t p2)) [
    | inl e2 ↦
        rw (join, e1, e2)
          (let l1 = net_of-lt t p1 n1 c e1 in
            let m = net_connect-Moves t n1 p2 e2 h2 l1 in
            record {
              connected = net_connect-IsConnected t n1 p2 c h2 l1;
              npads = m.npads;
              net = n1;
              first = m.nets_of p1 ∙ (ground arith);
              second = m.nets_of p2 ∙ (ground arith);
              others = λ q. m.nets_of q ∙ (ground arith);
            })
    | inr (n2, e2) ↦ rw (join, e1, e2) (merge-Joined t p1 p2 n1 n2 c e1 e2)
  ]
]
