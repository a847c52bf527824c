-- ===== src/Core/Tile.antt =====
-- core/mod.c, core/include/mod.h: the pads, nets and objects of a tile. Pads, nets and objects are
-- known by their places in the stores of the tile, in place of pointers; `net_tab` is the table
-- `tile->nets` of pointers to nets. `malloc` and `free` do not show.
pub mod Nets
pub mod Connections
pub mod Joins
pub mod Start
pub mod Update
use hakit.Base.{
  ℕ, zero, suc, ◌+◌, Bool, true, false, Option, none, some, List, [], ◌∷◌, ◌++◌, ◌==◌,
  if◌then◌else◌, get_elem?, set, length, eq_bytes, not, take,
}
use hakit.Core.Prop.{Props}

pub data Dir : Type 0 where
  in_ out io : Dir

pub record Pad : Type 0 where
  pub obj : ℕ
  pub dir : Dir
  pub name : List ℕ
  pub value : Option (List ℕ)
  pub net : Option ℕ
  pub lock : Bool

pub record Net : Type 0 where
  pub id : ℕ
  pub pads : List ℕ

pub record Obj : Type 0 where
  pub name : List ℕ
  pub props : Props
  pub pads : List ℕ

pub record Tile : Type 0 where
  pub objs : List Obj
  pub pads : List Pad
  pub nets : List Net
  pub net_tab : List ℕ

-- A write through a pointer.
unfoldable pub modify {ℓ} : {A : Type ℓ} → List A → ℕ → (A → A) → List A
modify [] i f = []
modify (x ∷ xs) zero f = f x ∷ xs
modify (x ∷ xs) (suc i) f = x ∷ modify xs i f

abbrev pub pad_net : Option Pad → Option ℕ
pad_net none = none
pad_net (some pad) = pad.net

-- `pad->net`
abbrev pub net_of : Tile → ℕ → Option ℕ
net_of t p = pad_net (get_elem? t.pads p)

abbrev pub net_pads : Option Net → List ℕ
net_pads none = []
net_pads (some net) = net.pads

-- `net->pads`
abbrev pub pads_of : Tile → ℕ → List ℕ
pads_of t n = net_pads (get_elem? t.nets n)

abbrev pub set_net : Tile → ℕ → Option ℕ → Tile
set_net t p net = record t { pads = modify t.pads p (λ pad. record pad { net = net }) }

abbrev pub push_pad : ℕ → Net → Net
push_pad p net = record net { pads = net.pads ++ (p ∷ []) }

-- `hk_pad_create`, whose array for the name has 64 bytes: the pad's place, and the tile.
abbrev pub pad_create : Tile → ℕ → Dir → List ℕ → ℕ × Tile
unfolding modify
pad_create t o dir name =
    let pad : Pad = record {
      obj = o;
      dir = dir;
      name = take 63 name;
      value = none;
      net = none;
      lock = false;
    } in
    let p = length t.pads in
    let own = λ (obj : Obj). record obj { pads = obj.pads ++ (p ∷ []) } in
    (p, record t { pads = t.pads ++ (pad ∷ []); objs = modify t.objs o own })

-- The first net of the table whose `id` is 0, which gets the id of its place.
pub recycle : List Net → ℕ → List ℕ → Option (ℕ × List Net)
unfolding modify
recycle nets i [] = none
recycle nets i (n ∷ tab) =
    let rest = recycle nets (i + 1) tab in
    elim (get_elem? nets n) [
      | none ↦ rest
      | some net ↦
          if net.id == 0 then some (n, modify nets n (λ net. record net { id = i + 1 })) else rest
    ]

-- `hk_net_create`: the net's place, and the tile.
pub net_create : Tile → ℕ × Tile
unfolding recycle
net_create t = elim (recycle t.nets 0 t.net_tab) [
  | some (n, nets) ↦ (n, record t { nets = nets; net_tab = t.net_tab ++ (n ∷ []) })
  | none ↦
      let n = length t.nets in
      let net : Net = record { id = length t.net_tab + 1; pads = [] } in
      (n, record t { nets = t.nets ++ (net ∷ []); net_tab = t.net_tab ++ (n ∷ []) })
]

-- `hk_net_connect`: nothing is done for a pad that has a net.
pub net_connect : Tile → ℕ → ℕ → Tile
unfolding modify
net_connect t n p = elim (net_of t p) [
  | some n' ↦ t
  | none ↦ set_net (record t { nets = modify t.nets n (push_pad p) }) p (some n)
]

-- The loop of `hk_net_merge`.
pub move_pads : Tile → ℕ → List ℕ → Tile
unfolding net_connect
move_pads t n1 [] = t
move_pads t n1 (p ∷ pads) = move_pads (net_connect (set_net t p none) n1 p) n1 pads

-- `hk_net_merge`
pub net_merge : Tile → ℕ → ℕ → Tile
unfolding move_pads modify
net_merge t n1 n2 =
    if n1 == n2
    then t
    else let t' = move_pads t n1 (pads_of t n2) in
      record t' { nets = modify t'.nets n2 (λ net. record { id = 0; pads = [] }) }

-- What `hk_obj_net` does once it has found both pads.
pub join : Tile → ℕ → ℕ → Tile
unfolding net_merge net_connect net_create
join t p1 p2 = elim (net_of t p1) [
  | some n1 ↦ elim (net_of t p2) [ some n2 ↦ net_merge t n1 n2 | none ↦ net_connect t n1 p2 ]
  | none ↦ elim (net_of t p2) [
    | some n2 ↦ net_connect t n2 p1
    | none ↦ let (n, t') = net_create t in net_connect (net_connect t' n p1) n p2
  ]
]

-- `hk_obj_find`: the first object of the name.
pub obj_find : List Obj → List ℕ → Option Obj
obj_find [] name = none
obj_find (obj ∷ objs) name = if eq_bytes obj.name name then some obj else obj_find objs name

-- `hk_pad_find`, in the pads of an object.
pub pad_find : List Pad → List ℕ → List ℕ → Option ℕ
pad_find pads [] name = none
pad_find pads (p ∷ ps) name =
    let rest = pad_find pads ps name in
    elim (get_elem? pads p) [
      | none ↦ rest
      | some pad ↦ if eq_bytes pad.name name then some p else rest
    ]

-- What stands before and behind the last '.', if there is one.
unfoldable pub split_last_dot : List ℕ → Option (List ℕ × List ℕ)
split_last_dot [] = none
split_last_dot (c ∷ s) = elim (split_last_dot s) [
  | some (before, behind) ↦ some (c ∷ before, behind)
  | none ↦ if c == b'.' then some ([], s) else none
]

-- The pad that a reference `object.pad` names.
pub target : Tile → List ℕ → Option ℕ
unfolding split_last_dot obj_find pad_find
target t reference = elim (split_last_dot reference) [
  | none ↦ none
  | some (obj_name, pad_name) ↦ elim (obj_find t.objs obj_name) [
    | none ↦ none
    | some obj ↦ pad_find t.pads obj.pads pad_name
  ]
]

-- `hk_obj_net`: what it returns, and the tile.
abbrev pub obj_net : Tile → ℕ → List ℕ → ℕ × Tile
unfolding target join
obj_net t p1 reference = elim (target t reference) [ none ↦ (0, t) | some p2 ↦ (1, join t p1 p2) ]
