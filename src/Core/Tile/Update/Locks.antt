-- ===== src/Core/Tile/Update/Locks.antt =====
-- core/mod.c: which pads a write to a lock opens or shuts.
use hakit.Base.{
  ℕ, zero, suc, ◌+◌, ◌≡◌, refl, ap, Bool, true, false, none, some, List, [], ◌∷◌, ◌||◌,
  if◌then◌else◌, get_elem?, arith, map,
}
use hakit.Core.Tile.{Dir, Pad, Tile, modify}
use hakit.Core.Tile.Update.{is_out, set_value, set_lock, pad_dir, pad_lock}
use hakit.Core.Tile.Connections.{map-modify_same}

-- The pads at which the function comes no deeper: the output pads, and the input pads that are locked.
abbrev pub is_shut : Pad → Bool
is_shut pad = is_out pad.dir || pad.lock

abbrev pub shut : Tile → List Bool
shut t = map is_shut t.pads

abbrev pub dirs : Tile → List Dir
dirs t = map (λ pad. pad.dir) t.pads

abbrev pub open_pads : List Bool → ℕ
open_pads [] = 0
open_pads (b ∷ bs) = (if b then 0 else 1) + open_pads bs

abbrev pub is_out_at : List Dir → ℕ → Bool
is_out_at ds p = elim (get_elem? ds p) [ none ↦ true | some d ↦ is_out d ]

abbrev pub AllOut : List Dir → List (ℕ × List ℕ) → Type 0
AllOut ds [] = Unit {0}
AllOut ds ((p, value) ∷ rest) = (is_out_at ds p ≡ true) × AllOut ds rest

-- A write to an output pad's lock does not count.
pub shut-lock_out :
    (pads : List Pad) (p : ℕ) (lock : Bool)
    → is_out_at (map (λ pad. pad.dir) pads) p ≡ true
    → map is_shut (modify pads p (λ pad. record pad { lock = lock })) ≡ map is_shut pads
unfolding modify
shut-lock_out [] p lock h = refl
shut-lock_out (pad ∷ pads) zero lock h = ap (λ b. b ∷ map is_shut pads) (ground arith)
shut-lock_out (pad ∷ pads) (suc p) lock h =
    ap (λ bs. is_shut pad ∷ bs) (shut-lock_out pads p lock h)

abbrev pub put : List Bool → ℕ → Bool → List Bool
put [] i b = []
put (c ∷ bs) zero b = b ∷ bs
put (c ∷ bs) (suc i) b = c ∷ put bs i b

-- Of any other pad, the lock decides.
pub shut-lock_in :
    (pads : List Pad) (p : ℕ) (lock : Bool)
    → is_out_at (map (λ pad. pad.dir) pads) p ≡ false
    → map is_shut (modify pads p (λ pad. record pad { lock = lock }))
      ≡ put (map is_shut pads) p lock
unfolding modify
shut-lock_in [] p lock h = refl
shut-lock_in (pad ∷ pads) zero lock h = ap (λ b. b ∷ map is_shut pads) (ground arith)
shut-lock_in (pad ∷ pads) (suc p) lock h = ap (λ bs. is_shut pad ∷ bs) (shut-lock_in pads p lock h)

pub put-open_pads :
    (bs : List Bool) (i : ℕ)
    → get_elem? bs i ≡ some false
    → (open_pads (put bs i true) + 1 ≡ open_pads bs) × (put (put bs i true) i false ≡ bs)
put-open_pads [] i e = cc
put-open_pads (b ∷ bs) zero e = ground arith
put-open_pads (b ∷ bs) (suc i) e =
    let (n, s) = put-open_pads bs i e in (omega arith, ap (λ cs. b ∷ cs) s)

pub is_out_at-dirs :
    (pads : List Pad) (q : ℕ)
    → is_out_at (map (λ pad. pad.dir) pads) q ≡ is_out (pad_dir (get_elem? pads q))
is_out_at-dirs [] q = refl
is_out_at-dirs (pad ∷ pads) zero = refl
is_out_at-dirs (pad ∷ pads) (suc q) = is_out_at-dirs pads q

pub open_there :
    (pads : List Pad) (q : ℕ)
    → is_out_at (map (λ pad. pad.dir) pads) q ≡ false
    → pad_lock (get_elem? pads q) ≡ false
    → get_elem? (map is_shut pads) q ≡ some false
open_there [] q h k = cc
open_there (pad ∷ pads) zero h k = ground arith
open_there (pad ∷ pads) (suc q) h k = open_there pads q h k

pub dirs-set_lock : (t : Tile) (p : ℕ) (lock : Bool) → dirs (set_lock t p lock) ≡ dirs t
dirs-set_lock t p lock =
    map-modify_same (λ pad. pad.dir) (λ pad. record pad { lock = lock }) t.pads p (λ pad. refl)

pub dirs-set_value : (t : Tile) (p : ℕ) (value : List ℕ) → dirs (set_value t p value) ≡ dirs t
dirs-set_value t p value =
    map-modify_same (λ pad. pad.dir) (λ pad. record pad { value = some value }) t.pads p
      (λ pad. refl)

pub shut-set_value : (t : Tile) (p : ℕ) (value : List ℕ) → shut (set_value t p value) ≡ shut t
shut-set_value t p value =
    map-modify_same is_shut (λ pad. record pad { value = some value }) t.pads p (λ pad. refl)
