-- ===== src/Core/Tile/Update.antt =====
-- core/mod.c: the update of a pad, which goes through its net to the input handlers of other objects,
-- and through their updates on. `state` is what the objects keep in their contexts. `input p` is the
-- handler of the object of pad `p`, none for a class without one: it changes the contexts, and then
-- updates the pads that it lists, in order. An update of an integer is that of its text.
pub mod Locks
pub mod Broadcast
pub mod Returns
use hakit.Base.{
  ℕ, zero, suc, ◌+◌, Bool, true, false, Option, none, some, List, [], ◌∷◌, ◌==◌, if◌then◌else◌,
  get_elem?, not, ◌&&◌, show_ℤ, ℤ,
}
use hakit.Core.Tile.{Dir, in_, out, io, Pad, Net, Tile, modify, net_of, pads_of}

pub record World {ℓ} (S : Type ℓ) : Type ℓ where
  pub tile : Tile
  pub state : S

-- The calls that follow one another.
pub data Call : Type 0 where
  update_str : ℕ → List ℕ → Call
  update_input : ℕ → List ℕ → Call

abbrev pub Handler {ℓ} : Type ℓ → Type ℓ
Handler S = S → List ℕ → S × List (ℕ × List ℕ)

abbrev pub is_out : Dir → Bool
is_out in_ = false
is_out out = true
is_out io = false

abbrev pub set_value : Tile → ℕ → List ℕ → Tile
set_value t p value = record t { pads = modify t.pads p (λ pad. record pad { value = some value }) }

abbrev pub set_lock : Tile → ℕ → Bool → Tile
set_lock t p lock = record t { pads = modify t.pads p (λ pad. record pad { lock = lock }) }

abbrev pub pad_dir : Option Pad → Dir
pad_dir none = out
pad_dir (some pad) = pad.dir

abbrev pub pad_lock : Option Pad → Bool
pad_lock none = true
pad_lock (some pad) = pad.lock

-- The loop of `hk_pad_update_str` over the pads of the net.
unfoldable pub notify {ℓ} :
    {S : Type ℓ}
    → (World S → Call → Option (World S))
    → ℕ
    → List ℕ
    → List ℕ
    → World S
    → Option (World S)
notify call p value [] w = some w
notify call p value (q ∷ qs) w =
    elim (not (q == p) && not (is_out (pad_dir (get_elem? w.tile.pads q)))) [
      | true ↦ elim (call w (update_input q value)) [
        | none ↦ none
        | some w' ↦ notify call p value qs w'
      ]
      | false ↦ notify call p value qs w
    ]

-- The updates of a handler.
unfoldable pub update_all {ℓ} :
    {S : Type ℓ}
    → (World S → Call → Option (World S))
    → List (ℕ × List ℕ)
    → World S
    → Option (World S)
update_all call [] w = some w
update_all call ((p, value) ∷ rest) w = elim (call w (update_str p value)) [
  | none ↦ none
  | some w' ↦ update_all call rest w'
]

-- `pad->lock = 0` at the end of a call that returned.
abbrev pub unlock {ℓ} : {S : Type ℓ} → ℕ → Option (World S) → Option (World S)
unlock p none = none
unlock p (some w) = some (record w { tile = set_lock w.tile p false })

module _ {ℓ} {S : Type ℓ} (input : ℕ → Option (Handler S)) where
  -- `hk_pad_update_str`, where its pad has the net `net`.
  unfoldable pub update_net :
      (World S → Call → Option (World S)) → World S → ℕ → List ℕ → Option ℕ → Option (World S)
  unfolding notify modify
  update_net call w p value none = some (record w { tile = set_value w.tile p value })
  update_net call w p value (some n) =
      let t = set_lock (set_value w.tile p value) p true in
      unlock p (notify call p value (pads_of t n) (record w { tile = t }))

  -- `hk_pad_update_input`, for a pad that is not locked.
  unfoldable pub handle :
      (World S → Call → Option (World S))
      → World S
      → ℕ
      → List ℕ
      → Option (Handler S)
      → Option (World S)
  unfolding update_all modify
  handle call w p value none = some w
  handle call w p value (some handler) =
      let (state, updates) = handler w.state value in
      unlock p (update_all call updates (record { tile = set_lock w.tile p true; state = state }))

  -- Both functions, with fuel for the depth of the calls; none when it runs out.
  unfoldable pub run : ℕ → World S → Call → Option (World S)
  unfolding update_net handle
  run zero w call = none
  run (suc fuel) w (update_str p value) = update_net (run fuel) w p value (net_of w.tile p)
  run (suc fuel) w (update_input p value) = elim (pad_lock (get_elem? w.tile.pads p)) [
    | true ↦ some w
    | false ↦ handle (run fuel) w p value (input p)
  ]

-- `hk_pad_update_int`
abbrev pub update_int : ℕ → ℤ → Call
update_int p value = update_str p (show_ℤ value)
