-- ===== src/Core/Tile/Start.antt =====
-- core/mod.c: the creation of objects, and the start of a tile, which sets up nets and presets from the
-- properties of the objects. `input` is what the classes do with an input, and `start` what they do at
-- the start, as in Update; updates run on fuel.
use hakit.Base.{
  ℕ, zero, suc, ◌+◌, Bool, true, Option, none, some, List, [], ◌∷◌, ◌++◌, ◌==◌, if◌then◌else◌,
  get_elem?, length, eq_bytes, find_from, ℤ, pos, negsuc,
}
use hakit.Core.Prop.{Props, prop_set, prop_foreach}
use hakit.Core.Tile.{Pad, Obj, Tile, obj_find, pad_find, obj_net, split_last_dot}
use hakit.Core.Tile.Update.{
  World, update_str, update_input, Handler, is_out, set_value, pad_dir, update_all, run,
}

-- `hk_class_find`, in the names of the classes.
unfoldable pub class_find : List (List ℕ) → List ℕ → Option ℕ
class_find classes name = find_from (λ c. eq_bytes c name) 0 classes

-- `hk_class_register`
unfoldable pub class_register : List (List ℕ) → List ℕ → ℤ × List (List ℕ)
class_register classes name = elim (class_find classes name) [
  | some i ↦ (negsuc 0, classes)
  | none ↦ (pos 0, classes ++ (name ∷ []))
]

-- What stands before and behind the first '=', nothing behind if there is none.
unfoldable pub split_equals : List ℕ → List ℕ × List ℕ
split_equals [] = ([], [])
split_equals (c ∷ s) =
    let (before, behind) = split_equals s in if c == b'=' then ([], s) else (c ∷ before, behind)

-- The loop of `hk_obj_create` over the arguments.
unfoldable pub set_props : Props → List (List ℕ) → Props
set_props props [] = props
set_props props (arg ∷ argv) =
    let (name, value) = split_equals arg in set_props (prop_set props name value) argv

-- `hk_obj_create`: the place of the object, none if its name is taken.
unfoldable pub obj_create : Tile → List ℕ → List (List ℕ) → Option ℕ × Tile
obj_create t name argv = elim (obj_find t.objs name) [
  | some obj ↦ (none, t)
  | none ↦
      let obj : Obj = record { name = name; props = set_props [] argv; pads = [] } in
      (some (length t.objs), record t { objs = t.objs ++ (obj ∷ []) })
]

-- A tile in the table of tiles, with its name.
pub record Entry : Type 0 where
  pub name : List ℕ
  pub tile : Tile

-- `hk_tile_find`
unfoldable pub tile_find : List Entry → List ℕ → Option Tile
tile_find [] name = none
tile_find (entry ∷ tiles) name =
    if eq_bytes entry.name name then some entry.tile else tile_find tiles name

abbrev pub value_of : Option Pad → Option (List ℕ)
value_of none = none
value_of (some pad) = pad.value

-- The value of a pad of an object, if there are both.
abbrev pub pad_value : Option Tile → (Tile → Option Obj) → List ℕ → Option (List ℕ)
pad_value none find name = none
pad_value (some t) find name = elim (find t) [
  | none ↦ none
  | some obj ↦ elim (pad_find t.pads obj.pads name) [
    | none ↦ none
    | some p ↦ value_of (get_elem? t.pads p)
  ]
]

-- `hk_pad_get_value`, for an object of the tile `t`; a reference is [[tile.]object.]pad.
unfoldable pub pad_get_value : List Entry → Tile → Obj → List ℕ → Option (List ℕ)
pad_get_value tiles t obj reference = elim (split_last_dot reference) [
  | none ↦ pad_value (some t) (λ u. some obj) reference
  | some (before, pad_name) ↦ elim (split_last_dot before) [
    | none ↦ pad_value (some t) (λ u. obj_find u.objs before) pad_name
    | some (tile_name, obj_name) ↦
        pad_value (tile_find tiles tile_name) (λ u. obj_find u.objs obj_name) pad_name
  ]
]

module _ {S : Type 0} (input : ℕ → Option (Handler S))
    (start : ℕ → Option (S → S × List (ℕ × List ℕ))) where
  -- `hk_obj_preset`
  unfoldable pub obj_preset : ℕ → World S → ℕ → List ℕ → Option (World S)
  obj_preset fuel w p value =
      if is_out (pad_dir (get_elem? w.tile.pads p))
      then run input fuel w (update_str p value)
      else run input fuel (record w { tile = set_value w.tile p value }) (update_input p value)

  -- What `hk_obj_setup` does with a pad it found.
  unfoldable pub pad_setup : ℕ → World S → ℕ → List ℕ → Option (World S)
  pad_setup fuel w p [] = obj_preset fuel w p []
  pad_setup fuel w p (c ∷ value) =
      if c == b'$'
      then some (record w { tile = (obj_net w.tile p value).1 })
      else obj_preset fuel w p (c ∷ value)

  -- `hk_obj_setup`, for the pads of an object.
  unfoldable pub obj_setup : ℕ → List ℕ → World S → List ℕ → List ℕ → Option (World S)
  obj_setup fuel pads w name value = elim (pad_find w.tile.pads pads name) [
    | none ↦ some w
    | some p ↦ pad_setup fuel w p value
  ]

  -- It asks `hk_prop_foreach` to go on.
  unfoldable pub setup_next :
      ℕ → List ℕ → Option (World S) → List ℕ → List ℕ → Option (World S) × Bool
  setup_next fuel pads none name value = (none, true)
  setup_next fuel pads (some w) name value = (obj_setup fuel pads w name value, true)

  -- The first loop of `hk_tile_start`.
  unfoldable pub setup_all : ℕ → List Obj → Option (World S) → Option (World S)
  setup_all fuel [] w = w
  setup_all fuel (obj ∷ objs) w =
      setup_all fuel objs (prop_foreach obj.props (setup_next fuel obj.pads) w)

  -- The start handler of the object at place `o`.
  unfoldable pub start_obj : ℕ → ℕ → Option (World S) → Option (World S)
  start_obj fuel o none = none
  start_obj fuel o (some w) = elim (start o) [
    | none ↦ some w
    | some handler ↦
        let (state, updates) = handler w.state in
        update_all (run input fuel) updates (record w { state = state })
  ]

  -- The second loop of `hk_tile_start`, over the places from `o` on.
  unfoldable pub start_all : ℕ → ℕ → ℕ → Option (World S) → Option (World S)
  start_all fuel zero o w = w
  start_all fuel (suc n) o w = start_all fuel n (o + 1) (start_obj fuel o w)

  -- `hk_tile_start`
  unfoldable pub tile_start : ℕ → World S → Option (World S)
  tile_start fuel w =
      let objs = w.tile.objs in start_all fuel (length objs) 0 (setup_all fuel objs (some w))
