-- ===== src/Core/ModLoad.antt =====
-- core/mod_load.c: a tile is loaded from its file. The file comes in chunks, as `fread` gives them. Classes
-- are known by their names, and `new` is what their constructors do, given the place of the class and
-- that of the object; a class without a constructor does nothing. Line numbers, which only messages
-- show, are left out. Whether `char` is signed is the parameter `signed_char`.
use hakit.Base.{
  ℕ, zero, suc, Bool, true, false, Option, none, some, List, [], ◌∷◌, ◌++◌, ◌==◌, ◌&&◌, ◌||◌, not,
  if◌then◌else◌, length, map, eq_bytes, ltb, leb, ℤ, pos, negsuc, ltb_ℤ, eq_ℤ,
}
use hakit.Core.StrArgv.{above_space, skip_blanks, str_argv}
use hakit.Core.Command.{until_newline}
use hakit.Core.Tile.{Tile, obj_find, pad_find, net_create, net_connect}
use hakit.Core.Tile.Start.{class_find, obj_create}

pub data Section : Type 0 where
  objects nets unknown : Section

-- `load_ctx_t`
pub record Ctx : Type 0 where
  pub tile : Tile
  pub section : Section

-- "[objects]" and "[nets]"
abbrev pub objects_header : List ℕ
objects_header = b'[' ∷ b'o' ∷ b'b' ∷ b'j' ∷ b'e' ∷ b'c' ∷ b't' ∷ b's' ∷ b']' ∷ []

abbrev pub nets_header : List ℕ
nets_header = b'[' ∷ b'n' ∷ b'e' ∷ b't' ∷ b's' ∷ b']' ∷ []

-- What stands before and behind the first '.', if there is one.
unfoldable pub split_dot : List ℕ → Option (List ℕ × List ℕ)
split_dot [] = none
split_dot (c ∷ s) =
    let rest = split_dot s in
    if c == b'.'
    then some ([], s)
    else elim rest [ none ↦ none | some (before, behind) ↦ some (c ∷ before, behind) ]

-- The pad that `object.pad` names in `hk_tile_load_net`.
unfoldable pub net_pad : Tile → List ℕ → Option ℕ
net_pad t arg = elim (split_dot arg) [
  | none ↦ none
  | some (obj_name, pad_name) ↦ elim (obj_find t.objs obj_name) [
    | none ↦ none
    | some obj ↦ pad_find t.pads obj.pads pad_name
  ]
]

-- The loop of `hk_tile_load_net`: an error leaves the pads connected that came before.
unfoldable pub connect_all : Tile → ℕ → List (List ℕ) → ℤ × Tile
connect_all t n [] = (pos 0, t)
connect_all t n (arg ∷ argv) = elim (net_pad t arg) [
  | none ↦ (negsuc 0, t)
  | some p ↦ connect_all (net_connect t n p) n argv
]

-- `hk_tile_load_net`
unfoldable pub load_net : Ctx → List (List ℕ) → ℤ × Ctx
load_net ctx argv =
    let (n, t) = net_create ctx.tile in
    let (ret, t') = connect_all t n argv in (ret, record ctx { tile = t' })

-- The bytes before the first that is ':' or not above ' ', and the others.
unfoldable pub until_colon : Bool → List ℕ → List ℕ × List ℕ
until_colon signed_char [] = ([], [])
until_colon signed_char (c ∷ s) =
    let (before, rest) = until_colon signed_char s in
    if above_space signed_char c && not (c == b':') then (c ∷ before, rest) else ([], c ∷ s)

-- The name of an element, if it has one, and its arguments.
abbrev pub element : List ℕ → List ℕ × List ℕ → Option (List ℕ) × List ℕ
element line (name, []) = (none, line)
element line (name, c ∷ s) = if c == b':' then (some name, s) else (none, line)

-- A byte that is not printable becomes a space.
abbrev pub printable : Bool → ℕ → ℕ
printable signed_char c = if (ltb c 32 || signed_char && leb 128 c) && not (c == 10) then 32 else c

-- What `hk_tile_load` keeps between two chunks.
pub record Load : Type 0 where
  pub ctx : Ctx
  pub buf : List ℕ
  pub check_nl : Bool
  pub ret : ℤ

module _ (classes : List (List ℕ)) (new : ℕ → ℕ → Tile → ℤ × Tile) (signed_char : Bool) where
  -- The end of `hk_tile_load_object`, for an object at place `o`.
  abbrev pub construct : Ctx → ℕ → Option ℕ × Tile → ℤ × Ctx
  construct ctx k (none, t) = (negsuc 0, record ctx { tile = t })
  construct ctx k (some o, t) =
      let (ret, t') = new k o t in
      (if ltb_ℤ ret (pos 0) then negsuc 0 else pos 0, record ctx { tile = t' })

  -- `hk_tile_load_object`
  unfoldable pub load_object : Ctx → Option (List ℕ) → List (List ℕ) → ℤ × Ctx
  load_object ctx none argv = (negsuc 0, ctx)
  load_object ctx (some []) argv = (negsuc 0, ctx)
  load_object ctx (some (c ∷ name)) [] = (negsuc 0, ctx)
  load_object ctx (some (c ∷ name)) (class ∷ args) = elim (class_find classes class) [
    | none ↦ (negsuc 0, ctx)
    | some k ↦ construct ctx k (obj_create ctx.tile (c ∷ name) args)
  ]

  abbrev pub load_element : Ctx → Option (List ℕ) × List ℕ → ℤ × Ctx
  load_element ctx (name, s) =
      let argv = str_argv signed_char s in
      elim ctx.section [
        | objects ↦ load_object ctx name argv
        | nets ↦ load_net ctx argv
        | unknown ↦ (pos 0, ctx)
      ]

  abbrev pub section_of : List ℕ → Section
  section_of line =
      if eq_bytes line objects_header
      then objects
      else if eq_bytes line nets_header
      then nets
      else unknown

  -- `hk_tile_load_line`, behind the leading blanks.
  unfoldable pub load_text : Ctx → List ℕ → ℤ × Ctx
  load_text ctx [] = (pos 0, ctx)
  load_text ctx (c ∷ s) =
      if c == b';' || c == b'#'
      then (pos 0, ctx)
      else if c == b'['
      then (pos 0, record ctx { section = section_of (c ∷ s) })
      else load_element ctx (element (c ∷ s) (until_colon signed_char (c ∷ s)))

  -- `hk_tile_load_line`
  unfoldable pub load_line : Ctx → List ℕ → ℤ × Ctx
  load_line ctx line = load_text ctx (skip_blanks signed_char line)

  -- The line in the buffer is loaded, whatever `ret` was.
  unfoldable pub flush_line : Load → Load
  flush_line l =
      let (ret, ctx) = load_line l.ctx l.buf in record l { ctx = ctx; ret = ret; buf = [] }

  -- Behind a newline: the end of the chunk, a line that goes on, or the next line.
  unfoldable pub line_end : Load → List ℕ → Load
  line_end l [] = record l { check_nl = true }
  line_end l (c ∷ s) = if c == b' ' then l else flush_line l

  abbrev pub append : Load → List ℕ → Load
  append l s = record l { buf = l.buf ++ s }

  -- The loop over the lines of a chunk, on fuel.
  unfoldable pub load_lines : ℕ → Load → List ℕ → Load
  load_lines zero l s = l
  load_lines (suc fuel) l s =
      let (before, behind) = until_newline s in
      elim behind [
        | none ↦ append l before
        | some rest ↦ load_lines fuel (line_end (append l before) rest) rest
      ]

  -- The check that the chunk before has put off.
  unfoldable pub check_line : Load → List ℕ → Load
  check_line l [] = l
  check_line l (c ∷ s) =
      if l.check_nl
      then (let l' : Load = record l { check_nl = false } in
          if c == b' ' then l' else flush_line l')
      else l

  -- One round on a chunk: each line takes a byte at least, so the fuel is enough.
  unfoldable pub load_chunk : Load → List ℕ → Load
  load_chunk l chunk =
      let s = map (printable signed_char) chunk in load_lines (suc (length s)) (check_line l s) s

  -- The loop of `hk_tile_load`; an empty chunk is the end of the file.
  unfoldable pub load_chunks : Load → List (List ℕ) → Load
  load_chunks l [] = l
  load_chunks l (chunk ∷ chunks) =
      if eq_ℤ l.ret (pos 0)
      then load_chunks (elim chunk [ [] ↦ l | c ∷ s ↦ load_chunk l (c ∷ s) ]) chunks
      else l

  -- The line that is left at the end.
  unfoldable pub finish : Load → Load
  finish l = elim l.buf [ [] ↦ l | c ∷ s ↦ if eq_ℤ l.ret (pos 0) then flush_line l else l ]

  -- `hk_tile_load`, once the file is open: what it returns, and the tile.
  unfoldable pub tile_load : Tile → List (List ℕ) → ℤ × Tile
  tile_load t chunks =
      let init : Load = record {
        ctx = record { tile = t; section = objects };
        buf = [];
        check_nl = false;
        ret = pos 0;
      } in
      let l = finish (load_chunks init chunks) in (l.ret, l.ctx.tile)
