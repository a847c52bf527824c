-- ===== src/Core/Buf.antt =====
-- core/buf.c and core/include/buf.h: the growing byte buffer.
-- A result `none` is a write or a read outside the storage, which C leaves undefined. `realloc`
-- is the parameter `alloc`: whether a request of that many bytes is served. What it adds to the
-- storage is set to 0 at once by `buf_grow`, so its content does not matter.
pub mod Append
pub mod Faults
pub mod Shift
pub mod Storage
use hakit.Base.{
  ℕ, zero, suc, ◌+◌, ◌-◌, ◌*◌, ◌/◌, Bool, false, Option, none, some, List, [], ◌∷◌, ◌++◌, ℤ, pos,
  negsuc, ltb, leb, ◌==◌, if◌then◌else◌, length, take, drop, replicate, get_elem?, set, show_ℤ,
}

-- `base` is `none` for NULL, and else the `size` bytes allocated.
pub record Buf : Type 0 where
  pub base : Option (List ℕ)
  pub size : ℕ
  pub len : ℕ

abbrev pub chunk_size : ℕ
chunk_size = 256

-- `char str[1024]` in `buf_append_fmt`.
abbrev pub fmt_size : ℕ
fmt_size = 1024

abbrev pub ceil_div : ℕ → ℕ → ℕ
ceil_div x y = (x + y - 1) / y

abbrev pub init : Buf
init = record { base = none; size = 0; len = 0 }

abbrev cleanup : Buf → Buf
cleanup b = init

-- memcpy to `base + at`.
pub store : Option (List ℕ) → ℕ → List ℕ → Option (List ℕ)
store none at bytes = none
store (some m) at bytes =
    if leb (at + length bytes) (length m)
    then some (take at m ++ (bytes ++ drop (at + length bytes) m))
    else none

-- The storage after `realloc` and `memset`: what is new is 0.
pub extend : Option (List ℕ) → ℕ → List ℕ
extend none size = replicate size 0
extend (some m) size = m ++ replicate (size - length m) 0

abbrev pub is_zero : ℤ → Bool
is_zero (pos n) = n == 0
is_zero (negsuc n) = false

-- The bytes, then the NUL character behind them.
pub put : Buf → ℕ → List ℕ → Option (ℤ × Buf)
put b at bytes = elim (store b.base at bytes) [
  | none ↦ none
  | some m ↦ elim (store (some m) (at + length bytes) (0 ∷ [])) [
    | none ↦ none
    | some m' ↦ some (pos 0, record b { base = some m'; len = at + length bytes })
  ]
]

-- if (ret == 0) ...
abbrev pub put_after : ℤ × Buf → ℕ → List ℕ → Option (ℤ × Buf)
put_after (ret, b) at bytes = if is_zero ret then put b at bytes else some (ret, b)

module _ (alloc : ℕ → Bool) where
  pub grow : Buf → ℕ → ℤ × Buf
  grow b needed_size =
      let needed = needed_size + 1 in
      let size = ceil_div (b.len + needed) chunk_size * chunk_size in
      if ltb b.size (b.len + needed)
      then (if alloc size
          then (pos 0, record b { base = some (extend b.base size); size = size })
          else (negsuc 0, record b { base = none; size = size }))
      else (pos 0, b)

  pub append : Buf → List ℕ → Option (ℤ × Buf)
  append b bytes = put_after (grow b (length bytes)) b.len bytes

  abbrev append_byte : Buf → ℕ → Option (ℤ × Buf)
  append_byte b c = append b (c ∷ [])

  abbrev append_str : Buf → List ℕ → Option (ℤ × Buf)
  append_str b str = append b str

  abbrev append_int : Buf → ℤ → Option (ℤ × Buf)
  append_int b i = append b (show_ℤ i)

  -- `text` is what `vsnprintf` would write in a large enough `str[1024]`; `len` is its length, also
  -- where `str` holds its first 1023 bytes and NUL only.
  pub append_fmt : Buf → List ℕ → Option (ℤ × Buf)
  append_fmt b text =
      if ltb (length text) fmt_size
      then append b text
      else if length text == fmt_size
      then append b (take (fmt_size - 1) text ++ (0 ∷ []))
      else none

  abbrev append_zero : Buf → ℕ → ℤ × Buf
  append_zero b n = let (ret, b') = grow b n in (ret, record b' { len = b'.len + n })

  pub set_bytes : Buf → List ℕ → Option (ℤ × Buf)
  set_bytes b bytes = put_after (grow b (length bytes)) 0 bytes

  abbrev set_str : Buf → List ℕ → Option (ℤ × Buf)
  set_str b str = set_bytes b str

  abbrev set_int : Buf → ℤ → Option (ℤ × Buf)
  set_int b v = set_bytes b (show_ℤ v)

-- for (i = ofs; i < len; i++) base[i-ofs] = base[i], with `rounds` the rounds left.
pub move : ℕ → List ℕ → ℕ → ℕ → Option (List ℕ)
move zero m ofs i = some m
move (suc rounds) m ofs i = elim (get_elem? m i) [
  | none ↦ none
  | some c ↦ move rounds (set m (i - ofs) c) ofs (i + 1)
]

pub move_base : Option (List ℕ) → ℕ → ℕ → Option (List ℕ)
move_base none len ofs = none
move_base (some m) len ofs = move (len - ofs) m ofs ofs

pub shift : Buf → ℤ → Option Buf
shift b (negsuc n) = some b
shift b (pos ofs) =
    if ltb 0 ofs
    then (if ltb ofs b.len
        then elim (move_base b.base b.len ofs) [
          | none ↦ none
          | some m ↦ some (record b { base = some m; len = b.len - ofs })
        ]
        else some (record b { len = 0 }))
    else some b
