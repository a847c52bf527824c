-- ===== src/Core/Trace.antt =====
-- core/trace.c and core/include/trace.h: the latest values of an endpoint, in a ring. Times are in
-- milliseconds, and `tstamp_ms()` is an argument. A value is the list of its bytes.
pub mod Ring
pub mod Dump
use hakit.Core.Buf.{fmt_size}
use hakit.Base.{
  take, ◌-◌, ℕ, zero, suc, ◌+◌, Bool, true, false, Option, none, some, List, [], ◌∷◌, ◌++◌, ℤ, pos,
  negsuc, ltb, leb, ◌==◌, ◌||◌, if◌then◌else◌, length, get_or, set, replicate, show_ℕ,
}

pub record Entry : Type 0 where
  pub t : ℕ
  pub value : Option (List ℕ)

pub record Trace : Type 0 where
  pub name : List ℕ
  pub depth : ℕ
  pub iput : ℕ
  pub iget : ℕ
  pub tab : List Entry

abbrev pub default_depth : ℕ
default_depth = 500

abbrev pub max_depth : ℕ
max_depth = 10000

abbrev pub no_entry : Entry
no_entry = record { t = 0; value = none }

-- The test of the depth in `hk_trace_init`.
unfoldable pub clamp_depth : ℤ → ℕ
clamp_depth (pos zero) = default_depth
clamp_depth (pos (suc n)) = if ltb max_depth (suc n) then max_depth else suc n
clamp_depth (negsuc n) = default_depth

pub init : List ℕ → ℤ → Trace
init name depth = record {
  name = name;
  depth = clamp_depth depth;
  iput = 0;
  iget = 0;
  tab = replicate (clamp_depth depth) no_entry;
}

abbrev clear_all : List Entry → List Entry
clear_all [] = []
clear_all (e ∷ tab) = no_entry ∷ clear_all tab

abbrev clear : Trace → Trace
clear tr = record tr { iput = 0; tab = clear_all tr.tab }

-- The index behind `i`, round the ring.
abbrev pub next : ℕ → ℕ → ℕ
next depth i = if leb depth (i + 1) then 0 else i + 1

pub push : Trace → ℕ → List ℕ → Trace
push tr now value =
    let tab = set tr.tab tr.iput (record { t = now; value = some value }) in
    let iput = next tr.depth tr.iput in
    let iget = if iput == tr.iget then next tr.depth tr.iget else tr.iget in
    record tr { iput = iput; iget = iget; tab = tab }

-- What is appended by one `buf_append_str` or by one `buf_append_fmt`.
pub data Piece : Type 0 where
  str : List ℕ → Piece
  fmt : List ℕ → Piece

-- " %llu,%s" and the like: the text of one `buf_append_fmt`.
abbrev pub point : List ℕ → ℕ → List ℕ → List ℕ → List ℕ
point before t value after = before ++ (show_ℕ t ++ (b',' ∷ (value ++ after)))

-- The local variables of `hk_trace_dump`: `pre` is the latest entry before `t1`.
pub record Scan : Type 0 where
  pub pre : Option (List ℕ)
  pub last : Option (List ℕ)
  pub out : List Piece

-- `" %llu,%s", t1, pre->value`. An entry is never its own `pre`.
abbrev pub pre_point : ℕ → Option (List ℕ) → List Piece
pre_point t1 none = []
pre_point t1 (some v) = fmt (point (b' ' ∷ []) t1 v []) ∷ []

abbrev pub name_once : List ℕ → Option (List ℕ) → List Piece
name_once name none = str name ∷ []
name_once name (some v) = []

-- `" %llu,%s\n", t2, last->value`
abbrev pub end_point : List ℕ → ℕ → Option (List ℕ) → List Piece
end_point before t none = []
end_point before t (some v) = fmt (point before t v (10 ∷ [])) ∷ []

-- One round on an entry with a value: the scan, and whether the loop goes on.
pub visit : List ℕ → ℕ → ℕ → Scan → ℕ → List ℕ → Scan × Bool
visit name t1 t2 s t v =
    if t1 == 0 || leb t1 t
    then (if t2 == 0 || leb t t2
        then (
          record {
            pre = none;
            last = some v;
            out =
                s.out
                ++ (name_once name s.last
                    ++ (pre_point t1 s.pre ++ (fmt (point (b' ' ∷ []) t v []) ∷ [])));
          },
          true,
        )
        else (record s { last = none; out = s.out ++ end_point (b' ' ∷ []) t2 s.last }, false))
    else (record s { pre = some v }, true)

-- The round of the loop on an entry; `more` is the rest of the loop.
abbrev pub visit_value : (Scan → Scan) → List ℕ → ℕ → ℕ → Scan → ℕ → Option (List ℕ) → Scan
visit_value more name t1 t2 s t none = s
visit_value more name t1 t2 s t (some v) =
    let (s', on) = visit name t1 t2 s t v in elim on [ true ↦ more s' | false ↦ s' ]

-- The loop from `i`, with fuel for the rounds; `depth` rounds are enough.
pub dump_from : ℕ → Trace → ℕ → ℕ → ℕ → Scan → Scan
dump_from zero tr t1 t2 i s = s
dump_from (suc fuel) tr t1 t2 i s = elim (i == tr.iput) [
  | true ↦ s
  | false ↦
      let e = get_or tr.tab i no_entry in
      visit_value (dump_from fuel tr t1 t2 (next tr.depth i)) tr.name t1 t2 s e.t e.value
]

-- The pieces that are appended to the output, in order.
pub pieces : Trace → ℕ → ℕ → ℕ → List Piece
pieces tr t1 t2 now =
    let s = dump_from tr.depth tr t1 t2 tr.iget (record { pre = none; last = none; out = [] }) in
    s.out ++ end_point (b' ' ∷ b'+' ∷ []) now s.last

-- The bytes of a piece. `buf_append_fmt` takes them from an array of 1024 bytes with a NUL behind the text: of a
-- text of 1024 bytes the last one is NUL, and a longer one is read from beyond the array, for which the
-- result is none.
unfoldable pub piece_bytes : Piece → Option (List ℕ)
piece_bytes (str s) = some s
piece_bytes (fmt s) =
    if ltb (length s) fmt_size
    then some s
    else if length s == fmt_size
    then some (take (fmt_size - 1) s ++ (0 ∷ []))
    else none

abbrev pub behind : Option (List ℕ) → Option (List (List ℕ)) → Option (List (List ℕ))
behind none rest = none
behind (some s) none = none
behind (some s) (some rest) = some (s ∷ rest)

unfoldable pub all_bytes : List Piece → Option (List (List ℕ))
all_bytes [] = some []
all_bytes (piece ∷ rest) = behind (piece_bytes piece) (all_bytes rest)

-- `hk_trace_dump`: what is appended, in order.
unfoldable pub dump : Trace → ℕ → ℕ → ℕ → Option (List (List ℕ))
dump tr t1 t2 now = all_bytes (pieces tr t1 t2 now)
