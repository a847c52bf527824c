-- ===== src/Classes/History/Entries.antt =====
-- classes/history: each kind of entry that the writer makes, under the reader.
use Prim.Native.Nat.{bit_or}
use hakit.Base.{
  ℕ, ◌+◌, ◌*◌, ◌/◌, ◌%◌, ◌<◌, ◌≡◌, refl, sym, ap, subst, ◌∙◌, true, ◌&&◌, some, List, [], ◌∷◌, ◌++◌,
  ℤ, pos, ◌+ℤ◌, ◌==◌, length, arith, append-nil, append_assoc, length-append, take-append_exact,
  drop-append_exact, le→leb, lt→leb, holds_under, holds_under-at, ==_iff,
}
use hakit.Classes.History.Value.{read_value, word, bytes_of, append_value, fits, length-bytes_of}
use hakit.Classes.History.Value.RoundTrip.{append_value-Encodes}
use hakit.Classes.History.Reader.{
  Line, Symbol, State, read_str, dump_op, long_op, short_op, find_symbol, line, log_text, short,
  long, text, to_int, declare,
}
use hakit.Classes.History.Consumes.{Consumes, Consumes-op}

or_table : holds_under (λ e. holds_under (λ op. bit_or op (e * 16) == op + e * 16) 6) 7 ≡ true
unfolding holds_under
or_table = refl

bit_or-opcode : (op e : ℕ) → op < 6 → e < 7 → bit_or op (e * 16) ≡ op + e * 16
bit_or-opcode op e h k = (==_iff (bit_or op (e * 16)) (op + e * 16)).0 (
    holds_under-at (λ o. bit_or o (e * 16) == o + e * 16) 6 op h
      (holds_under-at (λ e. holds_under (λ o. bit_or o (e * 16) == o + e * 16) 6) 7 e k or_table))

-- An opcode `op + extra * 16`, its bytes, and then anything: the reader takes the bytes and goes on.
dump_op-long :
    (st : State) (op extra : ℕ) (bs rest : List ℕ)
    → op < 6
    → extra < 7
    → length bs ≡ extra + 1
    → dump_op st (op + extra * 16) (bs ++ rest) ≡ long_op st op (read_value bs (extra + 1)) rest
unfolding dump_op
dump_op-long st op extra bs rest h k l = rw (
  lt→leb 128 (op + extra * 16) (omega arith),
  quotient,
  remainder,
  le→leb (extra + 1) (length (bs ++ rest)) (omega (arith, length-append bs rest)),
  take-append_exact (extra + 1) bs rest l,
  drop-append_exact (extra + 1) bs rest l,
)
  where
    quotient : (op + extra * 16) / 16 ≡ extra
    quotient = omega arith

    remainder : (op + extra * 16) % 16 ≡ op
    remainder = omega arith

-- An entry with more bytes behind its value.
Consumes-long_tail :
    (st st' : State) (op : ℕ) (v : ℤ) (tail : List ℕ) (lines : List Line)
    → op < 6
    → fits v 7 ≡ true
    → ((rest : List ℕ) → long_op st op v (tail ++ rest) ≡ some (st', lines, rest))
    → Consumes st (append_value op v ++ tail) st' lines
Consumes-long_tail st st' op v tail lines h f step =
    let e = append_value-Encodes op v f in
    let bs = bytes_of (word v) (e.extra + 1) in
    subst (λ entry. Consumes st (entry ++ tail) st' lines)
      (ap (λ c. c ∷ bs) (sym (bit_or-opcode op e.extra h e.few)) ∙ sym e.written)
      (Consumes-op st st' (op + e.extra * 16) (bs ++ tail) lines λ rest.
        ap (dump_op st (op + e.extra * 16)) (append_assoc bs tail rest)
        ∙ dump_op-long st op e.extra bs (tail ++ rest) h e.few
            (length-bytes_of (word v) (e.extra + 1))
        ∙ ap (λ w. long_op st op w (tail ++ rest)) e.read
        ∙ step rest)

Consumes-long :
    (st st' : State) (op : ℕ) (v : ℤ) (lines : List Line)
    → op < 6
    → fits v 7 ≡ true
    → ((rest : List ℕ) → long_op st op v rest ≡ some (st', lines, rest))
    → Consumes st (append_value op v) st' lines
Consumes-long st st' op v lines h f step =
    subst (λ entry. Consumes st entry st' lines) (append-nil (append_value op v))
      (Consumes-long_tail st st' op v [] lines h f step)

-- 0x01: the signal named by `id` becomes the current one.
pub Consumes-select :
    (st : State) (id : ℤ) (s : Symbol)
    → fits id 7 ≡ true
    → to_int id ≡ id
    → find_symbol id st.syms ≡ some s
    → Consumes st (append_value 0x01 id) (record st { cur_sym = some s }) []
unfolding long_op
Consumes-select st id s f i e =
    Consumes-long st (record st { cur_sym = some s }) 1 id [] (omega arith) f λ rest. rw (i, e)

-- 0x02 and 0x03: the time.
pub Consumes-absolute :
    (st : State) (t : ℤ)
    → fits t 7 ≡ true
    → Consumes st (append_value 0x02 t) (record st { tstamp = t }) []
unfolding long_op
Consumes-absolute st t f =
    Consumes-long st (record st { tstamp = t }) 2 t [] (omega arith) f λ rest. refl

pub Consumes-relative :
    (st : State) (dt : ℤ)
    → fits dt 7 ≡ true
    → Consumes st (append_value 0x03 dt) (record st { tstamp = st.tstamp +ℤ dt }) []
unfolding long_op
Consumes-relative st dt f =
    Consumes-long st (record st { tstamp = st.tstamp +ℤ dt }) 3 dt [] (omega arith) f λ rest. refl

short_table : holds_under (λ v. (bit_or 0xC0 v == 192 + v) && (bit_or 0x80 v == 128 + v)) 64 ≡ true
unfolding holds_under
short_table = refl

short_byte : (v : ℕ) → v < 64 → (bit_or 0xC0 v ≡ 192 + v) × (bit_or 0x80 v ≡ 128 + v)
short_byte v h = ground (
  arith,
  holds_under-at (λ v. (bit_or 0xC0 v == 192 + v) && (bit_or 0x80 v == 128 + v)) 64 v h short_table,
)

-- The one-byte forms of a time difference and of a value.
pub Consumes-relative_byte :
    (st : State) (n : ℕ)
    → n < 64
    → Consumes st (bit_or 0xC0 n ∷ []) (record st { tstamp = st.tstamp +ℤ pos n }) []
unfolding dump_op short_op
Consumes-relative_byte st n h = rw ((short_byte n h).0) (
    Consumes-op st (record st { tstamp = st.tstamp +ℤ pos n }) (192 + n) [] [] λ rest. ground arith)

pub Consumes-short :
    (st : State) (n : ℕ) → n < 64 → Consumes st (bit_or 0x80 n ∷ []) st (line st (short n) ∷ [])
unfolding dump_op short_op
Consumes-short st n h =
    rw ((short_byte n h).1)
      (Consumes-op st st (128 + n) [] (line st (short n) ∷ []) λ rest. ground arith)

pub Consumes-value :
    (st : State) (v : ℤ)
    → fits v 7 ≡ true
    → Consumes st (append_value 0x04 v) st (line st (long v) ∷ [])
unfolding long_op
Consumes-value st v f = Consumes-long st st 4 v (line st (long v) ∷ []) (omega arith) f λ rest. refl

-- A text with no NUL character in it.
abbrev pub NoNul : List ℕ → Type 0
NoNul [] = Unit {0}
NoNul (c ∷ s) = (0 < c) × NoNul s

read_str-append : (s rest : List ℕ) → NoNul s → read_str (s ++ (0 ∷ rest)) ≡ some (s, rest)
unfolding read_str
read_str-append [] rest h = refl
read_str-append (c ∷ s) rest h = ground (arith, read_str-append s rest h.1)

-- 0x05: the reader takes the first byte of the text for the data of the opcode.
pub Consumes-text :
    (st : State) (c : ℕ) (s : List ℕ)
    → NoNul s
    → Consumes st (0x05 ∷ ((c ∷ s) ++ 0 ∷ [])) st (line st (text s) ∷ [])
unfolding dump_op long_op log_text
Consumes-text st c s h =
    Consumes-op st st 5 (c ∷ (s ++ 0 ∷ [])) (line st (text s) ∷ [])
      λ rest. rw (append_assoc s (0 ∷ []) rest, read_str-append s rest h) (ground arith)

-- 0x00: a signal is declared, and is the current one.
pub Consumes-declare :
    (st : State) (id : ℤ) (name : List ℕ)
    → fits id 7 ≡ true
    → to_int id ≡ id
    → NoNul name
    → let sym : Symbol = record { name = name; id = id } in
      Consumes st
        (append_value 0x00 id ++ (name ++ 0 ∷ []))
        (record st { syms = st.syms ++ sym ∷ []; cur_sym = some sym })
        []
unfolding long_op declare
Consumes-declare st id name f i h =
    let sym' : Symbol = record { name = name; id = id } in
    Consumes-long_tail st (record st { syms = st.syms ++ sym' ∷ []; cur_sym = some sym' }) 0 id
      (name ++ 0 ∷ []) [] (omega arith) f
      λ rest. rw (i, append_assoc name (0 ∷ []) rest, read_str-append name rest h)
