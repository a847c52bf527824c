-- ===== src/Classes/History/RoundTrip.antt =====
-- classes/history: a whole log, from the creation of the object, is what the reader prints.
use hakit.Base.{
  ℕ, ◌+◌, ◌^◌, ◌≤◌, ◌<◌, ◌≡◌, refl, sym, ap, ap₂, subst, ◌∙◌, Option, none, some, List, [], ◌∷◌,
  ◌++◌, ℤ, pos, ◌+ℤ◌, if◌then◌else◌, length, eq_ℤ, arith, append-nil, append_assoc, inl, inr,
  get_or,
}
use hakit.Classes.History.Value.{append_value}
use hakit.Classes.History.Reader.{Line, Symbol, State, find_symbol, line, dump_file, start, name_of}
use hakit.Classes.History.Writer.{
  History, Bucket, bucket, signal_declare, init, bucket_start, no_bucket,
}
use hakit.Classes.History.Object.{split_inputs, declare_all, new_object, Sample, input, inputs}
use hakit.Classes.History.Consumes.{Consumes, Consumes-nil, Consumes-append, Consumes-dump_file}
use hakit.Classes.History.Entries.{NoNul, Consumes-declare, Consumes-absolute}
use hakit.Classes.History.Selection.{Logs, Logs-refl, Logs-trans, id_fits, delay_fits, SameSignal}
use hakit.Classes.History.Feed.{shown, Loggable, Linked, seen, feed-Logs}

abbrev pub symbol : List ℕ → ℕ → Symbol
symbol name id = record { name = name; id = pos id }

-- The signals in the order of their declaration, from the id `i` on.
unfoldable pub symbols_from : ℕ → List (List ℕ) → List Symbol
symbols_from i [] = []
symbols_from i (name ∷ names) = symbol name i ∷ symbols_from (i + 1) names

-- No signal has the id `i` or a larger one.
abbrev Fresh : List Symbol → ℕ → Type 0
Fresh syms i = (j : ℕ) → i ≤ j → find_symbol (pos j) syms ≡ none

find_symbol-append :
    (id : ℤ) (syms : List Symbol) (s : Symbol)
    → find_symbol id syms ≡ none
    → find_symbol id (syms ++ s ∷ []) ≡ (if eq_ℤ s.id id then some s else none)
unfolding find_symbol
find_symbol-append id [] s e = refl
find_symbol-append id (x ∷ syms) s e = ground (arith, find_symbol-append id syms s)

Fresh-append :
    (syms : List Symbol) (name : List ℕ) (i : ℕ)
    → Fresh syms i
    → Fresh (syms ++ symbol name i ∷ []) (i + 1)
Fresh-append syms name i f j h =
    find_symbol-append (pos j) syms (symbol name i) (f j (omega arith)) ∙ ground arith

abbrev pub AllNoNul : List (List ℕ) → Type 0
AllNoNul [] = Unit {0}
AllNoNul (name ∷ names) = NoNul name × AllNoNul names

-- After the declarations the reader of the header knows the signals.
record Declared (h h' : History) (st : State) (i : ℕ) (names : List (List ℕ)) : Type 0 where
  pub bytes : List ℕ
  pub state : State
  pub header : h'.hdr ≡ h.hdr ++ bytes
  pub buckets : h'.buckets ≡ h.buckets
  pub ibucket : h'.ibucket ≡ h.ibucket
  pub time : h'.t ≡ h.t
  pub read : Consumes st bytes state []
  pub syms : state.syms ≡ st.syms ++ symbols_from i names
  pub signal : SameSignal h' state

declare_all-Declared :
    (h : History) (st : State) (i : ℕ) (names : List (List ℕ))
    → Fresh st.syms i
    → SameSignal h st
    → AllNoNul names
    → i + length names < 2 ^ 31
    → Declared h (declare_all h i names) st i names
unfolding declare_all symbols_from signal_declare
declare_all-Declared h st i [] f same ok small = record {
  bytes = [];
  state = st;
  header = sym (append-nil h.hdr);
  buckets = refl;
  ibucket = refl;
  time = refl;
  read = Consumes-nil st;
  syms = sym (append-nil st.syms);
  signal = same;
}
declare_all-Declared h st i (name ∷ names) f same ok small =
    let s = symbol name i in
    let h1 = signal_declare h (pos i) name in
    let st1 : State = record st { syms = st.syms ++ s ∷ []; cur_sym = some s } in
    let fits_i = id_fits i (omega arith) in
    let found : find_symbol (pos i) (st.syms ++ s ∷ []) ≡ some s =
      find_symbol-append (pos i) st.syms s (f i (omega arith)) ∙ ground arith in
    let r =
      declare_all-Declared h1 st1 (i + 1) names (Fresh-append st.syms name i f)
        (inr (s, refl, found)) ok.1 (omega arith) in
    record {
      bytes = entry ++ r.bytes;
      state = r.state;
      header = r.header ∙ append_assoc h.hdr entry r.bytes;
      buckets = r.buckets;
      ibucket = r.ibucket;
      time = r.time;
      read =
          Consumes-append st st1 r.state entry r.bytes [] []
            (Consumes-declare st (pos i) name fits_i.0 fits_i.1 ok.0) r.read;
      syms = r.syms ∙ append_assoc st.syms (s ∷ []) (symbols_from (i + 1) names);
      signal = r.signal;
    }
  where
    entry : List ℕ
    entry = append_value 0x00 (pos i) ++ (name ++ 0 ∷ [])

-- The bytes of the history file: the header, then the bucket.
abbrev pub file : History → List ℕ
file h = h.hdr ++ (bucket h).buf

-- The log of a new object, under the reader.
new_object-Consumes :
    (t0 : ℕ) (prop : List ℕ)
    → t0 < 2 ^ 55
    → AllNoNul (split_inputs prop)
    → length (split_inputs prop) < 2 ^ 30
    → let h = new_object (pos t0) (some prop) in
      (st : State) × Consumes start (file h) st []
      × (st.syms ≡ symbols_from 1 (split_inputs prop))
      × Linked h st
      × (h.t ≡ pos t0)
unfolding new_object init bucket_start
new_object-Consumes t0 prop small ok few =
    let h0 = init (pos t0) in
    let names = split_inputs prop in
    let h = declare_all h0 1 names in
    let r =
      declare_all-Declared h0 start 1 names (λ j _. no_symbol j) (inl refl) ok (omega arith) in
    let st' : State = record r.state { tstamp = pos t0 } in
    let logged : file h ≡ r.bytes ++ append_value 0x02 (pos t0) = ap₂ ◌++◌ r.header (
      ap (λ (b : Bucket). b.buf)
        (ap₂ (λ (bs : List Bucket) (i : ℕ). get_or bs i no_bucket) r.buckets r.ibucket)) in
    (
      st',
      subst (λ b. Consumes start b st' []) (sym logged)
          (Consumes-append start r.state st' r.bytes (append_value 0x02 (pos t0)) [] [] r.read
            (Consumes-absolute r.state (pos t0) (delay_fits t0 small))),
      r.syms,
      record {
        room = rw (r.ibucket, r.buckets) (omega arith);
        time = sym r.time;
        signal = r.signal;
      },
      r.time,
    )
  where
    no_symbol : (j : ℕ) → find_symbol (pos j) [] ≡ none
    no_symbol j = unfold find_symbol in refl

-- Each sample is one of a declared signal, at most 2^55 seconds after the one before it.
abbrev pub AllLoggable : List Symbol → List Sample → Type 0
AllLoggable syms [] = Unit {0}
AllLoggable syms (x ∷ xs) =
    (x.id < 2 ^ 31)
    × ((s : Symbol) × (find_symbol (pos x.id) syms ≡ some s))
    × (x.delay < 2 ^ 55)
    × Loggable x.value
    × AllLoggable syms xs

-- One line for each sample: the time, the name of its signal and its value.
pub lines_of : ℤ → List Symbol → List Sample → List Line
lines_of t syms [] = []
lines_of t syms (x ∷ xs) =
    let now = t +ℤ pos x.delay in
    record { tstamp = now; name = name_of (find_symbol (pos x.id) syms); value = shown x.value }
    ∷ lines_of now syms xs

inputs-Consumes :
    (h : History) (st : State) (xs : List Sample)
    → Linked h st
    → AllLoggable st.syms xs
    → (bs : List ℕ) × (st' : State) × Logs h (inputs h xs) bs
      × Consumes st bs st' (lines_of h.t st.syms xs)
unfolding inputs lines_of input
inputs-Consumes h st [] link ok = ([], st, Logs-refl h link.room, Consumes-nil st)
inputs-Consumes h st (x ∷ xs) link (small, (s, found), delay, value, ok) =
    let (b1, l1, c1, t1, link1) =
      feed-Logs h st x.id s x.value x.delay x.opens x.tag link small found delay value in
    let h1 = input h x in
    let (b2, st2, l2, c2) = inputs-Consumes h1 (seen st s (h.t +ℤ pos x.delay)) xs link1 ok in
    let now = h.t +ℤ pos x.delay in
    (
      b1 ++ b2,
      st2,
      Logs-trans h h1 _ b1 b2 l1 l2,
      subst
          (λ (o : Option Symbol). Consumes st (b1 ++ b2) st2 (
            record { tstamp = now; name = name_of o; value = shown x.value }
            ∷ lines_of now st.syms xs))
          (sym found)
          (subst
            (λ (t : ℤ).
              Consumes st (b1 ++ b2) st2
                (line (seen st s now) (shown x.value) ∷ lines_of t st.syms xs))
            t1 (Consumes-append st (seen st s now) st2 b1 b2 _ _ c1 c2)),
    )

-- The log of a history object, in memory and not yet flushed, is read back. Let the names of its
-- signals be fewer than 2^30 and without NUL characters, and its start be before 2^55 seconds.
-- Whatever samples of declared signals it gets, in any order, each less than 2^55 seconds after
-- the one before and with a value that has no NUL character and does not begin with a number of
-- 2^55 or more, the reader prints one line for each, in order, with the time, the name and the
-- value: a text of digits only as the number it spells, any other text without its first byte.
pub dump_file-inputs :
    (t0 : ℕ) (prop : List ℕ) (xs : List Sample)
    → t0 < 2 ^ 55
    → AllNoNul (split_inputs prop)
    → length (split_inputs prop) < 2 ^ 30
    → AllLoggable (symbols_from 1 (split_inputs prop)) xs
    → dump_file (file (inputs (new_object (pos t0) (some prop)) xs))
      ≡ some (lines_of (pos t0) (symbols_from 1 (split_inputs prop)) xs)
dump_file-inputs t0 prop xs small names few ok =
    let h = new_object (pos t0) (some prop) in
    let (st, c1, syms, link, time) = new_object-Consumes t0 prop small names few in
    let (bs, st', l, c2) =
      inputs-Consumes h st xs link (subst (λ k. AllLoggable k xs) (sym syms) ok) in
    let logged : file (inputs h xs) ≡ file h ++ bs =
      ap₂ ◌++◌ l.header l.grows ∙ sym (append_assoc h.hdr (bucket h).buf bs) in
    ap dump_file logged
    ∙ Consumes-dump_file st' (file h ++ bs) (lines_of h.t st.syms xs)
        (Consumes-append start st st' (file h) bs [] _ c1 c2)
    ∙ ap₂ (λ t k. some (lines_of t k xs)) time syms
