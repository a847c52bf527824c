-- ===== src/Classes/History/Feed.antt =====
-- classes/history/history.c: what `history_feed` adds to the log, under the reader.
use Prim.Native.Nat.{bit_or}
use hakit.Base.{
  ℕ, ◌-◌, ◌^◌, ◌<◌, ◌≡◌, refl, sym, ap, subst, ◌∙◌, Bool, true, false, ◌&&◌, some, List, [], ◌∷◌,
  ◌++◌, ℤ, pos, negsuc, ◌+ℤ◌, ltb, ltb_ℤ, leb_ℤ, if◌then◌else◌, length, arith, Bool-cases, inl, inr,
  read_digits, min, mod-eq_of_lt,
}
use hakit.Classes.History.Value.{append_value}
use hakit.Classes.History.Reader.{Value, Symbol, State, find_symbol, line, short, long, text}
use hakit.Classes.History.Writer.{
  History, log, select_id, select_time, select, feed_str, feed_int, all_digits, feed_value, rotate,
  cancel_timeout, feed,
}
use hakit.Classes.History.Consumes.{Consumes, Consumes-append}
use hakit.Classes.History.Entries.{Consumes-short, Consumes-value, Consumes-text, NoNul}
use hakit.Classes.History.Selection.{
  Logs, Logs-trans, Logs-log, SameSignal, select_id-Logs, delay_fits, select_time-Logs,
}

abbrev pub number : ℕ → Value
number n = if ltb n 31 then short n else long (pos n)

abbrev pub lost_byte : List ℕ → Value
lost_byte [] = text []
lost_byte (c ∷ s) = text s

-- What the reader prints for a logged value: of a text it loses the first byte.
pub shown : List ℕ → Value
shown value = if all_digits value then number (read_digits 0 value) else lost_byte value

-- A text without NUL characters, and a number of at most 55 bits.
abbrev pub Loggable : List ℕ → Type 0
Loggable value = NoNul value × (read_digits 0 value < 2 ^ 55)

-- `h'` is `h` after logging a value, which the reader prints as `v`.
abbrev LogsValue : History → History → State → Value → Type 0
LogsValue h h' st v =
    (bs : List ℕ) × Logs h h' bs
    × Consumes st bs st (line st v ∷ [])
    × (h'.current_id ≡ h.current_id)
    × (h'.t ≡ h.t)

LogsValue-log :
    (h : History) (st : State) (v : Value) (bs : List ℕ)
    → h.ibucket < length h.buckets
    → Consumes st bs st (line st v ∷ [])
    → LogsValue h (log h bs) st v
LogsValue-log h st v bs r c = (bs, Logs-log h bs r, c, refl, refl)

feed_int-LogsValue :
    (h : History) (st : State) (n : ℕ)
    → h.ibucket < length h.buckets
    → n < 2 ^ 55
    → LogsValue h (feed_int h (pos n)) st (number n)
unfolding feed_int
feed_int-LogsValue h st n r small = elim (Bool-cases (ltb n 31)) [
  | inl e ↦
      rw (in_range n true e, e, mod-eq_of_lt {n = n} {m = 256} (ground arith))
        (LogsValue-log h st (short n) (bit_or 0x80 n ∷ []) r (Consumes-short st n (ground arith)))
  | inr e ↦
      rw (in_range n false e, e)
        (LogsValue-log h st (long (pos n)) (append_value 0x04 (pos n)) r
          (Consumes-value st (pos n) (delay_fits n small)))
]
  where
    in_range :
        (n : ℕ) (b : Bool)
        → ltb n 31 ≡ b
        → (leb_ℤ (negsuc 31) (pos n) && ltb_ℤ (pos n) (pos 31)) ≡ b
    in_range n b e = ground arith

feed_str-LogsValue :
    (h : History) (st : State) (value : List ℕ)
    → h.ibucket < length h.buckets
    → NoNul value
    → all_digits value ≡ false
    → LogsValue h (feed_str h value) st (lost_byte value)
unfolding feed_str all_digits
feed_str-LogsValue h st [] r ok e = cc
feed_str-LogsValue h st (c ∷ s) r ok e =
    LogsValue-log h st (text s) (0x05 ∷ ((c ∷ s) ++ 0 ∷ [])) r (Consumes-text st c s ok.1)

feed_value-LogsValue :
    (h : History) (st : State) (value : List ℕ)
    → h.ibucket < length h.buckets
    → Loggable value
    → LogsValue h (feed_value h value) st (shown value)
unfolding feed_value shown
feed_value-LogsValue h st value r (ok, small) = elim (Bool-cases (all_digits value)) [
  | inl e ↦
      rw (e, smaller (read_digits 0 value) small)
        (feed_int-LogsValue h st (read_digits 0 value) r small)
  | inr e ↦ rw e (feed_str-LogsValue h st value r ok e)
]
  where
    smaller : (n : ℕ) → n < 2 ^ 55 → min n (2 ^ 63 - 1) ≡ n
    smaller n h = omega arith

-- What the reader knows agrees with the log.
pub record Linked (h : History) (st : State) : Type 0 where
  pub room : h.ibucket < length h.buckets
  pub time : st.tstamp ≡ h.t
  pub signal : SameSignal h st

cancel_timeout_tag : (h : History) → (cancel_timeout h).0 ≡ record h { timeout_tag = 0 }
unfolding cancel_timeout
cancel_timeout_tag h = ground arith

-- What the reader knows after a sample of the signal `s`.
abbrev pub seen : State → Symbol → ℤ → State
seen st s now = record st { tstamp = now; cur_sym = some s }

-- `h'` is `h` after a sample of the signal `n` at the time `now`.
abbrev LogsSample : History → History → State → ℕ → Symbol → ℤ → Value → Type 0
LogsSample h h' st n s now v =
    (bs : List ℕ) × Logs h h' bs
    × Consumes st bs (seen st s now) (line (seen st s now) v ∷ [])
    × (h'.current_id ≡ pos n)
    × (h'.t ≡ now)

module _ (h : History) (st : State) (n : ℕ) (s : Symbol) (d : ℕ) (link : Linked h st)
    (small : n < 2 ^ 31) (found : find_symbol (pos n) st.syms ≡ some s) (sd : d < 2 ^ 55) where
  select-Logs :
      (bs : List ℕ) × Logs h (select h (pos n) (h.t +ℤ pos d)) bs
      × Consumes st bs (seen st s (h.t +ℤ pos d)) []
      × ((select h (pos n) (h.t +ℤ pos d)).current_id ≡ pos n)
      × ((select h (pos n) (h.t +ℤ pos d)).t ≡ h.t +ℤ pos d)
  unfolding select
  select-Logs =
      let h1 = select_id h (pos n) in
      let st1 : State = record st { cur_sym = some s } in
      let (b1, l1, c1, i1, t1) = select_id-Logs h st n s link.room link.signal small found in
      let (b2, l2, c2, i2, t2) =
        subst
          (λ (t : ℤ).
            (bs : List ℕ) × Logs h1 (select_time h1 (t +ℤ pos d)) bs
            × Consumes st1 bs (record st1 { tstamp = t +ℤ pos d }) []
            × ((select_time h1 (t +ℤ pos d)).current_id ≡ h1.current_id)
            × ((select_time h1 (t +ℤ pos d)).t ≡ t +ℤ pos d))
          t1 (select_time-Logs h1 st1 d l1.room (link.time ∙ sym t1) sd) in
      (
        b1 ++ b2,
        Logs-trans h h1 _ b1 b2 l1 l2,
        Consumes-append st st1 _ b1 b2 [] [] c1 c2,
        i2 ∙ i1,
        t2,
      )

  sample-Logs :
      (value : List ℕ)
      → Loggable value
      → LogsSample h
          (feed_value (select h (pos n) (h.t +ℤ pos d)) value)
          st
          n
          s
          (h.t +ℤ pos d)
          (shown value)
  sample-Logs value ok =
      let (b1, l1, c1, i1, t1) = select-Logs in
      let h1 = select h (pos n) (h.t +ℤ pos d) in
      let (b2, l2, c2, i2, t2) =
        feed_value-LogsValue h1 (seen st s (h.t +ℤ pos d)) value l1.room ok in
      (
        b1 ++ b2,
        Logs-trans h h1 _ b1 b2 l1 l2,
        Consumes-append st _ _ b1 b2 [] _ c1 c2,
        i2 ∙ i1,
        t2 ∙ t1,
      )

-- One call of `history_feed` adds bytes to the log, and from them the reader prints one line, with the
-- signal, the time and the value; then the reader is in step with the log again.
pub feed-Logs :
    (h : History) (st : State) (n : ℕ) (s : Symbol) (value : List ℕ) (d : ℕ) (opens : Bool)
    (tag : ℕ)
    → Linked h st
    → n < 2 ^ 31
    → find_symbol (pos n) st.syms ≡ some s
    → d < 2 ^ 55
    → Loggable value
    → let h' = (feed h (pos n) value (h.t +ℤ pos d) opens tag).0 in
      let st' = seen st s (h.t +ℤ pos d) in
      (bs : List ℕ) × Logs h h' bs
      × Consumes st bs st' (line st' (shown value) ∷ [])
      × (h'.t ≡ h.t +ℤ pos d)
      × Linked h' st'
unfolding feed rotate
feed-Logs h st n s value d opens tag link small found sd ok =
    let h0 : History = record h { timeout_tag = 0 } in
    let link0 : Linked h0 st = record {
      room = link.room;
      time = link.time;
      signal = link.signal;
    } in
    let (bs, l, c, i, t) = sample-Logs h0 st n s d link0 small found sd value ok in
    rw (cancel_timeout_tag h) (
      bs,
      record { grows = l.grows; header = l.header; room = l.room },
      c,
      t,
      record {
        room = l.room;
        time = sym t;
        signal = inr (s, refl, ap (λ k. find_symbol k st.syms) i ∙ found);
      },
    )
