-- ===== src/Classes/History/Selection.antt =====
-- classes/history/history.c: what `history_select` adds to the log, under the reader.
use hakit.Base.{
  ℕ, ◌^◌, ◌<◌, ◌≡◌, refl, sym, ap, subst, ◌∙◌, Bool, true, false, some, List, [], ◌++◌, ℤ, pos,
  negsuc, ◌+ℤ◌, ◌-ℤ◌, ltb, ltb_ℤ, length, eq_ℤ, arith, append-nil, append_assoc, Bool-cases, inl,
  inr, ◌⊎◌, get_or-set_self, length-set, mod-eq_of_lt,
}
use hakit.Classes.History.Value.{append_value, fits}
use hakit.Classes.History.Reader.{Symbol, State, find_symbol, to_int}
use hakit.Classes.History.Writer.{
  History, Bucket, bucket, log, no_bucket, select_id, select_time, time_entry,
}
use hakit.Classes.History.Consumes.{Consumes, Consumes-nil}
use hakit.Classes.History.Entries.{Consumes-select, Consumes-relative, Consumes-relative_byte}

-- `h'` is `h` with `bytes` more in the buffer of the current bucket.
pub record Logs (h h' : History) (bytes : List ℕ) : Type 0 where
  pub grows : (bucket h').buf ≡ (bucket h).buf ++ bytes
  pub header : h'.hdr ≡ h.hdr
  pub room : h'.ibucket < length h'.buckets

pub Logs-refl : (h : History) → h.ibucket < length h.buckets → Logs h h []
Logs-refl h r = record { grows = sym (append-nil (bucket h).buf); header = refl; room = r }

pub Logs-trans :
    (h h1 h2 : History) (b1 b2 : List ℕ) → Logs h h1 b1 → Logs h1 h2 b2 → Logs h h2 (b1 ++ b2)
Logs-trans h h1 h2 b1 b2 l1 l2 = record {
  grows = l2.grows ∙ ap (λ k. k ++ b2) l1.grows ∙ append_assoc (bucket h).buf b1 b2;
  header = l2.header ∙ l1.header;
  room = l2.room;
}

pub Logs-log :
    (h : History) (bytes : List ℕ) → h.ibucket < length h.buckets → Logs h (log h bytes) bytes
Logs-log h bytes r =
    let b = bucket h in
    let b' : Bucket = record b { buf = b.buf ++ bytes } in
    record {
      grows = ap (λ (k : Bucket). k.buf) (get_or-set_self h.buckets h.ibucket b' no_bucket r);
      header = refl;
      room = omega (arith, length-set h.buckets h.ibucket b');
    }

-- The bytes do not depend on the signal, the time and the tag.
pub Logs-from :
    (h h' : History) (bytes : List ℕ) (id t : ℤ) (tag : ℕ)
    → Logs (record h { current_id = id; t = t; timeout_tag = tag }) h' bytes
    → Logs h h' bytes
Logs-from h h' bytes id t tag l = record { grows = l.grows; header = l.header; room = l.room }

pub Logs-to :
    (h h' : History) (bytes : List ℕ) (tag : ℕ)
    → Logs h h' bytes
    → Logs h (record h' { timeout_tag = tag }) bytes
Logs-to h h' bytes tag l = record { grows = l.grows; header = l.header; room = l.room }

pub id_fits : (n : ℕ) → n < 2 ^ 31 → (fits (pos n) 7 ≡ true) × (to_int (pos n) ≡ pos n)
id_fits n h = (ground arith, ground (arith, mod-eq_of_lt {n = n} {m = 2 ^ 32}))

-- The current signal of the log is that of the reader.
abbrev pub SameSignal : History → State → Type 0
SameSignal h st =
    (h.current_id ≡ negsuc 0)
    ⊎ ((s : Symbol) × (st.cur_sym ≡ some s) × (find_symbol h.current_id st.syms ≡ some s))

select_id-same :
    (h : History) (st : State) (n : ℕ) (s : Symbol)
    → SameSignal h st
    → find_symbol (pos n) st.syms ≡ some s
    → eq_ℤ (pos n) h.current_id ≡ true
    → (st.cur_sym ≡ some s) × (h.current_id ≡ pos n)
select_id-same h st n s (inl none_yet) found e = absurd (ground (arith, none_yet))
select_id-same h st n s (inr (s', now, found')) found e =
    let same : h.current_id ≡ pos n = ground arith in
    (now ∙ sym found' ∙ ap (λ k. find_symbol k st.syms) same ∙ found, same)

pub select_id-Logs :
    (h : History) (st : State) (n : ℕ) (s : Symbol)
    → h.ibucket < length h.buckets
    → SameSignal h st
    → n < 2 ^ 31
    → find_symbol (pos n) st.syms ≡ some s
    → (bs : List ℕ) × Logs h (select_id h (pos n)) bs
      × Consumes st bs (record st { cur_sym = some s }) []
      × ((select_id h (pos n)).current_id ≡ pos n)
      × ((select_id h (pos n)).t ≡ h.t)
unfolding select_id
select_id-Logs h st n s r same small found = elim (Bool-cases (eq_ℤ (pos n) h.current_id)) [
  | inl e ↦
      let (cur, id) = select_id-same h st n s same found e in
      rw e (
        [],
        Logs-refl h r,
        subst (λ c. Consumes st [] (record st { cur_sym = c }) []) cur (Consumes-nil st),
        id,
        refl,
      )
  | inr e ↦ rw e (
    append_value 0x01 (pos n),
    Logs-from h _ (append_value 0x01 (pos n)) (pos n) h.t h.timeout_tag
        (Logs-log (record h { current_id = pos n }) (append_value 0x01 (pos n)) r),
    Consumes-select st (pos n) s (id_fits n small).0 (id_fits n small).1 found,
    refl,
    refl,
  )
]

delay_lem : (t : ℤ) (d : ℕ) → (t +ℤ pos d) -ℤ t ≡ pos d
unfolding ◌+ℤ◌ ◌-ℤ◌
delay_lem t d = ground arith

no_delay : (t : ℤ) (d : ℕ) → eq_ℤ (t +ℤ pos d) t ≡ true → t +ℤ pos d ≡ t
unfolding ◌+ℤ◌
no_delay t d e = ground arith

pub delay_fits : (d : ℕ) → d < 2 ^ 55 → fits (pos d) 7 ≡ true
delay_fits d h = ground arith

time_entry-Consumes :
    (st : State) (d : ℕ)
    → d < 2 ^ 55
    → Consumes st (time_entry (pos d)) (record st { tstamp = st.tstamp +ℤ pos d }) []
unfolding time_entry
time_entry-Consumes st d small = elim (Bool-cases (ltb d 64)) [
  | inl e ↦
      rw (ltb_ℤ_pos d 64 true e, mod-eq_of_lt {n = d} {m = 256} (ground arith))
        (Consumes-relative_byte st d (ground arith))
  | inr e ↦ rw (ltb_ℤ_pos d 64 false e) (Consumes-relative st (pos d) (delay_fits d small))
]
  where
    ltb_ℤ_pos : (a b : ℕ) (c : Bool) → ltb a b ≡ c → ltb_ℤ (pos a) (pos b) ≡ c
    ltb_ℤ_pos a b c e = ground arith

-- The time of the log is that of the reader, after any delay that is not negative.
pub select_time-Logs :
    (h : History) (st : State) (d : ℕ)
    → h.ibucket < length h.buckets
    → st.tstamp ≡ h.t
    → d < 2 ^ 55
    → (bs : List ℕ) × Logs h (select_time h (h.t +ℤ pos d)) bs
      × Consumes st bs (record st { tstamp = h.t +ℤ pos d }) []
      × ((select_time h (h.t +ℤ pos d)).current_id ≡ h.current_id)
      × ((select_time h (h.t +ℤ pos d)).t ≡ h.t +ℤ pos d)
unfolding select_time
select_time-Logs h st d r time small = elim (Bool-cases (eq_ℤ (h.t +ℤ pos d) h.t)) [
  | inl e ↦
      let same = no_delay h.t d e in
      rw e (
        [],
        Logs-refl h r,
        subst (λ k. Consumes st [] (record st { tstamp = k }) []) (time ∙ sym same)
            (Consumes-nil st),
        refl,
        sym same,
      )
  | inr e ↦
      rw (e, delay_lem h.t d)
        (
          time_entry (pos d),
          Logs-from h _ (time_entry (pos d)) h.current_id (h.t +ℤ pos d) h.timeout_tag
              (Logs-log (record h { t = h.t +ℤ pos d }) (time_entry (pos d)) r),
          subst (λ k. Consumes st (time_entry (pos d)) (record st { tstamp = k +ℤ pos d }) []) time
              (time_entry-Consumes st d small),
          refl,
          refl,
        )
]
