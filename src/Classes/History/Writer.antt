-- ===== src/Classes/History/Writer.antt =====
-- classes/history/history.c and history.h. A `buf_t` is the list of its bytes (Core.Buf.Append has
-- what an append does). `time(NULL)`, the tag that `sys_timeout` returns and whether `fopen`
-- succeeds are arguments. A text is the list of its bytes, without the NUL character.
use Prim.Native.Nat.{bit_or}
use hakit.Base.{
  ℕ, ◌+◌, ◌-◌, Bool, true, List, [], ◌∷◌, ◌++◌, ℤ, pos, negsuc, ◌-ℤ◌, ltb, leb, leb_ℤ, ltb_ℤ, ◌==◌,
  if◌then◌else◌, length, drop, get_or, set, replicate, min, ◌%◌, ◌^◌, ◌&&◌, is_digit, read_digits,
  eq_ℤ,
}
use hakit.Classes.History.Value.{append_value, word}

pub record Bucket : Type 0 where
  pub t0 : ℤ
  pub buf : List ℕ
  pub fpos : ℕ

-- `history_t`. The file of a bucket is named after its `t0`.
pub record History : Type 0 where
  pub hdr : List ℕ
  pub buckets : List Bucket
  pub ibucket : ℕ
  pub t : ℤ
  pub current_id : ℤ
  pub timeout_tag : ℕ

-- What a call does outside the record: bytes appended to the file of a bucket, a source removed
-- from the event loop, a timeout set.
pub data Effect : Type 0 where
  append_file : ℤ → List ℕ → Effect
  remove_source : ℕ → Effect
  set_timeout : ℕ → Effect

abbrev pub nbuckets : ℕ
nbuckets = 10

abbrev pub bucket_maxsize : ℕ
bucket_maxsize = 10000

abbrev pub bucket_flush_timeout : ℕ
bucket_flush_timeout = 10000

abbrev pub no_bucket : Bucket
no_bucket = record { t0 = pos 0; buf = []; fpos = 0 }

-- `h->buckets[h->ibucket]`
abbrev pub bucket : History → Bucket
bucket h = get_or h.buckets h.ibucket no_bucket

abbrev pub set_bucket : History → Bucket → History
set_bucket h b = record h { buckets = set h.buckets h.ibucket b }

-- An append to the buffer of the current bucket.
abbrev pub log : History → List ℕ → History
log h bytes = let b = bucket h in set_bucket h (record b { buf = b.buf ++ bytes })

unfoldable pub bucket_start : History → ℤ → History
bucket_start h now =
    set_bucket (record h { t = now; current_id = negsuc 0 })
      (record { t0 = now; buf = append_value 0x02 now; fpos = 0 })

unfoldable pub bucket_flush : History → Bool → History × List Effect
bucket_flush h opens =
    let b = bucket h in
    if ltb b.fpos (length b.buf) && opens
    then (
      set_bucket h (record b { fpos = length b.buf }),
      (if b.fpos == 0 then append_file b.t0 h.hdr ∷ [] else [])
          ++ append_file b.t0 (drop b.fpos b.buf) ∷ [],
    )
    else (h, [])

unfoldable pub flush_timeout : History → Bool → History × List Effect
flush_timeout h opens = bucket_flush (record h { timeout_tag = 0 }) opens

unfoldable pub signal_declare : History → ℤ → List ℕ → History
signal_declare h id name = record h {
  hdr = h.hdr ++ (append_value 0x00 id ++ (name ++ 0 ∷ []));
  current_id = id;
}

unfoldable pub init : ℤ → History
init now =
    bucket_start
      (record {
        hdr = [];
        buckets = replicate nbuckets no_bucket;
        ibucket = 0;
        t = pos 0;
        current_id = pos 0;
        timeout_tag = 0;
      })
      now

-- The low byte of `0xC0 | dt`.
abbrev pub relative_byte : ℤ → ℕ
relative_byte dt = bit_or 0xC0 (word dt % 256)

unfoldable pub select_id : History → ℤ → History
select_id h id =
    if eq_ℤ id h.current_id then h else log (record h { current_id = id }) (append_value 0x01 id)

-- What is logged for a time difference.
unfoldable pub time_entry : ℤ → List ℕ
time_entry dt = if ltb_ℤ dt (pos 64) then relative_byte dt ∷ [] else append_value 0x03 dt

unfoldable pub select_time : History → ℤ → History
select_time h now = if eq_ℤ now h.t then h else log (record h { t = now }) (time_entry (now -ℤ h.t))

unfoldable pub select : History → ℤ → ℤ → History
select h id now = select_time (select_id h id) now

unfoldable pub feed_str : History → List ℕ → History
feed_str h str = log h (0x05 ∷ (str ++ 0 ∷ []))

unfoldable pub feed_int : History → ℤ → History
feed_int h value =
    if leb_ℤ (negsuc 31) value && ltb_ℤ value (pos 31)
    then log h (bit_or 0x80 (word value % 256) ∷ [])
    else log h (append_value 0x04 value)

-- The scan over the leading digits reaches the end of the text.
unfoldable pub all_digits : List ℕ → Bool
all_digits [] = true
all_digits (c ∷ s) = is_digit c && all_digits s

-- `strtoll(value, NULL, 10)` of digits, which stops at the largest `long long`.
abbrev pub strtoll : List ℕ → ℤ
strtoll s = pos (min (read_digits 0 s) (2 ^ 63 - 1))

unfoldable pub feed_value : History → List ℕ → History
feed_value h value = if all_digits value then feed_int h (strtoll value) else feed_str h value

-- `history.buckets[h->ibucket].buf.len`: this is the file's own static `history`, of which no
-- call is ever made, and not `*h`; its buffers stay empty.
abbrev pub static_history_len : ℕ → ℕ
static_history_len ibucket = 0

unfoldable pub rotate : History → ℤ → Bool → ℕ → History × List Effect
rotate h now opens tag =
    if leb bucket_maxsize (static_history_len h.ibucket)
    then (let (h', files) = bucket_flush h opens in
        let i = if leb nbuckets (h'.ibucket + 1) then 0 else h'.ibucket + 1 in
        (bucket_start (record h' { ibucket = i }) now, files))
    else (record h { timeout_tag = tag }, set_timeout bucket_flush_timeout ∷ [])

unfoldable pub cancel_timeout : History → History × List Effect
cancel_timeout h =
    if h.timeout_tag == 0
    then (h, [])
    else (record h { timeout_tag = 0 }, remove_source h.timeout_tag ∷ [])

unfoldable pub feed : History → ℤ → List ℕ → ℤ → Bool → ℕ → History × List Effect
feed h id value now opens tag =
    let (h1, removed) = cancel_timeout h in
    let (h2, after) = rotate (feed_value (select h1 id now) value) now opens tag in
    (h2, removed ++ after)
