-- ===== src/Classes/History/Value.antt =====
-- classes/history: how a `long long` is written (`history_append_value` of history.c) and read
-- (`history_read_value` of hakit-history.c). A 64-bit word stands for its two's complement.
pub mod RoundTrip
use Prim.Native.Nat.{bit_or}
use hakit.Base.{
  ℕ, zero, suc, ◌+◌, ◌-◌, ◌*◌, ◌/◌, ◌%◌, ◌^◌, ◌≤◌, ◌<◌, ◌≡◌, refl, Bool, List, [], ◌∷◌, ◌++◌, ℤ,
  pos, negsuc, ltb, leb, ltb_ℤ, leb_ℤ, pos_part, neg_part, true, ◌&&◌, if◌then◌else◌, length, ap,
}

abbrev pub word : ℤ → ℕ
word (pos n) = n
word (negsuc n) = 2 ^ 64 - 1 - n

abbrev pub signed : ℕ → ℤ
signed w = if ltb w (2 ^ 63) then pos w else negsuc (2 ^ 64 - 1 - w)

-- `(unsigned char) (value >> (8 * k))`
abbrev pub byte_of : ℕ → ℕ → ℕ
byte_of w k = w / 2 ^ (8 * k) % 256

-- The `len` bytes of the inner loop, the highest first.
unfoldable pub bytes_of : ℕ → ℕ → List ℕ
bytes_of w zero = []
bytes_of w (suc k) = byte_of w k ∷ bytes_of w k

-- The negation of a `long long`, which wraps at its least value.
abbrev pub neg : ℤ → ℤ
neg a = signed ((2 ^ 64 - word a) % 2 ^ 64)

-- `long long lim = 1ULL << ((len*8)-1)`: at 8 bytes this is the least `long long`.
abbrev pub lim : ℕ → ℤ
lim len = signed (2 ^ (8 * len - 1))

-- `(value >= -lim) && (value < lim)`
abbrev pub fits : ℤ → ℕ → Bool
fits value len = leb_ℤ (neg (lim len)) value && ltb_ℤ value (lim len)

-- The outer loop from `i` on, with `rounds` rounds left.
unfoldable pub append_from : ℕ → ℕ → ℕ → ℤ → List ℕ
append_from zero i op value = []
append_from (suc rounds) i op value =
    let longer = append_from rounds (i + 1) op value in
    if fits value (i + 1) then bit_or op (i * 16) ∷ bytes_of (word value) (i + 1) else longer

unfoldable pub append_value : ℕ → ℤ → List ℕ
append_value op value = append_from 8 0 op value

-- `(value & ~(0xFF << sft)) | (c << sft)`
abbrev pub replace_byte : ℕ → ℕ → ℕ → ℕ
replace_byte w k c = w / 2 ^ (8 * k + 8) * 2 ^ (8 * k + 8) + c * 2 ^ (8 * k) + w % 2 ^ (8 * k)

-- The loop of the reader: the last byte is the lowest.
unfoldable pub read_from : ℕ → ℕ → List ℕ → ℕ
read_from w zero cs = w
read_from w (suc k) [] = w
read_from w (suc k) (c ∷ cs) = read_from (replace_byte w k c) k cs

unfoldable pub read_value : List ℕ → ℕ → ℤ
read_value [] len = pos 0
read_value (c ∷ cs) len = signed (read_from (if leb 128 c then 2 ^ 64 - 1 else 0) len (c ∷ cs))

pub length-bytes_of : (w len : ℕ) → length (bytes_of w len) ≡ len
unfolding bytes_of
length-bytes_of w zero = refl
length-bytes_of w (suc k) = ap suc (length-bytes_of w k)
