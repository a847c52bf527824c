-- ===== src/Classes/History/Value/RoundTrip.antt =====
-- classes/history: what is written for a `long long` is read back as it was, up to 7 bytes.
use Prim.Native.Nat.{bit_or}
use hakit.Base.{
  ℕ, zero, suc, ◌+◌, ◌*◌, ◌≤◌, ◌<◌, ◌≡◌, subst, ◌∙◌, true, false, List, [], ◌∷◌, ℤ, pos, negsuc,
  arith, Bool-cases, inl, inr,
}
use hakit.Classes.History.Value.{
  word, bytes_of, fits, append_from, append_value, read_from, read_value,
}

read_1 : (v : ℤ) → fits v 1 ≡ true → read_value (bytes_of (word v) 1) 1 ≡ v
unfolding read_value bytes_of read_from
read_1 (pos n) h = ground arith
read_1 (negsuc n) h = ground arith

read_2 : (v : ℤ) → fits v 2 ≡ true → read_value (bytes_of (word v) 2) 2 ≡ v
unfolding read_value bytes_of read_from
read_2 (pos n) h = ground arith
read_2 (negsuc n) h = ground arith

read_3 : (v : ℤ) → fits v 3 ≡ true → read_value (bytes_of (word v) 3) 3 ≡ v
unfolding read_value bytes_of read_from
read_3 (pos n) h = ground arith
read_3 (negsuc n) h = ground arith

read_4 : (v : ℤ) → fits v 4 ≡ true → read_value (bytes_of (word v) 4) 4 ≡ v
unfolding read_value bytes_of read_from
read_4 (pos n) h = ground arith
read_4 (negsuc n) h = ground arith

read_5 : (v : ℤ) → fits v 5 ≡ true → read_value (bytes_of (word v) 5) 5 ≡ v
unfolding read_value bytes_of read_from
read_5 (pos n) h = ground arith
read_5 (negsuc n) h = ground arith

read_6 : (v : ℤ) → fits v 6 ≡ true → read_value (bytes_of (word v) 6) 6 ≡ v
unfolding read_value bytes_of read_from
read_6 (pos n) h = ground arith
read_6 (negsuc n) h = ground arith

read_7 : (v : ℤ) → fits v 7 ≡ true → read_value (bytes_of (word v) 7) 7 ≡ v
unfolding read_value bytes_of read_from
read_7 (pos n) h = ground arith
read_7 (negsuc n) h = ground arith

read_any :
    (i : ℕ) (v : ℤ)
    → i < 7
    → fits v (i + 1) ≡ true
    → read_value (bytes_of (word v) (i + 1)) (i + 1) ≡ v
read_any zero v h f = read_1 v f
read_any (suc zero) v h f = read_2 v f
read_any (suc (suc zero)) v h f = read_3 v f
read_any (suc (suc (suc zero))) v h f = read_4 v f
read_any (suc (suc (suc (suc zero)))) v h f = read_5 v f
read_any (suc (suc (suc (suc (suc zero))))) v h f = read_6 v f
read_any (suc (suc (suc (suc (suc (suc zero)))))) v h f = read_7 v f
read_any (suc (suc (suc (suc (suc (suc (suc n))))))) v h f = absurd (omega arith)

append_from-hit :
    (rounds i op : ℕ) (v : ℤ)
    → fits v (i + 1) ≡ true
    → append_from (suc rounds) i op v ≡ bit_or op (i * 16) ∷ bytes_of (word v) (i + 1)
unfolding append_from
append_from-hit rounds i op v h = rw h

append_from-miss :
    (rounds i op : ℕ) (v : ℤ)
    → fits v (i + 1) ≡ false
    → append_from (suc rounds) i op v ≡ append_from rounds (i + 1) op v
unfolding append_from
append_from-miss rounds i op v h = rw h

-- `entry` is an opcode with its number of data bytes less 1, and the bytes; they read back as `v`.
pub record Encodes (op : ℕ) (v : ℤ) (entry : List ℕ) : Type 0 where
  pub extra : ℕ
  pub few : extra < 7
  pub written : entry ≡ bit_or op (extra * 16) ∷ bytes_of (word v) (extra + 1)
  pub read : read_value (bytes_of (word v) (extra + 1)) (extra + 1) ≡ v

append_from-hit_Encodes :
    (rounds i op : ℕ) (v : ℤ)
    → i < 7
    → fits v (i + 1) ≡ true
    → Encodes op v (append_from (suc rounds) i op v)
append_from-hit_Encodes rounds i op v b f = record {
  extra = i;
  few = b;
  written = append_from-hit rounds i op v f;
  read = read_any i v b f;
}

-- The first length that fits is found within `k + 1` rounds.
append_from-Encodes :
    (k rounds i op : ℕ) (v : ℤ)
    → k ≤ rounds
    → i + k < 7
    → fits v (i + k + 1) ≡ true
    → Encodes op v (append_from (suc rounds) i op v)
append_from-Encodes zero rounds i op v h b f =
    append_from-hit_Encodes rounds i op v (omega arith)
      (subst (λ n. fits v n ≡ true) {x = i + 0 + 1} {y = i + 1} (omega arith) f)
append_from-Encodes (suc k) zero i op v h b f = absurd (omega arith)
append_from-Encodes (suc k) (suc rounds) i op v h b f = elim (Bool-cases (fits v (i + 1))) [
  | inl hit ↦ append_from-hit_Encodes (suc rounds) i op v (omega arith) hit
  | inr miss ↦
      let e =
        append_from-Encodes k rounds (i + 1) op v (omega arith) (omega arith)
          (subst (λ n. fits v n ≡ true) {x = i + suc k + 1} {y = i + 1 + k + 1} (omega arith) f) in
      record {
        extra = e.extra;
        few = e.few;
        written = append_from-miss (suc rounds) i op v miss ∙ e.written;
        read = e.read;
      }
]

-- Every value that fits in 7 bytes is written as an opcode, its length and its bytes,
-- and the reader finds the same value in those bytes.
pub append_value-Encodes : (op : ℕ) (v : ℤ) → fits v 7 ≡ true → Encodes op v (append_value op v)
unfolding append_value
append_value-Encodes op v f = append_from-Encodes 6 7 0 op v (omega arith) (omega arith) f

fits_below :
    (v : ℤ)
    → fits v 7 ≡ false
    → (fits v 1 ≡ false)
      × (fits v 2 ≡ false)
      × (fits v 3 ≡ false)
      × (fits v 4 ≡ false)
      × (fits v 5 ≡ false)
      × (fits v 6 ≡ false)
      × (fits v 8 ≡ false)
fits_below (pos n) f = ground arith
fits_below (negsuc n) f = ground arith

-- A value that does not fit in 7 bytes is not written at all: at 8 bytes the bound itself overflows.
pub append_value-drops : (op : ℕ) (v : ℤ) → fits v 7 ≡ false → append_value op v ≡ []
unfolding append_value append_from
append_value-drops op v f =
    let (f1, f2, f3, f4, f5, f6, f8) = fits_below v f in
    append_from-miss 7 0 op v f1
    ∙ append_from-miss 6 1 op v f2
    ∙ append_from-miss 5 2 op v f3
    ∙ append_from-miss 4 3 op v f4
    ∙ append_from-miss 3 4 op v f5
    ∙ append_from-miss 2 5 op v f6
    ∙ append_from-miss 1 6 op v f
    ∙ append_from-miss 0 7 op v f8
