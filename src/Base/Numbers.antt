-- ===== src/Base/Numbers.antt =====
-- Numbers as text: what the code uses of `snprintf("%d")`, `atoi` and `strtol`. A text is the list
-- of its bytes, without the NUL character. The C functions leave values outside their type open;
-- here they return the integer that is written.
use Prim.Native.Nat.{ℕ, zero, suc, ◌+◌, ◌-◌, ◌*◌, ◌/◌, ◌%◌, ◌≤◌, ◌<◌}
use mathlib.Core.Path.{◌≡◌, refl, ap, ◌∙◌}
use mathlib.Core.Bool.{Bool, true, false, ◌&&◌, ◌||◌}
use mathlib.Core.Logic.{inl, inr, ◌↔◌}
use mathlib.Core.Option.{Option, none, some}
use mathlib.Core.List.{List, [], ◌∷◌, ◌++◌}
use native.Mathlib.Omega.{arith}
use hakit.Base.Bools.{ltb, leb, ◌==◌, if◌then◌else◌, Bool-cases}
use hakit.Base.Int.{ℤ, pos, negsuc, sub_ℕ}

unfoldable pub show_ℕ_fuel : ℕ → ℕ → List ℕ
show_ℕ_fuel zero n = []
show_ℕ_fuel (suc f) n =
    let front = show_ℕ_fuel f (n / 10) in
    if ltb n 10 then (48 + n) ∷ [] else front ++ ((48 + n % 10) ∷ [])

unfoldable pub show_ℕ : ℕ → List ℕ
unfolding show_ℕ_fuel
show_ℕ n = show_ℕ_fuel (suc n) n

-- "%d"
unfoldable pub show_ℤ : ℤ → List ℕ
unfolding show_ℕ
show_ℤ (pos n) = show_ℕ n
show_ℤ (negsuc n) = b'-' ∷ show_ℕ (suc n)

abbrev pub is_digit : ℕ → Bool
is_digit c = leb 48 c && leb c 57

-- `isspace` of the C locale.
abbrev pub is_space : ℕ → Bool
is_space c = c == 32 || (leb 9 c && leb c 13)

unfoldable pub skip_spaces : List ℕ → List ℕ
skip_spaces [] = []
skip_spaces (c ∷ s) = if is_space c then skip_spaces s else c ∷ s

-- The value of the digits that `s` begins with, after `acc`.
unfoldable pub read_digits : ℕ → List ℕ → ℕ
read_digits acc [] = acc
read_digits acc (c ∷ s) = if is_digit c then read_digits (acc * 10 + (c - 48)) s else acc

abbrev pub read_sign : List ℕ → ℤ
unfolding read_digits
read_sign [] = pos 0
read_sign (c ∷ s) =
    if c == b'-'
    then sub_ℕ 0 (read_digits 0 s)
    else if c == b'+'
    then pos (read_digits 0 s)
    else pos (read_digits 0 (c ∷ s))

unfoldable pub atoi : List ℕ → ℤ
unfolding skip_spaces read_digits
atoi s = read_sign (skip_spaces s)

-- `show_ℕ` writes digits only, at least one.
abbrev AllDigits : List ℕ → Type 0
AllDigits [] = Unit {0}
AllDigits (c ∷ s) = (48 ≤ c) × (c ≤ 57) × AllDigits s

AllDigits-append : (s t : List ℕ) → AllDigits s → AllDigits t → AllDigits (s ++ t)
AllDigits-append [] t hs ht = ht
AllDigits-append (c ∷ s) t (lo, hi, hs) ht = (lo, hi, AllDigits-append s t hs ht)

pub show_ℕ_fuel-AllDigits : (f n : ℕ) → AllDigits (show_ℕ_fuel f n)
unfolding show_ℕ_fuel
show_ℕ_fuel-AllDigits zero n = tt
show_ℕ_fuel-AllDigits (suc f) n = elim (Bool-cases (ltb n 10)) [
  | inl e ↦ rw e (omega arith, ground arith, tt)
  | inr e ↦ rw e (
      AllDigits-append (show_ℕ_fuel f (n / 10)) ((48 + n % 10) ∷ [])
        (show_ℕ_fuel-AllDigits f (n / 10)) (omega arith, omega arith, tt))
]

read_digits-append :
    (acc : ℕ) (s t : List ℕ)
    → AllDigits s
    → read_digits acc (s ++ t) ≡ read_digits (read_digits acc s) t
unfolding read_digits
read_digits-append acc [] t h = refl
read_digits-append acc (c ∷ s) t (lo, hi, h) =
    ground (arith, read_digits-append (acc * 10 + (c - 48)) s t h)

read_digits-show_ℕ_fuel : (f n : ℕ) → n < f → read_digits 0 (show_ℕ_fuel f n) ≡ n
unfolding show_ℕ_fuel
read_digits-show_ℕ_fuel zero n h = elim h [ ]
read_digits-show_ℕ_fuel (suc f) n h = elim (Bool-cases (ltb n 10)) [
  | inl e ↦ rw e (unfold read_digits in ground arith)
  | inr e ↦
      rw
        (
          e,
          read_digits-append 0 (show_ℕ_fuel f (n / 10)) ((48 + n % 10) ∷ [])
              (show_ℕ_fuel-AllDigits f (n / 10)),
          read_digits-show_ℕ_fuel f (n / 10) (ground arith),
        )
        (unfold read_digits in ground arith)
]

atoi_digits : (s : List ℕ) → AllDigits s → atoi s ≡ pos (read_digits 0 s)
unfolding atoi
atoi_digits [] h = refl
atoi_digits (c ∷ s) (lo, hi, h) = ground arith

pub atoi-show_ℕ : (n : ℕ) → atoi (show_ℕ n) ≡ pos n
unfolding show_ℕ
atoi-show_ℕ n =
    atoi_digits (show_ℕ_fuel (suc n) n) (show_ℕ_fuel-AllDigits (suc n) n)
    ∙ ap pos (read_digits-show_ℕ_fuel (suc n) n (omega arith))

-- Reading back what "%d" wrote gives the same integer.
pub atoi-show_ℤ : (a : ℤ) → atoi (show_ℤ a) ≡ a
unfolding show_ℤ
atoi-show_ℤ (pos n) = atoi-show_ℕ n
atoi-show_ℤ (negsuc n) =
    unfold atoi in rw (read_digits-show_ℕ_fuel (suc (suc n)) (suc n) (omega arith)) (ground arith)

-- "%d" of `sscanf`: the integer that `s` begins with, if there is a digit.
abbrev pub begins_digit : List ℕ → Bool
begins_digit [] = false
begins_digit (c ∷ s) = is_digit c

abbrev pub scan_sign : List ℕ → Option ℤ
unfolding read_digits
scan_sign [] = none
scan_sign (c ∷ s) =
    if is_digit c
    then some (pos (read_digits 0 (c ∷ s)))
    else if begins_digit s && (c == b'-' || c == b'+')
    then some (read_sign (c ∷ s))
    else none

unfoldable pub scan_int : List ℕ → Option ℤ
unfolding skip_spaces read_digits
scan_int s = scan_sign (skip_spaces s)

-- `strcmp(a, b) == 0`
unfoldable pub eq_bytes : List ℕ → List ℕ → Bool
eq_bytes [] [] = true
eq_bytes [] (d ∷ t) = false
eq_bytes (c ∷ s) [] = false
eq_bytes (c ∷ s) (d ∷ t) = c == d && eq_bytes s t

pub eq_bytes_iff : (s t : List ℕ) → (eq_bytes s t ≡ true) ↔ (s ≡ t)
unfolding eq_bytes
eq_bytes_iff [] [] = ((λ _. refl), (λ _. refl))
eq_bytes_iff [] (d ∷ t) = ((λ e. cc), (λ e. cc))
eq_bytes_iff (c ∷ s) [] = ((λ e. cc), (λ e. cc))
eq_bytes_iff (c ∷ s) (d ∷ t) =
    ((λ e. ground (arith, (eq_bytes_iff s t).0)), (λ e. ground (arith, (eq_bytes_iff s t).1)))

abbrev pub lower : ℕ → ℕ
lower c = if leb b'A' c && leb c b'Z' then c + 32 else c

-- The value of a digit of any base up to 16; 16 for another byte.
abbrev pub digit_value : ℕ → ℕ
digit_value c =
    if is_digit c
    then c - 48
    else if leb b'a' (lower c) && leb (lower c) b'f'
    then lower c - 87
    else 16

unfoldable pub read_base : ℕ → ℕ → List ℕ → ℕ
read_base base acc [] = acc
read_base base acc (c ∷ s) =
    if ltb (digit_value c) base then read_base base (acc * base + digit_value c) s else acc

abbrev pub begins_hex : List ℕ → Bool
begins_hex [] = false
begins_hex (c ∷ s) = ltb (digit_value c) 16

-- Base 0: "0x" begins a hexadecimal number, "0" an octal one.
unfoldable pub read_prefixed : List ℕ → ℕ
unfolding read_base
read_prefixed [] = 0
read_prefixed (c ∷ []) = read_base 10 0 (c ∷ [])
read_prefixed (c ∷ d ∷ s) =
    if c == b'0'
    then (if lower d == b'x' && begins_hex s then read_base 16 0 s else read_base 8 0 (d ∷ s))
    else read_base 10 0 (c ∷ d ∷ s)

-- `strtol(s, NULL, 0)`
unfoldable pub strtol : List ℕ → ℤ
unfolding skip_spaces read_prefixed
strtol s = elim (skip_spaces s) [
  | [] ↦ pos 0
  | c ∷ t ↦
      if c == b'-'
      then sub_ℕ 0 (read_prefixed t)
      else if c == b'+'
      then pos (read_prefixed t)
      else pos (read_prefixed (c ∷ t))
]
