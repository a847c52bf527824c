-- ===== src/Classes/Calls.antt =====
-- What the handlers of the small classes share: the calls they make outside (core/mod.c and
-- os/linux/sys.c), a pad's state from a value, and the scan of an input pad's name.
use hakit.Base.{
  ℕ, Option, none, some, List, [], ◌∷◌, ◌++◌, ℤ, pos, ◌==◌, if◌then◌else◌, atoi, show_ℤ,
  atoi-show_ℤ, arith, scan_int, eq_ℤ, length, replicate, ◌-◌, ◌≡◌, refl,
}

-- An output pad is known by its number. `sys_timeout` returns `tag`, which the system chooses.
pub data Call : Type 0 where
  update_int : ℕ → ℤ → Call
  update_str : ℕ → List ℕ → Call
  sys_remove : ℕ → Call
  sys_timeout : ℕ → ℤ → Call

-- `atoi(value) ? 1:0`
unfoldable pub as_bit : List ℕ → ℕ
unfolding atoi
as_bit value = if eq_ℤ (atoi value) (pos 0) then 0 else 1

pub as_bit-show_ℤ : (n : ℕ) → as_bit (show_ℤ (pos n)) ≡ (if n == 0 then 0 else 1)
unfolding as_bit
as_bit-show_ℤ n = rw (atoi-show_ℤ (pos n)) (ground arith)

-- `^` of two states, each 0 or 1.
abbrev pub bit_xor : ℕ → ℕ → ℕ
bit_xor a b = if a == b then 0 else 1

-- `sscanf(name, "in%d", &num)`
abbrev pub scan_after_n : List ℕ → Option ℤ
unfolding scan_int
scan_after_n [] = none
scan_after_n (c ∷ s) = if c == b'n' then scan_int s else none

unfoldable pub scan_in : List ℕ → Option ℤ
scan_in [] = none
scan_in (c ∷ s) = if c == b'i' then scan_after_n s else none

-- The `realloc`ed table of inputs, NULL after the inputs that were there.
unfoldable pub grow {ℓ} : {A : Type ℓ} → List (Option A) → ℕ → List (Option A)
grow inputs n = inputs ++ replicate (n - length inputs) none

-- What output `pad` has got last, when the calls follow on `old`.
unfoldable pub last_sent : ℕ → Option ℤ → List Call → Option ℤ
last_sent pad old [] = old
last_sent pad old (update_int p v ∷ calls) = last_sent pad (if p == pad then some v else old) calls
last_sent pad old (update_str p v ∷ calls) = last_sent pad old calls
last_sent pad old (sys_remove t ∷ calls) = last_sent pad old calls
last_sent pad old (sys_timeout t d ∷ calls) = last_sent pad old calls

pub last_sent-append :
    (pad : ℕ) (old : Option ℤ) (calls calls' : List Call)
    → last_sent pad old (calls ++ calls') ≡ last_sent pad (last_sent pad old calls) calls'
unfolding last_sent
last_sent-append pad old [] calls' = refl
last_sent-append pad old (update_int p v ∷ calls) calls' =
    last_sent-append pad (if p == pad then some v else old) calls calls'
last_sent-append pad old (update_str p v ∷ calls) calls' = last_sent-append pad old calls calls'
last_sent-append pad old (sys_remove t ∷ calls) calls' = last_sent-append pad old calls calls'
last_sent-append pad old (sys_timeout t d ∷ calls) calls' = last_sent-append pad old calls calls'

-- What the object is set up with: the properties that the classes look up.
abbrev pub inv_name : List ℕ
inv_name = b'i' ∷ b'n' ∷ b'v' ∷ []

abbrev pub delay_name : List ℕ
delay_name = b'd' ∷ b'e' ∷ b'l' ∷ b'a' ∷ b'y' ∷ []

abbrev pub remove : ℕ → List ℕ → List ℕ
remove t [] = []
remove t (u ∷ live) = let rest = remove t live in if t == u then rest else u ∷ rest

-- The tags of the timers that wait, when the calls follow on `live`.
unfoldable pub timers : List ℕ → List Call → List ℕ
timers live [] = live
timers live (update_int p v ∷ calls) = timers live calls
timers live (update_str p v ∷ calls) = timers live calls
timers live (sys_remove t ∷ calls) = timers (remove t live) calls
timers live (sys_timeout t d ∷ calls) = timers (t ∷ live) calls

-- The timers that a context with this tag has to have.
abbrev pub waiting : ℕ → List ℕ
waiting tag = if tag == 0 then [] else tag ∷ []

abbrev pub flag : Option (List ℕ) → ℕ
flag none = 0
flag (some s) = 1
