-- ===== src/Classes/Mux/Selected.antt =====
-- classes/mux/main.c: the output over a run of inputs.
use hakit.Base.{
  ℕ, ◌+◌, ◌≡◌, ◌<◌, zero, suc, refl, true, Option, none, some, List, [], ◌∷◌, ◌++◌, pos, leb_ℤ,
  ltb_ℤ, ◌==◌, if◌then◌else◌, ◌&&◌, arith, get_elem?, length,
}
use hakit.Classes.Calls.{Call, update_int, update_str, sys_remove, sys_timeout}
use hakit.Classes.Mux.{Ctx, Pad, sel, in_, start, input, update_output}

-- What output pad 0 has got last, when the calls follow on `old`.
unfoldable pub last_value : Option (List ℕ) → List Call → Option (List ℕ)
last_value old [] = old
last_value old (update_str p v ∷ calls) = last_value (if p == 0 then some v else old) calls
last_value old (update_int p v ∷ calls) = last_value old calls
last_value old (sys_remove t ∷ calls) = last_value old calls
last_value old (sys_timeout t d ∷ calls) = last_value old calls

last_value-append :
    (old : Option (List ℕ)) (calls calls' : List Call)
    → last_value old (calls ++ calls') ≡ last_value (last_value old calls) calls'
unfolding last_value
last_value-append old [] calls' = refl
last_value-append old (update_str p v ∷ calls) calls' =
    last_value-append (if p == 0 then some v else old) calls calls'
last_value-append old (update_int p v ∷ calls) calls' = last_value-append old calls calls'
last_value-append old (sys_remove t ∷ calls) calls' = last_value-append old calls calls'
last_value-append old (sys_timeout t d ∷ calls) calls' = last_value-append old calls calls'

unfoldable pub inputs : Ctx → List (Pad × List ℕ) → Ctx × List Call
unfolding input
inputs ctx [] = (ctx, [])
inputs ctx ((pad, value) ∷ events) =
    let (c, calls) = input ctx pad value in
    let (c', calls') = inputs c events in (c', calls ++ calls')

unfoldable pub run : Ctx → List (Pad × List ℕ) → Ctx × List Call
unfolding inputs
run ctx events =
    let (c, calls) = start ctx in let (c', calls') = inputs c events in (c', calls ++ calls')

-- The pad at `sel` is connected and has the value `str`.
pub data Selects (c : Ctx) (str : List ℕ) : Type 0 where
  selects :
      (num : ℕ) → c.sel ≡ pos num → get_elem? c.inputs num ≡ some (some (some str)) → Selects c str

get_elem?-lt : {A : Type 0} (xs : List A) (n : ℕ) (x : A) → get_elem? xs n ≡ some x → n < length xs
get_elem?-lt [] n x e = cc
get_elem?-lt (y ∷ xs) zero x e = omega arith
get_elem?-lt (y ∷ xs) (suc n) x e = let rest = get_elem?-lt xs n x e in omega arith

in_range :
    (c : Ctx) (num : ℕ)
    → c.sel ≡ pos num
    → num < length c.inputs
    → (leb_ℤ (pos 0) c.sel && ltb_ℤ c.sel (pos (length c.inputs))) ≡ true
in_range c num s lt = ground arith

update_output-last :
    (c : Ctx) (old : Option (List ℕ)) (str : List ℕ)
    → Selects c str
    → last_value old (update_output c) ≡ some str
unfolding update_output last_value
update_output-last c old str (selects num s g) =
    rw (in_range c num s (get_elem?-lt c.inputs num (some (some str)) g), s, g) refl

input-last :
    (c : Ctx) (pad : Pad) (value : List ℕ) (old : Option (List ℕ)) (str : List ℕ)
    → Selects (input c pad value).0 str
    → last_value old (input c pad value).1 ≡ some str
unfolding input last_value
input-last c sel value old str h = update_output-last (input c sel value).0 old str h
input-last c (in_ num) value old str h =
    update_output-last (input c (in_ num) value).0 (if num + 1 == 0 then some value else old) str h

inputs-last :
    (c : Ctx) (events : List (Pad × List ℕ)) (old : Option (List ℕ))
    → ((str : List ℕ) → Selects c str → old ≡ some str)
    → (str : List ℕ) → Selects (inputs c events).0 str
    → last_value old (inputs c events).1 ≡ some str
unfolding inputs last_value
inputs-last c [] old h str s = h str s
inputs-last c ((pad, value) ∷ events) old h str s =
    let d = (input c pad value).0 in
    let calls = (input c pad value).1 in
    rw (last_value-append old calls (inputs d events).1)
      (inputs-last d events (last_value old calls) (input-last c pad value old) str s)

-- A multiplexer that was started and then got any inputs: if the selected pad is connected and
-- has a value, the output was sent last that value.
pub run-last_value :
    (c : Ctx) (events : List (Pad × List ℕ)) (str : List ℕ)
    → Selects (run c events).0 str
    → last_value none (run c events).1 ≡ some str
unfolding run
run-last_value c events str s =
    rw (last_value-append none (start c).1 (inputs (start c).0 events).1) (
      inputs-last (start c).0 events (last_value none (start c).1) (update_output-last c none) str
        s)
