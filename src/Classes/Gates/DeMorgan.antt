-- ===== src/Classes/Gates/DeMorgan.antt =====
-- classes/and, classes/or and classes/not: an inverted AND gate is an OR gate behind inverters.
use hakit.Base.{
  ℕ, ◌-◌, ◌≡◌, refl, sym, ap, ◌∙◌, Option, none, some, List, [], ◌∷◌, ◌==◌, if◌then◌else◌, ◌||◌,
  not, zero, suc, arith, Bool-cases, inl, inr, map, set, show_ℤ,
}
use hakit.Classes.Calls.{Call, last_sent, bit_xor, as_bit, as_bit-show_ℤ}
use hakit.Classes.And
use hakit.Classes.Or
use hakit.Classes.Not
use hakit.Classes.Gates.Output.{and_inputs, or_inputs, and_run, or_run}

-- The text that an inverter's output pad passes on when its input gets `value`.
unfoldable pub negate : List ℕ → List ℕ
unfolding Not.input last_sent
negate value = elim (last_sent 0 none (Not.input Not.new value).1) [
  | none ↦ []
  | some sent ↦ show_ℤ sent
]

abbrev pub negate_all : List (ℕ × List ℕ) → List (ℕ × List ℕ)
negate_all [] = []
negate_all ((num, value) ∷ events) = (num, negate value) ∷ negate_all events

abbrev flip : ℕ → ℕ
flip s = if s == 0 then 1 else 0

abbrev flip_pad : Option ℕ → Option ℕ
flip_pad none = none
flip_pad (some s) = some (flip s)

flip_lem : (value : List ℕ) → (if 1 - as_bit value == 0 then 0 else 1) ≡ flip (as_bit value)
unfolding as_bit
flip_lem value = ground arith

as_bit-negate : (value : List ℕ) → as_bit (negate value) ≡ flip (as_bit value)
unfolding negate
as_bit-negate value = as_bit-show_ℤ (1 - as_bit value) ∙ flip_lem value

out_state-flip :
    (inputs : List (Option ℕ))
    → bit_xor (And.out_state inputs) 1 ≡ Or.out_state (map flip_pad inputs)
unfolding And.out_state Or.out_state
out_state-flip [] = refl
out_state-flip (none ∷ inputs) = out_state-flip inputs
out_state-flip (some s ∷ inputs) = ground (arith, out_state-flip inputs)

-- The OR gate that has the flipped inputs of `c`.
abbrev pub mirror : And.Ctx → Or.Ctx
mirror c = record {
  inputs = map flip_pad c.inputs;
  inv = 0;
  output = c.output;
  refresh = c.refresh;
}

abbrev mirrored : And.Ctx × List Call → Or.Ctx × List Call
mirrored (c, calls) = (mirror c, calls)

set-map :
    (xs : List (Option ℕ)) (n : ℕ) (x : Option ℕ)
    → set (map flip_pad xs) n (flip_pad x) ≡ map flip_pad (set xs n x)
set-map [] n x = ground arith
set-map (y ∷ xs) zero x = refl
set-map (y ∷ xs) (suc n) x = ap (λ ys. flip_pad y ∷ ys) (set-map xs n x)

drive-mirror : (c : And.Ctx) (out : ℕ) → Or.drive (mirror c) out ≡ mirrored (And.drive c out)
unfolding And.drive Or.drive
drive-mirror c out = elim (Bool-cases (not (out == c.output) || not (c.refresh == 0))) [
  | inl e ↦ rw e refl
  | inr e ↦ rw e refl
]

level-flip :
    (c : And.Ctx)
    → c.inv ≡ 1
    → (if c.inv == 0 then And.out_state c.inputs else bit_xor (And.out_state c.inputs) 1)
      ≡ Or.out_state (map flip_pad c.inputs)
level-flip c e = ground (arith, out_state-flip c.inputs)

update-mirror : (c : And.Ctx) → c.inv ≡ 1 → Or.update (mirror c) ≡ mirrored (And.update c)
unfolding And.update Or.update
update-mirror c e =
    drive-mirror c (Or.out_state (map flip_pad c.inputs))
    ∙ ap (λ out. mirrored (And.drive c out)) (sym (level-flip c e))

drive-inv : (c : And.Ctx) (out : ℕ) → (And.drive c out).0.inv ≡ c.inv
unfolding And.drive
drive-inv c out = ground arith

update-inv : (c : And.Ctx) → (And.update c).0.inv ≡ c.inv
unfolding And.update
update-inv c =
    drive-inv c (if c.inv == 0 then And.out_state c.inputs else bit_xor (And.out_state c.inputs) 1)

input-mirror :
    (c : And.Ctx) (num : ℕ) (value : List ℕ)
    → c.inv ≡ 1
    → Or.input (mirror c) num (negate value) ≡ mirrored (And.input c num value)
unfolding And.input Or.input
input-mirror c num value e =
    rw (as_bit-negate value, set-map c.inputs num (some (as_bit value)))
      (update-mirror (record c { inputs = And.set_state c.inputs num (as_bit value) }) e)

input-inv : (c : And.Ctx) (num : ℕ) (value : List ℕ) → (And.input c num value).0.inv ≡ c.inv
unfolding And.input
input-inv c num value = update-inv (record c { inputs = And.set_state c.inputs num (as_bit value) })

inputs-mirror :
    (c : And.Ctx) (events : List (ℕ × List ℕ))
    → c.inv ≡ 1
    → or_inputs (mirror c) (negate_all events) ≡ mirrored (and_inputs c events)
unfolding and_inputs or_inputs
inputs-mirror c [] e = refl
inputs-mirror c ((num, value) ∷ events) e =
    rw (input-mirror c num value e)
      (rw (inputs-mirror (And.input c num value).0 events (input-inv c num value ∙ e)) refl)

-- An inverted AND gate and an OR gate that is not inverted, with the same connections, opposite
-- input states and the same output: when each input of the AND gate reaches the OR gate through
-- an inverter, both send the same values, in the same order, from the start on.
pub and_run-de_morgan :
    (c : And.Ctx) (events : List (ℕ × List ℕ))
    → c.inv ≡ 1
    → (or_run (mirror c) (negate_all events)).1 ≡ (and_run c events).1
unfolding and_run or_run
and_run-de_morgan c events e =
    rw (update-mirror c e) (rw (inputs-mirror (And.start c).0 events (update-inv c ∙ e)) refl)
