-- ===== src/Classes/Gates/Output.antt =====
-- classes/and/main.c, classes/or/main.c: what a gate has sent after any run of inputs.
use hakit.Base.{
  ℕ, ◌≡◌, refl, ap, ◌∙◌, Bool, true, Option, none, some, List, [], ◌∷◌, ◌++◌, ℤ, pos, ◌==◌,
  if◌then◌else◌, ◌&&◌, not, arith,
}
use hakit.Classes.Calls.{Call, last_sent, last_sent-append, bit_xor, as_bit}
use hakit.Core.Prop.{Props}
use hakit.Classes.And
use hakit.Classes.Or

-- Each connected input satisfies `p`.
unfoldable pub every : (ℕ → Bool) → List (Option ℕ) → Bool
every p [] = true
every p (none ∷ inputs) = every p inputs
every p (some s ∷ inputs) = p s && every p inputs

-- What the output of a gate has to be.
abbrev pub and_level : And.Ctx → ℕ
unfolding every
and_level c =
    let on = every (λ s. not (s == 0)) c.inputs in
    if c.inv == 0 then (if on then 1 else 0) else (if on then 0 else 1)

abbrev pub or_level : Or.Ctx → ℕ
unfolding every
or_level c =
    let off = every (λ s. s == 0) c.inputs in
    if c.inv == 0 then (if off then 0 else 1) else (if off then 1 else 0)

-- A run of inputs: the number of the pad, and the value.
unfoldable pub and_inputs : And.Ctx → List (ℕ × List ℕ) → And.Ctx × List Call
unfolding And.input
and_inputs ctx [] = (ctx, [])
and_inputs ctx ((num, value) ∷ events) =
    let (c, calls) = And.input ctx num value in
    let (c', calls') = and_inputs c events in (c', calls ++ calls')

unfoldable pub or_inputs : Or.Ctx → List (ℕ × List ℕ) → Or.Ctx × List Call
unfolding Or.input
or_inputs ctx [] = (ctx, [])
or_inputs ctx ((num, value) ∷ events) =
    let (c, calls) = Or.input ctx num value in
    let (c', calls') = or_inputs c events in (c', calls ++ calls')

unfoldable pub and_run : And.Ctx → List (ℕ × List ℕ) → And.Ctx × List Call
unfolding and_inputs
and_run ctx events =
    let (c, calls) = And.start ctx in
    let (c', calls') = and_inputs c events in (c', calls ++ calls')

unfoldable pub or_run : Or.Ctx → List (ℕ × List ℕ) → Or.Ctx × List Call
unfolding or_inputs
or_run ctx events =
    let (c, calls) = Or.start ctx in let (c', calls') = or_inputs c events in (c', calls ++ calls')

and_out_state-every :
    (inputs : List (Option ℕ))
    → And.out_state inputs ≡ (if every (λ s. not (s == 0)) inputs then 1 else 0)
unfolding And.out_state every
and_out_state-every [] = refl
and_out_state-every (none ∷ inputs) = and_out_state-every inputs
and_out_state-every (some s ∷ inputs) = ground (arith, and_out_state-every inputs)

or_out_state-every :
    (inputs : List (Option ℕ)) → Or.out_state inputs ≡ (if every (λ s. s == 0) inputs then 0 else 1)
unfolding Or.out_state every
or_out_state-every [] = refl
or_out_state-every (none ∷ inputs) = or_out_state-every inputs
or_out_state-every (some s ∷ inputs) = ground (arith, or_out_state-every inputs)

-- Between handlers the gate's output is what it has to be, and is what was sent last.
abbrev AndSettled : And.Ctx → Option ℤ → Type 0
unfolding every
AndSettled c sent = (c.refresh ≡ 0) × (c.output ≡ and_level c) × (sent ≡ some (pos c.output))

and_level_lem :
    (c : And.Ctx)
    → (if c.inv == 0 then And.out_state c.inputs else bit_xor (And.out_state c.inputs) 1)
      ≡ and_level c
unfolding and_level
and_level_lem c = rw (and_out_state-every c.inputs) (ground arith)

and_drive :
    (c : And.Ctx) (out : ℕ) (sent : Option ℤ)
    → out ≡ and_level c
    → ((c.refresh ≡ 0) → sent ≡ some (pos c.output))
    → AndSettled (And.drive c out).0 (last_sent 0 sent (And.drive c out).1)
unfolding AndSettled And.drive last_sent
and_drive c out sent e h = ground arith

and_update :
    (c : And.Ctx) (sent : Option ℤ)
    → ((c.refresh ≡ 0) → sent ≡ some (pos c.output))
    → AndSettled (And.update c).0 (last_sent 0 sent (And.update c).1)
unfolding AndSettled And.update
and_update c sent h =
    and_drive c (if c.inv == 0 then And.out_state c.inputs else bit_xor (And.out_state c.inputs) 1)
      sent (and_level_lem c) h

-- Between handlers the gate's output is what it has to be, and is what was sent last.
abbrev OrSettled : Or.Ctx → Option ℤ → Type 0
unfolding every
OrSettled c sent = (c.refresh ≡ 0) × (c.output ≡ or_level c) × (sent ≡ some (pos c.output))

or_level_lem :
    (c : Or.Ctx)
    → (if c.inv == 0 then Or.out_state c.inputs else bit_xor (Or.out_state c.inputs) 1) ≡ or_level c
unfolding or_level
or_level_lem c = rw (or_out_state-every c.inputs) (ground arith)

or_drive :
    (c : Or.Ctx) (out : ℕ) (sent : Option ℤ)
    → out ≡ or_level c
    → ((c.refresh ≡ 0) → sent ≡ some (pos c.output))
    → OrSettled (Or.drive c out).0 (last_sent 0 sent (Or.drive c out).1)
unfolding OrSettled Or.drive last_sent
or_drive c out sent e h = ground arith

or_update :
    (c : Or.Ctx) (sent : Option ℤ)
    → ((c.refresh ≡ 0) → sent ≡ some (pos c.output))
    → OrSettled (Or.update c).0 (last_sent 0 sent (Or.update c).1)
unfolding OrSettled Or.update
or_update c sent h =
    or_drive c (if c.inv == 0 then Or.out_state c.inputs else bit_xor (Or.out_state c.inputs) 1)
      sent (or_level_lem c) h

and_inputs-AndSettled :
    (c : And.Ctx) (events : List (ℕ × List ℕ)) (sent : Option ℤ)
    → AndSettled c sent
    → AndSettled (and_inputs c events).0 (last_sent 0 sent (and_inputs c events).1)
unfolding AndSettled and_inputs last_sent And.input
and_inputs-AndSettled c [] sent h = h
and_inputs-AndSettled c ((num, value) ∷ events) sent (r, o, s) =
    let d = record c { inputs = And.set_state c.inputs num (as_bit value) } in
    rw (last_sent-append 0 sent (And.update d).1 (and_inputs (And.update d).0 events).1) (
      and_inputs-AndSettled (And.update d).0 events (last_sent 0 sent (And.update d).1)
        (and_update d sent (λ e. s)))

or_inputs-OrSettled :
    (c : Or.Ctx) (events : List (ℕ × List ℕ)) (sent : Option ℤ)
    → OrSettled c sent
    → OrSettled (or_inputs c events).0 (last_sent 0 sent (or_inputs c events).1)
unfolding OrSettled or_inputs last_sent Or.input
or_inputs-OrSettled c [] sent h = h
or_inputs-OrSettled c ((num, value) ∷ events) sent (r, o, s) =
    let d = record c { inputs = Or.set_state c.inputs num (as_bit value) } in
    rw (last_sent-append 0 sent (Or.update d).1 (or_inputs (Or.update d).0 events).1) (
      or_inputs-OrSettled (Or.update d).0 events (last_sent 0 sent (Or.update d).1)
        (or_update d sent (λ e. s)))

and_run-AndSettled :
    (props : Props) (events : List (ℕ × List ℕ))
    → let (c, calls) = and_run (And.new props) events in AndSettled c (last_sent 0 none calls)
unfolding AndSettled and_run And.new
and_run-AndSettled props events =
    let c = And.new props in
    rw (last_sent-append 0 none (And.start c).1 (and_inputs (And.start c).0 events).1) (
      and_inputs-AndSettled (And.start c).0 events (last_sent 0 none (And.start c).1)
        (and_update c none (λ e. ground arith)))

-- An AND gate that was started and then got any inputs has sent a value; the value sent last is 1
-- exactly if every connected input is on, and the opposite if the gate is inverted.
pub and_run-last_sent :
    (props : Props) (events : List (ℕ × List ℕ))
    → let (c, calls) = and_run (And.new props) events in
      last_sent 0 none calls ≡ some (pos (and_level c))
unfolding AndSettled
and_run-last_sent props events =
    let (r, o, s) = and_run-AndSettled props events in s ∙ ap (λ n. some (pos n)) o

or_run-OrSettled :
    (props : Props) (events : List (ℕ × List ℕ))
    → let (c, calls) = or_run (Or.new props) events in OrSettled c (last_sent 0 none calls)
unfolding OrSettled or_run Or.new
or_run-OrSettled props events =
    let c = Or.new props in
    rw (last_sent-append 0 none (Or.start c).1 (or_inputs (Or.start c).0 events).1) (
      or_inputs-OrSettled (Or.start c).0 events (last_sent 0 none (Or.start c).1)
        (or_update c none (λ e. ground arith)))

-- An OR gate that was started and then got any inputs has sent a value; the value sent last is 0
-- exactly if every connected input is off, and the opposite if the gate is inverted.
pub or_run-last_sent :
    (props : Props) (events : List (ℕ × List ℕ))
    → let (c, calls) = or_run (Or.new props) events in
      last_sent 0 none calls ≡ some (pos (or_level c))
unfolding OrSettled
or_run-last_sent props events =
    let (r, o, s) = or_run-OrSettled props events in s ∙ ap (λ n. some (pos n)) o
