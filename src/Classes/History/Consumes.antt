-- ===== src/Classes/History/Consumes.antt =====
-- classes/history: the reader over the entries that the writer makes.
use hakit.Base.{
  ℕ, zero, suc, ◌+◌, ◌-◌, ◌≤◌, ◌≡◌, refl, sym, ap, ◌∙◌, Option, none, some, List, [], ◌∷◌, ◌++◌,
  length, arith, append-nil, append_assoc, length-append,
}
use hakit.Classes.History.Reader.{Line, State, dump_op, dump_from, dump_file, start}

abbrev pub prepend : List Line → Option (List Line) → Option (List Line)
prepend lines none = none
prepend lines (some more) = some (lines ++ more)

-- From `st` the reader goes over `bytes` to `st'` and prints `lines`, whatever follows.
pub record Consumes (st : State) (bytes : List ℕ) (st' : State) (lines : List Line) : Type 0 where
  pub ops : ℕ
  pub enough : ops ≤ length bytes
  pub reads :
      (fuel left : ℕ) (rest : List ℕ)
      → fuel ≡ ops + left
      → dump_from fuel st (bytes ++ rest) ≡ prepend lines (dump_from left st' rest)

prepend-nil : (o : Option (List Line)) → o ≡ prepend [] o
prepend-nil none = refl
prepend-nil (some more) = refl

prepend-prepend :
    (l1 l2 : List Line) (o : Option (List Line)) → prepend l1 (prepend l2 o) ≡ prepend (l1 ++ l2) o
prepend-prepend l1 l2 none = refl
prepend-prepend l1 l2 (some more) = ap some (sym (append_assoc l1 l2 more))

dump_from_fuel :
    (f g : ℕ) (st : State) (bytes : List ℕ) → f ≡ g → dump_from f st bytes ≡ dump_from g st bytes
dump_from_fuel f g st bytes e = cc

dump_from-nil : (f : ℕ) (st : State) → dump_from f st [] ≡ some []
unfolding dump_from
dump_from-nil zero st = refl
dump_from-nil (suc f) st = refl

dump_from-op :
    (f : ℕ) (st st' : State) (op : ℕ) (more rest : List ℕ) (lines : List Line)
    → dump_op st op more ≡ some (st', lines, rest)
    → dump_from (suc f) st (op ∷ more) ≡ prepend lines (dump_from f st' rest)
unfolding dump_from
dump_from-op f st st' op more rest lines h = ground (arith, h)

pub Consumes-nil : (st : State) → Consumes st [] st []
Consumes-nil st = record {
  ops = 0;
  enough = omega arith;
  reads = λ fuel left rest e.
      ap (λ k. dump_from k st rest) {x = fuel} {y = left} (omega arith)
      ∙ prepend-nil (dump_from left st rest);
}

pub Consumes-append :
    (st st1 st2 : State) (b1 b2 : List ℕ) (l1 l2 : List Line)
    → Consumes st b1 st1 l1
    → Consumes st1 b2 st2 l2
    → Consumes st (b1 ++ b2) st2 (l1 ++ l2)
Consumes-append st st1 st2 b1 b2 l1 l2 c1 c2 = record {
  ops = c1.ops + c2.ops;
  enough = omega (arith, length-append b1 b2, c1.enough, c2.enough);
  reads = λ fuel left rest e. rw (append_assoc b1 b2 rest) (
      c1.reads fuel (c2.ops + left) (b2 ++ rest) (omega arith)
      ∙ ap (prepend l1) (c2.reads (c2.ops + left) left rest refl)
      ∙ prepend-prepend l1 l2 (dump_from left st2 rest));
}

pub Consumes-op :
    (st st' : State) (op : ℕ) (bs : List ℕ) (lines : List Line)
    → ((rest : List ℕ) → dump_op st op (bs ++ rest) ≡ some (st', lines, rest))
    → Consumes st (op ∷ bs) st' lines
Consumes-op st st' op bs lines h = record {
  ops = 1;
  enough = omega arith;
  reads = λ fuel left rest e.
      rw (dump_from_fuel fuel (suc left) st (op ∷ (bs ++ rest)) (omega arith))
        (dump_from-op left st st' op (bs ++ rest) rest lines (h rest));
}

pub Consumes-dump_file :
    (st : State) (bytes : List ℕ) (lines : List Line)
    → Consumes start bytes st lines
    → dump_file bytes ≡ some lines
unfolding dump_file
Consumes-dump_file st bytes lines c =
    ap (λ b. dump_from (length bytes) start b) (sym (append-nil bytes))
    ∙ c.reads (length bytes) (length bytes - c.ops) [] (omega (arith, c.enough))
    ∙ ap (prepend lines) (dump_from-nil (length bytes - c.ops) st)
    ∙ ap some (append-nil lines)
