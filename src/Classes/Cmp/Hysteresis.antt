-- ===== src/Classes/Cmp/Hysteresis.antt =====
-- classes/cmp/main.c: the output over a run of inputs.
use hakit.Base.{
  ap, ℕ, ◌≡◌, refl, sym, subst, ◌∙◌, true, Option, none, some, List, [], ◌∷◌, ◌++◌, ℤ, pos, negsuc,
  ◌+ℤ◌, ◌-ℤ◌, ◌≤ℤ◌, leb_ℤ, ltb_ℤ, eq_ℤ, ◌==◌, if◌then◌else◌, ◌||◌, ◌&&◌, not, arith, +ℤ_parts,
  -ℤ_parts, atoi,
}
use hakit.Core.Prop.{Props}
use hakit.Classes.Calls.{Call, last_sent, last_sent-append}
use hakit.Classes.Cmp.{Ctx, Pad, ref, in_, new, start, input, compare, drive, set_state, int_of}

unfoldable pub inputs : Ctx → List (Pad × List ℕ) → Ctx × List Call
unfolding input
inputs ctx [] = (ctx, [])
inputs ctx ((pad, value) ∷ events) =
    let (c, calls) = input ctx pad value in
    let (c', calls') = inputs c events in (c', calls ++ calls')

-- An object gets some inputs before it is started, and some after.
unfoldable pub run : Props → List (Pad × List ℕ) → List (Pad × List ℕ) → Ctx × List Call
unfolding new inputs start
run props early late =
    let (c, calls) = inputs (new props) early in
    let (c', calls') = start c in
    let (c'', calls'') = inputs c' late in (c'', calls ++ (calls' ++ calls''))

-- The output is -1, 0 or 1, and within the hysteresis of what the comparison says: 0 only while the
-- input is at most the reference and the hysteresis, 1 only while it is above their difference. What
-- was sent last is the output, once there is one.
abbrev pub IsValid : Ctx → Option ℤ → Type 0
IsValid c sent =
    (negsuc 0 ≤ℤ c.out)
    × (c.out ≤ℤ pos 1)
    × ((not (eq_ℤ c.out (pos 0)) || leb_ℤ c.input (c.reference +ℤ c.hysteresis)) ≡ true)
    × ((not (eq_ℤ c.out (pos 1)) || ltb_ℤ (c.reference -ℤ c.hysteresis) c.input) ≡ true)
    × (sent ≡ (if not (c.started == 0) && leb_ℤ (pos 0) c.out then some c.out else none))

-- The reference plus or minus the hysteresis is an `int`.
abbrev pub InRange : ℤ → ℤ → Type 0
InRange h reference = (negsuc 2147483647 ≤ℤ (reference -ℤ h)) × ((reference +ℤ h) ≤ℤ pos 2147483647)

abbrev pub AllInRange : ℤ → List (Pad × List ℕ) → Type 0
AllInRange h [] = Unit {0}
AllInRange h ((ref, value) ∷ events) = InRange h (atoi value) × AllInRange h events
AllInRange h ((in_, value) ∷ events) = AllInRange h events

-- The value that each pad got last, or else had before.
abbrev pub last_ref : ℤ → List (Pad × List ℕ) → ℤ
last_ref old [] = old
last_ref old ((ref, value) ∷ events) = last_ref (atoi value) events
last_ref old ((in_, value) ∷ events) = last_ref old events

abbrev pub last_in : ℤ → List (Pad × List ℕ) → ℤ
last_in old [] = old
last_in old ((ref, value) ∷ events) = last_in old events
last_in old ((in_, value) ∷ events) = last_in (atoi value) events

int_of-same : (x : ℤ) → negsuc 2147483647 ≤ℤ x → x ≤ℤ pos 2147483647 → int_of x ≡ x
unfolding int_of
int_of-same x lo hi = ground (arith, lo, hi)

compare-InRange :
    (c : Ctx)
    → pos 0 ≤ℤ c.hysteresis
    → InRange c.hysteresis c.reference
    → compare c ≡ (
        if leb_ℤ c.input (c.reference -ℤ c.hysteresis)
        then pos 0
        else if ltb_ℤ (c.reference +ℤ c.hysteresis) c.input
        then pos 1
        else c.out)
unfolding compare
compare-InRange c h (lo, hi) =
    rw
      (
        compare,
        int_of-same (c.reference -ℤ c.hysteresis) lo
            (omega (arith, +ℤ_parts c.reference c.hysteresis, -ℤ_parts c.reference c.hysteresis)),
        int_of-same (c.reference +ℤ c.hysteresis)
            (omega (arith, +ℤ_parts c.reference c.hysteresis, -ℤ_parts c.reference c.hysteresis))
            hi,
      )
      refl

drive-IsValid :
    (c : Ctx) (out : ℤ) (sent : Option ℤ)
    → out ≡ (
        if leb_ℤ c.input (c.reference -ℤ c.hysteresis)
        then pos 0
        else if ltb_ℤ (c.reference +ℤ c.hysteresis) c.input
        then pos 1
        else c.out)
    → pos 0 ≤ℤ c.hysteresis
    → negsuc 0 ≤ℤ c.out
    → c.out ≤ℤ pos 1
    → sent ≡ (if not (c.started == 0) && leb_ℤ (pos 0) c.out then some c.out else none)
    → IsValid (drive c out).0 (last_sent 0 sent (drive c out).1)
unfolding drive last_sent
drive-IsValid c out sent e h lo hi s =
    ground (arith, +ℤ_parts c.reference c.hysteresis, -ℤ_parts c.reference c.hysteresis)

drive-fixed :
    (c : Ctx) (out : ℤ)
    → ((drive c out).0.hysteresis ≡ c.hysteresis)
      × ((drive c out).0.started ≡ c.started)
      × ((drive c out).0.reference ≡ c.reference)
      × ((drive c out).0.input ≡ c.input)
unfolding drive
drive-fixed c out = ground arith

input-hysteresis :
    (c : Ctx) (pad : Pad) (value : List ℕ) → (input c pad value).0.hysteresis ≡ c.hysteresis
unfolding input
input-hysteresis c ref value = let d = set_state c ref (atoi value) in (drive-fixed d (compare d)).0
input-hysteresis c in_ value = let d = set_state c in_ (atoi value) in (drive-fixed d (compare d)).0

input-states :
    (c : Ctx) (pad : Pad) (value : List ℕ) (events : List (Pad × List ℕ))
    → (last_ref (input c pad value).0.reference events
        ≡ last_ref c.reference ((pad, value) ∷ events))
      × (last_in (input c pad value).0.input events ≡ last_in c.input ((pad, value) ∷ events))
unfolding input
input-states c ref value events =
    let d = set_state c ref (atoi value) in
    let (h, s, r, i) = drive-fixed d (compare d) in
    (ap (λ x. last_ref x events) r, ap (λ x. last_in x events) i)
input-states c in_ value events =
    let d = set_state c in_ (atoi value) in
    let (h, s, r, i) = drive-fixed d (compare d) in
    (ap (λ x. last_ref x events) r, ap (λ x. last_in x events) i)

inputs-states :
    (c : Ctx) (events : List (Pad × List ℕ))
    → ((inputs c events).0.reference ≡ last_ref c.reference events)
      × ((inputs c events).0.input ≡ last_in c.input events)
unfolding inputs
inputs-states c [] = (refl, refl)
inputs-states c ((pad, value) ∷ events) =
    let d = (input c pad value).0 in
    (
      (inputs-states d events).0 ∙ (input-states c pad value events).0,
      (inputs-states d events).1 ∙ (input-states c pad value events).1,
    )

-- What the inputs need and keep.
abbrev Holds : ℤ → Ctx → Option ℤ → Type 0
Holds h c sent = (c.hysteresis ≡ h) × InRange h c.reference × IsValid c sent

InRange-of_eq : (r : ℤ) {h h' : ℤ} → h ≡ h' → InRange h r → InRange h' r
InRange-of_eq r e ok = subst (λ h. InRange h r) e ok

input-IsValid :
    (h : ℤ) (c : Ctx) (pad : Pad) (value : List ℕ) (events : List (Pad × List ℕ)) (sent : Option ℤ)
    → pos 0 ≤ℤ h
    → AllInRange h ((pad, value) ∷ events)
    → Holds h c sent
    → Holds h (input c pad value).0 (last_sent 0 sent (input c pad value).1) × AllInRange h events
unfolding input
input-IsValid h c ref value events sent nn (ok, oks) (same, range, (lo, hi, a, b, s)) =
    let d = set_state c ref (atoi value) in
    let (dh, ds, dr, di) = drive-fixed d (compare d) in
    let nn' = subst (λ x. pos 0 ≤ℤ x) (sym same) nn in
    (
      (
        dh ∙ same,
        subst (InRange h) (sym dr) ok,
        drive-IsValid d (compare d) sent
            (compare-InRange d nn' (InRange-of_eq (atoi value) (sym same) ok)) nn' lo hi s,
      ),
      oks,
    )
input-IsValid h c in_ value events sent nn oks (same, range, (lo, hi, a, b, s)) =
    let d = set_state c in_ (atoi value) in
    let (dh, ds, dr, di) = drive-fixed d (compare d) in
    let nn' = subst (λ x. pos 0 ≤ℤ x) (sym same) nn in
    (
      (
        dh ∙ same,
        subst (InRange h) (sym dr) range,
        drive-IsValid d (compare d) sent
            (compare-InRange d nn' (InRange-of_eq c.reference (sym same) range)) nn' lo hi s,
      ),
      oks,
    )

inputs-IsValid :
    (h : ℤ) (c : Ctx) (events : List (Pad × List ℕ)) (sent : Option ℤ)
    → pos 0 ≤ℤ h
    → AllInRange h events
    → Holds h c sent
    → Holds h (inputs c events).0 (last_sent 0 sent (inputs c events).1)
unfolding inputs last_sent
inputs-IsValid h c [] sent nn ok v = v
inputs-IsValid h c ((pad, value) ∷ events) sent nn ok v =
    let (d, calls) = input c pad value in
    let (v', oks) = input-IsValid h c pad value events sent nn ok v in
    rw (last_sent-append 0 sent calls (inputs d events).1)
      (inputs-IsValid h d events (last_sent 0 sent calls) nn oks v')

start-Holds :
    (h : ℤ) (c : Ctx) (sent : Option ℤ)
    → Holds h c sent
    → Holds h (start c).0 (last_sent 0 sent (start c).1)
unfolding start last_sent
start-Holds h c sent (same, range, v) = (same, range, ground arith)

new-Holds :
    (props : Props)
    → pos 0 ≤ℤ (new props).hysteresis
    → (new props).hysteresis ≤ℤ pos 2147483647
    → Holds (new props).hysteresis (new props) none
unfolding new
new-Holds props nn small =
    let h = (new props).hysteresis in
    (refl, (omega (arith, -ℤ_parts (pos 0) h), omega (arith, +ℤ_parts (pos 0) h)), ground arith)

-- A comparator whose hysteresis is not negative, that got any inputs, was started and got any more, where no
-- reference plus or minus the hysteresis leaves the range of `int`: its reference and its input are the latest
-- values of their pads; its output is -1, 0 or 1; it is 0 only while the input is at most the reference plus
-- the hysteresis, and 1 only while the input is above the reference minus the hysteresis; nothing was sent
-- while it is -1, and else it is the value that was sent last.
pub run-IsValid :
    (props : Props) (early late : List (Pad × List ℕ))
    → pos 0 ≤ℤ (new props).hysteresis
    → (new props).hysteresis ≤ℤ pos 2147483647
    → AllInRange (new props).hysteresis early
    → AllInRange (new props).hysteresis late
    → IsValid (run props early late).0 (last_sent 0 none (run props early late).1)
      × ((run props early late).0.reference ≡ last_ref (last_ref (pos 0) early) late)
      × ((run props early late).0.input ≡ last_in (last_in (pos 0) early) late)
unfolding run start new
run-IsValid props early late nn small ok ok' =
    let h = (new props).hysteresis in
    let (c, calls) = inputs (new props) early in
    let (d, calls') = start c in
    let (d', calls'') = inputs d late in
    let sent = last_sent 0 none calls in
    let held = inputs-IsValid h (new props) early none nn ok (new-Holds props nn small) in
    let held' =
      inputs-IsValid h d late (last_sent 0 sent calls') nn ok' (start-Holds h c sent held) in
    (
      subst (IsValid d')
          (sym (
            last_sent-append 0 none calls (calls' ++ calls'')
            ∙ last_sent-append 0 sent calls' calls''))
          held'.2,
      (inputs-states d late).0 ∙ ap (λ x. last_ref x late) (inputs-states (new props) early).0,
      (inputs-states d late).1 ∙ ap (λ x. last_in x late) (inputs-states (new props) early).1,
    )
