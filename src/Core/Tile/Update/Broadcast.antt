-- ===== src/Core/Tile/Update/Broadcast.antt =====
-- core/mod.c: what an update brings about, where the handlers update nothing in their turn.
use hakit.Base.{
  ℕ, zero, suc, ◌≡◌, refl, sym, ap, ◌∙◌, Bool, true, false, Option, none, some, List, [], ◌∷◌, ◌==◌,
  ◌&&◌, not, if◌then◌else◌, get_elem?, arith, ℕ_discrete, Bool-cases, Option-cases, inl, inr,
}
use hakit.Core.Tile.{Pad, Tile, modify, net_of, pads_of}
use hakit.Core.Tile.Connections.{get_elem?-modify_ne}
use hakit.Core.Tile.Update.{
  World, Call, update_str, update_input, Handler, is_out, set_value, set_lock, pad_dir, pad_lock,
  notify, update_all, unlock, update_net, handle, run,
}

-- The pads that hear of an update of pad `p`: the others that are not outputs and not locked.
abbrev pub is_receiver : Tile → ℕ → ℕ → Bool
is_receiver t p q =
    not (q == p)
    && not (is_out (pad_dir (get_elem? t.pads q)))
    && not (pad_lock (get_elem? t.pads q))

unfoldable pub receivers : Tile → ℕ → List ℕ → List ℕ
receivers t p [] = []
receivers t p (q ∷ qs) = let rest = receivers t p qs in if is_receiver t p q then q ∷ rest else rest

receivers-cons_no :
    (t : Tile) (p q : ℕ) (qs : List ℕ)
    → is_receiver t p q ≡ false
    → receivers t p (q ∷ qs) ≡ receivers t p qs
unfolding receivers
receivers-cons_no t p q qs e = rw e refl

receivers-cons_yes :
    (t : Tile) (p q : ℕ) (qs : List ℕ)
    → is_receiver t p q ≡ true
    → receivers t p (q ∷ qs) ≡ q ∷ receivers t p qs
unfolding receivers
receivers-cons_yes t p q qs e = rw e refl

and_assoc : (a b c : Bool) → (a && b) && c ≡ a && b && c
and_assoc true b c = refl
and_assoc false b c = refl

is_receiver-parts :
    (t : Tile) (p q : ℕ) (b c : Bool)
    → not (q == p) && not (is_out (pad_dir (get_elem? t.pads q))) ≡ b
    → pad_lock (get_elem? t.pads q) ≡ c
    → is_receiver t p q ≡ b && not c
is_receiver-parts t p q b c e f =
    sym (
      and_assoc (not (q == p)) (not (is_out (pad_dir (get_elem? t.pads q))))
        (not (pad_lock (get_elem? t.pads q))))
    ∙ ap (λ x. x && not (pad_lock (get_elem? t.pads q))) e
    ∙ ap (λ x. b && not x) f

receivers-nil : (t : Tile) (p : ℕ) → receivers t p [] ≡ []
unfolding receivers
receivers-nil t p = refl

-- Writes to pad `p` do not change who receives.
receivers-modify :
    (t : Tile) (p : ℕ) (f : Pad → Pad) (qs : List ℕ)
    → receivers (record t { pads = modify t.pads p f }) p qs ≡ receivers t p qs
unfolding receivers
receivers-modify t p f [] = refl
receivers-modify t p f (q ∷ qs) = elim (ℕ_discrete p q) [
  | yes e ↦ rw (← e) (
      receivers-cons_no (record t { pads = modify t.pads p f }) p p qs
        (self (record t { pads = modify t.pads p f }))
      ∙ receivers-modify t p f qs
      ∙ sym (receivers-cons_no t p p qs (self t)))
  | no ne ↦ rw (get_elem?-modify_ne t.pads p q f ne, receivers-modify t p f qs) refl
]
  where
    self : (u : Tile) → is_receiver u p p ≡ false
    self u = ground arith

abbrev pub feed : {S : Type 0} → Option (Handler S) → List ℕ → S → S
feed none value s = s
feed (some handler) value s = (handler s value).0

-- The value is given to one handler after the other.
unfoldable pub feed_all : {S : Type 0} → (ℕ → Option (Handler S)) → List ℕ → List ℕ → S → S
feed_all input value [] s = s
feed_all input value (q ∷ qs) s = feed_all input value qs (feed (input q) value s)

relock :
    (pads : List Pad) (q : ℕ)
    → pad_lock (get_elem? pads q) ≡ false
    → modify
        (modify pads q (λ pad. record pad { lock = true }))
        q
        (λ pad. record pad { lock = false })
      ≡ pads
unfolding modify
relock [] q free = refl
relock (pad ∷ pads) zero free = ap (λ b. record pad { lock = b } ∷ pads) (sym free)
relock (pad ∷ pads) (suc q) free = ap (◌∷◌ pad) (relock pads q free)

module _ {S : Type 0} (input : ℕ → Option (Handler S))
    (quiet : (q : ℕ) (handler : Handler S) (s : S) (value : List ℕ)
      → input q ≡ some handler
      → (handler s value).1 ≡ []) where
  handle-feed :
      (call : World S → Call → Option (World S)) (w : World S) (q : ℕ) (value : List ℕ)
      (handler : Handler S)
      → (handler w.state value).1 ≡ []
      → pad_lock (get_elem? w.tile.pads q) ≡ false
      → handle input call w q value (some handler)
        ≡ some (record { tile = w.tile; state = (handler w.state value).0 })
  unfolding handle update_all
  handle-feed call w q value handler still free =
      rw (handle, still)
        (ap
          (λ l.
            some (record { tile = record w.tile { pads = l }; state = (handler w.state value).0 }))
          (relock w.tile.pads q free))

  input-feed :
      (fuel : ℕ) (w : World S) (q : ℕ) (value : List ℕ)
      → pad_lock (get_elem? w.tile.pads q) ≡ false
      → run input (suc fuel) w (update_input q value)
        ≡ some (record { tile = w.tile; state = feed (input q) value w.state })
  unfolding run handle
  input-feed fuel w q value free = elim (Option-cases (input q)) [
    | inl e ↦ rw (run, free, e) refl
    | inr (handler, e) ↦
        rw (run, free, e)
          (handle-feed (run input fuel) w q value handler (quiet q handler w.state value e) free)
  ]

  input-locked :
      (fuel : ℕ) (w : World S) (q : ℕ) (value : List ℕ)
      → pad_lock (get_elem? w.tile.pads q) ≡ true
      → run input (suc fuel) w (update_input q value) ≡ some w
  unfolding run
  input-locked fuel w q value locked = rw (run, locked) refl

  -- What the handlers of the pads of a list leave.
  abbrev fed : List ℕ → World S → List ℕ → Option (World S)
  fed value w l = some (record { tile = w.tile; state = feed_all input value l w.state })

  notify-feed_all :
      (fuel p : ℕ) (value qs : List ℕ) (w : World S)
      → notify (run input (suc fuel)) p value qs w ≡ fed value w (receivers w.tile p qs)
  unfolding notify feed_all
  notify-feed_all fuel p value [] w = ap (fed value w) (sym (receivers-nil w.tile p))
  notify-feed_all fuel p value (q ∷ qs) w =
      elim (Bool-cases (not (q == p) && not (is_out (pad_dir (get_elem? w.tile.pads q))))) [
        | inr e ↦
            rw (notify, e)
              (notify-feed_all fuel p value qs w
                ∙ ap (fed value w) (
                    sym (
                      receivers-cons_no w.tile p q qs (
                        is_receiver-parts w.tile p q false (pad_lock (get_elem? w.tile.pads q)) e
                          refl))))
        | inl e ↦ elim (Bool-cases (pad_lock (get_elem? w.tile.pads q))) [
          | inl locked ↦
              rw (notify, e, input-locked fuel w q value locked)
                (notify-feed_all fuel p value qs w
                  ∙ ap (fed value w) (
                      sym (
                        receivers-cons_no w.tile p q qs
                          (is_receiver-parts w.tile p q true true e locked))))
          | inr free ↦
              rw (notify, e, input-feed fuel w q value free)
                (notify-feed_all fuel p value qs
                    (record { tile = w.tile; state = feed (input q) value w.state })
                  ∙ ap (fed value w) (
                      sym (
                        receivers-cons_yes w.tile p q qs
                          (is_receiver-parts w.tile p q true false e free))))
        ]
      ]

  -- Where the handlers update nothing in their turn, an update of a pad on a net gives the value to the
  -- handler of each other pad of the net that is neither an output nor locked, in the order of the
  -- net, and leaves the pad with the value and unlocked, and all other pads as they are.
  pub run-feed_all :
      (fuel : ℕ) (w : World S) (p n : ℕ) (value : List ℕ)
      → net_of w.tile p ≡ some n
      → run input (suc (suc fuel)) w (update_str p value)
        ≡ some (record {
          tile = set_lock (set_lock (set_value w.tile p value) p true) p false;
          state = feed_all input value (receivers w.tile p (pads_of w.tile n)) w.state;
        })
  unfolding run update_net
  run-feed_all fuel w p n value net =
      rw (run, net)
        (ap (unlock p) (
          notify-feed_all fuel p value (pads_of w.tile n)
            (record w { tile = set_lock (set_value w.tile p value) p true })
          ∙ ap (fed value (record w { tile = set_lock (set_value w.tile p value) p true })) (
              receivers-modify (set_value w.tile p value) p (λ pad. record pad { lock = true })
                (pads_of w.tile n)
              ∙ receivers-modify w.tile p (λ pad. record pad { value = some value })
                  (pads_of w.tile n))))
