-- ===== src/Core/Tile/Update/Returns.antt =====
-- core/mod.c: an update ends, where the handlers update output pads only.
use hakit.Base.{
  ℕ, zero, suc, ◌+◌, ◌*◌, ◌≤◌, ◌≡◌, refl, sym, ap, ◌∙◌, true, false, Option, none, some, List, [],
  ◌∷◌, ◌==◌, ◌&&◌, not, get_elem?, arith, Bool-cases, Option-cases, inl, inr,
}
use hakit.Core.Tile.{Dir, Tile, net_of, pads_of}
use hakit.Core.Tile.Update.{
  World, Call, update_str, update_input, Handler, is_out, set_value, set_lock, pad_dir, pad_lock,
  notify, update_all, unlock, update_net, handle, run,
}
use hakit.Core.Tile.Update.Locks.{
  shut, dirs, open_pads, is_out_at, AllOut, shut-lock_out, put, shut-lock_in, put-open_pads,
  is_out_at-dirs, open_there, dirs-set_lock, dirs-set_value, shut-set_value,
}

module _ {S : Type 0} where
  -- A call returned, and left the directions and the locks of input pads as it found them.
  pub record Ends (w : World S) (result : Option (World S)) : Type 0 where
    pub world : World S
    pub returns : result ≡ some world
    pub same_dirs : dirs world.tile ≡ dirs w.tile
    pub same_shut : shut world.tile ≡ shut w.tile

  abbrev depth : World S → ℕ
  depth w = 2 * open_pads (shut w.tile)

  -- Calls with enough fuel end.
  abbrev InputsEnd : (World S → Call → Option (World S)) → List Dir → ℕ → Type 0
  InputsEnd call ds k =
      (w : World S) (q : ℕ) (value : List ℕ)
      → dirs w.tile ≡ ds
      → is_out_at ds q ≡ false
      → depth w + 1 ≤ k
      → Ends w (call w (update_input q value))

  abbrev UpdatesEnd : (World S → Call → Option (World S)) → List Dir → ℕ → Type 0
  UpdatesEnd call ds k =
      (w : World S) (p : ℕ) (value : List ℕ)
      → dirs w.tile ≡ ds
      → is_out_at ds p ≡ true
      → depth w + 2 ≤ k
      → Ends w (call w (update_str p value))

  Ends-trans :
      (w w1 : World S) (result : Option (World S))
      → dirs w1.tile ≡ dirs w.tile
      → shut w1.tile ≡ shut w.tile
      → Ends w1 result
      → Ends w result
  Ends-trans w w1 result d s e = record {
    world = e.world;
    returns = e.returns;
    same_dirs = e.same_dirs ∙ d;
    same_shut = e.same_shut ∙ s;
  }

  notify-Ends :
      (call : World S → Call → Option (World S)) (ds : List Dir) (k p : ℕ) (value : List ℕ)
      → InputsEnd call ds k
      → (qs : List ℕ) (w : World S) → dirs w.tile ≡ ds
      → depth w + 1 ≤ k
      → Ends w (notify call p value qs w)
  unfolding notify
  notify-Ends call ds k p value ok [] w d h = record {
    world = w;
    returns = refl;
    same_dirs = refl;
    same_shut = refl;
  }
  notify-Ends call ds k p value ok (q ∷ qs) w d h =
      elim (Bool-cases (not (q == p) && not (is_out (pad_dir (get_elem? w.tile.pads q))))) [
        | inl e ↦
            let inside : is_out_at ds q ≡ false =
              ap (λ ds. is_out_at ds q) (sym d) ∙ is_out_at-dirs w.tile.pads q ∙ (ground arith) in
            let e1 = ok w q value d inside h in
            let rest =
              notify-Ends call ds k p value ok qs e1.world (e1.same_dirs ∙ d) (rw e1.same_shut h) in
            rw (notify, e, e1.returns)
              (Ends-trans w e1.world (notify call p value qs e1.world) e1.same_dirs e1.same_shut
                rest)
        | inr e ↦ rw (notify, e) (notify-Ends call ds k p value ok qs w d h)
      ]

  update_all-Ends :
      (call : World S → Call → Option (World S)) (ds : List Dir) (k : ℕ)
      → UpdatesEnd call ds k
      → (updates : List (ℕ × List ℕ)) (w : World S) → AllOut ds updates
      → dirs w.tile ≡ ds
      → depth w + 2 ≤ k
      → Ends w (update_all call updates w)
  unfolding update_all
  update_all-Ends call ds k ok [] w out d h = record {
    world = w;
    returns = refl;
    same_dirs = refl;
    same_shut = refl;
  }
  update_all-Ends call ds k ok ((p, value) ∷ rest) w (o, out) d h =
      let e1 = ok w p value d o h in
      let e2 =
        update_all-Ends call ds k ok rest e1.world out (e1.same_dirs ∙ d) (rw e1.same_shut h) in
      rw (update_all, e1.returns)
        (Ends-trans w e1.world (update_all call rest e1.world) e1.same_dirs e1.same_shut e2)

  unlocked-Ends :
      (w w2 : World S) (p : ℕ) (result : Option (World S))
      → Ends w2 result
      → dirs w2.tile ≡ dirs w.tile
      → ((t : Tile)
          → dirs t ≡ dirs w.tile
          → shut t ≡ shut w2.tile
          → shut (set_lock t p false) ≡ shut w.tile)
      → Ends w (unlock p result)
  unlocked-Ends w w2 p result e d back = rw e.returns (record {
    world = record e.world { tile = set_lock e.world.tile p false };
    returns = refl;
    same_dirs = dirs-set_lock e.world.tile p false ∙ e.same_dirs ∙ d;
    same_shut = back e.world.tile (e.same_dirs ∙ d) e.same_shut;
  })

module _ {S : Type 0} (input : ℕ → Option (Handler S)) (ds : List Dir)
    (outputs : (p : ℕ) (handler : Handler S) (s : S) (value : List ℕ)
      → input p ≡ some handler
      → AllOut ds (handler s value).1) where
  update_net-Ends :
      (call : World S → Call → Option (World S)) (k : ℕ) (w : World S) (p : ℕ) (value : List ℕ)
      (net : Option ℕ)
      → InputsEnd call ds k
      → dirs w.tile ≡ ds
      → is_out_at ds p ≡ true
      → depth w + 1 ≤ k
      → Ends w (update_net input call w p value net)
  unfolding update_net
  update_net-Ends call k w p value none ok d o h = record {
    world = record w { tile = set_value w.tile p value };
    returns = refl;
    same_dirs = dirs-set_value w.tile p value;
    same_shut = shut-set_value w.tile p value;
  }
  update_net-Ends call k w p value (some n) ok d o h =
      let t1 = set_value w.tile p value in
      let w2 = record w { tile = set_lock t1 p true } in
      let d1 : dirs t1 ≡ ds = dirs-set_value w.tile p value ∙ d in
      let d2 : dirs w2.tile ≡ dirs w.tile =
        dirs-set_lock t1 p true ∙ dirs-set_value w.tile p value in
      let s2 : shut w2.tile ≡ shut w.tile =
        shut-lock_out t1.pads p true (ap (λ ds. is_out_at ds p) d1 ∙ o)
        ∙ shut-set_value w.tile p value in
      unlocked-Ends w w2 p (notify call p value (pads_of w2.tile n) w2)
        (notify-Ends call ds k p value ok (pads_of w2.tile n) w2 (d2 ∙ d) (rw s2 h)) d2
        (λ t dt st. shut-lock_out t.pads p false (ap (λ ds. is_out_at ds p) (dt ∙ d) ∙ o) ∙ st ∙ s2)

  handle-Ends :
      (call : World S → Call → Option (World S)) (k : ℕ) (w : World S) (p : ℕ) (value : List ℕ)
      → UpdatesEnd call ds k
      → dirs w.tile ≡ ds
      → is_out_at ds p ≡ false
      → pad_lock (get_elem? w.tile.pads p) ≡ false
      → depth w ≤ k
      → Ends w (handle input call w p value (input p))
  unfolding handle
  handle-Ends call k w p value ok d o free h = elim (Option-cases (input p)) [
    | inl e ↦ rw e (record { world = w; returns = refl; same_dirs = refl; same_shut = refl })
    | inr (handler, e) ↦
        let w2 : World S = record {
          tile = set_lock w.tile p true;
          state = (handler w.state value).0;
        } in
        let at : is_out_at (dirs w.tile) p ≡ false = ap (λ ds. is_out_at ds p) d ∙ o in
        let (fewer, back) = put-open_pads (shut w.tile) p (open_there w.tile.pads p at free) in
        let s2 = shut-lock_in w.tile.pads p true at in
        let d2 = dirs-set_lock w.tile p true in
        rw e (
          unlocked-Ends w w2 p (update_all call (handler w.state value).1 w2)
            (update_all-Ends call ds k ok (handler w.state value).1 w2
              (outputs p handler w.state value e) (d2 ∙ d) (rw s2 (omega arith)))
            d2
            (λ t dt st.
              shut-lock_in t.pads p false (ap (λ ds. is_out_at ds p) dt ∙ at)
              ∙ ap (λ bs. put bs p false) (st ∙ s2)
              ∙ back))
  ]

  run-Ends : (fuel : ℕ) → InputsEnd (run input fuel) ds fuel × UpdatesEnd (run input fuel) ds fuel
  unfolding run
  run-Ends zero =
      ((λ w q value d o h. absurd (omega arith)), (λ w p value d o h. absurd (omega arith)))
  run-Ends (suc fuel) =
      let (inputs, updates) = run-Ends fuel in
      (
        (λ w q value d o h. elim (Bool-cases (pad_lock (get_elem? w.tile.pads q))) [
          | inl e ↦
              rw (run, e) (record { world = w; returns = refl; same_dirs = refl; same_shut = refl })
          | inr e ↦
              rw (run, e) (handle-Ends (run input fuel) fuel w q value updates d o e (omega arith))
        ]),
        (λ w p value d o h.
            update_net-Ends (run input fuel) fuel w p value (net_of w.tile p) inputs d o
              (omega arith)),
      )

  -- An update of an output pad ends, where the handlers update output pads only: fuel of twice the
  -- number of pads that are not output pads, and two, is enough for any nets, loops included. No
  -- direction and no lock of such a pad has changed.
  pub run-returns :
      (w : World S) (p : ℕ) (value : List ℕ) (fuel : ℕ)
      → dirs w.tile ≡ ds
      → is_out_at ds p ≡ true
      → 2 * open_pads (shut w.tile) + 2 ≤ fuel
      → Ends w (run input fuel w (update_str p value))
  run-returns w p value fuel d o h = (run-Ends fuel).1 w p value d o h
