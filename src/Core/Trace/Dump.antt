-- ===== src/Core/Trace/Dump.antt =====
-- core/trace.c: what `hk_trace_dump` writes of the entries that the ring holds.
use hakit.Base.{
  ◌+◌, length, length-append, show_ℕ, ℕ, zero, suc, ◌-◌, ◌≤◌, ◌<◌, ◌≡◌, refl, sym, ap, ap₂, ◌∙◌,
  true, false, Option, none, some, List, [], ◌∷◌, ◌++◌, ◌==◌, get_or, arith, append_assoc,
  append-nil, fun_ext, keep_last, ℤ,
}
use hakit.Core.Trace.{
  Piece, str, fmt, pieces, piece_bytes, all_bytes, behind, Entry, Trace, Scan, no_entry, next,
  point, end_point, visit, visit_value, dump_from, dump, clamp_depth, init,
}
use hakit.Core.Trace.Ring.{
  window, distance, count, contents, IsValid, distance_lem, pushes, entries, init-pushes,
  init-IsValid, pushes-IsValid, name-pushes, entries-keep_last,
}

-- The rounds of the loop over a list of entries.
pub scan : List ℕ → ℕ → ℕ → List Entry → Scan → Scan
scan name t1 t2 [] s = s
scan name t1 t2 (e ∷ es) s = visit_value (scan name t1 t2 es) name t1 t2 s e.t e.value

at_end : (d i p : ℕ) → i < d → p < d → distance d i p ≡ 0 → (i == p) ≡ true
at_end d i p hi hp e = ground arith

not_at_end :
    (d i p n : ℕ)
    → i < d
    → p < d
    → distance d i p ≡ suc n
    → ((i == p) ≡ false) × (distance d (next d i) p ≡ n)
not_at_end d i p n hi hp e = (ground arith, ground arith)

dump_from-scan :
    (n fuel : ℕ) (tr : Trace) (t1 t2 i : ℕ) (s : Scan)
    → n ≤ fuel
    → i < tr.depth
    → tr.iput < tr.depth
    → distance tr.depth i tr.iput ≡ n
    → dump_from fuel tr t1 t2 i s ≡ scan tr.name t1 t2 (window tr.tab tr.depth i n) s
unfolding scan window dump_from
dump_from-scan zero zero tr t1 t2 i s h hi hp d = refl
dump_from-scan zero (suc fuel) tr t1 t2 i s h hi hp d =
    ground (arith, at_end tr.depth i tr.iput hi hp d)
dump_from-scan (suc n) zero tr t1 t2 i s h hi hp d = absurd (omega arith)
dump_from-scan (suc n) (suc fuel) tr t1 t2 i s h hi hp d =
    let (more, d') = not_at_end tr.depth i tr.iput n hi hp d in
    rw (more, dump_from)
      (ap
        (λ k.
          visit_value k tr.name t1 t2 s (get_or tr.tab i no_entry).t
            (get_or tr.tab i no_entry).value)
        (fun_ext λ s'.
          dump_from-scan n fuel tr t1 t2 (next tr.depth i) s' (omega arith) (ground arith) hp d'))

-- The loop goes over the entries that the ring holds, oldest first.
pub pieces-scan :
    (tr : Trace) (t1 t2 now : ℕ)
    → IsValid tr
    → let s = scan tr.name t1 t2 (contents tr) (record { pre = none; last = none; out = [] }) in
      pieces tr t1 t2 now ≡ s.out ++ end_point (b' ' ∷ b'+' ∷ []) now s.last
unfolding pieces
pieces-scan tr t1 t2 now ok =
    ap (λ (s : Scan). s.out ++ end_point (b' ' ∷ b'+' ∷ []) now s.last)
      (dump_from-scan (count tr) tr.depth tr t1 t2 tr.iget
        (record { pre = none; last = none; out = [] })
        (omega (arith, (distance_lem tr.depth tr.iget tr.iput ok.put_in ok.get_in).0)) ok.get_in
        ok.put_in refl)

-- The output for entries that all have a value, with no bound on the times.
pub points : List (ℕ × List ℕ) → List Piece
points [] = []
points ((t, v) ∷ xs) = fmt (point (b' ' ∷ []) t v []) ∷ points xs

pub last_value : Option (List ℕ) → List (ℕ × List ℕ) → Option (List ℕ)
last_value o [] = o
last_value o ((t, v) ∷ xs) = last_value (some v) xs

scan_all :
    (name : List ℕ) (xs : List (ℕ × List ℕ)) (v : List ℕ) (out : List Piece)
    → scan name 0 0 (entries xs) (record { pre = none; last = some v; out = out })
      ≡ record { pre = none; last = last_value (some v) xs; out = out ++ points xs }
unfolding scan visit points last_value
scan_all name [] v out =
    ap (λ o. record { pre = none; last = some v; out = o }) (sym (append-nil out))
scan_all name ((t, w) ∷ xs) v out =
    scan_all name xs w (out ++ (fmt (point (b' ' ∷ []) t w []) ∷ []))
    ∙ ap (λ o. record { pre = none; last = last_value (some w) xs; out = o })
        (append_assoc out (fmt (point (b' ' ∷ []) t w []) ∷ []) (points xs))

-- The whole output of a trace that holds `held`.
pub pieces_of : List ℕ → ℕ → List (ℕ × List ℕ) → List Piece
pieces_of name now [] = []
pieces_of name now ((t, v) ∷ xs) =
    str name ∷ (points ((t, v) ∷ xs) ++ end_point (b' ' ∷ b'+' ∷ []) now (last_value (some v) xs))

scan-pieces_of :
    (name : List ℕ) (now : ℕ) (held : List (ℕ × List ℕ))
    → let s = scan name 0 0 (entries held) (record { pre = none; last = none; out = [] }) in
      s.out ++ end_point (b' ' ∷ b'+' ∷ []) now s.last ≡ pieces_of name now held
unfolding scan visit points pieces_of
scan-pieces_of name now [] = refl
scan-pieces_of name now ((t, v) ∷ xs) =
    ap (λ (s : Scan). s.out ++ end_point (b' ' ∷ b'+' ∷ []) now s.last)
      (scan_all name xs v (str name ∷ (fmt (point (b' ' ∷ []) t v []) ∷ [])))

-- The texts for entries that all have a value, and the latest value again at the time `now`.
abbrev pub texts : ℕ → List ℕ → List (ℕ × List ℕ) → List (List ℕ)
texts now v [] = point (b' ' ∷ b'+' ∷ []) now v (10 ∷ []) ∷ []
texts now v ((t, w) ∷ xs) = point (b' ' ∷ []) t w [] ∷ texts now w xs

abbrev pub dump_of : List ℕ → ℕ → List (ℕ × List ℕ) → List (List ℕ)
dump_of name now [] = []
dump_of name now ((t, v) ∷ xs) = name ∷ texts now v ((t, v) ∷ xs)

-- Each text is shorter than the array that it is written to.
abbrev pub AllFit : ℕ → List (ℕ × List ℕ) → Type 0
AllFit now [] = Unit {0}
AllFit now ((t, v) ∷ xs) =
    (length (show_ℕ t) + length v < 1022) × (length (show_ℕ now) + length v < 1020) × AllFit now xs

length-point :
    (before : List ℕ) (t : ℕ) (value after : List ℕ)
    → length (point before t value after)
      ≡ length before + (length (show_ℕ t) + (1 + (length value + length after)))
length-point before t value after =
    length-append before (show_ℕ t ++ (b',' ∷ (value ++ after)))
    ∙ ap (λ n. length before + n)
        (length-append (show_ℕ t) (b',' ∷ (value ++ after))
          ∙ ap (λ n. length (show_ℕ t) + n) (omega (arith, length-append value after)))

piece_bytes-fmt : (s : List ℕ) → length s < 1024 → piece_bytes (fmt s) ≡ some s
unfolding piece_bytes
piece_bytes-fmt s small = ground (arith, small)

all_bytes-texts :
    (now : ℕ) (v : List ℕ) (xs : List (ℕ × List ℕ))
    → length (show_ℕ now) + length v < 1020
    → AllFit now xs
    → all_bytes (points xs ++ end_point (b' ' ∷ b'+' ∷ []) now (last_value (some v) xs))
      ≡ some (texts now v xs)
unfolding all_bytes points last_value
all_bytes-texts now v [] small ok =
    ap (λ o. behind o (some []))
      (piece_bytes-fmt (point (b' ' ∷ b'+' ∷ []) now v (10 ∷ []))
        (omega (arith, length-point (b' ' ∷ b'+' ∷ []) now v (10 ∷ []))))
all_bytes-texts now v ((t, w) ∷ xs) small (here, again, ok) =
    ap₂ behind
      (piece_bytes-fmt (point (b' ' ∷ []) t w []) (omega (arith, length-point (b' ' ∷ []) t w [])))
      (all_bytes-texts now w xs again ok)

all_bytes-dump_of :
    (name : List ℕ) (now : ℕ) (held : List (ℕ × List ℕ))
    → AllFit now held
    → all_bytes (pieces_of name now held) ≡ some (dump_of name now held)
unfolding all_bytes pieces_of piece_bytes last_value
all_bytes-dump_of name now [] ok = refl
all_bytes-dump_of name now ((t, v) ∷ xs) (here, again, ok) =
    ap (behind (some name)) (all_bytes-texts now v ((t, v) ∷ xs) again (here, again, ok))

pieces-pushes :
    (name : List ℕ) (depth : ℤ) (xs : List (ℕ × List ℕ)) (now : ℕ)
    → pieces (pushes (init name depth) xs) 0 0 now
      ≡ pieces_of name now (keep_last (clamp_depth depth - 1) xs)
pieces-pushes name depth xs now =
    let tr = pushes (init name depth) xs in
    pieces-scan tr 0 0 now (pushes-IsValid (init name depth) xs (init-IsValid name depth))
    ∙ ap₂
        (λ n es.
          let s : Scan = scan n 0 0 es (record { pre = none; last = none; out = [] }) in
          s.out ++ end_point (b' ' ∷ b'+' ∷ []) now s.last)
        (name-pushes (init name depth) xs ∙ name-init)
        ((init-pushes name depth xs).2 ∙ entries-keep_last (clamp_depth depth - 1) xs)
    ∙ scan-pieces_of name now (keep_last (clamp_depth depth - 1) xs)
  where
    name-init : (init name depth).name ≡ name
    name-init = unfold init in refl

-- After any pushes on a new trace, where each value that is still held fits into 1023 bytes with its time and with the
-- present time: a dump with no bounds on the times writes the name, one point for each value that the ring
-- still holds, oldest first, and the latest value again at the present time; it writes nothing of no
-- values.
pub dump-pushes :
    (name : List ℕ) (depth : ℤ) (xs : List (ℕ × List ℕ)) (now : ℕ)
    → AllFit now (keep_last (clamp_depth depth - 1) xs)
    → dump (pushes (init name depth) xs) 0 0 now
      ≡ some (dump_of name now (keep_last (clamp_depth depth - 1) xs))
unfolding dump
dump-pushes name depth xs now ok =
    ap all_bytes (pieces-pushes name depth xs now)
    ∙ all_bytes-dump_of name now (keep_last (clamp_depth depth - 1) xs) ok
