-- ===== src/Core/Trace/Ring.antt =====
-- core/trace.c: the ring holds the latest values pushed, one fewer than its depth.
use hakit.Base.{
  ℕ, zero, suc, ◌+◌, ◌-◌, ◌≤◌, ◌<◌, ◌≡◌, refl, sym, ap, ap₂, ◌∙◌, true, false, some, List, [], ◌∷◌,
  ◌++◌, ℤ, pos, negsuc, ltb, leb, ◌==◌, if◌then◌else◌, length, get_or, set, drop, arith,
  length-append, length-set, keep_last, keep_last-append, get_or-set_self, get_or-set_ne,
  append_assoc, drop_all, length-replicate, dec_lt,
}
use hakit.Core.Trace.{Entry, Trace, no_entry, clamp_depth, init, next, push, max_depth}

-- The `n` entries from index `i` on, round the ring.
unfoldable pub window : List Entry → ℕ → ℕ → ℕ → List Entry
window tab depth i zero = []
window tab depth i (suc n) = get_or tab i no_entry ∷ window tab depth (next depth i) n

-- How many entries the ring holds.
abbrev pub distance : ℕ → ℕ → ℕ → ℕ
distance depth iget iput = if leb iget iput then iput - iget else iput + depth - iget

abbrev pub count : Trace → ℕ
count tr = distance tr.depth tr.iget tr.iput

-- The entries that the ring holds, oldest first.
abbrev pub contents : Trace → List Entry
contents tr = window tr.tab tr.depth tr.iget (count tr)

pub record IsValid (tr : Trace) : Type 0 where
  pub put_in : tr.iput < tr.depth
  pub get_in : tr.iget < tr.depth
  pub storage : length tr.tab ≡ tr.depth

pub length-window : (tab : List Entry) (depth i n : ℕ) → length (window tab depth i n) ≡ n
unfolding window
length-window tab depth i zero = refl
length-window tab depth i (suc n) = ap suc (length-window tab depth (next depth i) n)

-- The index `n` places behind `i`.
abbrev behind : ℕ → ℕ → ℕ → ℕ
behind depth i n = if ltb (i + n) depth then i + n else i + n - depth

-- Writing just behind a window of fewer entries than the ring has extends it by that entry.
window-set :
    (tab : List Entry) (depth i n j : ℕ) (e : Entry)
    → length tab ≡ depth
    → i < depth
    → n < depth
    → j ≡ behind depth i n
    → window (set tab j e) depth i (suc n) ≡ window tab depth i n ++ (e ∷ [])
unfolding window
window-set tab depth i zero j e l hi hn at =
    ap (λ k. k ∷ [])
      (ap (λ k. get_or (set tab k e) i no_entry) {x = j} {y = i} (ground arith)
        ∙ get_or-set_self tab i e no_entry (omega arith))
window-set tab depth i (suc n) j e l hi hn at =
    ap₂ ◌∷◌ (get_or-set_ne tab {i = j} {j = i} e no_entry (λ q. ground (arith, q)))
      (window-set tab depth (next depth i) n j e l (ground arith) (omega arith) (ground arith))

-- The places of `iput` and `iget`, before and after a push.
pub distance_lem :
    (d g p : ℕ) → p < d → g < d → (distance d g p < d) × (p ≡ behind d g (distance d g p))
distance_lem d g p hp hg = (ground arith, ground arith)

push_room :
    (d g p : ℕ)
    → p < d
    → g < d
    → distance d g p + 1 < d
    → ((next d p == g) ≡ false) × (distance d g (next d p) ≡ distance d g p + 1)
push_room d g p hp hg h = (ground arith, ground arith)

push_full :
    (d g p : ℕ)
    → p < d
    → g < d
    → d ≤ distance d g p + 1
    → ((next d p == g) ≡ true) × (distance d (next d g) (next d p) ≡ distance d g p)
push_full d g p hp hg h = (ground arith, ground arith)

pub push-IsValid : (tr : Trace) (now : ℕ) (v : List ℕ) → IsValid tr → IsValid (push tr now v)
unfolding push
push-IsValid tr now v ok = record {
  put_in = ground arith;
  get_in = ground arith;
  storage = length-set tr.tab tr.iput _ ∙ ok.storage;
}

-- A push adds its entry behind those that the ring holds, of which it keeps the latest `depth - 1`.
pub push-contents :
    (tr : Trace) (now : ℕ) (v : List ℕ)
    → IsValid tr
    → contents (push tr now v)
      ≡ keep_last (tr.depth - 1) (contents tr ++ record { t = now; value = some v } ∷ [])
unfolding push window
push-contents tr now v ok = elim (dec_lt (n + 1) tr.depth) [
  | yes more ↦
      let (kept, d) = push_room tr.depth tr.iget tr.iput ok.put_in ok.get_in more in
      rw (kept, d)
        (ap (λ k. window tab' tr.depth tr.iget k) {x = n + 1} {y = suc n} (omega arith)
          ∙ added
          ∙ ap (λ k. drop k (contents tr ++ (e ∷ []))) {x = 0}
              {y = length (contents tr ++ (e ∷ [])) - (tr.depth - 1)} (omega (arith, len)))
  | no full ↦
      let (kept, d) = push_full tr.depth tr.iget tr.iput ok.put_in ok.get_in (omega arith) in
      rw (kept, d)
        (ap (drop 1) added
          ∙ ap (λ k. drop k (contents tr ++ (e ∷ []))) {x = 1}
              {y = length (contents tr ++ (e ∷ [])) - (tr.depth - 1)}
              (omega (arith, len, (distance_lem tr.depth tr.iget tr.iput ok.put_in ok.get_in).0)))
]
  where
    n : ℕ
    n = count tr

    e : Entry
    e = record { t = now; value = some v }

    tab' : List Entry
    tab' = set tr.tab tr.iput e

    added : window tab' tr.depth tr.iget (suc n) ≡ contents tr ++ (e ∷ [])
    added =
        window-set tr.tab tr.depth tr.iget n tr.iput e ok.storage ok.get_in
          (distance_lem tr.depth tr.iget tr.iput ok.put_in ok.get_in).0
          (distance_lem tr.depth tr.iget tr.iput ok.put_in ok.get_in).1

    len : length (contents tr ++ (e ∷ [])) ≡ n + 1
    len =
        length-append (contents tr) (e ∷ [])
        ∙ ap (λ k. k + 1) (length-window tr.tab tr.depth tr.iget n)

-- A sequence of pushes, each a time and a value.
unfoldable pub pushes : Trace → List (ℕ × List ℕ) → Trace
pushes tr [] = tr
pushes tr ((t, v) ∷ xs) = pushes (push tr t v) xs

abbrev pub entries : List (ℕ × List ℕ) → List Entry
entries [] = []
entries ((t, v) ∷ xs) = record { t = t; value = some v } ∷ entries xs

depth-push : (tr : Trace) (t : ℕ) (v : List ℕ) → (push tr t v).depth ≡ tr.depth
unfolding push
depth-push tr t v = refl

pub pushes-IsValid : (tr : Trace) (xs : List (ℕ × List ℕ)) → IsValid tr → IsValid (pushes tr xs)
unfolding pushes
pushes-IsValid tr [] ok = ok
pushes-IsValid tr ((t, v) ∷ xs) ok = pushes-IsValid (push tr t v) xs (push-IsValid tr t v ok)

pub name-pushes : (tr : Trace) (xs : List (ℕ × List ℕ)) → (pushes tr xs).name ≡ tr.name
unfolding pushes push
name-pushes tr [] = refl
name-pushes tr ((t, v) ∷ xs) = name-pushes (push tr t v) xs

pub entries-keep_last :
    (k : ℕ) (xs : List (ℕ × List ℕ)) → keep_last k (entries xs) ≡ entries (keep_last k xs)
entries-keep_last k xs =
    ap (λ n. drop (n - k) (entries xs)) (length-entries xs) ∙ entries-drop (length xs - k) xs
  where
    length-entries : (ys : List (ℕ × List ℕ)) → length (entries ys) ≡ length ys
    length-entries [] = refl
    length-entries (y ∷ ys) = ap suc (length-entries ys)

    entries-drop : (n : ℕ) (ys : List (ℕ × List ℕ)) → drop n (entries ys) ≡ entries (drop n ys)
    entries-drop zero ys = refl
    entries-drop (suc n) [] = refl
    entries-drop (suc n) (y ∷ ys) = entries-drop n ys

-- After one push or more, a ring holds the latest `depth - 1` entries of those it held and those pushed.
pub pushes-contents :
    (tr : Trace) (x : ℕ × List ℕ) (xs : List (ℕ × List ℕ))
    → IsValid tr
    → contents (pushes tr (x ∷ xs)) ≡ keep_last (tr.depth - 1) (contents tr ++ entries (x ∷ xs))
unfolding pushes
pushes-contents tr (t, v) [] ok = push-contents tr t v ok
pushes-contents tr (t, v) (x ∷ xs) ok =
    pushes-contents (push tr t v) x xs (push-IsValid tr t v ok)
    ∙ ap₂ (λ d c. keep_last (d - 1) (c ++ entries (x ∷ xs))) (depth-push tr t v)
        (push-contents tr t v ok)
    ∙ keep_last-append (tr.depth - 1) (contents tr ++ (record { t = t; value = some v } ∷ []))
        (entries (x ∷ xs))
    ∙ ap (keep_last (tr.depth - 1))
        (append_assoc (contents tr) (record { t = t; value = some v } ∷ []) (entries (x ∷ xs)))

clamp_depth_bounds : (depth : ℤ) → (0 < clamp_depth depth) × (clamp_depth depth ≤ max_depth)
unfolding clamp_depth
clamp_depth_bounds (pos zero) = omega arith
clamp_depth_bounds (pos (suc n)) = ground arith
clamp_depth_bounds (negsuc n) = omega arith

pub init-IsValid : (name : List ℕ) (depth : ℤ) → IsValid (init name depth)
unfolding init
init-IsValid name depth = record {
  put_in = (clamp_depth_bounds depth).0;
  get_in = (clamp_depth_bounds depth).0;
  storage = length-replicate (clamp_depth depth) no_entry;
}

-- A trace made with any depth has between 1 and 10000 places; after any pushes it holds the
-- latest of them, as many as one fewer than its places.
pub init-pushes :
    (name : List ℕ) (depth : ℤ) (xs : List (ℕ × List ℕ))
    → (0 < clamp_depth depth)
      × (clamp_depth depth ≤ max_depth)
      × (contents (pushes (init name depth) xs) ≡ keep_last (clamp_depth depth - 1) (entries xs))
unfolding init window
init-pushes name depth [] = (
  (clamp_depth_bounds depth).0,
  (clamp_depth_bounds depth).1,
  unfold pushes in sym (drop_all (0 - (clamp_depth depth - 1)) [] (omega arith)),
)
init-pushes name depth (x ∷ xs) = (
  (clamp_depth_bounds depth).0,
  (clamp_depth_bounds depth).1,
  pushes-contents (init name depth) x xs (init-IsValid name depth),
)
