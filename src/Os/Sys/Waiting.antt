-- ===== src/Os/Sys/Waiting.antt =====
-- os/linux/sys.c: how long a round waits.
use hakit.Base.{
  ℕ, zero, suc, ◌+◌, ◌-◌, ◌≤◌, ◌<◌, ◌≡◌, ◌≢◌, ◌⊎◌, inl, inr, refl, ap, sym, ◌∙◌, subst, Bool, true,
  false, List, [], ◌∷◌, map, ◌&&◌, ◌||◌, if◌then◌else◌, ltb, leb, get_or, length, arith, Bool-cases,
  ltb→lt, ℤ, pos_part, pos, negsuc, ltb_ℤ,
}
use hakit.Os.Sys.{timeout, Source, Sys, no_source, is_kind}
use hakit.Os.Sys.Loop.{Call, expired, check_timers, next_timeout}
use hakit.Os.Sys.Timers.{fired, check_timers-fired}

abbrev pub is_pending : ℕ → Source → Bool
is_pending now src = is_kind src.kind timeout && ltb now src.t

-- `wait` limits the wait at least to `limit`.
abbrev pub Within : ℤ → ℕ → Type 0
Within wait limit = (d : ℕ) × (wait ≡ pos d) × (d ≤ limit)

abbrev pub waited : ℕ → ℤ → Source → ℤ
waited now wait src =
    if is_kind src.kind timeout
      && ltb now src.t
      && (ltb_ℤ wait (pos 0) || ltb_ℤ (pos (src.t - now)) wait)
    then pos (src.t - now)
    else wait

waited-Within : (now : ℕ) (src : Source) (w : ℕ) → Within (waited now (pos w) src) w
waited-Within now src w =
    elim (Bool-cases (
      is_kind src.kind timeout
      && ltb now src.t
      && (ltb_ℤ (pos w) (pos 0) || ltb_ℤ (pos (src.t - now)) (pos w)))) [
        | inl e ↦ (src.t - now, rw e refl, ground (arith, e))
        | inr e ↦ (w, rw e refl, omega arith)
      ]

waited-pending :
    (now : ℕ) (wait : ℤ) (src : Source)
    → is_pending now src ≡ true
    → Within (waited now wait src) (src.t - now)
waited-pending now (pos w) src pending =
    elim (Bool-cases (ltb_ℤ (pos w) (pos 0) || ltb_ℤ (pos (src.t - now)) (pos w))) [
      | inl e ↦ (src.t - now, ground (arith, e, pending), omega arith)
      | inr e ↦ (w, ground (arith, e, pending), ground (arith, e))
    ]
waited-pending now (negsuc n) src pending = (src.t - now, ground (arith, pending), omega arith)

waited-cases :
    (now : ℕ) (wait : ℤ) (src : Source)
    → (waited now wait src ≡ wait)
      ⊎ ((is_pending now src ≡ true) × (waited now wait src ≡ pos (src.t - now)))
waited-cases now wait src =
    elim (Bool-cases (
      is_kind src.kind timeout
      && ltb now src.t
      && (ltb_ℤ wait (pos 0) || ltb_ℤ (pos (src.t - now)) wait))) [
        | inl e ↦ inr (ground (arith, e), rw e refl)
        | inr e ↦ inl (rw e refl)
      ]

next_timeout-Within_limit :
    (now limit : ℕ) (wait : ℤ) (sources : List Source)
    → Within wait limit
    → Within (next_timeout now wait sources) limit
unfolding next_timeout
next_timeout-Within_limit now limit wait [] within = within
next_timeout-Within_limit now limit wait (src ∷ sources) (w, e, le) =
    let (d, e', le') = waited-Within now src w in
    next_timeout-Within_limit now limit (waited now wait src) sources
      (d, ap (λ x. waited now x src) e ∙ e', omega arith)

next_timeout-Within :
    (now : ℕ) (wait : ℤ) (sources : List Source) (i : ℕ)
    → i < length sources
    → is_pending now (get_or sources i no_source) ≡ true
    → Within (next_timeout now wait sources) ((get_or sources i no_source).t - now)
unfolding next_timeout
next_timeout-Within now wait [] i small pending = absurd (omega arith)
next_timeout-Within now wait (src ∷ sources) zero small pending =
    next_timeout-Within_limit now (src.t - now) (waited now wait src) sources
      (waited-pending now wait src pending)
next_timeout-Within now wait (src ∷ sources) (suc i) small pending =
    next_timeout-Within now (waited now wait src) sources i (omega arith) pending

-- The source that a wait is for.
abbrev pub Waited : ℕ → List Source → ℤ → Type 0
Waited now sources wait =
    (i : ℕ) × (i < length sources)
    × (is_pending now (get_or sources i no_source) ≡ true)
    × (wait ≡ pos ((get_or sources i no_source).t - now))

next_timeout-Waited :
    (now : ℕ) (wait : ℤ) (sources : List Source)
    → (next_timeout now wait sources ≡ wait) ⊎ Waited now sources (next_timeout now wait sources)
unfolding next_timeout
next_timeout-Waited now wait [] = inl refl
next_timeout-Waited now wait (src ∷ sources) =
    elim (next_timeout-Waited now (waited now wait src) sources) [
      | inr (i, small, pending, e) ↦ inr (suc i, omega arith, pending, e)
      | inl e ↦ elim (waited-cases now wait src) [
        | inl same ↦ inl (e ∙ same)
        | inr (pending, here) ↦ inr (0, omega arith, pending, e ∙ here)
      ]
    ]

-- Every timer, and only a timer, is to wait for.
abbrev pub is_timer : Source → Bool
is_timer src = is_kind src.kind timeout

fired-pending :
    (answers : ℕ → ℤ) (now : ℕ) (src : Source)
    → (is_timer src ≡ true → 0 < src.delay)
    → is_timer (fired answers now src) ≡ true
    → is_pending now (fired answers now src) ≡ true
fired-pending answers now src delay timer = elim (Bool-cases (is_kind src.kind timeout)) [
  | inr other ↦ absurd (ground (arith, other, timer))
  | inl kind ↦ elim (Bool-cases (leb src.t now)) [
    | inr later ↦ ground (arith, kind, later)
    | inl due ↦ ground (arith, kind, due, delay kind, timer)
  ]
]

all_pending :
    (answers : ℕ → ℤ) (now : ℕ) (sources : List Source)
    → ((i : ℕ)
        → is_timer (get_or sources i no_source) ≡ true
        → 0 < (get_or sources i no_source).delay)
    → (i : ℕ) → is_timer (get_or (map (fired answers now) sources) i no_source) ≡ true
    → is_pending now (get_or (map (fired answers now) sources) i no_source) ≡ true
all_pending answers now [] delays i timer = absurd (ground (arith, timer))
all_pending answers now (src ∷ sources) delays (suc i) timer =
    all_pending answers now sources (λ j. delays (suc j)) i timer
all_pending answers now (src ∷ sources) delays zero timer =
    fired-pending answers now src (delays 0) timer

-- The wait has no limit and there is no timer; or it ends just when one of the timers is due, and none of
-- them is due before.
abbrev pub WaitsForTimers : ℕ → List Source → ℤ → Type 0
WaitsForTimers now sources wait =
    ((wait ≡ negsuc 0)
      × ((i : ℕ) → i < length sources → is_timer (get_or sources i no_source) ≡ false))
    ⊎ ((i d : ℕ) × (i < length sources)
        × (is_timer (get_or sources i no_source) ≡ true)
        × (wait ≡ pos d)
        × ((get_or sources i no_source).t ≡ now + d)
        × ((j : ℕ)
            → j < length sources
            → is_timer (get_or sources j no_source) ≡ true
            → now + d ≤ (get_or sources j no_source).t))

pos_not_negative : (d : ℕ) → pos d ≢ negsuc 0
pos_not_negative d = ground arith

pos_injective : (d e : ℕ) → pos d ≡ pos e → d ≡ e
pos_injective d e same = ap pos_part same

next_timeout-WaitsForTimers :
    (now : ℕ) (sources : List Source)
    → ((i : ℕ)
        → is_timer (get_or sources i no_source) ≡ true
        → is_pending now (get_or sources i no_source) ≡ true)
    → WaitsForTimers now sources (next_timeout now (negsuc 0) sources)
next_timeout-WaitsForTimers now sources pending =
    elim (next_timeout-Waited now (negsuc 0) sources) [
      | inl e ↦ inl (
        e,
        λ i small. elim (Bool-cases (is_timer (get_or sources i no_source))) [
          | inr other ↦ other
          | inl timer ↦
              let (d, e', le) =
                next_timeout-Within now (negsuc 0) sources i small (pending i timer) in
              absurd (pos_not_negative d (sym e' ∙ e))
        ],
      )
      | inr (i, small, is_due, e) ↦
          let t = (get_or sources i no_source).t in
          let after : now < t = ltb→lt now t (ground (arith, is_due)) in
          inr (
            i,
            t - now,
            small,
            ground (arith, is_due),
            e,
            omega arith,
            λ j small_j timer.
                let (d, e', le) =
                  next_timeout-Within now (negsuc 0) sources j small_j (pending j timer) in
                let after_j : now < (get_or sources j no_source).t =
                  ltb→lt now (get_or sources j no_source).t (ground (arith, pending j timer)) in
                let same : d ≡ t - now = pos_injective d (t - now) (sym e' ∙ e) in
                omega (arith, le, same, after, after_j),
          )
    ]

-- With callbacks that leave the table alone and timers with delays above 0, the wait that follows the
-- check of the timers at the time `now` has no limit and there is no timer, or it ends just when one of
-- the timers is due and none of them is due before.
pub check_timers-next_timeout :
    (callback : ℕ → Call → Sys → ℤ × Sys) (answers : ℕ → ℤ)
    → ((f : ℕ) (sys : Sys) → callback f expired sys ≡ (answers f, sys))
    → (now : ℕ) (sys : Sys)
    → ((i : ℕ)
        → is_timer (get_or sys.sources i no_source) ≡ true
        → 0 < (get_or sys.sources i no_source).delay)
    → WaitsForTimers now
        (check_timers callback now (length sys.sources) 0 sys).sources
        (next_timeout now (negsuc 0) (check_timers callback now (length sys.sources) 0 sys).sources)
check_timers-next_timeout callback answers quiet now sys delays =
    subst (λ s. WaitsForTimers now s.sources (next_timeout now (negsuc 0) s.sources))
      (sym (check_timers-fired callback answers (λ f t. t) quiet now sys))
      (next_timeout-WaitsForTimers now (map (fired answers now) sys.sources)
        (all_pending answers now sys.sources delays))
