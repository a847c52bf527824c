-- ===== src/Os/Sys/Timers.antt =====
-- os/linux/sys.c: what a round does with the timers, and how long it waits for the next one.
use hakit.Base.{
  Option, ap₂, set-get_or, ℕ, zero, suc, ◌+◌, ◌≡◌, inl, inr, refl, ap, sym, ◌∙◌, true, false, none,
  some, List, [], ◌∷◌, ◌++◌, map, ◌&&◌, if◌then◌else◌, leb, get_or, set, length, length-append,
  arith, Bool-cases, Option-cases, ℤ, pos, negsuc, leb_ℤ, eq_ℤ,
}
use hakit.Os.Sys.{
  Kind, free, timeout, io, child, quit, removed, Source, Sys, no_source, is_kind, set_source,
}
use hakit.Os.Sys.Loop.{Call, expired, invoke, sys_callback, rearm, check_timer, check_timers}
use hakit.Os.Sys.Places.{get_or-append, set-append, append_assoc_one, get_or-set_none}

-- What becomes of a source in a round at the time `now`, where `answers` are what the callbacks return:
-- a timer that is due is cleared if its callback returns 0 or less, or has been taken away, and is
-- otherwise due again after its delay.
abbrev pub fired : (ℕ → ℤ) → ℕ → Source → Source
fired answers now src =
    if is_kind src.kind timeout && leb src.t now
    then elim src.func [
      | none ↦ no_source
      | some f ↦ if leb_ℤ (answers f) (pos 0) then no_source else record src { t = now + src.delay }
    ]
    else src

pub is_timeout : (kind : Kind) → is_kind kind timeout ≡ true → kind ≡ timeout
is_timeout free h = ground (arith, h)
is_timeout timeout h = refl
is_timeout io h = ground (arith, h)
is_timeout child h = ground (arith, h)
is_timeout quit h = ground (arith, h)
is_timeout removed h = ground (arith, h)

-- What follows a callback that lets its timer go on, or ends it.
rearm-goes_on :
    (now i : ℕ) (sys : Sys) (n : ℕ)
    → (get_or sys.sources i no_source).kind ≡ timeout
    → rearm now i (pos (suc n), sys)
      ≡ set_source sys i (record (get_or sys.sources i no_source) {
        t = now + (get_or sys.sources i no_source).delay;
      })
unfolding rearm
rearm-goes_on now i sys n is_timer = ground (arith, is_timer)

rearm-ended :
    (now i : ℕ) (sys : Sys) (ret : ℤ)
    → rearm now i (ret, set_source sys i no_source) ≡ set_source sys i no_source
unfolding rearm
rearm-ended now i sys ret =
    rw (get_or-set_none sys.sources i)
      (elim (Bool-cases (eq_ℤ ret (pos 0))) [ inl e ↦ rw e refl | inr e ↦ rw e refl ])

not_over : (n : ℕ) → leb_ℤ (pos (suc n)) (pos 0) ≡ false
not_over n = ground arith

over : (n : ℕ) → leb_ℤ (negsuc n) (pos 0) ≡ true
over n = ground arith

-- What the callbacks of the timers that are due leave of the last tag, called in the order of the table,
-- where `note` is what one leaves of it.
abbrev pub note_of : (ℕ → ℕ → ℕ) → Option ℕ → ℕ → ℕ
note_of note none t = t
note_of note (some f) t = note f t

abbrev pub due_note : (ℕ → ℕ → ℕ) → ℕ → Source → ℕ → ℕ
due_note note now src t =
    if is_kind src.kind timeout && leb src.t now then note_of note src.func t else t

unfoldable pub notes : (ℕ → ℕ → ℕ) → ℕ → List Source → ℕ → ℕ
notes note now [] t = t
notes note now (src ∷ sources) t = notes note now sources (due_note note now src t)

module _ (callback : ℕ → Call → Sys → ℤ × Sys) (answers : ℕ → ℤ) (note : ℕ → ℕ → ℕ)
    (quiet : (f : ℕ) (sys : Sys)
      → callback f expired sys ≡ (answers f, record sys { last_tag = note f sys.last_tag })) where
  abbrev noted : Option ℕ → Sys → Sys
  noted o sys = record sys { last_tag = note_of note o sys.last_tag }

  -- The callback of a timer.
  sys_callback-expired :
      (sys : Sys) (i f : ℕ)
      → (get_or sys.sources i no_source).kind ≡ timeout
      → (get_or sys.sources i no_source).func ≡ some f
      → sys_callback callback sys i ≡ (
        answers f,
        if leb_ℤ (answers f) (pos 0)
            then set_source (noted (some f) sys) i no_source
            else noted (some f) sys,
      )
  unfolding sys_callback invoke
  sys_callback-expired sys i f is_timer with_f = rw (with_f, is_timer, quiet f sys) refl

  sys_callback-no_func :
      (sys : Sys) (i : ℕ)
      → (get_or sys.sources i no_source).func ≡ none
      → sys_callback callback sys i ≡ (negsuc 0, set_source sys i no_source)
  unfolding sys_callback
  sys_callback-no_func sys i without = rw without refl

  check_timer-rearm :
      (now : ℕ) (sys : Sys) (i : ℕ)
      → (get_or sys.sources i no_source).kind ≡ timeout
      → leb (get_or sys.sources i no_source).t now ≡ true
      → check_timer callback now sys i ≡ rearm now i (sys_callback callback sys i)
  unfolding check_timer
  check_timer-rearm now sys i is_timer due = rw (is_timer, due) refl

  fired-no_func :
      (now : ℕ) (src : Source)
      → src.kind ≡ timeout
      → leb src.t now ≡ true
      → src.func ≡ none
      → fired answers now src ≡ no_source
  fired-no_func now src is_timer due without = ground (arith, is_timer, due, without)

  fired-func :
      (now : ℕ) (src : Source) (f : ℕ) (ret : ℤ)
      → src.kind ≡ timeout
      → leb src.t now ≡ true
      → src.func ≡ some f
      → answers f ≡ ret
      → fired answers now src
        ≡ (if leb_ℤ ret (pos 0) then no_source else record src { t = now + src.delay })
  fired-func now src f ret is_timer due with_f e = ground (arith, is_timer, due, with_f, e)

  -- The check of one timer.
  check_timer-due :
      (now : ℕ) (sys : Sys) (i : ℕ)
      → (get_or sys.sources i no_source).kind ≡ timeout
      → leb (get_or sys.sources i no_source).t now ≡ true
      → check_timer callback now sys i
        ≡ set_source
            (noted (get_or sys.sources i no_source).func sys)
            i
            (fired answers now (get_or sys.sources i no_source))
  check_timer-due now sys i is_timer due =
      check_timer-rearm now sys i is_timer due
      ∙ elim (Option-cases (get_or sys.sources i no_source).func) [
        | inl without ↦
            ap (rearm now i) (sys_callback-no_func sys i without)
            ∙ rearm-ended now i sys (negsuc 0)
            ∙ sym (
                ap₂ (λ o x. set_source (noted o sys) i x) without
                  (fired-no_func now (get_or sys.sources i no_source) is_timer due without))
        | inr (f, with_f) ↦
            ap (rearm now i) (sys_callback-expired sys i f is_timer with_f)
            ∙ ended_or_not f (answers f) refl with_f
            ∙ sym (
                ap
                  (λ o.
                    set_source (noted o sys) i (fired answers now (get_or sys.sources i no_source)))
                  with_f)
      ]
    where
      ended_or_not :
          (f : ℕ) (ret : ℤ)
          → answers f ≡ ret
          → (get_or sys.sources i no_source).func ≡ some f
          → rearm now i (
            ret,
            if leb_ℤ ret (pos 0)
                then set_source (noted (some f) sys) i no_source
                else noted (some f) sys,
          )
            ≡ set_source (noted (some f) sys) i (fired answers now (get_or sys.sources i no_source))
      ended_or_not f (pos zero) e with_f =
          rearm-ended now i (noted (some f) sys) (pos 0)
          ∙ sym (
              ap (set_source (noted (some f) sys) i)
                (fired-func now (get_or sys.sources i no_source) f (pos 0) is_timer due with_f e))
      ended_or_not f (pos (suc n)) e with_f =
          ap
            (λ b. rearm now i (
              pos (suc n),
              if b then set_source (noted (some f) sys) i no_source else noted (some f) sys,
            ))
            (not_over n)
          ∙ rearm-goes_on now i (noted (some f) sys) n is_timer
          ∙ sym (
              ap (set_source (noted (some f) sys) i) (
                fired-func now (get_or sys.sources i no_source) f (pos (suc n)) is_timer due with_f
                  e
                ∙ ap
                    (λ b. if b then no_source else record (get_or sys.sources i no_source) {
                      t = now + (get_or sys.sources i no_source).delay;
                    })
                    (not_over n)))
      ended_or_not f (negsuc n) e with_f =
          ap
            (λ b. rearm now i (
              negsuc n,
              if b then set_source (noted (some f) sys) i no_source else noted (some f) sys,
            ))
            (over n)
          ∙ rearm-ended now i (noted (some f) sys) (negsuc n)
          ∙ sym (
              ap (set_source (noted (some f) sys) i) (
                fired-func now (get_or sys.sources i no_source) f (negsuc n) is_timer due with_f e
                ∙ ap
                    (λ b. if b then no_source else record (get_or sys.sources i no_source) {
                      t = now + (get_or sys.sources i no_source).delay;
                    })
                    (over n)))

  check_timer-fired :
      (now : ℕ) (sys : Sys) (i : ℕ)
      → check_timer callback now sys i
        ≡ set_source
            (record sys {
              last_tag = due_note note now (get_or sys.sources i no_source) sys.last_tag;
            })
            i
            (fired answers now (get_or sys.sources i no_source))
  unfolding check_timer
  check_timer-fired now sys i =
      elim (Bool-cases (
        is_kind (get_or sys.sources i no_source).kind timeout
        && leb (get_or sys.sources i no_source).t now)) [
          | inr e ↦
              rw e (ap (λ l. record sys { sources = l }) (sym (set-get_or sys.sources i no_source)))
          | inl e ↦
              check_timer-due now sys i
                (is_timeout (get_or sys.sources i no_source).kind (ground (arith, e)))
                (ground (arith, e))
              ∙ rw e refl
        ]

  loop_lem :
      (now : ℕ) (before rest : List Source) (sys : Sys)
      → sys.sources ≡ before ++ rest
      → check_timers callback now (length rest) (length before) sys ≡ record sys {
        last_tag = notes note now rest sys.last_tag;
        sources = before ++ map (fired answers now) rest;
      }
  unfolding check_timers notes
  loop_lem now before [] sys e = ap (λ l. record sys { sources = l }) e
  loop_lem now before (src ∷ rest) sys e =
      let new : Source = fired answers now src in
      let t : ℕ = due_note note now src sys.last_tag in
      let sys1 : Sys = record sys { last_tag = t; sources = before ++ (new ∷ rest) } in
      let one : before ++ (new ∷ rest) ≡ (before ++ (new ∷ [])) ++ rest =
        append_assoc_one before new rest in
      ap (check_timers callback now (length rest) (length before + 1)) (
        check_timer-fired now sys (length before)
        ∙ ap
            (λ l. record sys {
              last_tag = due_note note now (get_or l (length before) no_source) sys.last_tag;
              sources =
                  set l (length before) (fired answers now (get_or l (length before) no_source));
            })
            e
        ∙ ap
            (λ x. record sys {
              last_tag = due_note note now x sys.last_tag;
              sources = set (before ++ (src ∷ rest)) (length before) (fired answers now x);
            })
            (get_or-append before src rest)
        ∙ ap (λ l. record sys { last_tag = t; sources = l }) (set-append before src rest new))
      ∙ ap (λ n. check_timers callback now (length rest) n sys1)
          (omega (arith, length-append before (new ∷ [])))
      ∙ loop_lem now (before ++ (new ∷ [])) rest sys1 one
      ∙ ap (λ l. record sys { last_tag = notes note now rest t; sources = l })
          (sym (append_assoc_one before new (map (fired answers now) rest)))

  -- With callbacks that leave the table alone and may do anything to the last tag, the check of the timers does
  -- to each source what it should at the time `now`: timers that are due are due again after their delay, or
  -- are cleared, as their callbacks answer; all other sources stay; and the last tag is what the callbacks
  -- of the timers that are due leave of it, each called once and in the order of the table.
  pub check_timers-fired :
      (now : ℕ) (sys : Sys)
      → check_timers callback now (length sys.sources) 0 sys ≡ record sys {
        last_tag = notes note now sys.sources sys.last_tag;
        sources = map (fired answers now) sys.sources;
      }
  check_timers-fired now sys = loop_lem now [] sys.sources sys refl
