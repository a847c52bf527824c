-- ===== src/Os/Sys/Loop.antt =====
-- os/linux/sys.c: one round of `sys_run`. `now` is the time at its start; what `poll` and `waitpid`
-- report are arguments.
use hakit.Base.{
  ℕ, zero, suc, ◌+◌, ◌-◌, Bool, false, none, some, List, [], ◌∷◌, ◌==◌, ◌&&◌, ◌||◌, not,
  if◌then◌else◌, ltb, leb, get_or, map, ℤ, pos, negsuc, leb_ℤ, ltb_ℤ, eq_ℤ,
}
use hakit.Os.Sys.{
  nsources, Kind, free, timeout, io, child, quit, removed, Events, Source, Sys, no_source,
  no_events, is_kind, set_source,
}

-- What a callback is called for.
pub data Call : Type 0 where
  expired : Call
  ready : Events → Call
  readable : Call
  writable : Call
  exited : ℕ → ℕ → Call
  quitting : Call

abbrev pub source_at : Sys → ℕ → Source
source_at sys i = get_or sys.sources i no_source

-- POLLOUT is no longer asked for.
abbrev pub stop_writing : Sys → ℕ → Sys
stop_writing sys i =
    let src = source_at sys i in
    set_source sys i (record src { events = record src.events { writable = false } })

-- What follows the callback of a timer: it is due again after its delay, from now.
unfoldable pub rearm : ℕ → ℕ → ℤ × Sys → Sys
rearm now i (ret, sys) =
    let src = source_at sys i in
    if not (eq_ℤ ret (pos 0)) && is_kind src.kind timeout
    then set_source sys i (record src { t = now + src.delay })
    else sys

module _ (callback : ℕ → Call → Sys → ℤ × Sys) where
  -- The part of `sys_callback` for POLLOUT.
  unfoldable pub write_ready : Sys → ℕ → Sys
  write_ready sys i =
      let src = source_at sys i in
      if src.revents.writable
      then elim src.wfunc [
        | none ↦ stop_writing sys i
        | some f ↦
            let (cont, sys') = callback f writable sys in
            if eq_ℤ cont (pos 0) then stop_writing sys' i else sys'
      ]
      else sys

  -- The part of `sys_callback` for a watched file.
  unfoldable pub watch_ready : Sys → ℕ → ℕ → ℤ × Sys
  unfolding write_ready
  watch_ready sys i f =
      let src = source_at sys i in
      let (ret, sys') =
        (if src.revents.readable then callback f readable sys else (negsuc 0, sys)) in
      if eq_ℤ ret (pos 0) then (ret, sys') else (pos 1, write_ready sys' i)

  -- The part of `sys_callback` for a source with a callback.
  unfoldable pub invoke : Sys → ℕ → Source → ℕ → Kind → ℤ × Sys
  unfolding watch_ready
  invoke sys i src f io =
      if src.poll then callback f (ready src.revents) sys else watch_ready sys i f
  invoke sys i src f child = callback f (exited src.pid src.status) sys
  invoke sys i src f quit = callback f quitting sys
  invoke sys i src f free = callback f expired sys
  invoke sys i src f timeout = callback f expired sys
  invoke sys i src f removed = callback f expired sys

  -- `sys_callback`, of the source at place `i`.
  unfoldable pub sys_callback : Sys → ℕ → ℤ × Sys
  unfolding invoke
  sys_callback sys i =
      let src = source_at sys i in
      let result : ℤ × Sys = elim src.func [
        | none ↦ (negsuc 0, sys)
        | some f ↦ invoke sys i src f src.kind
      ] in
      let (ret, sys') = result in
      (ret, if leb_ℤ ret (pos 0) then set_source sys' i no_source else sys')

  -- The check of the timer at place `i`.
  unfoldable pub check_timer : ℕ → Sys → ℕ → Sys
  check_timer now sys i =
      let src = source_at sys i in
      if is_kind src.kind timeout && leb src.t now then rearm now i (sys_callback sys i) else sys

  -- The first loop of a round, over the places from `i` on.
  unfoldable pub check_timers : ℕ → ℕ → ℕ → Sys → Sys
  check_timers now zero i sys = sys
  check_timers now (suc n) i sys = check_timers now n (i + 1) (check_timer now sys i)

  -- The loop over what `poll` reports: `polled` says of which places it was asked.
  unfoldable pub check_files : List Bool → (ℕ → Events) → ℕ → ℕ → Sys → Sys
  unfolding sys_callback
  check_files polled reports zero i sys = sys
  check_files polled reports (suc n) i sys =
      let src = source_at sys i in
      let revents = reports i in
      let called = (sys_callback (set_source sys i (record src { revents = revents })) i).1 in
      check_files polled reports n (i + 1) (
        if is_kind src.kind io && get_or polled i false && (revents.readable || revents.writable)
        then called
        else sys)

  -- The loop over the sources in `sys_waitpid`, for one child that ended.
  unfoldable pub child_exits : ℕ → ℕ → ℕ → ℕ → Sys → Sys
  unfolding sys_callback
  child_exits pid status zero i sys = sys
  child_exits pid status (suc n) i sys =
      let src = source_at sys i in
      let called = (sys_callback (set_source sys i (record src { status = status })) i).1 in
      child_exits pid status n (i + 1)
        (if is_kind src.kind child && src.pid == pid then set_source called i no_source else sys)

  -- The loop after the end of the rounds.
  unfoldable pub quit_all : ℕ → ℕ → Sys → Sys
  unfolding sys_callback
  quit_all zero i sys = sys
  quit_all (suc n) i sys =
      let called = (sys_callback sys i).1 in
      quit_all n (i + 1)
        (if is_kind (source_at sys i).kind quit then set_source called i no_source else sys)

-- The loop that prepares `poll`: the time to wait so far, -1 for no limit, and the source as it stays.
unfoldable pub next_timeout : ℕ → ℤ → List Source → ℤ
next_timeout now wait [] = wait
next_timeout now wait (src ∷ sources) =
    next_timeout now
      (if is_kind src.kind timeout
          && ltb now src.t
          && (ltb_ℤ wait (pos 0) || ltb_ℤ (pos (src.t - now)) wait)
        then pos (src.t - now)
        else wait)
      sources

abbrev pub settle : Source → Source
settle src =
    if is_kind src.kind io
    then record src { revents = no_events }
    else if is_kind src.kind removed
    then no_source
    else src

-- What the world does in one round: the time at its start, what `poll` reports of the places it is
-- given with the time to wait, and the children that ended, each with its status.
pub record Round : Type 0 where
  pub now : ℕ
  pub poll : List Bool → ℤ → ℕ → Events
  pub ended : List (ℕ × ℕ)

module _ (callback : ℕ → Call → Sys → ℤ × Sys) where
  -- `sys_waitpid`
  unfoldable pub wait_children : List (ℕ × ℕ) → Sys → Sys
  unfolding child_exits
  wait_children [] sys = sys
  wait_children ((pid, status) ∷ ended) sys =
      wait_children ended (child_exits callback pid status nsources 0 sys)

  -- The body of the loop of `sys_run`.
  unfoldable pub round : Round → Sys → Sys
  unfolding check_timers next_timeout check_files wait_children
  round r sys =
      let sys1 = check_timers callback r.now nsources 0 sys in
      let wait = next_timeout r.now (negsuc 0) sys1.sources in
      let sys2 = record sys1 { sources = map settle sys1.sources } in
      let polled = map (λ src. is_kind src.kind io) sys2.sources in
      wait_children r.ended (check_files callback polled (r.poll polled wait) nsources 0 sys2)

  -- `sys_run`, over the rounds that the world goes through.
  unfoldable pub sys_run : List Round → Sys → Sys
  unfolding round quit_all
  sys_run [] sys = if sys.quit_requested then quit_all callback nsources 0 sys else sys
  sys_run (r ∷ rounds) sys =
      let rest = sys_run rounds (round r sys) in
      if sys.quit_requested then quit_all callback nsources 0 sys else rest
