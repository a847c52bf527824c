-- ===== src/Os/Sys.antt =====
-- os/linux/sys.c: the event loop. A callback is known by a number, which stands for the function and its
-- argument; what it returns, and what it does to the table of sources, is the parameter `callback` of
-- the loop. Of the events of a file, those that are read and POLLOUT are told apart. Times are in
-- milliseconds and unbounded; tags have 32 bits.
pub mod Places
pub mod Loop
pub mod Removal
pub mod Steps
pub mod Tags
pub mod Timers
pub mod Waiting
use hakit.Base.{
  ℕ, zero, suc, ◌+◌, ◌%◌, ◌^◌, Bool, true, false, Option, none, some, List, [], ◌∷◌, ◌==◌, ◌&&◌,
  if◌then◌else◌, get_elem?, get_or, set, replicate, find_from,
}

abbrev pub nsources : ℕ
nsources = 256

-- `sys_type_t`; `free` is SYS_TYPE_NONE.
pub data Kind : Type 0 where
  free timeout io child quit removed : Kind

pub record Events : Type 0 where
  pub readable : Bool
  pub writable : Bool

-- `sys_source_t`, with the members of its union side by side.
pub record Source : Type 0 where
  pub tag : ℕ
  pub func : Option ℕ
  pub wfunc : Option ℕ
  pub kind : Kind
  pub fd : ℕ
  pub events : Events
  pub revents : Events
  pub poll : Bool
  pub delay : ℕ
  pub t : ℕ
  pub pid : ℕ
  pub status : ℕ

pub record Sys : Type 0 where
  pub last_tag : ℕ
  pub quit_requested : Bool
  pub sources : List Source

abbrev pub no_events : Events
no_events = record { readable = false; writable = false }

-- What `sys_source_clear` leaves.
abbrev pub no_source : Source
no_source = record {
  tag = 0;
  func = none;
  wfunc = none;
  kind = free;
  fd = 0;
  events = no_events;
  revents = no_events;
  poll = false;
  delay = 0;
  t = 0;
  pid = 0;
  status = 0;
}

abbrev pub init : Sys
init = record { last_tag = 0; quit_requested = false; sources = replicate nsources no_source }

abbrev pub is_kind : Kind → Kind → Bool
is_kind free free = true
is_kind timeout timeout = true
is_kind io io = true
is_kind child child = true
is_kind quit quit = true
is_kind removed removed = true
is_kind k l = false

abbrev pub set_source : Sys → ℕ → Source → Sys
set_source sys i src = record sys { sources = set sys.sources i src }

-- `sys_source_add`: the place of the new source, none if the table is full. Its tag follows on the
-- latest one.
pub source_add : Sys → ℕ → Option ℕ × Sys
unfolding find_from
source_add sys func = elim (find_from (λ src. src.tag == 0) 0 sys.sources) [
  | none ↦ (none, sys)
  | some i ↦
      let tag = (sys.last_tag + 1) % 2 ^ 32 in
      (
        some i,
        set_source (record sys { last_tag = tag }) i
            (record no_source { tag = tag; func = some func }),
      )
]

-- `sys_retrieve`
pub retrieve : Sys → ℕ → Option ℕ
unfolding find_from
retrieve sys tag = find_from (λ src. src.tag == tag) 0 sys.sources

pub remove : Sys → ℕ → Sys
unfolding retrieve
remove sys tag = elim (retrieve sys tag) [
  | none ↦ sys
  | some i ↦
      set_source sys i
        (record (get_or sys.sources i no_source) { kind = removed; func = none; wfunc = none })
]

pub retrieve_fd : Sys → ℕ → Option ℕ
unfolding find_from
retrieve_fd sys fd = find_from (λ src. is_kind src.kind io && src.fd == fd) 0 sys.sources

-- The write handler stays.
pub remove_fd : Sys → ℕ → Sys
unfolding retrieve_fd
remove_fd sys fd = elim (retrieve_fd sys fd) [
  | none ↦ sys
  | some i ↦
      set_source sys i (record (get_or sys.sources i no_source) { kind = removed; func = none })
]

-- `sys_io_source_add`: a source that watches the file already is taken as it is.
pub io_source_add : Sys → ℕ → ℕ → Option ℕ × Sys
unfolding retrieve_fd source_add
io_source_add sys fd func = elim (retrieve_fd sys fd) [
  | some i ↦ (some i, sys)
  | none ↦ source_add sys func
]

-- The end of the functions that set up a source: its tag, 0 if there is none.
abbrev pub set_up : (Source → Source) → Option ℕ × Sys → ℕ × Sys
set_up f (none, sys) = (0, sys)
set_up f (some i, sys) =
    let src = get_or sys.sources i no_source in (src.tag, set_source sys i (f src))

abbrev pub as_file : ℕ → Events → Bool → Source → Source
as_file fd events poll src = record src {
  kind = io;
  fd = fd;
  events = events;
  revents = no_events;
  poll = poll;
}

abbrev pub as_timeout : ℕ → ℕ → Source → Source
as_timeout now delay src = record src { kind = timeout; delay = delay; t = delay + now }

abbrev pub as_child : ℕ → Source → Source
as_child pid src = record src { kind = child; pid = pid }

abbrev pub as_quit : Source → Source
as_quit src = record src { kind = quit }

pub io_watch : Sys → ℕ → ℕ → ℕ × Sys
unfolding io_source_add
io_watch sys fd func =
    set_up (as_file fd (record { readable = true; writable = false }) false)
      (io_source_add sys fd func)

pub io_write_handler : Sys → ℕ → Option ℕ → Bool × Sys
unfolding retrieve
io_write_handler sys tag wfunc = elim (retrieve sys tag) [
  | none ↦ (false, sys)
  | some i ↦
      let src = get_or sys.sources i no_source in
      let writable : Bool = elim wfunc [ none ↦ false | some f ↦ true ] in
      (
        true,
        set_source sys i
            (record src { events = record src.events { writable = writable }; wfunc = wfunc }),
      )
]

pub io_poll : Sys → ℕ → Events → ℕ → ℕ × Sys
unfolding io_source_add
io_poll sys fd events func = set_up (as_file fd events true) (io_source_add sys fd func)

-- `sys_timeout`, at the time `now`.
pub sys_timeout : Sys → ℕ → ℕ → ℕ → ℕ × Sys
unfolding source_add
sys_timeout sys now delay func = set_up (as_timeout now delay) (source_add sys func)

pub child_watch : Sys → ℕ → ℕ → ℕ × Sys
unfolding source_add
child_watch sys pid func = set_up (as_child pid) (source_add sys func)

pub quit_handler : Sys → ℕ → ℕ × Sys
unfolding source_add
quit_handler sys func = set_up as_quit (source_add sys func)

abbrev pub sys_quit : Sys → Sys
sys_quit sys = record sys { quit_requested = true }
