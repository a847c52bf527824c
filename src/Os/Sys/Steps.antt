-- ===== src/Os/Sys/Steps.antt =====
-- os/linux/sys.c: what the program does with the table of sources, step by step.
use hakit.Base.{
  ℕ, zero, suc, ◌+◌, ◌^◌, ◌<◌, ◌≡◌, inl, inr, refl, ap, true, false, Option, get_or, replicate,
  arith, Option-cases,
}
use hakit.Os.Sys.{
  nsources, Events, Source, Sys, no_source, init, set_source, retrieve, remove, retrieve_fd,
  remove_fd, io_source_add, set_up, io_watch, io_write_handler, io_poll, as_file, as_timeout,
  as_child, as_quit, sys_timeout, child_watch, quit_handler,
}
use hakit.Os.Sys.Tags.{
  tag_at, IsTagged, Retagged, Retagged-IsTagged, set_source-Retagged, set_up-Retagged,
  set_up-source_add-IsTagged,
}

-- One step: a call of an operation, with a tag left to give where it may add a source; or the loop
-- clears a source, or notes something in it but its tag.
pub data Step : Sys → Sys → Type 0 where
  add_timeout :
      (sys : Sys) (now delay func : ℕ)
      → sys.last_tag + 1 < 2 ^ 32
      → Step sys (sys_timeout sys now delay func).1
  add_watch :
      (sys : Sys) (fd func : ℕ) → sys.last_tag + 1 < 2 ^ 32 → Step sys (io_watch sys fd func).1
  add_poll :
      (sys : Sys) (fd : ℕ) (events : Events) (func : ℕ)
      → sys.last_tag + 1 < 2 ^ 32
      → Step sys (io_poll sys fd events func).1
  add_child :
      (sys : Sys) (pid func : ℕ) → sys.last_tag + 1 < 2 ^ 32 → Step sys (child_watch sys pid func).1
  add_quit : (sys : Sys) (func : ℕ) → sys.last_tag + 1 < 2 ^ 32 → Step sys (quit_handler sys func).1
  set_writer :
      (sys : Sys) (tag : ℕ) (wfunc : Option ℕ) → Step sys (io_write_handler sys tag wfunc).1
  remove_tag : (sys : Sys) (tag : ℕ) → Step sys (remove sys tag)
  remove_file : (sys : Sys) (fd : ℕ) → Step sys (remove_fd sys fd)
  clear : (sys : Sys) (i : ℕ) → Step sys (set_source sys i no_source)
  note :
      (sys : Sys) (i : ℕ) (src : Source) → src.tag ≡ tag_at sys i → Step sys (set_source sys i src)

pub data Reached : Sys → Type 0 where
  start : Reached init
  after : (sys sys' : Sys) → Reached sys → Step sys sys' → Reached sys'

same_source : (sys : Sys) → Retagged sys sys
same_source sys = record { latest = refl; tags = λ i. inl refl }

io_set_up-IsTagged :
    (f : Source → Source) (keeps : (src : Source) → (f src).tag ≡ src.tag) (sys : Sys) (fd func : ℕ)
    → sys.last_tag + 1 < 2 ^ 32
    → IsTagged sys
    → IsTagged (set_up f (io_source_add sys fd func)).1
unfolding io_source_add
io_set_up-IsTagged f keeps sys fd func small k = elim (Option-cases (retrieve_fd sys fd)) [
  | inl e ↦ rw (io_source_add, e) (set_up-source_add-IsTagged f keeps sys func small k)
  | inr (i, e) ↦ rw (io_source_add, e) (Retagged-IsTagged (set_up-Retagged f keeps i sys) k)
]

io_write_handler-Retagged :
    (sys : Sys) (tag : ℕ) (wfunc : Option ℕ) → Retagged sys (io_write_handler sys tag wfunc).1
unfolding io_write_handler
io_write_handler-Retagged sys tag wfunc = elim (Option-cases (retrieve sys tag)) [
  | inl e ↦ rw (io_write_handler, e) (same_source sys)
  | inr (i, e) ↦ rw (io_write_handler, e) (set_source-Retagged sys i _ (inl refl))
]

remove-Retagged : (sys : Sys) (tag : ℕ) → Retagged sys (remove sys tag)
unfolding remove
remove-Retagged sys tag = elim (Option-cases (retrieve sys tag)) [
  | inl e ↦ rw (remove, e) (same_source sys)
  | inr (i, e) ↦ rw (remove, e) (set_source-Retagged sys i _ (inl refl))
]

remove_fd-Retagged : (sys : Sys) (fd : ℕ) → Retagged sys (remove_fd sys fd)
unfolding remove_fd
remove_fd-Retagged sys fd = elim (Option-cases (retrieve_fd sys fd)) [
  | inl e ↦ rw (remove_fd, e) (same_source sys)
  | inr (i, e) ↦ rw (remove_fd, e) (set_source-Retagged sys i _ (inl refl))
]

Step-IsTagged : {sys sys' : Sys} → Step sys sys' → IsTagged sys → IsTagged sys'
unfolding sys_timeout io_watch io_poll child_watch quit_handler
Step-IsTagged (add_timeout sys now delay func small) k =
    set_up-source_add-IsTagged (as_timeout now delay) (λ src. refl) sys func small k
Step-IsTagged (add_watch sys fd func small) k =
    io_set_up-IsTagged (as_file fd (record { readable = true; writable = false }) false)
      (λ src. refl) sys fd func small k
Step-IsTagged (add_poll sys fd events func small) k =
    io_set_up-IsTagged (as_file fd events true) (λ src. refl) sys fd func small k
Step-IsTagged (add_child sys pid func small) k =
    set_up-source_add-IsTagged (as_child pid) (λ src. refl) sys func small k
Step-IsTagged (add_quit sys func small) k =
    set_up-source_add-IsTagged as_quit (λ src. refl) sys func small k
Step-IsTagged (set_writer sys tag wfunc) k =
    Retagged-IsTagged (io_write_handler-Retagged sys tag wfunc) k
Step-IsTagged (remove_tag sys tag) k = Retagged-IsTagged (remove-Retagged sys tag) k
Step-IsTagged (remove_file sys fd) k = Retagged-IsTagged (remove_fd-Retagged sys fd) k
Step-IsTagged (clear sys i) k = Retagged-IsTagged (set_source-Retagged sys i no_source (inr refl)) k
Step-IsTagged (note sys i src same) k =
    Retagged-IsTagged (set_source-Retagged sys i src (inl same)) k

get_or-vacant : (n i : ℕ) → get_or (replicate n no_source) i no_source ≡ no_source
get_or-vacant zero i = refl
get_or-vacant (suc n) zero = refl
get_or-vacant (suc n) (suc i) = get_or-vacant n i

-- In every table that the program reaches before the tags of 32 bits have been used up, that is, where each
-- call that may add a source finds the last tag below 2^32 - 1: no tag is above the last one given, and no
-- two sources have the same, where 0 stands for none.
pub Reached-IsTagged : {sys : Sys} → Reached sys → IsTagged sys
Reached-IsTagged start = record {
  given = λ i. omega (arith, ap (λ s. s.tag) (get_or-vacant nsources i));
  distinct = λ i j tagged same. absurd (tagged (ap (λ s. s.tag) (get_or-vacant nsources i)));
}
Reached-IsTagged (after before sys reached step) = Step-IsTagged step (Reached-IsTagged reached)
