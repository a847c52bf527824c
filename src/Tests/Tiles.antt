-- ===== src/Tests/Tiles.antt =====
-- core/mod.c and core/mod_load.c: the theorems at concrete inputs.
use mathlib.Core.Option.{some-injective}
use hakit.Base.{ℤ, pos, negsuc, eq_bytes}
use hakit.Base.{
  ℕ, zero, suc, ◌+◌, ◌≡◌, refl, subst, true, false, Option, none, some, if◌then◌else◌, List, [],
  ◌∷◌, arith,
}
use hakit.Core.Tile.{Dir, in_, out, Pad, Tile, net_of, pads_of, join}
use hakit.Core.Tile.Connections.{count}
use hakit.Core.Tile.Nets.{is_net, IsConnected}
use hakit.Core.Tile.Joins.{Joined, join-Joined}
use hakit.Core.Tile.Update.Broadcast.{receivers, feed_all, run-feed_all}
use hakit.Core.Tile.Update.{set_value, set_lock, World, Handler, update_str, update_input, run}
use hakit.Core.Tile.Update.Locks.{AllOut}
use hakit.Core.Tile.Update.Returns.{Ends, run-returns}
use hakit.Core.Command.{until_newline}
use hakit.Core.StrArgv.{skip_blanks, str_argv, split}
use hakit.Core.ModLoad.{
  tile_load, load_chunks, load_chunk, load_lines, check_line, line_end, flush_line, finish,
  load_line, load_text, load_object, until_colon,
}
use hakit.Classes.Mux.Feedback.{mux_input, feedback, feedback-diverges}

abbrev pad : Dir → Option ℕ → Pad
pad dir net = record { obj = 0; dir = dir; name = []; value = none; net = net; lock = false }

-- Two nets of two pads each.
abbrev two_nets : Tile
two_nets = record {
  objs = [];
  pads = pad out (some 0) ∷ pad in_ (some 0) ∷ pad out (some 1) ∷ pad in_ (some 1) ∷ [];
  nets = record { id = 1; pads = 0 ∷ 1 ∷ [] } ∷ record { id = 2; pads = 2 ∷ 3 ∷ [] } ∷ [];
  net_tab = 0 ∷ 1 ∷ [];
}

two_nets-once :
    (p n : ℕ) → count p (pads_of two_nets n) ≡ (if is_net (net_of two_nets p) n then 1 else 0)
two_nets-once zero zero = refl
two_nets-once zero (suc zero) = refl
two_nets-once zero (suc (suc n)) = ground arith
two_nets-once (suc zero) zero = refl
two_nets-once (suc zero) (suc zero) = refl
two_nets-once (suc zero) (suc (suc n)) = ground arith
two_nets-once (suc (suc zero)) zero = refl
two_nets-once (suc (suc zero)) (suc zero) = refl
two_nets-once (suc (suc zero)) (suc (suc n)) = ground arith
two_nets-once (suc (suc (suc zero))) zero = refl
two_nets-once (suc (suc (suc zero))) (suc zero) = refl
two_nets-once (suc (suc (suc zero))) (suc (suc n)) = ground arith
two_nets-once (suc (suc (suc (suc p)))) zero = ground arith
two_nets-once (suc (suc (suc (suc p)))) (suc zero) = ground arith
two_nets-once (suc (suc (suc (suc p)))) (suc (suc n)) = ground arith

two_nets-IsConnected : IsConnected two_nets
two_nets-IsConnected = record { once = two_nets-once }

join-Joined_example : Joined two_nets (join two_nets 1 2) 1 2
join-Joined_example = join-Joined two_nets 1 2 two_nets-IsConnected (omega arith) (omega arith)

-- Pad 0 is an output of one object. Pad 1 is the input and pad 2 the output of another, which counts and
-- passes on what comes. All are on one net.
abbrev ring : World ℕ
ring = record {
  tile = record {
    objs = [];
    pads = pad out (some 0) ∷ pad in_ (some 0) ∷ pad out (some 0) ∷ [];
    nets = record { id = 1; pads = 0 ∷ 1 ∷ 2 ∷ [] } ∷ [];
    net_tab = 0 ∷ [];
  };
  state = 0;
}

abbrev count_and_pass : Handler ℕ
count_and_pass n value = (n + 1, (2, value) ∷ [])

abbrev ring_input : ℕ → Option (Handler ℕ)
ring_input zero = none
ring_input (suc zero) = some count_and_pass
ring_input (suc (suc p)) = none

ring-outputs :
    (p : ℕ) (handler : Handler ℕ) (s : ℕ) (value : List ℕ)
    → ring_input p ≡ some handler
    → AllOut (out ∷ in_ ∷ out ∷ []) (handler s value).1
ring-outputs zero handler s value e = absurd (ground (arith, e))
ring-outputs (suc zero) handler s value e =
    subst (λ h. AllOut (out ∷ in_ ∷ out ∷ []) (h s value).1) (some-injective _ _ e) (refl, tt)
ring-outputs (suc (suc p)) handler s value e = absurd (ground (arith, e))

run-returns_example : Ends ring (run ring_input 4 ring (update_str 0 (b'1' ∷ [])))
run-returns_example =
    run-returns ring_input (out ∷ in_ ∷ out ∷ []) ring-outputs ring 0 (b'1' ∷ []) 4 refl refl
      (omega arith)

feedback-diverges_example :
    run mux_input 9 (feedback false none none none) (update_input 1 (b'1' ∷ [])) ≡ none
feedback-diverges_example = feedback-diverges 9 false none none none (b'1' ∷ [])

-- The handlers keep the values that come, and update nothing.
abbrev keep : Handler (List (List ℕ))
keep values value = (value ∷ values, [])

abbrev star_input : ℕ → Option (Handler (List (List ℕ)))
star_input p = some keep

star-quiet :
    (q : ℕ) (handler : Handler (List (List ℕ))) (s : List (List ℕ)) (value : List ℕ)
    → star_input q ≡ some handler
    → (handler s value).1 ≡ []
star-quiet q handler s value e = subst (λ h. (h s value).1 ≡ []) (some-injective _ _ e) refl

abbrev star : World (List (List ℕ))
star = record { tile = ring.tile; state = [] }

run-feed_all_example :
    run star_input 2 star (update_str 0 (b'1' ∷ []))
    ≡ some (record {
      tile = set_lock (set_lock (set_value star.tile 0 (b'1' ∷ [])) 0 true) 0 false;
      state = feed_all star_input (b'1' ∷ []) (receivers star.tile 0 (pads_of star.tile 0)) [];
    })
run-feed_all_example = run-feed_all star_input star-quiet 0 star 0 0 (b'1' ∷ []) refl

-- A line "a:" with no class is an error, and the section behind it hides that.
abbrev bad_file : List ℕ
bad_file = b'a' ∷ b':' ∷ 10 ∷ b'[' ∷ b'n' ∷ b']' ∷ 10 ∷ b'x' ∷ []

abbrev bad_line : List ℕ
bad_line = b'a' ∷ b':' ∷ []

abbrev empty_tile : Tile
empty_tile = record { objs = []; pads = []; nets = []; net_tab = [] }

abbrev no_new : ℕ → ℕ → Tile → ℤ × Tile
no_new k o t = (pos 0, t)

bad_line_fails : (tile_load [] no_new true empty_tile (bad_line ∷ [])).0 ≡ negsuc 0
unfolding tile_load load_chunks load_chunk load_lines check_line line_end flush_line finish
    load_line load_text load_object until_colon until_newline skip_blanks str_argv split
bad_line_fails = refl

bad_file_passes : (tile_load [] no_new true empty_tile (bad_file ∷ [])).0 ≡ pos 0
unfolding tile_load load_chunks load_chunk load_lines check_line line_end flush_line finish
    load_line load_text load_object until_colon until_newline skip_blanks str_argv split eq_bytes
bad_file_passes = refl
