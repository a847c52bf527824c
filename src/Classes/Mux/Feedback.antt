-- ===== src/Classes/Mux/Feedback.antt =====
-- classes/mux/main.c under core/mod.c: a multiplexer whose output goes back to its selected input.
use hakit.Base.{
  ℕ, zero, suc, ◌≡◌, refl, Bool, true, false, Option, none, some, List, [], ◌∷◌, pos, show_ℤ,
}
use hakit.Core.Tile.{in_, out, modify}
use hakit.Core.Tile.Update.{
  World, update_input, Handler, notify, update_all, update_net, handle, run,
}
use hakit.Classes.Calls
use hakit.Classes.Mux

-- The updates among the calls of a handler.
abbrev pub updates_of : List Calls.Call → List (ℕ × List ℕ)
updates_of [] = []
updates_of (Calls.update_int p v ∷ calls) = (p, show_ℤ v) ∷ updates_of calls
updates_of (Calls.update_str p v ∷ calls) = (p, v) ∷ updates_of calls
updates_of (Calls.sys_remove t ∷ calls) = updates_of calls
updates_of (Calls.sys_timeout t d ∷ calls) = updates_of calls

abbrev pub in0_handler : Handler Mux.Ctx
in0_handler ctx value = let (c, calls) = Mux.input ctx (Mux.in_ 0) value in (c, updates_of calls)

-- The handler of the multiplexer: pad 0 is its output, pad 1 is `in0`.
abbrev pub mux_input : ℕ → Option (Handler Mux.Ctx)
mux_input zero = none
mux_input (suc p) = some in0_handler

-- Both pads are on one net. `in0` is selected and not locked.
abbrev pub feedback : Bool → Option (List ℕ) → Option (List ℕ) → Option (List ℕ) → World Mux.Ctx
feedback lock value_out value_in0 stored = record {
  tile = record {
    objs = [];
    pads =
        record { obj = 0; dir = out; name = []; value = value_out; net = some 0; lock = lock }
        ∷ record { obj = 0; dir = in_; name = []; value = value_in0; net = some 0; lock = false }
        ∷ [];
    nets = record { id = 1; pads = 0 ∷ 1 ∷ [] } ∷ [];
    net_tab = 0 ∷ [];
  };
  state = record { sel = pos 0; inputs = some stored ∷ [] };
}

-- A multiplexer whose output is on the net of its selected input: a value that comes to that input is
-- sent round for ever, whatever depth of calls there is room for. Updating the input pad from within
-- its own handler takes off the lock that should stop it.
pub feedback-diverges :
    (fuel : ℕ) (lock : Bool) (value_out value_in0 stored : Option (List ℕ)) (value : List ℕ)
    → run mux_input fuel (feedback lock value_out value_in0 stored) (update_input 1 value) ≡ none
unfolding run handle update_all update_net notify modify Mux.input
feedback-diverges zero lock a b c value = refl
feedback-diverges (suc zero) lock a b c value = refl
feedback-diverges (suc (suc fuel)) lock a b c value =
    rw (feedback-diverges fuel true (some value) (some value) (some value) value) refl
