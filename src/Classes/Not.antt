-- ===== src/Classes/Not.antt =====
-- classes/not/main.c: the inverter. Its input pad holds the inverted state; the output pad's own
-- state is never set.
use hakit.Base.{ℕ, List, [], ◌∷◌, pos, ◌-◌}
use hakit.Classes.Calls.{Call, update_int, as_bit}

pub record Ctx : Type 0 where
  pub input : ℕ

-- `_new`
unfoldable pub new : Ctx
new = record { input = 0 }

-- `_input`
unfoldable pub input : Ctx → List ℕ → Ctx × List Call
unfolding as_bit
input ctx value =
    let state = 1 - as_bit value in (record ctx { input = state }, update_int 0 (pos state) ∷ [])
