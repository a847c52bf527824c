-- ===== src/Core/Comm/Events.antt =====
-- core/comm.c: the event of an endpoint for the web server, in its local buffer.
use hakit.Base.{
  ℕ, ◌+◌, ◌-◌, ◌≤◌, ◌<◌, ◌≡◌, ◌↔◌, true, List, ◌∷◌, ◌++◌, ltb, length, arith, length-append, show_ℕ,
}
use hakit.Core.Endpoint.{Owner, Endpoints}
use hakit.Core.Hkcp.Watchers.{take_whole}
use hakit.Core.Comm.{ws_text, ws_event, ws_named, ws_size}

length-ws_named :
    (obj : Owner) (value : List ℕ)
    → length (ws_named obj value) ≡ length obj.name + length value + 1
length-ws_named obj value = omega (arith, length-append obj.name (b'=' ∷ value))

length-ws_text :
    (eps : Endpoints) (now : ℕ) (obj : Owner) (value : List ℕ)
    → 1 < eps.tiles
    → length (ws_text eps now obj value)
      ≡ length (show_ℕ now) + length obj.tile + length obj.name + length value + 4
length-ws_text eps now obj value many =
    let test : ltb 1 eps.tiles ≡ true = ground arith in
    rw test (
      omega (
        arith,
        length-append (show_ℕ now) (b',' ∷ (obj.tile ++ (b'.' ∷ ws_named obj value))),
        length-append obj.tile (b'.' ∷ ws_named obj value),
        length-ws_named obj value,
      ))

-- Where there are several tiles, the event is whole just if the time has at most 19 digits, whatever the
-- names and the value are.
pub ws_event-whole :
    (eps : Endpoints) (now : ℕ) (obj : Owner) (value : List ℕ)
    → 1 < eps.tiles
    → (ws_event eps now obj value ≡ ws_text eps now obj value) ↔ (length (show_ℕ now) ≤ 19)
ws_event-whole eps now obj value many =
    let (cut, whole) = take_whole (ws_size obj value - 1) (ws_text eps now obj value) in
    (
      λ e. omega (arith, cut e, length-ws_text eps now obj value many),
      λ small. whole (omega (arith, length-ws_text eps now obj value many)),
    )
