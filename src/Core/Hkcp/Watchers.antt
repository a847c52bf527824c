-- ===== src/Core/Hkcp/Watchers.antt =====
-- core/hkcp.c: the line that the clients that watch are sent, which is cut to the size of a local buffer.
use hakit.Base.{
  ℕ, ◌+◌, ◌-◌, ◌≤◌, ◌<◌, ◌≡◌, ◌↔◌, sym, ap, ◌∙◌, true, List, [], ◌∷◌, ◌++◌, ltb, length, take,
  arith, length-append, length-take, take-append-drop, drop_all, append-nil,
}
use hakit.Core.Endpoint.{Owner, Endpoints}
use hakit.Core.Hkcp.Clients.{watch_text, watch_event, str_size}

take_le : (n : ℕ) (s : List ℕ) → length s ≤ n → take n s ≡ s
take_le n s small =
    sym (append-nil (take n s))
    ∙ ap (λ r. take n s ++ r) (sym (drop_all n s small))
    ∙ take-append-drop n s

pub take_whole : (n : ℕ) (s : List ℕ) → (take n s ≡ s) ↔ (length s ≤ n)
take_whole n s = (λ e. omega (arith, length-take n s, ap length e), take_le n s)

length-watch_text :
    (eps : Endpoints) (obj : Owner) (value : List ℕ)
    → 1 < eps.tiles
    → length (watch_text eps obj value) ≡ length obj.tile + length obj.name + length value + 4
length-watch_text eps obj value many =
    let named = obj.name ++ (b'=' ∷ (value ++ (10 ∷ []))) in
    let test : ltb 1 eps.tiles ≡ true = ground arith in
    rw test (
      omega (
        arith,
        length-append obj.tile (b'.' ∷ named),
        length-append obj.name (b'=' ∷ (value ++ (10 ∷ []))),
        length-append value (10 ∷ []),
      ))

-- Where there are several tiles, the line is whole just if the name of the tile has at most 15 bytes; else
-- its end is cut off, with the newline.
pub watch_event-whole :
    (eps : Endpoints) (obj : Owner) (value : List ℕ)
    → 1 < eps.tiles
    → (watch_event eps obj value ≡ watch_text eps obj value) ↔ (length obj.tile ≤ 15)
watch_event-whole eps obj value many =
    let (cut, whole) = take_whole (str_size obj value - 1) (watch_text eps obj value) in
    (
      λ e. omega (arith, cut e, length-watch_text eps obj value many),
      λ small. whole (omega (arith, length-watch_text eps obj value many)),
    )
