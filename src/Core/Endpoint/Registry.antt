-- ===== src/Core/Endpoint/Registry.antt =====
-- core/endpoint.c: the allocation and registration of endpoints.
use hakit.Base.{
  ℕ, ◌+◌, Bool, true, Option, none, some, List, [], ◌∷◌, ◌++◌, ◌&&◌, ◌||◌, not, if◌then◌else◌,
  get_elem?, length, find_from,
}
use hakit.Core.Tile.{modify}
use hakit.Core.Endpoint.{
  Owner, Sink, Source, Endpoints, no_ep, ep_init, set_widget, sink_eps, source_eps,
  sink_retrieve_by_full_name, source_retrieve_by_full_name, is_free, ep_sink, ep_source,
}

-- The widgets that an endpoint starts with.
abbrev pub switch_slide : List ℕ
switch_slide =
    b's' ∷ b'w' ∷ b'i' ∷ b't' ∷ b'c' ∷ b'h' ∷ b'-' ∷ b's' ∷ b'l' ∷ b'i' ∷ b'd' ∷ b'e' ∷ []

abbrev pub led_green : List ℕ
led_green = b'l' ∷ b'e' ∷ b'd' ∷ b'-' ∷ b'g' ∷ b'r' ∷ b'e' ∷ b'e' ∷ b'n' ∷ []

abbrev pub led_red : List ℕ
led_red = b'l' ∷ b'e' ∷ b'd' ∷ b'-' ∷ b'r' ∷ b'e' ∷ b'd' ∷ []

-- The end of `hk_sink_alloc`.
unfoldable pub sink_init : Sink → ℕ → Owner → ℕ → Bool → Sink
sink_init sink id obj trace_depth local =
    let ep = ep_init sink.ep ep_sink id obj trace_depth in
    record sink {
      ep =
          if local
          then set_widget (record ep { local = true }) (some switch_slide)
          else set_widget ep (some led_green);
      handlers = [];
    }

-- `hk_sink_alloc`. The id counts one too many for an entry that is used again.
unfoldable pub sink_alloc : Endpoints → Owner → Bool → ℕ × Endpoints
unfolding find_from
sink_alloc eps obj local = elim (find_from is_free 0 (sink_eps eps)) [
  | some i ↦ (
    i,
    record eps {
      sinks = modify eps.sinks i (λ sink. sink_init sink (i + 1) obj eps.trace_depth local);
    },
  )
  | none ↦
      let new : Sink = record { ep = no_ep ep_sink; handlers = []; local_source = none } in
      let i = length eps.sinks in
      (i, record eps { sinks = eps.sinks ++ (sink_init new i obj eps.trace_depth local ∷ []) })
]

-- `hk_sink_add_handler`
abbrev pub sink_add_handler : Endpoints → ℕ → ℕ → Endpoints
sink_add_handler eps i func = record eps {
  sinks = modify eps.sinks i (λ sink. record sink { handlers = sink.handlers ++ (func ∷ []) });
}

abbrev pub local_source_of : Option Sink → Option ℕ
local_source_of none = none
local_source_of (some sink) = sink.local_source

-- `hk_sink_local_connect`
unfoldable pub sink_local_connect : Endpoints → ℕ → ℕ → Endpoints
sink_local_connect eps i k = elim (local_source_of (get_elem? eps.sinks i)) [
  | some k' ↦ eps
  | none ↦ record eps {
    sources =
        modify eps.sources k
          (λ source. record source { local_sinks = source.local_sinks ++ (i ∷ []) });
    sinks = modify eps.sinks i (λ sink. record sink { local_source = some k });
  }
]

abbrev pub tile_key : Endpoints → Owner → Option (List ℕ)
tile_key eps obj = if eps.full_name then some obj.tile else none

-- `hk_sink_register`: the place of the sink, none if its name is taken.
unfoldable pub sink_register : Endpoints → Owner → Bool → Option ℕ × Endpoints
sink_register eps obj local = elim (sink_retrieve_by_full_name eps (tile_key eps obj) obj.name) [
  | some i ↦ (none, eps)
  | none ↦
      let (i, eps') = sink_alloc eps obj local in
      if not eps.full_name && not local
      then elim (source_retrieve_by_full_name eps' none obj.name) [
        | some k ↦ (some i, sink_local_connect eps' i k)
        | none ↦ (some i, eps')
      ]
      else (some i, eps')
]

-- The end of `hk_source_alloc`.
unfoldable pub source_init : Source → ℕ → Owner → ℕ → Bool → Bool → Source
source_init source id obj trace_depth local event =
    let ep = ep_init source.ep ep_source id obj trace_depth in
    record source {
      ep =
          set_widget (record ep { local = ep.local || local; event = ep.event || event })
            (some led_red);
      local_sinks = [];
    }

-- `hk_source_alloc`
unfoldable pub source_alloc : Endpoints → Owner → Bool → Bool → ℕ × Endpoints
unfolding find_from
source_alloc eps obj local event = elim (find_from is_free 0 (source_eps eps)) [
  | some k ↦ (
    k,
    record eps {
      sources =
          modify eps.sources k
            (λ source. source_init source (k + 1) obj eps.trace_depth local event);
    },
  )
  | none ↦
      let new : Source = record { ep = no_ep ep_source; local_sinks = [] } in
      let k = length eps.sources in
      (
        k,
        record eps {
          sources = eps.sources ++ (source_init new k obj eps.trace_depth local event ∷ []);
        },
      )
]

-- `hk_source_register`: the place of the source, none if its name is taken.
unfoldable pub source_register : Endpoints → Owner → Bool → Bool → Option ℕ × Endpoints
source_register eps obj local event =
    elim (source_retrieve_by_full_name eps (tile_key eps obj) obj.name) [
      | some k ↦ (none, eps)
      | none ↦
          let (k, eps') = source_alloc eps obj local event in
          if eps.full_name
          then elim (sink_retrieve_by_full_name eps' none obj.name) [
            | some i ↦ (some k, sink_local_connect eps' i k)
            | none ↦ (some k, eps')
          ]
          else (some k, eps')
    ]
