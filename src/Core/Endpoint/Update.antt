-- ===== src/Core/Endpoint/Update.antt =====
-- core/endpoint.c: an update of a source reaches the sinks that are connected to it. What a handler does
-- is the parameter `handler`, given the place of the sink it is called for, the endpoints, which it may
-- update in its turn, and a state of its own. The handlers of a sink and the connections stay during an
-- update. `tstamp_ms()` is the argument `now`.
use hakit.Base.{ℕ, true, false, none, some, List, [], ◌∷◌, if◌then◌else◌, get_elem?}
use hakit.Core.Tile.{modify}
use hakit.Core.Endpoint.{Ep, Sink, Source, Endpoints, sink_retrieve_by_name}
use hakit.Core.Trace

abbrev pub charted : Ep → ℕ → List ℕ → Ep
charted ep now value = elim ep.chart [
  | none ↦ ep
  | some chart ↦ record ep { tr = Trace.push ep.tr now value }
]

-- What `hk_sink_update` writes before it calls the handlers.
unfoldable pub sink_set : ℕ → List ℕ → Sink → Sink
sink_set now value s =
    let ep : Ep = record s.ep { value = value } in
    let traced : Ep = elim s.local_source [ none ↦ charted ep now value | some k ↦ ep ] in
    record s { ep = record traced { locked = true } }

unfoldable pub sink_unlock : Sink → Sink
sink_unlock s = record s { ep = record s.ep { locked = false } }

-- What `hk_source_update` writes before it updates the sinks.
unfoldable pub source_set : ℕ → List ℕ → Source → Source
source_set now value s = record s {
  ep = record (charted (record s.ep { value = value }) now value) { locked = true };
}

unfoldable pub source_unlock : Source → Source
source_unlock s = record s { ep = record s.ep { locked = false } }

abbrev pub modify_sink : Endpoints → ℕ → (Sink → Sink) → Endpoints
modify_sink eps i f = record eps { sinks = modify eps.sinks i f }

abbrev pub modify_source : Endpoints → ℕ → (Source → Source) → Endpoints
modify_source eps k f = record eps { sources = modify eps.sources k f }

abbrev pub unlock_sink : {S : Type 0} → ℕ → Endpoints × S → Endpoints × S
unlock_sink i (eps, s) = (modify_sink eps i sink_unlock, s)

abbrev pub unlock_source : {S : Type 0} → ℕ → Endpoints × S → Endpoints × S
unlock_source k (eps, s) = (modify_source eps k source_unlock, s)

module _ {S : Type 0} (handler : ℕ → ℕ → Endpoints × S → Endpoints × S) where
  -- The loop over the handlers of the sink at place `i`.
  unfoldable pub call_handlers : ℕ → List ℕ → Endpoints × S → Endpoints × S
  call_handlers i [] w = w
  call_handlers i (func ∷ handlers) w = call_handlers i handlers (handler func i w)

  -- `hk_sink_update`
  unfoldable pub sink_update : ℕ → ℕ → List ℕ → Endpoints × S → Endpoints × S
  sink_update now i value (eps, s) = elim (get_elem? eps.sinks i) [
    | none ↦ (eps, s)
    | some entry ↦
        if entry.ep.locked
        then (eps, s)
        else unlock_sink i
            (call_handlers i entry.handlers (modify_sink eps i (sink_set now value), s))
  ]

  -- The loop of `hk_source_update` over the connected sinks.
  unfoldable pub update_sinks : ℕ → List ℕ → List ℕ → Endpoints × S → Endpoints × S
  update_sinks now [] value w = w
  update_sinks now (i ∷ sinks) value w = update_sinks now sinks value (sink_update now i value w)

  -- `hk_source_update`
  unfoldable pub source_update : ℕ → ℕ → List ℕ → Endpoints × S → Endpoints × S
  source_update now k value (eps, s) = elim (get_elem? eps.sources k) [
    | none ↦ (eps, s)
    | some entry ↦
        if entry.ep.locked
        then (eps, s)
        else unlock_source k (
            update_sinks now entry.local_sinks value
              (modify_source eps k (source_set now value), s))
  ]

  -- `hk_sink_update_by_name`
  unfoldable pub sink_update_by_name : ℕ → List ℕ → List ℕ → Endpoints × S → Endpoints × S
  sink_update_by_name now name value (eps, s) = elim (sink_retrieve_by_name eps name) [
    | none ↦ (eps, s)
    | some i ↦ sink_update now i value (eps, s)
  ]
