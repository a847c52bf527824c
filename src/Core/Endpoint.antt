-- ===== src/Core/Endpoint.antt =====
-- core/endpoint.c, core/include/endpoint.h: the endpoints of the program. Sinks and sources are known by
-- their places in the two tables, in place of pointers. Of the object behind an endpoint there are its
-- name and the name of its tile. Names and values are lists of bytes.
pub mod Registry
pub mod Taken
pub mod Delivery
pub mod Delivered
pub mod Names
pub mod Register
pub mod Tables
pub mod Update
use hakit.Base.{
  ℕ, zero, suc, ◌+◌, Bool, true, false, Option, none, some, List, [], ◌∷◌, ◌++◌, map, ◌==◌, ◌&&◌,
  ◌||◌, not, if◌then◌else◌, get_elem?, get_or, set, length, eq_bytes, find_from, ltb, ℤ, pos,
  negsuc,
}
use hakit.Core.Tile.{split_last_dot, modify}
use hakit.Core.Trace

-- `ep->obj`
pub record Owner : Type 0 where
  pub name : List ℕ
  pub tile : List ℕ

pub data Kind : Type 0 where
  ep_sink ep_source : Kind

-- `hk_ep_t`; the flags side by side.
pub record Ep : Type 0 where
  pub kind : Kind
  pub id : ℕ
  pub obj : Option Owner
  pub value : List ℕ
  pub event : Bool
  pub local : Bool
  pub widget : Option (List ℕ)
  pub chart : Option (List ℕ)
  pub locked : Bool
  pub tr : Trace.Trace

-- A handler is known by a number, which stands for its function and its argument.
pub record Sink : Type 0 where
  pub ep : Ep
  pub handlers : List ℕ
  pub local_source : Option ℕ

pub record Source : Type 0 where
  pub ep : Ep
  pub local_sinks : List ℕ

-- `hk_endpoints_t`, with the option `opt_full_name` and the number of tiles.
pub record Endpoints : Type 0 where
  pub sinks : List Sink
  pub sources : List Source
  pub trace_depth : ℕ
  pub full_name : Bool
  pub tiles : ℕ

-- `hk_endpoints_set_trace_depth`
abbrev pub set_trace_depth : Endpoints → ℤ → Endpoints
set_trace_depth eps (negsuc n) = record eps { trace_depth = Trace.default_depth }
set_trace_depth eps (pos zero) = record eps { trace_depth = Trace.default_depth }
set_trace_depth eps (pos (suc n)) = record eps {
  trace_depth = if ltb Trace.max_depth (suc n) then Trace.max_depth else suc n;
}

-- An endpoint that `memset` has cleared.
abbrev pub no_ep : Kind → Ep
no_ep kind = record {
  kind = kind;
  id = 0;
  obj = none;
  value = [];
  event = false;
  local = false;
  widget = none;
  chart = none;
  locked = false;
  tr = record { name = []; depth = 0; iput = 0; iget = 0; tab = [] };
}

-- `hk_ep_init`
pub ep_init : Ep → Kind → ℕ → Owner → ℕ → Ep
ep_init ep kind id obj trace_depth = record ep {
  kind = kind;
  id = id;
  obj = some obj;
  value = [];
  tr = Trace.init obj.name (pos trace_depth);
}

-- `hk_ep_set_widget`
abbrev pub set_widget : Ep → Option (List ℕ) → Ep
set_widget ep widget = elim ep.obj [ none ↦ ep | some obj ↦ record ep { widget = widget } ]

-- `hk_ep_set_chart`
abbrev pub set_chart : Ep → Option (List ℕ) → Ep
set_chart ep chart = elim ep.obj [ none ↦ ep | some obj ↦ record ep { chart = chart } ]

-- `hk_ep_is_public`, of an endpoint or a null pointer.
abbrev pub is_public : Option Ep → Bool
is_public none = false
is_public (some ep) = elim ep.obj [ none ↦ false | some obj ↦ not ep.local ]

abbrev pub in_tile : Option (List ℕ) → Owner → Bool
in_tile none obj = true
in_tile (some tile_name) obj = eq_bytes obj.tile tile_name

abbrev pub owner_matches : Option (List ℕ) → List ℕ → Option Owner → Bool
owner_matches tile_name name none = false
owner_matches tile_name name (some obj) = in_tile tile_name obj && eq_bytes obj.name name

-- The loop of `hk_sink_retrieve_by_full_name` and of `hk_source_retrieve_by_full_name`.
unfoldable pub retrieve_by_full_name : List Ep → Option (List ℕ) → List ℕ → Option ℕ
retrieve_by_full_name eps tile_name name =
    find_from (λ ep. owner_matches tile_name name ep.obj) 0 eps

abbrev pub sink_eps : Endpoints → List Ep
sink_eps eps = map (λ s. s.ep) eps.sinks

abbrev pub source_eps : Endpoints → List Ep
source_eps eps = map (λ s. s.ep) eps.sources

-- `hk_sink_retrieve_by_name` and `hk_source_retrieve_by_name`, on their tables.
unfoldable pub retrieve_by_name : Bool → List Ep → List ℕ → Option ℕ
retrieve_by_name full_name eps name = elim (split_last_dot name) [
  | none ↦ retrieve_by_full_name eps none name
  | some (before, behind) ↦
      retrieve_by_full_name eps (if full_name then some before else none) behind
]

abbrev pub sink_retrieve_by_full_name : Endpoints → Option (List ℕ) → List ℕ → Option ℕ
sink_retrieve_by_full_name eps tile_name name = retrieve_by_full_name (sink_eps eps) tile_name name

abbrev pub source_retrieve_by_full_name : Endpoints → Option (List ℕ) → List ℕ → Option ℕ
source_retrieve_by_full_name eps tile_name name =
    retrieve_by_full_name (source_eps eps) tile_name name

abbrev pub sink_retrieve_by_name : Endpoints → List ℕ → Option ℕ
sink_retrieve_by_name eps name = retrieve_by_name eps.full_name (sink_eps eps) name

abbrev pub source_retrieve_by_name : Endpoints → List ℕ → Option ℕ
source_retrieve_by_name eps name = retrieve_by_name eps.full_name (source_eps eps) name

abbrev pub is_free : Ep → Bool
is_free ep = elim ep.obj [ none ↦ true | some obj ↦ false ]

-- `hk_source_to_advertise`
abbrev pub source_to_advertise : List Source → ℕ
source_to_advertise [] = 0
source_to_advertise (source ∷ sources) =
    let rest = source_to_advertise sources in if is_public (some source.ep) then suc rest else rest

-- `hk_source_is_event`
abbrev pub source_is_event : Option Ep → Bool
source_is_event none = false
source_is_event (some ep) = elim ep.obj [ none ↦ false | some obj ↦ ep.event ]

-- The endpoints that `hk_sink_foreach_public` and `hk_source_foreach_public` call the function for.
abbrev pub foreach_public : List Ep → List Ep
foreach_public [] = []
foreach_public (ep ∷ eps) =
    let rest = foreach_public eps in if is_public (some ep) then ep ∷ rest else rest

abbrev pub tile_prefix : Endpoints → Owner → List ℕ
tile_prefix eps obj = if ltb 1 eps.tiles then obj.tile ++ (b'.' ∷ []) else []

-- `hk_ep_append_name`: what it appends, of an endpoint with an object.
abbrev pub append_name : Endpoints → Owner → List ℕ
append_name eps obj = tile_prefix eps obj ++ obj.name

-- `hk_ep_type_str`
abbrev pub type_str : Kind → List ℕ
type_str ep_sink = b's' ∷ b'i' ∷ b'n' ∷ b'k' ∷ []
type_str ep_source = b's' ∷ b'o' ∷ b'u' ∷ b'r' ∷ b'c' ∷ b'e' ∷ []

abbrev pub or_dash : Option (List ℕ) → List ℕ
or_dash none = b'-' ∷ []
or_dash (some chart) = chart

-- `hk_ep_dump`: what it appends; none for a widget that is a null pointer.
abbrev pub ep_dump : Endpoints → Option Ep → Option (List ℕ)
ep_dump eps none = some []
ep_dump eps (some ep) = elim ep.obj [
  | none ↦ some []
  | some obj ↦ elim ep.widget [
    | none ↦ none
    | some widget ↦ some (
        type_str ep.kind
        ++ (b' '
            ∷ (widget
                ++ (b' '
                    ∷ (or_dash ep.chart
                        ++ (b' ' ∷ (append_name eps obj ++ (b' ' ∷ (ep.value ++ (10 ∷ []))))))))))
  ]
]
