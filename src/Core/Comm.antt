-- ===== src/Core/Comm.antt =====
-- core/comm.c: the endpoints, the protocols and the commands put together. What a handler of a sink does is
-- the parameter `handler`, on the endpoints and the state of this file. The web server, the MQTT client and
-- the terminal are what was sent to them, in order. Calls of functions that open sockets or files succeed
-- or not by an argument. `now` is `tstamp_ms()`.
pub mod Updates
pub mod Events
use hakit.Base.{
  ℕ, zero, suc, ◌+◌, ◌-◌, ◌^◌, Bool, true, false, ◌&&◌, ◌||◌, not, Option, none, some, List, [],
  ◌∷◌, ◌++◌, ◌==◌, if◌then◌else◌, ltb, length, take, get_or, get_elem?, eq_bytes, strtol, show_ℕ, ℤ,
  pos, negsuc,
}
use hakit.Core.Advertise.{
  Advertise, advertise_hkcp, advertise_mqtt, advertise_handler, advertise_init, advertise_shutdown,
  proto_hkcp, proto_mqtt,
}
use hakit.Core.Endpoint.{
  Kind, Owner, Ep, Sink, Source, Endpoints, is_public, foreach_public, sink_eps, source_eps,
  sink_retrieve_by_name, source_retrieve_by_name, no_ep, ep_sink, ep_source,
}
use hakit.Core.Endpoint.Registry.{sink_register, sink_add_handler, source_register}
use hakit.Core.Endpoint.Update.{sink_update, source_update, sink_update_by_name}
use hakit.Core.Hkcp.{Hkcp, hkcp_init, cleared}
use hakit.Core.Hkcp.Commands.{About, join, done, source_foreach, sink_foreach, command, ep_of}
use hakit.Core.Hkcp.Clients.{Server, hkcp_source_update}
use hakit.Core.Trace

-- `comm_t`, and what was sent: events of the web server, and messages and subscriptions of MQTT.
pub record Comm : Type 0 where
  pub adv : Advertise
  pub use_hkcp : Bool
  pub hkcp : Hkcp
  pub server : Server
  pub ws : List (List ℕ)
  pub published : List (List ℕ × List ℕ × Bool)
  pub subscribed : List (List ℕ)

abbrev pub ws_named : Owner → List ℕ → List ℕ
ws_named obj value = obj.name ++ (b'=' ∷ value)

-- "!<t>,<tile>.<name>=<value>", without the tile where there is one only.
abbrev pub ws_text : Endpoints → ℕ → Owner → List ℕ → List ℕ
ws_text eps now obj value =
    b'!'
    ∷ (show_ℕ now
        ++ (b','
            ∷ (if ltb 1 eps.tiles
                then obj.tile ++ (b'.' ∷ ws_named obj value)
                else ws_named obj value)))

-- The size of `str` in `comm_ws_send`.
abbrev pub ws_size : Owner → List ℕ → ℕ
ws_size obj value = length obj.tile + length obj.name + length value + 24

-- What `snprintf` leaves in `str`.
abbrev pub ws_event : Endpoints → ℕ → Owner → List ℕ → List ℕ
ws_event eps now obj value = take (ws_size obj value - 1) (ws_text eps now obj value)

-- `comm_ws_send`
unfoldable pub ws_send : Endpoints → ℕ → Ep → Comm → Comm
ws_send eps now ep c = elim ep.obj [
  | none ↦ c
  | some obj ↦ record c { ws = c.ws ++ (ws_event eps now obj ep.value ∷ []) }
]

-- `comm_mqtt_publish`: a value is retained, an event is not.
unfoldable pub mqtt_publish : Ep → Comm → Comm
mqtt_publish ep c = elim ep.obj [
  | none ↦ c
  | some obj ↦ record c { published = c.published ++ ((obj.name, ep.value, not ep.event) ∷ []) }
]

-- `comm_mqtt_subscribe`
unfoldable pub mqtt_subscribe : Ep → Comm → Comm
mqtt_subscribe ep c = elim ep.obj [
  | none ↦ c
  | some obj ↦ record c { subscribed = c.subscribed ++ (obj.name ∷ []) }
]

unfoldable pub for_all : (Ep → Comm → Comm) → List Ep → Comm → Comm
for_all func [] c = c
for_all func (ep ∷ eps) c = for_all func eps (func ep c)

-- `comm_mqtt_connected`
unfoldable pub mqtt_connected : Endpoints → Comm → Comm
mqtt_connected eps c =
    for_all mqtt_subscribe (foreach_public (sink_eps eps))
      (for_all mqtt_publish (foreach_public (source_eps eps)) c)

-- `comm_mqtt_discover`: the broker to connect to.
abbrev pub mqtt_discover : Option (List ℕ) → Option (List ℕ)
mqtt_discover none = none
mqtt_discover (some broker) = some broker

-- `strtoull(s, NULL, 0)`, of a number that fits.
abbrev pub strtoull : List ℕ → ℕ
strtoull s = elim (strtol s) [ pos n ↦ n | negsuc n ↦ 2 ^ 64 - (n + 1) ]

-- The local variables of `comm_command_trace`.
pub record TraceArgs : Type 0 where
  pub name : Option (List ℕ)
  pub t1 : ℕ
  pub t2 : ℕ

-- What stands before and behind the first ':', if there is one.
unfoldable pub split_colon : List ℕ → Option (List ℕ × List ℕ)
split_colon [] = none
split_colon (c ∷ s) =
    let rest = split_colon s in
    if c == b':'
    then some ([], s)
    else elim rest [ none ↦ none | some (before, behind) ↦ some (c ∷ before, behind) ]

abbrev pub time_or : ℕ → List ℕ → ℕ
time_or t [] = t
time_or t (c ∷ s) = strtoull (c ∷ s)

-- The loop over the arguments; none for the usage message.
unfoldable pub trace_args : TraceArgs → List (List ℕ) → Option TraceArgs
trace_args a [] = some a
trace_args a (arg ∷ args) = elim (split_colon arg) [
  | some (before, behind) ↦
      trace_args (record a { t1 = time_or a.t1 before; t2 = time_or a.t2 behind }) args
  | none ↦ elim a.name [ some name ↦ none | none ↦ trace_args (record a { name = some arg }) args ]
]

unfoldable pub concat : List (List ℕ) → List ℕ
concat [] = []
concat (s ∷ pieces) = s ++ concat pieces

abbrev pub concat_all : Option (List (List ℕ)) → Option (List ℕ)
concat_all none = none
concat_all (some pieces) = some (concat pieces)

abbrev pub dump_ep : ℕ → TraceArgs → Ep → Option (List ℕ)
dump_ep now a ep = concat_all (Trace.dump ep.tr a.t1 a.t2 now)

-- The source of the name, or else the sink.
abbrev pub find_ep : Endpoints → List ℕ → Option Ep
find_ep eps name = elim (source_retrieve_by_name eps name) [
  | some k ↦ ep_of ep_source (source_eps eps) (some k)
  | none ↦ ep_of ep_sink (sink_eps eps) (sink_retrieve_by_name eps name)
]

-- `comm_command_trace`: what it returns, and what it appends; none for a null pointer, or for a
-- value that is too long for a text of the dump.
unfoldable pub trace_run : Endpoints → ℕ → TraceArgs → ℤ × Option (List ℕ)
trace_run eps now a = elim a.name [
  | some name ↦ elim (find_ep eps name) [
    | none ↦ (negsuc 0, some [])
    | some ep ↦ (pos 0, join (dump_ep now a ep) (some done))
  ]
  | none ↦ (
    pos 0,
    join (source_foreach (λ k ep. dump_ep now a ep) 0 (source_eps eps))
        (join (sink_foreach (λ ep. dump_ep now a ep) (sink_eps eps)) (some done)),
  )
]

unfoldable pub command_trace : Endpoints → ℕ → List (List ℕ) → ℤ × Option (List ℕ)
command_trace eps now args =
    if ltb 2 (length args)
    then (negsuc 0, some [])
    else elim (trace_args (record { name = none; t1 = 0; t2 = 0 }) args) [
      | none ↦ (negsuc 0, some [])
      | some a ↦ trace_run eps now a
    ]

-- `comm_command_tiles`, of the names of the tiles.
unfoldable pub command_tiles : List (List ℕ) → List ℕ
command_tiles [] = done
command_tiles (name ∷ tiles) = name ++ (10 ∷ command_tiles tiles)

abbrev pub trace_word : List ℕ
trace_word = b't' ∷ b'r' ∷ b'a' ∷ b'c' ∷ b'e' ∷ []

abbrev pub tiles_word : List ℕ
tiles_word = b't' ∷ b'i' ∷ b'l' ∷ b'e' ∷ b's' ∷ []

module _ (handler : ℕ → ℕ → Endpoints × Comm → Endpoints × Comm) where
  -- `comm_command_ws`
  unfoldable pub command_ws :
      About
      → ℕ
      → List (List ℕ)
      → Endpoints × Comm
      → List ℕ
      → List (List ℕ)
      → Option (List ℕ) × (Endpoints × Comm)
  command_ws about now tiles (eps, c) name args =
      if eq_bytes name trace_word
      then ((command_trace eps now args).1, (eps, c))
      else if eq_bytes name tiles_word
      then (some (command_tiles tiles), (eps, c))
      else command handler about now c.hkcp (eps, c) name args

  -- `comm_command_stdin`: the text for the terminal, none to quit.
  unfoldable pub command_stdin :
      About
      → ℕ
      → List (List ℕ)
      → Endpoints × Comm
      → List (List ℕ)
      → Option (Option (List ℕ)) × (Endpoints × Comm)
  command_stdin about now tiles w [] = (none, w)
  command_stdin about now tiles w (name ∷ args) =
      let (text, w') = command_ws about now tiles w name args in (some text, w')

  -- `comm_mqtt_update`: a message, or none when the client has connected.
  unfoldable pub mqtt_update : ℕ → Option (List ℕ) → List ℕ → Endpoints × Comm → Endpoints × Comm
  mqtt_update now none value (eps, c) = (eps, mqtt_connected eps c)
  mqtt_update now (some name) value w = sink_update_by_name handler now name value w

  abbrev pub ws_send_sink : ℕ → ℕ → Endpoints × Comm → Endpoints × Comm
  ws_send_sink now i (eps, c) = elim (get_elem? eps.sinks i) [
    | none ↦ (eps, c)
    | some sink ↦ (eps, ws_send eps now sink.ep c)
  ]

  -- `comm_sink_update_str`
  unfoldable pub sink_update_str : ℕ → ℕ → List ℕ → Endpoints × Comm → Endpoints × Comm
  sink_update_str now i value w = ws_send_sink now i (sink_update handler now i value w)

  abbrev pub hkcp_update : Endpoints → ℕ → Ep → Comm → Comm
  hkcp_update eps k ep c =
      let (h, srv) = hkcp_source_update eps k ep (c.hkcp, c.server) in
      record c { hkcp = h; server = srv }

  -- The links of `comm_source_update_str`, for the source as it is now.
  unfoldable pub send_source : Endpoints → ℕ → ℕ → Ep → Comm → Comm
  send_source eps now k ep c =
      let networked = if is_public (some ep) then mqtt_publish ep (hkcp_update eps k ep c) else c in
      ws_send eps now ep networked

  abbrev pub send_updated : ℕ → ℕ → Endpoints × Comm → Endpoints × Comm
  send_updated now k (eps, c) = elim (get_elem? eps.sources k) [
    | none ↦ (eps, c)
    | some source ↦ (eps, send_source eps now k source.ep c)
  ]

  -- `comm_source_update_str`
  unfoldable pub source_update_str : ℕ → ℕ → List ℕ → Endpoints × Comm → Endpoints × Comm
  source_update_str now k value w = send_updated now k (source_update handler now k value w)

-- The handler that sends a sink's value to the web server.
abbrev pub ws_handler : ℕ
ws_handler = 0

abbrev pub advertised : Bool → ℕ → Comm → Comm
advertised local tag c =
    if c.use_hkcp && not local then record c { adv = advertise_hkcp tag c.adv } else c

-- `comm_sink_register`; `func` is the handler it is given.
unfoldable pub comm_sink_register :
    ℕ → Owner → Bool → ℕ → Endpoints × Comm → Option ℕ × (Endpoints × Comm)
comm_sink_register tag obj local func (eps, c) =
    let (place, eps') = sink_register eps obj local in
    elim place [
      | none ↦ (none, (eps', c))
      | some i ↦ (
        some i,
        (sink_add_handler (sink_add_handler eps' i func) i ws_handler, advertised local tag c),
      )
    ]

-- `comm_source_register`
unfoldable pub comm_source_register :
    ℕ → Owner → Bool → Bool → Endpoints × Comm → Option ℕ × (Endpoints × Comm)
comm_source_register tag obj local event (eps, c) =
    let (place, eps') = source_register eps obj local event in
    elim place [ none ↦ (none, (eps', c)) | some k ↦ (some k, (eps', advertised local tag c)) ]

-- `comm_enable_mqtt`, with MQTT; whether `mqtt_init` and `mqtt_connect` succeed are arguments.
unfoldable pub enable_mqtt : Bool → Bool → ℕ → ℕ → Option (List ℕ) → Comm → ℤ × Comm
enable_mqtt started linked tag func none c =
    if started
    then (
      pos 0,
      record c { adv = advertise_mqtt tag (advertise_handler c.adv proto_mqtt func) none },
    )
    else (negsuc 0, c)
enable_mqtt started linked tag func (some broker) c =
    if started && linked
    then (pos 0, record c { adv = advertise_mqtt tag c.adv (some broker) })
    else (negsuc 0, c)

-- HAKIT_HKCP_PORT
abbrev pub hkcp_port : ℤ
hkcp_port = pos 5678

abbrev pub port_if : Bool → ℤ
port_if used = if used then hkcp_port else pos 0

-- The end of `comm_init` on an error.
abbrev pub shut_down : Comm → ℤ × Comm
shut_down c = (negsuc 0, record c { hkcp = cleared c.hkcp; adv = advertise_shutdown c.adv })

-- What is left to do when HKCP is up; `web` is whether `ws_server_init` succeeds, `node_add` the handler
-- that stands for `hkcp_node_add`.
abbrev pub init_server : Bool → ℕ → Comm → ℤ × Comm
init_server web node_add c =
    let told : Comm =
      if c.use_hkcp then record c { adv = advertise_handler c.adv proto_hkcp node_add } else c in
    if web then (pos 0, told) else shut_down told

abbrev pub init_hkcp : Bool → ℕ → Comm → ℤ × Hkcp → ℤ × Comm
init_hkcp web node_add c (pos n, h) = init_server web node_add (record c { hkcp = h })
init_hkcp web node_add c (negsuc n, h) = shut_down (record c { hkcp = h })

abbrev pub init_adv : Bool → Bool → ℕ → Comm → ℤ × Advertise → ℤ × Comm
init_adv listens web node_add c (pos n, adv) =
    init_hkcp web node_add (record c { adv = adv }) (hkcp_init listens (port_if c.use_hkcp))
init_adv listens web node_add c (negsuc n, adv) = shut_down (record c { adv = adv })

-- What `memset` leaves, with the argument `use_hkcp`.
abbrev pub no_comm : Bool → Comm
no_comm use_hkcp = record {
  adv = (advertise_init false (pos 0)).1;
  use_hkcp = use_hkcp;
  hkcp = (hkcp_init true (pos 0)).1;
  server = record { clients = []; replies = [] };
  ws = [];
  published = [];
  subscribed = [];
}

-- `comm_init`, of the state of this file: `announces`, `listens` and `web` are whether the UDP, the HKCP
-- and the web server start.
abbrev pub comm_init : Bool → Bool → Bool → ℕ → Bool → Bool → ℤ × Comm
comm_init announces listens web node_add use_hkcp advertise =
    init_adv listens web node_add (no_comm use_hkcp) (advertise_init announces (port_if advertise))
