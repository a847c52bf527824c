-- ===== src/Core/Hkcp.antt =====
-- core/hkcp.c and core/include/hkcp.h: the nodes that the program sends its sources to. A node is known by
-- its place in the table. What the program asks of the event loop and of a socket is part of the state:
-- the timers that wait for a node, and the bytes written to each node, in order. Whether a connection
-- succeeds and the tag that `sys_timeout` gives (0 for none) are arguments. Sources are known by their
-- places, the sources of the program are the argument `eps`.
pub mod Receive
pub mod Watchers
pub mod Attached
pub mod Setting
pub mod Retries
pub mod Chunks
pub mod Reach
pub mod Added
pub mod Sound
pub mod Steps
pub mod Timers
pub mod Clients
pub mod Commands
use hakit.Base.{
  ℕ, zero, suc, ◌+◌, Bool, true, false, Option, none, some, List, [], ◌∷◌, ◌++◌, ◌==◌, ◌||◌, ◌&&◌,
  not, if◌then◌else◌, ltb, length, get_elem?, get_or, set, eq_bytes, find_from, ℤ, pos, negsuc,
  ltb_ℤ,
}
use hakit.Core.Endpoint.{
  Owner, Ep, Source, Endpoints, source_is_event, source_to_advertise, append_name,
}

abbrev pub connect_retries : ℕ
connect_retries = 4

-- `hkcp_node_state_t`
pub data State : Type 0 where
  idle connecting sinks ready : State

-- `hkcp_node_t`; `connected` is of its socket.
pub record Node : Type 0 where
  pub name : List ℕ
  pub connected : Bool
  pub state : State
  pub connect_attempts : ℕ
  pub timeout_tag : ℕ
  pub sources : List ℕ
  pub rbuf : List ℕ

-- The function that a timer calls: `hkcp_node_connect_first` or `hkcp_node_connect`.
pub data Func : Type 0 where
  call_connect_first call_connect : Func

pub record Timer : Type 0 where
  pub tag : ℕ
  pub delay : ℕ
  pub func : Func
  pub node : ℕ

-- `hkcp_t`, with what the event loop and the sockets were asked for.
pub record Hkcp : Type 0 where
  pub port : ℤ
  pub nodes : List (Option Node)
  pub timers : List Timer
  pub sent : List (ℕ × List ℕ)

abbrev pub node_at : Hkcp → ℕ → Option Node
node_at h i = get_or h.nodes i none

abbrev pub put : Hkcp → ℕ → Option Node → Hkcp
put h i n = record h { nodes = set h.nodes i n }

abbrev pub write : ℕ → List ℕ → Hkcp → Hkcp
write i bytes h = record h { sent = h.sent ++ ((i, bytes) ∷ []) }

-- `sys_timeout`, which gives the tag 0 where it has no place for a timer.
abbrev pub add_timer : Timer → Hkcp → Hkcp
add_timer t h = if t.tag == 0 then h else record h { timers = h.timers ++ (t ∷ []) }

unfoldable pub without : ℕ → List Timer → List Timer
without tag [] = []
without tag (t ∷ timers) = let rest = without tag timers in if t.tag == tag then rest else t ∷ rest

-- `sys_remove`
abbrev pub sys_remove : ℕ → Hkcp → Hkcp
sys_remove tag h = record h { timers = without tag h.timers }

-- `hkcp_node_source_attached`, of a source and of any.
unfoldable pub source_attached : List ℕ → ℕ → ℕ
source_attached [] k = 0
source_attached (j ∷ sources) k =
    let rest = source_attached sources k in if j == k then suc rest else rest

-- `hkcp_node_source_attach`
unfoldable pub source_attach : Node → ℕ → Node
source_attach n k =
    if ltb 0 (source_attached n.sources k) then n else record n { sources = n.sources ++ (k ∷ []) }

abbrev pub has_name : List ℕ → Option Node → Bool
has_name name none = false
has_name name (some n) = eq_bytes n.name name

-- `hkcp_node_retrieve`
abbrev pub node_retrieve : Hkcp → List ℕ → Option ℕ
node_retrieve h name = find_from (has_name name) 0 h.nodes

abbrev pub is_free : Option Node → Bool
is_free none = true
is_free (some n) = false

abbrev pub new_node : List ℕ → Node
new_node name = record {
  name = name;
  connected = false;
  state = idle;
  connect_attempts = 0;
  timeout_tag = 0;
  sources = [];
  rbuf = [];
}

-- `hkcp_node_alloc`, and the name that `hkcp_node_add` gives the node.
unfoldable pub node_alloc : Hkcp → List ℕ → ℕ × Hkcp
node_alloc h name = elim (find_from is_free 0 h.nodes) [
  | some i ↦ (i, put h i (some (new_node name)))
  | none ↦ (length h.nodes, record h { nodes = h.nodes ++ (some (new_node name) ∷ []) })
]

-- `hkcp_node_set_state`
abbrev pub set_state : State → Node → Node
set_state state n = record n { state = state; rbuf = [] }

-- `hkcp_node_remove`
unfoldable pub node_remove : Hkcp → ℕ → Node → Hkcp
node_remove h i n =
    let freed = put h i none in if n.timeout_tag == 0 then freed else sys_remove n.timeout_tag freed

-- "sinks\n"
abbrev pub sinks_request : List ℕ
sinks_request = b's' ∷ b'i' ∷ b'n' ∷ b'k' ∷ b's' ∷ 10 ∷ []

-- `hkcp_node_connect` on the node `n` at place `i`: what it returns, 0 for a timer that is done.
unfoldable pub node_connect : Bool → ℕ → Hkcp → ℕ → Node → ℕ × Hkcp
node_connect up tag h i n =
    let tried : Node =
      set_state connecting (record n { connect_attempts = n.connect_attempts + 1 }) in
    if up
    then (
      0,
      write i sinks_request
          (put h i (some (set_state sinks (record tried { connected = true; timeout_tag = 0 })))),
    )
    else if ltb connect_retries (n.connect_attempts + 1)
    then (0, node_remove h i (record tried { timeout_tag = 0 }))
    else if n.timeout_tag == 0
    then (
      1,
      add_timer (record { tag = tag; delay = 5000; func = call_connect; node = i })
          (put h i (some (record tried { timeout_tag = tag }))),
    )
    else (1, put h i (some tried))

-- `hkcp_node_connect_first`
unfoldable pub node_connect_first : Bool → ℕ → Hkcp → ℕ → Node → ℕ × Hkcp
node_connect_first up tag h i n =
    (0, (node_connect up tag h i (record n { timeout_tag = 0; connect_attempts = 0 })).1)

-- The end of `hkcp_node_add`.
unfoldable pub connect_later : ℕ → Hkcp → ℕ → Option Node → Hkcp
connect_later tag h i none = h
connect_later tag h i (some n) =
    if n.connected || ltb 0 n.timeout_tag
    then h
    else add_timer (record { tag = tag; delay = 10; func = call_connect_first; node = i })
        (put h i (some (record n { timeout_tag = tag })))

unfoldable pub node_add : Endpoints → ℕ → Hkcp → List ℕ → Hkcp
node_add eps tag h remote_ip =
    if ltb_ℤ (pos 0) h.port
    then (if ltb 0 (source_to_advertise eps.sources)
        then elim (node_retrieve h remote_ip) [
          | some i ↦ connect_later tag h i (node_at h i)
          | none ↦ let (i, h') = node_alloc h remote_ip in connect_later tag h' i (node_at h' i)
        ]
        else h)
    else h

-- The TCP_IO_HUP of `hkcp_node_event`: the callback only, which `tcp_hangup` calls.
unfoldable pub node_hangup : Bool → ℕ → Hkcp → ℕ → Node → Hkcp
node_hangup up tag h i n =
    (node_connect up tag h i
      (set_state idle (record n { connected = false; connect_attempts = 0 }))).1

abbrev pub cut : Option Node → Option Node
cut none = none
cut (some n) = some (record n { connected = false })

-- The end of a connection in os/linux/tcpio.c: behind the callback the socket is shut, also one that the
-- callback has just connected.
unfoldable pub tcp_hangup : Bool → ℕ → Hkcp → ℕ → Node → Hkcp
tcp_hangup up tag h i n = let h' = node_hangup up tag h i n in put h' i (cut (node_at h' i))

-- `hkcp_node_dump`: the nodes that have the source, or all.
abbrev pub wants : Option ℕ → Node → Bool
wants none n = true
wants (some k) n = ltb 0 (source_attached n.sources k)

unfoldable pub node_dump : List (Option Node) → Option ℕ → List ℕ
node_dump [] k = []
node_dump (none ∷ nodes) k = node_dump nodes k
node_dump (some n ∷ nodes) k =
    let rest = node_dump nodes k in if wants k n then b' ' ∷ (n.name ++ rest) else rest

-- "set <name>=<value>\n"
abbrev pub set_command : List ℕ → List ℕ → List ℕ
set_command name value = b's' ∷ b'e' ∷ b't' ∷ b' ' ∷ (name ++ (b'=' ∷ (value ++ (10 ∷ []))))

-- `tcp_io_t`, with the bytes of TCP_IO_DATA.
pub data TcpIo : Type 0 where
  io_connect : TcpIo
  io_data : List ℕ → TcpIo
  io_hup : TcpIo

-- What `memset` leaves in `hkcp_init` and `hkcp_shutdown`. The timers stay.
abbrev pub cleared : Hkcp → Hkcp
cleared h = record h { port = pos 0; nodes = [] }

-- `hkcp_init`; `up` is whether `tcp_srv_init` succeeds.
abbrev pub hkcp_init : Bool → ℤ → ℤ × Hkcp
hkcp_init up port =
    let h : Hkcp = record { port = port; nodes = []; timers = []; sent = [] } in
    if ltb_ℤ (pos 0) port && not up then (negsuc 0, cleared h) else (pos 0, h)
