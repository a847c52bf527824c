-- ===== src/Core/Hkcp/Clients.antt =====
-- core/hkcp.c: the connections to the program's own server, each with its command line, and what an update
-- of a source sends to the nodes and to those that watch. The order of `clients` is that of
-- `tcp_srv_foreach_client`; a client is known by the number of its socket.
use hakit.Base.{
  ℕ, ◌+◌, ◌-◌, Bool, true, false, Option, none, some, List, [], ◌∷◌, ◌++◌, ◌==◌, if◌then◌else◌, ltb,
  length, take, eq_bytes,
}
use hakit.Core.Command.{Command, command_new, command_recv}
use hakit.Core.Endpoint.{Owner, Ep, Endpoints}
use hakit.Core.Hkcp.{
  Node, Hkcp, write, source_attached, set_command, TcpIo, io_connect, io_data, io_hup,
}
use hakit.Core.Hkcp.Commands.{About, command, command_watch}

-- `hkcp_command_ctx_t`
pub record Client : Type 0 where
  pub fd : ℕ
  pub cmd : Command
  pub watch : Bool

-- The server: its connections, and what was written to them.
pub record Server : Type 0 where
  pub clients : List Client
  pub replies : List (ℕ × List ℕ)

abbrev pub reply : ℕ → List ℕ → Server → Server
reply fd bytes srv = record srv { replies = srv.replies ++ ((fd, bytes) ∷ []) }

-- `hkcp_source_send_nodes`: the places of the nodes that have the source, from place `i` on.
unfoldable pub attached_nodes : List (Option Node) → ℕ → ℕ → List ℕ
attached_nodes [] k i = []
attached_nodes (none ∷ nodes) k i = attached_nodes nodes k (i + 1)
attached_nodes (some n ∷ nodes) k i =
    let rest = attached_nodes nodes k (i + 1) in
    if ltb 0 (source_attached n.sources k) then i ∷ rest else rest

unfoldable pub write_all : List ℕ → List ℕ → Hkcp → Hkcp
write_all [] bytes h = h
write_all (i ∷ places) bytes h = write_all places bytes (write i bytes h)

-- `hkcp_source_send_watch`, for each client.
unfoldable pub send_watch : List Client → List ℕ → List (ℕ × List ℕ)
send_watch [] str = []
send_watch (c ∷ clients) str =
    let rest = send_watch clients str in if c.watch then (c.fd, str) ∷ rest else rest

-- "!<tile>.<name>=<value>\n", without the tile where there is one only.
abbrev pub watch_text : Endpoints → Owner → List ℕ → List ℕ
watch_text eps obj value =
    let named = obj.name ++ (b'=' ∷ (value ++ (10 ∷ []))) in
    b'!' ∷ (if ltb 1 eps.tiles then obj.tile ++ (b'.' ∷ named) else named)

-- The size of `str` in `hkcp_source_update`.
abbrev pub str_size : Owner → List ℕ → ℕ
str_size obj value = length obj.name + length value + 20

-- What `snprintf` leaves in `str`: all but the last byte of the room is text.
abbrev pub watch_event : Endpoints → Owner → List ℕ → List ℕ
watch_event eps obj value = take (str_size obj value - 1) (watch_text eps obj value)

-- `hkcp_source_update`, of the source at place `k` with the endpoint `ep`.
unfoldable pub hkcp_source_update : Endpoints → ℕ → Ep → Hkcp × Server → Hkcp × Server
hkcp_source_update eps k ep (h, srv) = elim ep.obj [
  | none ↦ (h, srv)
  | some obj ↦ (
    write_all (attached_nodes h.nodes k 0) (set_command obj.name ep.value) h,
    record srv { replies = srv.replies ++ send_watch srv.clients (watch_event eps obj ep.value) },
  )
]

abbrev pub modify_client : List Client → ℕ → (Client → Client) → List Client
modify_client [] fd f = []
modify_client (c ∷ clients) fd f =
    if c.fd == fd then f c ∷ clients else c ∷ modify_client clients fd f

abbrev pub client_of : List Client → ℕ → Option Client
client_of [] fd = none
client_of (c ∷ clients) fd = if c.fd == fd then some c else client_of clients fd

abbrev pub drop_client : List Client → ℕ → List Client
drop_client [] fd = []
drop_client (c ∷ clients) fd = if c.fd == fd then clients else c ∷ drop_client clients fd

-- "watch"
abbrev pub watch_word : List ℕ
watch_word = b'w' ∷ b'a' ∷ b't' ∷ b'c' ∷ b'h' ∷ []

abbrev pub is_dot : List ℕ → Bool
is_dot [] = false
is_dot (c ∷ s) = c == b'.'

-- The end of the input or a line that is known: text for the client, or nothing to undo.
abbrev pub send : {W : Type 0} → ℕ → Server → Option (List ℕ) × W → Option (Server × W)
send fd srv (none, w) = none
send fd srv (some text, w) = some (reply fd text srv, w)

-- The TCP_IO_CONNECT and TCP_IO_HUP of `hkcp_tcp_event`.
abbrev pub tcp_connect : ℕ → Server → Server
tcp_connect fd srv = record srv {
  clients = srv.clients ++ (record { fd = fd; cmd = command_new true; watch = false } ∷ []);
}

abbrev pub tcp_hangup : ℕ → Server → Server
tcp_hangup fd srv = record srv { clients = drop_client srv.clients fd }

module _ {S : Type 0} (handler : ℕ → ℕ → Endpoints × S → Endpoints × S) (signed_char : Bool) where
  -- `hkcp_command_tcp`, of the client `c`; none for a read through a null pointer.
  unfoldable pub command_tcp :
      About
      → ℕ
      → Hkcp
      → Client
      → List (List ℕ)
      → Server × (Endpoints × S)
      → Option (Server × (Endpoints × S))
  command_tcp about now h c [] (srv, w) = some (srv, w)
  command_tcp about now h c (name ∷ args) (srv, (eps, s)) =
      if is_dot name
      then some (srv, (eps, s))
      else if eq_bytes name watch_word
      then (let (text, watch) = command_watch eps args c.watch in
          send c.fd
            (record srv {
              clients = modify_client srv.clients c.fd (λ c'. record c' { watch = watch });
            })
            (text, (eps, s)))
      else send c.fd srv (command handler about now h (eps, s) name args)

  -- The commands of a chunk, one after the other. The client is looked up again for each.
  unfoldable pub run_commands :
      About
      → ℕ
      → Hkcp
      → ℕ
      → List (List (List ℕ))
      → Server × (Endpoints × S)
      → Option (Server × (Endpoints × S))
  run_commands about now h fd [] w = some w
  run_commands about now h fd (argv ∷ calls) (srv, w) = elim (client_of srv.clients fd) [
    | none ↦ none
    | some c ↦ elim (command_tcp about now h c argv (srv, w)) [
      | none ↦ none
      | some w' ↦ run_commands about now h fd calls w'
    ]
  ]

  -- `command_recv`, and the calls that it makes.
  unfoldable pub tcp_data :
      About → ℕ → Hkcp → ℕ → List ℕ → Server × (Endpoints × S) → Option (Server × (Endpoints × S))
  tcp_data about now h fd rbuf (srv, w) = elim (client_of srv.clients fd) [
    | none ↦ none
    | some c ↦
        let (ret, calls, cmd) = command_recv signed_char c.cmd (some rbuf) in
        let srv' : Server = record srv {
          clients = modify_client srv.clients fd (λ c'. record c' { cmd = cmd });
        } in
        run_commands about now h fd calls (srv', w)
  ]

  -- `hkcp_tcp_event`
  unfoldable pub tcp_event :
      About → ℕ → Hkcp → ℕ → TcpIo → Server × (Endpoints × S) → Option (Server × (Endpoints × S))
  tcp_event about now h fd io_connect (srv, w) = some (tcp_connect fd srv, w)
  tcp_event about now h fd (io_data rbuf) w = tcp_data about now h fd rbuf w
  tcp_event about now h fd io_hup (srv, w) = some (tcp_hangup fd srv, w)
