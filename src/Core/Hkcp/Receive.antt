-- ===== src/Core/Hkcp/Receive.antt =====
-- core/hkcp.c: what a node sends back, in chunks of bytes, and what the program sends to its nodes. A result
-- `none` is a read of a node that was freed.
use hakit.Base.{
  ℕ, zero, suc, Bool, Option, none, some, List, [], ◌∷◌, ◌++◌, ◌==◌, if◌then◌else◌, ltb, length,
  get_elem?,
}
use hakit.Core.Command.{c_string, until_newline, is_empty}
use hakit.Core.Endpoint.{Source, Endpoints, source_is_event, source_retrieve_by_name, is_public}
use hakit.Core.Hkcp.{
  Node, Hkcp, node_at, put, write, source_attached, source_attach, set_state, node_remove,
  set_command, ready, sinks, TcpIo, io_connect, io_data, io_hup, node_hangup,
}

-- The bytes before the first ' '.
unfoldable pub until_space : List ℕ → List ℕ
until_space [] = []
until_space (c ∷ s) = let rest = until_space s in if c == b' ' then [] else c ∷ rest

-- `hkcp_node_send_initial_value`
unfoldable pub send_initial_value : Hkcp → ℕ → Node → ℕ → Source → Hkcp
send_initial_value h i n k source = elim source.ep.obj [
  | none ↦ h
  | some obj ↦
      if source_is_event (some source.ep)
      then h
      else if ltb 0 (source_attached n.sources k)
      then write i (set_command obj.name source.ep.value) h
      else h
]

-- The source at place `k` is attached, if it is public.
unfoldable pub recv_sink : Hkcp → ℕ → Node → ℕ → Source → Hkcp
recv_sink h i n k source =
    if is_public (some source.ep)
    then (let n' = source_attach n k in send_initial_value (put h i (some n')) i n' k source)
    else h

-- A line of the list of sinks, which is not its end.
unfoldable pub recv_name : Endpoints → Hkcp → ℕ → Node → List ℕ → Hkcp
recv_name eps h i n str = elim (source_retrieve_by_name eps (until_space str)) [
  | none ↦ h
  | some k ↦ elim (get_elem? eps.sources k) [ none ↦ h | some source ↦ recv_sink h i n k source ]
]

-- `hkcp_node_recv_sinks`
unfoldable pub recv_sinks : Endpoints → Hkcp → ℕ → Node → List ℕ → Hkcp
recv_sinks eps h i n [] = recv_name eps h i n []
recv_sinks eps h i n (c ∷ str) =
    if c == b'.'
    then (if ltb 0 (length n.sources)
        then put h i (some (set_state ready n))
        else node_remove h i n)
    else recv_name eps h i n (c ∷ str)

-- `hkcp_node_recv_line`
unfoldable pub recv_line : Endpoints → Hkcp → ℕ → Node → List ℕ → Hkcp
recv_line eps h i n str = elim n.state [ sinks ↦ recv_sinks eps h i n str | _ ↦ h ]

-- The node at `i` has the whole line.
unfoldable pub end_line : Endpoints → Hkcp → ℕ → Node → List ℕ → Hkcp
end_line eps h i n line =
    let n' : Node = record n { rbuf = [] } in
    let h' = put h i (some n') in
    if is_empty line then h' else recv_line eps h' i n' (c_string line)

-- What follows a segment of the chunk: the end of the chunk, or the line and `more`.
unfoldable pub after_segment :
    (Hkcp → List ℕ → Option Hkcp)
    → Endpoints
    → Hkcp
    → ℕ
    → Node
    → List ℕ × Option (List ℕ)
    → Option Hkcp
after_segment more eps h i n (before, none) =
    some (put h i (some (record n { rbuf = n.rbuf ++ before })))
after_segment more eps h i n (before, some s) = more (end_line eps h i n (n.rbuf ++ before)) s

-- The loop of `hkcp_node_recv`, on fuel.
unfoldable pub recv_from : ℕ → Endpoints → Hkcp → ℕ → List ℕ → Option Hkcp
recv_from zero eps h i s = some h
recv_from (suc fuel) eps h i [] = some h
recv_from (suc fuel) eps h i (c ∷ s) = elim (node_at h i) [
  | none ↦ none
  | some n ↦
      after_segment (λ h' rest. recv_from fuel eps h' i rest) eps h i n (until_newline (c ∷ s))
]

-- `hkcp_node_recv`
abbrev pub node_recv : Endpoints → Hkcp → ℕ → List ℕ → Option Hkcp
node_recv eps h i rbuf = recv_from (length rbuf) eps h i rbuf

-- `hkcp_node_event`; `up` and `tag` are for the new connection after a hangup.
unfoldable pub node_event : Endpoints → Bool → ℕ → Hkcp → ℕ → TcpIo → Option Hkcp
node_event eps up tag h i io_connect = some h
node_event eps up tag h i (io_data rbuf) = node_recv eps h i rbuf
node_event eps up tag h i io_hup = elim (node_at h i) [
  | none ↦ none
  | some n ↦ some (node_hangup up tag h i n)
]
