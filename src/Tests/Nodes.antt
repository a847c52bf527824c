-- ===== src/Tests/Nodes.antt =====
-- core/hkcp.c, core/hkcp_cmd.c: the theorems at concrete inputs.
use hakit.Base.{
  ℕ, ◌+◌, ◌≤◌, ◌<◌, ◌≡◌, ◌↔◌, refl, true, false, none, some, List, [], ◌∷◌, ◌++◌, arith, pos,
  length, find_from, eq_bytes,
}
use hakit.Core.Tile.{split_last_dot}
use hakit.Core.Command.{command_new}
use hakit.Core.Endpoint.{
  Owner, Ep, Source, ep_source, ep_sink, no_ep, Endpoints, retrieve_by_name, retrieve_by_full_name,
}
use hakit.Core.Endpoint.Update.{sink_update}
use hakit.Core.Hkcp.{
  Node, Hkcp, Timer, node_at, new_node, node_add, node_alloc, connect_later, node_connect_first,
  sinks, connect_retries, set_command, call_connect_first,
}
use hakit.Core.Hkcp.Receive.{node_recv, recv_line, until_space}
use hakit.Core.Hkcp.Commands.{About}
use hakit.Core.Hkcp.Clients.{
  Client, Server, modify_client, reply, tcp_data, watch_event, watch_text,
}
use hakit.Core.Hkcp.Timers.{IsSound, pending}
use hakit.Core.Hkcp.Steps.{Reached, start, after, add, expire, fire}
use hakit.Core.Hkcp.Reach.{Reached-IsSound}
use hakit.Core.Hkcp.Retries.{fail, Tried, give_up}
use hakit.Core.Hkcp.Chunks.{and_then, node_recv-append}
use hakit.Core.Hkcp.Attached.{sent_to, has_source, recv_line-announced}
use hakit.Core.Hkcp.Watchers.{watch_event-whole}
use hakit.Core.Hkcp.Setting.{set_command-received}

abbrev owner : Owner
owner = record { name = b'a' ∷ []; tile = b't' ∷ [] }

abbrev lamp : Ep
lamp = record (no_ep ep_source) { obj = some owner; value = b'1' ∷ [] }

abbrev source : Source
source = record { ep = lamp; local_sinks = [] }

-- A public source "a" with the value "1", and a sink of that name.
abbrev eps : Endpoints
eps = record {
  sinks =
      record {
        ep = record (no_ep ep_sink) { obj = some owner };
        handlers = [];
        local_source = none;
      }
      ∷ [];
  sources = source ∷ [];
  trace_depth = 0;
  full_name = false;
  tiles = 2;
}

abbrev ip : List ℕ
ip = b'h' ∷ []

abbrev empty : Hkcp
empty = record { port = pos 1; nodes = []; timers = []; sent = [] }

abbrev first_timer : Timer
first_timer = record { tag = 1; delay = 10; func = call_connect_first; node = 0 }

abbrev waiting : Node
waiting = record (new_node ip) { timeout_tag = 1 }

-- The node "h" was advertised.
abbrev added : Hkcp
added = record empty { nodes = some waiting ∷ []; timers = first_timer ∷ [] }

abbrev listening : Node
listening = record (new_node ip) { connected = true; state = sinks }

abbrev joined : Hkcp
joined = record empty { nodes = some listening ∷ [] }

reached_added : Reached (pos 1) added
unfolding node_add node_alloc connect_later find_from pending
reached_added = after empty added start (add eps empty 1 ip (λ i. refl))

Reached-IsSound_example : IsSound (fire true 2 added first_timer waiting)
unfolding pending
Reached-IsSound_example = Reached-IsSound (pos 1) (fire true 2 added first_timer waiting) (
    after added (fire true 2 added first_timer waiting) reached_added
      (expire added 0 2 first_timer waiting true refl refl (λ i. ground arith)))

give_up_example :
    (3 < connect_retries
      → Tried (fail 3 (node_connect_first false 2 added 0 waiting).1 0) 0 (1 + 3))
    × (connect_retries ≤ 3
        → node_at (fail 3 (node_connect_first false 2 added 0 waiting).1 0) 0 ≡ none)
give_up_example = give_up added 0 2 3 waiting refl (omega arith)

node_recv-append_example :
    node_recv eps joined 0 ((b'a' ∷ []) ++ (10 ∷ b'.' ∷ 10 ∷ []))
    ≡ and_then (node_recv eps joined 0 (b'a' ∷ [])) (λ h. node_recv eps h 0 (10 ∷ b'.' ∷ 10 ∷ []))
node_recv-append_example = node_recv-append eps joined 0 (b'a' ∷ []) (10 ∷ b'.' ∷ 10 ∷ [])

recv_line-announced_example :
    (has_source 0 (node_at (recv_line eps joined 0 listening (b'a' ∷ [])) 0) ≡ true)
    × (sent_to 0 (recv_line eps joined 0 listening (b'a' ∷ [])).sent
        ≡ [] ++ (set_command (b'a' ∷ []) (b'1' ∷ []) ∷ []))
unfolding retrieve_by_name retrieve_by_full_name split_last_dot find_from eq_bytes until_space
recv_line-announced_example =
    recv_line-announced eps joined 0 listening b'a' [] 0 source owner refl refl (omega arith) refl
      refl refl refl

watch_event-whole_example :
    (watch_event eps owner (b'1' ∷ []) ≡ watch_text eps owner (b'1' ∷ []))
    ↔ (length owner.tile ≤ 15)
watch_event-whole_example = watch_event-whole eps owner (b'1' ∷ []) (omega arith)

abbrev client : Client
client = record { fd = 5; cmd = command_new true; watch = false }

abbrev server : Server
server = record { clients = client ∷ []; replies = [] }

abbrev about : About
about = record { version = []; arch = []; t0 = 0 }

abbrev no_handler : ℕ → ℕ → Endpoints × ℕ → Endpoints × ℕ
no_handler func i w = w

set_command-received_example :
    tcp_data no_handler true about 7 joined 5
      (set_command (b'a' ∷ []) (b'0' ∷ []))
      (server, (eps, 0))
    ≡ some (
      reply 5 [] (record server {
        clients = modify_client server.clients 5 (λ d. record d { cmd = command_new true });
      }),
      sink_update no_handler 7 0 (b'0' ∷ []) (eps, 0),
    )
unfolding retrieve_by_name retrieve_by_full_name split_last_dot find_from eq_bytes
set_command-received_example =
    set_command-received no_handler true about 7 joined 5 client server eps 0 (b'a' ∷ [])
      (b'0' ∷ []) 0 refl refl (refl, tt) (refl, tt) (omega arith, tt) refl
