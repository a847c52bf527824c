-- ===== src/Core/Hkcp/Commands.antt =====
-- core/hkcp_cmd.c: the commands of the protocol. `out_buf` is the list of the bytes appended. A result `none`
-- is a read through a null pointer: the object of a source, or a widget. `argv` of a command has the name
-- of the command first, and `args` are those behind it.
use hakit.Base.{
  ℕ, ◌+◌, Bool, true, false, Option, none, some, List, [], ◌∷◌, ◌++◌, ◌==◌, ◌||◌, if◌then◌else◌,
  get_or, eq_bytes, show_ℕ,
}
use hakit.Core.Endpoint.{
  Kind, Ep, Endpoints, is_public, sink_eps, source_eps, sink_retrieve_by_name,
  source_retrieve_by_name, append_name, ep_dump, no_ep, ep_sink, ep_source,
}
use hakit.Core.Endpoint.Update.{sink_update}
use hakit.Core.Hkcp.{Node, Hkcp, node_dump}

-- Text behind text.
abbrev pub join : Option (List ℕ) → Option (List ℕ) → Option (List ℕ)
join none b = none
join (some a) none = none
join (some a) (some b) = some (a ++ b)

-- What stands before and behind the first '=', if there is one.
unfoldable pub split_eq : List ℕ → Option (List ℕ × List ℕ)
split_eq [] = none
split_eq (c ∷ s) =
    let rest = split_eq s in
    if c == b'='
    then some ([], s)
    else elim rest [ none ↦ none | some (before, behind) ↦ some (c ∷ before, behind) ]

-- ".ERROR: Unknown sink: "
abbrev pub unknown_sink : List ℕ → List ℕ
unknown_sink name =
    b'.'
    ∷ b'E'
    ∷ b'R'
    ∷ b'R'
    ∷ b'O'
    ∷ b'R'
    ∷ b':'
    ∷ b' '
    ∷ b'U'
    ∷ b'n'
    ∷ b'k'
    ∷ b'n'
    ∷ b'o'
    ∷ b'w'
    ∷ b'n'
    ∷ b' '
    ∷ b's'
    ∷ b'i'
    ∷ b'n'
    ∷ b'k'
    ∷ b':'
    ∷ b' '
    ∷ (name ++ (10 ∷ []))

-- ".ERROR: Syntax error in command: "
abbrev pub syntax_error : List ℕ → List ℕ
syntax_error name =
    b'.'
    ∷ b'E'
    ∷ b'R'
    ∷ b'R'
    ∷ b'O'
    ∷ b'R'
    ∷ b':'
    ∷ b' '
    ∷ b'S'
    ∷ b'y'
    ∷ b'n'
    ∷ b't'
    ∷ b'a'
    ∷ b'x'
    ∷ b' '
    ∷ b'e'
    ∷ b'r'
    ∷ b'r'
    ∷ b'o'
    ∷ b'r'
    ∷ b' '
    ∷ b'i'
    ∷ b'n'
    ∷ b' '
    ∷ b'c'
    ∷ b'o'
    ∷ b'm'
    ∷ b'm'
    ∷ b'a'
    ∷ b'n'
    ∷ b'd'
    ∷ b':'
    ∷ b' '
    ∷ (name ++ (10 ∷ []))

-- ".ERROR: Unknown command: "
abbrev pub unknown_command : List ℕ → List ℕ
unknown_command name =
    b'.'
    ∷ b'E'
    ∷ b'R'
    ∷ b'R'
    ∷ b'O'
    ∷ b'R'
    ∷ b':'
    ∷ b' '
    ∷ b'U'
    ∷ b'n'
    ∷ b'k'
    ∷ b'n'
    ∷ b'o'
    ∷ b'w'
    ∷ b'n'
    ∷ b' '
    ∷ b'c'
    ∷ b'o'
    ∷ b'm'
    ∷ b'm'
    ∷ b'a'
    ∷ b'n'
    ∷ b'd'
    ∷ b':'
    ∷ b' '
    ∷ (name ++ (10 ∷ []))

-- ".ERROR: watch: Syntax error\n"
abbrev pub watch_error : List ℕ
watch_error =
    b'.' ∷ b'E' ∷ b'R' ∷ b'R' ∷ b'O' ∷ b'R' ∷ b':' ∷ b' ' ∷ b'w' ∷ b'a' ∷ b't' ∷ b'c' ∷ b'h' ∷ b':'
    ∷ b' ' ∷ b'S' ∷ b'y' ∷ b'n' ∷ b't' ∷ b'a' ∷ b'x' ∷ b' ' ∷ b'e' ∷ b'r' ∷ b'r' ∷ b'o' ∷ b'r' ∷ 10
    ∷ []

-- ".\n"
abbrev pub done : List ℕ
done = b'.' ∷ 10 ∷ []

module _ {S : Type 0} (handler : ℕ → ℕ → Endpoints × S → Endpoints × S) where
  -- One argument of "set": the error text, and what is left.
  unfoldable pub set_value : ℕ → Endpoints × S → List ℕ → List ℕ × (Endpoints × S)
  set_value now (eps, s) arg = elim (split_eq arg) [
    | none ↦ (syntax_error arg, (eps, s))
    | some (name, value) ↦ elim (sink_retrieve_by_name eps name) [
      | none ↦ (unknown_sink name, (eps, s))
      | some i ↦ ([], sink_update handler now i value (eps, s))
    ]
  ]

  -- `hkcp_command_set`
  unfoldable pub command_set : ℕ → Endpoints × S → List (List ℕ) → List ℕ × (Endpoints × S)
  command_set now w [] = ([], w)
  command_set now w (arg ∷ args) =
      let (text, w') = set_value now w arg in
      let (rest, w'') = command_set now w' args in (text ++ rest, w'')

-- The endpoint at a place that was retrieved.
abbrev pub ep_of : Kind → List Ep → Option ℕ → Option Ep
ep_of kind eps none = none
ep_of kind eps (some i) = some (get_or eps i (no_ep kind))

unfoldable pub dump_sources : Endpoints → List (List ℕ) → Option (List ℕ)
dump_sources eps [] = some []
dump_sources eps (arg ∷ args) =
    join (ep_dump eps (ep_of ep_source (source_eps eps) (source_retrieve_by_name eps arg)))
      (dump_sources eps args)

unfoldable pub dump_sinks : Endpoints → List (List ℕ) → Option (List ℕ)
dump_sinks eps [] = some []
dump_sinks eps (arg ∷ args) =
    join (ep_dump eps (ep_of ep_sink (sink_eps eps) (sink_retrieve_by_name eps arg)))
      (dump_sinks eps args)

-- `hk_source_foreach`, with a function that goes on; `k` is the place of the first source.
unfoldable pub source_foreach : (ℕ → Ep → Option (List ℕ)) → ℕ → List Ep → Option (List ℕ)
source_foreach func k [] = some []
source_foreach func k (ep ∷ eps) = join (func k ep) (source_foreach func (k + 1) eps)

-- `hk_sink_foreach`, which leaves out an entry that is free.
abbrev pub of_sink : (Ep → Option (List ℕ)) → Ep → Option (List ℕ)
of_sink func ep = elim ep.obj [ none ↦ some [] | some obj ↦ func ep ]

unfoldable pub sink_foreach : (Ep → Option (List ℕ)) → List Ep → Option (List ℕ)
sink_foreach func [] = some []
sink_foreach func (ep ∷ eps) = join (of_sink func ep) (sink_foreach func eps)

-- `hkcp_command_get`
unfoldable pub command_get : Endpoints → List (List ℕ) → Option (List ℕ)
command_get eps [] =
    join (source_foreach (λ k ep. ep_dump eps (some ep)) 0 (source_eps eps))
      (join (sink_foreach (λ ep. ep_dump eps (some ep)) (sink_eps eps)) (some done))
command_get eps (arg ∷ args) =
    join (dump_sources eps (arg ∷ args)) (join (dump_sinks eps (arg ∷ args)) (some done))

-- `hk_ep_append_name`, of any endpoint.
abbrev pub ep_name : Endpoints → Ep → Option (List ℕ)
ep_name eps ep = elim ep.obj [ none ↦ none | some obj ↦ some (append_name eps obj) ]

-- `hkcp_command_nodes_source`
unfoldable pub nodes_source : Endpoints → ℕ → Ep → Option (List ℕ)
nodes_source eps k ep = join (some (b' ' ∷ [])) (ep_name eps ep)

-- `hkcp_command_nodes`
unfoldable pub command_nodes : Endpoints → List (Option Node) → Option (List ℕ)
command_nodes eps [] = some done
command_nodes eps (none ∷ nodes) = command_nodes eps nodes
command_nodes eps (some n ∷ nodes) = join (some n.name) (
    join (source_foreach (nodes_source eps) 0 (source_eps eps))
      (join (some (10 ∷ [])) (command_nodes eps nodes)))

abbrev pub in_quotes : List ℕ → List ℕ
in_quotes value = b' ' ∷ 34 ∷ (value ++ (34 ∷ []))

-- `hkcp_command_sources_dump`
unfoldable pub sources_dump : Endpoints → List (Option Node) → ℕ → Ep → Option (List ℕ)
sources_dump eps nodes k ep =
    if is_public (some ep)
    then join (ep_name eps ep)
        (some (in_quotes ep.value ++ (node_dump nodes (some k) ++ (10 ∷ []))))
    else some []

-- `hkcp_command_sources`
abbrev pub command_sources : Endpoints → List (Option Node) → Option (List ℕ)
command_sources eps nodes =
    join (source_foreach (sources_dump eps nodes) 0 (source_eps eps)) (some done)

-- `hkcp_command_sinks_dump`
unfoldable pub sinks_dump : Endpoints → Ep → Option (List ℕ)
sinks_dump eps ep =
    if is_public (some ep)
    then join (ep_name eps ep) (some (in_quotes ep.value ++ (10 ∷ [])))
    else some []

-- `hkcp_command_sinks`
abbrev pub command_sinks : Endpoints → Option (List ℕ)
command_sinks eps = join (sink_foreach (sinks_dump eps) (sink_eps eps)) (some done)

-- `hkcp_command_watch_source`
unfoldable pub watch_source : Endpoints → ℕ → Ep → Option (List ℕ)
watch_source eps k ep =
    join (some (b'!' ∷ [])) (join (ep_name eps ep) (some (b'=' ∷ (ep.value ++ (10 ∷ [])))))

-- The argument of "watch", none for an error.
unfoldable pub watch_arg : List (List ℕ) → Bool → Option Bool
watch_arg [] watch = some watch
watch_arg (arg ∷ []) watch =
    if eq_bytes arg (b'0' ∷ []) || eq_bytes arg (b'o' ∷ b'f' ∷ b'f' ∷ [])
    then some false
    else if eq_bytes arg (b'1' ∷ []) || eq_bytes arg (b'o' ∷ b'n' ∷ [])
    then some true
    else none
watch_arg (arg ∷ arg' ∷ args) watch = none

-- `hkcp_command_watch`
unfoldable pub command_watch : Endpoints → List (List ℕ) → Bool → Option (List ℕ) × Bool
command_watch eps args watch = elim (watch_arg args watch) [
  | none ↦ (some watch_error, watch)
  | some watch' ↦ (
    if watch'
        then join (some done) (source_foreach (watch_source eps) 0 (source_eps eps))
        else some done,
    watch',
  )
]

-- What "props" tells of the program: HAKIT_VERSION, ARCH and `tstamp_t0()`.
pub record About : Type 0 where
  pub version : List ℕ
  pub arch : List ℕ
  pub t0 : ℕ

abbrev pub row : List ℕ → List ℕ → List ℕ
row name value = name ++ (b':' ∷ b' ' ∷ (value ++ (10 ∷ [])))

unfoldable pub command_props : About → Endpoints → List ℕ
command_props about eps =
    row (b'V' ∷ b'E' ∷ b'R' ∷ b'S' ∷ b'I' ∷ b'O' ∷ b'N' ∷ []) about.version
    ++ (row (b'A' ∷ b'R' ∷ b'C' ∷ b'H' ∷ []) about.arch
        ++ (row (b'T' ∷ b'0' ∷ []) (show_ℕ about.t0)
            ++ (row
                  (b'T' ∷ b'R' ∷ b'A' ∷ b'C' ∷ b'E' ∷ b'_' ∷ b'D' ∷ b'E' ∷ b'P' ∷ b'T' ∷ b'H' ∷ [])
                  (show_ℕ eps.trace_depth)
                ++ done)))

pub data Verb : Type 0 where
  verb_set verb_get verb_nodes verb_sinks verb_sources verb_props verb_other : Verb

-- The tests of `hkcp_command`, in their order.
unfoldable pub verb : List ℕ → Verb
verb name =
    if eq_bytes name (b's' ∷ b'e' ∷ b't' ∷ [])
    then verb_set
    else if eq_bytes name (b'g' ∷ b'e' ∷ b't' ∷ [])
    then verb_get
    else if eq_bytes name (b'n' ∷ b'o' ∷ b'd' ∷ b'e' ∷ b's' ∷ [])
    then verb_nodes
    else if eq_bytes name (b's' ∷ b'i' ∷ b'n' ∷ b'k' ∷ b's' ∷ [])
    then verb_sinks
    else if eq_bytes name (b's' ∷ b'o' ∷ b'u' ∷ b'r' ∷ b'c' ∷ b'e' ∷ b's' ∷ [])
    then verb_sources
    else if eq_bytes name (b'p' ∷ b'r' ∷ b'o' ∷ b'p' ∷ b's' ∷ [])
    then verb_props
    else verb_other

module _ {S : Type 0} (handler : ℕ → ℕ → Endpoints × S → Endpoints × S) where
  -- `hkcp_command`: only "set" changes the endpoints.
  unfoldable pub command :
      About → ℕ → Hkcp → Endpoints × S → List ℕ → List (List ℕ) → Option (List ℕ) × (Endpoints × S)
  command about now h (eps, s) name args = elim (verb name) [
    | verb_set ↦ let (text, w) = command_set handler now (eps, s) args in (some text, w)
    | verb_get ↦ (command_get eps args, (eps, s))
    | verb_nodes ↦ (command_nodes eps h.nodes, (eps, s))
    | verb_sinks ↦ (command_sinks eps, (eps, s))
    | verb_sources ↦ (command_sources eps h.nodes, (eps, s))
    | verb_props ↦ (some (command_props about eps), (eps, s))
    | verb_other ↦ (some (unknown_command name), (eps, s))
  ]
