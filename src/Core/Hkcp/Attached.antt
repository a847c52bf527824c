-- ===== src/Core/Hkcp/Attached.antt =====
-- core/hkcp.c: a node that has named a source is sent the value of the source, and its updates.
use hakit.Base.{
  ℕ, zero, suc, ◌+◌, ◌<◌, ◌≡◌, ◌≢◌, inl, inr, refl, sym, ap, ◌∙◌, Bool, true, false, Option, none,
  some, List, [], ◌∷◌, ◌++◌, map, ◌==◌, if◌then◌else◌, ltb, get_elem?, get_or, arith, append-nil,
  append_assoc, Bool-cases,
}
use hakit.Core.Endpoint.{
  Owner, Ep, Source, Endpoints, source_retrieve_by_name, is_public, source_is_event,
}
use hakit.Core.Hkcp.{
  Node, Hkcp, node_at, put, write, source_attached, source_attach, set_command, sinks, State,
}
use hakit.Core.Hkcp.Receive.{
  until_space, recv_line, recv_sinks, recv_name, recv_sink, send_initial_value,
}
use hakit.Core.Hkcp.Clients.{Server, attached_nodes, write_all, hkcp_source_update}
use hakit.Core.Hkcp.Timers.{node_at-put_self}

-- What was written to the node at place `j`, in order.
abbrev pub sent_to : ℕ → List (ℕ × List ℕ) → List (List ℕ)
sent_to j [] = []
sent_to j ((i, bytes) ∷ sent) = if i == j then bytes ∷ sent_to j sent else sent_to j sent

pub sent_to-append :
    (j : ℕ) (sent more : List (ℕ × List ℕ))
    → sent_to j (sent ++ more) ≡ sent_to j sent ++ sent_to j more
sent_to-append j [] more = refl
sent_to-append j ((i, bytes) ∷ sent) more = elim (Bool-cases (i == j)) [
  | inl e ↦ rw (e) (ap (◌∷◌ bytes) (sent_to-append j sent more))
  | inr e ↦ rw (e) (sent_to-append j sent more)
]

-- The node at a place, if there is one, has the source.
abbrev pub has_source : ℕ → Option Node → Bool
has_source k none = false
has_source k (some n) = ltb 0 (source_attached n.sources k)

abbrev one_if : Bool → List ℕ → List (List ℕ)
one_if b bytes = if b then bytes ∷ [] else []

abbrev to_all : List ℕ → List ℕ → List (ℕ × List ℕ)
to_all places bytes = map (λ i. (i, bytes)) places

write_all-sent :
    (places bytes : List ℕ) (h : Hkcp)
    → (write_all places bytes h).sent ≡ h.sent ++ to_all places bytes
unfolding write_all
write_all-sent [] bytes h = sym (append-nil h.sent)
write_all-sent (i ∷ places) bytes h =
    write_all-sent places bytes (write i bytes h)
    ∙ append_assoc h.sent ((i, bytes) ∷ []) (to_all places bytes)

attached_below :
    (nodes : List (Option Node)) (k i j : ℕ) (bytes : List ℕ)
    → j < i
    → sent_to j (to_all (attached_nodes nodes k i) bytes) ≡ []
unfolding attached_nodes
attached_below [] k i j bytes small = refl
attached_below (none ∷ nodes) k i j bytes small =
    attached_below nodes k (i + 1) j bytes (omega arith)
attached_below (some n ∷ nodes) k i j bytes small =
    elim (Bool-cases (ltb 0 (source_attached n.sources k))) [
      | inl e ↦ rw (e) (ground (arith, attached_below nodes k (i + 1) j bytes))
      | inr e ↦ rw (e) (attached_below nodes k (i + 1) j bytes (omega arith))
    ]

attached_at :
    (nodes : List (Option Node)) (k i m : ℕ) (bytes : List ℕ)
    → sent_to (i + m) (to_all (attached_nodes nodes k i) bytes)
      ≡ one_if (has_source k (get_or nodes m none)) bytes
unfolding attached_nodes
attached_at [] k i m bytes = refl
attached_at (none ∷ nodes) k i zero bytes =
    attached_below nodes k (i + 1) (i + 0) bytes (omega arith)
attached_at (none ∷ nodes) k i (suc m) bytes =
    ap (λ j. sent_to j (to_all (attached_nodes nodes k (i + 1)) bytes)) {x = i + suc m}
      {y = i + 1 + m} (omega arith)
    ∙ attached_at nodes k (i + 1) m bytes
attached_at (some n ∷ nodes) k i zero bytes =
    elim (Bool-cases (ltb 0 (source_attached n.sources k))) [
      | inl e ↦ rw (e) (ground (arith, attached_below nodes k (i + 1) (i + 0) bytes))
      | inr e ↦ rw (e) (attached_below nodes k (i + 1) (i + 0) bytes (omega arith))
    ]
attached_at (some n ∷ nodes) k i (suc m) bytes =
    let later : sent_to (i + suc m) (to_all (attached_nodes nodes k (i + 1)) bytes)
        ≡ one_if (has_source k (get_or nodes m none)) bytes =
      ap (λ j. sent_to j (to_all (attached_nodes nodes k (i + 1)) bytes)) {x = i + suc m}
        {y = i + 1 + m} (omega arith)
      ∙ attached_at nodes k (i + 1) m bytes in
    elim (Bool-cases (ltb 0 (source_attached n.sources k))) [
      | inl e ↦ rw e (ground (arith, later))
      | inr e ↦ rw e later
    ]

-- An update of a source writes the command that sets its value, once, to each node that has the source,
-- and nothing to any other.
pub hkcp_source_update-sent_to :
    (eps : Endpoints) (k : ℕ) (ep : Ep) (obj : Owner) (h : Hkcp) (srv : Server) (j : ℕ)
    → ep.obj ≡ some obj
    → sent_to j (hkcp_source_update eps k ep (h, srv)).0.sent
      ≡ sent_to j h.sent
        ++ (if has_source k (node_at h j) then set_command obj.name ep.value ∷ [] else [])
unfolding hkcp_source_update
hkcp_source_update-sent_to eps k ep obj h srv j at =
    rw (hkcp_source_update, at)
      (ap (sent_to j)
          (write_all-sent (attached_nodes h.nodes k 0) (set_command obj.name ep.value) h)
        ∙ sent_to-append j h.sent
            (to_all (attached_nodes h.nodes k 0) (set_command obj.name ep.value))
        ∙ ap (λ l. sent_to j h.sent ++ l)
            (ap
                (λ i.
                  sent_to i (to_all (attached_nodes h.nodes k 0) (set_command obj.name ep.value)))
                {x = j} {y = 0 + j} (omega arith)
              ∙ attached_at h.nodes k 0 j (set_command obj.name ep.value)))

source_attached-append :
    (sources : List ℕ) (k : ℕ) → ltb 0 (source_attached (sources ++ (k ∷ [])) k) ≡ true
unfolding source_attached
source_attached-append [] k = ground arith
source_attached-append (j ∷ sources) k = ground (arith, source_attached-append sources k)

pub source_attach-attached :
    (n : Node) (k : ℕ) → ltb 0 (source_attached (source_attach n k).sources k) ≡ true
unfolding source_attach
source_attach-attached n k = elim (Bool-cases (ltb 0 (source_attached n.sources k))) [
  | inl e ↦ rw (source_attach, e) e
  | inr e ↦ rw (source_attach, e) (source_attached-append n.sources k)
]

send_initial_value-if :
    (h : Hkcp) (i : ℕ) (n : Node) (k : ℕ) (source : Source) (obj : Owner)
    → source.ep.obj ≡ some obj
    → ltb 0 (source_attached n.sources k) ≡ true
    → send_initial_value h i n k source
      ≡ (if source.ep.event then h else write i (set_command obj.name source.ep.value) h)
unfolding send_initial_value
send_initial_value-if h i n k source obj owned attached =
    let event : source_is_event (some source.ep) ≡ source.ep.event = rw owned refl in
    rw (send_initial_value, owned, attached)
      (ap (λ b. if b then h else write i (set_command obj.name source.ep.value) h) event)

recv_sink-if :
    (h : Hkcp) (i : ℕ) (n : Node) (k : ℕ) (source : Source) (obj : Owner)
    → source.ep.obj ≡ some obj
    → source.ep.local ≡ false
    → recv_sink h i n k source ≡ (
        if source.ep.event
        then put h i (some (source_attach n k))
        else write i (set_command obj.name source.ep.value) (put h i (some (source_attach n k))))
unfolding recv_sink
recv_sink-if h i n k source obj owned public =
    let open_to_all : is_public (some source.ep) ≡ true = rw (owned, public) refl in
    let attached : recv_sink h i n k source
        ≡ send_initial_value (put h i (some (source_attach n k))) i (source_attach n k) k source =
      rw (recv_sink, open_to_all) refl in
    attached
    ∙ send_initial_value-if (put h i (some (source_attach n k))) i (source_attach n k) k source obj
        owned (source_attach-attached n k)

recv_line-sink :
    (eps : Endpoints) (h : Hkcp) (i : ℕ) (n : Node) (c : ℕ) (str : List ℕ) (k : ℕ) (source : Source)
    → n.state ≡ sinks
    → c ≢ b'.'
    → source_retrieve_by_name eps (until_space (c ∷ str)) ≡ some k
    → get_elem? eps.sources k ≡ some source
    → recv_line eps h i n (c ∷ str) ≡ recv_sink h i n k source
unfolding recv_line recv_sinks recv_name
recv_line-sink eps h i n c str k source state ne found at =
    ap (λ (st : State). elim st [ sinks ↦ recv_sinks eps h i n (c ∷ str) | _ ↦ h ]) state
    ∙ rw (other c ne, recv_name, found, at) refl
  where
    other : (c : ℕ) → c ≢ b'.' → (c == b'.') ≡ false
    other c ne = ground (arith, ne)

-- A node that waits for the list of sinks names one, and there is a public source of that name: it has the
-- source then, and was sent the value of the source, or nothing where the source is an event.
pub recv_line-announced :
    (eps : Endpoints) (h : Hkcp) (i : ℕ) (n : Node) (c : ℕ) (str : List ℕ) (k : ℕ) (source : Source)
    (obj : Owner)
    → node_at h i ≡ some n
    → n.state ≡ sinks
    → c ≢ b'.'
    → source_retrieve_by_name eps (until_space (c ∷ str)) ≡ some k
    → get_elem? eps.sources k ≡ some source
    → source.ep.obj ≡ some obj
    → source.ep.local ≡ false
    → (has_source k (node_at (recv_line eps h i n (c ∷ str)) i) ≡ true)
      × (sent_to i (recv_line eps h i n (c ∷ str)).sent
          ≡ sent_to i h.sent
            ++ (if source.ep.event then [] else set_command obj.name source.ep.value ∷ []))
recv_line-announced eps h i n c str k source obj at state ne found at_k owned public =
    elim (Bool-cases source.ep.event) [
      | inl e ↦
          rw
            (
              recv_line-sink eps h i n c str k source state ne found at_k,
              recv_sink-if h i n k source obj owned public,
              e,
            )
            (has, sym (append-nil (sent_to i h.sent)))
      | inr e ↦
          rw
            (
              recv_line-sink eps h i n c str k source state ne found at_k,
              recv_sink-if h i n k source obj owned public,
              e,
            )
            (
              has,
              sent_to-append i h.sent ((i, set_command obj.name source.ep.value) ∷ [])
                  ∙ ap (λ l. sent_to i h.sent ++ l) itself,
            )
    ]
  where
    has : has_source k (node_at (put h i (some (source_attach n k))) i) ≡ true
    has =
        ap (has_source k) (node_at-put_self h i n (some (source_attach n k)) at)
        ∙ source_attach-attached n k

    itself :
        sent_to i ((i, set_command obj.name source.ep.value) ∷ [])
        ≡ set_command obj.name source.ep.value ∷ []
    itself = ground arith
