-- ===== src/Core/Hkcp/Reach.antt =====
-- core/hkcp.c: whatever happens, a timer that waits is known to a node that is there.
use hakit.Base.{
  set, set-get_or, ℕ, zero, suc, ◌≡◌, ◌≢◌, inl, inr, refl, sym, ap, subst, ◌∙◌, Bool, false, Option,
  none, some, List, [], ◌∷◌, ◌++◌, ◌==◌, ltb, get_elem?, length, arith, Bool-cases, Option-cases, ℤ,
}
use mathlib.Core.Option.{some-injective}
use hakit.Core.Command.{until_newline, is_empty, c_string}
use hakit.Core.Endpoint.{Endpoints, Source, source_retrieve_by_name, is_public, source_is_event}
use hakit.Core.Hkcp.{
  tcp_hangup, node_hangup, cut, State, Node, Timer, Hkcp, Func, call_connect, call_connect_first,
  node_at, put, node_remove, source_attach, source_attached, set_command, set_state, ready, sinks,
  idle, connecting,
}
use hakit.Core.Hkcp.Receive.{
  recv_from, recv_line, recv_sinks, recv_name, recv_sink, send_initial_value, end_line,
  after_segment, until_space,
}
use hakit.Core.Hkcp.Timers.{
  tag_in, connected_in, tag_of, pending, IsSound, Fresh, Kept, Kept-refl, Kept-trans, Kept-IsSound,
  Kept-put, node_at-put_self,
}
use hakit.Core.Hkcp.Steps.{
  Step, add, expire, receive, hangup, send, Reached, start, after, Kept-write, fire,
}
use hakit.Core.Hkcp.Added.{add-IsSound}
use hakit.Core.Hkcp.Sound.{pending-get, fire_connect, fire_first, hangup-IsSound}

attach-same :
    (n : Node) (k : ℕ)
    → ((source_attach n k).timeout_tag ≡ n.timeout_tag)
      × ((source_attach n k).connected ≡ n.connected)
unfolding source_attach
attach-same n k = elim (Bool-cases (ltb 0 (source_attached n.sources k))) [
  | inl e ↦ rw e (refl, refl)
  | inr e ↦ rw e (refl, refl)
]

send_initial_value-Kept :
    (h h' : Hkcp) (i : ℕ) (n : Node) (k : ℕ) (source : Source)
    → Kept h h'
    → Kept h (send_initial_value h' i n k source)
unfolding send_initial_value
send_initial_value-Kept h h' i n k source kept = elim (Option-cases source.ep.obj) [
  | inl e ↦ rw (send_initial_value, e) kept
  | inr (obj, e) ↦ elim (Bool-cases (source_is_event (some source.ep))) [
    | inl f ↦ rw (send_initial_value, e, f) kept
    | inr f ↦ elim (Bool-cases (ltb 0 (source_attached n.sources k))) [
      | inl g ↦
          rw (send_initial_value, e, f, g)
            (Kept-write h h' i (set_command obj.name source.ep.value) kept)
      | inr g ↦ rw (send_initial_value, e, f, g) kept
    ]
  ]
]

recv_sink-Kept :
    (h : Hkcp) (i : ℕ) (n : Node) (k : ℕ) (source : Source)
    → node_at h i ≡ some n
    → Kept h (recv_sink h i n k source)
unfolding recv_sink
recv_sink-Kept h i n k source at = elim (Bool-cases (is_public (some source.ep))) [
  | inr e ↦ rw (recv_sink, e) (Kept-refl h)
  | inl e ↦
      let (tag, link) = attach-same n k in
      rw (recv_sink, e)
        (send_initial_value-Kept h _ i (source_attach n k) k source
          (Kept-put h i n (some (source_attach n k)) at tag (λ on. sym link ∙ on)))
]

recv_name-Kept :
    (eps : Endpoints) (h : Hkcp) (i : ℕ) (n : Node) (str : List ℕ)
    → node_at h i ≡ some n
    → Kept h (recv_name eps h i n str)
unfolding recv_name
recv_name-Kept eps h i n str at =
    elim (Option-cases (source_retrieve_by_name eps (until_space str))) [
      | inl e ↦ rw (recv_name, e) (Kept-refl h)
      | inr (k, e) ↦ elim (Option-cases (get_elem? eps.sources k)) [
        | inl f ↦ rw (recv_name, e, f) (Kept-refl h)
        | inr (source, f) ↦ rw (recv_name, e, f) (recv_sink-Kept h i n k source at)
      ]
    ]

recv_sinks-Kept :
    (eps : Endpoints) (h : Hkcp) (i : ℕ) (n : Node) (str : List ℕ)
    → node_at h i ≡ some n
    → n.timeout_tag ≡ 0
    → Kept h (recv_sinks eps h i n str)
unfolding recv_sinks node_remove
recv_sinks-Kept eps h i n [] at none_yet = recv_name-Kept eps h i n [] at
recv_sinks-Kept eps h i n (c ∷ str) at none_yet = elim (Bool-cases (c == b'.')) [
  | inr e ↦ rw e (recv_name-Kept eps h i n (c ∷ str) at)
  | inl e ↦ elim (Bool-cases (ltb 0 (length n.sources))) [
    | inl f ↦ rw (e, f) (Kept-put h i n (some (set_state ready n)) at refl (λ on. on))
    | inr f ↦
        rw (e, f, none_yet)
          (Kept-put h i n none at (sym none_yet) (λ on. absurd (ground (arith, on))))
  ]
]

recv_line-Kept :
    (eps : Endpoints) (h : Hkcp) (i : ℕ) (n : Node) (str : List ℕ)
    → node_at h i ≡ some n
    → n.timeout_tag ≡ 0
    → Kept h (recv_line eps h i n str)
unfolding recv_line
recv_line-Kept eps h i n str at none_yet = go n.state refl
  where
    go : (s : State) → n.state ≡ s → Kept h (recv_line eps h i n str)
    go idle e = rw (recv_line, e) (Kept-refl h)
    go connecting e = rw (recv_line, e) (Kept-refl h)
    go sinks e = rw (recv_line, e) (recv_sinks-Kept eps h i n str at none_yet)
    go ready e = rw (recv_line, e) (Kept-refl h)

end_line-Kept :
    (eps : Endpoints) (h : Hkcp) (i : ℕ) (n : Node) (line : List ℕ)
    → node_at h i ≡ some n
    → n.timeout_tag ≡ 0
    → Kept h (end_line eps h i n line)
unfolding end_line
end_line-Kept eps h i n line at none_yet = elim (Bool-cases (is_empty line)) [
  | inl e ↦ rw (end_line, e) begun
  | inr e ↦
      rw (end_line, e)
        (Kept-trans h _ _ begun (
          recv_line-Kept eps (put h i (some (record n { rbuf = [] }))) i (record n { rbuf = [] })
            (c_string line) (node_at-put_self h i n (some (record n { rbuf = [] })) at) none_yet))
]
  where
    begun : Kept h (put h i (some (record n { rbuf = [] })))
    begun = Kept-put h i n (some (record n { rbuf = [] })) at refl (λ on. on)

recv_from-Kept :
    (fuel : ℕ) (eps : Endpoints) (h h' : Hkcp) (i : ℕ) (s : List ℕ)
    → tag_of h i ≡ 0
    → recv_from fuel eps h i s ≡ some h'
    → Kept h h'
unfolding recv_from after_segment
recv_from-Kept zero eps h h' i s none_yet e = same h h' (some-injective _ _ e)
  where
    same : (h h' : Hkcp) → h ≡ h' → Kept h h'
    same h h' e = subst (Kept h) e (Kept-refl h)
recv_from-Kept (suc fuel) eps h h' i [] none_yet e =
    subst (Kept h) (some-injective _ _ e) (Kept-refl h)
recv_from-Kept (suc fuel) eps h h' i (c ∷ s) none_yet e = elim (Option-cases (node_at h i)) [
  | inl f ↦ absurd (ground (arith, e, f))
  | inr (n, f) ↦
      segment (λ h1 rest. recv_from-Kept fuel eps h1 h' i rest) n f (until_newline (c ∷ s))
        (sym (
            ap
              (λ o. elim o [
                | none ↦ none
                | some n ↦
                    after_segment (λ h' rest. recv_from fuel eps h' i rest) eps h i n
                      (until_newline (c ∷ s))
              ])
              f)
          ∙ e)
]
  where
    segment :
        (more : (h1 : Hkcp) (rest : List ℕ)
          → tag_of h1 i ≡ 0
          → recv_from fuel eps h1 i rest ≡ some h'
          → Kept h1 h')
        → (n : Node) → node_at h i ≡ some n
        → (p : List ℕ × Option (List ℕ))
        → after_segment (λ h' rest. recv_from fuel eps h' i rest) eps h i n p ≡ some h'
        → Kept h h'
    segment more n f (before, none) g =
        subst (Kept h) (some-injective _ _ g)
          (Kept-put h i n (some (record n { rbuf = n.rbuf ++ before })) f refl (λ on. on))
    segment more n f (before, some rest) g =
        let k = end_line-Kept eps h i n (n.rbuf ++ before) f (sym (ap tag_in f) ∙ none_yet) in
        Kept-trans h _ h' k (more _ rest (k.same_tags i ∙ none_yet) g)

known_timer :
    (h : Hkcp) (k : ℕ) (t : Timer)
    → IsSound h
    → get_elem? h.timers k ≡ some t
    → (t.tag ≢ 0) × (tag_of h t.node ≡ t.tag)
known_timer h k t sound at =
    let waits = sym (sound.known t.node t.tag) ∙ pending-get h.timers k t at in
    (λ z. ground (arith, waits, z), ground (arith, waits))

expire-IsSound :
    (h : Hkcp) (k tag : ℕ) (t : Timer) (n : Node) (up : Bool)
    → IsSound h
    → get_elem? h.timers k ≡ some t
    → node_at h t.node ≡ some n
    → Fresh h tag
    → IsSound (fire up tag h t n)
expire-IsSound h k tag t n up sound at_k at fresh = go t.func refl
  where
    facts : (t.tag ≢ 0) × (tag_of h t.node ≡ t.tag)
    facts = known_timer h k t sound at_k

    tag_n : n.timeout_tag ≡ t.tag
    tag_n = sym (ap tag_in at) ∙ facts.1

    off : n.connected ≡ false
    off = elim (Bool-cases n.connected) [
      | inl on ↦ absurd (facts.0 (sym facts.1 ∙ sound.quiet t.node (ap connected_in at ∙ on)))
      | inr e ↦ e
    ]

    go : (f : Func) → t.func ≡ f → IsSound (fire up tag h t n)
    go call_connect e = fire_connect h tag t n up sound e at tag_n facts.0 off
    go call_connect_first e = fire_first h tag t n up sound e fresh at tag_n off

cut-Kept : (h : Hkcp) (i : ℕ) (o : Option Node) → node_at h i ≡ o → Kept h (put h i (cut o))
cut-Kept h i none at =
    subst (Kept h) (ap (λ nodes. record h { nodes = nodes }) (sym (put-none h i at))) (Kept-refl h)
  where
    put-none : (h : Hkcp) (i : ℕ) → node_at h i ≡ none → set h.nodes i none ≡ h.nodes
    put-none h i at = ap (set h.nodes i) (sym at) ∙ set-get_or h.nodes i none
cut-Kept h i (some n) at =
    Kept-put h i n (some (record n { connected = false })) at refl (λ e. absurd (ground (arith, e)))

tcp_hangup-IsSound :
    (h : Hkcp) (i tag : ℕ) (n : Node) (up : Bool)
    → IsSound (node_hangup up tag h i n)
    → IsSound (tcp_hangup up tag h i n)
unfolding tcp_hangup
tcp_hangup-IsSound h i tag n up sound =
    let h' = node_hangup up tag h i n in Kept-IsSound h' _ (cut-Kept h' i (node_at h' i) refl) sound

step-IsSound : (h h' : Hkcp) → Step h h' → IsSound h → IsSound h'
step-IsSound _ h' (add eps h tag ip fresh) sound = add-IsSound eps tag h ip sound fresh
step-IsSound _ h' (expire h k tag t n up at_k at fresh) sound =
    expire-IsSound h k tag t n up sound at_k at fresh
step-IsSound _ _ (receive eps h h' i n rbuf at on e) sound =
    Kept-IsSound h h'
      (recv_from-Kept (length rbuf) eps h h' i rbuf (sound.quiet i (ap connected_in at ∙ on)) e)
      sound
step-IsSound _ _ (hangup h i tag n up at on fresh) sound =
    tcp_hangup-IsSound h i tag n up (hangup-IsSound h i tag n up sound at on fresh)
step-IsSound _ h' (send h i bytes) sound =
    Kept-IsSound h _ (Kept-write h h i bytes (Kept-refl h)) sound

start-IsSound : (port : ℤ) → IsSound (record { port = port; nodes = []; timers = []; sent = [] })
unfolding pending
start-IsSound port = record {
  known = λ i tag. ground arith;
  apart = λ i j nz same. absurd (nz refl);
  quiet = λ i on. refl;
}

-- After any steps from an empty table, where the event loop gives tags that no timer has (or 0): the timers
-- that wait are those that the nodes in the table know of, each by its tag; no two nodes know of one timer;
-- and a node that is connected waits for none. A step is an advertised node, a timer that fires, a chunk or
-- the end of a connection with its second try, or a write; the endpoints may change in between.
pub Reached-IsSound : (port : ℤ) (h : Hkcp) → Reached port h → IsSound h
Reached-IsSound port _ start = start-IsSound port
Reached-IsSound port _ (after h h' reached step) =
    step-IsSound h h' step (Reached-IsSound port h reached)
