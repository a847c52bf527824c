-- ===== src/Core/Hkcp/Sound.antt =====
-- core/hkcp.c: the timers of the nodes stay what the nodes know of them.
use hakit.Base.{
  ℕ, zero, suc, ◌+◌, ◌≡◌, ◌≢◌, inl, inr, refl, sym, ap, ◌∙◌, Bool, true, false, ◌||◌, Option, none,
  some, List, [], ◌∷◌, ◌++◌, ◌==◌, ltb, get_elem?, arith, Bool-cases,
}
use hakit.Core.Hkcp.{
  Node, Timer, Hkcp, Func, call_connect, call_connect_first, node_at, put, write, add_timer,
  without, node_connect, node_connect_first, connect_later, node_hangup, node_remove, set_state,
  connecting, sinks, sinks_request, connect_retries, idle,
}
use hakit.Core.Hkcp.Timers.{
  tag_in, connected_in, pending, IsSound, Fresh, pending-append, pending-without, Kept-IsSound,
  Kept-put,
}
use hakit.Core.Hkcp.Steps.{fire, Kept-write, disarm, rearm}

-- A timer that waits is known to its node.
pub pending-get :
    (timers : List Timer) (k : ℕ) (t : Timer)
    → get_elem? timers k ≡ some t
    → pending timers t.node t.tag ≡ true
unfolding pending
pending-get [] k t at = ground (arith, at)
pending-get (u ∷ timers) zero t at = ground (arith, at)
pending-get (u ∷ timers) (suc k) t at = ground (arith, pending-get timers k t at)

-- The node, when a connection is tried and when it is made.
abbrev pub tried : Node → Node
tried n = set_state connecting (record n { connect_attempts = n.connect_attempts + 1 })

abbrev pub joined : Node → Node
joined n = set_state sinks (record (tried n) { connected = true; timeout_tag = 0 })

abbrev pub wait : ℕ → Func → ℕ → Timer
wait tag func i = record { tag = tag; delay = 5000; func = func; node = i }

node_connect-up :
    (tag : ℕ) (h : Hkcp) (i : ℕ) (n : Node)
    → node_connect true tag h i n ≡ (0, write i sinks_request (put h i (some (joined n))))
unfolding node_connect
node_connect-up tag h i n = refl

pub node_connect-over :
    (tag : ℕ) (h : Hkcp) (i : ℕ) (n : Node)
    → ltb connect_retries (n.connect_attempts + 1) ≡ true
    → node_connect false tag h i n ≡ (0, put h i none)
unfolding node_connect node_remove
node_connect-over tag h i n over = rw over refl

pub node_connect-new :
    (tag : ℕ) (h : Hkcp) (i : ℕ) (n : Node)
    → ltb connect_retries (n.connect_attempts + 1) ≡ false
    → n.timeout_tag ≡ 0
    → node_connect false tag h i n ≡ (
      1,
      add_timer (wait tag call_connect i) (put h i (some (record (tried n) { timeout_tag = tag }))),
    )
unfolding node_connect
node_connect-new tag h i n more none_yet = rw (more, none_yet) refl

pub node_connect-again :
    (tag : ℕ) (h : Hkcp) (i : ℕ) (n : Node)
    → ltb connect_retries (n.connect_attempts + 1) ≡ false
    → n.timeout_tag ≢ 0
    → node_connect false tag h i n ≡ (1, put h i (some (tried n)))
unfolding node_connect
node_connect-again tag h i n more has = rw (more, ≢→test n.timeout_tag has) refl
  where
    ≢→test : (a : ℕ) → a ≢ 0 → (a == 0) ≡ false
    ≢→test a ne = ground (arith, ne)

pub fire_connect :
    (h : Hkcp) (tag : ℕ) (t : Timer) (n : Node) (up : Bool)
    → IsSound h
    → t.func ≡ call_connect
    → node_at h t.node ≡ some n
    → n.timeout_tag ≡ t.tag
    → t.tag ≢ 0
    → n.connected ≡ false
    → IsSound (fire up tag h t n)
fire_connect h tag t n true sound f at e nz off =
    rw (f, node_connect-up tag h t.node n)
      (disarm h _ t.node n (some (joined n)) sound at refl (ap (λ x. without x h.timers) (sym e))
        refl)
fire_connect h tag t n false sound f at e nz off =
    elim (Bool-cases (ltb connect_retries (n.connect_attempts + 1))) [
      | inl over ↦
          rw (f, node_connect-over tag h t.node n over)
            (disarm h _ t.node n none sound at refl (ap (λ x. without x h.timers) (sym e)) refl)
      | inr more ↦
          rw (f, node_connect-again tag h t.node n more (λ z. nz (sym e ∙ z)))
            (Kept-IsSound h _ (Kept-put h t.node n (some (tried n)) at refl (λ on. on)) sound)
    ]

-- A timer of the node's, or none where the event loop has no place.
pub fire_first :
    (h : Hkcp) (tag : ℕ) (t : Timer) (n : Node) (up : Bool)
    → IsSound h
    → t.func ≡ call_connect_first
    → Fresh h tag
    → node_at h t.node ≡ some n
    → n.timeout_tag ≡ t.tag
    → n.connected ≡ false
    → IsSound (fire up tag h t n)
unfolding node_connect_first without
fire_first h tag t n true sound f fresh at e off =
    rw (f, node_connect-up tag h t.node (record n { timeout_tag = 0; connect_attempts = 0 }))
      (disarm h _ t.node n (some (joined (record n { timeout_tag = 0; connect_attempts = 0 })))
        sound at refl (ap (λ x. without x h.timers) (sym e)) refl)
fire_first h tag t n false sound f fresh at e off = elim (Bool-cases (tag == 0)) [
  | inl z ↦
      rw
        (
          f,
          node_connect-new tag h t.node (record n { timeout_tag = 0; connect_attempts = 0 }) refl
              refl,
          z,
        )
        (disarm h _ t.node n
          (some (record (tried (record n { timeout_tag = 0; connect_attempts = 0 })) {
            timeout_tag = tag;
          }))
          sound at refl (ap (λ x. without x h.timers) (sym e)) (ground (arith, z)))
  | inr nz ↦
      rw
        (
          f,
          node_connect-new tag h t.node (record n { timeout_tag = 0; connect_attempts = 0 }) refl
              refl,
          nz,
        )
        (rearm h _ t.node n
          (record (tried (record n { timeout_tag = 0; connect_attempts = 0 })) {
            timeout_tag = tag;
          })
          (wait tag call_connect t.node) sound fresh (ground (arith, nz)) refl at refl
          (λ j y. ground (
            arith,
            pending-without (h.timers ++ (wait tag call_connect t.node ∷ [])) t.tag j y,
            pending-append h.timers (wait tag call_connect t.node) j y,
            e,
          ))
          refl off)
]

tag_0 :
    (h : Hkcp) (i : ℕ) (n : Node)
    → IsSound h
    → node_at h i ≡ some n
    → n.connected ≡ true
    → n.timeout_tag ≡ 0
tag_0 h i n sound at on = sym (ap tag_in at) ∙ sound.quiet i (ap connected_in at ∙ on)

-- A node with no timer waits for a new one, if the event loop has a place for it.
wait_for :
    (h : Hkcp) (i : ℕ) (n m : Node) (t : Timer)
    → IsSound h
    → Fresh h t.tag
    → t.node ≡ i
    → node_at h i ≡ some n
    → n.timeout_tag ≡ 0
    → m.timeout_tag ≡ t.tag
    → m.connected ≡ false
    → IsSound (add_timer t (put h i (some m)))
wait_for h i n m t sound fresh place at none_yet tag off = elim (Bool-cases (t.tag == 0)) [
  | inl z ↦ rw z (
      Kept-IsSound h _
        (Kept-put h i n (some m) at (ground (arith, z, tag, none_yet))
          (λ on. absurd (ground (arith, on, off))))
        sound)
  | inr nz ↦ rw nz (
      rearm h _ i n m t sound fresh (ground (arith, nz)) place at refl
        (λ j y. ground (arith, pending-append h.timers t j y, sound.known j y, none_yet, nz)) tag
        off)
]

pub hangup-IsSound :
    (h : Hkcp) (i tag : ℕ) (n : Node) (up : Bool)
    → IsSound h
    → node_at h i ≡ some n
    → n.connected ≡ true
    → Fresh h tag
    → IsSound (node_hangup up tag h i n)
unfolding node_hangup
hangup-IsSound h i tag n true sound at on fresh =
    rw
      (
        node_hangup,
        node_connect-up tag h i
            (set_state idle (record n { connected = false; connect_attempts = 0 })),
      )
      (Kept-IsSound h _
        (Kept-write h _ i sinks_request (
          Kept-put h i n
            (some (joined (set_state idle (record n { connected = false; connect_attempts = 0 }))))
            at (sym (tag_0 h i n sound at on)) (λ _. on)))
        sound)
hangup-IsSound h i tag n false sound at on fresh =
    rw
      (
        node_hangup,
        node_connect-new tag h i
            (set_state idle (record n { connected = false; connect_attempts = 0 })) refl
            (tag_0 h i n sound at on),
      )
      (wait_for h i n
        (record (tried (set_state idle (record n { connected = false; connect_attempts = 0 }))) {
          timeout_tag = tag;
        })
        (wait tag call_connect i) sound fresh refl at (tag_0 h i n sound at on) refl refl)

pub connect_later-IsSound :
    (tag : ℕ) (h : Hkcp) (i : ℕ) (o : Option Node)
    → IsSound h
    → Fresh h tag
    → node_at h i ≡ o
    → IsSound (connect_later tag h i o)
unfolding connect_later
connect_later-IsSound tag h i none sound fresh at = sound
connect_later-IsSound tag h i (some n) sound fresh at =
    elim (Bool-cases (n.connected || ltb 0 n.timeout_tag)) [
      | inl e ↦ rw e sound
      | inr e ↦ rw e (
          wait_for h i n (record n { timeout_tag = tag })
            (record { tag = tag; delay = 10; func = call_connect_first; node = i }) sound fresh refl
            at (ground (arith, e)) refl (ground (arith, e)))
    ]
