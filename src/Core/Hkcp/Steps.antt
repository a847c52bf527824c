-- ===== src/Core/Hkcp/Steps.antt =====
-- core/hkcp.c: what happens to the table of nodes, step by step.
use hakit.Base.{
  ℕ, ◌≡◌, ◌≢◌, refl, sym, ap, ◌∙◌, Bool, true, false, ◌&&◌, ◌||◌, not, Option, none, some, List, [],
  ◌==◌, if◌then◌else◌, get_elem?, get_or, set, arith, ℤ,
}
use hakit.Core.Endpoint.{Endpoints}
use hakit.Core.Hkcp.{
  Node, Timer, Hkcp, Func, call_connect, call_connect_first, node_at, put, write, without,
  sys_remove, node_connect, node_connect_first, node_add, tcp_hangup,
}
use hakit.Core.Hkcp.Receive.{node_recv}
use hakit.Core.Hkcp.Timers.{
  tag_in, connected_in, tag_of, pending, IsSound, Fresh, Moved, Moved-IsSound, pending-without,
  node_at-put_self, node_at-put_ne, Kept,
}

abbrev call : Func → Bool → ℕ → Hkcp → ℕ → Node → ℕ × Hkcp
call call_connect_first up tag h i n = node_connect_first up tag h i n
call call_connect up tag h i n = node_connect up tag h i n

-- The event loop calls a timer's function, and removes the timer if the result is 0.
abbrev done : ℕ → ℕ × Hkcp → Hkcp
done tag (ret, h) = if ret == 0 then sys_remove tag h else h

abbrev pub fire : Bool → ℕ → Hkcp → Timer → Node → Hkcp
fire up tag h t n = done t.tag (call t.func up tag h t.node n)

-- A node is advertised; a timer fires; a node that is connected sends a chunk, or hangs up; a write. The
-- endpoints may change between two steps.
pub data Step : Hkcp → Hkcp → Type 0 where
  add :
      (eps : Endpoints) (h : Hkcp) (tag : ℕ) (remote_ip : List ℕ)
      → Fresh h tag
      → Step h (node_add eps tag h remote_ip)
  expire :
      (h : Hkcp) (k tag : ℕ) (t : Timer) (n : Node) (up : Bool)
      → get_elem? h.timers k ≡ some t
      → node_at h t.node ≡ some n
      → Fresh h tag
      → Step h (fire up tag h t n)
  receive :
      (eps : Endpoints) (h h' : Hkcp) (i : ℕ) (n : Node) (rbuf : List ℕ)
      → node_at h i ≡ some n
      → n.connected ≡ true
      → node_recv eps h i rbuf ≡ some h'
      → Step h h'
  hangup :
      (h : Hkcp) (i tag : ℕ) (n : Node) (up : Bool)
      → node_at h i ≡ some n
      → n.connected ≡ true
      → Fresh h tag
      → Step h (tcp_hangup up tag h i n)
  send : (h : Hkcp) (i : ℕ) (bytes : List ℕ) → Step h (write i bytes h)

pub data Reached (port : ℤ) : Hkcp → Type 0 where
  start : Reached port (record { port = port; nodes = []; timers = []; sent = [] })
  after : (h h' : Hkcp) → Reached port h → Step h h' → Reached port h'

pub Kept-write : (h h' : Hkcp) (i : ℕ) (bytes : List ℕ) → Kept h h' → Kept h (write i bytes h')
Kept-write h h' i bytes k = record {
  same_timers = k.same_timers;
  same_tags = k.same_tags;
  no_more = k.no_more;
}

-- The node at place `i` is written back or removed.
pub Moved-set :
    (h h' : Hkcp) (i new : ℕ) (n : Node) (x : Option Node)
    → node_at h i ≡ some n
    → h'.nodes ≡ set h.nodes i x
    → tag_in x ≡ new
    → (connected_in x ≡ true → new ≡ 0)
    → Fresh h new
    → ((j tag : ℕ)
        → pending h'.timers j tag ≡ (
            (pending h.timers j tag && not (tag == n.timeout_tag))
            || (not (new == 0) && (i == j && new == tag))))
    → Moved h h' i new
Moved-set h h' i new n x at nodes tag still fresh waits = record {
  tags = λ j ne. ap tag_in (there j ∙ node_at-put_ne h i j x ne);
  links = λ j ne. ap connected_in (there j ∙ node_at-put_ne h i j x ne);
  here = ap tag_in (there i ∙ node_at-put_self h i n x at) ∙ tag;
  waits = λ j y. rw (at) (waits j y);
  fresh = fresh;
  still = λ on. still (sym (ap connected_in (there i ∙ node_at-put_self h i n x at)) ∙ on);
}
  where
    there : (j : ℕ) → node_at h' j ≡ node_at (put h i x) j
    there j = ap (λ nodes. get_or nodes j none) nodes

never_0 : (h : Hkcp) → IsSound h → Fresh h 0
never_0 h sound i = sound.known i 0

-- A new tag is none that a node has.
new_tag : (h : Hkcp) (i tag : ℕ) → IsSound h → Fresh h tag → tag ≢ 0 → tag_of h i ≢ tag
new_tag h i tag sound fresh nz e = ground (arith, sound.known i tag, fresh i)

-- The timer of the node is gone.
pub disarm :
    (h h' : Hkcp) (i : ℕ) (n : Node) (x : Option Node)
    → IsSound h
    → node_at h i ≡ some n
    → h'.nodes ≡ set h.nodes i x
    → h'.timers ≡ without n.timeout_tag h.timers
    → tag_in x ≡ 0
    → IsSound h'
disarm h h' i n x sound at nodes timers tag =
    Moved-IsSound h h' i 0
      (Moved-set h h' i 0 n x at nodes tag (λ on. refl) (never_0 h sound)
        (λ j y.
          ap (λ ts. pending ts j y) timers
          ∙ ground (arith, pending-without h.timers n.timeout_tag j y)))
      sound

-- A new timer waits for the node, in place of the one it had.
pub rearm :
    (h h' : Hkcp) (i : ℕ) (n m : Node) (t : Timer)
    → IsSound h
    → Fresh h t.tag
    → t.tag ≢ 0
    → t.node ≡ i
    → node_at h i ≡ some n
    → h'.nodes ≡ set h.nodes i (some m)
    → ((j tag : ℕ)
        → pending h'.timers j tag ≡ (
            (pending h.timers j tag || (t.node == j && t.tag == tag))
            && not (tag == n.timeout_tag)))
    → m.timeout_tag ≡ t.tag
    → m.connected ≡ false
    → IsSound h'
rearm h h' i n m t sound fresh nz place at nodes timers tag link =
    Moved-IsSound h h' i t.tag
      (Moved-set h h' i t.tag n (some m) at nodes tag (λ on. absurd (ground (arith, on, link)))
        fresh (λ j y. ground (arith, timers j y, place, other)))
      sound
  where
    other : n.timeout_tag ≢ t.tag
    other = λ e. new_tag h i t.tag sound fresh nz (ap tag_in at ∙ e)
