-- ===== src/Core/Hkcp/Timers.antt =====
-- core/hkcp.c: the timers that the event loop keeps for the nodes, and the tags that the nodes keep of them.
use hakit.Base.{
  ℕ, ◌<◌, ◌≡◌, ◌≢◌, inl, inr, refl, sym, ap, subst, ◌∙◌, Bool, true, false, ◌&&◌, ◌||◌, not, Option,
  none, some, List, [], ◌∷◌, ◌++◌, ◌==◌, length, arith, Bool-cases, ℕ_discrete, dec_lt,
  get_or-set_self, get_or-set_ne, get_or-beyond,
}
use hakit.Core.Hkcp.{Node, Timer, Hkcp, node_at, put, without}

abbrev pub tag_in : Option Node → ℕ
tag_in none = 0
tag_in (some n) = n.timeout_tag

abbrev pub connected_in : Option Node → Bool
connected_in none = false
connected_in (some n) = n.connected

-- The tag that the node at a place keeps, 0 where there is no node.
abbrev pub tag_of : Hkcp → ℕ → ℕ
tag_of h i = tag_in (node_at h i)

abbrev pub connected_at : Hkcp → ℕ → Bool
connected_at h i = connected_in (node_at h i)

-- A timer with the tag waits for the node at place `i`.
unfoldable pub pending : List Timer → ℕ → ℕ → Bool
pending [] i tag = false
pending (t ∷ timers) i tag = (t.node == i && t.tag == tag) || pending timers i tag

-- The timers that wait are those that the nodes know of, no two nodes know of one timer, and a node
-- that is connected waits for none.
pub record IsSound (h : Hkcp) : Type 0 where
  pub known : (i tag : ℕ) → pending h.timers i tag ≡ (not (tag == 0) && tag_of h i == tag)
  pub apart : (i j : ℕ) → tag_of h i ≢ 0 → tag_of h i ≡ tag_of h j → i ≡ j
  pub quiet : (i : ℕ) → connected_at h i ≡ true → tag_of h i ≡ 0

-- `sys_timeout` gives 0 or a tag that no timer has.
abbrev pub Fresh : Hkcp → ℕ → Type 0
Fresh h tag = (i : ℕ) → pending h.timers i tag ≡ false

-- What an operation does to the node at place `i`, which keeps the tag `new` after it.
pub record Moved (h h' : Hkcp) (i new : ℕ) : Type 0 where
  pub tags : (j : ℕ) → i ≢ j → tag_of h' j ≡ tag_of h j
  pub links : (j : ℕ) → i ≢ j → connected_at h' j ≡ connected_at h j
  pub here : tag_of h' i ≡ new
  pub waits :
      (j tag : ℕ)
      → pending h'.timers j tag ≡ (
          (pending h.timers j tag && not (tag == tag_of h i))
          || (not (new == 0) && (i == j && new == tag)))
  pub fresh : Fresh h new
  pub still : connected_at h' i ≡ true → new ≡ 0

pub Moved-IsSound : (h h' : Hkcp) (i new : ℕ) → Moved h h' i new → IsSound h → IsSound h'
Moved-IsSound h h' i new m sound = record {
  known = λ j tag. elim (ℕ_discrete i j) [
    | yes e ↦
        subst (λ j. pending h'.timers j tag ≡ (not (tag == 0) && tag_of h' j == tag)) e
          (ground (arith, m.here, m.waits i tag, sound.known i tag))
    | no ne ↦ ground (arith, m.tags j ne, m.waits j tag, sound.known j tag, sound.apart j i)
  ];
  apart = λ j k some_tag same. elim (ℕ_discrete i j) [
    | yes e ↦ elim (ℕ_discrete i k) [
      | yes ek ↦ sym e ∙ ek
      | no nk ↦ absurd (
          taken k nk (sym (m.tags k nk) ∙ sym same ∙ ap (tag_of h') (sym e) ∙ m.here)
            (λ z. some_tag (ap (tag_of h') (sym e) ∙ m.here ∙ z)))
    ]
    | no ne ↦ elim (ℕ_discrete i k) [
      | yes e ↦ absurd (
          taken j ne (sym (m.tags j ne) ∙ same ∙ ap (tag_of h') (sym e) ∙ m.here)
            (λ z. some_tag (same ∙ ap (tag_of h') (sym e) ∙ m.here ∙ z)))
      | no nk ↦
          sound.apart j k (ground (arith, m.tags j ne)) (sym (m.tags j ne) ∙ same ∙ m.tags k nk)
    ]
  ];
  quiet = λ j on. elim (ℕ_discrete i j) [
    | yes e ↦
        subst (λ j. tag_of h' j ≡ 0) e
          (m.here ∙ m.still (subst (λ j. connected_at h' j ≡ true) (sym e) on))
    | no ne ↦ m.tags j ne ∙ sound.quiet j (sym (m.links j ne) ∙ on)
  ];
}
  where
    taken : (k : ℕ) → i ≢ k → tag_of h k ≡ new → new ≢ 0 → ⊥
    taken k nk e nz = ground (arith, m.fresh k, sound.known k new, e)

pub pending-append :
    (timers : List Timer) (t : Timer) (i tag : ℕ)
    → pending (timers ++ (t ∷ [])) i tag ≡ (pending timers i tag || (t.node == i && t.tag == tag))
unfolding pending
pending-append [] t i tag = ground arith
pending-append (u ∷ timers) t i tag = ground (arith, pending-append timers t i tag)

pub pending-without :
    (timers : List Timer) (x i tag : ℕ)
    → pending (without x timers) i tag ≡ (pending timers i tag && not (tag == x))
unfolding pending without
pending-without [] x i tag = refl
pending-without (u ∷ timers) x i tag = elim (Bool-cases (u.tag == x)) [
  | inl e ↦ rw e (ground (arith, pending-without timers x i tag))
  | inr e ↦ rw e (ground (arith, pending-without timers x i tag))
]

pub node-small : (h : Hkcp) (i : ℕ) (n : Node) → node_at h i ≡ some n → i < length h.nodes
node-small h i n at = elim (dec_lt i (length h.nodes)) [
  | yes small ↦ small
  | no large ↦
      absurd (ground (arith, at, get_or-beyond {A = Option Node} none h.nodes i (omega arith)))
]

pub node_at-put_self :
    (h : Hkcp) (i : ℕ) (n : Node) (x : Option Node)
    → node_at h i ≡ some n
    → node_at (put h i x) i ≡ x
node_at-put_self h i n x at = get_or-set_self h.nodes i x none (node-small h i n at)

pub node_at-put_ne :
    (h : Hkcp) (i j : ℕ) (x : Option Node) → i ≢ j → node_at (put h i x) j ≡ node_at h j
node_at-put_ne h i j x ne = get_or-set_ne h.nodes x none ne

-- Nothing is changed of the timers and of the tags, and no node is connected by it.
pub record Kept (h h' : Hkcp) : Type 0 where
  pub same_timers : h'.timers ≡ h.timers
  pub same_tags : (j : ℕ) → tag_of h' j ≡ tag_of h j
  pub no_more : (j : ℕ) → connected_at h' j ≡ true → connected_at h j ≡ true

pub Kept-refl : (h : Hkcp) → Kept h h
Kept-refl h = record { same_timers = refl; same_tags = λ j. refl; no_more = λ j on. on }

pub Kept-trans : (h h' h'' : Hkcp) → Kept h h' → Kept h' h'' → Kept h h''
Kept-trans h h' h'' k k' = record {
  same_timers = k'.same_timers ∙ k.same_timers;
  same_tags = λ j. k'.same_tags j ∙ k.same_tags j;
  no_more = λ j on. k.no_more j (k'.no_more j on);
}

pub Kept-IsSound : (h h' : Hkcp) → Kept h h' → IsSound h → IsSound h'
Kept-IsSound h h' k sound = record {
  known = λ i tag.
      ap (λ timers. pending timers i tag) k.same_timers
      ∙ sound.known i tag
      ∙ ap (λ x. not (tag == 0) && x == tag) (sym (k.same_tags i));
  apart = λ i j nz same.
      sound.apart i j (λ z. nz (k.same_tags i ∙ z)) (sym (k.same_tags i) ∙ same ∙ k.same_tags j);
  quiet = λ i on. k.same_tags i ∙ sound.quiet i (k.no_more i on);
}

-- A node is written back with its tag, or removed where it has none.
pub Kept-put :
    (h : Hkcp) (i : ℕ) (n : Node) (x : Option Node)
    → node_at h i ≡ some n
    → tag_in x ≡ n.timeout_tag
    → (connected_in x ≡ true → n.connected ≡ true)
    → Kept h (put h i x)
Kept-put h i n x at tag link = record {
  same_timers = refl;
  same_tags = λ j. elim (ℕ_discrete i j) [
    | yes e ↦
        subst (λ j. tag_of (put h i x) j ≡ tag_of h j) e
          (ap tag_in (node_at-put_self h i n x at) ∙ tag ∙ sym (ap tag_in at))
    | no ne ↦ ap tag_in (node_at-put_ne h i j x ne)
  ];
  no_more = λ j. elim (ℕ_discrete i j) [
    | yes e ↦
        subst (λ j. connected_at (put h i x) j ≡ true → connected_at h j ≡ true) e
          (λ on.
            ap connected_in at ∙ link (sym (ap connected_in (node_at-put_self h i n x at)) ∙ on))
    | no ne ↦ λ on. sym (ap connected_in (node_at-put_ne h i j x ne)) ∙ on
  ];
}
