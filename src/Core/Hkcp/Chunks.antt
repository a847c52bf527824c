-- ===== src/Core/Hkcp/Chunks.antt =====
-- core/hkcp.c: how the bytes from a node are cut into chunks makes no difference.
use hakit.Base.{
  ℕ, zero, suc, ◌≤◌, ◌<◌, ◌≡◌, inl, inr, refl, sym, ap, ◌∙◌, fun_ext, Option, none, some, List, [],
  ◌∷◌, ◌++◌, ◌==◌, if◌then◌else◌, length, set, arith, append-nil, append_assoc, Bool-cases,
  Option-cases, set-set, set-get_or,
}
use hakit.Core.Command.{until_newline, push_before, is_empty, c_string}
use hakit.Core.Command.Chunks.{Shorter, until_newline-Shorter}
use hakit.Core.Endpoint.{Endpoints}
use hakit.Core.Hkcp.{Node, Hkcp, node_at, put}
use hakit.Core.Hkcp.Receive.{node_recv, recv_from, recv_line, end_line, after_segment}
use hakit.Core.Hkcp.Timers.{node_at-put_self}

-- One byte: the end of the line, or one more byte of it.
unfoldable pub feed_node : Endpoints → Hkcp → ℕ → ℕ → Node → Hkcp
feed_node eps h i c n =
    if c == 10
    then end_line eps h i n n.rbuf
    else put h i (some (record n { rbuf = n.rbuf ++ (c ∷ []) }))

abbrev pub feed : Endpoints → ℕ → Hkcp → ℕ → Option Hkcp
feed eps i h c = elim (node_at h i) [ none ↦ none | some n ↦ some (feed_node eps h i c n) ]

-- Byte by byte; a byte for a node that was freed is an error.
unfoldable pub feed_all : Endpoints → ℕ → Hkcp → List ℕ → Option Hkcp
feed_all eps i h [] = some h
feed_all eps i h (c ∷ s) = elim (feed eps i h c) [ none ↦ none | some h' ↦ feed_all eps i h' s ]

abbrev pub and_then : Option Hkcp → (Hkcp → Option Hkcp) → Option Hkcp
and_then none f = none
and_then (some h) f = f h

feed_all-append :
    (eps : Endpoints) (i : ℕ) (h : Hkcp) (s t : List ℕ)
    → feed_all eps i h (s ++ t) ≡ and_then (feed_all eps i h s) (λ h'. feed_all eps i h' t)
unfolding feed_all
feed_all-append eps i h [] t = refl
feed_all-append eps i h (c ∷ s) t = elim (Option-cases (feed eps i h c)) [
  | inl e ↦ rw (feed_all, e) refl
  | inr (h', e) ↦ rw (feed_all, e) (feed_all-append eps i h' s t)
]

put-same : (h : Hkcp) (i : ℕ) (n m : Node) → node_at h i ≡ some n → m ≡ n → put h i (some m) ≡ h
put-same h i n m at e =
    ap (λ nodes. record h { nodes = nodes })
      (ap (λ x. set h.nodes i x) (ap some e ∙ sym at) ∙ set-get_or h.nodes i none)

put-put : (h : Hkcp) (i : ℕ) (x y : Option Node) → put (put h i x) i y ≡ put h i y
put-put h i x y = ap (λ nodes. record h { nodes = nodes }) (set-set h.nodes i x y)

-- What a line was begun with does not matter at its end.
end_line-put :
    (eps : Endpoints) (h : Hkcp) (i : ℕ) (n : Node) (begun line : List ℕ)
    → end_line eps (put h i (some (record n { rbuf = begun }))) i (record n { rbuf = begun }) line
      ≡ end_line eps h i n line
unfolding end_line
end_line-put eps h i n begun line =
    ap
      (λ h'.
        if is_empty line then h' else recv_line eps h' i (record n { rbuf = [] }) (c_string line))
      (put-put h i (some (record n { rbuf = begun })) (some (record n { rbuf = [] })))

after_segment-push :
    (more : Hkcp → List ℕ → Option Hkcp) (eps : Endpoints) (h : Hkcp) (i : ℕ) (n : Node) (c : ℕ)
    (r : List ℕ × Option (List ℕ))
    → after_segment more eps
        (put h i (some (record n { rbuf = n.rbuf ++ (c ∷ []) })))
        i
        (record n { rbuf = n.rbuf ++ (c ∷ []) })
        r
      ≡ after_segment more eps h i n (push_before c r)
unfolding after_segment
after_segment-push more eps h i n c (before, none) =
    ap some (put-put h i _ _)
    ∙ ap (λ line. some (put h i (some (record n { rbuf = line }))))
        (append_assoc n.rbuf (c ∷ []) before)
after_segment-push more eps h i n c (before, some s) =
    ap (λ h'. more h' s)
      (end_line-put eps h i n (n.rbuf ++ (c ∷ [])) ((n.rbuf ++ (c ∷ [])) ++ before))
    ∙ ap (λ line. more (end_line eps h i n line) s) (append_assoc n.rbuf (c ∷ []) before)

feed_all-segment :
    (eps : Endpoints) (i : ℕ) (s : List ℕ) (h : Hkcp) (n : Node)
    → node_at h i ≡ some n
    → feed_all eps i h s ≡ after_segment (feed_all eps i) eps h i n (until_newline s)
unfolding until_newline feed_all after_segment feed_node
feed_all-segment eps i [] h n at = ap some (
    sym (
      put-same h i n (record n { rbuf = n.rbuf ++ [] }) at
        (ap (λ line. record n { rbuf = line }) (append-nil n.rbuf))))
feed_all-segment eps i (c ∷ s) h n at = elim (Bool-cases (c == 10)) [
  | inl e ↦
      rw (feed_all, at, e)
        (ap (λ line. feed_all eps i (end_line eps h i n line) s) (sym (append-nil n.rbuf)))
  | inr e ↦
      rw (feed_all, at, e)
        (feed_all-segment eps i s (put h i (some (record n { rbuf = n.rbuf ++ (c ∷ []) })))
            (record n { rbuf = n.rbuf ++ (c ∷ []) }) (node_at-put_self h i n _ at)
          ∙ after_segment-push (feed_all eps i) eps h i n c (until_newline s))
]

after_segment-same :
    (eps : Endpoints) (f g : Hkcp → List ℕ → Option Hkcp) (h : Hkcp) (i : ℕ) (n : Node) (bound : ℕ)
    (r : List ℕ × Option (List ℕ))
    → ((h' : Hkcp) (s : List ℕ) → length s < bound → f h' s ≡ g h' s)
    → Shorter bound r
    → after_segment f eps h i n r ≡ after_segment g eps h i n r
unfolding after_segment
after_segment-same eps f g h i n bound (before, none) same short = refl
after_segment-same eps f g h i n bound (before, some s) same short = same _ s short

-- The loop of `hkcp_node_recv` does what reading byte by byte does.
recv_from-feed_all :
    (fuel : ℕ) (eps : Endpoints) (h : Hkcp) (i : ℕ) (s : List ℕ)
    → length s ≤ fuel
    → recv_from fuel eps h i s ≡ feed_all eps i h s
unfolding recv_from feed_all
recv_from-feed_all zero eps h i [] small = refl
recv_from-feed_all zero eps h i (c ∷ s) small = absurd (omega arith)
recv_from-feed_all (suc fuel) eps h i [] small = refl
recv_from-feed_all (suc fuel) eps h i (c ∷ s) small = elim (Option-cases (node_at h i)) [
  | inl e ↦ rw (recv_from, feed_all, e) refl
  | inr (n, e) ↦
      rw (recv_from, e)
        (after_segment-same eps (λ h' rest. recv_from fuel eps h' i rest) (feed_all eps i) h i n
            (length (c ∷ s)) (until_newline (c ∷ s))
            (λ h' t short. recv_from-feed_all fuel eps h' i t (omega arith))
            (until_newline-Shorter (c ∷ s))
          ∙ sym (feed_all-segment eps i (c ∷ s) h n e))
]

-- Two chunks from a node have the effect of the one chunk that they make up, also where the node is freed
-- in the first and the second is then an error.
pub node_recv-append :
    (eps : Endpoints) (h : Hkcp) (i : ℕ) (s t : List ℕ)
    → node_recv eps h i (s ++ t) ≡ and_then (node_recv eps h i s) (λ h'. node_recv eps h' i t)
node_recv-append eps h i s t =
    recv_from-feed_all (length (s ++ t)) eps h i (s ++ t) (omega arith)
    ∙ feed_all-append eps i h s t
    ∙ ap (λ o. and_then o (λ h'. feed_all eps i h' t))
        (sym (recv_from-feed_all (length s) eps h i s (omega arith)))
    ∙ ap (and_then (node_recv eps h i s))
        (fun_ext (λ h'. sym (recv_from-feed_all (length t) eps h' i t (omega arith))))
