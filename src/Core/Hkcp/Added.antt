-- ===== src/Core/Hkcp/Added.antt =====
-- core/hkcp.c: the timers of the nodes stay what the nodes know of them when a node is added.
use hakit.Base.{
  ℕ, zero, suc, ◌<◌, ◌≡◌, inl, inr, refl, sym, ap, subst, ◌∙◌, true, false, Option, none, some,
  List, [], ◌∷◌, ◌++◌, ltb, get_or, length, arith, Bool-cases, Option-cases, ℕ_discrete, find_from,
  find_from-found, get_or-set_self, pos, ltb_ℤ,
}
use hakit.Core.Endpoint.{Endpoints, source_to_advertise}
use hakit.Core.Hkcp.{
  Node, Hkcp, node_at, put, node_add, node_alloc, node_retrieve, is_free, new_node,
}
use hakit.Core.Hkcp.Timers.{
  tag_in, connected_in, tag_of, connected_at, pending, IsSound, Fresh, node_at-put_ne, Kept,
  Kept-IsSound,
}
use hakit.Core.Hkcp.Sound.{connect_later-IsSound}

node_at-append :
    (nodes : List (Option Node)) (x : Option Node) (j : ℕ)
    → tag_in x ≡ 0
    → connected_in x ≡ false
    → (tag_in (get_or (nodes ++ (x ∷ [])) j none) ≡ tag_in (get_or nodes j none))
      × (connected_in (get_or (nodes ++ (x ∷ [])) j none) ≡ connected_in (get_or nodes j none))
node_at-append [] x zero tag off = (tag, off)
node_at-append [] x (suc j) tag off = (refl, refl)
node_at-append (y ∷ nodes) x zero tag off = (refl, refl)
node_at-append (y ∷ nodes) x (suc j) tag off = node_at-append nodes x j tag off

node_at-put_free :
    (h : Hkcp) (i j : ℕ) (x : Option Node)
    → node_at h i ≡ none
    → i < length h.nodes
    → tag_in x ≡ 0
    → connected_in x ≡ false
    → (tag_of (put h i x) j ≡ tag_of h j) × (connected_at (put h i x) j ≡ connected_at h j)
node_at-put_free h i j x at small tag off = elim (ℕ_discrete i j) [
  | yes e ↦
      subst
        (λ j. (tag_of (put h i x) j ≡ tag_of h j) × (connected_at (put h i x) j ≡ connected_at h j))
        e
        (
          ap tag_in here ∙ tag ∙ sym (ap tag_in at),
          ap connected_in here ∙ off ∙ sym (ap connected_in at),
        )
  | no ne ↦ (ap tag_in (node_at-put_ne h i j x ne), ap connected_in (node_at-put_ne h i j x ne))
]
  where
    here : node_at (put h i x) i ≡ x
    here = get_or-set_self h.nodes i x none small

pub alloc-Kept : (h : Hkcp) (name : List ℕ) → Kept h (node_alloc h name).1
unfolding node_alloc
alloc-Kept h name = elim (Option-cases (find_from is_free 0 h.nodes)) [
  | inl e ↦
      rw (node_alloc, e)
        (record {
          same_timers = refl;
          same_tags = λ j. (node_at-append h.nodes (some (new_node name)) j refl refl).0;
          no_more =
              λ j on. sym ((node_at-append h.nodes (some (new_node name)) j refl refl).1) ∙ on;
        })
  | inr (i, e) ↦
      let (small, free) = find_from-found is_free none h.nodes i e in
      rw (node_alloc, e)
        (record {
          same_timers = refl;
          same_tags = λ j.
              (node_at-put_free h i j (some (new_node name)) (is_free-none (node_at h i) free) small
                refl refl).0;
          no_more = λ j on.
              sym (
                (node_at-put_free h i j (some (new_node name)) (is_free-none (node_at h i) free)
                  small refl refl).1)
              ∙ on;
        })
]
  where
    is_free-none : (o : Option Node) → is_free o ≡ true → o ≡ none
    is_free-none o f = ground (arith, f)

pub add-IsSound :
    (eps : Endpoints) (tag : ℕ) (h : Hkcp) (remote_ip : List ℕ)
    → IsSound h
    → Fresh h tag
    → IsSound (node_add eps tag h remote_ip)
unfolding node_add
add-IsSound eps tag h ip sound fresh = elim (Bool-cases (ltb_ℤ (pos 0) h.port)) [
  | inr e ↦ rw e sound
  | inl e ↦ elim (Bool-cases (ltb 0 (source_to_advertise eps.sources))) [
    | inr e' ↦ rw (e, e') sound
    | inl e' ↦ elim (Option-cases (node_retrieve h ip)) [
      | inr (i, e'') ↦
          rw (e, e', e'') (connect_later-IsSound tag h i (node_at h i) sound fresh refl)
      | inl e'' ↦
          rw (e, e', e'')
            (let k = alloc-Kept h ip in
              connect_later-IsSound tag (node_alloc h ip).1 (node_alloc h ip).0 _
                (Kept-IsSound h _ k sound)
                (λ i. ap (λ ts. pending ts i tag) k.same_timers ∙ fresh i) refl)
    ]
  ]
]
