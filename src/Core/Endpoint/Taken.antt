-- ===== src/Core/Endpoint/Taken.antt =====
-- core/endpoint.c: an endpoint takes a free entry of its table.
use hakit.Base.{
  ℕ, ◌+◌, ◌≡◌, ◌≢◌, inl, inr, refl, ap, ◌∙◌, Bool, true, false, none, some, List, [], ◌∷◌, ◌++◌,
  map, get_elem?, get_or, length, length-map, find_from, find_from-found, get_or-beyond, arith,
  Option-cases,
}
use hakit.Core.Tile.{modify}
use hakit.Core.Endpoint.{
  Owner, Ep, no_ep, ep_sink, ep_source, Sink, Source, Endpoints, sink_eps, source_eps, is_free,
  ep_init,
}
use hakit.Core.Endpoint.Registry.{
  sink_init, sink_alloc, local_source_of, sink_local_connect, source_init, source_alloc,
}
use hakit.Core.Endpoint.Names.{owner_at}
use hakit.Core.Endpoint.Tables.{
  get_or-map-modify_ne, get_or-map-append_ne, get_or-map-append_self, get_or-map-modify_self,
}
use hakit.Core.Tile.Connections.{map-modify_same}

-- An endpoint for an object has taken the free entry `k`.
pub record Taken (eps eps' : List Ep) (k : ℕ) (obj : Owner) : Type 0 where
  pub new : owner_at eps' k ≡ some obj
  pub vacant : owner_at eps k ≡ none
  pub others : (j : ℕ) → k ≢ j → get_or eps' j (no_ep ep_sink) ≡ get_or eps j (no_ep ep_sink)

pub free_owner : (ep : Ep) → is_free ep ≡ true → ep.obj ≡ none
free_owner ep h = elim (Option-cases ep.obj) [
  | inl e ↦ e
  | inr (obj, e) ↦ absurd (ground (arith, e, h))
]

module _ {A : Type 0} (f : A → Ep) (xs : List A) (obj : Owner) where
  appended-Taken :
      (y : A) → (f y).obj ≡ some obj → Taken (map f xs) (map f (xs ++ (y ∷ []))) (length xs) obj
  appended-Taken y owned = record {
    new = ap (λ ep. ep.obj) (get_or-map-append_self f (no_ep ep_sink) xs y) ∙ owned;
    vacant =
        ap (λ ep. ep.obj)
          (get_or-beyond (no_ep ep_sink) (map f xs) (length xs) (omega (arith, length-map xs f)));
    others = λ j ne. get_or-map-append_ne f (no_ep ep_sink) xs y j ne;
  }

  reused-Taken :
      (g : A → A) (i : ℕ)
      → ((x : A) → (f (g x)).obj ≡ some obj)
      → find_from is_free 0 (map f xs) ≡ some i
      → Taken (map f xs) (map f (modify xs i g)) i obj
  reused-Taken g i owned found =
      let (small, free) = find_from-found is_free (no_ep ep_sink) (map f xs) i found in
      record {
        new =
            get_or-map-modify_self f g (no_ep ep_sink) (λ ep. ep.obj) (some obj) xs i
              (omega (arith, length-map xs f)) owned;
        vacant = free_owner (get_or (map f xs) i (no_ep ep_sink)) free;
        others = λ j ne. get_or-map-modify_ne f g (no_ep ep_sink) xs ne;
      }

pub sink_init-owner :
    (entry : Sink) (id : ℕ) (obj : Owner) (depth : ℕ) (local : Bool)
    → (sink_init entry id obj depth local).ep.obj ≡ some obj
unfolding sink_init ep_init
sink_init-owner entry id obj depth true = refl
sink_init-owner entry id obj depth false = refl

pub sink_alloc-Taken :
    (eps : Endpoints) (obj : Owner) (local : Bool)
    → Taken (sink_eps eps) (sink_eps (sink_alloc eps obj local).1) (sink_alloc eps obj local).0 obj
unfolding sink_alloc
sink_alloc-Taken eps obj local = elim (Option-cases (find_from is_free 0 (sink_eps eps))) [
  | inl e ↦
      rw (sink_alloc, e)
        (appended-Taken (λ s. s.ep) eps.sinks obj
          (sink_init (record { ep = no_ep ep_sink; handlers = []; local_source = none })
            (length eps.sinks) obj eps.trace_depth local)
          (sink_init-owner (record { ep = no_ep ep_sink; handlers = []; local_source = none })
            (length eps.sinks) obj eps.trace_depth local))
  | inr (i, e) ↦
      rw (sink_alloc, e)
        (reused-Taken (λ s. s.ep) eps.sinks obj
          (λ entry. sink_init entry (i + 1) obj eps.trace_depth local) i
          (λ entry. sink_init-owner entry (i + 1) obj eps.trace_depth local) e)
]

pub source_init-owner :
    (entry : Source) (id : ℕ) (obj : Owner) (depth : ℕ) (local event : Bool)
    → (source_init entry id obj depth local event).ep.obj ≡ some obj
unfolding source_init ep_init
source_init-owner entry id obj depth local event = refl

pub source_alloc-Taken :
    (eps : Endpoints) (obj : Owner) (local event : Bool)
    → Taken
        (source_eps eps)
        (source_eps (source_alloc eps obj local event).1)
        (source_alloc eps obj local event).0
        obj
unfolding source_alloc
source_alloc-Taken eps obj local event =
    elim (Option-cases (find_from is_free 0 (source_eps eps))) [
      | inl e ↦
          rw (source_alloc, e)
            (appended-Taken (λ s. s.ep) eps.sources obj
              (source_init (record { ep = no_ep ep_source; local_sinks = [] }) (length eps.sources)
                obj eps.trace_depth local event)
              (source_init-owner (record { ep = no_ep ep_source; local_sinks = [] })
                (length eps.sources) obj eps.trace_depth local event))
      | inr (i, e) ↦
          rw (source_alloc, e)
            (reused-Taken (λ s. s.ep) eps.sources obj
              (λ entry. source_init entry (i + 1) obj eps.trace_depth local event) i
              (λ entry. source_init-owner entry (i + 1) obj eps.trace_depth local event) e)
    ]

pub sink_local_connect-sinks :
    (eps : Endpoints) (i k : ℕ) → sink_eps (sink_local_connect eps i k) ≡ sink_eps eps
unfolding sink_local_connect
sink_local_connect-sinks eps i k = elim (Option-cases (local_source_of (get_elem? eps.sinks i))) [
  | inl e ↦
      rw (sink_local_connect, e)
        (map-modify_same (λ s. s.ep) (λ s. record s { local_source = some k }) eps.sinks i
          (λ s. refl))
  | inr (k', e) ↦ rw (sink_local_connect, e) refl
]

pub sink_local_connect-sources :
    (eps : Endpoints) (i k : ℕ) → source_eps (sink_local_connect eps i k) ≡ source_eps eps
unfolding sink_local_connect
sink_local_connect-sources eps i k = elim (Option-cases (local_source_of (get_elem? eps.sinks i))) [
  | inl e ↦
      rw (sink_local_connect, e)
        (map-modify_same (λ s. s.ep) (λ s. record s { local_sinks = s.local_sinks ++ (i ∷ []) })
          eps.sources k (λ s. refl))
  | inr (k', e) ↦ rw (sink_local_connect, e) refl
]
