-- ===== src/Core/Endpoint/Delivered.antt =====
-- core/endpoint.c: each sink that is connected to a source has the source's value after an update.
use hakit.Base.{
  ℕ, ◌≡◌, ◌≢◌, ◌⊎◌, inl, inr, refl, sym, ◌∙◌, subst, Bool, true, false, some, List, [], ◌∷◌, ◌==◌,
  if◌then◌else◌, get_elem?, arith, Option-cases, ℕ_discrete,
}
use hakit.Core.Tile.{modify}
use hakit.Core.Tile.Connections.{get_elem?-modify_self, get_elem?-modify_ne}
use hakit.Core.Endpoint.{Ep, Sink, Source, Endpoints}
use hakit.Core.Endpoint.Update.{
  charted, sink_set, sink_unlock, source_set, source_unlock, source_update,
}
use hakit.Core.Endpoint.Delivery.{updated, all_updated, source_update-all_updated}

unfoldable pub has : ℕ → List ℕ → Bool
has i [] = false
has i (j ∷ l) = if j == i then true else has i l

charted-value : (ep : Ep) (now : ℕ) (value : List ℕ) → (charted ep now value).value ≡ ep.value
charted-value ep now value = elim (Option-cases ep.chart) [
  | inl e ↦ ground (arith, e)
  | inr (chart, e) ↦ ground (arith, e)
]

sink_set-value : (now : ℕ) (value : List ℕ) (s : Sink) → (sink_set now value s).ep.value ≡ value
unfolding sink_set
sink_set-value now value s = elim (Option-cases s.local_source) [
  | inl e ↦ rw e (charted-value (record s.ep { value = value }) now value)
  | inr (k, e) ↦ rw e refl
]

updated-unlocked :
    (now : ℕ) (value : List ℕ) (s : Sink)
    → s.ep.locked ≡ false
    → ((updated now value s).ep.locked ≡ false) × ((updated now value s).ep.value ≡ value)
unfolding updated sink_set sink_unlock
updated-unlocked now value s u = rw u (refl, sink_set-value now value s)

-- What an unlocked sink has after all updates; `met` says that it has the value already.
all_updated-unlocked :
    (now : ℕ) (value l : List ℕ) (sinks : List Sink) (i : ℕ) (s : Sink)
    → get_elem? sinks i ≡ some s
    → s.ep.locked ≡ false
    → (has i l ≡ true) ⊎ (s.ep.value ≡ value)
    → (s' : Sink) × (get_elem? (all_updated now value l sinks) i ≡ some s')
      × (s'.ep.locked ≡ false)
      × (s'.ep.value ≡ value)
unfolding all_updated has
all_updated-unlocked now value [] sinks i s at u (inl h) = absurd (ground (arith, h))
all_updated-unlocked now value [] sinks i s at u (inr v) = (s, at, u, v)
all_updated-unlocked now value (j ∷ l) sinks i s at u met = elim (ℕ_discrete j i) [
  | yes e ↦
      let (u', v') = updated-unlocked now value s u in
      all_updated-unlocked now value l (modify sinks j (updated now value)) i (updated now value s)
        (subst (λ k. get_elem? (modify sinks k (updated now value)) i ≡ some (updated now value s))
          (sym e) (get_elem?-modify_self sinks i (updated now value) s at))
        u' (inr v')
  | no ne ↦
      all_updated-unlocked now value l (modify sinks j (updated now value)) i s
        (get_elem?-modify_ne sinks j i (updated now value) ne ∙ at) u (still ne met)
]
  where
    still :
        j ≢ i
        → (has i (j ∷ l) ≡ true) ⊎ (s.ep.value ≡ value)
        → (has i l ≡ true) ⊎ (s.ep.value ≡ value)
    still ne (inl h) = inl (ground (arith, ne, h))
    still ne (inr v) = inr v

all_updated-others :
    (now : ℕ) (value l : List ℕ) (sinks : List Sink) (i : ℕ)
    → has i l ≡ false
    → get_elem? (all_updated now value l sinks) i ≡ get_elem? sinks i
unfolding all_updated has
all_updated-others now value [] sinks i h = refl
all_updated-others now value (j ∷ l) sinks i h =
    all_updated-others now value l (modify sinks j (updated now value)) i (ground (arith, h))
    ∙ get_elem?-modify_ne sinks j i (updated now value) (λ e. ground (arith, h, e))

-- What an update of the source at place `k` with a value leaves, where `entry` was the source.
pub record Delivered (eps eps' : Endpoints) (k : ℕ) (entry : Source) (value : List ℕ) : Type 0 where
  pub sent :
      (src : Source) × (get_elem? eps'.sources k ≡ some src)
      × (src.ep.value ≡ value)
      × (src.ep.locked ≡ false)
      × (src.local_sinks ≡ entry.local_sinks)
  pub other_sources : (j : ℕ) → k ≢ j → get_elem? eps'.sources j ≡ get_elem? eps.sources j
  pub received :
      (i : ℕ) (s : Sink)
      → has i entry.local_sinks ≡ true
      → get_elem? eps.sinks i ≡ some s
      → s.ep.locked ≡ false
      → (s' : Sink) × (get_elem? eps'.sinks i ≡ some s')
        × (s'.ep.locked ≡ false)
        × (s'.ep.value ≡ value)
  pub other_sinks :
      (i : ℕ) → has i entry.local_sinks ≡ false → get_elem? eps'.sinks i ≡ get_elem? eps.sinks i

source_set-value :
    (now : ℕ) (value : List ℕ) (s : Source)
    → ((source_unlock (source_set now value s)).ep.value ≡ value)
      × ((source_unlock (source_set now value s)).ep.locked ≡ false)
      × ((source_unlock (source_set now value s)).local_sinks ≡ s.local_sinks)
unfolding source_set source_unlock
source_set-value now value s = (charted-value (record s.ep { value = value }) now value, refl, refl)

-- With handlers that leave the endpoints alone, an update of a source that is not locked gives the value
-- to the source and to each connected sink that is not locked, leaves these unlocked, and leaves the
-- other sources and the sinks that are not connected as they are.
pub source_update-Delivered :
    {S : Type 0} (handler : ℕ → ℕ → Endpoints × S → Endpoints × S)
    → ((func i : ℕ) (w : Endpoints × S) → (handler func i w).0 ≡ w.0)
    → (now k : ℕ) (value : List ℕ) (w : Endpoints × S) (entry : Source)
    → get_elem? w.0.sources k ≡ some entry
    → entry.ep.locked ≡ false
    → Delivered w.0 (source_update handler now k value w).0 k entry value
source_update-Delivered handler quiet now k value w entry at u =
    subst (λ eps. Delivered w.0 eps k entry value)
      (sym (source_update-all_updated handler quiet now k value w entry at u))
      (record {
        sent =
            (let (v, l, same) = source_set-value now value entry in
              (
                source_unlock (source_set now value entry),
                get_elem?-modify_self w.0.sources k (λ x. source_unlock (source_set now value x))
                    entry at,
                v,
                l,
                same,
              ));
        other_sources = λ j ne.
            get_elem?-modify_ne w.0.sources k j (λ x. source_unlock (source_set now value x)) ne;
        received = λ i s connected there free.
            all_updated-unlocked now value entry.local_sinks w.0.sinks i s there free
              (inl connected);
        other_sinks = λ i apart. all_updated-others now value entry.local_sinks w.0.sinks i apart;
      })
