-- ===== src/Core/Endpoint/Delivery.antt =====
-- core/endpoint.c: what an update of a source leaves in the endpoints.
use hakit.Base.{
  ℕ, zero, suc, ◌≡◌, inl, inr, refl, ap, sym, ◌∙◌, subst, true, false, none, some, List, [], ◌∷◌,
  if◌then◌else◌, get_elem?, arith, Bool-cases, Option-cases,
}
use mathlib.Core.Option.{some-injective}
use hakit.Core.Tile.{modify}
use hakit.Core.Endpoint.{Sink, Source, Endpoints}
use hakit.Core.Endpoint.Update.{
  sink_set, sink_unlock, source_set, source_unlock, modify_sink, modify_source, call_handlers,
  unlock_sink, sink_update, update_sinks, unlock_source, source_update,
}

-- What an update leaves of a sink.
unfoldable pub updated : ℕ → List ℕ → Sink → Sink
updated now value entry = if entry.ep.locked then entry else sink_unlock (sink_set now value entry)

module _ {A : Type 0} where
  modify-none : (xs : List A) (i : ℕ) (f : A → A) → get_elem? xs i ≡ none → modify xs i f ≡ xs
  unfolding modify
  modify-none [] i f e = refl
  modify-none (x ∷ xs) zero f e = absurd (ground (arith, e))
  modify-none (x ∷ xs) (suc i) f e = ap (◌∷◌ x) (modify-none xs i f e)

  -- A write is known by what it makes of the entry that is there.
  modify-some :
      (xs : List A) (i : ℕ) (f g : A → A) (x : A)
      → get_elem? xs i ≡ some x
      → f x ≡ g x
      → modify xs i f ≡ modify xs i g
  unfolding modify
  modify-some [] i f g x at e = refl
  modify-some (y ∷ xs) zero f g x at e =
      ap (λ z. z ∷ xs) (subst (λ z. f z ≡ g z) (sym (some-injective _ _ at)) e)
  modify-some (y ∷ xs) (suc i) f g x at e = ap (◌∷◌ y) (modify-some xs i f g x at e)

  modify-modify :
      (xs : List A) (i : ℕ) (f g : A → A) → modify (modify xs i f) i g ≡ modify xs i (λ x. g (f x))
  unfolding modify
  modify-modify [] i f g = refl
  modify-modify (x ∷ xs) zero f g = refl
  modify-modify (x ∷ xs) (suc i) f g = ap (◌∷◌ x) (modify-modify xs i f g)

  modify_id : (xs : List A) (i : ℕ) → modify xs i (λ x. x) ≡ xs
  unfolding modify
  modify_id [] i = refl
  modify_id (x ∷ xs) zero = refl
  modify_id (x ∷ xs) (suc i) = ap (◌∷◌ x) (modify_id xs i)

-- All sinks of a list are updated, one after the other.
unfoldable pub all_updated : ℕ → List ℕ → List ℕ → List Sink → List Sink
all_updated now value [] sinks = sinks
all_updated now value (i ∷ l) sinks = all_updated now value l (modify sinks i (updated now value))

abbrev put_all : ℕ → List ℕ → List ℕ → Endpoints → Endpoints
put_all now value l eps = record eps { sinks = all_updated now value l eps.sinks }

module _ {S : Type 0} (handler : ℕ → ℕ → Endpoints × S → Endpoints × S)
    (quiet : (func i : ℕ) (w : Endpoints × S) → (handler func i w).0 ≡ w.0) where
  call_handlers-same :
      (i : ℕ) (handlers : List ℕ) (w : Endpoints × S) → (call_handlers handler i handlers w).0 ≡ w.0
  unfolding call_handlers
  call_handlers-same i [] w = refl
  call_handlers-same i (func ∷ handlers) w =
      call_handlers-same i handlers (handler func i w) ∙ quiet func i w

  sink_update-locked :
      (now i : ℕ) (value : List ℕ) (w : Endpoints × S) (entry : Sink)
      → get_elem? w.0.sinks i ≡ some entry
      → entry.ep.locked ≡ true
      → sink_update handler now i value w ≡ w
  unfolding sink_update
  sink_update-locked now i value (eps, s) entry e l = rw (sink_update, e, l) refl

  sink_update-unlocked :
      (now i : ℕ) (value : List ℕ) (w : Endpoints × S) (entry : Sink)
      → get_elem? w.0.sinks i ≡ some entry
      → entry.ep.locked ≡ false
      → sink_update handler now i value w
        ≡ unlock_sink i
            (call_handlers handler i entry.handlers (modify_sink w.0 i (sink_set now value), w.1))
  unfolding sink_update
  sink_update-unlocked now i value (eps, s) entry e u = rw (sink_update, e, u) refl

  sink_update-missing :
      (now i : ℕ) (value : List ℕ) (w : Endpoints × S)
      → get_elem? w.0.sinks i ≡ none
      → sink_update handler now i value w ≡ w
  unfolding sink_update
  sink_update-missing now i value (eps, s) e = rw (sink_update, e) refl

  sink_update-updated :
      (now i : ℕ) (value : List ℕ) (w : Endpoints × S)
      → (sink_update handler now i value w).0 ≡ modify_sink w.0 i (updated now value)
  unfolding updated
  sink_update-updated now i value w = elim (Option-cases (get_elem? w.0.sinks i)) [
    | inl e ↦
        ap (λ v. v.0) (sink_update-missing now i value w e)
        ∙ ap (λ l. record w.0 { sinks = l }) (sym (modify-none w.0.sinks i (updated now value) e))
    | inr (entry, e) ↦ elim (Bool-cases entry.ep.locked) [
      | inl l ↦
          ap (λ v. v.0) (sink_update-locked now i value w entry e l)
          ∙ ap (λ l. record w.0 { sinks = l })
              (sym (
                modify-some w.0.sinks i (updated now value) (λ x. x) entry e (rw l refl)
                ∙ modify_id w.0.sinks i))
      | inr u ↦
          ap (λ v. v.0) (sink_update-unlocked now i value w entry e u)
          ∙ ap (λ eps. modify_sink eps i sink_unlock)
              (call_handlers-same i entry.handlers (modify_sink w.0 i (sink_set now value), w.1))
          ∙ ap (λ l. record w.0 { sinks = l })
              (modify-modify w.0.sinks i (sink_set now value) sink_unlock
                ∙ modify-some w.0.sinks i (λ x. sink_unlock (sink_set now value x))
                    (updated now value) entry e (ground (arith, u)))
    ]
  ]

  update_sinks-all_updated :
      (now : ℕ) (l : List ℕ) (value : List ℕ) (w : Endpoints × S)
      → (update_sinks handler now l value w).0
        ≡ record w.0 { sinks = all_updated now value l w.0.sinks }
  unfolding update_sinks all_updated
  update_sinks-all_updated now [] value w = refl
  update_sinks-all_updated now (i ∷ l) value w =
      update_sinks-all_updated now l value (sink_update handler now i value w)
      ∙ ap (put_all now value l) (sink_update-updated now i value w)

  source_update-unlocked :
      (now k : ℕ) (value : List ℕ) (w : Endpoints × S) (entry : Source)
      → get_elem? w.0.sources k ≡ some entry
      → entry.ep.locked ≡ false
      → source_update handler now k value w
        ≡ unlock_source k (
            update_sinks handler now entry.local_sinks value
              (modify_source w.0 k (source_set now value), w.1))
  unfolding source_update
  source_update-unlocked now k value (eps, s) entry e u = rw (source_update, e, u) refl

  -- With handlers that leave the endpoints alone, an update of a source that is not locked writes the
  -- value to it and updates each connected sink in turn.
  pub source_update-all_updated :
      (now k : ℕ) (value : List ℕ) (w : Endpoints × S) (entry : Source)
      → get_elem? w.0.sources k ≡ some entry
      → entry.ep.locked ≡ false
      → (source_update handler now k value w).0 ≡ record w.0 {
        sinks = all_updated now value entry.local_sinks w.0.sinks;
        sources = modify w.0.sources k (λ x. source_unlock (source_set now value x));
      }
  source_update-all_updated now k value w entry e u =
      ap (λ v. v.0) (source_update-unlocked now k value w entry e u)
      ∙ ap (λ eps. modify_source eps k source_unlock)
          (update_sinks-all_updated now entry.local_sinks value
            (modify_source w.0 k (source_set now value), w.1))
      ∙ ap
          (λ l. record w.0 {
            sinks = all_updated now value entry.local_sinks w.0.sinks;
            sources = l;
          })
          (modify-modify w.0.sources k (source_set now value) source_unlock)
