-- ===== src/Core/Endpoint/Tables.antt =====
-- core/endpoint.c: what a write to one entry of a table leaves of the others.
use hakit.Base.{
  ℕ, zero, suc, ◌<◌, ◌≡◌, ◌≢◌, refl, ap, List, [], ◌∷◌, ◌++◌, map, get_or, length, arith,
}
use hakit.Core.Tile.{modify}

module _ {ℓ κ} {A : Type ℓ} {B : Type κ} where
  pub get_or-map-modify_ne :
      (f : A → B) (g : A → A) (d : B) (xs : List A) {i j : ℕ}
      → i ≢ j
      → get_or (map f (modify xs i g)) j d ≡ get_or (map f xs) j d
  unfolding modify
  get_or-map-modify_ne f g d [] ne = refl
  get_or-map-modify_ne f g d (x ∷ xs) {i = zero} {j = zero} ne = absurd (ne refl)
  get_or-map-modify_ne f g d (x ∷ xs) {i = zero} {j = suc j} ne = refl
  get_or-map-modify_ne f g d (x ∷ xs) {i = suc i} {j = zero} ne = refl
  get_or-map-modify_ne f g d (x ∷ xs) {i = suc i} {j = suc j} ne =
      get_or-map-modify_ne f g d xs (λ e. ne (ap suc e))

  pub get_or-map-append_ne :
      (f : A → B) (d : B) (xs : List A) (y : A) (j : ℕ)
      → length xs ≢ j
      → get_or (map f (xs ++ (y ∷ []))) j d ≡ get_or (map f xs) j d
  get_or-map-append_ne f d [] y zero ne = absurd (ne refl)
  get_or-map-append_ne f d [] y (suc j) ne = refl
  get_or-map-append_ne f d (x ∷ xs) y zero ne = refl
  get_or-map-append_ne f d (x ∷ xs) y (suc j) ne =
      get_or-map-append_ne f d xs y j (λ e. ne (ap suc e))

  pub get_or-map-append_self :
      (f : A → B) (d : B) (xs : List A) (y : A)
      → get_or (map f (xs ++ (y ∷ []))) (length xs) d ≡ f y
  get_or-map-append_self f d [] y = refl
  get_or-map-append_self f d (x ∷ xs) y = get_or-map-append_self f d xs y

  module _ {μ} {C : Type μ} where
    pub get_or-map-modify_self :
        (f : A → B) (g : A → A) (d : B) (h : B → C) (v : C) (xs : List A) (i : ℕ)
        → i < length xs
        → ((x : A) → h (f (g x)) ≡ v)
        → h (get_or (map f (modify xs i g)) i d) ≡ v
    unfolding modify
    get_or-map-modify_self f g d h v [] i small is = absurd (omega arith)
    get_or-map-modify_self f g d h v (x ∷ xs) zero small is = is x
    get_or-map-modify_self f g d h v (x ∷ xs) (suc i) small is =
        get_or-map-modify_self f g d h v xs i (omega arith) is
