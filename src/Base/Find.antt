-- ===== src/Base/Find.antt =====
-- The place of the first element of a list that passes a test.
use Prim.Native.Nat.{ℕ, zero, suc, ◌+◌, ◌-◌, ◌≤◌, ◌<◌}
use mathlib.Core.Path.{◌≡◌, refl, ap, ◌∙◌}
use mathlib.Core.Logic.{inl, inr}
use mathlib.Core.Bool.{Bool, true, false}
use mathlib.Core.Option.{Option, none, some}
use mathlib.Core.List.{List, [], ◌∷◌}
use native.Mathlib.Omega.{arith}
use hakit.Base.Bools.{if◌then◌else◌, Bool-cases}
use hakit.Base.Lists.{length, get_or}

module _ {ℓ} {A : Type ℓ} where
  -- Counted from `i` on.
  unfoldable pub find_from : (A → Bool) → ℕ → List A → Option ℕ
  find_from test i [] = none
  find_from test i (x ∷ xs) = if test x then some i else find_from test (i + 1) xs

  pub find_from-some :
      (test : A → Bool) (d : A) (i : ℕ) (xs : List A) (k : ℕ)
      → find_from test i xs ≡ some k
      → (i ≤ k) × (k < i + length xs) × (test (get_or xs (k - i) d) ≡ true)
  unfolding find_from
  find_from-some test d i [] k found = ground (arith, found)
  find_from-some test d i (x ∷ xs) k found = elim (Bool-cases (test x)) [
    | inl pass ↦
        let here : i ≡ k = ground (arith, pass, found) in
        (
          omega arith,
          omega arith,
          ap (λ j. test (get_or (x ∷ xs) j d)) {x = k - i} {y = 0} (omega arith) ∙ pass,
        )
    | inr fail ↦
        let (low, high, passed) =
          find_from-some test d (i + 1) xs k (ground (arith, fail, found)) in
        (
          omega arith,
          omega arith,
          ap (λ j. test (get_or (x ∷ xs) j d)) {x = k - i} {y = suc (k - (i + 1))} (omega arith)
              ∙ passed,
        )
  ]

  pub find_from-none :
      (test : A → Bool) (d : A) (i : ℕ) (xs : List A)
      → find_from test i xs ≡ none
      → (j : ℕ) → j < length xs
      → test (get_or xs j d) ≡ false
  unfolding find_from
  find_from-none test d i [] missing j small = absurd (omega arith)
  find_from-none test d i (x ∷ xs) missing zero small = elim (Bool-cases (test x)) [
    | inl pass ↦ absurd (ground (arith, pass, missing))
    | inr fail ↦ fail
  ]
  find_from-none test d i (x ∷ xs) missing (suc j) small = elim (Bool-cases (test x)) [
    | inl pass ↦ absurd (ground (arith, pass, missing))
    | inr fail ↦ find_from-none test d (i + 1) xs (ground (arith, fail, missing)) j (omega arith)
  ]

  pub get_or-beyond : (d : A) (xs : List A) (i : ℕ) → length xs ≤ i → get_or xs i d ≡ d
  get_or-beyond d [] i h = refl
  get_or-beyond d (x ∷ xs) zero h = absurd (omega arith)
  get_or-beyond d (x ∷ xs) (suc i) h = get_or-beyond d xs i (omega arith)

  pub find_from-found :
      (test : A → Bool) (d : A) (xs : List A) (k : ℕ)
      → find_from test 0 xs ≡ some k
      → (k < length xs) × (test (get_or xs k d) ≡ true)
  find_from-found test d xs k found =
      let (low, high, h) = find_from-some test d 0 xs k found in
      (omega arith, ap (λ j. test (get_or xs j d)) {x = k} {y = k - 0} (omega arith) ∙ h)
