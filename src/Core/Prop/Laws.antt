-- ===== src/Core/Prop/Laws.antt =====
-- core/prop.c: what a set changes, and what it leaves.
use hakit.Base.{
  ℕ, ◌≡◌, refl, none, some, List, [], ◌∷◌, ◌++◌, if◌then◌else◌, eq_bytes, eq_bytes_iff, arith,
  Bool-cases, Option-cases, inl, inr,
}
use hakit.Core.Prop.{Entry, Props, find, push, replace, prop_set, prop_get}

find-push :
    (props : Props) (name name' value : List ℕ)
    → find props name ≡ none
    → find (props ++ (record { name = name; value = value } ∷ [])) name' ≡ (
        if eq_bytes name name'
        then some (record { name = name; value = value })
        else find props name')
unfolding find
find-push [] name name' value e = refl
find-push (x ∷ props) name name' value e = ground (
  arith,
  eq_bytes_iff name name',
  eq_bytes_iff x.name name,
  eq_bytes_iff x.name name',
  find-push props name name' value,
)

find-replace :
    (props : Props) (name name' value : List ℕ) (e : Entry)
    → find props name ≡ some e
    → prop_get (replace props name value) name'
      ≡ (if eq_bytes name name' then some value else prop_get props name')
unfolding find replace prop_get
find-replace [] name name' value e h = cc
find-replace (x ∷ props) name name' value e h = elim (Bool-cases (eq_bytes x.name name)) [
  | inl q ↦
      rw q (
        ground
          (arith, eq_bytes_iff name name', eq_bytes_iff x.name name, eq_bytes_iff x.name name'))
  | inr q ↦ rw q (
      ground (
        arith,
        eq_bytes_iff name name',
        eq_bytes_iff x.name name,
        eq_bytes_iff x.name name',
        find-replace props name name' value e,
      ))
]

prop_get-push :
    (props : Props) (name name' value : List ℕ)
    → find props name ≡ none
    → prop_get (push props (record { name = name; value = value })) name'
      ≡ (if eq_bytes name name' then some value else prop_get props name')
unfolding prop_get
prop_get-push props name name' value e = elim (Bool-cases (eq_bytes name name')) [
  | inl q ↦ rw (prop_get, find-push props name name' value e, q) refl
  | inr q ↦ rw (prop_get, find-push props name name' value e, q) refl
]

-- After a property is set, a get of its name finds the value, and a get of any other name finds what it
-- found before.
pub prop_get-prop_set :
    (props : Props) (name name' value : List ℕ)
    → prop_get (prop_set props name value) name'
      ≡ (if eq_bytes name name' then some value else prop_get props name')
unfolding prop_set
prop_get-prop_set props name name' value = elim (Option-cases (find props name)) [
  | inl e ↦ rw (prop_set, e) (prop_get-push props name name' value e)
  | inr (x, e) ↦ rw (prop_set, e) (find-replace props name name' value x e)
]
