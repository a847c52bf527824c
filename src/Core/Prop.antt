-- ===== src/Core/Prop.antt =====
-- core/prop.c and core/include/prop.h, on the table of core/tab.c: the properties of an object.
-- A table is the list of its entries, in the order in which they were pushed; `strdup` and `free`
-- do not show. A name or value is the list of its bytes.
pub mod Laws
use hakit.Base.{
  ℕ, Bool, true, false, Option, none, some, List, [], ◌∷◌, ◌++◌, ℤ, pos, if◌then◌else◌, eq_bytes,
  strtol,
}

pub record Entry : Type 0 where
  pub name : List ℕ
  pub value : List ℕ

abbrev pub Props : Type 0
Props = List Entry

abbrev pub init : Props
init = []

unfoldable pub find : Props → List ℕ → Option Entry
find [] name = none
find (e ∷ props) name = if eq_bytes e.name name then some e else find props name

-- `hk_tab_push`, with the new entry filled in.
abbrev pub push : Props → Entry → Props
push props e = props ++ (e ∷ [])

-- The entry that `hk_prop_find` returns gets the value.
pub replace : Props → List ℕ → List ℕ → Props
replace [] name value = []
replace (e ∷ props) name value =
    if eq_bytes e.name name
    then record e { value = value } ∷ props
    else e ∷ replace props name value

unfoldable pub prop_set : Props → List ℕ → List ℕ → Props
prop_set props name value = elim (find props name) [
  | none ↦ push props (record { name = name; value = value })
  | some e ↦ replace props name value
]

unfoldable pub prop_get : Props → List ℕ → Option (List ℕ)
prop_get props name = elim (find props name) [ none ↦ none | some e ↦ some e.value ]

-- `strtol(s, NULL, 0)` of the value, 0 if there is none.
unfoldable pub prop_get_int : Props → List ℕ → ℤ
prop_get_int props name = elim (prop_get props name) [ none ↦ pos 0 | some s ↦ strtol s ]

-- `func` updates a state, and says whether the loop goes on.
unfoldable pub prop_foreach {ℓ} : {S : Type ℓ} → Props → (S → List ℕ → List ℕ → S × Bool) → S → S
prop_foreach [] func s = s
prop_foreach (e ∷ props) func s =
    let (s', on) = func s e.name e.value in
    elim on [ true ↦ prop_foreach props func s' | false ↦ s' ]
