-- ===== src/Core/Endpoint/Names.antt =====
-- core/endpoint.c: an endpoint is known by its name, or by the names of its tile and its own.
use hakit.Base.{
  ℕ, ◌<◌, ◌≡◌, ◌≢◌, inl, inr, refl, ap, sym, ◌∙◌, Bool, true, false, Option, none, some, List, [],
  ◌∷◌, ◌++◌, if◌then◌else◌, get_or, length, eq_bytes, eq_bytes_iff, find_from, find_from-found,
  get_or-beyond, dec_lt, ℕ_discrete, find_from-none, arith, Option-cases,
}
use mathlib.Core.Option.{some-injective}
use hakit.Core.Tile.{split_last_dot}
use hakit.Core.Endpoint.{
  Owner, Ep, no_ep, ep_sink, owner_matches, retrieve_by_full_name, retrieve_by_name,
}

abbrev pub owner_at : List Ep → ℕ → Option Owner
owner_at eps i = (get_or eps i (no_ep ep_sink)).obj

-- Two objects have one name for the program.
abbrev pub SameName : Bool → Owner → Owner → Type 0
SameName full_name a b = (a.name ≡ b.name) × (full_name ≡ true → a.tile ≡ b.tile)

-- No two endpoints of a table have one name.
abbrev pub IsNamed : Bool → List Ep → Type 0
IsNamed full_name eps =
    (i j : ℕ) (a b : Owner)
    → owner_at eps i ≡ some a
    → owner_at eps j ≡ some b
    → SameName full_name a b
    → i ≡ j

abbrev pub key : Bool → Owner → Option (List ℕ)
key full_name obj = if full_name then some obj.tile else none

-- `strrchr` finds no '.'.
abbrev pub NoDot : List ℕ → Type 0
NoDot name = split_last_dot name ≡ none

pub split_last_dot-append :
    (before behind : List ℕ)
    → NoDot behind
    → split_last_dot (before ++ (b'.' ∷ behind)) ≡ some (before, behind)
unfolding split_last_dot
split_last_dot-append [] behind plain = rw plain refl
split_last_dot-append (c ∷ before) behind plain =
    rw (split_last_dot-append before behind plain) refl

-- The name by which the program asks for an endpoint.
abbrev pub full : Bool → Owner → List ℕ
full full_name obj = if full_name then obj.tile ++ (b'.' ∷ obj.name) else obj.name

pub eq_bytes_refl : (s : List ℕ) → eq_bytes s s ≡ true
eq_bytes_refl s = (eq_bytes_iff s s).1 refl

pub owner_matches_self :
    (full_name : Bool) (obj : Owner) → owner_matches (key full_name obj) obj.name (some obj) ≡ true
owner_matches_self true obj = rw (eq_bytes_refl obj.tile, eq_bytes_refl obj.name) refl
owner_matches_self false obj = rw (eq_bytes_refl obj.name) refl

-- What matches a name has it.
pub owner_matches-SameName :
    (full_name : Bool) (obj a : Owner)
    → owner_matches (key full_name obj) obj.name (some a) ≡ true
    → SameName full_name a obj
owner_matches-SameName true obj a h = (
  (eq_bytes_iff a.name obj.name).0 (ground (arith, h)),
  λ _. (eq_bytes_iff a.tile obj.tile).0 (ground (arith, h)),
)
owner_matches-SameName false obj a h =
    ((eq_bytes_iff a.name obj.name).0 h, λ e. absurd (ground (arith, e)))

pub SameName-owner_matches :
    (full_name : Bool) (obj a : Owner)
    → SameName full_name a obj
    → owner_matches (key full_name obj) obj.name (some a) ≡ true
SameName-owner_matches true obj a (name, tile) =
    rw ((eq_bytes_iff a.tile obj.tile).1 (tile refl), (eq_bytes_iff a.name obj.name).1 name) refl
SameName-owner_matches false obj a (name, tile) = (eq_bytes_iff a.name obj.name).1 name

abbrev pub is_match : Bool → Owner → Ep → Bool
is_match full_name obj ep = owner_matches (key full_name obj) obj.name ep.obj

is_match-owner :
    (full_name : Bool) (obj : Owner) (eps : List Ep) (j : ℕ)
    → is_match full_name obj (get_or eps j (no_ep ep_sink)) ≡ true
    → (a : Owner) × (owner_at eps j ≡ some a) × SameName full_name a obj
is_match-owner full_name obj eps j h = elim (Option-cases (owner_at eps j)) [
  | inl e ↦ absurd (ground (arith, e, h))
  | inr (a, e) ↦ (a, e, owner_matches-SameName full_name obj a (ground (arith, e, h)))
]

pub owner_at-small :
    (eps : List Ep) (i : ℕ) (obj : Owner) → owner_at eps i ≡ some obj → i < length eps
owner_at-small eps i obj at = elim (dec_lt i (length eps)) [
  | yes h ↦ h
  | no h ↦ absurd (ground (arith, at, get_or-beyond (no_ep ep_sink) eps i (omega arith)))
]

-- An endpoint with the name is not missed.
pub retrieve_by_full_name-found :
    (full_name : Bool) (eps : List Ep) (i : ℕ) (obj a : Owner)
    → owner_at eps i ≡ some a
    → SameName full_name a obj
    → retrieve_by_full_name eps (key full_name obj) obj.name ≢ none
unfolding retrieve_by_full_name
retrieve_by_full_name-found full_name eps i obj a at same missing =
    differ (rw at (SameName-owner_matches full_name obj a same)) (
      find_from-none (is_match full_name obj) (no_ep ep_sink) 0 eps missing i
        (owner_at-small eps i a at))
  where
    differ : {b : Bool} → b ≡ true → b ≢ false
    differ e e' = ground (arith, e, e')

-- What is retrieved has the name.
pub retrieve_by_full_name-matching :
    (full_name : Bool) (eps : List Ep) (obj : Owner) (j : ℕ)
    → retrieve_by_full_name eps (key full_name obj) obj.name ≡ some j
    → (i : ℕ) × (a : Owner) × (owner_at eps i ≡ some a) × SameName full_name a obj
unfolding retrieve_by_full_name
retrieve_by_full_name-matching full_name eps obj j found =
    let (high, h) = find_from-found (is_match full_name obj) (no_ep ep_sink) eps j found in
    let (a, e, same) = is_match-owner full_name obj eps j h in (j, a, e, same)

-- Where no two endpoints have one name, an endpoint is retrieved by its own.
pub retrieve_by_full_name-at :
    (full_name : Bool) (eps : List Ep) (i : ℕ) (obj : Owner)
    → IsNamed full_name eps
    → owner_at eps i ≡ some obj
    → retrieve_by_full_name eps (key full_name obj) obj.name ≡ some i
unfolding retrieve_by_full_name
retrieve_by_full_name-at full_name eps i obj named at =
    elim (Option-cases (find_from (is_match full_name obj) 0 eps)) [
      | inl missing ↦
          absurd (retrieve_by_full_name-found full_name eps i obj obj at (refl, λ _. refl) missing)
      | inr (j, found) ↦
          let (high, h) = find_from-found (is_match full_name obj) (no_ep ep_sink) eps j found in
          let (a, e, same) = is_match-owner full_name obj eps j h in
          found ∙ ap some (named j i a obj e at same)
    ]

-- Where no two endpoints have one name, an endpoint is retrieved by the name the program asks for.
pub retrieve_by_name-at :
    (full_name : Bool) (eps : List Ep) (i : ℕ) (obj : Owner)
    → IsNamed full_name eps
    → owner_at eps i ≡ some obj
    → NoDot obj.name
    → retrieve_by_name full_name eps (full full_name obj) ≡ some i
unfolding retrieve_by_name
retrieve_by_name-at true eps i obj named at plain =
    rw (retrieve_by_name, split_last_dot-append obj.tile obj.name plain)
      (retrieve_by_full_name-at true eps i obj named at)
retrieve_by_name-at false eps i obj named at plain =
    rw (retrieve_by_name, plain) (retrieve_by_full_name-at false eps i obj named at)

-- What a table of names is after a new name at a free place.
pub IsNamed-put :
    (full_name : Bool) (eps eps' : List Ep) (k : ℕ) (obj : Owner)
    → IsNamed full_name eps
    → retrieve_by_full_name eps (key full_name obj) obj.name ≡ none
    → owner_at eps' k ≡ some obj
    → ((j : ℕ) → k ≢ j → owner_at eps' j ≡ owner_at eps j)
    → IsNamed full_name eps'
IsNamed-put full_name eps eps' k obj named missing new old i j a b at_i at_j same =
    elim (ℕ_discrete k i) [
      | yes ki ↦ elim (ℕ_discrete k j) [
        | yes kj ↦ sym ki ∙ kj
        | no nj ↦ absurd (
            retrieve_by_full_name-found full_name eps j obj b (sym (old j nj) ∙ at_j)
              (turn (owner_same ki at_i) same) missing)
      ]
      | no ni ↦ elim (ℕ_discrete k j) [
        | yes kj ↦ absurd (
            retrieve_by_full_name-found full_name eps i obj a (sym (old i ni) ∙ at_i)
              (onto (owner_same kj at_j) same) missing)
        | no nj ↦ named i j a b (sym (old i ni) ∙ at_i) (sym (old j nj) ∙ at_j) same
      ]
    ]
  where
    owner_same : {l : ℕ} {c : Owner} → k ≡ l → owner_at eps' l ≡ some c → c ≡ obj
    owner_same e at = some-injective _ _ (sym at ∙ ap (owner_at eps') (sym e) ∙ new)

    turn : {c d : Owner} → c ≡ obj → SameName full_name c d → SameName full_name d obj
    turn {c} {d} e (names, tiles) =
        (sym names ∙ ap (λ o. o.name) e, λ h. sym (tiles h) ∙ ap (λ o. o.tile) e)

    onto : {c d : Owner} → c ≡ obj → SameName full_name d c → SameName full_name d obj
    onto {c} {d} e (names, tiles) = (names ∙ ap (λ o. o.name) e, λ h. tiles h ∙ ap (λ o. o.tile) e)
