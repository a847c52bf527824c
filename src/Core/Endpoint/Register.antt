-- ===== src/Core/Endpoint/Register.antt =====
-- core/endpoint.c: the registration of an endpoint under its name.
use hakit.Base.{
  ℕ, ◌≡◌, ◌⊎◌, inl, inr, refl, ap, sym, subst, Bool, none, some, List, ◌&&◌, not, arith, Bool-cases,
  Option-cases,
}
use hakit.Core.Endpoint.{
  Owner, Ep, Endpoints, retrieve_by_full_name, retrieve_by_name, sink_eps, source_eps,
}
use hakit.Core.Endpoint.Registry.{
  tile_key, sink_alloc, sink_register, source_alloc, source_register,
}
use hakit.Core.Endpoint.Names.{
  owner_at, SameName, IsNamed, key, full, NoDot, IsNamed-put, retrieve_by_name-at,
  retrieve_by_full_name-matching,
}
use hakit.Core.Endpoint.Taken.{
  Taken, sink_alloc-Taken, source_alloc-Taken, sink_local_connect-sinks, sink_local_connect-sources,
}

-- What follows the allocation in `hk_sink_register` leaves the endpoints of the sinks.
sink_register-alloc :
    (eps : Endpoints) (obj : Owner) (local : Bool)
    → retrieve_by_full_name (sink_eps eps) (tile_key eps obj) obj.name ≡ none
    → ((sink_register eps obj local).0 ≡ some (sink_alloc eps obj local).0)
      × (sink_eps (sink_register eps obj local).1 ≡ sink_eps (sink_alloc eps obj local).1)
unfolding sink_register
sink_register-alloc eps obj local missing = elim (Bool-cases (not eps.full_name && not local)) [
  | inr c ↦ (rw (sink_register, missing, c) refl, rw (sink_register, missing, c) refl)
  | inl c ↦
      elim (Option-cases
        (retrieve_by_full_name (source_eps (sink_alloc eps obj local).1) none obj.name)) [
          | inl e ↦ (rw (sink_register, missing, c, e) refl, rw (sink_register, missing, c, e) refl)
          | inr (k, e) ↦ (
            rw (sink_register, missing, c, e) refl,
            rw (sink_register, missing, c, e)
                (sink_local_connect-sinks (sink_alloc eps obj local).1 (sink_alloc eps obj local).0
                  k),
          )
        ]
]

-- An endpoint for an object has taken a free entry, names still differ, and it is retrieved by name.
pub record Registered (full_name : Bool) (eps eps' : List Ep) (k : ℕ) (obj : Owner) : Type 0 where
  pub taken : Taken eps eps' k obj
  pub named : IsNamed full_name eps'
  pub retrieved : retrieve_by_name full_name eps' (full full_name obj) ≡ some k

Taken-Registered :
    (full_name : Bool) (eps eps' : List Ep) (k : ℕ) (obj : Owner)
    → IsNamed full_name eps
    → NoDot obj.name
    → retrieve_by_full_name eps (key full_name obj) obj.name ≡ none
    → Taken eps eps' k obj
    → Registered full_name eps eps' k obj
Taken-Registered full_name eps eps' k obj named plain missing t =
    let named' : IsNamed full_name eps' =
      IsNamed-put full_name eps eps' k obj named missing t.new
        (λ j ne. ap (λ ep. ep.obj) (t.others j ne)) in
    record {
      taken = t;
      named = named';
      retrieved = retrieve_by_name-at full_name eps' k obj named' t.new plain;
    }

-- Some endpoint has the name already.
abbrev pub IsTaken : Bool → List Ep → Owner → Type 0
IsTaken full_name eps obj =
    (j : ℕ) × (a : Owner) × (owner_at eps j ≡ some a) × SameName full_name a obj

-- Where no two sinks have one name and the new name has no '.', `hk_sink_register` either refuses the name
-- because a sink has it, and changes nothing; or it takes a free entry for the sink, leaves the other
-- endpoints of the table as they are, and keeps names apart, so that `hk_sink_retrieve_by_name` finds
-- the sink by its full name.
pub sink_register-Registered :
    (eps : Endpoints) (obj : Owner) (local : Bool)
    → IsNamed eps.full_name (sink_eps eps)
    → NoDot obj.name
    → ((sink_register eps obj local ≡ (none, eps)) × IsTaken eps.full_name (sink_eps eps) obj)
      ⊎ ((i : ℕ) × ((sink_register eps obj local).0 ≡ some i)
          × Registered eps.full_name
              (sink_eps eps)
              (sink_eps (sink_register eps obj local).1)
              i
              obj)
unfolding sink_register
sink_register-Registered eps obj local named plain =
    elim (Option-cases (retrieve_by_full_name (sink_eps eps) (tile_key eps obj) obj.name)) [
      | inr (j, e) ↦ inl (
        rw (sink_register, e) refl,
        retrieve_by_full_name-matching eps.full_name (sink_eps eps) obj j e,
      )
      | inl e ↦
          let (result, table) = sink_register-alloc eps obj local e in
          inr (
            (sink_alloc eps obj local).0,
            result,
            Taken-Registered eps.full_name (sink_eps eps) (sink_eps (sink_register eps obj local).1)
                (sink_alloc eps obj local).0 obj named plain e
                (subst (λ l. Taken (sink_eps eps) l (sink_alloc eps obj local).0 obj) (sym table)
                  (sink_alloc-Taken eps obj local)),
          )
    ]

source_register-alloc :
    (eps : Endpoints) (obj : Owner) (local event : Bool)
    → retrieve_by_full_name (source_eps eps) (tile_key eps obj) obj.name ≡ none
    → ((source_register eps obj local event).0 ≡ some (source_alloc eps obj local event).0)
      × (source_eps (source_register eps obj local event).1
          ≡ source_eps (source_alloc eps obj local event).1)
unfolding source_register
source_register-alloc eps obj local event missing = elim (Bool-cases eps.full_name) [
  | inr c ↦ (ground (arith, missing, c), ground (arith, missing, c))
  | inl c ↦
      elim (Option-cases
        (retrieve_by_full_name (sink_eps (source_alloc eps obj local event).1) none obj.name)) [
          | inl e ↦ (ground (arith, missing, c, e), ground (arith, missing, c, e))
          | inr (i, e) ↦ (
            ground (arith, missing, c, e),
            ground (
              arith,
              missing,
              c,
              e,
              sink_local_connect-sources (source_alloc eps obj local event).1 i
                  (source_alloc eps obj local event).0,
            ),
          )
        ]
]

-- Where no two sources have one name and the new name has no '.', `hk_source_register` either refuses the
-- name because a source has it, and changes nothing; or it takes a free entry for the source, leaves the
-- other endpoints of the table as they are, and keeps names apart, so that `hk_source_retrieve_by_name`
-- finds the source by its full name.
pub source_register-Registered :
    (eps : Endpoints) (obj : Owner) (local event : Bool)
    → IsNamed eps.full_name (source_eps eps)
    → NoDot obj.name
    → ((source_register eps obj local event ≡ (none, eps))
        × IsTaken eps.full_name (source_eps eps) obj)
      ⊎ ((k : ℕ) × ((source_register eps obj local event).0 ≡ some k)
          × Registered eps.full_name
              (source_eps eps)
              (source_eps (source_register eps obj local event).1)
              k
              obj)
unfolding source_register
source_register-Registered eps obj local event named plain =
    elim (Option-cases (retrieve_by_full_name (source_eps eps) (tile_key eps obj) obj.name)) [
      | inr (j, e) ↦ inl (
        rw (source_register, e) refl,
        retrieve_by_full_name-matching eps.full_name (source_eps eps) obj j e,
      )
      | inl e ↦
          let (result, table) = source_register-alloc eps obj local event e in
          inr (
            (source_alloc eps obj local event).0,
            result,
            Taken-Registered eps.full_name (source_eps eps)
                (source_eps (source_register eps obj local event).1)
                (source_alloc eps obj local event).0 obj named plain e
                (subst (λ l. Taken (source_eps eps) l (source_alloc eps obj local event).0 obj)
                  (sym table) (source_alloc-Taken eps obj local event)),
          )
    ]
