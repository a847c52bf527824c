-- ===== src/Tests/Endpoints.antt =====
-- core/endpoint.c: the theorems at concrete inputs.
use hakit.Base.{ℕ, zero, suc, ◌+◌, ◌≡◌, ◌⊎◌, refl, true, false, none, some, [], ◌∷◌, arith}
use hakit.Core.Tile.{split_last_dot}
use hakit.Core.Endpoint.{Owner, ep_sink, ep_source, no_ep, Endpoints, sink_eps, source_eps}
use hakit.Core.Endpoint.Registry.{sink_register}
use hakit.Core.Endpoint.Names.{IsNamed, NoDot}
use hakit.Core.Endpoint.Register.{IsTaken, Registered, sink_register-Registered}
use hakit.Core.Endpoint.Update.{source_update}
use hakit.Core.Endpoint.Delivered.{Delivered, source_update-Delivered}

abbrev owner : ℕ → Owner
owner c = record { name = c ∷ []; tile = b't' ∷ [] }

-- A sink "t.a" that is connected to a source of its name.
abbrev eps : Endpoints
eps = record {
  sinks =
      record {
        ep = record (no_ep ep_sink) { obj = some (owner b'a') };
        handlers = 0 ∷ [];
        local_source = some 0;
      }
      ∷ [];
  sources =
      record { ep = record (no_ep ep_source) { obj = some (owner b'a') }; local_sinks = 0 ∷ [] }
      ∷ [];
  trace_depth = 0;
  full_name = true;
  tiles = 1;
}

plain : NoDot (b'b' ∷ [])
unfolding split_last_dot
plain = refl

sinks-IsNamed : IsNamed true (sink_eps eps)
sinks-IsNamed zero zero a b at_i at_j same = refl
sinks-IsNamed (suc i) j a b at_i at_j same = absurd (ground (arith, at_i))
sinks-IsNamed zero (suc j) a b at_i at_j same = absurd (ground (arith, at_j))

sources-IsNamed : IsNamed true (source_eps eps)
sources-IsNamed zero zero a b at_i at_j same = refl
sources-IsNamed (suc i) j a b at_i at_j same = absurd (ground (arith, at_i))
sources-IsNamed zero (suc j) a b at_i at_j same = absurd (ground (arith, at_j))

sink_register-Registered_example :
    ((sink_register eps (owner b'b') false ≡ (none, eps))
      × IsTaken true (sink_eps eps) (owner b'b'))
    ⊎ ((i : ℕ) × ((sink_register eps (owner b'b') false).0 ≡ some i)
        × Registered true
            (sink_eps eps)
            (sink_eps (sink_register eps (owner b'b') false).1)
            i
            (owner b'b'))
sink_register-Registered_example =
    sink_register-Registered eps (owner b'b') false sinks-IsNamed plain

-- A handler that counts its calls.
abbrev counting : ℕ → ℕ → Endpoints × ℕ → Endpoints × ℕ
counting func i (e, n) = (e, n + 1)

source_update-Delivered_example :
    Delivered eps
      (source_update counting 5 0 (b'1' ∷ []) (eps, 0)).0
      0
      (record { ep = record (no_ep ep_source) { obj = some (owner b'a') }; local_sinks = 0 ∷ [] })
      (b'1' ∷ [])
source_update-Delivered_example =
    source_update-Delivered counting (λ func i w. refl) 5 0 (b'1' ∷ []) (eps, 0)
      (record { ep = record (no_ep ep_source) { obj = some (owner b'a') }; local_sinks = 0 ∷ [] })
      refl refl
