-- ===== src/Core/Advertise/Discovery.antt =====
-- core/advertise.c: two programs find each other by one request and its reply.
use Prim.Native.Nat.{bit_and}
use hakit.Base.{
  true, false, Bool-cases, inl, inr, map, ℕ, ◌<◌, ◌%◌, ◌≡◌, ◌≢◌, refl, ap, ◌∙◌, Option, none, some,
  List, [], ◌∷◌, ◌==◌, if◌then◌else◌, arith, mod-eq_of_lt,
}
use hakit.Core.Command.{c_string}
use hakit.Core.Advertise.{
  Handler, Advertise, send_request, send_reply, string_of, broker_bytes, call_handlers,
  advertise_event,
}

-- A C string: no byte is NUL.
abbrev pub NoNul : List ℕ → Type 0
NoNul [] = Unit {0}
NoNul (c ∷ s) = (c ≢ 0) × NoNul s

-- A broker's name, if there is one, is a string that is not empty.
abbrev pub IsName : Option (List ℕ) → Type 0
IsName none = Unit {0}
IsName (some str) = (str ≢ []) × NoNul str

c_string-NoNul : (s : List ℕ) → NoNul s → c_string s ≡ s
unfolding c_string
c_string-NoNul [] ok = refl
c_string-NoNul (c ∷ s) (ne, ok) = ground (arith, ne, c_string-NoNul s ok)

string_of-broker :
    (broker : Option (List ℕ)) → IsName broker → string_of (broker_bytes broker) ≡ broker
string_of-broker none ok = refl
string_of-broker (some []) (ne, ok) = absurd (ne refl)
string_of-broker (some (c ∷ s)) (ne, ok) = ap some (c_string-NoNul (c ∷ s) ok)

-- The handlers that share a protocol with `proto`, in order, each once.
unfoldable pub sharing : ℕ → List Handler → List Handler
sharing proto [] = []
sharing proto (hdl ∷ handlers) = elim (bit_and proto hdl.proto == 0) [
  | true ↦ sharing proto handlers
  | false ↦ hdl ∷ sharing proto handlers
]

abbrev pub called : ℕ → Option (List ℕ) → List Handler → List (ℕ × Option (List ℕ))
called proto str handlers = map (λ (hdl : Handler). (hdl.func, str)) (sharing proto handlers)

call_handlers-called :
    (handlers : List Handler) (proto : ℕ) (str : Option (List ℕ))
    → call_handlers handlers proto str ≡ called proto str handlers
unfolding call_handlers sharing
call_handlers-called [] proto str = refl
call_handlers-called (hdl ∷ handlers) proto str = elim (Bool-cases (bit_and proto hdl.proto == 0)) [
  | inl e ↦ rw (call_handlers, sharing, e) (call_handlers-called handlers proto str)
  | inr e ↦
      rw (call_handlers, sharing, e)
        (ap (λ l. (hdl.func, str) ∷ l) (call_handlers-called handlers proto str))
]

calls_same :
    (adv from : Advertise)
    → from.proto < 256
    → IsName from.mqtt_broker
    → call_handlers adv.handlers (from.proto % 256) (string_of (broker_bytes from.mqtt_broker))
      ≡ called from.proto from.mqtt_broker adv.handlers
calls_same adv from small ok =
    ap (λ p. call_handlers adv.handlers p (string_of (broker_bytes from.mqtt_broker)))
      (mod-eq_of_lt small)
    ∙ ap (call_handlers adv.handlers from.proto) (string_of-broker from.mqtt_broker ok)
    ∙ call_handlers-called adv.handlers from.proto from.mqtt_broker

-- Where protocols are bytes and the name of a broker, if there is one, is a string that is not empty: `here`
-- broadcasts its request and `there` gets it; where `there` has a protocol to tell of, it sends one reply,
-- which `here` gets. Then exactly the handlers of `there` that have a bit in common with the protocols of
-- `here` were called, each once and in order, with the broker of `here`; likewise those of `here` with
-- the broker of `there`; and `here` sends no more. Where `there` has no protocol, its handlers are called
-- and it sends nothing.
pub advertise_event-found :
    (here there : Advertise)
    → here.proto < 256
    → there.proto < 256
    → IsName here.mqtt_broker
    → IsName there.mqtt_broker
    → (advertise_event there (send_request here) ≡ (
      if there.proto == 0 then [] else send_reply there ∷ [],
      called here.proto here.mqtt_broker there.handlers,
    ))
      × (advertise_event here (send_reply there)
          ≡ ([], called there.proto there.mqtt_broker here.handlers))
unfolding advertise_event
advertise_event-found here there small small' ok ok' = (
  ap
      (λ (calls : List (ℕ × Option (List ℕ))).
        (if there.proto == 0 then [] else send_reply there ∷ [], calls))
      (calls_same there here small ok),
  ap (λ (calls : List (ℕ × Option (List ℕ))). ([], calls)) (calls_same here there small' ok'),
)
