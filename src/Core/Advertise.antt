-- ===== src/Core/Advertise.antt =====
-- core/advertise.c, core/include/advertise.h: the program tells of itself and of a broker by packets, and
-- answers those of others. Whether the UDP server runs is `up`, the tag that `sys_timeout` gives is an
-- argument. A handler is known by a number, for its function and argument; its calls are returned, each
-- with the string behind the head of the packet.
pub mod Discovery
use Prim.Native.Nat.{bit_and, bit_or}
use hakit.Base.{
  ℕ, zero, suc, ◌+◌, ◌%◌, ◌^◌, Bool, true, false, ◌&&◌, not, Option, none, some, List, [], ◌∷◌,
  ◌++◌, ◌==◌, if◌then◌else◌, ℤ, pos, negsuc, ltb_ℤ,
}
use hakit.Core.Command.{c_string}

abbrev pub advertise_delay : ℕ
advertise_delay = 1000

abbrev pub discover_signature : ℕ
discover_signature = 172

abbrev pub discover_request : ℕ
discover_request = 4

abbrev pub discover_reply : ℕ
discover_reply = 5

abbrev pub proto_hkcp : ℕ
proto_hkcp = 1

abbrev pub proto_mqtt : ℕ
proto_mqtt = 2

-- `hk_advertise_handler_t`
pub record Handler : Type 0 where
  pub proto : ℕ
  pub func : ℕ

-- `hk_advertise_t`, and the tags of the timers that the event loop has for it.
pub record Advertise : Type 0 where
  pub up : Bool
  pub tag : ℕ
  pub handlers : List Handler
  pub proto : ℕ
  pub mqtt_broker : Option (List ℕ)
  pub timers : List ℕ

abbrev pub broker_bytes : Option (List ℕ) → List ℕ
broker_bytes none = []
broker_bytes (some str) = str

-- The packet of `hk_advertise_send_request` and of `hk_advertise_send_reply`.
abbrev pub packet : ℕ → ℕ → Option (List ℕ) → List ℕ
packet kind proto str = discover_signature ∷ kind ∷ proto % 2 ^ 8 ∷ broker_bytes str

abbrev pub send_request : Advertise → List ℕ
send_request adv = packet discover_request adv.proto adv.mqtt_broker

abbrev pub send_reply : Advertise → List ℕ
send_reply adv = packet discover_reply adv.proto adv.mqtt_broker

-- What the handlers are given: NULL for a packet that is its head only.
abbrev pub string_of : List ℕ → Option (List ℕ)
string_of [] = none
string_of (c ∷ s) = some (c_string (c ∷ s))

-- The handlers with a bit in common, each with the string.
unfoldable pub call_handlers : List Handler → ℕ → Option (List ℕ) → List (ℕ × Option (List ℕ))
call_handlers [] proto str = []
call_handlers (hdl ∷ handlers) proto str =
    let rest = call_handlers handlers proto str in
    if bit_and proto hdl.proto == 0 then rest else (hdl.func, str) ∷ rest

-- `hk_advertise_event`: the packets sent in reply, and the calls.
unfoldable pub advertise_event : Advertise → List ℕ → List (List ℕ) × List (ℕ × Option (List ℕ))
advertise_event adv [] = ([], [])
advertise_event adv (a ∷ []) = ([], [])
advertise_event adv (a ∷ b ∷ []) = ([], [])
advertise_event adv (signature ∷ kind ∷ proto ∷ bytes) =
    let calls = call_handlers adv.handlers proto (string_of bytes) in
    if signature == discover_signature
    then (if kind == discover_request
        then (if adv.proto == 0 then [] else send_reply adv ∷ [], calls)
        else if kind == discover_reply
        then ([], calls)
        else ([], []))
    else ([], [])

unfoldable pub without : ℕ → List ℕ → List ℕ
without tag [] = []
without tag (t ∷ timers) = let rest = without tag timers in if t == tag then rest else t ∷ rest

-- `hk_advertise_now`, and the end of its timer, which `0` asks for: the packet, broadcast.
abbrev pub advertise_now : Advertise → List ℕ × Advertise
advertise_now adv = (send_request adv, record adv { tag = 0; timers = without adv.tag adv.timers })

-- `sys_remove` of the timer that there is.
abbrev pub stop : Advertise → Advertise
stop adv = if adv.tag == 0 then adv else record adv { tag = 0; timers = without adv.tag adv.timers }

-- `hk_advertise`
unfoldable pub advertise : ℕ → Advertise → Advertise
advertise tag adv =
    let stopped = stop adv in
    if stopped.up && not (stopped.proto == 0)
    then record stopped {
      tag = tag;
      timers = if tag == 0 then stopped.timers else tag ∷ stopped.timers;
    }
    else stopped

-- `hk_advertise_hkcp`
abbrev pub advertise_hkcp : ℕ → Advertise → Advertise
advertise_hkcp tag adv = advertise tag (record adv { proto = bit_or adv.proto proto_hkcp })

-- `hk_advertise_mqtt`
abbrev pub advertise_mqtt : ℕ → Advertise → Option (List ℕ) → Advertise
advertise_mqtt tag adv broker =
    advertise tag (record adv { mqtt_broker = broker; proto = bit_or adv.proto proto_mqtt })

-- `hk_advertise_init`; `up` is whether `udp_srv_init` succeeds.
abbrev pub advertise_init : Bool → ℤ → ℤ × Advertise
advertise_init up port =
    let adv : Advertise = record {
      up = false;
      tag = 0;
      handlers = [];
      proto = 0;
      mqtt_broker = none;
      timers = [];
    } in
    if ltb_ℤ (pos 0) port
    then (if up then (pos 0, record adv { up = true }) else (negsuc 0, adv))
    else (pos 0, adv)

-- `hk_advertise_shutdown`: the tag and the timer stay.
abbrev pub advertise_shutdown : Advertise → Advertise
advertise_shutdown adv = record adv { up = false; handlers = []; mqtt_broker = none }

-- `hk_advertise_handler`
abbrev pub advertise_handler : Advertise → ℕ → ℕ → Advertise
advertise_handler adv proto func = record adv {
  handlers = adv.handlers ++ (record { proto = proto; func = func } ∷ []);
}
