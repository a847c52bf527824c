-- ===== src/Classes/Endpoints.antt =====
-- classes/sink/main.c, classes/source/main.c: the objects that stand for endpoints. The function of a sink is
-- known by the number `func`. A result `none` is a null pointer that is followed: the name of the endpoint
-- was taken already, so that the object has none.
use hakit.Base.{ℕ, Bool, true, false, ◌||◌, Option, none, some, List, [], ◌∷◌, if◌then◌else◌}
use hakit.Core.Prop.{Props, prop_get}
use hakit.Core.Endpoint.{Owner, Ep, Endpoints, set_widget, set_chart}
use hakit.Core.Endpoint.Update.{modify_sink, modify_source}
use hakit.Core.Comm.{
  Comm, comm_sink_register, comm_source_register, sink_update_str, source_update_str,
}

abbrev pub local_name : List ℕ
local_name = b'l' ∷ b'o' ∷ b'c' ∷ b'a' ∷ b'l' ∷ []

abbrev pub event_name : List ℕ
event_name = b'e' ∷ b'v' ∷ b'e' ∷ b'n' ∷ b't' ∷ []

abbrev pub widget_name : List ℕ
widget_name = b'w' ∷ b'i' ∷ b'd' ∷ b'g' ∷ b'e' ∷ b't' ∷ []

abbrev pub chart_name : List ℕ
chart_name = b'c' ∷ b'h' ∷ b'a' ∷ b'r' ∷ b't' ∷ []

abbrev pub is_given : Option (List ℕ) → Bool
is_given none = false
is_given (some s) = true

-- The widget and the chart of an endpoint, where they are given.
abbrev pub shown_widget : Option (List ℕ) → Ep → Ep
shown_widget none ep = ep
shown_widget (some widget) ep = set_widget ep (some widget)

abbrev pub shown_chart : Option (List ℕ) → Ep → Ep
shown_chart none ep = ep
shown_chart (some chart) ep = set_chart ep (some chart)

abbrev pub shown : Props → Ep → Ep
shown props ep =
    shown_chart (prop_get props chart_name) (shown_widget (prop_get props widget_name) ep)

abbrev pub is_shown : Props → Bool
is_shown props = is_given (prop_get props widget_name) || is_given (prop_get props chart_name)

-- `_new` of a sink: its place.
unfoldable pub sink_new :
    Props → ℕ → Owner → ℕ → Endpoints × Comm → Option (Option ℕ × (Endpoints × Comm))
sink_new props tag obj func w =
    let (place, w') = comm_sink_register tag obj (is_given (prop_get props local_name)) func w in
    elim place [
      | none ↦ if is_shown props then none else some (none, w')
      | some i ↦
          some
            (some i, (modify_sink w'.0 i (λ sink. record sink { ep = shown props sink.ep }), w'.1))
    ]

-- `_event` of a sink: the value for the output pad.
abbrev pub sink_event : Ep → List ℕ
sink_event ep = ep.value

-- `_new` of a source: its place.
unfoldable pub source_new :
    Props → ℕ → Owner → Endpoints × Comm → Option (Option ℕ × (Endpoints × Comm))
source_new props tag obj w =
    let (place, w') =
      comm_source_register tag obj (is_given (prop_get props local_name))
        (is_given (prop_get props event_name)) w in
    elim place [
      | none ↦ if is_shown props then none else some (none, w')
      | some k ↦ some (
        some k,
        (modify_source w'.0 k (λ source. record source { ep = shown props source.ep }), w'.1),
      )
    ]

module _ (handler : ℕ → ℕ → Endpoints × Comm → Endpoints × Comm) where
  -- `_start` of a sink, with the value of its output pad, none for NULL.
  unfoldable pub sink_start :
      ℕ → Option ℕ → Option (List ℕ) → Endpoints × Comm → Option (Endpoints × Comm)
  sink_start now place none w = some w
  sink_start now none (some value) w = none
  sink_start now (some i) (some value) w = some (sink_update_str handler now i value w)

  -- `_input` of a source.
  unfoldable pub source_input : ℕ → Option ℕ → List ℕ → Endpoints × Comm → Option (Endpoints × Comm)
  source_input now none value w = none
  source_input now (some k) value w = some (source_update_str handler now k value w)
