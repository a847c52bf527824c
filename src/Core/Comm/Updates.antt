-- ===== src/Core/Comm/Updates.antt =====
-- core/comm.c: where the value of a source goes.
use hakit.Base.{
  ℕ, ◌≡◌, inl, inr, refl, sym, ap, subst, ◌∙◌, Bool, true, false, ◌&&◌, not, some, List, [], ◌∷◌,
  ◌++◌, if◌then◌else◌, get_elem?, append-nil, Bool-cases,
}
use hakit.Core.Endpoint.{Owner, Ep, Source, Endpoints, is_public}
use hakit.Core.Endpoint.Update.{source_update}
use hakit.Core.Hkcp.{node_at, set_command}
use hakit.Core.Hkcp.Attached.{sent_to, has_source, hkcp_source_update-sent_to}
use hakit.Core.Comm.{
  Comm, ws_event, ws_send, mqtt_publish, hkcp_update, send_source, send_updated, source_update_str,
}

-- What is sent of the source at place `k`: to the web server in any case, to MQTT and to the nodes that
-- have the source if it is public.
pub record Sent (eps : Endpoints) (now k : ℕ) (ep : Ep) (obj : Owner) (c c' : Comm) : Type 0 where
  pub to_web : c'.ws ≡ c.ws ++ (ws_event eps now obj ep.value ∷ [])
  pub to_broker :
      c'.published
      ≡ c.published ++ (if ep.local then [] else (obj.name, ep.value, not ep.event) ∷ [])
  pub to_node :
      (j : ℕ)
      → sent_to j c'.hkcp.sent
        ≡ sent_to j c.hkcp.sent
          ++ (if not ep.local && has_source k (node_at c.hkcp j)
              then set_command obj.name ep.value ∷ []
              else [])

ws_send-some :
    (eps : Endpoints) (now : ℕ) (ep : Ep) (obj : Owner) (c : Comm)
    → ep.obj ≡ some obj
    → ws_send eps now ep c ≡ record c { ws = c.ws ++ (ws_event eps now obj ep.value ∷ []) }
unfolding ws_send
ws_send-some eps now ep obj c owned = rw (ws_send, owned) refl

mqtt_publish-some :
    (ep : Ep) (obj : Owner) (c : Comm)
    → ep.obj ≡ some obj
    → mqtt_publish ep c
      ≡ record c { published = c.published ++ ((obj.name, ep.value, not ep.event) ∷ []) }
unfolding mqtt_publish
mqtt_publish-some ep obj c owned = rw (mqtt_publish, owned) refl

send_source-local :
    (handler : ℕ → ℕ → Endpoints × Comm → Endpoints × Comm) (eps : Endpoints) (now k : ℕ) (ep : Ep)
    (c : Comm)
    → is_public (some ep) ≡ false
    → send_source handler eps now k ep c ≡ ws_send eps now ep c
unfolding send_source
send_source-local handler eps now k ep c private = rw (send_source, private) refl

send_source-public :
    (handler : ℕ → ℕ → Endpoints × Comm → Endpoints × Comm) (eps : Endpoints) (now k : ℕ) (ep : Ep)
    (c : Comm)
    → is_public (some ep) ≡ true
    → send_source handler eps now k ep c
      ≡ ws_send eps now ep (mqtt_publish ep (hkcp_update handler eps k ep c))
unfolding send_source
send_source-public handler eps now k ep c public = rw (send_source, public) refl

send_source-Sent :
    (handler : ℕ → ℕ → Endpoints × Comm → Endpoints × Comm) (eps : Endpoints) (now k : ℕ) (ep : Ep)
    (obj : Owner) (c : Comm)
    → ep.obj ≡ some obj
    → Sent eps now k ep obj c (send_source handler eps now k ep c)
send_source-Sent handler eps now k ep obj c owned = elim (Bool-cases ep.local) [
  | inl e ↦
      let private : is_public (some ep) ≡ false = rw (owned, e) refl in
      rw (send_source-local handler eps now k ep c private, ws_send-some eps now ep obj c owned)
        (record {
          to_web = refl;
          to_broker = rw e (sym (append-nil c.published));
          to_node = λ j. rw e (sym (append-nil (sent_to j c.hkcp.sent)));
        })
  | inr e ↦
      let public : is_public (some ep) ≡ true = rw (owned, e) refl in
      rw
        (
          send_source-public handler eps now k ep c public,
          ws_send-some eps now ep obj (mqtt_publish ep (hkcp_update handler eps k ep c)) owned,
          mqtt_publish-some ep obj (hkcp_update handler eps k ep c) owned,
        )
        (record {
          to_web = refl;
          to_broker = rw e refl;
          to_node = λ j.
              hkcp_source_update-sent_to eps k ep obj c.hkcp c.server j owned
              ∙ ap
                  (λ (l : Bool).
                    sent_to j c.hkcp.sent
                    ++ (if not l && has_source k (node_at c.hkcp j)
                        then set_command obj.name ep.value ∷ []
                        else []))
                  (sym e);
        })
]

send_updated-some :
    (handler : ℕ → ℕ → Endpoints × Comm → Endpoints × Comm) (eps : Endpoints) (now k : ℕ)
    (source : Source) (c : Comm)
    → get_elem? eps.sources k ≡ some source
    → send_updated handler now k (eps, c) ≡ (eps, send_source handler eps now k source.ep c)
send_updated-some handler eps now k source c at = rw (send_updated, at) refl

-- An update of a source, whatever the handlers of its sinks do: after it, the value that the source then has
-- goes to the web server; if the source is public, also to MQTT, retained unless it is an event, and to
-- each node that has the source, once; if it is local, to neither.
pub source_update_str-Sent :
    (handler : ℕ → ℕ → Endpoints × Comm → Endpoints × Comm) (now k : ℕ) (value : List ℕ)
    (eps eps' : Endpoints) (c c' : Comm) (source : Source) (obj : Owner)
    → source_update handler now k value (eps, c) ≡ (eps', c')
    → get_elem? eps'.sources k ≡ some source
    → source.ep.obj ≡ some obj
    → Sent eps' now k source.ep obj c' (source_update_str handler now k value (eps, c)).1
unfolding source_update_str
source_update_str-Sent handler now k value eps eps' c c' source obj updated at owned =
    subst (λ (w : Endpoints × Comm). Sent eps' now k source.ep obj c' w.1)
      (sym (
        ap (send_updated handler now k) updated
        ∙ send_updated-some handler eps' now k source c' at))
      (send_source-Sent handler eps' now k source.ep obj c' owned)
