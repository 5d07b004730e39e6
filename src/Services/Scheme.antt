-- ===== src/Services/Scheme.antt =====
-- The scheme of a backend, from what the service's object declares.
use minke.Base.{
  ◌&&◌, List, [], ◌∷◌, Option, none, some, if◌then◌else◌, ◌==◌, List_ℕ-eq, ◌≡◌, ◌⊎◌, inl, inr, refl,
  arith, ap, ◌∙◌, Option-cases,
}
use minke.GoText.{GoString, bytes}
use minke.GoMap.{GoMap, lookup, insert}
use minke.GoMap.Laws.{lookup-insert, or_else}
use minke.Kube.{ServicePort, KubeService, service}
use minke.Endpoints.{ServiceKey}
use minke.Services.{
  SvcKey, SvcKey-eq, SvcItem, Services, ann_app_protos, annotation, port_protos, add_item, del_item,
  proto_scheme, get_service_port_scheme,
}

-- The protocol that the last port of a name declares, if one does.
abbrev pub declared : GoString → List ServicePort → Option GoString
declared name [] = none
declared name (p ∷ ps) =
    or_else (declared name ps) (if p.name == name then p.app_protocol else none)

lookup-port_protos :
    (name : GoString) (ps : List ServicePort) (m : GoMap GoString GoString)
    → lookup name (port_protos ps m) ≡ or_else (declared name ps) (lookup name m)
unfolding port_protos
lookup-port_protos name [] m = refl
lookup-port_protos name (p ∷ ps) m = elim (Option-cases p.app_protocol) [
  | inl e ↦ ground (arith, lookup-port_protos name ps m)
  | inr (proto, e) ↦
      ground (
        arith,
        lookup-port_protos name ps (insert p.name proto m),
        lookup-insert p.name name proto m,
      )
]

-- The scheme of a protocol, http where there is none.
abbrev pub scheme_or_http : Option GoString → GoString
scheme_or_http none = bytes "http"
scheme_or_http (some proto) = proto_scheme proto

-- The scheme of a port name in an item.
abbrev item_scheme : GoString → Option SvcItem → GoString
item_scheme port none = bytes "http"
item_scheme port (some v) = scheme_or_http (lookup port v.app_protos)

scheme-item_scheme :
    (svcs : Services) (key : ServiceKey)
    → get_service_port_scheme svcs key
      ≡ item_scheme key.port_name
          (lookup (record { namespace = key.namespace; name = key.name }) svcs)
unfolding get_service_port_scheme
scheme-item_scheme svcs key = ground arith

SvcKey-beq : (a b : SvcKey) → (a == b) ≡ (a.namespace == b.namespace && a.name == b.name)
SvcKey-beq a b = ground arith

-- After a service is taken in, the scheme of a backend of it is that of the protocol that the last
-- port of the backend's port name with a protocol declares, or else of the protocol in the
-- annotation, or else http; the schemes of the backends of other services are as before.
pub scheme-add_item :
    (unmarshal : GoString → GoMap GoString GoString) (svcs : Services) (s : KubeService)
    (key : ServiceKey)
    → get_service_port_scheme (add_item unmarshal svcs (service s)).0 key ≡ (
        if s.meta.namespace == key.namespace && s.meta.name == key.name
        then scheme_or_http (
            or_else
              (declared key.port_name s.ports)
              (lookup key.port_name (unmarshal (annotation ann_app_protos s.meta.annotations))))
        else get_service_port_scheme svcs key)
unfolding add_item
scheme-add_item unmarshal svcs s key =
    let k : SvcKey = record { namespace = s.meta.namespace; name = s.meta.name } in
    let k' : SvcKey = record { namespace = key.namespace; name = key.name } in
    let annotated = unmarshal (annotation ann_app_protos s.meta.annotations) in
    let item : SvcItem = record { svc = s; app_protos = port_protos s.ports annotated } in
    scheme-item_scheme (insert k item svcs) key
    ∙ (ap (item_scheme key.port_name) (lookup-insert k k' item svcs)
        ∙ ground (
          arith,
          SvcKey-beq k k',
          lookup-port_protos key.port_name s.ports annotated,
          scheme-item_scheme svcs key,
        ))

-- The scheme is one of three, whatever the services declare.
pub scheme_cases :
    (svcs : Services) (key : ServiceKey)
    → (get_service_port_scheme svcs key ≡ bytes "http")
      ⊎ ((get_service_port_scheme svcs key ≡ bytes "http2")
          ⊎ (get_service_port_scheme svcs key ≡ bytes "https"))
unfolding get_service_port_scheme
scheme_cases svcs key = ground arith

-- Deleting a service takes nothing away, and reports no error.
pub del_item_service :
    (svcs : Services) (s : KubeService) → del_item svcs (service s) ≡ (svcs, none)
unfolding del_item
del_item_service svcs s = refl
