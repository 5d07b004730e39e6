-- ===== src/Services.antt =====
-- services.go: the application protocols of each service's ports, the handler of services, and the
-- scheme of a backend.
pub mod Scheme
pub mod Tests
use minke.Base.{
  Bool, true, false, ◌||◌, List, [], ◌∷◌, Option, none, some, if◌then◌else◌, Eq, ◌==◌,
  List_ℕ-discrete, List_ℕ-eq,
}
use minke.GoText.{GoString, bytes}
use minke.GoMap.{GoMap, lookup, insert, delete}
use minke.Kube.{ServicePort, KubeService, Object, nil, ingress, service, secret, endpoints, GoError}
use minke.Endpoints.{ServiceKey}

pub record SvcKey : Type 0 where
  pub namespace : GoString
  pub name : GoString

unfoldable pub SvcKey-discrete : Discrete SvcKey
unfolding List_ℕ-discrete
SvcKey-discrete = hlevel List_ℕ-discrete

instance abbrev pub SvcKey-eq : Eq SvcKey
SvcKey-eq = record { discrete = SvcKey-discrete }

pub record SvcItem : Type 0 where
  pub svc : KubeService
  pub app_protos : GoMap GoString GoString

abbrev pub Services : Type 0
Services = GoMap SvcKey SvcItem

abbrev pub ann_app_protos : GoString
ann_app_protos = bytes "service.alpha.kubernetes.io/app-protocol"

-- The value of a key, or the empty string.
abbrev pub annotation : GoString → GoMap GoString GoString → GoString
annotation k m = elim (lookup k m) [ none ↦ [] | some v ↦ v ]

-- The loop over the ports.
unfoldable pub port_protos : List ServicePort → GoMap GoString GoString → GoMap GoString GoString
port_protos [] app_protos = app_protos
port_protos (p ∷ ps) app_protos = elim p.app_protocol [
  | none ↦ port_protos ps app_protos
  | some proto ↦ port_protos ps (insert p.name proto app_protos)
]

-- `unmarshal` gives what json.Unmarshal leaves in the map, whose error is not read.
unfoldable pub add_item :
    (GoString → GoMap GoString GoString) → Services → Object → Services × Option GoError
unfolding port_protos
add_item unmarshal svcs (service sobj) =
    let annotated = unmarshal (annotation ann_app_protos sobj.meta.annotations) in
    (
      insert (record { namespace = sobj.meta.namespace; name = sobj.meta.name })
          (record { svc = sobj; app_protos = port_protos sobj.ports annotated }) svcs,
      none,
    )
add_item unmarshal svcs _ = (svcs, none)

-- The handler asserts that it is given a secret.
unfoldable pub del_item : Services → Object → Services × Option GoError
del_item svcs (secret sobj) =
    (delete (record { namespace = sobj.meta.namespace; name = sobj.meta.name }) svcs, none)
del_item svcs _ = (svcs, none)

-- The switch on the protocol.
unfoldable pub proto_scheme : GoString → GoString
proto_scheme proto =
    if proto == bytes "HTTP" || proto == bytes "http"
    then bytes "http"
    else if proto == bytes "HTTP2" || proto == bytes "http2"
    then bytes "http2"
    else if proto == bytes "HTTPS"
    then bytes "https"
    else bytes "http"

unfoldable pub get_service_port_scheme : Services → ServiceKey → GoString
unfolding proto_scheme
get_service_port_scheme svcs key =
    elim (lookup (record { namespace = key.namespace; name = key.name }) svcs) [
      | none ↦ bytes "http"
      | some v ↦ elim (lookup key.port_name v.app_protos) [
        | none ↦ bytes "http"
        | some proto ↦ proto_scheme proto
      ]
    ]
