-- ===== src/Kube.antt =====
-- The objects of the Kubernetes API that the program reads, with the fields that it reads of them,
-- and the errors that its handlers return.
use minke.Base.{List, Option}
use minke.Base.Int.{ℤ}
use minke.GoText.{GoString, bytes}
use minke.GoMap.{GoMap}

pub record ObjectMeta : Type 0 where
  pub namespace : GoString
  pub name : GoString
  pub annotations : GoMap GoString GoString

-- `string` is what the method String returns.
pub record IntOrString : Type 0 where
  pub int_val : ℤ
  pub string : GoString

pub record IngressBackend : Type 0 where
  pub service_name : GoString
  pub service_port : IntOrString

pub record HttpIngressPath : Type 0 where
  pub path : GoString
  pub path_type : Option GoString
  pub backend : IngressBackend

-- `http` is none where the pointer to the paths is nil.
pub record SpecRule : Type 0 where
  pub host : GoString
  pub http : Option (List HttpIngressPath)

pub record IngressTls : Type 0 where
  pub hosts : List GoString
  pub secret_name : GoString

pub record KubeIngress : Type 0 where
  pub meta : ObjectMeta
  pub ingress_class_name : Option GoString
  pub backend : Option IngressBackend
  pub rules : List SpecRule
  pub tls : List IngressTls

pub record EndpointPort : Type 0 where
  pub name : GoString
  pub port : ℤ

-- `addresses` holds the IP of each address.
pub record EndpointSubset : Type 0 where
  pub addresses : List GoString
  pub ports : List EndpointPort

pub record KubeEndpoints : Type 0 where
  pub meta : ObjectMeta
  pub subsets : List EndpointSubset

pub record ServicePort : Type 0 where
  pub name : GoString
  pub app_protocol : Option GoString

pub record KubeService : Type 0 where
  pub meta : ObjectMeta
  pub ports : List ServicePort

-- `contents` is the field Data; none is the nil map.
pub record KubeSecret : Type 0 where
  pub meta : ObjectMeta
  pub contents : Option (GoMap GoString GoString)

-- What an `interface{}` holds when a handler receives it; `nil` is the nil interface.
pub data Object : Type 0 where
  nil : Object
  ingress : KubeIngress → Object
  service : KubeService → Object
  secret : KubeSecret → Object
  endpoints : KubeEndpoints → Object

-- The verb %T of fmt.
abbrev pub type_name : Object → GoString
type_name nil = bytes "<nil>"
type_name (ingress _) = bytes "*v1beta1.Ingress"
type_name (service _) = bytes "*v1.Service"
type_name (secret _) = bytes "*v1.Secret"
type_name (endpoints _) = bytes "*v1.Endpoints"

-- An error is its message; a handler that returns nil returns none.
abbrev pub GoError : Type 0
GoError = GoString
