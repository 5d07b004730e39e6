-- ===== src/Status.antt =====
-- The MarshalJSON methods of ingress.go, secrets.go, endpoints.go and controller.go, and the page that
-- shows what they give.
--
-- A method hands a value to package json, which calls the methods of the values inside it. A nil
-- slice or map is null. The groups, the rules and the defaults are slices that are nil when they are
-- empty; the two maps are nil until they are first written to, which `made` tells.
pub mod Errors
pub mod Tests
use minke.Base.{
  ℕ, Bool, true, false, List, [], ◌∷◌, ◌++◌, Option, none, some, ◌⊎◌, inl, inr, if◌then◌else◌, ◌==◌,
  List_ℕ-eq,
}
use minke.Base.Int.{ℤ}
use minke.GoText.{GoString, bytes}
use minke.GoMap.{GoMap}
use minke.Kube.{GoError}
use minke.Endpoints.{
  ServiceKey, service_key_string, ServiceAddr, service_addr_string, EpsSet, report,
}
use minke.Ingress.{PathType, path_type_string, IngressRule, Ingress, IngressHostGroup, IngressSet}
use minke.Secrets.{IngressKey, SecretKey, Certificate, CertMapEntry, CertMap}
use minke.Certificates.{HostCerts}

mutual
  pub data Json : Type 0 where
    null : Json
    bool : Bool → Json
    number : ℤ → Json
    text : GoString → Json
    array : Elements → Json
    object : Fields → Json

  pub data Elements : Type 0 where
    end : Elements
    element : Json → Elements → Elements

  pub data Fields : Type 0 where
    no_fields : Fields
    field : GoString → Json → Fields → Fields

-- `strmap[k] = v`
abbrev pub set_field : GoString → Json → Fields → Fields
set_field k v no_fields = field k v no_fields
set_field k v (field j w fs) = if j == k then field k v fs else field j w (set_field k v fs)

abbrev pub field_at : GoString → Fields → Option Json
field_at k no_fields = none
field_at k (field j v fs) = if j == k then some v else field_at k fs

abbrev pub elements_of {ℓ} : {A : Type ℓ} → (A → Json) → List A → Elements
elements_of f [] = end
elements_of f (a ∷ xs) = element (f a) (elements_of f xs)

-- A slice that is nil when it is empty.
abbrev pub slice {ℓ} : {A : Type ℓ} → (A → Json) → List A → Json
slice f [] = null
slice f (a ∷ xs) = array (elements_of f (a ∷ xs))

abbrev pub fields_of {ℓ} : {A : Type ℓ} → (A → Json) → GoMap GoString A → Fields
fields_of f [] = no_fields
fields_of f ((k, a) ∷ m) = field k (f a) (fields_of f m)

abbrev pub made_map {ℓ} : {A : Type ℓ} → Bool → (A → Json) → GoMap GoString A → Json
made_map made f m = if made then object (fields_of f m) else null

unfoldable pub path_type_json : PathType → Json
path_type_json pt = text (path_type_string pt)

unfoldable pub service_key_json : ServiceKey → Json
service_key_json sk = text (service_key_string sk)

unfoldable pub service_addr_json : ServiceAddr → Json
service_addr_json sa = text (service_addr_string sa)

unfoldable pub rule_json : IngressRule → Json
unfolding path_type_json service_key_json
rule_json ir =
    let strmap = field (bytes "backend") (service_key_json ir.backend) (
      field (bytes "path") (text ir.path) (
        field (bytes "pathType") (path_type_json ir.path_type)
          (field (bytes "host") (text ir.host) no_fields))) in
    object (if ir.host == [] then set_field (bytes "host") (text (bytes "*")) strmap else strmap)

-- `strmap[k] = *v`, if v is not nil.
abbrev pub set_some {ℓ} : {A : Type ℓ} → GoString → (A → Json) → Option A → Fields → Fields
set_some k f none fs = fs
set_some k f (some v) fs = set_field k (f v) fs

-- The same for a slice that is not empty.
abbrev pub set_list : GoString → List GoString → Fields → Fields
set_list k [] fs = fs
set_list k (t ∷ ts) fs = set_field k (array (elements_of text (t ∷ ts))) fs

abbrev pub slashed : GoString → GoString → GoString
slashed namespace name = namespace ++ (bytes "/" ++ name)

unfoldable pub ingress_json : Ingress → Json
unfolding rule_json
ingress_json ing =
    let strmap = field (bytes "ingress") (text (slashed ing.namespace ing.name)) (
      field (bytes "rules") (slice rule_json ing.rules)
        (field (bytes "httpRedir") (bool ing.http_redir) no_fields)) in
    object (
      set_some (bytes "priority") number ing.priority
        (set_some (bytes "defaultBackend") service_key_json ing.default_backend strmap))

unfoldable pub ingress_set_json : Bool → IngressSet → Json
unfolding ingress_json
ingress_set_json made set = made_map made (slice ingress_json) set

unfoldable pub eps_set_json : EpsSet → Json
eps_set_json eps = object (fields_of (slice text) (report eps []))

-- What package json makes of an instant and of an error.
module _ (time_json : ℤ → Json) (error_json : GoError → Json) where
  abbrev pub set_cert_fields : Option Certificate → Fields → Fields
  set_cert_fields none strmap = strmap
  set_cert_fields (some cert) strmap =
      let dated = set_field (bytes "subject") (text cert.leaf.subject) (
        set_field (bytes "issuer") (text cert.leaf.issuer) (
          set_field (bytes "notAfter") (time_json cert.leaf.not_after)
            (set_field (bytes "notBefore") (time_json cert.leaf.not_before) strmap))) in
      set_list (bytes "ipAddresses") cert.leaf.ip_addresses
        (set_list (bytes "dnsName") cert.leaf.dns_names dated)

  unfoldable pub entry_fields : CertMapEntry → Fields
  entry_fields cme =
      let strmap =
        field (bytes "ingress") (text (slashed cme.ing.namespace cme.ing.name))
          (field (bytes "secret") (text (slashed cme.sec.namespace cme.sec.name)) no_fields) in
      set_some (bytes "error") error_json cme.err (set_cert_fields cme.cert strmap)

  unfoldable pub cert_map_json : Bool → CertMap → Json
  unfolding entry_fields
  cert_map_json made cm = object (
      field (bytes "ingressCerts")
        (made_map made (λ cmes. array (elements_of (λ cme. object (entry_fields cme)) cmes)) cm.set)
        (field (bytes "defaultCerts") (slice (λ cme. object (entry_fields cme)) cm.defaults)
          no_fields))

  unfoldable pub controller_json : Bool → Bool → IngressSet → CertMap → EpsSet → Json
  unfolding cert_map_json ingress_set_json eps_set_json
  controller_json ings_made certs_made ings cm eps = object (
      field (bytes "ingresses") (ingress_set_json ings_made ings) (
        field (bytes "certs") (cert_map_json certs_made cm)
          (field (bytes "endpoints") (eps_set_json eps) no_fields)))

-- The page, where `marshal` is what package json makes of a value.
unfoldable pub serve_status_http : (Json → GoError ⊎ GoString) → Json → ℕ × GoString
serve_status_http marshal status = elim (marshal status) [
  | inl err ↦ (200, bytes "{\"error\": \"status failed, see logs\"}")
  | inr bs ↦ (200, bs)
]
