-- ===== src/IngressHandler.antt =====
-- ingress.go, the handler `ingUpdater`: whether an ingress is ours, what its rules are turned into,
-- and what it puts into the ingress set and the certificate map.
pub mod Class
pub mod Rules
pub mod Groups
pub mod Effects
pub mod Sections
pub mod Coherence
pub mod Sequences
pub mod Wanted
pub mod Refinement
pub mod Stems
pub mod Routing
pub mod Tests
use minke.Base.{
  ℕ, ◌-◌, Bool, true, false, ◌&&◌, not, List, [], ◌∷◌, ◌++◌, Option, none, some, ltb, if◌then◌else◌,
  ◌==◌, ℕ_eq, List_ℕ-eq, length, take, get_elem?,
}
use minke.GoText.{GoString, bytes, has_prefix, parse_bool}
use minke.GoMap.{GoMap, lookup, insert}
use minke.Panic.{Run, ret, throw, runtime, ◌>>=◌}
use minke.Kube.{
  HttpIngressPath, SpecRule, IngressTls, KubeIngress, Object, nil, ingress, service, secret,
  endpoints, type_name, GoError,
}
use minke.Endpoints.{backend_to_service_key}
use minke.Ingress.{
  PathType, glob, prefix, exact, re2, Regexp, IngressRule, Ingress, IngressHostGroup, IngressSet,
  group_at, update, clear,
}
use minke.Secrets.{IngressKey, SecretKey, Platform, Certs}
use minke.Certificates.{update_ingress}
use minke.Services.{annotation}

-- The settings of the controller that the handler reads.
pub record Settings : Type 0 where
  pub class : GoString
  pub default_http_redir : Bool

-- What the handler writes to.
pub record State : Type 0 where
  pub ings : IngressSet
  pub certs : Certs

-- The class of an ingress: the field of its spec, or else its annotation.
unfoldable pub class_of : KubeIngress → GoString
class_of ing = elim ing.ingress_class_name [
  | none ↦ annotation (bytes "kubernetes.io/ingress.class") ing.meta.annotations
  | some class ↦ class
]

unfoldable pub our_class : Settings → KubeIngress → Bool
unfolding class_of
our_class c ing =
    if not (c.class == []) && not (class_of ing == c.class)
    then false
    else if c.class == [] && not (class_of ing == [])
    then false
    else true

abbrev pub redir_ann : GoString
redir_ann = bytes "ingress.kubernetes.io/ssl-redirect"

-- A value that does not parse is false.
abbrev pub parsed_redir : GoString → Bool
parsed_redir v = elim (parse_bool v) [ none ↦ false | some redir ↦ redir ]

-- The loop over the annotations.
unfoldable pub redirect_of : Bool → GoMap GoString GoString → Bool
redirect_of do_redir [] = do_redir
redirect_of do_redir ((k, v) ∷ anns) =
    redirect_of (if k == redir_ann then parsed_redir v else do_redir) anns

-- `path[len(path)-1] == '/'`, where the path is not empty.
abbrev pub ends_with_slash : GoString → Bool
ends_with_slash path = elim (get_elem? path (length path - 1)) [ none ↦ false | some c ↦ c == b'/' ]

abbrev pub or_text : GoString → GoString → GoString
or_text path d = if path == [] then d else path

-- What a path of the spec is turned into: a type, a path and an expression.
pub record Compiled : Type 0 where
  pub path_type : PathType
  pub path : GoString
  pub re : Option Regexp

abbrev pub plain : PathType → GoString → Option Compiled
plain pt path = some (record { path_type = pt; path = path; re = none })

-- The path of a Prefix rule, less one slash at its end.
unfoldable pub trim_slash : GoString → GoString
trim_slash path =
    if ltb 1 (length path) && ends_with_slash path then take (length path - 1) path else path

unfoldable pub anchored : GoString → GoString
anchored path = if has_prefix path (bytes "^") then path else bytes "^" ++ path

-- `compile` is regexp.CompilePOSIX, whose error is none.
module _ (compile : GoString → Option Regexp) where
  unfoldable pub compile_re : GoString → Option Compiled
  compile_re path = elim (compile path) [
    | none ↦ none
    | some re ↦ some (record { path_type = re2; path = path; re = some re })
  ]

  -- The switch on the path type; none is `continue`.
  unfoldable pub compile_path : Option GoString → GoString → Option Compiled
  unfolding compile_re trim_slash anchored
  compile_path none path = if path == [] then plain prefix (bytes "/") else plain glob path
  compile_path (some pt) path =
      if pt == bytes "Prefix"
      then plain prefix (trim_slash (or_text path (bytes "/")))
      else if pt == bytes "Exact"
      then plain exact (or_text path (bytes "/"))
      else if pt == bytes "ImplementationSpecific"
      then compile_re (anchored (or_text path (bytes "/")))
      else if pt == bytes "re"
      then compile_re (anchored (or_text path (bytes "/")))
      else if pt == []
      then plain glob (or_text path (bytes "/*"))
      else none

  abbrev pub rule_of : GoString → GoString → HttpIngressPath → Compiled → IngressRule
  rule_of namespace host ingp c = record {
    host = host;
    re = c.re;
    path_type = c.path_type;
    path = c.path;
    backend = backend_to_service_key namespace ingp.backend;
  }

  -- The loop over `ingr.HTTP.Paths`.
  unfoldable pub add_paths :
      GoString → GoString → List HttpIngressPath → List IngressRule → List IngressRule
  unfolding compile_path
  add_paths namespace host [] rules = rules
  add_paths namespace host (ingp ∷ paths) rules = elim (compile_path ingp.path_type ingp.path) [
    | none ↦ add_paths namespace host paths rules
    | some c ↦ add_paths namespace host paths (rules ++ rule_of namespace host ingp c ∷ [])
  ]

  abbrev pub ingress_of : KubeIngress → Bool → List IngressRule → Ingress
  ingress_of ing do_redir rules = record {
    name = ing.meta.name;
    namespace = ing.meta.namespace;
    priority = none;
    default_backend = elim ing.backend [
      | none ↦ none
      | some b ↦ some (backend_to_service_key ing.meta.namespace b)
    ];
    rules = rules;
    http_redir = do_redir;
  }

  -- The loop over `ing.Spec.Rules`, which makes `newset` and `hosts`. A rule with no HTTP part has a
  -- nil pointer, whose paths cannot be read.
  unfoldable pub add_rules :
      KubeIngress
      → Bool
      → List SpecRule
      → IngressSet
      → List GoString
      → Run (IngressSet × List GoString)
  unfolding add_paths
  add_rules ing do_redir [] newset hosts = ret (newset, hosts)
  add_rules ing do_redir (ingr ∷ rules) newset hosts = elim ingr.http [
    | none ↦ throw runtime
    | some paths ↦
        let ning = ingress_of ing do_redir (add_paths ing.meta.namespace ingr.host paths []) in
        add_rules ing do_redir rules
          (insert ingr.host (group_at ingr.host newset ++ ning ∷ []) newset)
          (if ingr.host == [] then hosts else hosts ++ ingr.host ∷ [])
  ]

  -- The loop over `ing.Spec.TLS`.
  unfoldable pub add_tls : Platform → KubeIngress → List GoString → List IngressTls → Certs → Certs
  add_tls p ing hosts [] certs = certs
  add_tls p ing hosts (t ∷ ts) certs = add_tls p ing hosts ts (
      update_ingress p certs (record { namespace = ing.meta.namespace; name = ing.meta.name })
        (record { namespace = ing.meta.namespace; name = t.secret_name })
        (if length t.hosts == 0 then hosts else []))

  module _ (sort : (Ingress → Ingress → Bool) → IngressHostGroup → IngressHostGroup) where
    -- The part of addItem after the class is checked.
    unfoldable pub add_ours : Platform → Settings → State → KubeIngress → Run State
    unfolding redirect_of add_rules add_tls
    add_ours p c st ing = do
      (newset, hosts) ←
          add_rules ing (redirect_of c.default_http_redir ing.meta.annotations) ing.rules [] []
      ret (record {
        ings = update sort ing.meta.name ing.meta.namespace newset st.ings;
        certs = add_tls p ing hosts ing.tls st.certs;
      })

    unfoldable pub add_item : Platform → Settings → State → Object → Run (State × Option GoError)
    unfolding our_class add_ours
    add_item p c st (ingress ing) =
        if our_class c ing then add_ours p c st ing >>= (λ st'. ret (st', none)) else ret (st, none)
    add_item p c st obj = ret (st, some (bytes "interface was not an ingress " ++ type_name obj))

unfoldable pub del_item : State → Object → State × Option GoError
del_item st (ingress ing) =
    (record st { ings = clear ing.meta.name ing.meta.namespace st.ings }, none)
del_item st obj = (st, some (bytes "interface was not an ingress " ++ type_name obj))
