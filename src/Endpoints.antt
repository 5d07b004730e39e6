-- ===== src/Endpoints.antt =====
-- endpoints.go: the addresses behind each service port, the round robin over them, and the handler
-- of Endpoints objects.
pub mod Invariant
pub mod RoundRobin
pub mod Update
pub mod Report
pub mod Tests
use minke.Base.{
  ℕ, zero, suc, ◌+◌, ◌%◌, ◌^◌, Bool, true, false, ◌&&◌, List, [], ◌∷◌, ◌++◌, Option, none, some,
  if◌then◌else◌, Eq, ◌==◌, ℕ_eq, List_ℕ-eq, List_ℕ-discrete, length, get_elem?,
}
use minke.Base.Int.{ℤ, pos, ℤ-eq, ℤ-discrete}
use minke.GoText.{GoString, bytes, itoa}
use minke.GoMap.{GoMap, lookup, insert, copy, delete_if}
use minke.Panic.{Run, ret, throw, runtime}
use minke.Kube.{
  IntOrString, IngressBackend, EndpointPort, EndpointSubset, KubeEndpoints, Object, nil, ingress,
  service, secret, endpoints, type_name, GoError,
}

pub record ServiceKey : Type 0 where
  pub namespace : GoString
  pub name : GoString
  pub port_name : GoString

unfoldable pub ServiceKey-discrete : Discrete ServiceKey
unfolding List_ℕ-discrete
ServiceKey-discrete = hlevel List_ℕ-discrete

instance abbrev pub ServiceKey-eq : Eq ServiceKey
ServiceKey-eq = record { discrete = ServiceKey-discrete }

pub record ServiceAddr : Type 0 where
  pub addr : GoString
  pub port : ℤ

-- `index` is a uint64.
pub record ServiceAddrSet : Type 0 where
  pub addrs : List ServiceAddr
  pub index : ℕ

-- Each `*serviceAddrSet` stands under one key, so the map holds the sets themselves.
abbrev pub EpsSet : Type 0
EpsSet = GoMap ServiceKey ServiceAddrSet

abbrev pub u64_mod : ℕ
u64_mod = 2 ^ 64

unfoldable pub service_key_string : ServiceKey → GoString
service_key_string sk =
    if sk.port_name == []
    then sk.namespace ++ (bytes "/" ++ sk.name)
    else sk.namespace ++ (bytes "/" ++ (sk.name ++ (bytes ":" ++ sk.port_name)))

unfoldable pub service_addr_string : ServiceAddr → GoString
service_addr_string sa =
    if sa.port == pos 0 then sa.addr else sa.addr ++ (bytes ":" ++ itoa sa.port)

-- `strmap[kstr] = append(strmap[kstr], v.String())` for each address.
unfoldable pub report_addrs :
    GoString → List ServiceAddr → GoMap GoString (List GoString) → GoMap GoString (List GoString)
unfolding service_addr_string
report_addrs kstr [] strmap = strmap
report_addrs kstr (v ∷ vs) strmap = elim (lookup kstr strmap) [
  | none ↦ report_addrs kstr vs (insert kstr (service_addr_string v ∷ []) strmap)
  | some strs ↦ report_addrs kstr vs (insert kstr (strs ++ service_addr_string v ∷ []) strmap)
]

-- The loop of `epsSet.MarshalJSON`; the map that it makes goes to package json.
unfoldable pub report : EpsSet → GoMap GoString (List GoString) → GoMap GoString (List GoString)
unfolding report_addrs service_key_string
report [] strmap = strmap
report ((k, vs) ∷ eps) strmap = report eps (report_addrs (service_key_string k) vs.addrs strmap)

unfoldable pub backend_to_service_key : GoString → IngressBackend → ServiceKey
backend_to_service_key namespace b =
    if b.service_port.int_val == pos 0
    then record { namespace = namespace; name = b.service_name; port_name = b.service_port.string }
    else record { namespace = namespace; name = b.service_name; port_name = [] }

abbrev pub no_addr : ServiceAddr
no_addr = record { addr = []; port = pos 0 }

-- `addrs[count%uint64(len(addrs))]`
unfoldable pub pick : List ServiceAddr → ℕ → Run ServiceAddr
pick addrs count =
    if length addrs == 0
    then throw runtime
    else elim (get_elem? addrs (count % length addrs)) [ none ↦ throw runtime | some a ↦ ret a ]

unfoldable pub get_next_addr : EpsSet → ServiceKey → EpsSet × Run ServiceAddr
unfolding pick
get_next_addr eps key = elim (lookup key eps) [
  | none ↦ (eps, ret no_addr)
  | some set ↦
      let count = (set.index + 1) % u64_mod in
      (insert key (record set { index = count }) eps, pick set.addrs count)
]

-- A missing key gives a nil set, whose field cannot be read.
unfoldable pub get_active_addrs : EpsSet → ServiceKey → Run (List ServiceAddr)
get_active_addrs eps key = elim (lookup key eps) [ none ↦ throw runtime | some set ↦ ret set.addrs ]

-- `if addrsset[key] == nil { … }; addrsset[key].addrs = append(addrsset[key].addrs, a)`
unfoldable pub append_addr : ServiceKey → ServiceAddr → EpsSet → EpsSet
append_addr key a addrsset = elim (lookup key addrsset) [
  | none ↦ insert key (record { addrs = a ∷ []; index = 0 }) addrsset
  | some set ↦ insert key (record set { addrs = set.addrs ++ a ∷ [] }) addrsset
]

-- One of the two loops over `set.Addresses`.
unfoldable pub append_addrs : ServiceKey → ℤ → List GoString → EpsSet → EpsSet
unfolding append_addr
append_addrs key port [] addrsset = addrsset
append_addrs key port (ip ∷ ips) addrsset =
    append_addrs key port ips (append_addr key (record { addr = ip; port = port }) addrsset)

-- The loop over `set.Ports`.
unfoldable pub append_ports :
    GoString → GoString → List GoString → List EndpointPort → EpsSet → EpsSet
unfolding append_addrs
append_ports namespace name ips [] addrsset = addrsset
append_ports namespace name ips (p ∷ ps) addrsset = append_ports namespace name ips ps (
    append_addrs (record { namespace = namespace; name = name; port_name = p.name }) p.port ips
      addrsset)

-- The loop over `eps.Subsets`.
unfoldable pub append_subsets : GoString → GoString → List EndpointSubset → EpsSet → EpsSet
unfolding append_ports
append_subsets namespace name [] addrsset = addrsset
append_subsets namespace name (set ∷ sets) addrsset = append_subsets namespace name sets (
    append_ports namespace name set.addresses set.ports (
      append_addrs (record { namespace = namespace; name = name; port_name = [] }) (pos 0)
        set.addresses addrsset))

-- The new set of addresses, and the error.
unfoldable pub add_item : EpsSet → Object → EpsSet × Option GoError
unfolding append_subsets
add_item set (endpoints eps) =
    (copy (append_subsets eps.meta.namespace eps.meta.name eps.subsets []) set, none)
add_item set obj = (set, some (bytes "interface was not an ingress " ++ type_name obj))

unfoldable pub clear_endpoints : GoString → GoString → EpsSet → EpsSet
clear_endpoints name namespace set =
    delete_if (λ key. key.namespace == namespace && key.name == name) set

-- The arguments stand as the source has them, the namespace in the place of the name.
unfoldable pub del_item : EpsSet → Object → EpsSet × Option GoError
unfolding clear_endpoints
del_item set (endpoints eps) = (clear_endpoints eps.meta.namespace eps.meta.name set, none)
del_item set obj = (set, some (bytes "interface was not an ingress " ++ type_name obj))
