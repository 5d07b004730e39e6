-- ===== src/Endpoints/Update.antt =====
-- What the handlers make of an Endpoints object, against a direct description of the addresses that
-- the object publishes under a key.
use mathlib.Core.List.{append-nil, append_assoc}
use minke.Base.{
  ◌&&◌, List, [], ◌∷◌, ◌++◌, Option, none, some, map, if◌then◌else◌, ◌==◌, List_ℕ-eq, ◌≡◌, ◌≢◌,
  refl, arith, Option-cases, inl, inr, Bool-cases, ap, ◌∙◌, sym, ==_iff,
}
use minke.Base.Int.{ℤ, pos}
use minke.GoText.{GoString}
use minke.GoMap.{lookup, insert}
use minke.GoMap.Laws.{lookup-insert, lookup-copy, lookup-delete_if, or_else}
use minke.Kube.{KubeEndpoints, EndpointSubset, EndpointPort, endpoints}
use minke.Endpoints.{
  ServiceKey, ServiceKey-eq, ServiceAddr, ServiceAddrSet, EpsSet, append_addr, append_addrs,
  append_ports, append_subsets, add_item, del_item,
}
use minke.Endpoints.Invariant.{append_subsets-IsWellFormed, empty-IsWellFormed}

abbrev pub port_key : GoString → GoString → GoString → ServiceKey
port_key namespace name port = record { namespace = namespace; name = name; port_name = port }

abbrev pub addrs_on : ℤ → List GoString → List ServiceAddr
addrs_on port = map (λ ip. record { addr = ip; port = port })

-- The addresses that the named ports of a subset publish under a key.
abbrev pub published_ports :
    GoString → GoString → List GoString → List EndpointPort → ServiceKey → List ServiceAddr
published_ports namespace name ips [] key = []
published_ports namespace name ips (p ∷ ps) key =
    (if port_key namespace name p.name == key then addrs_on p.port ips else [])
    ++ published_ports namespace name ips ps key

-- The addresses that the subsets publish under a key: under the key with no port, each address with
-- port 0; under the key of each port, each address with that port.
abbrev pub published : GoString → GoString → List EndpointSubset → ServiceKey → List ServiceAddr
published namespace name [] key = []
published namespace name (set ∷ sets) key =
    (if port_key namespace name [] == key then addrs_on (pos 0) set.addresses else [])
    ++ (published_ports namespace name set.addresses set.ports key
        ++ published namespace name sets key)

-- A set for the addresses, if there are any.
abbrev pub fresh_set : List ServiceAddr → Option ServiceAddrSet
fresh_set [] = none
fresh_set (a ∷ as') = some (record { addrs = a ∷ as'; index = 0 })

fresh_set-append_addr :
    (l : List ServiceAddr) (a : ServiceAddr)
    → fresh_set (l ++ a ∷ []) ≡ some (record { addrs = l ++ a ∷ []; index = 0 })
fresh_set-append_addr [] a = refl
fresh_set-append_addr (b ∷ l) a = refl

append_addr_self :
    (key : ServiceKey) (a : ServiceAddr) (m : EpsSet) (l : List ServiceAddr)
    → lookup key m ≡ fresh_set l
    → append_addr key a m ≡ insert key (record { addrs = l ++ a ∷ []; index = 0 }) m
unfolding append_addr
append_addr_self key a m [] e = rw (e, append_addr)
append_addr_self key a m (b ∷ l) e = rw (e, append_addr)

append_addr_other :
    (key k : ServiceKey) (a : ServiceAddr) (m : EpsSet)
    → key ≢ k
    → lookup k (append_addr key a m) ≡ lookup k m
unfolding append_addr
append_addr_other key k a m ne = elim (Option-cases (lookup key m)) [
  | inl e ↦ rw (e, append_addr) (lookup-insert key k _ m ∙ ground arith)
  | inr (set, e) ↦ rw (e, append_addr) (lookup-insert key k _ m ∙ ground arith)
]

-- The addresses under one key, if it is the key that is looked up.
abbrev pub under : ServiceKey → ServiceKey → List ServiceAddr → List ServiceAddr
under key k addrs = if key == k then addrs else []

append_addr_lem :
    (key k : ServiceKey) (a : ServiceAddr) (m : EpsSet) (l : List ServiceAddr)
    → lookup k m ≡ fresh_set l
    → lookup k (append_addr key a m) ≡ fresh_set (l ++ under key k (a ∷ []))
append_addr_lem key k a m l e = elim (Bool-cases (key == k)) [
  | inl t ↦
      let same : key ≡ k = (==_iff key k).0 t in
      rw t (
        ap (lookup k) (append_addr_self key a m l (ap (λ j. lookup j m) same ∙ e))
        ∙ (lookup-insert key k _ m ∙ (rw t (sym (fresh_set-append_addr l a)))))
  | inr t ↦
      rw (t, append-nil) (append_addr_other key k a m (λ same. ground (arith, ==_iff key k)) ∙ e)
]

under_cons :
    (key k : ServiceKey) (a : ServiceAddr) (as' l : List ServiceAddr)
    → (l ++ under key k (a ∷ [])) ++ under key k as' ≡ l ++ under key k (a ∷ as')
under_cons key k a as' l = elim (Bool-cases (key == k)) [
  | inl t ↦ rw t (append_assoc l (a ∷ []) as')
  | inr t ↦ rw t (simp append-nil)
]

append_addrs_lem :
    (key k : ServiceKey) (port : ℤ) (ips : List GoString) (m : EpsSet) (l : List ServiceAddr)
    → lookup k m ≡ fresh_set l
    → lookup k (append_addrs key port ips m) ≡ fresh_set (l ++ under key k (addrs_on port ips))
unfolding append_addrs
append_addrs_lem key k port [] m l e = elim (Bool-cases (key == k)) [
  | inl t ↦ rw (t, append-nil) e
  | inr t ↦ rw (t, append-nil) e
]
append_addrs_lem key k port (ip ∷ ips) m l e =
    append_addrs_lem key k port ips _ _ (append_addr_lem key k _ m l e)
    ∙ ap fresh_set (under_cons key k _ (addrs_on port ips) l)

append_ports_lem :
    (namespace name : GoString) (k : ServiceKey) (ips : List GoString) (ps : List EndpointPort)
    (m : EpsSet) (l : List ServiceAddr)
    → lookup k m ≡ fresh_set l
    → lookup k (append_ports namespace name ips ps m)
      ≡ fresh_set (l ++ published_ports namespace name ips ps k)
unfolding append_ports
append_ports_lem namespace name k ips [] m l e = rw append-nil e
append_ports_lem namespace name k ips (p ∷ ps) m l e =
    append_ports_lem namespace name k ips ps _ _ (append_addrs_lem _ k p.port ips m l e)
    ∙ ap fresh_set (append_assoc l _ _)

append_subsets_lem :
    (namespace name : GoString) (k : ServiceKey) (sets : List EndpointSubset) (m : EpsSet)
    (l : List ServiceAddr)
    → lookup k m ≡ fresh_set l
    → lookup k (append_subsets namespace name sets m)
      ≡ fresh_set (l ++ published namespace name sets k)
unfolding append_subsets
append_subsets_lem namespace name k [] m l e = rw append-nil e
append_subsets_lem namespace name k (set ∷ sets) m l e =
    append_subsets_lem namespace name k sets _ _ (
      append_ports_lem namespace name k set.addresses set.ports _ _
        (append_addrs_lem _ k (pos 0) set.addresses m l e))
    ∙ ap fresh_set (simp append_assoc)

-- After the handler has taken in an Endpoints object, each key holds the addresses that the object
-- publishes under it, in the order of the subsets, with the counter at 0; a key under which the
-- object publishes none holds what it held before. The handler returns no error.
pub lookup-add_item :
    (eps : EpsSet) (o : KubeEndpoints) (k : ServiceKey)
    → (lookup k (add_item eps (endpoints o)).0
        ≡ or_else (fresh_set (published o.meta.namespace o.meta.name o.subsets k)) (lookup k eps))
      × ((add_item eps (endpoints o)).1 ≡ none)
unfolding add_item
lookup-add_item eps o k = (
  lookup-copy k _ eps
        (append_subsets-IsWellFormed o.meta.namespace o.meta.name o.subsets []
          empty-IsWellFormed).distinct
      ∙ ap (λ s. or_else s (lookup k eps))
          (append_subsets_lem o.meta.namespace o.meta.name k o.subsets [] []
            (unfold lookup in refl)),
  refl,
)

-- Deleting an Endpoints object takes away the keys whose namespace is the object's name and whose
-- name is the object's namespace, and no other.
pub lookup-del_item :
    (eps : EpsSet) (o : KubeEndpoints) (k : ServiceKey)
    → lookup k (del_item eps (endpoints o)).0
      ≡ (if k.namespace == o.meta.name && k.name == o.meta.namespace then none else lookup k eps)
unfolding del_item
lookup-del_item eps o k =
    lookup-delete_if (λ j. j.namespace == o.meta.name && j.name == o.meta.namespace) k eps

-- If the name of an Endpoints object is not its namespace, deleting the object leaves each of its own
-- keys as it was.
pub del_item_keeps :
    (eps : EpsSet) (o : KubeEndpoints) (port : GoString)
    → o.meta.name ≢ o.meta.namespace
    → lookup (port_key o.meta.namespace o.meta.name port) (del_item eps (endpoints o)).0
      ≡ lookup (port_key o.meta.namespace o.meta.name port) eps
del_item_keeps eps o port ne =
    lookup-del_item eps o (port_key o.meta.namespace o.meta.name port) ∙ ground arith
