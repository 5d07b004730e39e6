-- ===== src/Endpoints/Invariant.antt =====
-- The invariant of the endpoints set: every set under a key has an address to give, since `getNextAddr`
-- divides by their number.
use minke.Base.{
  ℕ, zero, suc, ◌+◌, ◌%◌, ◌<◌, List, [], ◌∷◌, ◌++◌, none, some, ℕ_eq, List_ℕ-eq, length, get_elem?,
  ◌≡◌, ◌≢◌, refl, arith, Option-cases, inl, inr,
}
use minke.Base.Int.{pos}
use minke.GoMap.{lookup, IsMap}
use minke.GoMap.Laws.{
  AllValues, insert-AllValues, delete_if-AllValues, copy-AllValues, insert-IsMap, delete_if-IsMap,
  copy-IsMap,
}
use minke.Panic.{ret}
use minke.Kube.{EndpointSubset, EndpointPort, Object, endpoints}
use minke.GoText.{GoString}
use minke.Base.Int.{ℤ}
use minke.Endpoints.{
  ServiceKey, ServiceKey-eq, ServiceAddr, ServiceAddrSet, EpsSet, no_addr, u64_mod, pick,
  get_next_addr, append_addr, append_addrs, append_ports, append_subsets, add_item, del_item,
}

-- A set that can be asked for an address.
pub record HasAddrs (set : ServiceAddrSet) : Type 0 where
  pub nonempty : set.addrs ≢ []
  pub counted : set.index < u64_mod

pub record IsWellFormed (eps : EpsSet) : Type 0 where
  pub distinct : IsMap eps
  pub sets : AllValues HasAddrs eps

pub empty-IsWellFormed : IsWellFormed []
unfolding lookup
empty-IsWellFormed = record { distinct = tt; sets = λ k v e. cc }

get_elem?_of_lt :
    (xs : List ServiceAddr) (i : ℕ) → i < length xs → (a : ServiceAddr) × (get_elem? xs i ≡ some a)
get_elem?_of_lt [] i h = absurd (omega arith)
get_elem?_of_lt (x ∷ xs) zero h = (x, refl)
get_elem?_of_lt (x ∷ xs) (suc i) h = get_elem?_of_lt xs i (omega arith)

mod-lt-length : (xs : List ServiceAddr) (count : ℕ) → xs ≢ [] → count % length xs < length xs
mod-lt-length [] count h = absurd (h refl)
mod-lt-length (x ∷ xs) count h = omega arith

-- A list with an address gives the one at the counter's remainder.
pub pick_lem :
    (addrs : List ServiceAddr) (count : ℕ)
    → addrs ≢ []
    → (a : ServiceAddr) × (pick addrs count ≡ ret a)
      × (get_elem? addrs (count % length addrs) ≡ some a)
unfolding pick
pick_lem [] count h = absurd (h refl)
pick_lem (x ∷ xs) count h =
    let (a, e) =
      get_elem?_of_lt (x ∷ xs) (count % length (x ∷ xs)) (mod-lt-length (x ∷ xs) count h) in
    (a, ground arith, e)

pub get_next_addr-IsWellFormed :
    (eps : EpsSet) (key : ServiceKey) → IsWellFormed eps → IsWellFormed (get_next_addr eps key).0
unfolding get_next_addr
get_next_addr-IsWellFormed eps key w = elim (Option-cases (lookup key eps)) [
  | inl missing ↦ rw (missing, get_next_addr) w
  | inr (set, found) ↦
      rw (found, get_next_addr)
        (record {
          distinct = insert-IsMap key _ eps w.distinct;
          sets =
              insert-AllValues HasAddrs key _ eps
                (record { nonempty = (w.sets key set found).nonempty; counted = omega arith })
                w.sets;
        })
]

append_addr-IsWellFormed :
    (key : ServiceKey) (a : ServiceAddr) (eps : EpsSet)
    → IsWellFormed eps
    → IsWellFormed (append_addr key a eps)
unfolding append_addr
append_addr-IsWellFormed key a eps w = elim (Option-cases (lookup key eps)) [
  | inl missing ↦
      rw (missing, append_addr)
        (record {
          distinct = insert-IsMap key _ eps w.distinct;
          sets =
              insert-AllValues HasAddrs key _ eps (record { nonempty = cc; counted = omega arith })
                w.sets;
        })
  | inr (set, found) ↦
      rw (found, append_addr)
        (record {
          distinct = insert-IsMap key _ eps w.distinct;
          sets =
              insert-AllValues HasAddrs key _ eps
                (record {
                  nonempty = append-ne-nil set.addrs a;
                  counted = (w.sets key set found).counted;
                })
                w.sets;
        })
]
  where
    append-ne-nil : (xs : List ServiceAddr) (x : ServiceAddr) → xs ++ x ∷ [] ≢ []
    append-ne-nil [] x = cc
    append-ne-nil (y ∷ xs) x = cc

append_addrs-IsWellFormed :
    (key : ServiceKey) (port : ℤ) (ips : List GoString) (eps : EpsSet)
    → IsWellFormed eps
    → IsWellFormed (append_addrs key port ips eps)
unfolding append_addrs
append_addrs-IsWellFormed key port [] eps w = w
append_addrs-IsWellFormed key port (ip ∷ ips) eps w =
    append_addrs-IsWellFormed key port ips _ (append_addr-IsWellFormed key _ eps w)

append_ports-IsWellFormed :
    (namespace name : GoString) (ips : List GoString) (ps : List EndpointPort) (eps : EpsSet)
    → IsWellFormed eps
    → IsWellFormed (append_ports namespace name ips ps eps)
unfolding append_ports
append_ports-IsWellFormed namespace name ips [] eps w = w
append_ports-IsWellFormed namespace name ips (p ∷ ps) eps w =
    append_ports-IsWellFormed namespace name ips ps _ (append_addrs-IsWellFormed _ p.port ips eps w)

pub append_subsets-IsWellFormed :
    (namespace name : GoString) (sets : List EndpointSubset) (eps : EpsSet)
    → IsWellFormed eps
    → IsWellFormed (append_subsets namespace name sets eps)
unfolding append_subsets
append_subsets-IsWellFormed namespace name [] eps w = w
append_subsets-IsWellFormed namespace name (set ∷ sets) eps w =
    append_subsets-IsWellFormed namespace name sets _ (
      append_ports-IsWellFormed namespace name set.addresses set.ports _
        (append_addrs-IsWellFormed _ (pos 0) set.addresses eps w))

pub add_item-IsWellFormed :
    (eps : EpsSet) (obj : Object) → IsWellFormed eps → IsWellFormed (add_item eps obj).0
unfolding add_item
add_item-IsWellFormed eps (endpoints o) w =
    let fresh =
      append_subsets-IsWellFormed o.meta.namespace o.meta.name o.subsets [] empty-IsWellFormed in
    record {
      distinct = copy-IsMap _ eps w.distinct;
      sets = copy-AllValues HasAddrs _ eps fresh.distinct fresh.sets w.sets;
    }
add_item-IsWellFormed eps _ w = w

pub del_item-IsWellFormed :
    (eps : EpsSet) (obj : Object) → IsWellFormed eps → IsWellFormed (del_item eps obj).0
unfolding del_item
del_item-IsWellFormed eps (endpoints o) w = record {
  distinct = delete_if-IsMap _ eps w.distinct;
  sets = delete_if-AllValues HasAddrs _ eps w.sets;
}
del_item-IsWellFormed eps _ w = w

-- The calls that act on the set, in any order.
pub data Call : Type 0 where
  adds deletes : Object → Call
  asks : ServiceKey → Call

unfoldable pub step : EpsSet → Call → EpsSet
unfolding add_item del_item get_next_addr
step eps (adds obj) = (add_item eps obj).0
step eps (deletes obj) = (del_item eps obj).0
step eps (asks key) = (get_next_addr eps key).0

unfoldable pub run : EpsSet → List Call → EpsSet
unfolding step
run eps [] = eps
run eps (c ∷ cs) = run (step eps c) cs

step-IsWellFormed : (eps : EpsSet) (c : Call) → IsWellFormed eps → IsWellFormed (step eps c)
unfolding step
step-IsWellFormed eps (adds obj) w = add_item-IsWellFormed eps obj w
step-IsWellFormed eps (deletes obj) w = del_item-IsWellFormed eps obj w
step-IsWellFormed eps (asks key) w = get_next_addr-IsWellFormed eps key w

pub run-IsWellFormed :
    (eps : EpsSet) (cs : List Call) → IsWellFormed eps → IsWellFormed (run eps cs)
unfolding run
run-IsWellFormed eps [] w = w
run-IsWellFormed eps (c ∷ cs) w = run-IsWellFormed (step eps c) cs (step-IsWellFormed eps c w)

-- What a request for an address gives.
pub data Gives (eps : EpsSet) (key : ServiceKey) (a : ServiceAddr) : Type 0 where
  nothing : lookup key eps ≡ none → a ≡ no_addr → Gives eps key a
  one_of :
      (set : ServiceAddrSet) (i : ℕ)
      → lookup key eps ≡ some set
      → get_elem? set.addrs i ≡ some a
      → Gives eps key a

pub get_next_addr-Gives :
    (eps : EpsSet) (key : ServiceKey)
    → IsWellFormed eps
    → (a : ServiceAddr) × ((get_next_addr eps key).1 ≡ ret a) × Gives eps key a
unfolding get_next_addr
get_next_addr-Gives eps key w = elim (Option-cases (lookup key eps)) [
  | inl missing ↦ (no_addr, rw (missing, get_next_addr), nothing missing refl)
  | inr (set, found) ↦
      let (a, picked, at) =
        pick_lem set.addrs ((set.index + 1) % u64_mod) (w.sets key set found).nonempty in
      (a, rw (found, get_next_addr) picked, one_of set _ found at)
]

-- After any history of handler calls and requests from the empty set, asking for an address never
-- panics: a key with no set gives the empty address, and any other gives an address of its set.
pub run-get_next_addr :
    (cs : List Call) (key : ServiceKey)
    → (a : ServiceAddr) × ((get_next_addr (run [] cs) key).1 ≡ ret a) × Gives (run [] cs) key a
run-get_next_addr cs key =
    get_next_addr-Gives (run [] cs) key (run-IsWellFormed [] cs empty-IsWellFormed)
