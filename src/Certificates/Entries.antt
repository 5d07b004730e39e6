-- ===== src/Certificates/Entries.antt =====
-- What the updates make of the entries of each host.
use mathlib.Core.Path.{ap₂}
use minke.Base.{
  not, List, [], ◌∷◌, ◌++◌, none, some, if◌then◌else◌, ◌==◌, List_ℕ-eq, ◌≡◌, refl, arith, ap, sym,
  ◌∙◌, filter,
}
use mathlib.Core.List.{append-nil}
use minke.GoText.{GoString, elem}
use minke.GoMap.{lookup, insert, IsMap}
use minke.GoMap.Laws.{lookup-insert, lookup-map_values, insert-IsMap}
use minke.Secrets.{
  IngressKey, IngressKey-eq, SecretKey, SecretKey-eq, Platform, CertMapEntry, Certs, Loaded,
  get_cert, cert_of, err_of,
}
use minke.Certificates.{
  HostCerts, entries_at, new_entries, drop_ingress, append_entries, commit_ingress, update_ingress,
}

entries_at-insert :
    (h k : GoString) (cmes : List CertMapEntry) (set : HostCerts)
    → entries_at h (insert k cmes set) ≡ (if k == h then cmes else entries_at h set)
entries_at-insert h k cmes set = ground (arith, lookup-insert k h cmes set)

lookup-new_entries :
    (h : GoString) (cme : CertMapEntry) (hosts : List GoString) (newset : HostCerts)
    → lookup h (new_entries cme hosts newset)
      ≡ (if elem h hosts then some (cme ∷ []) else lookup h newset)
unfolding new_entries
lookup-new_entries h cme [] newset = refl
lookup-new_entries h cme (k ∷ hosts) newset = ground (
  arith,
  lookup-new_entries h cme hosts (insert k (cme ∷ []) newset),
  lookup-insert k h (cme ∷ []) newset,
)

new_entries-IsMap :
    (cme : CertMapEntry) (hosts : List GoString) (newset : HostCerts)
    → IsMap newset
    → IsMap (new_entries cme hosts newset)
unfolding new_entries
new_entries-IsMap cme [] newset h = h
new_entries-IsMap cme (k ∷ hosts) newset h =
    new_entries-IsMap cme hosts _ (insert-IsMap k (cme ∷ []) newset h)

entries_at-drop_ingress :
    (h : GoString) (key : IngressKey) (set : HostCerts)
    → entries_at h (drop_ingress key set) ≡ filter (λ cme. not (cme.ing == key)) (entries_at h set)
unfolding drop_ingress
entries_at-drop_ingress h key set =
    ground (arith, lookup-map_values (filter (λ cme. not (cme.ing == key))) h set)

entries_at-append_entries :
    (h : GoString) (newset set : HostCerts)
    → IsMap newset
    → entries_at h (append_entries newset set) ≡ entries_at h set ++ entries_at h newset
unfolding append_entries lookup
entries_at-append_entries h [] set m = sym (append-nil _)
entries_at-append_entries h ((k, cmes) ∷ newset) set m =
    let ih = entries_at-append_entries h newset (insert k (entries_at k set ++ cmes) set) m.1 in
    let at = entries_at-insert h k (entries_at k set ++ cmes) set in
    elim (List_ℕ-eq.discrete k h) [
      | yes same ↦
          let gone : lookup h newset ≡ none = ap (λ j. lookup j newset) (sym same) ∙ m.0 in
          let here : entries_at k set ≡ entries_at h set = ap (λ j. entries_at j set) same in
          ih ∙ ground (arith, append-nil (entries_at h set ++ cmes))
      | no other ↦ ih ∙ ground arith
    ]

entries_at-new_entries :
    (h : GoString) (cme : CertMapEntry) (hosts : List GoString)
    → entries_at h (new_entries cme hosts []) ≡ (if elem h hosts then cme ∷ [] else [])
unfolding lookup
entries_at-new_entries h cme hosts = ground (arith, lookup-new_entries h cme hosts [])

-- The entry that the call makes from what getCert returns.
abbrev pub entry : Platform → Certs → IngressKey → SecretKey → CertMapEntry
entry p st key sec = record {
  cert = cert_of (get_cert p st sec).1;
  sec = sec;
  ing = key;
  err = err_of (get_cert p st sec).1;
}

pub entries_at-commit_ingress :
    (key : IngressKey) (sec : SecretKey) (hosts : List GoString) (loaded : Loaded) (st : Certs)
    (h : GoString)
    → entries_at h (commit_ingress key sec hosts loaded st).cert_map.set
      ≡ filter (λ cme. not (cme.ing == key)) (entries_at h st.cert_map.set)
        ++ (if elem h hosts
            then record { cert = cert_of loaded; sec = sec; ing = key; err = err_of loaded } ∷ []
            else [])
entries_at-commit_ingress key sec hosts loaded st h =
    let cme : CertMapEntry = record {
      cert = cert_of loaded;
      sec = sec;
      ing = key;
      err = err_of loaded;
    } in
    entries_at-append_entries h (new_entries cme hosts []) _ (new_entries-IsMap cme hosts [] tt)
    ∙ ap₂ ◌++◌ (entries_at-drop_ingress h key st.cert_map.set) (entries_at-new_entries h cme hosts)

-- Taking in one TLS section of an ingress drops the entries that the ingress had, under every host,
-- and puts its new entry last under each of the given hosts. The other ingresses' entries stay, with
-- what fetching the secret has changed in them.
pub entries_at-update_ingress :
    (p : Platform) (st : Certs) (key : IngressKey) (sec : SecretKey) (hosts : List GoString)
    (h : GoString)
    → entries_at h (update_ingress p st key sec hosts).cert_map.set
      ≡ filter (λ cme. not (cme.ing == key)) (entries_at h (get_cert p st sec).0.cert_map.set)
        ++ (if elem h hosts then entry p st key sec ∷ [] else [])
unfolding update_ingress
entries_at-update_ingress p st key sec hosts h =
    entries_at-commit_ingress key sec hosts (get_cert p st sec).1 (get_cert p st sec).0 h

module _ (key : IngressKey) where
  -- The entries of one ingress.
  abbrev pub own : List CertMapEntry → List CertMapEntry
  own = filter (λ cme. cme.ing == key)

  own-filter : (xs : List CertMapEntry) → own (filter (λ cme. not (cme.ing == key)) xs) ≡ []
  own-filter [] = refl
  own-filter (x ∷ xs) = ground (arith, own-filter xs)

  own-append : (xs ys : List CertMapEntry) → own (xs ++ ys) ≡ own xs ++ own ys
  own-append [] ys = refl
  own-append (x ∷ xs) ys = ground (arith, own-append xs ys)

-- After a call of updateIngress for an ingress, the ingress has the call's entry under each of the
-- hosts that it is given, and no other.
pub own-update_ingress :
    (p : Platform) (st : Certs) (key : IngressKey) (sec : SecretKey) (hosts : List GoString)
    (h : GoString)
    → own key (entries_at h (update_ingress p st key sec hosts).cert_map.set)
      ≡ (if elem h hosts then entry p st key sec ∷ [] else [])
own-update_ingress p st key sec hosts h =
    let older = entries_at h (get_cert p st sec).0.cert_map.set in
    ap (own key) (entries_at-update_ingress p st key sec hosts h)
    ∙ (own-append key (filter (λ cme. not (cme.ing == key)) older)
          (if elem h hosts then entry p st key sec ∷ [] else [])
        ∙ ap₂ ◌++◌ (own-filter key older) (alone (entry p st key sec) refl))
  where
    alone :
        (cme : CertMapEntry)
        → cme.ing ≡ key
        → own key (if elem h hosts then cme ∷ [] else []) ≡ (if elem h hosts then cme ∷ [] else [])
    alone cme e = ground arith
