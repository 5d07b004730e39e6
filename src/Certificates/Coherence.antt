-- ===== src/Certificates/Coherence.antt =====
-- The entries of the certificate map against the secrets that are stored.
use mathlib.Core.Path.{subst}
use minke.Base.{
  Bool, true, false, not, List, [], ◌∷◌, Option, some, inl, inr, if◌then◌else◌, ◌==◌, List_ℕ-eq,
  ◌≡◌, refl, arith, ap, sym, All, All-append, All-filter, map, Bool-cases, Option-cases, filter,
}
use minke.GoText.{GoString, elem}
use minke.GoMap.{GoMap, lookup, insert, delete, map_values}
use minke.GoMap.Laws.{lookup-insert, lookup-delete, lookup-map_values}
use minke.Kube.{KubeSecret, Object, nil, ingress, service, secret, endpoints, GoError}
use minke.Secrets.{
  IngressKey, IngressKey-eq, SecretKey, SecretKey-eq, Platform, CertMapEntry, Certs, SecretData,
  Loaded, cert_of, err_of, set_cert, update_secret, key_of, load, get_cert, add_item, del_item,
}
use minke.Secrets.Loading.{has_pair, stored, fetched, get_cert_lem, add_item_lem}
use minke.Certificates.{HostCerts, entries_at, update_ingress}
use minke.Certificates.Entries.{entry, entries_at-update_ingress}

-- If the entry's secret is stored, the entry has the certificate that the loader makes of the data.
abbrev pub IsLoaded : (SecretData → Loaded) → GoMap SecretKey SecretData → CertMapEntry → Type 0
IsLoaded loader secrets e =
    (vs : SecretData) → lookup e.sec secrets ≡ some vs → e.cert ≡ cert_of (loader vs)

-- All entries of the map and all defaults are so.
pub record IsCoherent (loader : SecretData → Loaded) (st : Certs) : Type 0 where
  pub hosts : (h : GoString) → All (IsLoaded loader st.secrets) (entries_at h st.cert_map.set)
  pub defaults : All (IsLoaded loader st.secrets) st.cert_map.defaults

pub All-if :
    (P : CertMapEntry → Type 0) (b : Bool) (e : CertMapEntry)
    → P e
    → All P (if b then e ∷ [] else [])
All-if P true e h = (h, tt)
All-if P false e h = tt

module _ (p : Platform) where
  set_cert-IsLoaded :
      (key : SecretKey) (contents : SecretData) (secrets : GoMap SecretKey SecretData)
      (e : CertMapEntry)
      → IsLoaded (load p) secrets e
      → IsLoaded (load p) (insert key contents secrets) (set_cert key (cert_of (load p contents)) e)
  unfolding set_cert
  set_cert-IsLoaded key contents secrets e h = elim (Bool-cases (e.sec == key)) [
    | inl t ↦
        let c = cert_of (load p contents) in
        let new : record e { cert = c } ≡ set_cert key c e = ground arith in
        subst (IsLoaded (load p) (insert key contents secrets)) new (λ vs q.
          let same : contents ≡ vs = ground (arith, lookup-insert key e.sec contents secrets) in
          ap (λ (d : SecretData). cert_of (load p d)) same)
    | inr t ↦
        let old : e ≡ set_cert key (cert_of (load p contents)) e = ground arith in
        subst (IsLoaded (load p) (insert key contents secrets)) old
          (λ vs q. h vs (ground (arith, lookup-insert key e.sec contents secrets)))
  ]

  set_certs-IsLoaded :
      (key : SecretKey) (contents : SecretData) (secrets : GoMap SecretKey SecretData)
      (es : List CertMapEntry)
      → All (IsLoaded (load p) secrets) es
      → All
          (IsLoaded (load p) (insert key contents secrets))
          (map (set_cert key (cert_of (load p contents))) es)
  set_certs-IsLoaded key contents secrets [] h = tt
  set_certs-IsLoaded key contents secrets (e ∷ es) h =
      (set_cert-IsLoaded key contents secrets e h.0, set_certs-IsLoaded key contents secrets es h.1)

  pub entries_at-map :
      (f : List CertMapEntry → List CertMapEntry) (h : GoString) (set : HostCerts)
      → f [] ≡ []
      → entries_at h (map_values f set) ≡ f (entries_at h set)
  entries_at-map f h set e = ground (arith, lookup-map_values f h set)

  stored-IsCoherent :
      (st : Certs) (sobj : KubeSecret)
      → IsCoherent (load p) st
      → IsCoherent (load p) (stored p st sobj)
  unfolding update_secret
  stored-IsCoherent st sobj c = elim (Option-cases sobj.contents) [
    | inl e ↦ rw (e, stored) c
    | inr (contents, e) ↦ elim (Bool-cases (has_pair p contents)) [
      | inl t ↦
          let cert = cert_of (load p contents) in
          let st' : Certs = record {
            secrets = insert (key_of sobj) contents st.secrets;
            cert_map = update_secret (key_of sobj) cert st.cert_map;
          } in
          let eq : st' ≡ stored p st sobj = ground arith in
          subst (IsCoherent (load p)) eq (record {
            hosts = λ h.
                subst (All (IsLoaded (load p) st'.secrets))
                  (sym (entries_at-map (map (set_cert (key_of sobj) cert)) h st.cert_map.set refl))
                  (set_certs-IsLoaded (key_of sobj) contents st.secrets _ (c.hosts h));
            defaults = set_certs-IsLoaded (key_of sobj) contents st.secrets _ c.defaults;
          })
      | inr t ↦ let eq : st ≡ stored p st sobj = ground arith in subst (IsCoherent (load p)) eq c
    ]
  ]

  pub fetched-IsCoherent :
      (st : Certs) (key : SecretKey)
      → IsCoherent (load p) st
      → IsCoherent (load p) (fetched p st key).0
  fetched-IsCoherent st key c = elim (Option-cases (lookup key st.secrets)) [
    | inl missing ↦ elim (Option-cases (p.get_secret key.namespace key.name)) [
      | inl e ↦
          let eq : st ≡ (fetched p st key).0 = ground arith in subst (IsCoherent (load p)) eq c
      | inr (sec, e) ↦
          let eq : stored p st sec ≡ (fetched p st key).0 = ground arith in
          subst (IsCoherent (load p)) eq (stored-IsCoherent st sec c)
    ]
    | inr (vs, found) ↦
        let eq : st ≡ (fetched p st key).0 = ground arith in subst (IsCoherent (load p)) eq c
  ]

  -- Data that is stored after a fetch is the data that the fetch loaded.
  pub fetched_lem :
      (st : Certs) (key : SecretKey) (vs : SecretData)
      → lookup key (fetched p st key).0.secrets ≡ some vs
      → (fetched p st key).1 ≡ load p vs
  fetched_lem st key vs q = elim (Option-cases (lookup key st.secrets)) [
    | inl missing ↦ elim (Option-cases (p.get_secret key.namespace key.name)) [
      | inl e ↦ ground arith
      | inr (sec, e) ↦ elim (Option-cases sec.contents) [
        | inl empty ↦ ground arith
        | inr (contents, full) ↦ elim (Bool-cases (has_pair p contents)) [
          | inl t ↦ ground (arith, lookup-insert (key_of sec) key contents st.secrets)
          | inr t ↦ ground arith
        ]
      ]
    ]
    | inr (vs', found) ↦ ground arith
  ]

  pub update_ingress-IsCoherent :
      (st : Certs) (key : IngressKey) (sec : SecretKey) (hosts : List GoString)
      → IsCoherent (load p) st
      → IsCoherent (load p) (update_ingress p st key sec hosts)
  unfolding update_ingress
  update_ingress-IsCoherent st key sec hosts c =
      let same : fetched p st sec ≡ get_cert p st sec = sym (get_cert_lem p st sec) in
      let at : IsCoherent (load p) (get_cert p st sec).0 =
        subst (λ (r : Certs × Loaded). IsCoherent (load p) r.0) same
          (fetched-IsCoherent st sec c) in
      let new : IsLoaded (load p) (get_cert p st sec).0.secrets (entry p st key sec) =
        subst
          (λ (r : Certs × Loaded).
            IsLoaded (load p) r.0.secrets
              (record { cert = cert_of r.1; sec = sec; ing = key; err = err_of r.1 }))
          same (λ vs q. ap cert_of (fetched_lem st sec vs q)) in
      record {
        hosts = λ h.
            subst (All (IsLoaded (load p) (get_cert p st sec).0.secrets))
              (sym (entries_at-update_ingress p st key sec hosts h))
              (All-append _
                (filter (λ cme. not (cme.ing == key))
                  (entries_at h (get_cert p st sec).0.cert_map.set))
                _ (All-filter _ _ _ (at.hosts h)) (All-if _ (elem h hosts) _ new));
        defaults = at.defaults;
      }

  pub add_item-IsCoherent :
      (st : Certs) (obj : Object)
      → IsCoherent (load p) st
      → IsCoherent (load p) (add_item p st obj).0
  unfolding add_item
  add_item-IsCoherent st (secret sobj) c =
      subst (λ (r : Certs × Option GoError). IsCoherent (load p) r.0) (sym (add_item_lem p st sobj))
        (stored-IsCoherent st sobj c)
  add_item-IsCoherent st nil c = c
  add_item-IsCoherent st (ingress o) c = c
  add_item-IsCoherent st (service o) c = c
  add_item-IsCoherent st (endpoints o) c = c

  delete-IsLoaded :
      (key : SecretKey) (secrets : GoMap SecretKey SecretData) (es : List CertMapEntry)
      → All (IsLoaded (load p) secrets) es
      → All (IsLoaded (load p) (delete key secrets)) es
  delete-IsLoaded key secrets [] h = tt
  delete-IsLoaded key secrets (e ∷ es) h = (
    λ vs q. h.0 vs (ground (arith, lookup-delete key e.sec secrets)),
    delete-IsLoaded key secrets es h.1,
  )

  pub del_item-IsCoherent :
      (st : Certs) (obj : Object)
      → IsCoherent (load p) st
      → IsCoherent (load p) (del_item p st obj).0
  unfolding del_item
  del_item-IsCoherent st (secret sobj) c = record {
    hosts = λ h. delete-IsLoaded (key_of sobj) st.secrets _ (c.hosts h);
    defaults = delete-IsLoaded (key_of sobj) st.secrets _ c.defaults;
  }
  del_item-IsCoherent st nil c = c
  del_item-IsCoherent st (ingress o) c = c
  del_item-IsCoherent st (service o) c = c
  del_item-IsCoherent st (endpoints o) c = c
