-- ===== src/Certificates/Steps.antt =====
-- What each step of updateIngress and of addItem makes of the certificate map's coherence.
use mathlib.Core.Path.{subst}
use minke.Base.{
  not, List, [], ◌∷◌, some, ◌==◌, List_ℕ-eq, ◌≡◌, ◌≢◌, refl, arith, ap, sym, ◌∙◌, All, All-append,
  All-filter, map, filter,
}
use minke.GoText.{GoString, elem}
use minke.GoMap.{GoMap, lookup, insert}
use minke.GoMap.Laws.{lookup-insert}
use minke.Secrets.{
  IngressKey, IngressKey-eq, SecretKey, SecretKey-eq, Platform, CertMapEntry, Certs, SecretData,
  Loaded, cert_of, err_of, set_cert, update_secret, load, get_cert,
}
use minke.Secrets.Loading.{fetched, get_cert_lem}
use minke.Certificates.{entries_at, commit_ingress}
use minke.Certificates.Entries.{entries_at-commit_ingress}
use minke.Certificates.Coherence.{IsLoaded, IsCoherent, All-if, entries_at-map}
use minke.Certificates.Interleaving.{fetches, commits, stores, loads, refreshes, World, act}

All-imp :
    (P Q : CertMapEntry → Type 0) (es : List CertMapEntry)
    → ((e : CertMapEntry) → P e → Q e)
    → All P es
    → All Q es
All-imp P Q [] f h = tt
All-imp P Q (e ∷ es) f h = (f e h.0, All-imp P Q es f h.1)

module _ (p : Platform) (ing : IngressKey) (key : SecretKey) (hosts : List GoString)
    (contents : SecretData) where
  -- What all entries are.
  pub record Everywhere (P : CertMapEntry → Type 0) (st : Certs) : Type 0 where
    pub at_hosts : (h : GoString) → All P (entries_at h st.cert_map.set)
    pub at_defaults : All P st.cert_map.defaults

  -- The entries of other secrets are as they should be.
  abbrev pub IsOther : Certs → CertMapEntry → Type 0
  IsOther st e = e.sec ≢ key → IsLoaded (load p) st.secrets e

  -- The data is stored, and at most the entries of its secret are not as they should be.
  pub record At (w : World) : Type 0 where
    pub others : Everywhere (IsOther w.st) w.st
    pub has : lookup key w.st.secrets ≡ some contents

  -- All entries are as they should be.
  pub record Done (w : World) : Type 0 where
    pub coherent : IsCoherent (load p) w.st
    pub has : lookup key w.st.secrets ≡ some contents

  get_cert_stored :
      (st : Certs) (vs : SecretData)
      → lookup key st.secrets ≡ some vs
      → get_cert p st key ≡ (st, load p vs)
  get_cert_stored st vs e = get_cert_lem p st key ∙ rw (e, fetched) refl

  fetches_lem :
      (w : World) (vs : SecretData)
      → lookup key w.st.secrets ≡ some vs
      → record w { held = load p vs } ≡ act p ing key hosts contents fetches w
  fetches_lem w vs e =
      sym
        (ap (λ (r : Certs × Loaded). record w { st = r.0; held = r.1 }) (get_cert_stored w.st vs e))

  pub loads_lem :
      (w : World) (vs : SecretData)
      → lookup key w.st.secrets ≡ some vs
      → record w { loaded = load p vs } ≡ act p ing key hosts contents loads w
  loads_lem w vs e =
      sym (
        ap (λ (r : Certs × Loaded). record w { st = r.0; loaded = r.1 })
          (get_cert_stored w.st vs e))

  committed :
      (P : CertMapEntry → Type 0) (st : Certs) (held : Loaded)
      → P (record { cert = cert_of held; sec = key; ing = ing; err = err_of held })
      → Everywhere P st
      → Everywhere P (commit_ingress ing key hosts held st)
  committed P st held new e = record {
    at_hosts = λ h. subst (All P) (sym (entries_at-commit_ingress ing key hosts held st h)) (
        All-append P (filter (λ cme. not (cme.ing == ing)) (entries_at h st.cert_map.set)) _
          (All-filter P _ _ (e.at_hosts h)) (All-if P (elem h hosts) _ new));
    at_defaults = e.at_defaults;
  }

  pub commits-At : (w : World) → At w → At (act p ing key hosts contents commits w)
  commits-At w a = record {
    others = committed (IsOther w.st) w.st w.held (λ n. absurd (n refl)) a.others;
    has = a.has;
  }

  -- Storing the data leaves the entries of other secrets.
  pub stores-At :
      (w : World) → IsCoherent (load p) w.st → At (act p ing key hosts contents stores w)
  stores-At w c = record {
    others = record {
      at_hosts = λ h. All-imp (IsLoaded (load p) w.st.secrets) _ _ still (c.hosts h);
      at_defaults = All-imp (IsLoaded (load p) w.st.secrets) _ _ still c.defaults;
    };
    has = ground (arith, lookup-insert key key contents w.st.secrets);
  }
    where
      still :
          (e : CertMapEntry)
          → IsLoaded (load p) w.st.secrets e
          → IsOther (record (w.st) { secrets = insert key contents w.st.secrets }) e
      still e h n vs q = h vs (ground (arith, lookup-insert key e.sec contents w.st.secrets))

  refreshed :
      (secrets : GoMap SecretKey SecretData) (e : CertMapEntry)
      → lookup key secrets ≡ some contents
      → (e.sec ≢ key → IsLoaded (load p) secrets e)
      → IsLoaded (load p) secrets (set_cert key (cert_of (load p contents)) e)
  unfolding set_cert
  refreshed secrets e has h = elim (SecretKey-eq.discrete e.sec key) [
    | yes t ↦
        let new : record e { cert = cert_of (load p contents) }
            ≡ set_cert key (cert_of (load p contents)) e =
          ground arith in
        subst (IsLoaded (load p) secrets) new (λ vs q.
          let same : contents ≡ vs = ground arith in
          ap (λ (d : SecretData). cert_of (load p d)) same)
    | no t ↦
        let old : e ≡ set_cert key (cert_of (load p contents)) e = ground arith in
        subst (IsLoaded (load p) secrets) old (h t)
  ]

  All-set_cert :
      (st : Certs) (es : List CertMapEntry)
      → lookup key st.secrets ≡ some contents
      → All (IsOther st) es
      → All (IsLoaded (load p) st.secrets) (map (set_cert key (cert_of (load p contents))) es)
  All-set_cert st [] has h = tt
  All-set_cert st (e ∷ es) has h = (refreshed st.secrets e has h.0, All-set_cert st es has h.1)

  -- The secret's worker has loaded the new data.
  pub record Ready (w : World) : Type 0 where
    pub at : At w
    pub new : w.loaded ≡ load p contents

  pub loads-Ready : (w : World) → At w → Ready (act p ing key hosts contents loads w)
  loads-Ready w a =
      subst Ready (loads_lem w contents a.has)
        (record { at = record { others = a.others; has = a.has }; new = refl })

  pub fetches-At : (w : World) → At w → At (act p ing key hosts contents fetches w)
  fetches-At w a =
      subst At (fetches_lem w contents a.has) (record { others = a.others; has = a.has })

  pub fetches-Ready : (w : World) → Ready w → Ready (act p ing key hosts contents fetches w)
  fetches-Ready w a =
      subst Ready (fetches_lem w contents a.at.has)
        (record { at = record { others = a.at.others; has = a.at.has }; new = a.new })

  pub commits-Ready : (w : World) → Ready w → Ready (act p ing key hosts contents commits w)
  commits-Ready w a = record { at = commits-At w a.at; new = a.new }

  pub refreshes-Done : (w : World) → Ready w → Done (act p ing key hosts contents refreshes w)
  unfolding update_secret
  refreshes-Done w a =
      let o = a.at.others in
      let cert = cert_of (load p contents) in
      let next = λ (l : Loaded). record w {
        st = record (w.st) { cert_map = update_secret key (cert_of l) w.st.cert_map };
        loaded = l;
      } in
      subst (λ l. Done (next l)) (sym a.new)
        (record {
          coherent = record {
            hosts = λ h.
                subst (All (IsLoaded (load p) w.st.secrets))
                  (sym (entries_at-map p (map (set_cert key cert)) h w.st.cert_map.set refl))
                  (All-set_cert w.st _ a.at.has (o.at_hosts h));
            defaults = All-set_cert w.st _ a.at.has o.at_defaults;
          };
          has = a.at.has;
        })

  -- Committing the entry that the stored data makes.
  pub commits-IsCoherent :
      (w : World) (vs : SecretData)
      → IsCoherent (load p) w.st
      → lookup key w.st.secrets ≡ some vs
      → w.held ≡ load p vs
      → IsCoherent (load p) (act p ing key hosts contents commits w).st
  commits-IsCoherent w vs c has held =
      let new =
        committed (IsLoaded (load p) w.st.secrets) w.st w.held
          (λ vs' q.
            let same : vs ≡ vs' = ground arith in
            ap cert_of held ∙ ap (λ (d : SecretData). cert_of (load p d)) same)
          (record { at_hosts = c.hosts; at_defaults = c.defaults }) in
      record { hosts = new.at_hosts; defaults = new.at_defaults }

  pub fetches-Done : (w : World) → Done w → Done (act p ing key hosts contents fetches w)
  fetches-Done w d =
      subst Done (fetches_lem w contents d.has) (record { coherent = d.coherent; has = d.has })

  pub held-fetches :
      (w : World) (vs : SecretData)
      → lookup key w.st.secrets ≡ some vs
      → (act p ing key hosts contents fetches w).held ≡ load p vs
  held-fetches w vs e = ap (λ (x : World). x.held) (sym (fetches_lem w vs e))

  pub held-loads :
      (w : World) (vs : SecretData)
      → lookup key w.st.secrets ≡ some vs
      → (act p ing key hosts contents loads w).held ≡ w.held
  held-loads w vs e = ap (λ (x : World). x.held) (sym (loads_lem w vs e))

  pub st-fetches :
      (w : World) (vs : SecretData)
      → lookup key w.st.secrets ≡ some vs
      → (act p ing key hosts contents fetches w).st ≡ w.st
  st-fetches w vs e = ap (λ (x : World). x.st) (sym (fetches_lem w vs e))
