-- ===== src/Certificates/Defaults.antt =====
-- The default entries against the secrets that are stored.
use mathlib.Core.Path.{subst}
use minke.Base.{
  List, [], ◌∷◌, ◌++◌, some, inl, inr, List_ℕ-eq, ◌≡◌, arith, ap, sym, ◌∙◌, All, All-append,
  Bool-cases, Option-cases,
}
use minke.GoMap.{lookup}
use minke.GoMap.Laws.{lookup-insert}
use minke.Kube.{KubeSecret}
use minke.Secrets.{
  IngressKey-eq, SecretKey, SecretKey-eq, Platform, CertMapEntry, Certs, Loaded, cert_of, err_of,
  key_of, load,
}
use minke.Secrets.Loading.{has_pair, fetched, get_cert_lem}
use minke.Certificates.{no_ingress, default_entries, set_defaults}
use minke.Certificates.Coherence.{IsLoaded, IsCoherent, fetched-IsCoherent}

-- The lister gives a secret only under its own name.
abbrev pub IsNamed : Platform → Type 0
IsNamed p =
    (key : SecretKey) (sec : KubeSecret)
    → p.get_secret key.namespace key.name ≡ some sec
    → key_of sec ≡ key

module _ (p : Platform) where
  -- Fetching one certificate does not change what fetching another gives.
  fetched-fetched :
      (st : Certs) (k j : SecretKey)
      → IsNamed p
      → (fetched p (fetched p st k).0 j).1 ≡ (fetched p st j).1
  fetched-fetched st k j named = elim (Option-cases (lookup k st.secrets)) [
    | inl missing ↦ elim (Option-cases (p.get_secret k.namespace k.name)) [
      | inl e ↦ ground arith
      | inr (sec, e) ↦ elim (Option-cases sec.contents) [
        | inl empty ↦ ground arith
        | inr (contents, full) ↦ elim (Bool-cases (has_pair p contents)) [
          | inl t ↦
              let name : key_of sec ≡ k = named k sec e in
              elim (SecretKey-eq.discrete k j) [
                | yes same ↦
                    subst (λ i. (fetched p (fetched p st k).0 i).1 ≡ (fetched p st i).1) same
                      (ground (arith, lookup-insert (key_of sec) k contents st.secrets))
                | no other ↦ ground (arith, lookup-insert (key_of sec) j contents st.secrets)
              ]
          | inr t ↦ ground arith
        ]
      ]
    ]
    | inr (vs, found) ↦ ground arith
  ]

  -- The entry has what fetching its secret would now give.
  abbrev IsFresh : Certs → CertMapEntry → Type 0
  IsFresh st e = e.cert ≡ cert_of (fetched p st e.sec).1

  fetched-IsFresh :
      (st : Certs) (key : SecretKey) (es : List CertMapEntry)
      → IsNamed p
      → All (IsFresh st) es
      → All (IsFresh (fetched p st key).0) es
  fetched-IsFresh st key [] named h = tt
  fetched-IsFresh st key (e ∷ es) named h = (
    h.0 ∙ ap cert_of (sym (fetched-fetched st key e.sec named)),
    fetched-IsFresh st key es named h.1,
  )

  IsLoaded-of_IsFresh :
      (st : Certs) (es : List CertMapEntry)
      → All (IsFresh st) es
      → All (IsLoaded (load p) st.secrets) es
  IsLoaded-of_IsFresh st [] h = tt
  IsLoaded-of_IsFresh st (e ∷ es) h = (λ vs q. h.0 ∙ ground arith, IsLoaded-of_IsFresh st es h.1)

  default_entries_lem :
      (st : Certs) (keys : List SecretKey) (certs : List CertMapEntry)
      → IsNamed p
      → IsCoherent (load p) st
      → All (IsFresh st) certs
      → IsCoherent (load p) (default_entries p st keys certs).0
        × All (IsFresh (default_entries p st keys certs).0) (default_entries p st keys certs).1
  unfolding default_entries
  default_entries_lem st [] certs named c h = (c, h)
  default_entries_lem st (key ∷ keys) certs named c h =
      let made = λ (r : Certs × Loaded). default_entries p r.0 keys (
        certs
        ++ record { cert = cert_of r.1; sec = key; ing = no_ingress; err = err_of r.1 } ∷ []) in
      subst
        (λ (r : Certs × Loaded).
          IsCoherent (load p) (made r).0 × All (IsFresh (made r).0) (made r).1)
        (sym (get_cert_lem p st key))
        (default_entries_lem (fetched p st key).0 keys _ named (fetched-IsCoherent p st key c) (
          All-append _ certs _ (fetched-IsFresh st key certs named h)
            (ap cert_of (sym (fetched-fetched st key key named)), tt)))

  pub set_defaults-IsCoherent :
      (st : Certs) (keys : List SecretKey)
      → IsNamed p
      → IsCoherent (load p) st
      → IsCoherent (load p) (set_defaults p st keys)
  unfolding set_defaults
  set_defaults-IsCoherent st keys named c =
      let h = default_entries_lem st keys [] named c tt in
      record {
        hosts = h.0.hosts;
        defaults = IsLoaded-of_IsFresh (default_entries p st keys []).0 _ h.1;
      }
