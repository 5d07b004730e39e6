-- ===== src/Secrets/Loading.antt =====
-- Fetching a certificate: the fuel of getCert, what it returns, and what it stores on the way.
use minke.Base.{
  ℕ, suc, Bool, ◌&&◌, [], none, some, inl, inr, if◌then◌else◌, List_ℕ-eq, ◌≡◌, arith, ◌∙◌,
  Option-cases, Bool-cases,
}
use minke.GoText.{bytes}
use minke.GoMap.{lookup, insert}
use minke.GoMap.Laws.{lookup-insert}
use minke.Kube.{KubeSecret, secret}
use minke.Secrets.{
  SecretKey, SecretKey-eq, Platform, Certs, SecretData, Loaded, cert_of, update_secret, key_of,
  is_some, load, update_cert, add_data, add_secret, get_secret, get_cert_fuel, get_cert, add_item,
}

module _ (p : Platform) where
  abbrev pub has_pair : SecretData → Bool
  has_pair contents =
      is_some (lookup (bytes "tls.crt") contents) && is_some (lookup (bytes "tls.key") contents)

  -- The store after a secret is taken in: its data under its key, and its certificate in each entry
  -- that refers to it, if the data has both parts.
  abbrev pub stored : Certs → KubeSecret → Certs
  stored st sobj = elim sobj.contents [
    | none ↦ st
    | some contents ↦
        if has_pair contents
        then record {
          secrets = insert (key_of sobj) contents st.secrets;
          cert_map = update_secret (key_of sobj) (cert_of (load p contents)) st.cert_map;
        }
        else st
  ]

  abbrev pub data_of : KubeSecret → SecretData
  data_of sobj = elim sobj.contents [ none ↦ [] | some contents ↦ contents ]

  -- What a fetch gives, with no fuel: the data that is stored, or else what the lister finds, which
  -- is then stored.
  abbrev pub fetched : Certs → SecretKey → Certs × Loaded
  fetched st key = elim (lookup key st.secrets) [
    | some vs ↦ (st, load p vs)
    | none ↦ elim (p.get_secret key.namespace key.name) [
      | none ↦ (st, load p [])
      | some sec ↦ (stored st sec, load p (data_of sec))
    ]
  ]

  -- Data that is stored needs one round.
  fuel_stored :
      (fuel : ℕ) (st : Certs) (key : SecretKey) (vs : SecretData)
      → lookup key st.secrets ≡ some vs
      → get_cert_fuel p (suc fuel) st key ≡ some (st, load p vs)
  unfolding get_cert_fuel get_secret
  fuel_stored fuel st key vs found = ground arith

  add_secret_lem :
      (fuel : ℕ) (st : Certs) (sobj : KubeSecret)
      → add_secret p (get_cert_fuel p (suc fuel)) st sobj ≡ some (stored st sobj)
  unfolding add_secret add_data update_cert
  add_secret_lem fuel st sobj = elim (Option-cases sobj.contents) [
    | inl e ↦ rw (e, stored)
    | inr (contents, e) ↦ elim (Bool-cases (has_pair contents)) [
      | inl t ↦
          let st' : Certs = record st { secrets = insert (key_of sobj) contents st.secrets } in
          let inside : lookup (key_of sobj) st'.secrets ≡ some contents =
            lookup-insert (key_of sobj) (key_of sobj) contents st.secrets ∙ ground arith in
          ground (arith, fuel_stored fuel st' (key_of sobj) contents inside)
      | inr t ↦ ground arith
    ]
  ]

  enough_fuel :
      (fuel : ℕ) (st : Certs) (key : SecretKey)
      → get_cert_fuel p (suc (suc fuel)) st key ≡ some (fetched st key)
  unfolding get_cert_fuel
  enough_fuel fuel st key = elim (Option-cases (lookup key st.secrets)) [
    | inl missing ↦ elim (Option-cases (p.get_secret key.namespace key.name)) [
      | inl e ↦ ground arith
      | inr (sec, e) ↦ ground (arith, add_secret_lem fuel st sec)
    ]
    | inr (vs, found) ↦ ground arith
  ]

  pub get_cert_lem : (st : Certs) (key : SecretKey) → get_cert p st key ≡ fetched st key
  unfolding get_cert
  get_cert_lem st key = rw (enough_fuel 0 st key, get_cert)

  -- getCert ends: with fuel for two rounds, or any more, it returns what is stored or found, and the
  -- store with what it took in on the way. The fuel that the model gives is enough.
  pub get_cert_total :
      (fuel : ℕ) (st : Certs) (key : SecretKey)
      → (get_cert_fuel p (suc (suc fuel)) st key ≡ some (fetched st key))
        × (get_cert p st key ≡ fetched st key)
  get_cert_total fuel st key = (enough_fuel fuel st key, get_cert_lem st key)

  -- Taking in a secret returns no error. A secret with both parts of a pair is stored under its
  -- key, and each entry that refers to it is given the certificate that is loaded from it, or none
  -- if it does not load; any other secret changes nothing.
  pub add_item_lem :
      (st : Certs) (sobj : KubeSecret) → add_item p st (secret sobj) ≡ (stored st sobj, none)
  unfolding add_item
  add_item_lem st sobj = ground (arith, add_secret_lem 1 st sobj)
