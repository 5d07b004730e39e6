-- ===== src/Secrets.antt =====
-- secrets.go: the TLS secrets, the certificates by host and the defaults, and the handler of secrets.
pub mod Loading
pub mod Tests
use minke.Base.{
  ℕ, zero, suc, Bool, true, false, ◌&&◌, not, List, [], ◌∷◌, ◌++◌, Option, none, some, ◌⊎◌, inl,
  inr, if◌then◌else◌, Eq, ◌==◌, List_ℕ-discrete, List_ℕ-eq, filter, map,
}
use minke.Base.Int.{ℤ, ltb_ℤ}
use minke.GoText.{GoString, bytes, wildcard_name}
use minke.GoMap.{GoMap, lookup, insert, delete, map_values}
use minke.Kube.{KubeSecret, Object, nil, ingress, service, secret, endpoints, GoError}

pub record IngressKey : Type 0 where
  pub namespace : GoString
  pub name : GoString

pub record SecretKey : Type 0 where
  pub namespace : GoString
  pub name : GoString

unfoldable pub IngressKey-discrete : Discrete IngressKey
unfolding List_ℕ-discrete
IngressKey-discrete = hlevel List_ℕ-discrete

unfoldable pub SecretKey-discrete : Discrete SecretKey
unfolding List_ℕ-discrete
SecretKey-discrete = hlevel List_ℕ-discrete

instance abbrev pub IngressKey-eq : Eq IngressKey
IngressKey-eq = record { discrete = IngressKey-discrete }

instance abbrev pub SecretKey-eq : Eq SecretKey
SecretKey-eq = record { discrete = SecretKey-discrete }

-- The leaf of package x509, with the fields that the program reads: instants are integers, and the
-- names and addresses are their texts.
pub record Leaf : Type 0 where
  pub not_before : ℤ
  pub not_after : ℤ
  pub issuer : GoString
  pub subject : GoString
  pub dns_names : List GoString
  pub ip_addresses : List GoString

-- A `*tls.Certificate` that getCert made: the encoded leaf, the rest of the chain, and the leaf.
pub record Certificate : Type 0 where
  pub encoded : GoString
  pub chain : List GoString
  pub leaf : Leaf

-- The packages that make certificates, and the lister of secrets, whose error is none.
pub record Platform : Type 0 where
  pub get_secret : GoString → GoString → Option KubeSecret
  pub x509_key_pair : GoString → GoString → GoError ⊎ (GoString × List GoString)
  pub parse_certificate : GoString → GoError ⊎ Leaf

-- The mutex and the field `raw`, which nothing sets, are left out.
pub record CertMapEntry : Type 0 where
  pub cert : Option Certificate
  pub sec : SecretKey
  pub ing : IngressKey
  pub err : Option GoError

pub record CertMap : Type 0 where
  pub set : GoMap GoString (List CertMapEntry)
  pub defaults : List CertMapEntry

abbrev pub SecretData : Type 0
SecretData = GoMap GoString GoString

-- What `secUpdater` and the `certMap` that it refers to hold together.
pub record Certs : Type 0 where
  pub secrets : GoMap SecretKey SecretData
  pub cert_map : CertMap

-- The two results of getCert, of which one is nil.
abbrev pub Loaded : Type 0
Loaded = GoError ⊎ Certificate

abbrev pub cert_of : Loaded → Option Certificate
cert_of (inl err) = none
cert_of (inr cert) = some cert

abbrev pub err_of : Loaded → Option GoError
err_of (inl err) = some err
err_of (inr cert) = none

-- `sec[k]`, which is nil for a missing key.
abbrev pub field_of : GoString → SecretData → GoString
field_of k sec = elim (lookup k sec) [ none ↦ [] | some v ↦ v ]

-- The body of the loops of `updateSecret`.
unfoldable pub set_cert : SecretKey → Option Certificate → CertMapEntry → CertMapEntry
set_cert key cert cme = if cme.sec == key then record cme { cert = cert } else cme

-- Entries that one pointer stands for are changed alike, so each host holds its own copy.
unfoldable pub update_secret : SecretKey → Option Certificate → CertMap → CertMap
unfolding set_cert
update_secret key cert cm = record {
  set = map_values (map (set_cert key cert)) cm.set;
  defaults = map (set_cert key cert) cm.defaults;
}

abbrev pub key_of : KubeSecret → SecretKey
key_of sobj = record { namespace = sobj.meta.namespace; name = sobj.meta.name }

abbrev pub is_some {ℓ} : {A : Type ℓ} → Option A → Bool
is_some none = false
is_some (some a) = true

infixl 5 ◌>>=◌
abbrev ◌>>=◌ {ℓ κ} : {A : Type ℓ} {B : Type κ} → Option A → (A → Option B) → Option B
none >>= f = none
some a >>= f = f a

module _ (p : Platform) where
  -- The part of getCert after the secret is fetched.
  unfoldable pub load : SecretData → Loaded
  load sec =
      if field_of (bytes "tls.crt") sec == []
      then inl (bytes "no tls.crt in secret")
      else if field_of (bytes "tls.key") sec == []
      then inl (bytes "no tls.key in secret")
      else elim (p.x509_key_pair (field_of (bytes "tls.crt") sec)
          (field_of (bytes "tls.key") sec)) [
            | inl err ↦ inl err
            | inr (encoded, chain) ↦ elim (p.parse_certificate encoded) [
              | inl err ↦ inl err
              | inr leaf ↦ inr (record { encoded = encoded; chain = chain; leaf = leaf })
            ]
          ]

  -- getSecret, addItem and updateCert call getCert again: it is handed to them as `get`. The result
  -- none says that its fuel ran out.
  module _ (get : Certs → SecretKey → Option (Certs × Loaded)) where
    unfoldable pub update_cert : Certs → SecretKey → Option Certs
    unfolding update_secret
    update_cert st key = do
      (st', cert) ← get st key
      some (record st' { cert_map = update_secret key (cert_of cert) st'.cert_map })

    unfoldable pub add_data : Certs → KubeSecret → SecretData → Option Certs
    unfolding update_cert
    add_data st sobj contents =
        if is_some (lookup (bytes "tls.crt") contents)
          && is_some (lookup (bytes "tls.key") contents)
        then update_cert (record st { secrets = insert (key_of sobj) contents st.secrets })
            (key_of sobj)
        else some st

    unfoldable pub add_secret : Certs → KubeSecret → Option Certs
    unfolding add_data
    add_secret st sobj = elim sobj.contents [
      | none ↦ some st
      | some contents ↦ add_data st sobj contents
    ]

    unfoldable pub get_secret : Certs → SecretKey → Option (Certs × SecretData)
    unfolding add_secret
    get_secret st key = elim (lookup key st.secrets) [
      | some vs ↦ some (st, vs)
      | none ↦ elim (p.get_secret key.namespace key.name) [
        | none ↦ some (st, [])
        | some sec ↦ do
          st' ← add_secret st sec
          some (st', elim sec.contents [ none ↦ [] | some contents ↦ contents ])
      ]
    ]

  -- getCert with fuel for the calls of it that lie in one another.
  unfoldable pub get_cert_fuel : ℕ → Certs → SecretKey → Option (Certs × Loaded)
  unfolding get_secret load
  get_cert_fuel zero st key = none
  get_cert_fuel (suc fuel) st key = do
    (st', sec) ← get_secret (get_cert_fuel fuel) st key
    some (st', load sec)

  -- No call of getCert holds more than one other, so this fuel does not run out.
  abbrev pub cert_fuel : ℕ
  cert_fuel = 2

  unfoldable pub get_cert : Certs → SecretKey → Certs × Loaded
  unfolding get_cert_fuel
  get_cert st key = elim (get_cert_fuel cert_fuel st key) [ none ↦ (st, inl []) | some r ↦ r ]

  -- The handlers return no error, whatever they are given.
  unfoldable pub add_item : Certs → Object → Certs × Option GoError
  unfolding add_secret get_cert_fuel
  add_item st (secret sobj) = elim (add_secret (get_cert_fuel cert_fuel) st sobj) [
    | none ↦ (st, none)
    | some st' ↦ (st', none)
  ]
  add_item st _ = (st, none)

  unfoldable pub del_item : Certs → Object → Certs × Option GoError
  del_item st (secret sobj) = (record st { secrets = delete (key_of sobj) st.secrets }, none)
  del_item st _ = (st, none)
