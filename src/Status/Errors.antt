-- ===== src/Status/Errors.antt =====
-- What the status says of an entry of the certificate map after its secret was updated.
use minke.Base.{
  false, List, [], ◌∷◌, Option, none, some, if◌then◌else◌, ◌==◌, List_ℕ-eq, List_ℕ-discrete, ◌≡◌,
  refl, arith, ap, sym, ◌∙◌, Bool-cases, inl, inr,
}
use minke.Base.Int.{ℤ}
use minke.GoText.{GoString, bytes}
use minke.GoMap.Laws.{map_option}
use minke.Kube.{GoError}
use minke.Secrets.{SecretKey, SecretKey-eq, Certificate, CertMapEntry, set_cert}
use minke.Status.{
  Json, Fields, no_fields, field, set_field, field_at, set_some, set_list, set_cert_fields,
  entry_fields,
}

field_at-set_field :
    (j k : GoString) (v : Json) (fs : Fields)
    → field_at k (set_field j v fs) ≡ (if j == k then some v else field_at k fs)
field_at-set_field j k v no_fields = refl
field_at-set_field j k v (field i w fs) = ground (arith, field_at-set_field j k v fs)

-- A field that the value decides.
field_at-set_some {ℓ} :
    {A : Type ℓ} (k : GoString) (f : A → Json) (o : Option A) (fs : Fields)
    → field_at k fs ≡ none
    → field_at k (set_some k f o fs) ≡ map_option f o
field_at-set_some k f none fs e = e
field_at-set_some k f (some a) fs e = ground (arith, field_at-set_field k k (f a) fs)

other_set_some {ℓ} :
    {A : Type ℓ} (j k : GoString) (f : A → Json) (o : Option A) (fs : Fields)
    → (j == k) ≡ false
    → field_at k (set_some j f o fs) ≡ field_at k fs
other_set_some j k f none fs e = refl
other_set_some j k f (some a) fs e = rw (field_at-set_field j k (f a) fs, e) refl

other_set_list :
    (j k : GoString) (ts : List GoString) (fs : Fields)
    → (j == k) ≡ false
    → field_at k (set_list j ts fs) ≡ field_at k fs
other_set_list j k [] fs e = refl
other_set_list j k (t ∷ ts) fs e = rw (field_at-set_field j k _ fs, e) refl

module _ (time_json : ℤ → Json) (error_json : GoError → Json) where
  -- The fields of a certificate say when it ends, and leave the error alone.
  cert_error :
      (cert : Option Certificate) (fs : Fields)
      → field_at (bytes "error") (set_cert_fields time_json error_json cert fs)
        ≡ field_at (bytes "error") fs
  unfolding List_ℕ-discrete
  cert_error none fs = refl
  cert_error (some cert) fs =
      other_set_list (bytes "ipAddresses") (bytes "error") cert.leaf.ip_addresses _ refl
      ∙ (other_set_list (bytes "dnsName") (bytes "error") cert.leaf.dns_names _ refl
          ∙ simp (field_at-set_field))

  cert_end :
      (cert : Option Certificate) (fs : Fields)
      → field_at (bytes "notAfter") fs ≡ none
      → field_at (bytes "notAfter") (set_cert_fields time_json error_json cert fs)
        ≡ map_option (λ (c : Certificate). time_json c.leaf.not_after) cert
  unfolding List_ℕ-discrete
  cert_end none fs e = e
  cert_end (some cert) fs e =
      other_set_list (bytes "ipAddresses") (bytes "notAfter") cert.leaf.ip_addresses _ refl
      ∙ (other_set_list (bytes "dnsName") (bytes "notAfter") cert.leaf.dns_names _ refl
          ∙ simp (field_at-set_field))

  -- What the status of an entry says.
  entry_says :
      (cme : CertMapEntry)
      → (field_at (bytes "error") (entry_fields time_json error_json cme)
          ≡ map_option error_json cme.err)
        × (field_at (bytes "notAfter") (entry_fields time_json error_json cme)
            ≡ map_option (λ (c : Certificate). time_json c.leaf.not_after) cme.cert)
  unfolding entry_fields List_ℕ-discrete
  entry_says cme = (
    field_at-set_some (bytes "error") error_json cme.err _ (cert_error cme.cert _),
    other_set_some (bytes "error") (bytes "notAfter") error_json cme.err _ refl
        ∙ cert_end cme.cert _ refl,
  )

  set_cert_says :
      (key : SecretKey) (cert : Option Certificate) (cme : CertMapEntry)
      → ((set_cert key cert cme).err ≡ cme.err)
        × ((set_cert key cert cme).cert ≡ (if cme.sec == key then cert else cme.cert))
  unfolding set_cert
  set_cert_says key cert cme = elim (Bool-cases (cme.sec == key)) [
    | inl t ↦ rw t (refl, refl)
    | inr t ↦ rw t (refl, refl)
  ]

  set_cert_fields_of :
      (key : SecretKey) (cert : Option Certificate) (cme : CertMapEntry)
      → entry_fields time_json error_json (set_cert key cert cme) ≡ (
          if cme.sec == key
          then entry_fields time_json error_json (record cme { cert = cert })
          else entry_fields time_json error_json cme)
  unfolding set_cert
  set_cert_fields_of key cert cme = elim (Bool-cases (cme.sec == key)) [
    | inl t ↦ rw t refl
    | inr t ↦ rw t refl
  ]

  -- When a secret is updated, the status of an entry that refers to it says when the new certificate
  -- ends, if there is one; but it says of an error what it said before, whether the new data loads or
  -- not. The whole status of the entry is that of an entry with the new certificate and all else as
  -- it was; and no field of the status of another entry changes.
  pub entry_fields-set_cert :
      (key : SecretKey) (cert : Option Certificate) (cme : CertMapEntry)
      → (field_at (bytes "error") (entry_fields time_json error_json (set_cert key cert cme))
          ≡ field_at (bytes "error") (entry_fields time_json error_json cme))
        × (field_at (bytes "notAfter") (entry_fields time_json error_json (set_cert key cert cme))
            ≡ (if cme.sec == key
                then map_option (λ (c : Certificate). time_json c.leaf.not_after) cert
                else field_at (bytes "notAfter") (entry_fields time_json error_json cme)))
        × (entry_fields time_json error_json (set_cert key cert cme) ≡ (
            if cme.sec == key
            then entry_fields time_json error_json (record cme { cert = cert })
            else entry_fields time_json error_json cme))
  entry_fields-set_cert key cert cme =
      let new = entry_says (set_cert key cert cme) in
      let old = entry_says cme in
      let (same, cert_of_it) = set_cert_says key cert cme in
      (
        new.0 ∙ (ap (map_option error_json) same ∙ sym old.0),
        new.1
            ∙ (ap (map_option (λ (c : Certificate). time_json c.leaf.not_after)) cert_of_it
                ∙ ground (arith, old.1)),
        set_cert_fields_of key cert cme,
      )
