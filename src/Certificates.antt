-- ===== src/Certificates.antt =====
-- secrets.go, the certificate map: the entries of an ingress by host, the default entries, and the
-- certificate for a handshake; and `GetCertificate` of proxy.go.
pub mod Entries
pub mod Choice
pub mod Coherence
pub mod Defaults
pub mod Serving
pub mod Interleaving
pub mod Steps
pub mod Race
pub mod Tests
use minke.Base.{
  Bool, true, false, ◌&&◌, not, List, [], ◌∷◌, ◌++◌, Option, none, some, if◌then◌else◌, ◌==◌,
  List_ℕ-eq, filter,
}
use minke.Base.Int.{ℤ, ltb_ℤ}
use minke.GoText.{GoString, wildcard_name}
use minke.GoMap.{GoMap, lookup, insert, map_values}
use minke.Secrets.{
  IngressKey, IngressKey-eq, SecretKey, Platform, Certificate, CertMapEntry, CertMap, Certs, Loaded,
  cert_of, err_of, get_cert,
}

abbrev pub HostCerts : Type 0
HostCerts = GoMap GoString (List CertMapEntry)

-- `cm.set[h]`
abbrev pub entries_at : GoString → HostCerts → List CertMapEntry
entries_at h set = elim (lookup h set) [ none ↦ [] | some cmes ↦ cmes ]

-- The loop that makes `newset`.
unfoldable pub new_entries : CertMapEntry → List GoString → HostCerts → HostCerts
new_entries cme [] newset = newset
new_entries cme (h ∷ hosts) newset = new_entries cme hosts (insert h (cme ∷ []) newset)

-- The filter in place, which keeps the entries of the other ingresses.
unfoldable pub drop_ingress : IngressKey → HostCerts → HostCerts
drop_ingress key set = map_values (filter (λ cme. not (cme.ing == key))) set

-- The loop that appends `newset`.
unfoldable pub append_entries : HostCerts → HostCerts → HostCerts
append_entries [] set = set
append_entries ((h, cmes) ∷ newset) set =
    append_entries newset (insert h (entries_at h set ++ cmes) set)

-- The part of updateIngress after its call of getCert, which is done under the lock of the map.
abbrev pub commit_ingress : IngressKey → SecretKey → List GoString → Loaded → Certs → Certs
commit_ingress key sec hosts loaded st =
    let cme : CertMapEntry = record {
      cert = cert_of loaded;
      sec = sec;
      ing = key;
      err = err_of loaded;
    } in
    record st {
      cert_map = record (st.cert_map) {
        set = append_entries (new_entries cme hosts []) (drop_ingress key st.cert_map.set);
      };
    }

unfoldable pub update_ingress : Platform → Certs → IngressKey → SecretKey → List GoString → Certs
unfolding new_entries drop_ingress append_entries
update_ingress p st key sec hosts =
    let (st', loaded) = get_cert p st sec in commit_ingress key sec hosts loaded st'

-- The zero value of an ingress key.
abbrev pub no_ingress : IngressKey
no_ingress = record { namespace = []; name = [] }

-- The loop of `setDefaults`.
unfoldable pub default_entries :
    Platform → Certs → List SecretKey → List CertMapEntry → Certs × List CertMapEntry
default_entries p st [] certs = (st, certs)
default_entries p st (key ∷ keys) certs =
    let (st', loaded) = get_cert p st key in
    default_entries p st' keys (
      certs
      ++ record { cert = cert_of loaded; sec = key; ing = no_ingress; err = err_of loaded } ∷ [])

unfoldable pub set_defaults : Platform → Certs → List SecretKey → Certs
unfolding default_entries
set_defaults p st keys =
    let (st', certs) = default_entries p st keys [] in
    record st' { cert_map = record (st'.cert_map) { defaults = certs } }

-- The part of a tls.ClientHelloInfo that is read: the name, and whether SupportsCertificate
-- returns nil.
pub record ClientHelloInfo : Type 0 where
  pub server_name : GoString
  pub supports_certificate : Certificate → Bool

-- The test of the first three loops; `now` is the time of the call.
unfoldable pub is_current : ℤ → Certificate → Bool
is_current now cert = ltb_ℤ cert.leaf.not_before now && ltb_ℤ now cert.leaf.not_after

-- A loop that returns the first certificate that passes a test, and skips the nil ones.
unfoldable pub first_cert : (Certificate → Bool) → List CertMapEntry → Option Certificate
first_cert test [] = none
first_cert test (c ∷ cs) = elim c.cert [
  | none ↦ first_cert test cs
  | some cert ↦ let rest = first_cert test cs in if test cert then some cert else rest
]

-- SupportsCertificate on a pointer that is read here.
abbrev pub supports_read : ClientHelloInfo → Option Certificate → Bool
supports_read info none = false
supports_read info (some cert) = info.supports_certificate cert

-- The second loop, over the entries of the wildcard name, which reads the certificate of the entry
-- again for the call of SupportsCertificate, without the lock of the entry. In a call that is one
-- step the second reading gives what the first did.
unfoldable pub wildcard_loop : ℤ → ClientHelloInfo → List CertMapEntry → Option Certificate
unfolding is_current
wildcard_loop now info [] = none
wildcard_loop now info (c ∷ cs) = elim c.cert [
  | none ↦ wildcard_loop now info cs
  | some cert ↦
      let rest = wildcard_loop now info cs in
      if is_current now cert && supports_read info c.cert then some cert else rest
]

-- The first certificate, if it is not nil, and else the second.
abbrev pub or_else_cert : Option Certificate → Option Certificate → Option Certificate
or_else_cert (some cert) next = some cert
or_else_cert none next = next

-- The last loop, with `lastOption`.
unfoldable pub last_loop :
    ClientHelloInfo → List CertMapEntry → Option Certificate → Option Certificate
last_loop info [] last_option = last_option
last_loop info (c ∷ cs) last_option = elim c.cert [
  | none ↦ last_loop info cs last_option
  | some cert ↦
      let rest = last_loop info cs (or_else_cert last_option (some cert)) in
      if info.supports_certificate cert then some cert else rest
]

unfoldable pub get_certificate : ℤ → CertMap → ClientHelloInfo → Option Certificate
unfolding first_cert wildcard_loop last_loop is_current wildcard_name
get_certificate now cm info =
    let current = λ (cert : Certificate). is_current now cert && info.supports_certificate cert in
    let own = entries_at info.server_name cm.set in
    let wildcard = entries_at (wildcard_name info.server_name) cm.set in
    or_else_cert (first_cert current own) (
      or_else_cert (wildcard_loop now info wildcard) (
        or_else_cert (first_cert current cm.defaults) (
          or_else_cert (first_cert info.supports_certificate own) (
            or_else_cert (first_cert info.supports_certificate wildcard)
              (last_loop info cm.defaults none)))))

-- The controller's own GetCertificate.
unfoldable pub controller_get_certificate : ℤ → CertMap → ClientHelloInfo → Option Certificate
unfolding get_certificate
controller_get_certificate now cm info =
    if info.server_name == [] then none else get_certificate now cm info
