-- ===== src/IngressHandler/Sections.antt =====
-- What the TLS sections of an ingress leave of its entries in the certificate map.
use mathlib.Core.List.{append-nil, append_assoc}
use minke.Base.{
  Bool, true, ◌&&◌, List, [], ◌∷◌, ◌++◌, Option, if◌then◌else◌, ◌==◌, List_ℕ-eq, ℕ_eq, ◌≡◌, refl,
  arith, ap, sym, ◌∙◌, Bool-cases, Option-cases, inl, inr, length,
}
use minke.GoText.{GoString, elem}
use minke.Panic.{ret, throw, runtime, >>=-eq-ret}
use minke.Kube.{SpecRule, IngressTls, KubeIngress, ingress, GoError}
use minke.Ingress.{Regexp, Ingress, IngressHostGroup, IngressSet}
use minke.Secrets.{SecretKey, Platform, Certs}
use minke.Certificates.{entries_at, update_ingress}
use minke.IngressHandler.Wanted.{key_of}
use minke.Certificates.Entries.{entry, own, own-update_ingress}
use minke.IngressHandler.{
  Settings, State, our_class, redirect_of, add_rules, add_tls, add_ours, add_item,
}

-- The hosts of the rules, but for the empty one.
abbrev pub rule_hosts : List SpecRule → List GoString
rule_hosts [] = []
rule_hosts (rule ∷ rules) =
    if rule.host == [] then rule_hosts rules else rule.host ∷ rule_hosts rules

-- The secret of a section.
abbrev pub secret_of : KubeIngress → IngressTls → SecretKey
secret_of ing t = record { namespace = ing.meta.namespace; name = t.secret_name }

module _ (compile : GoString → Option Regexp) where
  -- The loop over the rules collects their hosts.
  add_rules-hosts :
      (ing : KubeIngress) (redir : Bool) (rules : List SpecRule) (newset set : IngressSet)
      (hosts names : List GoString)
      → add_rules compile ing redir rules newset hosts ≡ ret (set, names)
      → names ≡ hosts ++ rule_hosts rules
  unfolding add_rules
  add_rules-hosts ing redir [] newset set hosts names e =
      let same : hosts ≡ names = ground arith in sym same ∙ sym (append-nil hosts)
  add_rules-hosts ing redir (rule ∷ rules) newset set hosts names e =
      elim (Option-cases rule.http) [
        | inl missing ↦
            let panics : throw runtime ≡ ret (set, names) = rw missing at e in
            let no : ⊥ = ground arith in elim no [ ]
        | inr (paths, q) ↦
            let ih = add_rules-hosts ing redir rules _ set _ names (rw q at e) in
            elim (Bool-cases (rule.host == [])) [
              | inl t ↦ ih ∙ rw t refl
              | inr t ↦ ih ∙ rw t (append_assoc hosts (rule.host ∷ []) (rule_hosts rules))
            ]
      ]

  module _ (p : Platform) where
    add_tls-append :
        (ing : KubeIngress) (hosts : List GoString) (before : List IngressTls) (t : IngressTls)
        (certs : Certs)
        → add_tls compile p ing hosts (before ++ t ∷ []) certs
          ≡ update_ingress p
              (add_tls compile p ing hosts before certs)
              (key_of ing)
              (secret_of ing t)
              (if length t.hosts == 0 then hosts else [])
    unfolding add_tls
    add_tls-append ing hosts [] t certs = refl
    add_tls-append ing hosts (b ∷ before) t certs = add_tls-append ing hosts before t _

    own-add_tls :
        (ing : KubeIngress) (hosts : List GoString) (before : List IngressTls) (t : IngressTls)
        (certs : Certs) (h : GoString)
        → own
            (key_of ing)
            (entries_at h (add_tls compile p ing hosts (before ++ t ∷ []) certs).cert_map.set)
          ≡ (if length t.hosts == 0 && elem h hosts
              then entry p (add_tls compile p ing hosts before certs) (key_of ing) (secret_of ing t)
                ∷ []
              else [])
    own-add_tls ing hosts before t certs h =
        ap (λ (s : Certs). own (key_of ing) (entries_at h s.cert_map.set))
          (add_tls-append ing hosts before t certs)
        ∙ (own-update_ingress p (add_tls compile p ing hosts before certs) (key_of ing)
              (secret_of ing t) (if length t.hosts == 0 then hosts else []) h
            ∙ elim (Bool-cases (length t.hosts == 0)) [ inl q ↦ rw q refl | inr q ↦ rw q refl ])

    module _ (sort : (Ingress → Ingress → Bool) → IngressHostGroup → IngressHostGroup)
        (c : Settings) where
      -- After an ingress of ours is taken in that has TLS sections, only the last of these decides
      -- on the ingress's entries in the certificate map. If that section names hosts, the ingress
      -- has no entry under any host, whatever the section names. If it names none, the ingress has
      -- one entry under each host of its rules but the empty one, with what getCert gives for the
      -- section's secret after the sections before it, and no other entry.
      pub own-add_item :
          (st st' : State) (ing : KubeIngress) (before : List IngressTls) (t : IngressTls)
          (err : Option GoError) (h : GoString)
          → our_class c ing ≡ true
          → ing.tls ≡ before ++ t ∷ []
          → add_item compile sort p c st (ingress ing) ≡ ret (st', err)
          → own (key_of ing) (entries_at h st'.certs.cert_map.set) ≡ (
              if length t.hosts == 0 && elem h (rule_hosts ing.rules)
              then entry p
                  (add_tls compile p ing (rule_hosts ing.rules) before st.certs)
                  (key_of ing)
                  (secret_of ing t)
                ∷ []
              else [])
      unfolding add_item add_ours
      own-add_item st st' ing before t err h ours sections e =
          let redir : Bool = redirect_of c.default_http_redir ing.meta.annotations in
          let (s, taken, rest) = >>=-eq-ret (add_ours compile sort p c st ing) _ (rw ours at e) in
          let ((set, names), collected, left) =
            >>=-eq-ret (add_rules compile ing redir ing.rules [] []) _ taken in
          let named : names ≡ rule_hosts ing.rules =
            add_rules-hosts ing redir ing.rules [] set [] names collected in
          let certs : add_tls compile p ing names ing.tls st.certs ≡ st'.certs = ground arith in
          let certs' : add_tls compile p ing (rule_hosts ing.rules) (before ++ t ∷ []) st.certs
              ≡ st'.certs =
            rw (named, sections) at certs in
          ap (λ (s' : Certs). own (key_of ing) (entries_at h s'.cert_map.set)) (sym certs')
          ∙ own-add_tls ing (rule_hosts ing.rules) before t st.certs h
