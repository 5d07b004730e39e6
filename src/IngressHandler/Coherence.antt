-- ===== src/IngressHandler/Coherence.antt =====
-- What the handler of ingresses makes of the certificate map's coherence.
use mathlib.Core.Path.{subst}
use minke.Base.{Bool, List, [], ◌∷◌, Option, none, ◌≡◌, refl, arith, Bool-cases, inl, inr}
use minke.GoText.{GoString}
use minke.Panic.{ret, >>=-eq-ret}
use minke.Kube.{IngressTls, KubeIngress, Object, nil, ingress, service, secret, endpoints, GoError}
use minke.Ingress.{Regexp, Ingress, IngressHostGroup}
use minke.Secrets.{Platform, Certs, load}
use minke.Certificates.Coherence.{IsCoherent, update_ingress-IsCoherent}
use minke.IngressHandler.{
  Settings, State, our_class, redirect_of, add_rules, add_tls, add_ours, add_item, del_item,
}

module _ (compile : GoString → Option Regexp)
    (sort : (Ingress → Ingress → Bool) → IngressHostGroup → IngressHostGroup) (p : Platform)
    (c : Settings) where
  add_tls-IsCoherent :
      (ing : KubeIngress) (hosts : List GoString) (tls : List IngressTls) (certs : Certs)
      → IsCoherent (load p) certs
      → IsCoherent (load p) (add_tls compile p ing hosts tls certs)
  unfolding add_tls
  add_tls-IsCoherent ing hosts [] certs h = h
  add_tls-IsCoherent ing hosts (t ∷ ts) certs h =
      add_tls-IsCoherent ing hosts ts _ (update_ingress-IsCoherent p certs _ _ _ h)

  pub add_item-IsCoherent :
      (st next : State) (obj : Object) (err : Option GoError)
      → IsCoherent (load p) st.certs
      → add_item compile sort p c st obj ≡ ret (next, err)
      → IsCoherent (load p) next.certs
  unfolding add_item add_ours
  add_item-IsCoherent st next (ingress ing) err h e = elim (Bool-cases (our_class c ing)) [
    | inl ours ↦
        let redir : Bool = redirect_of c.default_http_redir ing.meta.annotations in
        let (st', taken, left) = >>=-eq-ret (add_ours compile sort p c st ing) _ (rw ours at e) in
        let ((newset, hosts), collected, made) =
          >>=-eq-ret (add_rules compile ing redir ing.rules [] []) _ taken in
        let same : st' ≡ next = ground arith in
        let certs : add_tls compile p ing hosts ing.tls st.certs ≡ st'.certs = ground arith in
        subst (λ (s : State). IsCoherent (load p) s.certs) same
          (subst (IsCoherent (load p)) certs (add_tls-IsCoherent ing hosts ing.tls st.certs h))
    | inr other ↦
        let q : ret (st, none) ≡ ret (next, err) = rw other at e in
        let same : st ≡ next = ground arith in
        subst (λ (s : State). IsCoherent (load p) s.certs) same h
  ]
  add_item-IsCoherent st next nil err h e =
      let same : st ≡ next = ground arith in
      subst (λ (s : State). IsCoherent (load p) s.certs) same h
  add_item-IsCoherent st next (service s) err h e =
      let same : st ≡ next = ground arith in
      subst (λ (s : State). IsCoherent (load p) s.certs) same h
  add_item-IsCoherent st next (secret s) err h e =
      let same : st ≡ next = ground arith in
      subst (λ (s : State). IsCoherent (load p) s.certs) same h
  add_item-IsCoherent st next (endpoints s) err h e =
      let same : st ≡ next = ground arith in
      subst (λ (s : State). IsCoherent (load p) s.certs) same h

pub del_item_certs : (st : State) (obj : Object) → (del_item st obj).0.certs ≡ st.certs
unfolding del_item
del_item_certs st (ingress ing) = refl
del_item_certs st nil = refl
del_item_certs st (service s) = refl
del_item_certs st (secret s) = refl
del_item_certs st (endpoints s) = refl
