-- ===== src/Certificates/Race.antt =====
-- Which orders of the steps of updateIngress and addItem leave the certificate map coherent.
use mathlib.Core.Path.{subst}
use minke.Base.{
  true, not, List, [], ◌∷◌, ◌++◌, Option, some, arith, List_ℕ-eq, inl, inr, if◌then◌else◌, ◌==◌,
  ◌≡◌, ◌≢◌, ◌⊎◌, refl, ap, sym, ◌∙◌, All, All-right, filter,
}
use minke.GoText.{GoString, elem}
use minke.GoMap.{lookup, insert}
use minke.Secrets.{
  IngressKey, IngressKey-eq, SecretKey, SecretKey-eq, Platform, CertMapEntry, Certs, SecretData,
  cert_of, err_of, load, key_of, update_secret, add_item,
}
use minke.Certificates.{entries_at, update_ingress}
use minke.Certificates.Entries.{entries_at-commit_ingress}
use minke.Secrets.Loading.{has_pair, stored, add_item_lem}
use minke.GoMap.Laws.{lookup-insert}
use minke.Kube.{KubeSecret, secret, GoError}
use minke.Certificates.Coherence.{IsLoaded, IsCoherent}
use minke.Certificates.Interleaving.{
  Move, fetches, commits, stores, loads, refreshes, World, act, acts, of_ingress, of_secret,
  Interleaves, ends, first, second,
}
use minke.Certificates.Steps.{
  Done, stores-At, commits-At, fetches-At, loads-Ready, fetches-Ready, commits-Ready,
  refreshes-Done, commits-IsCoherent, fetches-Done, held-fetches, held-loads, st-fetches, loads_lem,
}

-- The ingress's certificate is fetched before the new data is stored, and its entry is put in after
-- the entries are refreshed.
abbrev pub stale_order : List Move
stale_order = fetches ∷ stores ∷ loads ∷ refreshes ∷ commits ∷ []

module _ (p : Platform) (ing : IngressKey) (key : SecretKey) (hosts : List GoString)
    (contents : SecretData) where
  abbrev does : Move → World → World
  does = act p ing key hosts contents

  -- The entry is put in last, when the new data was there to be fetched.
  last-IsCoherent :
      (w : World)
      → Done p ing key hosts contents w
      → w.held ≡ load p contents
      → IsCoherent (load p) (does commits w).st
  last-IsCoherent w d held =
      commits-IsCoherent p ing key hosts contents w contents d.coherent d.has held

  fetched-IsCoherent :
      (w : World) (vs : SecretData)
      → IsCoherent (load p) w.st
      → lookup key w.st.secrets ≡ some vs
      → IsCoherent (load p) (does fetches w).st
  fetched-IsCoherent w vs c has =
      subst (IsCoherent (load p)) (sym (st-fetches p ing key hosts contents w vs has)) c

  -- Both steps of the ingress's worker come first.
  taken-IsCoherent :
      (w : World) (vs : SecretData)
      → IsCoherent (load p) w.st
      → lookup key w.st.secrets ≡ some vs
      → IsCoherent (load p) (does commits (does fetches w)).st
  taken-IsCoherent w vs c has =
      let has1 : lookup key (does fetches w).st.secrets ≡ some vs =
        ap (λ (s : Certs). lookup key s.secrets) (st-fetches p ing key hosts contents w vs has)
        ∙ has in
      commits-IsCoherent p ing key hosts contents (does fetches w) vs
        (fetched-IsCoherent w vs c has) has1 (held-fetches p ing key hosts contents w vs has)

  -- One worker takes in an ingress whose TLS section refers to a stored secret, while another takes
  -- in new data of that secret. In whatever order the locked steps of the two are taken, a map that
  -- was coherent is coherent at the end, its entries having the certificates that the stored data
  -- makes, but for one order: the first fetches the certificate before the second stores the data,
  -- and puts in its entry after the second has refreshed the entries.
  pub interleaved-IsCoherent :
      (ms : List Move) (w : World) (vs : SecretData)
      → Interleaves of_ingress of_secret ms
      → IsCoherent (load p) w.st
      → lookup key w.st.secrets ≡ some vs
      → (ms ≡ stale_order) ⊎ IsCoherent (load p) (acts p ing key hosts contents ms w).st
  interleaved-IsCoherent _ w vs (first (first (second (second (second ends))))) c has = inr (
      Done.coherent (
        refreshes-Done p ing key hosts contents _ (
          loads-Ready p ing key hosts contents _ (
            stores-At p ing key hosts contents (does commits (does fetches w))
              (taken-IsCoherent w vs c has)))))
  interleaved-IsCoherent _ w vs (first (second (first (second (second ends))))) c has = inr (
      Done.coherent (
        refreshes-Done p ing key hosts contents _ (
          loads-Ready p ing key hosts contents _ (
            commits-At p ing key hosts contents _ (
              stores-At p ing key hosts contents (does fetches w)
                (fetched-IsCoherent w vs c has))))))
  interleaved-IsCoherent _ w vs (first (second (second (first (second ends))))) c has = inr (
      Done.coherent (
        refreshes-Done p ing key hosts contents _ (
          commits-Ready p ing key hosts contents _ (
            loads-Ready p ing key hosts contents _ (
              stores-At p ing key hosts contents (does fetches w)
                (fetched-IsCoherent w vs c has))))))
  interleaved-IsCoherent _ w vs (second (first (first (second (second ends))))) c has = inr (
      Done.coherent (
        refreshes-Done p ing key hosts contents _ (
          loads-Ready p ing key hosts contents _ (
            commits-At p ing key hosts contents _
              (fetches-At p ing key hosts contents _ (stores-At p ing key hosts contents w c))))))
  interleaved-IsCoherent _ w vs (second (first (second (first (second ends))))) c has = inr (
      Done.coherent (
        refreshes-Done p ing key hosts contents _ (
          commits-Ready p ing key hosts contents _ (
            loads-Ready p ing key hosts contents _
              (fetches-At p ing key hosts contents _ (stores-At p ing key hosts contents w c))))))
  interleaved-IsCoherent _ w vs (second (second (first (first (second ends))))) c has = inr (
      Done.coherent (
        refreshes-Done p ing key hosts contents _ (
          commits-Ready p ing key hosts contents _ (
            fetches-Ready p ing key hosts contents _
              (loads-Ready p ing key hosts contents _ (stores-At p ing key hosts contents w c))))))
  interleaved-IsCoherent _ w vs (first (second (second (second (first ends))))) c has = inl refl
  interleaved-IsCoherent _ w vs (second (first (second (second (first ends))))) c has =
      let a = stores-At p ing key hosts contents w c in
      let held = held-fetches p ing key hosts contents (does stores w) contents a.has in
      let b = fetches-At p ing key hosts contents _ a in
      let kept =
        held-loads p ing key hosts contents (does fetches (does stores w)) contents b.has in
      inr (
        last-IsCoherent _
          (refreshes-Done p ing key hosts contents _ (loads-Ready p ing key hosts contents _ b))
          (kept ∙ held))
  interleaved-IsCoherent _ w vs (second (second (first (second (first ends))))) c has =
      let a = loads-Ready p ing key hosts contents _ (stores-At p ing key hosts contents w c) in
      let held =
        held-fetches p ing key hosts contents (does loads (does stores w)) contents a.at.has in
      inr (
        last-IsCoherent _
          (refreshes-Done p ing key hosts contents _ (fetches-Ready p ing key hosts contents _ a))
          held)
  interleaved-IsCoherent _ w vs (second (second (second (first (first ends))))) c has =
      let d =
        refreshes-Done p ing key hosts contents _
          (loads-Ready p ing key hosts contents _ (stores-At p ing key hosts contents w c)) in
      let held =
        held-fetches p ing key hosts contents (does refreshes (does loads (does stores w))) contents
          d.has in
      inr (last-IsCoherent _ (fetches-Done p ing key hosts contents _ d) held)

  -- An entry that is put in is as it should be only if it has what the stored data makes.
  committed_cert :
      (w : World) (h : GoString)
      → elem h hosts ≡ true
      → lookup key w.st.secrets ≡ some contents
      → IsCoherent (load p) (does commits w).st
      → cert_of w.held ≡ cert_of (load p contents)
  committed_cert w h listed has c =
      let es = filter (λ cme. not (cme.ing == ing)) (entries_at h w.st.cert_map.set) in
      let e : CertMapEntry = record {
        cert = cert_of w.held;
        sec = key;
        ing = ing;
        err = err_of w.held;
      } in
      let at : All (IsLoaded (load p) w.st.secrets) (es ++ (if elem h hosts then e ∷ [] else [])) =
        subst (All (IsLoaded (load p) w.st.secrets))
          (entries_at-commit_ingress ing key hosts w.held w.st h) (c.hosts h) in
      let alone : All (IsLoaded (load p) w.st.secrets) (e ∷ []) =
        rw listed at (All-right (IsLoaded (load p) w.st.secrets) es _ at) in
      alone.0 contents has

  -- That one order is one of the orders of the two workers' steps, and it loses the update: if the
  -- map was coherent, the old data and the new make different certificates, and updateIngress is
  -- called with a host to put the entry under, then the map is not coherent at its end.
  pub stale_order-stale :
      (w : World) (vs : SecretData) (h : GoString)
      → IsCoherent (load p) w.st
      → lookup key w.st.secrets ≡ some vs
      → elem h hosts ≡ true
      → cert_of (load p vs) ≢ cert_of (load p contents)
      → Interleaves of_ingress of_secret stale_order
        × (¬ IsCoherent (load p) (acts p ing key hosts contents stale_order w).st)
  stale_order-stale w vs h c has listed other =
      let a = stores-At p ing key hosts contents (does fetches w) (fetched-IsCoherent w vs c has) in
      let r = loads-Ready p ing key hosts contents (does stores (does fetches w)) a in
      let d =
        refreshes-Done p ing key hosts contents (does loads (does stores (does fetches w))) r in
      let held =
        held-loads p ing key hosts contents (does stores (does fetches w)) contents a.has
        ∙ held-fetches p ing key hosts contents w vs has in
      (
        first (second (second (second (first ends)))),
        λ wrong. other (
            sym (ap cert_of held)
            ∙ committed_cert (does refreshes (does loads (does stores (does fetches w)))) h listed
                d.has wrong),
      )

  -- The steps one after the other are the two calls, as they are modelled elsewhere.
  of_ingress_lem :
      (w : World)
      → (acts p ing key hosts contents of_ingress w).st ≡ update_ingress p w.st ing key hosts
  unfolding update_ingress
  of_ingress_lem w = refl

  of_secret_lem :
      (w : World) (sobj : KubeSecret)
      → key_of sobj ≡ key
      → sobj.contents ≡ some contents
      → has_pair p contents ≡ true
      → (acts p ing key hosts contents of_secret w).st ≡ (add_item p w.st (secret sobj)).0
  of_secret_lem w sobj named full pair =
      let has : lookup key (does stores w).st.secrets ≡ some contents =
        lookup-insert key key contents w.st.secrets ∙ ground arith in
      let whole : (add_item p w.st (secret sobj)).0 ≡ stored p w.st sobj =
        ap (λ (r : Certs × Option GoError). r.0) (add_item_lem p w.st sobj) in
      let made : stored p w.st sobj ≡ record {
        secrets = insert key contents w.st.secrets;
        cert_map = update_secret key (cert_of (load p contents)) w.st.cert_map;
      } =
        rw (stored, full, pair, named) refl in
      ap (λ (x : World). (does refreshes x).st)
        (sym (loads_lem p ing key hosts contents (does stores w) contents has))
      ∙ sym (whole ∙ made)
