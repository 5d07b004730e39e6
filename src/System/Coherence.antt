-- ===== src/System/Coherence.antt =====
-- The certificates of every reachable state of the controller.
use mathlib.Core.Path.{subst}
use mathlib.Core.List.{Memᴰ}
use minke.Base.{ℕ, Option, some, ◌≡◌, refl, arith, sym, ◌∙◌, All, All-append, All-Mem}
use minke.Base.Int.{ℤ}
use minke.GoText.{GoString}
use minke.GoMap.{lookup}
use minke.Kube.{KubeSecret}
use minke.Secrets
use minke.Secrets.{
  Platform, SecretData, Loaded, Certs, SecretKey-eq, Certificate, CertMapEntry, cert_of, load,
}
use minke.Certificates.Coherence.{IsLoaded, IsCoherent, add_item-IsCoherent, del_item-IsCoherent}
use minke.Certificates.Defaults.{IsNamed, set_defaults-IsCoherent}
use minke.Certificates.{ClientHelloInfo, controller_get_certificate}
use minke.Certificates.Serving.{entries_for, controller_get_certificate-Holder}
use minke.IngressHandler
use minke.IngressHandler.{State}
use minke.IngressHandler.Coherence
use minke.IngressHandler.Coherence.{del_item_certs}
use minke.Processor.{make_processor}
use minke.Processor.Keeps.{Keeps, process_next_item-Keeps}
use minke.Processor.Ingresses.{ing_updater}
use minke.Controller.{Processors}
use minke.System.{
  Env, System, platform_at, start_with, sec_updater, Step, notified, ended, ing_works, sec_works,
  svc_works, eps_works, preloads, asks, Reach, here, later,
}

-- Making a certificate of data does not use the indexer.
load_at :
    (p : Platform) (get_secret : GoString → GoString → Option KubeSecret)
    → load (record p { get_secret = get_secret }) ≡ load p
unfolding load
load_at p get_secret = refl

sec_updater-Keeps : (p : Platform) → Keeps (IsCoherent (load p)) (sec_updater p)
sec_updater-Keeps p = record {
  adds = λ st st' obj err c e.
      let left : (Secrets.add_item p st obj).0 ≡ st' = ground arith in
      subst (IsCoherent (load p)) left (add_item-IsCoherent p st obj c);
  dels = λ st st' obj err c e.
      let left : (Secrets.del_item p st obj).0 ≡ st' = ground arith in
      subst (IsCoherent (load p)) left (del_item-IsCoherent p st obj c);
}

module _ {Q : Type 0} (env : Env Q) where
  abbrev pub Coheres : Certs → Type 0
  Coheres certs = IsCoherent (load env.platform) certs

  -- What holds of a platform at an instant, holds of the one of the start.
  at_instant :
      (now : ℕ) (certs certs' : Certs)
      → (IsCoherent (load (platform_at env now)) certs
          → IsCoherent (load (platform_at env now)) certs')
      → Coheres certs
      → Coheres certs'
  at_instant now certs certs' h =
      subst (λ (l : SecretData → Loaded). IsCoherent l certs → IsCoherent l certs')
        (load_at env.platform (env.secrets_at now)) h

  ing_updater-Keeps :
      (now : ℕ)
      → Keeps
          (λ st. IsCoherent (load (platform_at env now)) st.certs)
          (ing_updater env.compile env.sort (platform_at env now) env.settings)
  ing_updater-Keeps now = record {
    adds = λ st st' obj err c e.
        IngressHandler.Coherence.add_item-IsCoherent env.compile env.sort (platform_at env now)
          env.settings st st' obj err c e;
    dels = λ st st' obj err c e.
        let left : (IngressHandler.del_item st obj).0 ≡ st' = ground arith in
        subst (λ (s : State). IsCoherent (load (platform_at env now)) s.certs) left
          (subst (IsCoherent (load (platform_at env now))) (sym (del_item_certs st obj)) c);
  }

  module _ (named : (now : ℕ) → IsNamed (platform_at env now)) where
    Step-Coheres : {s t : System Q} → Step env s t → Coheres s.certs → Coheres t.certs
    Step-Coheres (notified kind meta_key deletion_key e) c = c
    Step-Coheres (ended kind) c = c
    Step-Coheres {s} (ing_works now get_by_key go q st e) c =
        at_instant now s.certs st.certs
          (λ c'.
            process_next_item-Keeps
              (make_processor env.queue get_by_key
                (ing_updater env.compile env.sort (platform_at env now) env.settings))
              (λ (r : State). IsCoherent (load (platform_at env now)) r.certs)
              (ing_updater-Keeps now) go s.queues.ing q (record { ings = s.ings; certs = s.certs })
              st c' e)
          c
    Step-Coheres {s} (sec_works now get_by_key go q certs e) c =
        at_instant now s.certs certs
          (λ c'.
            process_next_item-Keeps
              (make_processor env.queue get_by_key (sec_updater (platform_at env now)))
              (IsCoherent (load (platform_at env now))) (sec_updater-Keeps (platform_at env now)) go
              s.queues.sec q s.certs certs c' e)
          c
    Step-Coheres (svc_works get_by_key go q svcs e) c = c
    Step-Coheres (eps_works get_by_key go q set e) c = c
    Step-Coheres {s} (preloads now keys) c =
        at_instant now s.certs _
          (set_defaults-IsCoherent (platform_at env now) s.certs keys (named now)) c
    Step-Coheres (asks key) c = c

    Reach-Coheres : {s t : System Q} → Coheres s.certs → Reach env s t → Coheres t.certs
    Reach-Coheres c here = c
    Reach-Coheres c (later r st) = Step-Coheres st (Reach-Coheres c r)

    start-Coheres : (queues : Processors Q) → Coheres (start_with queues).certs
    unfolding lookup
    start-Coheres queues = record { hosts = λ h. tt; defaults = tt }

    -- Whatever the informers report and the indexers hold, and in whatever order the workers and the
    -- preloading take their steps from the start, where each call is one step: an entry of the
    -- certificate map or of the defaults whose secret is stored has the certificate that is made of
    -- the stored data, or none if none can be made. The indexer of secrets is taken to give a secret only under its own name.
    pub Reach-IsCoherent :
        (queues : Processors Q) (s : System Q)
        → Reach env (start_with queues) s
        → IsCoherent (load env.platform) s.certs
    Reach-IsCoherent queues s r = Reach-Coheres (start-Coheres queues) r

    -- A certificate that is given in a handshake, in whatever state the steps of the workers and of the
    -- preloading lead to from the start, where each call is one step, is that of an entry of the name, of its wildcard name or of the defaults; and if the secret of
    -- that entry is stored, then it is the certificate that the stored data makes. The indexer of
    -- secrets is taken to give a secret only under its own name.
    pub Reach-Serves :
        (queues : Processors Q) (s : System Q) (now : ℤ) (info : ClientHelloInfo)
        (cert : Certificate)
        → Reach env (start_with queues) s
        → controller_get_certificate now s.certs.cert_map info ≡ some cert
        → (e : CertMapEntry) × Memᴰ e (entries_for s.certs.cert_map info)
          × ((vs : SecretData)
              → lookup e.sec s.certs.secrets ≡ some vs
              → cert_of (load env.platform vs) ≡ some cert)
    Reach-Serves queues s now info cert r given =
        let (e, m, q) = controller_get_certificate-Holder now s.certs.cert_map info cert given in
        let c = Reach-IsCoherent queues s r in
        let all : All (IsLoaded (load env.platform) s.certs.secrets)
            (entries_for s.certs.cert_map info) =
          All-append _ _ _ (c.hosts _) (All-append _ _ _ (c.hosts _) c.defaults) in
        (e, m, λ vs stored. sym (All-Mem _ _ e all m vs stored) ∙ q)
