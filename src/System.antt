-- ===== src/System.antt =====
-- The controller as a whole: the four workers, the queues that the informers fill, and the requests,
-- as steps on one state. A step is what happens under one lock, or in one call of a worker.
pub mod Invariant
pub mod Coherence
pub mod Tests
use minke.Base.{ℕ, Bool, List, [], ◌∷◌, Option, none, some, ◌⊎◌, ◌≡◌}
use minke.GoText.{GoString}
use minke.GoMap.{GoMap}
use minke.Panic.{Run, ret}
use minke.Http.{Url, Request}
use minke.Kube.{KubeSecret, Object, GoError}
use minke.Endpoints
use minke.Endpoints.{ServiceKey, EpsSet, get_next_addr}
use minke.Ingress.{Regexp, Ingress, IngressHostGroup, IngressSet}
use minke.Secrets
use minke.Secrets.{SecretKey, Platform, Certs}
use minke.Certificates.{set_defaults}
use minke.Services
use minke.Services.{Services}
use minke.IngressHandler.{Settings, State}
use minke.Transport.{HttpTransport}
use minke.Proxy.{Header, Routes, handler}
use minke.Processor.{
  Queue, Fetched, Updater, make_processor, Event, on_event, run_ends, process_next_item,
}
use minke.Processor.Ingresses.{ing_updater}
use minke.Controller.{Processors, Kind, on_kind}

-- What the controller is given: the settings, and the packages that it calls.
pub record Env (Q : Type 0) : Type 0 where
  pub compile : GoString → Option Regexp
  pub sort : (Ingress → Ingress → Bool) → IngressHostGroup → IngressHostGroup
  -- The packages that make certificates, and the indexer of secrets at each instant.
  pub platform : Platform
  pub secrets_at : ℕ → GoString → GoString → Option KubeSecret
  pub settings : Settings
  pub unmarshal : GoString → GoMap GoString GoString
  pub url_string : Url → GoString
  pub outgoing : Request → Request
  pub transport : HttpTransport
  pub set_quic_headers : Option (Header → Header)
  pub queue : Queue Q

pub record System (Q : Type 0) : Type 0 where
  pub queues : Processors Q
  pub ings : IngressSet
  pub certs : Certs
  pub svc : Services
  pub eps : EpsSet

-- The state that New makes, on four queues.
abbrev pub start_with : {Q : Type 0} → Processors Q → System Q
start_with queues = record {
  queues = queues;
  ings = [];
  certs = record { secrets = []; cert_map = record { set = []; defaults = [] } };
  svc = [];
  eps = [];
}

abbrev pub sec_updater : Platform → Updater Certs
sec_updater platform = record {
  add_item = λ st obj. ret (Secrets.add_item platform st obj);
  del_item = λ st obj. ret (Secrets.del_item platform st obj);
}

abbrev pub svc_updater : (GoString → GoMap GoString GoString) → Updater Services
svc_updater unmarshal = record {
  add_item = λ st obj. ret (Services.add_item unmarshal st obj);
  del_item = λ st obj. ret (Services.del_item st obj);
}

abbrev pub eps_updater : Updater EpsSet
eps_updater = record {
  add_item = λ st obj. ret (Endpoints.add_item st obj);
  del_item = λ st obj. ret (Endpoints.del_item st obj);
}

-- The platform at an instant.
abbrev pub platform_at : {Q : Type 0} → Env Q → ℕ → Platform
platform_at env now = record (env.platform) { get_secret = env.secrets_at now }

module _ {Q : Type 0} (env : Env Q) where
  -- The indexers are free in each step: they change behind the controller's back.
  pub data Step (s : System Q) : System Q → Type 0 where
    notified :
        (kind : Kind) (meta_key deletion_key : Object → GoError ⊎ GoString) (e : Event)
        → Step s (record s {
          queues = on_kind kind (on_event env.queue meta_key deletion_key e) s.queues;
        })
    -- The end of `run`.
    ended :
        (kind : Kind) → Step s (record s { queues = on_kind kind (run_ends env.queue) s.queues })
    ing_works :
        (now : ℕ) (get_by_key : GoString → Fetched) (go : Bool) (q : Q) (st : State)
        → process_next_item
            (make_processor env.queue get_by_key
              (ing_updater env.compile env.sort (platform_at env now) env.settings))
            s.queues.ing
            (record { ings = s.ings; certs = s.certs })
          ≡ ret (go, (q, st))
        → Step s
            (record s { queues = record s.queues { ing = q }; ings = st.ings; certs = st.certs })
    sec_works :
        (now : ℕ) (get_by_key : GoString → Fetched) (go : Bool) (q : Q) (certs : Certs)
        → process_next_item
            (make_processor env.queue get_by_key (sec_updater (platform_at env now)))
            s.queues.sec
            s.certs
          ≡ ret (go, (q, certs))
        → Step s (record s { queues = record s.queues { sec = q }; certs = certs })
    svc_works :
        (get_by_key : GoString → Fetched) (go : Bool) (q : Q) (svcs : Services)
        → process_next_item
            (make_processor env.queue get_by_key (svc_updater env.unmarshal))
            s.queues.svc
            s.svc
          ≡ ret (go, (q, svcs))
        → Step s (record s { queues = record s.queues { svc = q }; svc = svcs })
    eps_works :
        (get_by_key : GoString → Fetched) (go : Bool) (q : Q) (set : EpsSet)
        → process_next_item (make_processor env.queue get_by_key eps_updater) s.queues.eps s.eps
          ≡ ret (go, (q, set))
        → Step s (record s { queues = record s.queues { eps = q }; eps = set })
    -- The call of setDefaults in Run.
    preloads :
        (now : ℕ) (keys : List SecretKey)
        → Step s (record s { certs = set_defaults (platform_at env now) s.certs keys })
    -- A request for an address, from whatever rule was matched before.
    asks : (key : ServiceKey) → Step s (record s { eps = (get_next_addr s.eps key).0 })

  pub data Reach (s : System Q) : System Q → Type 0 where
    here : Reach s s
    later : {t u : System Q} → Reach s t → Step t u → Reach s u

  -- What a request meets: getTarget reads the ingresses, the services and the endpoints under three
  -- locks, so each is that of a state of its own.
  abbrev pub routes : System Q → System Q → System Q → Routes
  routes s t u = record {
    ings = s.ings;
    svc = t.svc;
    eps = u.eps;
    set_quic_headers = env.set_quic_headers;
  }
