-- ===== src/System/Invariant.antt =====
-- What every reachable state of the controller keeps, and what a request gets of such states.
use mathlib.Core.Path.{subst}
use minke.Base.{◌≡◌, arith}
use minke.Http.{Request}
use minke.Endpoints
use minke.Endpoints.{EpsSet}
use minke.Endpoints.Invariant.{
  IsWellFormed, empty-IsWellFormed, get_next_addr-IsWellFormed, add_item-IsWellFormed,
  del_item-IsWellFormed,
}
use minke.Ingress.Sort.{SortLaws}
use minke.Ingress.Validity.{IsValid, empty-IsValid}
use minke.IngressHandler.{State}
use minke.Proxy.{Header, handler}
use minke.Proxy.Answers.{Answers, handler-Answers}
use minke.Processor.{make_processor}
use minke.Processor.Keeps.{Keeps, process_next_item-Keeps}
use minke.Processor.Ingresses.{ing_updater, ing_updater-Keeps}
use minke.Controller.{Processors}
use minke.System.{
  Env, System, platform_at, start_with, eps_updater, Step, notified, ended, ing_works, sec_works,
  svc_works, eps_works, preloads, asks, Reach, here, later, routes,
}

-- The parts that a request depends on are well made.
pub record IsSound {Q : Type 0} (s : System Q) : Type 0 where
  pub valid : IsValid s.ings
  pub addressed : IsWellFormed s.eps

eps_updater-Keeps : Keeps IsWellFormed eps_updater
eps_updater-Keeps = record {
  adds = λ st st' obj err w e.
      let left : (Endpoints.add_item st obj).0 ≡ st' = ground arith in
      subst IsWellFormed left (add_item-IsWellFormed st obj w);
  dels = λ st st' obj err w e.
      let left : (Endpoints.del_item st obj).0 ≡ st' = ground arith in
      subst IsWellFormed left (del_item-IsWellFormed st obj w);
}

module _ {Q : Type 0} (env : Env Q) (laws : SortLaws env.sort) where
  Step-IsSound : {s t : System Q} → Step env s t → IsSound s → IsSound t
  Step-IsSound (notified kind meta_key deletion_key e) i = record {
    valid = i.valid;
    addressed = i.addressed;
  }
  Step-IsSound (ended kind) i = record { valid = i.valid; addressed = i.addressed }
  Step-IsSound {s} (ing_works now get_by_key go q st e) i = record {
    valid =
        process_next_item-Keeps
          (make_processor env.queue get_by_key
            (ing_updater env.compile env.sort (platform_at env now) env.settings))
          (λ (st : State). IsValid st.ings)
          (ing_updater-Keeps env.compile env.sort (platform_at env now) env.settings laws) go
          s.queues.ing q (record { ings = s.ings; certs = s.certs }) st i.valid e;
    addressed = i.addressed;
  }
  Step-IsSound (sec_works now get_by_key go q certs e) i = record {
    valid = i.valid;
    addressed = i.addressed;
  }
  Step-IsSound (svc_works get_by_key go q svcs e) i = record {
    valid = i.valid;
    addressed = i.addressed;
  }
  Step-IsSound {s} (eps_works get_by_key go q set e) i = record {
    valid = i.valid;
    addressed =
        process_next_item-Keeps (make_processor env.queue get_by_key eps_updater) IsWellFormed
          eps_updater-Keeps go s.queues.eps q s.eps set i.addressed e;
  }
  Step-IsSound (preloads now keys) i = record { valid = i.valid; addressed = i.addressed }
  Step-IsSound {s} (asks key) i = record {
    valid = i.valid;
    addressed = get_next_addr-IsWellFormed s.eps key i.addressed;
  }

  pub Reach-IsSound : {s t : System Q} → IsSound s → Reach env s t → IsSound t
  Reach-IsSound i here = i
  Reach-IsSound i (later r st) = Step-IsSound st (Reach-IsSound i r)

  pub start-IsSound : (queues : Processors Q) → IsSound (start_with queues)
  start-IsSound queues = record { valid = empty-IsValid; addressed = empty-IsWellFormed }

  -- Whatever the informers report and the indexers hold, and in whatever order the workers, the
  -- preloading and the requests take their steps from the start: a request that reads the ingresses,
  -- the services and the endpoints each in some reachable state is answered in one of four ways, and
  -- no panic leaves the handler. The sort is taken to keep the promise of package sort.
  pub Reach-Answers :
      (queues : Processors Q) (s t u : System Q) (req : Request) (header : Header)
      → Reach env (start_with queues) s
      → Reach env s t
      → Reach env t u
      → Answers env.url_string env.outgoing env.transport (routes env s t u) req (
        (handler env.url_string env.outgoing env.transport (routes env s t u) req header).0,
        (handler env.url_string env.outgoing env.transport (routes env s t u) req header).1.1,
      )
  Reach-Answers queues s t u req header r r' r'' =
      let first = Reach-IsSound (start-IsSound queues) r in
      let last = Reach-IsSound (Reach-IsSound first r') r'' in
      handler-Answers env.url_string env.outgoing env.transport (routes env s t u) req header
        first.valid.ready last.addressed
