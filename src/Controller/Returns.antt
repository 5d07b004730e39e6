-- ===== src/Controller/Returns.antt =====
-- New returns, on a registry that holds what NewPrometheusMetrics has registered and nothing in its
-- way.
use mathlib.Core.List.{Nodup}
use minke.Base.{
  Bool, true, List, [], ◌∷◌, some, ◌≡◌, refl, ap, ◌∙◌, All, ℕ_discrete, List_ℕ-discrete, arith,
  if◌then◌else◌,
}
use minke.GoText.{GoString, bytes, split, to_lower}
use minke.Panic.{Run, ret, ◌>>=◌}
use minke.Processor.{queue_name}
use minke.Metrics.{Package, provider, vectors}
use minke.Metrics.Http.{
  PromHttp, client_in_flight, client_duration_vec, server_in_flight, server_requests,
  server_duration_vec, trace, client_collectors, server_collectors, new_http_transport_metrics,
  new_http_server_metrics,
}
use minke.Metrics.Registry.{RegistryLaws}
use minke.Metrics.Names.{Metric}
use minke.Metrics.Calls.{made_by, calls, calls_iff}
use minke.Metrics.Setup.{reverse_onto, room_for}
use minke.Metrics.Rounds.{round, rounds, AllOther, rounds-Nodup, calls-append}
use minke.Metrics.Room.{IsUnused, HttpFree-calls, wrappers-return}
use minke.Controller.{Processors}
use minke.Controller.Construction.{
  Built, prometheus, add_inbound_tracing, make_queue, make_queues, build,
}

-- The names of the four queues, in the order in which New makes them.
abbrev pub queue_names : List GoString
queue_names = bytes "secret" ∷ bytes "service" ∷ bytes "endpoints" ∷ bytes "ingress" ∷ []

queue_names-AllOther : AllOther queue_names
unfolding List_ℕ-discrete
queue_names-AllOther = (refl, (refl, (refl, (refl, tt))))

module _ {R : Type 0} {M : Type 0} {F : Type 0} {Q : Type 0} {T : Type 0} {H : Type 0}
    (pkg : Package R M) (laws : RegistryLaws pkg) (http : PromHttp F M T H)
    (named_queue : GoString → R → Run (R × Q)) where
  -- The documented behaviour of a queue that has a name and a provider of metrics: it calls some
  -- methods of the provider, each once and with its name.
  pub record QueueLaws : Type 0 where
    pub metrics : List Metric
    pub once : Nodup metrics
    pub queue : GoString → Q
    pub makes :
        (name : GoString) (r : R)
        → named_queue name r ≡ (calls pkg (round metrics name) r >>= λ r'. ret (r', queue name))

  -- The registry takes the program's own metrics for valid.
  pub record AllValid (q : QueueLaws) : Type 0 where
    pub of_vectors : All (λ c. laws.is_valid c ≡ true) (vectors provider)
    pub of_queues : All (λ c. laws.is_valid (made_by c) ≡ true) (rounds q.metrics queue_names)
    pub of_client : All (λ c. laws.is_valid c ≡ true) (client_collectors pkg http)
    pub of_server : All (λ c. laws.is_valid c ≡ true) (server_collectors pkg http)

  module _ (q : QueueLaws) (base : Run T) (handler : T → H) where
    make_queue_lem :
        (type_text name : GoString) (r s : R)
        → queue_name type_text ≡ ret name
        → calls pkg (round q.metrics name) r ≡ ret s
        → make_queue named_queue base handler type_text r ≡ ret (s, q.queue name)
    unfolding make_queue
    make_queue_lem type_text name r s e e' = rw e (q.makes name r ∙ rw e' refl)

    abbrev queues : Processors Q
    queues = record {
      ing = q.queue (bytes "ingress");
      svc = q.queue (bytes "service");
      sec = q.queue (bytes "secret");
      eps = q.queue (bytes "endpoints");
    }

    abbrev wrapped_transport : T → T
    wrapped_transport plain = http.round_tripper_in_flight client_in_flight (
        http.round_tripper_trace (trace pkg http)
          (http.round_tripper_duration client_duration_vec plain))

    abbrev wrapped_handler : H → H
    wrapped_handler plain =
        http.handler_in_flight server_in_flight
          (http.handler_counter server_requests (http.handler_duration server_duration_vec plain))

    make_queues_lem :
        (r r' : R)
        → calls pkg (rounds q.metrics queue_names) r ≡ ret r'
        → make_queues named_queue base handler r ≡ ret (r', queues)
    unfolding make_queues queue_name split to_lower ℕ_discrete
    make_queues_lem r r' e =
        let (r1, e1, t1) = calls-append pkg (round q.metrics (bytes "secret")) _ r r' e in
        let (r2, e2, t2) = calls-append pkg (round q.metrics (bytes "service")) _ r1 r' t1 in
        let (r3, e3, t3) = calls-append pkg (round q.metrics (bytes "endpoints")) _ r2 r' t2 in
        let (r4, e4, t4) = calls-append pkg (round q.metrics (bytes "ingress")) [] r3 r' t3 in
        let m1 = make_queue_lem (bytes "*v1.Secret") (bytes "secret") r r1 refl e1 in
        let m2 = make_queue_lem (bytes "*v1.Service") (bytes "service") r1 r2 refl e2 in
        let m3 = make_queue_lem (bytes "*v1.Endpoints") (bytes "endpoints") r2 r3 refl e3 in
        let m4 = make_queue_lem (bytes "*v1beta1.Ingress") (bytes "ingress") r3 r4 refl e4 in
        let last : r4 ≡ r' = ground arith in rw (m1, m2, m3, m4) (ap (λ x. ret (x, queues)) last)

    -- On a registry that held nothing in the way before the vectors of NewPrometheusMetrics.
    pub build-returns :
        (r0 r : R) (plain : T) (traced : Bool)
        → AllValid q
        → IsUnused pkg laws r0
        → laws.collectors r ≡ reverse_onto (vectors provider) (laws.collectors r0)
        → base ≡ ret plain
        → (r' : R) × (b : Built Q T H) × (build named_queue base handler
              (some (prometheus pkg http))
              traced
              r
            ≡ ret (r', b))
    unfolding build new_http_transport_metrics new_http_server_metrics
    build-returns r0 r plain traced v unused held b =
        let nodup : Nodup (rounds q.metrics queue_names) =
          rounds-Nodup q.metrics queue_names q.once queue_names-AllOther in
        let (r1, called) =
          (calls_iff pkg laws (rounds q.metrics queue_names) r v.of_queues
              (room_for pkg laws (rounds q.metrics queue_names) r0 r unused.free held)).0
            nodup in
        let (r2, r3, e2, e3) =
          wrappers-return pkg laws http r1
            (HttpFree-calls pkg laws http (rounds q.metrics queue_names) r0 r r1 unused held called)
            v.of_client v.of_server in
        let t : T = wrapped_transport plain in
        let w : H = wrapped_handler (handler t) in
        let built : Built Q T H = record {
          queues = queues;
          transport = t;
          handler = if traced then add_inbound_tracing w else w;
        } in
        (r3, built, rw (make_queues_lem r r1 called, b, e2, e3) refl)
