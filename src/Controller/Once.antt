-- ===== src/Controller/Once.antt =====
-- Two controllers and one provider of metrics.
use mathlib.Core.Path.{subst}
use mathlib.Core.List.{Memᴰ}
use minke.Base.{Bool, List, Option, some, inr, ◌≡◌, ◌≢◌, arith, ap, sym, ◌∙◌}
use minke.GoText.{GoString, bytes}
use minke.Panic.{Run, ret, >>=-eq-ret}
use minke.Transport.{RoundTripper}
use minke.Secrets.{is_some}
use minke.Processor.{queue_name}
use minke.Metrics.{Collector, Package}
use minke.Metrics.Http.{PromHttp, tls_latency_vec}
use minke.Metrics.Registry.{RegistryLaws}
use minke.Metrics.Once.{transport_registers, transport_rejects, server_keeps}
use minke.Controller.{Processors}
use minke.Controller.Construction.{
  Built, MetricsProvider, prometheus, make_queue, wrap_transport, wrap_handler, make_queues, build,
}
use minke.Controller.Fields.{Objects, Provider, Fields, Choice}
use minke.Controller.Inversion.{Assembles, new_assembled-Assembles}
use minke.Controller.Assembly.{configured, Packages, Assembled, base_transport, new_assembled}

module _ {R : Type 0} {M : Type 0} {Q : Type 0} (pkg : Package R M) (laws : RegistryLaws pkg)
    (named_queue : GoString → R → Run (R × Q)) where
  -- A queue that is made takes nothing out of the registry.
  abbrev pub QueueKeeps : Type 0
  QueueKeeps =
      (name : GoString) (r r' : R) (q : Q) (o : Collector)
      → named_queue name r ≡ ret (r', q)
      → Memᴰ o (laws.collectors r)
      → Memᴰ o (laws.collectors r')

module _ {R : Type 0} {F : Type 0} {M : Type 0} {Q : Type 0} {T : Type 0} {H : Type 0}
    (pkg : Package R M) (laws : RegistryLaws pkg) (http : PromHttp F M T H)
    (named_queue : GoString → R → Run (R × Q)) (base : Run T) (handler : T → H) where
  abbrev metrics : Option (MetricsProvider R T H)
  metrics = some (prometheus pkg http)

  module _ (keeps : QueueKeeps pkg laws named_queue) where
    make_queue_keeps :
        (type_text : GoString) (r r' : R) (q : Q) (o : Collector)
        → make_queue named_queue base handler type_text r ≡ ret (r', q)
        → Memᴰ o (laws.collectors r)
        → Memᴰ o (laws.collectors r')
    unfolding make_queue
    make_queue_keeps type_text r r' q o e m =
        let (name, named, made) =
          >>=-eq-ret (queue_name type_text) (λ name. named_queue name r) e in
        keeps name r r' q o made m

    make_queues_keeps :
        (r r' : R) (queues : Processors Q) (o : Collector)
        → make_queues named_queue base handler r ≡ ret (r', queues)
        → Memᴰ o (laws.collectors r)
        → Memᴰ o (laws.collectors r')
    unfolding make_queues
    make_queues_keeps r r' queues o e m =
        let ((r1, sec), e1, t1) =
          >>=-eq-ret (make_queue named_queue base handler (bytes "*v1.Secret") r) _ e in
        let ((r2, svc), e2, t2) =
          >>=-eq-ret (make_queue named_queue base handler (bytes "*v1.Service") r1) _ t1 in
        let ((r3, eps), e3, t3) =
          >>=-eq-ret (make_queue named_queue base handler (bytes "*v1.Endpoints") r2) _ t2 in
        let ((r4, ing), e4, t4) =
          >>=-eq-ret (make_queue named_queue base handler (bytes "*v1beta1.Ingress") r3) _ t3 in
        let last : r4 ≡ r' = ground arith in
        subst (λ (x : R). Memᴰ o (laws.collectors x)) last
          (make_queue_keeps (bytes "*v1beta1.Ingress") r3 r4 ing o e4 (
            make_queue_keeps (bytes "*v1.Endpoints") r2 r3 eps o e3 (
              make_queue_keeps (bytes "*v1.Service") r1 r2 svc o e2
                (make_queue_keeps (bytes "*v1.Secret") r r1 sec o e1 m))))

    -- With a provider, the registry then holds the metrics of the transport.
    build_registers :
        (traced : Bool) (r r' : R) (b : Built Q T H)
        → build named_queue base handler metrics traced r ≡ ret (r', b)
        → Memᴰ tls_latency_vec (laws.collectors r')
    unfolding build
    build_registers traced r r' b e =
        let ((r1, queues), e1, t1) = >>=-eq-ret (make_queues named_queue base handler r) _ e in
        let (plain, e0, t0) = >>=-eq-ret base _ t1 in
        let ((r2, transport), e2, t2) =
          >>=-eq-ret (wrap_transport named_queue base handler metrics plain r1) _ t0 in
        let ((r3, wrapped), e3, t3) =
          >>=-eq-ret (wrap_handler named_queue base handler metrics transport r2) _ t2 in
        let last : r3 ≡ r' = ground arith in
        subst (λ (x : R). Memᴰ tls_latency_vec (laws.collectors x)) last
          (server_keeps pkg laws http (handler transport) wrapped tls_latency_vec r2 r3 e3
            (transport_registers pkg laws http plain transport r1 r2 e2))

    build_rejects :
        (traced : Bool) (r r' : R) (b : Built Q T H)
        → Memᴰ tls_latency_vec (laws.collectors r)
        → build named_queue base handler metrics traced r ≢ ret (r', b)
    unfolding build
    build_rejects traced r r' b m e =
        let ((r1, queues), e1, t1) = >>=-eq-ret (make_queues named_queue base handler r) _ e in
        let (plain, e0, t0) = >>=-eq-ret base _ t1 in
        let ((r2, transport), e2, t2) =
          >>=-eq-ret (wrap_transport named_queue base handler metrics plain r1) _ t0 in
        transport_rejects pkg laws http plain transport r1 r2
          (make_queues_keeps r r1 queues tls_latency_vec e1 m) e2

-- New with Prometheus's provider.
module _ (o : Objects) {F : Type 0} {M : Type 0} (pkg : Package o.registry M)
    (laws : RegistryLaws pkg) (http : PromHttp F M RoundTripper o.handler) (p : Packages o) where
  -- The provider that the controller has in the end.
  abbrev pub HasPrometheus : Assembled o → Type 0
  HasPrometheus a = a.fields.metrics ≡ some (prometheus pkg http)

  abbrev built_by : Fields o → o.registry → Run (o.registry × Built o.queue RoundTripper o.handler)
  built_by f =
      build p.named_queue (base_transport o p (configured o f)) p.handler
        (some (prometheus pkg http)) (is_some f.tracer)

  -- A controller that is made is built from the fields that its options leave.
  new_assembled_inv :
      (metrics : Option (Provider o)) (client : o.client) (choices : List (Choice o))
      (r r' : o.registry) (a : Assembled o)
      → new_assembled o p metrics client choices r ≡ ret (r', inr a)
      → HasPrometheus a
      → (f : Fields o) × (b : Built o.queue RoundTripper o.handler) × (built_by f r ≡ ret (r', b))
  new_assembled_inv metrics client choices r r' a e has =
      let k : Assembles o p metrics client choices r r' a =
        new_assembled-Assembles o p metrics client choices r r' a e in
      let has' : k.f.metrics ≡ some (prometheus pkg http) =
        ap (λ (x : Assembled o). x.fields.metrics) (sym k.whole) ∙ has in
      (
        k.f,
        k.built,
        ap
              (λ m.
                build p.named_queue (base_transport o p (configured o k.f)) p.handler m
                  (is_some k.f.tracer) r)
              (sym has')
            ∙ k.builds,
      )

  -- A provider of metrics serves one controller: after New has made one with it, New does not make
  -- another with it, whatever the other options of the two are. Package prometheus is taken to behave
  -- as documented, and a queue that is made to take nothing out of the registry.
  pub new_assembled_once :
      (metrics metrics' : Option (Provider o)) (client client' : o.client)
      (choices choices' : List (Choice o)) (r r' r'' : o.registry) (a a' : Assembled o)
      → QueueKeeps pkg laws p.named_queue
      → new_assembled o p metrics client choices r ≡ ret (r', inr a)
      → HasPrometheus a
      → HasPrometheus a'
      → new_assembled o p metrics' client' choices' r' ≢ ret (r'', inr a')
  new_assembled_once metrics metrics' client client' choices choices' r r' r'' a a' keeps e has has'
        e' =
      let (f, b, first) = new_assembled_inv metrics client choices r r' a e has in
      let (f', b', second) = new_assembled_inv metrics' client' choices' r' r'' a' e' has' in
      build_rejects pkg laws http p.named_queue (base_transport o p (configured o f')) p.handler
        keeps (is_some f'.tracer) r' r'' b'
        (build_registers pkg laws http p.named_queue (base_transport o p (configured o f)) p.handler
          keeps (is_some f.tracer) r r' b first)
        second
