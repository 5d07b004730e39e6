-- ===== src/Controller/Construction.antt =====
-- New of controller.go after its options: the queues of the four processors, the transport and the
-- handler, and the metrics that wrap these.
use minke.Base.{Bool, Option, none, some, if◌then◌else◌}
use minke.GoText.{GoString, bytes}
use minke.Panic.{Run, ret, ◌>>=◌}
use minke.Processor.{queue_name}
use minke.Metrics.{Package}
use minke.Metrics.Http.{PromHttp, new_http_transport_metrics, new_http_server_metrics}
use minke.Controller.{Processors}

-- What New puts together.
pub record Built (Q : Type 0) (T : Type 0) (H : Type 0) : Type 0 where
  pub queues : Processors Q
  pub transport : T
  pub handler : H

-- tracing.go, which leaves the handler as it is.
abbrev pub add_inbound_tracing : {H : Type 0} → H → H
add_inbound_tracing next = next

-- MetricsProvider, by the two methods that New calls; R is the state of the registry.
pub record MetricsProvider (R : Type 0) (T : Type 0) (H : Type 0) : Type 0 where
  pub new_http_transport_metrics : T → R → Run (R × T)
  pub new_http_server_metrics : H → R → Run (R × H)

-- The provider of NewPrometheusMetrics.
abbrev pub prometheus :
    {R : Type 0} {F : Type 0} {M : Type 0} {T : Type 0} {H : Type 0}
    → Package R M
    → PromHttp F M T H
    → MetricsProvider R T H
prometheus pkg http = record {
  new_http_transport_metrics = new_http_transport_metrics pkg http;
  new_http_server_metrics = new_http_server_metrics pkg http;
}

-- `base` makes the transport, `handler` is the handler of the controller with the proxy's transport, and `named_queue` is workqueue.NewNamedRateLimitingQueue, which may register metrics under the name.
module _ {R : Type 0} {Q : Type 0} {T : Type 0} {H : Type 0}
    (named_queue : GoString → R → Run (R × Q)) (base : Run T) (handler : T → H) where
  -- The queue of makeProcessor, for an object of the type with this text.
  unfoldable pub make_queue : GoString → R → Run (R × Q)
  unfolding queue_name
  make_queue type_text r = queue_name type_text >>= λ name. named_queue name r

  abbrev pub wrap_transport : Option (MetricsProvider R T H) → T → R → Run (R × T)
  wrap_transport (some metrics) transport r = metrics.new_http_transport_metrics transport r
  wrap_transport none transport r = ret (r, transport)

  abbrev pub wrap_handler : Option (MetricsProvider R T H) → T → R → Run (R × H)
  wrap_handler (some metrics) transport r = metrics.new_http_server_metrics (handler transport) r
  wrap_handler none transport r = ret (r, handler transport)

  -- The setup of the four processors.
  unfoldable pub make_queues : R → Run (R × Processors Q)
  unfolding make_queue
  make_queues r = do
    (r1, sec) ← make_queue (bytes "*v1.Secret") r
    (r2, svc) ← make_queue (bytes "*v1.Service") r1
    (r3, eps) ← make_queue (bytes "*v1.Endpoints") r2
    (r4, ing) ← make_queue (bytes "*v1beta1.Ingress") r3
    ret (r4, record { ing = ing; svc = svc; sec = sec; eps = eps })

  -- The part of New after the options; `traced` tells whether there is a tracer.
  unfoldable pub build : Option (MetricsProvider R T H) → Bool → R → Run (R × Built Q T H)
  unfolding make_queues
  build metrics traced r = do
    (r1, queues) ← make_queues r
    plain ← base
    (r2, transport) ← wrap_transport metrics plain r1
    (r3, wrapped) ← wrap_handler metrics transport r2
    ret (
      r3,
      record {
        queues = queues;
        transport = transport;
        handler = if traced then add_inbound_tracing wrapped else wrapped;
      },
    )
