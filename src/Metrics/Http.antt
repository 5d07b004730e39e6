-- ===== src/Metrics/Http.antt =====
-- metrics.go: the metrics of the transport and of the server, and what is wrapped in them.
use minke.Base.{List, [], ◌∷◌}
use minke.GoText.{GoString, bytes}
use minke.Panic.{Run, ret, ◌>>=◌}
use minke.Metrics.{
  Kind, gauge, counter, histogram, Buckets, default, given, Collector, Package, must_register_all,
}

abbrev pub unlabelled : Kind → GoString → GoString → Buckets → List GoString → Collector
unlabelled kind name help buckets variable_labels = record {
  kind = kind;
  opts = record { subsystem = []; name = name; help = help; const_labels = []; buckets = buckets };
  variable_labels = variable_labels;
}

abbrev pub client_in_flight : Collector
client_in_flight =
    unlabelled gauge (bytes "http_client_inflight_requests")
      (bytes "A gauge of in-flight requests for the wrapped client.") default []

abbrev pub tls_latency_vec : Collector
tls_latency_vec =
    unlabelled histogram (bytes "http_client_tls_duration_seconds")
      (bytes "Trace tls latency histogram.") (given (50 ∷ 100 ∷ 250 ∷ 500 ∷ []))
      (bytes "event" ∷ [])

abbrev pub client_duration_vec : Collector
client_duration_vec =
    unlabelled histogram (bytes "http_client_request_duration_seconds")
      (bytes "A histogram of request latencies.") default (bytes "code" ∷ [])

abbrev pub server_in_flight : Collector
server_in_flight =
    unlabelled gauge (bytes "http_server_inflight_requests")
      (bytes "A gauge of requests currently being served by the wrapped handler.") default []

abbrev pub server_requests : Collector
server_requests =
    unlabelled counter (bytes "http_server_requests_total")
      (bytes "A counter for requests to the wrapped handler.") default (bytes "code" ∷ [])

abbrev pub server_duration_vec : Collector
server_duration_vec =
    unlabelled histogram (bytes "http_server_request_duration_seconds")
      (bytes "A histogram of latencies for requests.")
      (given (250 ∷ 500 ∷ 1000 ∷ 2500 ∷ 5000 ∷ 10000 ∷ [])) (bytes "code" ∷ [])

-- promhttp.InstrumentTrace, with the two hooks that are set. F is the type of the times.
pub record InstrumentTrace (F : Type 0) (M : Type 0) : Type 0 where
  pub tls_handshake_start : F → Run M
  pub tls_handshake_done : F → Run M

-- What the program calls of package promhttp, for round trippers of the type T and handlers of the
-- type H.
pub record PromHttp (F : Type 0) (M : Type 0) (T : Type 0) (H : Type 0) : Type 0 where
  pub round_tripper_in_flight : Collector → T → T
  pub round_tripper_trace : InstrumentTrace F M → T → T
  pub round_tripper_duration : Collector → T → T
  pub handler_in_flight : Collector → H → H
  pub handler_counter : Collector → H → H
  pub handler_duration : Collector → H → H

module _ {R : Type 0} {F : Type 0} {M : Type 0} {T : Type 0} {H : Type 0} (pkg : Package R M)
    (http : PromHttp F M T H) where
  -- The hooks choose a metric, and leave the time.
  abbrev pub trace : InstrumentTrace F M
  trace = record {
    tls_handshake_start =
        λ t. pkg.with_label_values tls_latency_vec (bytes "tls_handshake_start" ∷ []);
    tls_handshake_done =
        λ t. pkg.with_label_values tls_latency_vec (bytes "tls_handshake_done" ∷ []);
  }

  abbrev pub client_collectors : List Collector
  client_collectors = tls_latency_vec ∷ client_duration_vec ∷ client_in_flight ∷ []

  abbrev pub server_collectors : List Collector
  server_collectors = server_in_flight ∷ server_requests ∷ server_duration_vec ∷ []

  unfoldable pub new_http_transport_metrics : T → R → Run (R × T)
  new_http_transport_metrics upstream r = do
    r' ← must_register_all pkg client_collectors r
    ret (
      r',
      http.round_tripper_in_flight client_in_flight (
          http.round_tripper_trace trace
            (http.round_tripper_duration client_duration_vec upstream)),
    )

  unfoldable pub new_http_server_metrics : H → R → Run (R × H)
  new_http_server_metrics upstream r = do
    r' ← must_register_all pkg server_collectors r
    ret (
      r',
      http.handler_in_flight server_in_flight (
          http.handler_counter server_requests
            (http.handler_duration server_duration_vec upstream)),
    )
