-- ===== src/Controller/Assembly.antt =====
-- New of controller.go: the options, the four processors, the transports and the metrics.
use minke.Base.{true, false, List, [], Option, none, some, ◌⊎◌, inl, inr, map}
use minke.GoText.{GoString}
use minke.GoMap.Laws.{map_option}
use minke.Panic.{Run, ret, throw, runtime, ◌>>=◌}
use minke.Kube.{GoError}
use minke.Transport.{RoundTripper, round_trip}
use minke.Secrets.{is_some}
use minke.Processor.{Queue}
use minke.Controller.{Processors, apply_options, initial}
use minke.Controller.Construction.{build}
use minke.Controller.Fields.{
  Objects, Limits, TlsConfig, of_controller, ClientTransport, net_dial, ClientHttp2Transport,
  Provider, Fields, Choice, option,
}
use minke.Controller.Watches.{Api, WatchedProcessor, setup_processes}

-- The transport that New makes for itself.
abbrev pub default_limits : Limits
default_limits = record {
  dial_timeout = 30;
  keep_alive = 30;
  dual_stack = true;
  max_idle_conns = 100;
  idle_conn_timeout = 90;
  tls_handshake_timeout = 5;
  expect_continue_timeout = 10;
}

module _ (o : Objects) where
  abbrev pub transport1 : ClientTransport o
  transport1 = record { limits = default_limits; tls_client_config = none }

  abbrev pub transport2 : ClientHttp2Transport o
  transport2 = record { allow_http = true; dial_tls = some net_dial }

  -- `&tls.Config{}`
  abbrev pub empty_config : TlsConfig o
  empty_config = record {
    prefer_server_cipher_suites = false;
    curve_preferences = [];
    min_version = 0;
    cipher_suites = [];
    get_certificate = none;
    get_client_certificate = none;
  }

  abbrev pub or_empty : Option (TlsConfig o) → TlsConfig o
  or_empty none = empty_config
  or_empty (some config) = config

  -- What New writes into the two transports.
  abbrev pub with_certificate : ClientTransport o → ClientTransport o
  with_certificate t = record t {
    tls_client_config =
        some
          (record (or_empty t.tls_client_config) { get_client_certificate = some of_controller });
  }

  abbrev pub without_tls : ClientHttp2Transport o → ClientHttp2Transport o
  without_tls t = record t { allow_http = true; dial_tls = some net_dial }

  abbrev pub configured : Fields o → Fields o
  configured f = record f {
    client_transport = map_option with_certificate f.client_transport;
    client_http2_transport = map_option without_tls f.client_http2_transport;
  }

  -- What New calls of other packages: the queues, labels.Everything, otel.Tracer, and how the two
  -- transports send a request; `handler` is the handler of the controller with the proxy's transport.
  pub record Packages : Type 0 where
    pub api : Api o
    pub calls : Queue o.queue
    pub named_queue : GoString → o.registry → Run (o.registry × o.queue)
    pub everything : o.selector
    pub tracer : o.tracer
    pub send : ClientTransport o → RoundTripper
    pub send_http2 : ClientHttp2Transport o → RoundTripper
    pub handler : RoundTripper → o.handler

  pub record Assembled : Type 0 where
    pub fields : Fields o
    pub processors : Processors (WatchedProcessor o)
    pub transport : RoundTripper
    pub handler : o.handler

  -- The provider of the queues, that of the reflectors, and the variable metricsProvider.
  pub record Globals : Type 0 where
    pub of_workqueue : Option (Provider o)
    pub of_reflectors : Option (Provider o)
    pub metrics_provider : Option (Provider o)

  abbrev pub set_provider : Option (Provider o) → Globals → Globals
  set_provider p g = record { of_workqueue = p; of_reflectors = p; metrics_provider = p }

  module _ (p : Packages) where
    -- The fields before the options; `metrics` is the variable that SetProvider sets.
    abbrev pub initial_fields : Option (Provider o) → o.client → Fields o
    initial_fields metrics client = record {
      client = client;
      settings = initial;
      selector = p.everything;
      refresh = 0;
      log_func = none;
      access_log_func = none;
      set_quic_headers = none;
      client_transport = some transport1;
      client_http2_transport = some transport2;
      client_tls_certificate = none;
      metrics = metrics;
      tracer = some p.tracer;
    }

    unfoldable pub new_fields :
        Option (Provider o) → o.client → List (Choice o) → GoError ⊎ Fields o
    unfolding apply_options
    new_fields metrics client choices =
        apply_options (map (option o) choices) (initial_fields metrics client)

    -- The transport of the proxy; a nil transport is dereferenced.
    unfoldable pub base_transport : Fields o → Run RoundTripper
    unfolding round_trip
    base_transport f = elim f.client_transport [
      | none ↦ throw runtime
      | some t ↦ elim f.client_http2_transport [
        | none ↦ throw runtime
        | some t2 ↦ ret (round_trip (record { base = p.send t; http2 = p.send_http2 t2 }))
      ]
    ]

    -- The part of New after the options.
    unfoldable pub assemble : Fields o → o.registry → Run (o.registry × Assembled)
    unfolding build base_transport
    assemble f r = do
      (r', built) ←
          build p.named_queue (base_transport (configured f)) p.handler f.metrics (is_some f.tracer)
            r
      ret (
        r',
        record {
          fields = configured f;
          processors = setup_processes o p.api p.calls f built.queues;
          transport = built.transport;
          handler = built.handler;
        },
      )

    unfoldable pub new_assembled :
        Option (Provider o)
        → o.client
        → List (Choice o)
        → o.registry
        → Run (o.registry × (GoError ⊎ Assembled))
    unfolding new_fields assemble
    new_assembled metrics client choices r = elim (new_fields metrics client choices) [
      | inl err ↦ ret (r, inl err)
      | inr f ↦ assemble f r >>= λ out. ret (out.0, inr out.1)
    ]
