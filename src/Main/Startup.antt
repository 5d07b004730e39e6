-- ===== src/Main/Startup.antt =====
-- cmd/minke/main.go up to its listeners: the metrics, the client, the settings of TLS, the controller
-- and the servers.
use minke.Base.{ℕ, true, List, [], ◌∷◌, Option, none, some, ◌⊎◌, inl, inr}
use minke.GoText.{GoString, bytes}
use minke.Panic.{Run, ret, ◌>>=◌}
use minke.Kube.{GoError}
use minke.Transport.{RoundTripper}
use minke.Metrics.{Collector, Package, new_prometheus_metrics}
use minke.Metrics.Http.{PromHttp}
use minke.Controller.Construction.{prometheus}
use minke.Controller.Fields.{
  Objects, Curve, curve_p256, x25519, CipherSuite, ecdhe_ecdsa_with_aes_256_gcm_sha384,
  ecdhe_rsa_with_aes_256_gcm_sha384, ecdhe_ecdsa_with_chacha20_poly1305,
  ecdhe_rsa_with_chacha20_poly1305, ecdhe_ecdsa_with_aes_128_gcm_sha256,
  ecdhe_rsa_with_aes_128_gcm_sha256, of_controller, TlsConfig, ClientTransport, Choice,
  of_namespace, of_class, of_selector, of_default_http_redirect, of_default_tls_secrets,
  of_client_http_transport, of_client_tls_secret, of_set_quic_headers,
}
use minke.Controller.Assembly.{
  default_limits, Packages, Assembled, Globals, set_provider, new_assembled,
}
use minke.Main.{FlagValues, default_secrets}

pub record Flags : Type 0 where
  pub master_url : GoString
  pub kubeconfig : GoString
  pub selector : GoString
  pub admin_addr : GoString
  pub http_addr : GoString
  pub https_addr : GoString
  pub options : FlagValues

-- tls.VersionTLS12
abbrev pub tls_min_version : ℕ
tls_min_version = 771

abbrev pub ciphers : List CipherSuite
ciphers =
    ecdhe_ecdsa_with_aes_256_gcm_sha384 ∷ ecdhe_rsa_with_aes_256_gcm_sha384
    ∷ ecdhe_ecdsa_with_chacha20_poly1305 ∷ ecdhe_rsa_with_chacha20_poly1305
    ∷ ecdhe_ecdsa_with_aes_128_gcm_sha256 ∷ ecdhe_rsa_with_aes_128_gcm_sha256 ∷ []

abbrev pub curves : List Curve
curves = curve_p256 ∷ x25519 ∷ []

-- What a path of the admin server leads to.
pub data AdminHandler : Type 0 where
  metrics livez readyz status : AdminHandler
  pprof_index pprof_cmdline pprof_profile pprof_symbol pprof_trace : AdminHandler

abbrev pub admin_mux : List (GoString × AdminHandler)
admin_mux =
    (bytes "/metrics", metrics)
    ∷ (bytes "/livez", livez)
    ∷ (bytes "/readyz", readyz)
    ∷ (bytes "/status", status)
    ∷ (bytes "/debug/pprof/", pprof_index)
    ∷ (bytes "/debug/pprof/cmdline", pprof_cmdline)
    ∷ (bytes "/debug/pprof/profile", pprof_profile)
    ∷ (bytes "/debug/pprof/symbol", pprof_symbol)
    ∷ (bytes "/debug/pprof/trace", pprof_trace)
    ∷ []

module _ (o : Objects) where
  abbrev pub tls_client_config : TlsConfig o
  tls_client_config = record {
    prefer_server_cipher_suites = true;
    curve_preferences = curves;
    min_version = tls_min_version;
    cipher_suites = ciphers;
    get_certificate = none;
    get_client_certificate = none;
  }

  abbrev pub main_transport : ClientTransport o
  main_transport = record { limits = default_limits; tls_client_config = some tls_client_config }

  abbrev pub tls_config : TlsConfig o
  tls_config = record tls_client_config { get_certificate = some of_controller }

  -- The options of New.
  abbrev pub choices : FlagValues → o.selector → o.quic_func → List (Choice o)
  choices flags selector setquicheaders =
      of_namespace flags.namespace
      ∷ of_class flags.class
      ∷ of_selector selector
      ∷ of_default_http_redirect flags.http_redir
      ∷ of_default_tls_secrets (default_secrets flags.server_tls_default_secrets)
      ∷ of_client_http_transport (some main_transport)
      ∷ of_client_tls_secret flags.client_tls_secret
      ∷ of_set_quic_headers (some setquicheaders)
      ∷ []

  -- Times are in seconds.
  pub record Server : Type 0 where
    pub read_timeout : ℕ
    pub write_timeout : ℕ
    pub addr : GoString
    pub handler : o.handler
    pub tls : Option (TlsConfig o)

  abbrev pub server : Flags → o.handler → Server
  server flags handler = record {
    read_timeout = 5;
    write_timeout = 5;
    addr = flags.http_addr;
    handler = handler;
    tls = none;
  }

  -- The server of the https listener, which the http3 server holds too.
  abbrev pub tls_server : Flags → o.handler → Server
  tls_server flags handler = record {
    read_timeout = 5;
    write_timeout = 5;
    addr = flags.https_addr;
    handler = handler;
    tls = some tls_config;
  }

  -- The part of an http3.Server that is set: the server whose address, handler and settings of TLS
  -- it takes.
  pub record Http3Server : Type 0 where
    pub server : Server

  abbrev pub http3server : Server → Http3Server
  http3server s = record { server = s }

  -- What the listeners are given. The https one listens with the settings of TLS of its server.
  pub record Serving : Type 0 where
    pub controller : Assembled o
    pub admin_addr : GoString
    pub admin : List (GoString × AdminHandler)
    pub http : Server
    pub https : Server
    pub http3 : Http3Server

  -- How the start ends: with Fatalf of klog, a panic with the text of an error, Fatalf of log, or
  -- with the listeners.
  pub data Started : Type 0 where
    fatal_config : GoError → Started
    panics : GoError → Started
    fatal_controller : GoError → Started
    serving : Serving → Started

  -- What main calls of other packages.
  pub record Dependencies (C : Type 0) (F : Type 0) (M : Type 0) : Type 0 where
    pub build_config_from_flags : GoString → GoString → GoError ⊎ C
    pub new_for_config : C → GoError ⊎ o.client
    pub parse_selector : GoString → GoError ⊎ o.selector
    -- SetQuicHeaders of a server of http3 with this address.
    pub set_quic_headers : GoString → o.quic_func
    pub new_registry : o.registry
    pub process_collector : Collector
    pub go_collector : Collector
    pub registry : Package o.registry M
    pub promhttp : PromHttp F M RoundTripper o.handler
    pub packages : Globals o → Packages o

  module _ {C : Type 0} {F : Type 0} {M : Type 0} (d : Dependencies C F M) (flags : Flags) where
    -- What the listeners are given of a controller.
    abbrev pub serving_by : Assembled o → Serving
    serving_by ctrl = record {
      controller = ctrl;
      admin_addr = flags.admin_addr;
      admin = admin_mux;
      http = server flags ctrl.handler;
      https = tls_server flags ctrl.handler;
      http3 = http3server (tls_server flags ctrl.handler);
    }

    -- The end of the start, from what New returns.
    abbrev pub started_by : GoError ⊎ Assembled o → Started
    started_by (inl err) = fatal_controller err
    started_by (inr ctrl) = serving (serving_by ctrl)

    abbrev pub globals : Globals o → Globals o
    globals g = set_provider o (some (prometheus d.registry d.promhttp)) g

    -- The part of main from the client on.
    unfoldable pub start_controller : C → Globals o → o.registry → Run Started
    unfolding new_assembled
    start_controller cfg g r = elim (d.new_for_config cfg) [
      | inl err ↦ ret (panics err)
      | inr clientset ↦ elim (d.parse_selector flags.selector) [
        | inl err ↦ ret (panics err)
        | inr selector ↦
            new_assembled o (d.packages g) g.metrics_provider clientset
              (choices flags.options selector (d.set_quic_headers flags.https_addr)) r
            >>= λ out. ret (started_by out.1)
      ]
    ]

    unfoldable pub start : Globals o → Run Started
    unfolding start_controller new_prometheus_metrics
    start g = elim (d.build_config_from_flags flags.master_url flags.kubeconfig) [
      | inl err ↦ ret (fatal_config err)
      | inr cfg ↦ do
        r1 ← d.registry.must_register d.process_collector d.new_registry
        r2 ← d.registry.must_register d.go_collector r1
        (r3, provider) ← new_prometheus_metrics d.registry r2
        start_controller cfg (globals g) r3
    ]
