-- ===== src/Controller/Fields.antt =====
-- controller.go: the settings of the controller with the objects of other packages, the options that
-- set them, and the fields as New sets them first.
use minke.Base.{ℕ, Bool, List, Option, none}
use minke.GoText.{GoString}
use minke.Kube.{GoError}
use minke.Secrets.{Certificate}
use minke.Transport.{RoundTripper}
use minke.Controller.{
  Controller, Setting, with_class, with_namespace, with_default_backend, with_default_tls_secrets,
  with_client_tls_secret, with_default_http_redirect,
}
use minke.Controller.Construction.{MetricsProvider}

-- The types of the objects that the controller only passes on.
pub record Objects : Type 1 where
  pub client : Type 0
  pub selector : Type 0
  pub tracer : Type 0
  pub log_func : Type 0
  pub quic_func : Type 0
  -- The functions that a caller may have put into a transport.
  pub dial_func : Type 0
  pub certificate_func : Type 0
  pub registry : Type 0
  pub handler : Type 0
  -- The fields of metav1.ListOptions but the label selector.
  pub list_fields : Type 0
  pub watched : Type 0
  pub queue : Type 0

pub data Curve : Type 0 where
  curve_p256 x25519 : Curve

pub data CipherSuite : Type 0 where
  ecdhe_ecdsa_with_aes_256_gcm_sha384 ecdhe_rsa_with_aes_256_gcm_sha384 : CipherSuite
  ecdhe_ecdsa_with_chacha20_poly1305 ecdhe_rsa_with_chacha20_poly1305 : CipherSuite
  ecdhe_ecdsa_with_aes_128_gcm_sha256 ecdhe_rsa_with_aes_128_gcm_sha256 : CipherSuite

-- The settings of a transport of net/http that the program gives, in seconds where they are times.
pub record Limits : Type 0 where
  pub dial_timeout : ℕ
  pub keep_alive : ℕ
  pub dual_stack : Bool
  pub max_idle_conns : ℕ
  pub idle_conn_timeout : ℕ
  pub tls_handshake_timeout : ℕ
  pub expect_continue_timeout : ℕ

module _ (o : Objects) where
  -- The callback of a certificate: the method of the controller, or a function of a caller.
  pub data CertificateSource : Type 0 where
    of_controller : CertificateSource
    of_caller : o.certificate_func → CertificateSource

  -- tls.Config, by the fields that the program sets.
  pub record TlsConfig : Type 0 where
    pub prefer_server_cipher_suites : Bool
    pub curve_preferences : List Curve
    pub min_version : ℕ
    pub cipher_suites : List CipherSuite
    pub get_certificate : Option CertificateSource
    pub get_client_certificate : Option CertificateSource

  pub record ClientTransport : Type 0 where
    pub limits : Limits
    pub tls_client_config : Option TlsConfig

  -- The function that dials for http2: net.Dial, without TLS, or a function of a caller.
  pub data Dial : Type 0 where
    net_dial : Dial
    dial_of_caller : o.dial_func → Dial

  pub record ClientHttp2Transport : Type 0 where
    pub allow_http : Bool
    pub dial_tls : Option Dial

  abbrev pub Provider : Type 0
  Provider = MetricsProvider o.registry RoundTripper o.handler

  -- A nil pointer, interface or function is none.
  pub record Fields : Type 0 where
    pub client : o.client
    pub settings : Controller
    pub selector : o.selector
    -- In nanoseconds.
    pub refresh : ℕ
    pub log_func : Option o.log_func
    pub access_log_func : Option o.log_func
    pub set_quic_headers : Option o.quic_func
    pub client_transport : Option ClientTransport
    pub client_http2_transport : Option ClientHttp2Transport
    pub client_tls_certificate : Option Certificate
    pub metrics : Option Provider
    pub tracer : Option o.tracer

  abbrev pub FieldSetting : Type 0
  FieldSetting = Fields → Fields × Option GoError

  -- An option on texts.
  abbrev pub on_settings : Setting → FieldSetting
  on_settings opt f = let (c, err) = opt f.settings in (record f { settings = c }, err)

  abbrev pub with_selector : o.selector → FieldSetting
  with_selector s f = (record f { selector = s }, none)

  abbrev pub with_client_http_transport : Option ClientTransport → FieldSetting
  with_client_http_transport t f = (record f { client_transport = t }, none)

  abbrev pub with_client_http2_transport : Option ClientHttp2Transport → FieldSetting
  with_client_http2_transport t f = (record f { client_http2_transport = t }, none)

  abbrev pub with_log_func : Option o.log_func → FieldSetting
  with_log_func g f = (record f { log_func = g }, none)

  abbrev pub with_access_log_func : Option o.log_func → FieldSetting
  with_access_log_func g f = (record f { access_log_func = g }, none)

  abbrev pub with_tracer : Option o.tracer → FieldSetting
  with_tracer t f = (record f { tracer = t }, none)

  abbrev pub with_metrics_provider : Option Provider → FieldSetting
  with_metrics_provider m f = (record f { metrics = m }, none)

  abbrev pub with_set_quic_headers : Option o.quic_func → FieldSetting
  with_set_quic_headers g f = (record f { set_quic_headers = g }, none)

  -- A call of one of the functions that return an option.
  pub data Choice : Type 0 where
    of_class of_namespace of_default_backend of_client_tls_secret : GoString → Choice
    of_default_tls_secrets : List GoString → Choice
    of_default_http_redirect : Bool → Choice
    of_selector : o.selector → Choice
    of_client_http_transport : Option ClientTransport → Choice
    of_client_http2_transport : Option ClientHttp2Transport → Choice
    of_log_func of_access_log_func : Option o.log_func → Choice
    of_tracer : Option o.tracer → Choice
    of_metrics_provider : Option Provider → Choice
    of_set_quic_headers : Option o.quic_func → Choice

  -- The option that a call returns.
  abbrev pub option : Choice → FieldSetting
  option (of_class cls) = on_settings (with_class cls)
  option (of_namespace ns) = on_settings (with_namespace ns)
  option (of_default_backend str) = on_settings (with_default_backend str)
  option (of_client_tls_secret str) = on_settings (with_client_tls_secret str)
  option (of_default_tls_secrets strs) = on_settings (with_default_tls_secrets strs)
  option (of_default_http_redirect redir) = on_settings (with_default_http_redirect redir)
  option (of_selector s) = with_selector s
  option (of_client_http_transport t) = with_client_http_transport t
  option (of_client_http2_transport t) = with_client_http2_transport t
  option (of_log_func g) = with_log_func g
  option (of_access_log_func g) = with_access_log_func g
  option (of_tracer t) = with_tracer t
  option (of_metrics_provider m) = with_metrics_provider m
  option (of_set_quic_headers g) = with_set_quic_headers g
