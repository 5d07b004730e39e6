-- ===== src/Samples.antt =====
-- The small inputs that the tests share.
use minke.Base.{
  List, [], ◌∷◌, ◌++◌, Bool, true, false, Option, none, some, inr, if◌then◌else◌, ◌==◌, List_ℕ-eq,
}
use minke.Base.Int.{pos}
use minke.GoText.{GoString, bytes}
use minke.GoMap.{insert}
use minke.Http.{Url, Request}
use minke.Transport.{responded, failed, HttpTransport}
use minke.Processor.{Queue}
use minke.Kube.{
  ObjectMeta, IngressBackend, HttpIngressPath, KubeIngress, KubeEndpoints, KubeService, KubeSecret,
}
use minke.Endpoints.{ServiceKey, ServiceAddrSet, EpsSet}
use minke.Ingress.{
  PathType, prefix, exact, glob, Regexp, IngressRule, Ingress, IngressHostGroup, IngressSet,
}
use minke.Ingress.Sort.{insertion_sort}
use minke.Secrets.{Leaf, IngressKey, SecretKey, Certificate, Platform, CertMap, Certs}
use minke.Certificates.{ClientHelloInfo}
use minke.IngressHandler.{Settings, State}

abbrev pub web_key : ServiceKey
web_key = record { namespace = bytes "default"; name = bytes "web"; port_name = bytes "http" }

abbrev pub rule : PathType → GoString → IngressRule
rule pt path = record {
  host = bytes "a.test";
  re = none;
  path_type = pt;
  path = path;
  backend = web_key;
}

abbrev pub web : Ingress
web = record {
  name = bytes "web";
  namespace = bytes "default";
  priority = none;
  default_backend = none;
  rules =
      rule prefix (bytes "/api") ∷ rule exact (bytes "/api") ∷ rule glob (bytes "/files/*") ∷ [];
  http_redir = false;
}

abbrev pub web_set : IngressSet
web_set = (bytes "a.test", web ∷ []) ∷ []

abbrev pub ask : GoString → Request
ask path = record {
  host = bytes "a.test";
  url = record { scheme = []; host = []; path = path; raw_query = [] };
  tls = true;
  header = [];
}

-- Any text compiles to an expression that finds the whole of a path.
abbrev pub whole : Regexp
whole = record { find_string_submatch = λ path. path ∷ [] }

abbrev pub compile : GoString → Option Regexp
compile s = some whole

abbrev pub sort : (Ingress → Ingress → Bool) → IngressHostGroup → IngressHostGroup
sort lt = insertion_sort lt

abbrev pub meta : GoString → ObjectMeta
meta name = record { namespace = bytes "default"; name = name; annotations = [] }

abbrev pub web_backend : IngressBackend
web_backend = record {
  service_name = bytes "web";
  service_port = record { int_val = pos 0; string = bytes "http" };
}

abbrev pub api_path : HttpIngressPath
api_path = record { path = bytes "/api/"; path_type = some (bytes "Prefix"); backend = web_backend }

abbrev pub web_ingress : KubeIngress
web_ingress = record {
  meta = meta (bytes "web");
  ingress_class_name = some (bytes "minke");
  backend = none;
  rules = record { host = bytes "a.test"; http = some (api_path ∷ []) } ∷ [];
  tls = [];
}

abbrev pub web_addrs : ServiceAddrSet
web_addrs = record {
  addrs =
      record { addr = bytes "10.0.0.1"; port = pos 80 }
      ∷ record { addr = bytes "10.0.0.2"; port = pos 80 }
      ∷ [];
  index = 0;
}

abbrev pub web_eps : EpsSet
web_eps = (web_key, web_addrs) ∷ []

abbrev pub web_endpoints : KubeEndpoints
web_endpoints = record {
  meta = meta (bytes "web");
  subsets =
      record {
        addresses = bytes "10.0.0.1" ∷ bytes "10.0.0.2" ∷ [];
        ports = record { name = bytes "http"; port = pos 80 } ∷ [];
      }
      ∷ [];
}

abbrev pub web_service : KubeService
web_service = record {
  meta = meta (bytes "web");
  ports = record { name = bytes "http"; app_protocol = some (bytes "http2") } ∷ [];
}

abbrev pub web_secret : KubeSecret
web_secret = record {
  meta = meta (bytes "cert");
  contents = some ((bytes "tls.crt", bytes "crt") ∷ (bytes "tls.key", bytes "key") ∷ []);
}

-- An indexer that holds the one secret, under its name.
abbrev pub web_secrets : GoString → GoString → Option KubeSecret
web_secrets namespace name =
    if namespace == bytes "default"
    then (if name == bytes "cert" then some web_secret else none)
    else none

abbrev pub web_leaf : Leaf
web_leaf = record {
  not_before = pos 0;
  not_after = pos 9;
  issuer = bytes "CN=ca";
  subject = bytes "CN=a.test";
  dns_names = bytes "a.test" ∷ [];
  ip_addresses = [];
}

-- Each certificate encodes itself, and holds from 0 to 9.
abbrev pub platform : Platform
platform = record {
  get_secret = web_secrets;
  x509_key_pair = λ crt key. inr (crt, []);
  parse_certificate = λ encoded. inr (web_leaf);
}

abbrev pub web_cert : Certificate
web_cert = record { encoded = bytes "crt"; chain = []; leaf = web_leaf }

abbrev pub cert_key : SecretKey
cert_key = record { namespace = bytes "default"; name = bytes "cert" }

abbrev pub web_ing_key : IngressKey
web_ing_key = record { namespace = bytes "default"; name = bytes "web" }

abbrev pub no_certs : Certs
no_certs = record { secrets = []; cert_map = record { set = []; defaults = [] } }

abbrev pub web_certs : CertMap
web_certs = record {
  set =
      (
        bytes "a.test",
        record { cert = some web_cert; sec = cert_key; ing = web_ing_key; err = none } ∷ [],
      )
      ∷ [];
  defaults = [];
}

abbrev pub hello : ClientHelloInfo
hello = record { server_name = bytes "a.test"; supports_certificate = λ cert. true }

abbrev pub settings : Settings
settings = record { class = bytes "minke"; default_http_redir = true }

abbrev pub empty_state : State
empty_state = record { ings = []; certs = no_certs }

-- A proxy that adds the client to the headers.
abbrev pub outgoing : Request → Request
outgoing req = record req {
  header = insert (bytes "X-Forwarded-For") (bytes "10.1.1.1" ∷ []) req.header;
}

abbrev pub url_string : Url → GoString
url_string u = u.path

-- A backend that answers with its own host, and one that does not answer.
abbrev pub transport : HttpTransport
transport = record {
  base = λ r. responded (record { status = 200; body = r.url.host });
  http2 = λ r. failed (record { canceled = false });
}

abbrev pub pop : List GoString → Option GoString × List GoString
pop [] = (none, [])
pop (key ∷ keys) = (some key, keys)

-- A queue that does not count.
abbrev pub keys : Queue (List GoString)
keys = record {
  get = pop;
  done = λ key q. q;
  forget = λ key q. q;
  num_requeues = λ q key. pos 0;
  add_rate_limited = λ key q. key ∷ q;
  add = λ key q. q ++ key ∷ [];
  shut_down = λ q. [];
}
